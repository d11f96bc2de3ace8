-- ===== src/Tests/Start.antt =====
-- An engine that is about to start, on concrete inputs.
use mynance.Base.{All, not, arith, ◌≡◌, refl, false, [], ◌∷◌, some, Bytes, bytes, ltb, arith, ◌=ᵇ◌}
use mynance.Base.Int.{pos, negsuc, ◌-ℤ◌}
use mynance.Book.{buy, sell, Order, new_order_book}
use mynance.Book.Valid.{Uncrossed}
use mynance.Shared.{ok, ◌>>=◌, guard}
use mynance.Store.{io}
use mynance.Engine.{
  Engine, Shard, shard_of, put_shard, new_shards, buffer_capacity, new_engine, load_order,
}
use mynance.Engine.Rehydrate.{
  Texts, ComparesZero, FiniteRow, rehydrate_engine, SidesValid, AllSides, rehydrate_engine-AllSides,
}
use mynance.Engine.Channel.{every_shard-put_shard}
use mynance.Engine.Crossed.{load_order-crossed}
use mynance.Tests.{env, db, btc_usdt}

abbrev texts : Texts
texts = record {
  uuid_text = λ id. id ∷ [];
  float_of = λ z. elim z [ pos n ↦ some n | negsuc n ↦ some 0 ];
  at_most_zero = λ n. not (ltb 0 n);
}

unfoldable engine : Engine
unfolding new_engine new_shards put_shard buffer_capacity
engine = new_engine (btc_usdt ∷ []) (pos 4)

abbrev shard : Shard
shard = record { book = new_order_book btc_usdt; cmd_ch = []; capacity = 4; seq = 0 }

no_shards : (symbol : Bytes) (sh : Shard) → shard_of symbol [] ≡ some sh → SidesValid sh.book
unfolding shard_of
no_shards symbol sh h = cc

engine-AllSides : AllSides engine
unfolding engine shard_of new_order_book
engine-AllSides =
    every_shard-put_shard (λ x. SidesValid x.book) btc_usdt shard [] (tt, tt) no_shards

loaded : (x : Engine) × (rehydrate_engine texts env db engine (btc_usdt ∷ []) ≡ ok x)
unfolding rehydrate_engine ◌>>=◌ guard io
loaded = (_, refl)

above_zero : ComparesZero texts
above_zero n finite h = ground (arith, h)

orders_finite : All (FiniteRow texts) db.orders
unfolding ◌-ℤ◌
orders_finite = ((omega arith, omega arith), ((omega arith, omega arith), tt))

rehydrate_engine-AllSides_example : AllSides loaded.0
rehydrate_engine-AllSides_example =
    rehydrate_engine-AllSides texts env db engine loaded.0 (btc_usdt ∷ []) above_zero orders_finite
      engine-AllSides loaded.1

abbrev bid : Order
bid = record {
  id = bytes "1";
  user_id = bytes "1";
  symbol = btc_usdt;
  side = buy;
  price = 20;
  quantity = 3;
  remaining = 3;
}

abbrev ask : Order
ask = record bid { id = bytes "2"; user_id = bytes "2"; side = sell; price = 19 }

stopped : engine.started ≡ false
unfolding engine
stopped = refl

there : shard_of btc_usdt engine.shards ≡ some shard
unfolding engine shard_of ◌=ᵇ◌
there = refl

load_order-crossed_example :
    (x : Shard) × (shard_of btc_usdt (load_order (load_order engine bid) ask).shards ≡ some x)
    × (¬ Uncrossed x.book.bids x.book.asks)
unfolding new_order_book
load_order-crossed_example =
    load_order-crossed engine bid ask shard stopped there refl refl refl refl refl (omega arith)
