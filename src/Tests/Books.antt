-- ===== src/Tests/Books.antt =====
-- The order book and the engine of internal/engine/ on concrete inputs.
use mathlib.Core.Option
use mynance.Base.{refl, ◌≡◌, true, [], ◌∷◌, none, some, Bytes, bytes, arith, ℕ}
use mynance.Book.{Side, Order, OrderBook, buy, sell}
use mynance.Book.Cancel.{cancel}
use mynance.Book.CancelQueues.{view_cancel, cancel_resting, cancel-cancel_resting}
use mynance.Book.Float.{subnormal_sub, subnormal_sub-IsSub}
use mynance.Book.Match.{match}
use mynance.Book.Priority.{outcome, match_queues, match-match_queues}
use mynance.Book.Sweep.{flatten}
use mynance.Book.Valid.{IsValid, Ensures, match-IsValid}
use mynance.Engine.{Command, Engine, place_order, shard_of, handle, run_worker}
use mynance.Engine.Channel.{Fits}
use mynance.Engine.Published.{Publishes, handle-Publishes}
use mynance.Engine.Worker.{AllValid, Works, run_worker-Works}
use mynance.Tests.{btc_usdt}

abbrev order : Bytes → Side → ℕ → ℕ → Order
order id side price quantity = record {
  id = id;
  user_id = bytes "u";
  symbol = btc_usdt;
  side = side;
  price = price;
  quantity = quantity;
  remaining = quantity;
}

-- Two asks at 20 and one at 21 against a bid at 18.
abbrev book : OrderBook
book = record {
  symbol = btc_usdt;
  bids = record { price = 18; orders = order (bytes "b") buy 18 4 ∷ [] } ∷ [];
  asks =
      record { price = 20; orders = order (bytes "c") sell 20 2 ∷ order (bytes "d") sell 20 3 ∷ [] }
      ∷ record { price = 21; orders = order (bytes "e") sell 21 1 ∷ [] }
      ∷ [];
}

book-IsValid : IsValid book
book-IsValid = record {
  bids_sorted = ground arith;
  asks_sorted = ground arith;
  uncrossed = omega arith;
}

abbrev taker : Order
taker = order (bytes "t") buy 20 4

match-match_queues_example :
    Option.map outcome (match subnormal_sub book taker)
    ≡ some (match_queues subnormal_sub book taker)
match-match_queues_example =
    match-match_queues subnormal_sub subnormal_sub-IsSub book taker book-IsValid

match-IsValid_example : Ensures (λ m. IsValid m.book) (match subnormal_sub book taker)
match-IsValid_example = match-IsValid subnormal_sub subnormal_sub-IsSub book taker book-IsValid

cancel-cancel_resting_example :
    view_cancel (cancel book (bytes "d"))
    ≡ cancel_resting (flatten book.bids) (flatten book.asks) (bytes "d")
cancel-cancel_resting_example = cancel-cancel_resting book (bytes "d")

abbrev command : Command
command = record { kind = place_order; order = some taker; cancel = none }

handle-Publishes_example :
    Ensures
      (Publishes 7 taker (match_queues subnormal_sub book taker))
      (handle subnormal_sub book 7 command)
handle-Publishes_example =
    handle-Publishes subnormal_sub subnormal_sub-IsSub book 7 command taker refl refl book-IsValid

abbrev engine : Engine
engine = record {
  shards = (btc_usdt, record { book = book; cmd_ch = command ∷ []; capacity = 2; seq = 7 }) ∷ [];
  started = true;
}

engine-Fits : Fits engine
unfolding shard_of
engine-Fits symbol sh h = ground arith

engine-AllValid : AllValid engine
unfolding shard_of
engine-AllValid symbol sh h = ground (arith, book-IsValid)

run_worker-Works_example :
    Ensures (Works engine btc_usdt) (run_worker subnormal_sub engine btc_usdt)
run_worker-Works_example =
    run_worker-Works subnormal_sub subnormal_sub-IsSub engine btc_usdt engine-AllValid
