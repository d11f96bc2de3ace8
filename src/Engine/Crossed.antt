-- ===== src/Engine/Crossed.antt =====
-- Orders that cross, loaded by `LoadOrder` of internal/engine/engine.go, which does not match.
use mynance.Base.{
  ◌≤◌, ◌<◌, ◌≡◌, ◌∙◌, refl, ap, subst, true, false, List, [], ◌∷◌, some, Bytes, if◌then◌else◌,
  arith,
}
use mynance.Book.{
  Order, OrderBook, is_buy, add_bid, add_ask, add_bid_level, add_ask_level, PriceLevel, new_level,
}
use mynance.Book.Valid.{Uncrossed}
use mynance.Engine.{Engine, Shard, shard_of, load_order}
use mynance.Engine.Channel.{shard_of-put_self}
use mynance.Engine.Rehydrate.{load_order-put}

abbrev added : OrderBook → Order → OrderBook
added book o = if is_buy o.side then add_bid book o else add_ask book o

load_order-shard :
    (e : Engine) (o : Order) (sh : Shard)
    → e.started ≡ false
    → shard_of o.symbol e.shards ≡ some sh
    → (shard_of o.symbol (load_order e o).shards ≡ some (record sh { book = added sh.book o }))
      × ((load_order e o).started ≡ false)
load_order-shard e o sh s f =
    let p = load_order-put e o sh s f in
    (
      ap (λ (x : Engine). shard_of o.symbol x.shards) p
          ∙ shard_of-put_self o.symbol (record sh { book = added sh.book o }) e.shards,
      ap (λ (x : Engine). x.started) p ∙ s,
    )

bids_of :
    (book : OrderBook) (bid ask : Order)
    → book.bids ≡ []
    → is_buy bid.side ≡ true
    → is_buy ask.side ≡ false
    → (added (added book bid) ask).bids ≡ new_level bid ∷ []
unfolding add_bid add_ask add_bid_level
bids_of book bid ask b buys sells = simp (buys, sells, b) refl

asks_of :
    (book : OrderBook) (bid ask : Order)
    → book.asks ≡ []
    → is_buy bid.side ≡ true
    → is_buy ask.side ≡ false
    → (added (added book bid) ask).asks ≡ new_level ask ∷ []
unfolding add_bid add_ask add_ask_level
asks_of book bid ask a buys sells = simp (buys, sells, a) refl

crossed :
    (book : OrderBook) (bid ask : Order)
    → book.bids ≡ []
    → book.asks ≡ []
    → is_buy bid.side ≡ true
    → is_buy ask.side ≡ false
    → ask.price ≤ bid.price
    → ¬ Uncrossed (added (added book bid) ask).bids (added (added book bid) ask).asks
crossed book bid ask b a buys sells over u =
    let below : bid.price < ask.price =
      subst (λ (ls : List PriceLevel). Uncrossed (new_level bid ∷ []) ls)
        (asks_of book bid ask a buys sells)
        (subst (λ (ls : List PriceLevel). Uncrossed ls (added (added book bid) ask).asks)
          (bids_of book bid ask b buys sells) u) in
    omega (arith, below, over)

-- Loading does not match: if an engine that has not started has no orders in a symbol, and a bid and
-- then an ask at or below its price are loaded, then its book stands with a best bid that is not below the
-- best ask.
pub load_order-crossed :
    (e : Engine) (bid ask : Order) (sh : Shard)
    → e.started ≡ false
    → shard_of bid.symbol e.shards ≡ some sh
    → sh.book.bids ≡ []
    → sh.book.asks ≡ []
    → ask.symbol ≡ bid.symbol
    → is_buy bid.side ≡ true
    → is_buy ask.side ≡ false
    → ask.price ≤ bid.price
    → (x : Shard) × (shard_of ask.symbol (load_order (load_order e bid) ask).shards ≡ some x)
      × (¬ Uncrossed x.book.bids x.book.asks)
load_order-crossed e bid ask sh s f b a same buys sells over =
    let first = load_order-shard e bid sh s f in
    let there = ap (λ (y : Bytes). shard_of y (load_order e bid).shards) same ∙ first.0 in
    let second =
      load_order-shard (load_order e bid) ask (record sh { book = added sh.book bid }) first.1
        there in
    (
      record sh { book = added (added sh.book bid) ask },
      second.0,
      crossed sh.book bid ask b a buys sells over,
    )
