-- ===== src/Book/Priority.antt =====
-- Matching without levels: a sweep over the opposite queue in price-time priority, and what is left
-- of the incoming order joins its own queue behind every order of its price or a better one.
use mathlib.Core.Option
use mynance.Base.{
  ℕ, suc, ◌≡◌, refl, inl, inr, Bool, false, List, [], ◌∷◌, ◌++◌, some, subst, ==_iff, ltb, ◌==◌,
  if◌then◌else◌, length, is_empty, All, Bool-cases, arith, sym,
}
use mynance.Book.{Order, Trade, PriceLevel, OrderBook, is_buy, add, append_order, add_bid, add_ask}
use mynance.Book.Match.{
  Matched, buy_stops, sell_stops, buy_trade, sell_trade, with_left, match_buy, match_sell, match,
}
use mynance.Book.Float.{IsSub}
use mynance.Book.Loop.{sweep_levels, match_levels-sweep_levels}
use mynance.Book.Sweep.{flatten, at_price, HasOrders, sweep, sweep_levels-sweep}
use mynance.Book.Insert.{
  bids_ahead, asks_ahead, Behind, Sorted, insert, add_bid_level-insert, add_ask_level-insert,
}
use mynance.Book.Valid.{IsValid}

-- Price-time priority: in front of the first order of a worse price.
pub queue : (ℕ → ℕ → Bool) → Order → List (ℕ × Order) → List (ℕ × Order)
queue ahead o [] = (o.price, o) ∷ []
queue ahead o ((price, x) ∷ rest) =
    if ahead o.price price
    then (o.price, o) ∷ (price, x) ∷ rest
    else (price, x) ∷ queue ahead o rest

module _ (ahead : ℕ → ℕ → Bool) where
  Sorted-HasOrders : (levels : List PriceLevel) → Sorted ahead levels → All HasOrders levels
  Sorted-HasOrders [] v = tt
  Sorted-HasOrders (level ∷ rest) v = (v.0, Sorted-HasOrders rest v.3)

  queue-level :
      (o : Order) (price : ℕ) (orders : List Order) (rest : List (ℕ × Order))
      → ahead o.price price ≡ false
      → queue ahead o (at_price price orders ++ rest) ≡ at_price price orders ++ queue ahead o rest
  unfolding queue
  queue-level o price [] rest h = refl
  queue-level o price (x ∷ orders) rest h = rw h (rw (queue-level o price orders rest h))

  queue-front :
      (o : Order) (levels : List PriceLevel)
      → Sorted ahead levels
      → Behind ahead o.price levels
      → queue ahead o (flatten levels) ≡ (o.price, o) ∷ flatten levels
  unfolding queue
  queue-front o [] v h = refl
  queue-front o (level ∷ rest) v h = queue_first level.orders v.0
    where
      queue_first :
          (orders : List Order)
          → is_empty orders ≡ false
          → queue ahead o (at_price level.price orders ++ flatten rest)
            ≡ (o.price, o) ∷ (at_price level.price orders ++ flatten rest)
      queue_first [] e = cc
      queue_first (x ∷ orders) e = rw h

  at_price-append_order :
      (price : ℕ) (orders : List Order) (o : Order) (rest : List (ℕ × Order))
      → at_price price (append_order orders o) ++ rest ≡ at_price price orders ++ (price, o) ∷ rest
  unfolding append_order
  at_price-append_order price [] o rest = refl
  at_price-append_order price (x ∷ orders) o rest = rw (at_price-append_order price orders o rest)

  flatten-insert :
      ((p : ℕ) → ahead p p ≡ false)
      → (o : Order) (levels : List PriceLevel) → Sorted ahead levels
      → flatten (insert ahead o levels) ≡ queue ahead o (flatten levels)
  unfolding insert add queue
  flatten-insert irrefl o [] v = refl
  flatten-insert irrefl o (level ∷ rest) v = elim (Bool-cases (level.price == o.price)) [
    | inl same ↦
        let e : level.price ≡ o.price = (==_iff _ _).0 same in
        rw
          (
            same,
            queue-level o level.price level.orders (flatten rest)
                (subst (λ p. ahead o.price p ≡ false) (sym e) (irrefl o.price)),
            at_price-append_order level.price level.orders o (flatten rest),
            queue-front o rest v.3 (subst (λ p. Behind ahead p rest) e v.2),
          )
          (rw e)
    | inr differ ↦ elim (Bool-cases (ahead o.price level.price)) [
      | inl first ↦ rw (differ, first) (sym (queue-front o (level ∷ rest) v first))
      | inr later ↦ rw (
        differ,
        later,
        queue-level o level.price level.orders (flatten rest) later,
        flatten-insert irrefl o rest v.3,
      )
    ]
  ]

-- What matching leaves, seen as two queues.
pub record Outcome : Type 0 where
  pub left : ℕ
  pub trades : List Trade
  pub bids : List (ℕ × Order)
  pub asks : List (ℕ × Order)

abbrev pub outcome : Matched → Outcome
outcome m = record {
  left = m.left;
  trades = m.trades;
  bids = flatten m.book.bids;
  asks = flatten m.book.asks;
}

abbrev pub rest_in_queue : (ℕ → ℕ → Bool) → Order → ℕ → List (ℕ × Order) → List (ℕ × Order)
rest_in_queue ahead o left orders =
    if ltb 0 left then queue ahead (with_left o left) orders else orders

module _ (fsub : ℕ → ℕ → ℕ) where
  pub match_queues : OrderBook → Order → Outcome
  match_queues book o =
      let bought = sweep fsub buy_stops (buy_trade book.symbol) o o.remaining (flatten book.asks) in
      let sold = sweep fsub sell_stops (sell_trade book.symbol) o o.remaining (flatten book.bids) in
      if is_buy o.side
      then record {
        left = bought.left;
        trades = bought.trades;
        bids = rest_in_queue bids_ahead o bought.left (flatten book.bids);
        asks = bought.resting;
      }
      else record {
        left = sold.left;
        trades = sold.trades;
        bids = sold.resting;
        asks = rest_in_queue asks_ahead o sold.left (flatten book.asks);
      }

  module _ (sub : IsSub fsub) where
    -- Matching against a valid book returns, and its trades, the quantity left and the resting orders
    -- of both sides are those of one sweep over the opposite queue, best price first and oldest first
    -- within a price, after which what is left joins its own queue in price-time priority.
    pub match-match_queues :
        (book : OrderBook) (o : Order)
        → IsValid book
        → Option.map outcome (match fsub book o) ≡ some (match_queues book o)
    unfolding match match_queues match_buy match_sell add_bid add_ask
    match-match_queues book o v =
        let bought =
          sweep_levels-sweep fsub buy_stops (buy_trade book.symbol) o o.remaining book.asks
            (Sorted-HasOrders asks_ahead book.asks v.asks_sorted) in
        let sold =
          sweep_levels-sweep fsub sell_stops (sell_trade book.symbol) o o.remaining book.bids
            (Sorted-HasOrders bids_ahead book.bids v.bids_sorted) in
        elim (Bool-cases (is_buy o.side)) [
          | inl e ↦
              rw
                (
                  e,
                  match_levels-sweep_levels fsub buy_stops (buy_trade book.symbol) sub
                      (suc (length book.asks)) o o.remaining book.asks (omega arith),
                )
                (rw (← bought.0, ← bought.1, ← bought.2)
                  (elim (Bool-cases (
                    ltb 0
                      (sweep_levels fsub buy_stops (buy_trade book.symbol) o o.remaining
                        book.asks).left)) [
                          | inl more ↦ rw (
                            more,
                            add_bid_level-insert (with_left o _) book.bids,
                            flatten-insert bids_ahead (λ p. ground arith) (with_left o _) book.bids
                                v.bids_sorted,
                          )
                          | inr done ↦ rw done
                        ]))
          | inr e ↦
              rw
                (
                  e,
                  match_levels-sweep_levels fsub sell_stops (sell_trade book.symbol) sub
                      (suc (length book.bids)) o o.remaining book.bids (omega arith),
                )
                (rw (← sold.0, ← sold.1, ← sold.2)
                  (elim (Bool-cases (
                    ltb 0
                      (sweep_levels fsub sell_stops (sell_trade book.symbol) o o.remaining
                        book.bids).left)) [
                          | inl more ↦ rw (
                            more,
                            add_ask_level-insert (with_left o _) book.asks,
                            flatten-insert asks_ahead (λ p. ground arith) (with_left o _) book.asks
                                v.asks_sorted,
                          )
                          | inr done ↦ rw done
                        ]))
        ]
