-- ===== src/Book/Valid.antt =====
-- The invariant of the book of internal/engine/book.go, and matching.
use mynance.Base.{
  ℕ, suc, ◌<◌, ◌≡◌, ◌↔◌, inl, inr, Bool, true, List, [], ◌∷◌, Option, none, some, ltb, length, All,
  Bool-cases, arith,
}
use mynance.Book.{
  Order, PriceLevel, OrderBook, add, is_buy, add_bid, add_ask, add_bid_level, add_ask_level,
}
use mynance.Book.Match.{
  Recorder, Filled, buy_stops, sell_stops, buy_trade, sell_trade, with_left, match_buy, match_sell,
  match,
}
use mynance.Book.Float.{IsSub}
use mynance.Book.Loop.{fill, fill_left, sweep_levels, match_levels-sweep_levels}
use mynance.Book.Insert.{
  bids_ahead, asks_ahead, Rests, Behind, Sorted, Bids, Asks, add_bid_level-Sorted,
  add_ask_level-Sorted,
}

-- The best bid is below the best ask.
abbrev pub Uncrossed : List PriceLevel → List PriceLevel → Type 0
Uncrossed [] asks = Unit {0}
Uncrossed (bid ∷ bids) [] = Unit {0}
Uncrossed (bid ∷ bids) (ask ∷ asks) = bid.price < ask.price

pub record IsValid (book : OrderBook) : Type 0 where
  pub bids_sorted : Bids book.bids
  pub asks_sorted : Asks book.asks
  pub uncrossed : Uncrossed book.bids book.asks

module _ (fsub : ℕ → ℕ → ℕ) (ahead : ℕ → ℕ → Bool) (make : Recorder) (sub : IsSub fsub) where
  fill-Rests :
      (taker : Order) (price left : ℕ) (orders : List Order)
      → All (Rests price) orders
      → All (Rests price) (fill fsub ahead make taker price left orders).resting
  unfolding fill
  fill-Rests taker price left [] h = tt
  fill-Rests taker price left (maker ∷ rest) h = ground (
    arith,
    fill-Rests taker price (fsub left maker.remaining) rest h.1,
    sub.sub_pos maker.remaining left,
  )

  module _ (trans : (p q r : ℕ) → ahead p q ≡ true → ahead q r ≡ true → ahead p r ≡ true) where
    -- What is left behind a price stays behind it.
    sweep_levels-Behind :
        (p : ℕ) (taker : Order) (left : ℕ) (levels : List PriceLevel)
        → Sorted ahead levels
        → Behind ahead p levels
        → Behind ahead p (sweep_levels fsub ahead make taker left levels).resting
    unfolding sweep_levels
    sweep_levels-Behind p taker left [] v h = tt
    sweep_levels-Behind p taker left (best ∷ []) v h = ground arith
    sweep_levels-Behind p taker left (best ∷ next ∷ rest) v h = ground (
      arith,
      trans p best.price next.price,
      sweep_levels-Behind p taker (fill fsub ahead make taker best.price left best.orders).left
          (next ∷ rest) v.3,
    )

  sweep_levels-Sorted :
      (taker : Order) (left : ℕ) (levels : List PriceLevel)
      → Sorted ahead levels
      → Sorted ahead (sweep_levels fsub ahead make taker left levels).resting
  unfolding sweep_levels
  sweep_levels-Sorted taker left [] v = tt
  sweep_levels-Sorted taker left (best ∷ rest) v = ground (
    arith,
    sweep_levels-Sorted taker (fill fsub ahead make taker best.price left best.orders).left rest
        v.3,
    fill-Rests taker best.price left best.orders v.1,
  )

  -- If the incoming order has something left, no level is left that its limit meets.
  sweep_levels_stops :
      (taker : Order) (left : ℕ) (levels : List PriceLevel)
      → 0 < (sweep_levels fsub ahead make taker left levels).left
      → Behind ahead taker.price (sweep_levels fsub ahead make taker left levels).resting
  unfolding sweep_levels
  sweep_levels_stops taker left [] h = tt
  sweep_levels_stops taker left (best ∷ rest) h = ground (
    arith,
    sweep_levels_stops taker (fill fsub ahead make taker best.price left best.orders).left rest,
    fill_left fsub ahead make sub taker best.price left best.orders,
  )

abbrev pub Ensures : {A : Type 0} → (A → Type 0) → Option A → Type 0
Ensures P none = ⊥
Ensures P (some a) = P a

-- The bids that stay under every ask stay so when an order joins them under every ask.
Uncrossed-bid :
    (o : Order) (bids asks : List PriceLevel)
    → Uncrossed bids asks
    → Behind asks_ahead o.price asks
    → Uncrossed (add_bid_level o bids) asks
unfolding add_bid_level add
Uncrossed-bid o [] [] u h = tt
Uncrossed-bid o [] (ask ∷ asks) u h = ground arith
Uncrossed-bid o (bid ∷ bids) [] u h = ground arith
Uncrossed-bid o (bid ∷ bids) (ask ∷ asks) u h = ground arith

Uncrossed-ask :
    (o : Order) (bids asks : List PriceLevel)
    → Uncrossed bids asks
    → Behind bids_ahead o.price bids
    → Uncrossed bids (add_ask_level o asks)
unfolding add_ask_level add
Uncrossed-ask o [] asks u h = tt
Uncrossed-ask o (bid ∷ bids) [] u h = ground arith
Uncrossed-ask o (bid ∷ bids) (ask ∷ asks) u h = ground arith

pub Uncrossed-Behind_asks :
    (bid : PriceLevel) (bids asks : List PriceLevel)
    → Uncrossed (bid ∷ bids) asks ↔ Behind asks_ahead bid.price asks
Uncrossed-Behind_asks bid bids [] = (λ h. tt, λ h. tt)
Uncrossed-Behind_asks bid bids (ask ∷ asks) = ground arith

pub Uncrossed-Behind_bids :
    (ask : PriceLevel) (bids asks : List PriceLevel)
    → Uncrossed bids (ask ∷ asks) ↔ Behind bids_ahead ask.price bids
Uncrossed-Behind_bids ask [] asks = (λ h. tt, λ h. tt)
Uncrossed-Behind_bids ask (bid ∷ bids) asks = ground arith

pub Uncrossed-nil : (bids : List PriceLevel) → Uncrossed bids []
Uncrossed-nil [] = tt
Uncrossed-nil (bid ∷ bids) = tt

module _ (fsub : ℕ → ℕ → ℕ) (sub : IsSub fsub) where
  swept-Asks-Uncrossed :
      (make : Recorder) (taker : Order) (left : ℕ) (bids asks : List PriceLevel)
      → Asks asks
      → Uncrossed bids asks
      → Uncrossed bids (sweep_levels fsub asks_ahead make taker left asks).resting
  swept-Asks-Uncrossed make taker left [] asks v u = tt
  swept-Asks-Uncrossed make taker left (bid ∷ bids) asks v u =
      (Uncrossed-Behind_asks bid bids _).1 (
        sweep_levels-Behind fsub asks_ahead make sub (λ p q r h k. ground arith) bid.price taker
          left asks v ((Uncrossed-Behind_asks bid bids asks).0 u))

  swept-Bids-Uncrossed :
      (make : Recorder) (taker : Order) (left : ℕ) (bids asks : List PriceLevel)
      → Bids bids
      → Uncrossed bids asks
      → Uncrossed (sweep_levels fsub bids_ahead make taker left bids).resting asks
  swept-Bids-Uncrossed make taker left bids [] v u = Uncrossed-nil _
  swept-Bids-Uncrossed make taker left bids (ask ∷ asks) v u =
      (Uncrossed-Behind_bids ask _ asks).1 (
        sweep_levels-Behind fsub bids_ahead make sub (λ p q r h k. ground arith) ask.price taker
          left bids v ((Uncrossed-Behind_bids ask bids asks).0 u))

  match_buy-IsValid :
      (book : OrderBook) (buy : Order)
      → IsValid book
      → Ensures (λ m. IsValid m.book) (match_buy fsub book buy)
  unfolding match_buy add_bid
  match_buy-IsValid book buy v =
      rw
        (match_levels-sweep_levels fsub buy_stops (buy_trade book.symbol) sub
          (suc (length book.asks)) buy buy.remaining book.asks (omega arith))
        (elim (Bool-cases (ltb 0 r.left)) [
          | inl more ↦ rw more (record {
            bids_sorted =
                add_bid_level-Sorted (with_left buy r.left) book.bids (ground arith) v.bids_sorted;
            asks_sorted = asks_kept;
            uncrossed = Uncrossed-bid (with_left buy r.left) book.bids r.resting still_uncrossed (
                sweep_levels_stops fsub asks_ahead (buy_trade book.symbol) sub buy buy.remaining
                  book.asks (ground arith));
          })
          | inr done ↦ rw done (record {
            bids_sorted = v.bids_sorted;
            asks_sorted = asks_kept;
            uncrossed = still_uncrossed;
          })
        ])
    where
      r : Filled PriceLevel
      r = sweep_levels fsub buy_stops (buy_trade book.symbol) buy buy.remaining book.asks

      asks_kept : Asks r.resting
      asks_kept =
          sweep_levels-Sorted fsub asks_ahead (buy_trade book.symbol) sub buy buy.remaining
            book.asks v.asks_sorted

      still_uncrossed : Uncrossed book.bids r.resting
      still_uncrossed =
          swept-Asks-Uncrossed (buy_trade book.symbol) buy buy.remaining book.bids book.asks
            v.asks_sorted v.uncrossed

  match_sell-IsValid :
      (book : OrderBook) (sell : Order)
      → IsValid book
      → Ensures (λ m. IsValid m.book) (match_sell fsub book sell)
  unfolding match_sell add_ask
  match_sell-IsValid book sell v =
      rw
        (match_levels-sweep_levels fsub sell_stops (sell_trade book.symbol) sub
          (suc (length book.bids)) sell sell.remaining book.bids (omega arith))
        (elim (Bool-cases (ltb 0 r.left)) [
          | inl more ↦ rw more (record {
            bids_sorted = bids_kept;
            asks_sorted =
                add_ask_level-Sorted (with_left sell r.left) book.asks (ground arith) v.asks_sorted;
            uncrossed = Uncrossed-ask (with_left sell r.left) r.resting book.asks still_uncrossed (
                sweep_levels_stops fsub bids_ahead (sell_trade book.symbol) sub sell sell.remaining
                  book.bids (ground arith));
          })
          | inr done ↦ rw done (record {
            bids_sorted = bids_kept;
            asks_sorted = v.asks_sorted;
            uncrossed = still_uncrossed;
          })
        ])
    where
      r : Filled PriceLevel
      r = sweep_levels fsub sell_stops (sell_trade book.symbol) sell sell.remaining book.bids

      bids_kept : Bids r.resting
      bids_kept =
          sweep_levels-Sorted fsub bids_ahead (sell_trade book.symbol) sub sell sell.remaining
            book.bids v.bids_sorted

      still_uncrossed : Uncrossed r.resting book.asks
      still_uncrossed =
          swept-Bids-Uncrossed (sell_trade book.symbol) sell sell.remaining book.bids book.asks
            v.bids_sorted v.uncrossed

  -- Matching an order against a valid book returns (its loops end within their fuel) and leaves a
  -- valid book: both sides sorted with one non-empty level for each price, every resting order at
  -- its level's price with something left to fill, and the best bid below the best ask.
  pub match-IsValid :
      (book : OrderBook) (incoming : Order)
      → IsValid book
      → Ensures (λ m. IsValid m.book) (match fsub book incoming)
  unfolding match
  match-IsValid book incoming v = elim (Bool-cases (is_buy incoming.side)) [
    | inl e ↦ rw e (match_buy-IsValid book incoming v)
    | inr e ↦ rw e (match_sell-IsValid book incoming v)
  ]
