-- ===== src/Book/Sweep.antt =====
-- What matching means: one sweep over the resting orders of a side, best price first and oldest
-- first within a price.
use mynance.Base.{
  ℕ, ◌≡◌, refl, ◌⊎◌, inl, inr, Bool, true, false, List, [], ◌∷◌, ◌++◌, ltb, if◌then◌else◌, is_empty,
  All, Bool-cases, arith, ap,
}
use mynance.Book.{Order, Trade, PriceLevel}
use mynance.Book.Match.{Recorder, Filled, with_left}
use mynance.Book.Loop.{record_trade, fill, sweep_levels}

-- A side of the book without its levels: each resting order with its price, in priority order.
abbrev pub at_price : ℕ → List Order → List (ℕ × Order)
at_price price [] = []
at_price price (o ∷ os) = (price, o) ∷ at_price price os

abbrev pub flatten : List PriceLevel → List (ℕ × Order)
flatten [] = []
flatten (level ∷ rest) = at_price level.price level.orders ++ flatten rest

abbrev pub HasOrders : PriceLevel → Type 0
HasOrders level = is_empty level.orders ≡ false

module _ (fsub : ℕ → ℕ → ℕ) (stops : ℕ → ℕ → Bool) (make : Recorder) where
  -- The order in front is filled whole while the incoming one has enough left, and in part by what
  -- is left at the end.
  pub sweep : Order → ℕ → List (ℕ × Order) → Filled (ℕ × Order)
  sweep taker left [] = record { left = left; resting = []; trades = [] }
  sweep taker left ((price, maker) ∷ rest) =
      let whole = sweep taker (fsub left maker.remaining) rest in
      if ltb 0 left
      then (if stops taker.price price
          then record { left = left; resting = (price, maker) ∷ rest; trades = [] }
          else if ltb left maker.remaining
          then record {
            left = 0;
            resting = (price, with_left maker (fsub maker.remaining left)) ∷ rest;
            trades = make taker maker price left ∷ [];
          }
          else record_trade (make taker maker price maker.remaining) whole)
      else record { left = left; resting = (price, maker) ∷ rest; trades = [] }

  -- A sweep through a level that the limit meets: fill it, and go on if it is used up.
  sweep-level :
      (taker : Order) (price left : ℕ) (orders : List Order) (rest : List (ℕ × Order))
      → stops taker.price price ≡ false
      → sweep taker left (at_price price orders ++ rest) ≡ (
          let f = fill fsub stops make taker price left orders in
          let more = sweep taker f.left rest in
          if is_empty f.resting then record more { trades = f.trades ++ more.trades } else record {
            left = f.left;
            resting = at_price price f.resting ++ rest;
            trades = f.trades;
          })
  unfolding fill sweep
  sweep-level taker price left [] rest h = refl
  sweep-level taker price left (maker ∷ orders) rest h =
      ground (arith, sweep-level taker price (fsub left maker.remaining) orders rest h)

  -- A level in front that the sweep does not reach stays, and so does all behind it.
  sweep_stays :
      (taker : Order) (price left : ℕ) (orders : List Order) (rest : List (ℕ × Order))
      → is_empty orders ≡ false
      → ((ltb 0 left ≡ false) ⊎ (stops taker.price price ≡ true))
      → sweep taker left (at_price price orders ++ rest)
        ≡ record { left = left; resting = at_price price orders ++ rest; trades = [] }
  unfolding sweep
  sweep_stays taker price left [] rest e h = cc
  sweep_stays taker price left (maker ∷ orders) rest e (inl h) = rw h
  sweep_stays taker price left (maker ∷ orders) rest e (inr h) = ground arith

  -- The levels, read in priority order, are swept as one queue, and no level is left empty.
  pub sweep_levels-sweep :
      (taker : Order) (left : ℕ) (levels : List PriceLevel)
      → All HasOrders levels
      → let r = sweep_levels fsub stops make taker left levels in
        let s = sweep taker left (flatten levels) in
        (r.left ≡ s.left)
        × (flatten r.resting ≡ s.resting)
        × (r.trades ≡ s.trades)
        × All HasOrders r.resting
  unfolding sweep_levels sweep
  sweep_levels-sweep taker left [] v = (refl, refl, refl, tt)
  sweep_levels-sweep taker left (best ∷ rest) v = elim (Bool-cases (ltb 0 left)) [
    | inl more ↦ elim (Bool-cases (stops taker.price best.price)) [
      | inl stop ↦
          rw
            (
              more,
              stop,
              sweep_stays taker best.price left best.orders (flatten rest) v.0 (inr stop),
            )
            (refl, refl, refl, v)
      | inr go ↦
          rw (more, go, sweep-level taker best.price left best.orders (flatten rest) go)
            (elim (Bool-cases (is_empty f.resting)) [
              | inl used ↦
                  let ih = sweep_levels-sweep taker f.left rest v.1 in
                  rw used (ih.0, ih.1, ap (λ (x : List Trade). f.trades ++ x) ih.2, ih.3)
              | inr kept ↦ rw kept (refl, refl, refl, (kept, v.1))
            ])
    ]
    | inr done ↦
        rw (done, sweep_stays taker best.price left best.orders (flatten rest) v.0 (inl done))
          (refl, refl, refl, v)
  ]
    where
      f : Filled Order
      f = fill fsub stops make taker best.price left best.orders
