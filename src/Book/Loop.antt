-- ===== src/Book/Loop.antt =====
-- The loops of `matchBuy` and `matchSell` of internal/engine/book.go against a structural recursion
-- over the orders and the levels.
use mynance.Base.{
  ℕ, zero, suc, ◌<◌, ◌≡◌, refl, Bool, false, List, [], ◌∷◌, ◌++◌, some, ltb, if◌then◌else◌, length,
  is_empty, Bool-cases, inl, inr, arith, append-nil,
}
use mynance.Book.{Order, Trade, PriceLevel}
use mynance.Book.Match.{Recorder, Filled, fill_level, match_levels, with_left}
use mynance.Book.Float.{IsSub}

abbrev pub record_trade : {A : Type 0} → Trade → Filled A → Filled A
record_trade t r = record r { trades = t ∷ r.trades }

module _ (fsub : ℕ → ℕ → ℕ) (stops : ℕ → ℕ → Bool) (make : Recorder) where
  -- One level: the order in front is filled whole while the incoming one has enough left, and in
  -- part by what is left at the end.
  unfoldable pub fill : Order → ℕ → ℕ → List Order → Filled Order
  fill taker price left [] = record { left = left; resting = []; trades = [] }
  fill taker price left (maker ∷ rest) =
      let whole = fill taker price (fsub left maker.remaining) rest in
      if ltb 0 left
      then (if ltb left maker.remaining
          then record {
            left = 0;
            resting = with_left maker (fsub maker.remaining left) ∷ rest;
            trades = make taker maker price left ∷ [];
          }
          else record_trade (make taker maker price maker.remaining) whole)
      else record { left = left; resting = maker ∷ rest; trades = [] }

  module _ (sub : IsSub fsub) where
    pub fill_level-fill :
        (n : ℕ) (taker : Order) (price left : ℕ) (orders : List Order)
        → length orders < n
        → fill_level fsub stops make n taker price left orders ≡ some (fill taker price left orders)
    unfolding fill_level fill
    fill_level-fill zero taker price left orders h = absurd (omega arith)
    fill_level-fill (suc n) taker price left [] h = refl
    fill_level-fill (suc zero) taker price left (maker ∷ rest) h = absurd (omega arith)
    fill_level-fill (suc (suc n)) taker price left (maker ∷ rest) h = ground (
      arith,
      fill_level-fill (suc n) taker price (fsub left maker.remaining) rest,
      sub.sub_self left,
      sub.sub_self maker.remaining,
      sub.sub_pos maker.remaining left,
    )

    -- Orders stay in a level only if nothing is left to fill.
    pub fill_left :
        (taker : Order) (price left : ℕ) (orders : List Order)
        → is_empty (fill taker price left orders).resting ≡ false
        → (fill taker price left orders).left ≡ 0
    unfolding fill
    fill_left taker price left [] h = cc
    fill_left taker price left (maker ∷ rest) h =
        ground (arith, fill_left taker price (fsub left maker.remaining) rest)

  -- The levels: one that is used up is dropped, and the sweep ends at one that keeps orders.
  unfoldable pub sweep_levels : Order → ℕ → List PriceLevel → Filled PriceLevel
  sweep_levels taker left [] = record { left = left; resting = []; trades = [] }
  sweep_levels taker left (best ∷ rest) =
      let f : Filled Order = fill taker best.price left best.orders in
      let more = sweep_levels taker f.left rest in
      let stay : Filled PriceLevel = record { left = left; resting = best ∷ rest; trades = [] } in
      if ltb 0 left
      then (if stops taker.price best.price
          then stay
          else if is_empty f.resting
          then record more { trades = f.trades ++ more.trades }
          else record {
            left = f.left;
            resting = record best { orders = f.resting } ∷ rest;
            trades = f.trades;
          })
      else stay

  -- With nothing left the outer loop ends at its test.
  match_levels-done :
      (n : ℕ) (taker : Order) (levels : List PriceLevel)
      → 0 < n
      → match_levels fsub stops make n taker 0 levels
        ≡ some (record { left = 0; resting = levels; trades = [] })
  unfolding match_levels
  match_levels-done zero taker levels h = absurd (omega arith)
  match_levels-done (suc n) taker [] h = refl
  match_levels-done (suc n) taker (best ∷ rest) h = refl

  module _ (sub : IsSub fsub) where
    pub match_levels-sweep_levels :
        (n : ℕ) (taker : Order) (left : ℕ) (levels : List PriceLevel)
        → length levels < n
        → match_levels fsub stops make n taker left levels ≡ some (sweep_levels taker left levels)
    unfolding match_levels sweep_levels
    match_levels-sweep_levels zero taker left levels h = absurd (omega arith)
    match_levels-sweep_levels (suc n) taker left [] h = refl
    match_levels-sweep_levels (suc n) taker left (best ∷ rest) h = elim (Bool-cases (ltb 0 left)) [
      | inl more ↦ elim (Bool-cases (stops taker.price best.price)) [
        | inl stop ↦ rw (more, stop)
        | inr go ↦
            rw (more, go, filled)
              (elim (Bool-cases (is_empty f.resting)) [
                | inl used ↦ rw (used, match_levels-sweep_levels n taker f.left rest (omega arith))
                | inr kept ↦
                    rw (kept, fill_left sub taker best.price left best.orders kept)
                      (rw
                        (match_levels-done n taker (record best { orders = f.resting } ∷ rest)
                          (omega arith))
                        (rw append-nil))
              ])
      ]
      | inr done ↦ rw done
    ]
      where
        f : Filled Order
        f = fill taker best.price left best.orders

        filled :
            fill_level fsub stops make (suc (length best.orders)) taker best.price left best.orders
            ≡ some (fill taker best.price left best.orders)
        filled =
            fill_level-fill sub (suc (length best.orders)) taker best.price left best.orders
              (omega arith)
