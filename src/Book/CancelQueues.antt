-- ===== src/Book/CancelQueues.antt =====
-- `Cancel` of internal/engine/book.go seen on the priority queues, without the levels.
use mynance.Base.{
  ℕ, ◌≡◌, refl, inl, inr, List, [], ◌∷◌, ◌++◌, Option, none, some, Bytes, ◌=ᵇ◌, if◌then◌else◌,
  is_empty, Option-cases, arith, ap,
}
use mynance.Book.{Side, buy, sell, Order, PriceLevel, OrderBook}
use mynance.Book.Cancel.{remove_from_level, CancelResult, cancel_side, pick_side, cancel}
use mynance.Book.Sweep.{flatten, at_price}

-- The specification: the first resting order of that id in priority order, and the others.
pub remove_resting : List (ℕ × Order) → Bytes → Option ((ℕ × Order) × List (ℕ × Order))
remove_resting [] order_id = none
remove_resting ((price, o) ∷ rest) order_id =
    if o.id =ᵇ order_id then some ((price, o), rest) else elim (remove_resting rest order_id) [
      | none ↦ none
      | some found ↦ some (found.0, (price, o) ∷ found.1)
    ]

abbrev pub found_in_level :
    ℕ
    → List (ℕ × Order)
    → Option (Order × List Order)
    → Option ((ℕ × Order) × List (ℕ × Order))
    → Option ((ℕ × Order) × List (ℕ × Order))
found_in_level price rest (some r) later = some ((price, r.0), at_price price r.1 ++ rest)
found_in_level price rest none later = later

prefix_found :
    List (ℕ × Order)
    → Option ((ℕ × Order) × List (ℕ × Order))
    → Option ((ℕ × Order) × List (ℕ × Order))
prefix_found front none = none
prefix_found front (some r) = some (r.0, front ++ r.1)

prefix_found-cons :
    (e : ℕ × Order) (front : List (ℕ × Order)) (o : Option ((ℕ × Order) × List (ℕ × Order)))
    → prefix_found (e ∷ front) o ≡ prefix_found (e ∷ []) (prefix_found front o)
unfolding prefix_found
prefix_found-cons e front none = refl
prefix_found-cons e front (some r) = refl

remove_resting-level :
    (price : ℕ) (orders : List Order) (rest : List (ℕ × Order)) (order_id : Bytes)
    → remove_resting (at_price price orders ++ rest) order_id
      ≡ found_in_level price rest
          (remove_from_level orders order_id)
          (prefix_found (at_price price orders) (remove_resting rest order_id))
unfolding remove_resting remove_from_level prefix_found
remove_resting-level price [] rest order_id = ground arith
remove_resting-level price (o ∷ orders) rest order_id =
    ground (arith, remove_resting-level price orders rest order_id)

-- The cancelled order's side, price and remaining quantity, and what still rests.
abbrev pub Cancels :
    Side
    → Option (CancelResult × List PriceLevel)
    → Option ((ℕ × Order) × List (ℕ × Order))
    → Type 0
Cancels side none none = Unit {0}
Cancels side none (some s) = ⊥
Cancels side (some r) none = ⊥
Cancels side (some r) (some s) =
    (r.0 ≡ record { side = side; price = s.0.0; remaining = s.0.1.remaining }) × (flatten r.1 ≡ s.1)

flatten-drop_empty :
    (level : PriceLevel) (orders : List Order) (rest : List PriceLevel)
    → flatten (if is_empty orders then rest else record level { orders = orders } ∷ rest)
      ≡ at_price level.price orders ++ flatten rest
flatten-drop_empty level [] rest = refl
flatten-drop_empty level (o ∷ orders) rest = refl

Cancels-level :
    (side : Side) (level : PriceLevel) (rest : Option (CancelResult × List PriceLevel))
    (later : Option ((ℕ × Order) × List (ℕ × Order)))
    → Cancels side rest later
    → Cancels side
        (elim rest [ none ↦ none | some r ↦ some (r.0, level ∷ r.1) ])
        (prefix_found (at_price level.price level.orders) later)
unfolding prefix_found
Cancels-level side level none none h = tt
Cancels-level side level none (some s) h = h
Cancels-level side level (some r) none h = h
Cancels-level side level (some r) (some s) h =
    (h.0, ap (λ (x : List (ℕ × Order)). at_price level.price level.orders ++ x) h.1)

-- Cancelling on one side is removal from its priority queue.
pub cancel_side-Cancels :
    (side : Side) (levels : List PriceLevel) (order_id : Bytes)
    → Cancels side (cancel_side side levels order_id) (remove_resting (flatten levels) order_id)
unfolding cancel_side remove_resting
cancel_side-Cancels side [] order_id = tt
cancel_side-Cancels side (level ∷ rest) order_id =
    rw (remove_resting-level level.price level.orders (flatten rest) order_id)
      (elim (Option-cases (remove_from_level level.orders order_id)) [
        | inl e ↦
            rw (e, cancel_side)
              (Cancels-level side level _ _ (cancel_side-Cancels side rest order_id))
        | inr (found, e) ↦ rw (e, cancel_side) (refl, flatten-drop_empty level found.1 rest)
      ])

-- Without its levels: the result, and the priority queue of each side.
abbrev pub Cancellation : Type 0
Cancellation = CancelResult × List (ℕ × Order) × List (ℕ × Order)

pub view_cancel : Option (CancelResult × OrderBook) → Option Cancellation
view_cancel none = none
view_cancel (some r) = some (r.0, flatten r.1.bids, flatten r.1.asks)

abbrev pub cancelled : Side → ℕ × Order → CancelResult
cancelled side (price, o) = record { side = side; price = price; remaining = o.remaining }

pub cancel_resting : List (ℕ × Order) → List (ℕ × Order) → Bytes → Option Cancellation
cancel_resting bids asks order_id = elim (remove_resting bids order_id) [
  | some s ↦ some (cancelled buy s.0, s.1, asks)
  | none ↦ elim (remove_resting asks order_id) [
    | some s ↦ some (cancelled sell s.0, bids, s.1)
    | none ↦ none
  ]
]

view_pick_side :
    (book : OrderBook) (b a : Option (CancelResult × List PriceLevel))
    (s t : Option ((ℕ × Order) × List (ℕ × Order)))
    → Cancels buy b s
    → Cancels sell a t
    → view_cancel (pick_side book b a) ≡ (elim s [
      | some x ↦ some (cancelled buy x.0, x.1, flatten book.asks)
      | none ↦ elim t [ some y ↦ some (cancelled sell y.0, flatten book.bids, y.1) | none ↦ none ]
    ])
unfolding view_cancel
view_pick_side book (some r) a (some s) t h k = ground arith
view_pick_side book (some r) a none t h k = absurd h
view_pick_side book none a (some s) t h k = absurd h
view_pick_side book none (some r) none (some t) h k = ground arith
view_pick_side book none (some r) none none h k = absurd k
view_pick_side book none none none (some t) h k = absurd k
view_pick_side book none none none none h k = refl

-- `Cancel` is removal of the first order of that id from the two priority queues, bids first: the
-- result tells its side, price and remaining quantity, and every other order keeps its place.
pub cancel-cancel_resting :
    (book : OrderBook) (order_id : Bytes)
    → view_cancel (cancel book order_id)
      ≡ cancel_resting (flatten book.bids) (flatten book.asks) order_id
unfolding view_cancel cancel cancel_resting
cancel-cancel_resting book order_id =
    view_pick_side book _ _ _ _ (cancel_side-Cancels buy book.bids order_id)
      (cancel_side-Cancels sell book.asks order_id)
