-- ===== src/Book/Cancel.antt =====
-- `Cancel` and `removeFromLevel` of internal/engine/book.go.
use mynance.Base.{ℕ, List, [], ◌∷◌, Option, none, some, Bytes, ◌=ᵇ◌, if◌then◌else◌, is_empty}
use mynance.Book.{Side, buy, sell, Order, PriceLevel, OrderBook}

-- The first order of that id, and the orders without it.
unfoldable pub remove_from_level : List Order → Bytes → Option (Order × List Order)
remove_from_level [] order_id = none
remove_from_level (o ∷ rest) order_id =
    if o.id =ᵇ order_id then some (o, rest) else elim (remove_from_level rest order_id) [
      | none ↦ none
      | some found ↦ some (found.0, o ∷ found.1)
    ]

pub record CancelResult : Type 0 where
  pub side : Side
  pub price : ℕ
  pub remaining : ℕ

-- One side of the book: what was removed, at which price, and the levels without it.
unfoldable pub cancel_side :
    Side → List PriceLevel → Bytes → Option (CancelResult × List PriceLevel)
cancel_side side [] order_id = none
cancel_side side (level ∷ rest) order_id = elim (remove_from_level level.orders order_id) [
  | some found ↦ some (
    record { side = side; price = level.price; remaining = found.0.remaining },
    if is_empty found.1 then rest else record level { orders = found.1 } ∷ rest,
  )
  | none ↦ elim (cancel_side side rest order_id) [ none ↦ none | some r ↦ some (r.0, level ∷ r.1) ]
]

abbrev pub pick_side :
    OrderBook
    → Option (CancelResult × List PriceLevel)
    → Option (CancelResult × List PriceLevel)
    → Option (CancelResult × OrderBook)
pick_side book (some r) asks = some (r.0, record book { bids = r.1 })
pick_side book none (some r) = some (r.0, record book { asks = r.1 })
pick_side book none none = none

-- Bids first; `none` leaves the book as it was.
unfoldable pub cancel : OrderBook → Bytes → Option (CancelResult × OrderBook)
cancel book order_id =
    pick_side book (cancel_side buy book.bids order_id) (cancel_side sell book.asks order_id)
