-- ===== src/Book/CancelLaws.antt =====
-- `Cancel` of internal/engine/book.go and the invariant of the book.
use mynance.Base.{
  ℕ, ◌≡◌, refl, inl, inr, Bool, true, List, [], ◌∷◌, Option, none, some, Bytes, if◌then◌else◌,
  is_empty, All, Option-cases, subst, arith,
}
use mynance.Book.{Side, buy, sell, Order, PriceLevel, OrderBook}
use mynance.Book.Cancel.{remove_from_level, CancelResult, cancel_side, pick_side, cancel}
use mynance.Book.Sweep.{HasOrders}
use mynance.Book.Insert.{bids_ahead, asks_ahead, Rests, Behind, Sorted, Bids, Asks}
use mynance.Book.Valid.{
  IsValid, Uncrossed, Uncrossed-nil, Uncrossed-Behind_asks, Uncrossed-Behind_bids,
}

abbrev pub IfSome : {A : Type 0} → (A → Type 0) → Option A → Type 0
IfSome P none = Unit {0}
IfSome P (some a) = P a

remove_from_level-Rests :
    (price : ℕ) (orders : List Order) (order_id : Bytes)
    → All (Rests price) orders
    → IfSome (λ found. All (Rests price) found.1) (remove_from_level orders order_id)
unfolding remove_from_level
remove_from_level-Rests price [] order_id h = tt
remove_from_level-Rests price (o ∷ orders) order_id h =
    ground (arith, remove_from_level-Rests price orders order_id h.1)

module _ (ahead : ℕ → ℕ → Bool)
    (trans : (p q r : ℕ) → ahead p q ≡ true → ahead q r ≡ true → ahead p r ≡ true) where
  Behind-tail :
      (p : ℕ) (level : PriceLevel) (rest : List PriceLevel)
      → ahead p level.price ≡ true
      → Behind ahead level.price rest
      → Behind ahead p rest
  Behind-tail p level [] h k = tt
  Behind-tail p level (next ∷ rest) h k = trans p level.price next.price h k

  drop_empty-Behind :
      (p : ℕ) (level : PriceLevel) (orders : List Order) (rest : List PriceLevel)
      → Behind ahead p (level ∷ rest)
      → Behind ahead level.price rest
      → Behind ahead p (if is_empty orders then rest else record level { orders = orders } ∷ rest)
  drop_empty-Behind p level [] rest h k = Behind-tail p level rest h k
  drop_empty-Behind p level (o ∷ orders) rest h k = h

  cancel_side-Behind :
      (p : ℕ) (side : Side) (levels : List PriceLevel) (order_id : Bytes)
      → Sorted ahead levels
      → Behind ahead p levels
      → IfSome (λ r. Behind ahead p r.1) (cancel_side side levels order_id)
  unfolding cancel_side
  cancel_side-Behind p side [] order_id v h = tt
  cancel_side-Behind p side (level ∷ rest) order_id v h =
      elim (Option-cases (remove_from_level level.orders order_id)) [
        | inr (found, e) ↦ rw (e, cancel_side) (drop_empty-Behind p level found.1 rest h v.2)
        | inl e ↦ elim (Option-cases (cancel_side side rest order_id)) [
          | inl e' ↦ rw (e, cancel_side) (rw (e', cancel_side) tt)
          | inr (r, e') ↦ rw (e, cancel_side) (rw (e', cancel_side) h)
        ]
      ]

  drop_empty-Sorted :
      (level : PriceLevel) (orders : List Order) (rest : List PriceLevel)
      → All (Rests level.price) orders
      → Behind ahead level.price rest
      → Sorted ahead rest
      → Sorted ahead (if is_empty orders then rest else record level { orders = orders } ∷ rest)
  drop_empty-Sorted level [] rest r b v = v
  drop_empty-Sorted level (o ∷ orders) rest r b v = (refl, r, b, v)

  level-Sorted :
      (level : PriceLevel) (o : Option (CancelResult × List PriceLevel))
      → HasOrders level
      → All (Rests level.price) level.orders
      → IfSome (λ (r : CancelResult × List PriceLevel). Behind ahead level.price r.1) o
      → IfSome (λ (r : CancelResult × List PriceLevel). Sorted ahead r.1) o
      → IfSome
          (λ (r : CancelResult × List PriceLevel). Sorted ahead r.1)
          (elim o [ none ↦ none | some r ↦ some (r.0, level ∷ r.1) ])
  level-Sorted level none h r b v = tt
  level-Sorted level (some x) h r b v = (h, r, b, v)

  cancel_side-Sorted :
      (side : Side) (levels : List PriceLevel) (order_id : Bytes)
      → Sorted ahead levels
      → IfSome (λ r. Sorted ahead r.1) (cancel_side side levels order_id)
  unfolding cancel_side
  cancel_side-Sorted side [] order_id v = tt
  cancel_side-Sorted side (level ∷ rest) order_id v =
      elim (Option-cases (remove_from_level level.orders order_id)) [
        | inr (found, e) ↦
            rw (e, cancel_side)
              (drop_empty-Sorted level found.1 rest
                (subst (IfSome (λ found. All (Rests level.price) found.1)) e
                  (remove_from_level-Rests level.price level.orders order_id v.1))
                v.2 v.3)
        | inl e ↦
            rw (e, cancel_side)
              (level-Sorted level _ v.0 v.1
                (cancel_side-Behind level.price side rest order_id v.3 v.2)
                (cancel_side-Sorted side rest order_id v.3))
      ]

pick_side-IsValid :
    (book : OrderBook) (b a : Option (CancelResult × List PriceLevel))
    → IsValid book
    → IfSome (λ (r : CancelResult × List PriceLevel). Bids r.1) b
    → IfSome (λ (r : CancelResult × List PriceLevel). Uncrossed r.1 book.asks) b
    → IfSome (λ (r : CancelResult × List PriceLevel). Asks r.1) a
    → IfSome (λ (r : CancelResult × List PriceLevel). Uncrossed book.bids r.1) a
    → IfSome (λ (r : CancelResult × OrderBook). IsValid r.1) (pick_side book b a)
pick_side-IsValid book (some r) a v bs bu as_ au = record {
  bids_sorted = bs;
  asks_sorted = v.asks_sorted;
  uncrossed = bu;
}
pick_side-IsValid book none (some r) v bs bu as_ au = record {
  bids_sorted = v.bids_sorted;
  asks_sorted = as_;
  uncrossed = au;
}
pick_side-IsValid book none none v bs bu as_ au = tt

IfSome-any : {A : Type 0} (P : A → Type 0) (o : Option A) → ((a : A) → P a) → IfSome P o
IfSome-any P none h = tt
IfSome-any P (some a) h = h a

IfSome-map :
    {A : Type 0} (P Q : A → Type 0) (o : Option A) → ((a : A) → P a → Q a) → IfSome P o → IfSome Q o
IfSome-map P Q none f h = tt
IfSome-map P Q (some a) f h = f a h

cancelled-Bids-Uncrossed :
    (order_id : Bytes) (bids asks : List PriceLevel)
    → Bids bids
    → Uncrossed bids asks
    → IfSome
        (λ (r : CancelResult × List PriceLevel). Uncrossed r.1 asks)
        (cancel_side buy bids order_id)
cancelled-Bids-Uncrossed order_id bids [] v u =
    IfSome-any {A = CancelResult × List PriceLevel} _ _ (λ r. Uncrossed-nil r.1)
cancelled-Bids-Uncrossed order_id bids (ask ∷ asks) v u =
    IfSome-map {A = CancelResult × List PriceLevel} _ _ _
      (λ r h. (Uncrossed-Behind_bids ask r.1 asks).1 h)
      (cancel_side-Behind bids_ahead (λ p q r h k. ground arith) ask.price buy bids order_id v
        ((Uncrossed-Behind_bids ask bids asks).0 u))

cancelled-Asks-Uncrossed :
    (order_id : Bytes) (bids asks : List PriceLevel)
    → Asks asks
    → Uncrossed bids asks
    → IfSome
        (λ (r : CancelResult × List PriceLevel). Uncrossed bids r.1)
        (cancel_side sell asks order_id)
cancelled-Asks-Uncrossed order_id [] asks v u = IfSome-any _ _ (λ r. tt)
cancelled-Asks-Uncrossed order_id (bid ∷ bids) asks v u =
    IfSome-map {A = CancelResult × List PriceLevel} _ _ _
      (λ r h. (Uncrossed-Behind_asks bid bids r.1).1 h)
      (cancel_side-Behind asks_ahead (λ p q r h k. ground arith) bid.price sell asks order_id v
        ((Uncrossed-Behind_asks bid bids asks).0 u))

-- Cancelling keeps the book valid.
pub cancel-IsValid :
    (book : OrderBook) (order_id : Bytes)
    → IsValid book
    → IfSome (λ r. IsValid r.1) (cancel book order_id)
unfolding cancel
cancel-IsValid book order_id v =
    pick_side-IsValid book _ _ v
      (cancel_side-Sorted bids_ahead (λ p q r h k. ground arith) buy book.bids order_id
        v.bids_sorted)
      (cancelled-Bids-Uncrossed order_id book.bids book.asks v.bids_sorted v.uncrossed)
      (cancel_side-Sorted asks_ahead (λ p q r h k. ground arith) sell book.asks order_id
        v.asks_sorted)
      (cancelled-Asks-Uncrossed order_id book.bids book.asks v.asks_sorted v.uncrossed)
