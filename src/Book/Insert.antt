-- ===== src/Book/Insert.antt =====
-- The order of the levels, and `addBid` and `addAsk` of internal/engine/book.go.
use mynance.Base.{
  ℕ, ◌<◌, ◌≡◌, refl, ◌⊎◌, Bool, true, false, List, [], ◌∷◌, ltb, ◌==◌, if◌then◌else◌, is_empty, All,
  arith,
}
use mynance.Book.{Order, PriceLevel, add, append_order, new_level, add_bid_level, add_ask_level}
use mynance.Book.Sweep.{HasOrders}

-- `ahead p q`: on its side of the book, price `p` is served before price `q`.
abbrev pub bids_ahead : ℕ → ℕ → Bool
bids_ahead p q = ltb q p

abbrev pub asks_ahead : ℕ → ℕ → Bool
asks_ahead p q = ltb p q

-- An order that rests in a level of this price.
pub record Rests (price : ℕ) (o : Order) : Type 0 where
  pub priced : o.price ≡ price
  pub open_left : 0 < o.remaining

All-append_order :
    (price : ℕ) (os : List Order) (o : Order)
    → All (Rests price) os
    → Rests price o
    → All (Rests price) (append_order os o)
unfolding append_order
All-append_order price [] o h r = (r, tt)
All-append_order price (x ∷ xs) o h r = (h.0, All-append_order price xs o h.1 r)

append_order_occupied : (os : List Order) (o : Order) → is_empty (append_order os o) ≡ false
unfolding append_order
append_order_occupied [] o = refl
append_order_occupied (x ∷ xs) o = refl

module _ (ahead : ℕ → ℕ → Bool) where
  -- Every level is served after this price.
  abbrev pub Behind : ℕ → List PriceLevel → Type 0
  Behind p [] = Unit {0}
  Behind p (level ∷ rest) = ahead p level.price ≡ true

  -- One level for each price, in the order of service, each with orders that rest at its price.
  abbrev pub Sorted : List PriceLevel → Type 0
  Sorted [] = Unit {0}
  Sorted (level ∷ rest) =
      HasOrders level × All (Rests level.price) level.orders × Behind level.price rest × Sorted rest

  -- `addBid` and `addAsk`, over the order of the side.
  unfoldable pub insert : Order → List PriceLevel → List PriceLevel
  insert o [] = new_level o ∷ []
  insert o (level ∷ rest) =
      if level.price == o.price
      then add level o ∷ rest
      else if ahead o.price level.price
      then new_level o ∷ level ∷ rest
      else level ∷ insert o rest

  Behind-insert :
      (p : ℕ) (o : Order) (levels : List PriceLevel)
      → Behind p levels
      → ahead p o.price ≡ true
      → Behind p (insert o levels)
  unfolding insert add
  Behind-insert p o [] h k = k
  Behind-insert p o (level ∷ rest) h k = ground arith

  module _ (compares : (p q : ℕ) → (p ≡ q) ⊎ ((ahead p q ≡ true) ⊎ (ahead q p ≡ true))) where
    pub insert-Sorted :
        (o : Order) (levels : List PriceLevel)
        → 0 < o.remaining
        → Sorted levels
        → Sorted (insert o levels)
    unfolding insert add
    insert-Sorted o [] h v = (refl, (record { priced = refl; open_left = h }, tt), tt, tt)
    insert-Sorted o (level ∷ rest) h v = ground (
      arith,
      compares level.price o.price,
      insert-Sorted o rest h v.3,
      Behind-insert level.price o rest v.2,
      append_order_occupied level.orders o,
      All-append_order level.price level.orders o v.1,
    )

abbrev pub Bids : List PriceLevel → Type 0
Bids = Sorted bids_ahead

abbrev pub Asks : List PriceLevel → Type 0
Asks = Sorted asks_ahead

pub add_bid_level-insert :
    (o : Order) (levels : List PriceLevel) → add_bid_level o levels ≡ insert bids_ahead o levels
unfolding add_bid_level insert
add_bid_level-insert o [] = refl
add_bid_level-insert o (level ∷ rest) = rw (add_bid_level-insert o rest)

pub add_ask_level-insert :
    (o : Order) (levels : List PriceLevel) → add_ask_level o levels ≡ insert asks_ahead o levels
unfolding add_ask_level insert
add_ask_level-insert o [] = refl
add_ask_level-insert o (level ∷ rest) = rw (add_ask_level-insert o rest)

pub add_bid_level-Sorted :
    (o : Order) (levels : List PriceLevel)
    → 0 < o.remaining
    → Bids levels
    → Bids (add_bid_level o levels)
add_bid_level-Sorted o levels h v =
    rw (add_bid_level-insert o levels) (insert-Sorted bids_ahead (λ p q. ground arith) o levels h v)

pub add_ask_level-Sorted :
    (o : Order) (levels : List PriceLevel)
    → 0 < o.remaining
    → Asks levels
    → Asks (add_ask_level o levels)
add_ask_level-Sorted o levels h v =
    rw (add_ask_level-insert o levels) (insert-Sorted asks_ahead (λ p q. ground arith) o levels h v)
