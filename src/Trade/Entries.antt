-- ===== src/Trade/Entries.antt =====
-- The entries that `ExecuteTrade` of internal/trade/service.go books.
use mynance.Base.{
  ◌≡◌, subst, refl, Bool, true, List, ◌∷◌, Bytes, ◌=ᵇ◌, ◌==◌, ◌&&◌, if◌then◌else◌, arith,
  Bool-cases, inl, inr,
}
use mynance.Base.Int.{ℤ, pos, ◌+ℤ◌, neg_ℤ, +ℤ_parts, neg_ℤ_parts, eq_of_parts}
use mynance.Numeric.{Numeric, zero_numeric, mul, add, neg, column, cmp_ℤ}
use mynance.Numeric.Product.{mul-HasUnits, add-zero-HasUnits}
use mynance.Numeric.Units.{
  HasUnits, zero-HasUnits, neg-HasUnits, add-HasUnits, cmp-HasUnits, column-neg,
}
use mynance.Shared.{◌>>=◌, Post, guard}
use mynance.Store.{Uuid, LedgerRow, Env, Db, new_uuid, io}
use mynance.Store.Balance.{zero_add}
use mynance.Store.Ledger.{balance, total, insert_entry, is_of, ledger_row}
use mynance.Order.{Pair}
use mynance.Trade.{Accounts, new_entry, trade_entries, add_amounts, is_zero, insert_entries}

cancels : (b q : ℤ) → b +ℤ neg_ℤ q +ℤ neg_ℤ b +ℤ q ≡ pos 0
cancels b q = eq_of_parts _ _ (
    omega (
      arith,
      +ℤ_parts (b +ℤ neg_ℤ q +ℤ neg_ℤ b) q,
      +ℤ_parts (b +ℤ neg_ℤ q) (neg_ℤ b),
      +ℤ_parts b (neg_ℤ q),
      neg_ℤ_parts b,
      neg_ℤ_parts q,
    ))

is_zero-HasUnits : (n : Numeric) → HasUnits n (pos 0) → is_zero n ≡ true
is_zero-HasUnits n h =
    rw (is_zero, cmp-HasUnits n zero_numeric (pos 0) (pos 0) h zero-HasUnits) (unfold cmp_ℤ in refl)

-- The four entries sum to zero whatever the price and the quantity are, so the test of the sum never
-- refuses a trade.
pub trade_entries-is_zero :
    (buyer seller : Uuid) (accounts : Accounts) (pair : Pair) (price quantity : Numeric) (id : Uuid)
    → is_zero (
        add_amounts zero_numeric
          (trade_entries buyer seller accounts pair quantity (mul price quantity) id))
      ≡ true
unfolding add_amounts
trade_entries-is_zero buyer seller accounts pair price quantity id =
    let m = mul price quantity in
    let first =
      add-HasUnits (add zero_numeric quantity) (neg m) _ _ (add-zero-HasUnits quantity)
        (neg-HasUnits m) in
    let second =
      add-HasUnits (add (add zero_numeric quantity) (neg m)) (neg quantity) _ _ first
        (neg-HasUnits quantity) in
    let third =
      add-HasUnits (add (add (add zero_numeric quantity) (neg m)) (neg quantity)) m _ _ second
        (mul-HasUnits price quantity) in
    is_zero-HasUnits _ (
      subst (HasUnits (add (add (add (add zero_numeric quantity) (neg m)) (neg quantity)) m))
        (cancels (column quantity) (column m)) third)

-- One user's share of a booking.
abbrev pub share : Uuid → Bytes → ℤ → Uuid → Bytes → ℤ
share user asset amount u a = if (user == u) && (asset =ᵇ a) then amount else pos 0

-- What the entries add to a balance: base to the buyer for quote, quote to the seller for base.
abbrev pub trade_share : Uuid → Uuid → Pair → ℤ → ℤ → Uuid → Bytes → ℤ
trade_share buyer seller pair base quote u a =
    share seller pair.quote quote u a
    +ℤ (share seller pair.base (neg_ℤ base) u a
        +ℤ (share buyer pair.quote (neg_ℤ quote) u a +ℤ share buyer pair.base base u a))

balance-cons :
    (row : LedgerRow) (rows : List LedgerRow) (u : Uuid) (a : Bytes)
    → balance u a (row ∷ rows) ≡ share row.user_id row.asset row.amount u a +ℤ balance u a rows
unfolding balance
balance-cons row rows u a = elim (Bool-cases (is_of u a row)) [
  | inl e ↦ ground (arith, e)
  | inr e ↦ ground (arith, e, zero_add (balance u a rows))
]

total-cons :
    (row : LedgerRow) (rows : List LedgerRow) (a : Bytes)
    → total a (row ∷ rows) ≡ (if row.asset =ᵇ a then row.amount else pos 0) +ℤ total a rows
unfolding total
total-cons row rows a = ground (arith, zero_add (total a rows))

-- What the four entries did to a ledger.
pub record Booked (buyer seller : Uuid) (pair : Pair) (base quote : ℤ)
    (before after : List LedgerRow) : Type 0 where
  pub moved :
      (u : Uuid) (a : Bytes)
      → balance u a after ≡ trade_share buyer seller pair base quote u a +ℤ balance u a before
  pub conserved : (a : Bytes) → total a after ≡ total a before

regroup : (a b c d x : ℤ) → a +ℤ (b +ℤ (c +ℤ (d +ℤ x))) ≡ a +ℤ (b +ℤ (c +ℤ d)) +ℤ x
regroup a b c d x = eq_of_parts _ _ (
    omega (
      arith,
      +ℤ_parts a (b +ℤ (c +ℤ (d +ℤ x))),
      +ℤ_parts b (c +ℤ (d +ℤ x)),
      +ℤ_parts c (d +ℤ x),
      +ℤ_parts d x,
      +ℤ_parts (a +ℤ (b +ℤ (c +ℤ d))) x,
      +ℤ_parts a (b +ℤ (c +ℤ d)),
      +ℤ_parts b (c +ℤ d),
      +ℤ_parts c d,
    ))

evens :
    (in_quote in_base : Bool) (q b x : ℤ)
    → (if in_quote then q else pos 0)
        +ℤ ((if in_base then neg_ℤ b else pos 0)
            +ℤ ((if in_quote then neg_ℤ q else pos 0) +ℤ ((if in_base then b else pos 0) +ℤ x)))
      ≡ x
evens in_quote in_base q b x =
    let first = (if in_base then b else pos 0) +ℤ x in
    let second = (if in_quote then neg_ℤ q else pos 0) +ℤ first in
    let third = (if in_base then neg_ℤ b else pos 0) +ℤ second in
    eq_of_parts _ _ (
      ground (
        arith,
        +ℤ_parts (if in_quote then q else pos 0) third,
        +ℤ_parts (if in_base then neg_ℤ b else pos 0) second,
        +ℤ_parts (if in_quote then neg_ℤ q else pos 0) first,
        +ℤ_parts (if in_base then b else pos 0) x,
        neg_ℤ_parts b,
        neg_ℤ_parts q,
      ))

four_rows :
    (buyer seller : Uuid) (pair : Pair) (r₁ r₂ r₃ r₄ : LedgerRow) (base quote : ℤ)
    (l : List LedgerRow)
    → (r₁.user_id ≡ buyer) × (r₁.asset ≡ pair.base) × (r₁.amount ≡ base)
    → (r₂.user_id ≡ buyer) × (r₂.asset ≡ pair.quote) × (r₂.amount ≡ neg_ℤ quote)
    → (r₃.user_id ≡ seller) × (r₃.asset ≡ pair.base) × (r₃.amount ≡ neg_ℤ base)
    → (r₄.user_id ≡ seller) × (r₄.asset ≡ pair.quote) × (r₄.amount ≡ quote)
    → Booked buyer seller pair base quote l (r₄ ∷ r₃ ∷ r₂ ∷ r₁ ∷ l)
four_rows buyer seller pair r₁ r₂ r₃ r₄ base quote l h₁ h₂ h₃ h₄ = record {
  moved = λ u a.
      rw
        (
          balance-cons r₄ (r₃ ∷ r₂ ∷ r₁ ∷ l) u a,
          balance-cons r₃ (r₂ ∷ r₁ ∷ l) u a,
          balance-cons r₂ (r₁ ∷ l) u a,
          balance-cons r₁ l u a,
          h₁.0,
          h₁.1,
          h₁.2,
          h₂.0,
          h₂.1,
          h₂.2,
          h₃.0,
          h₃.1,
          h₃.2,
          h₄.0,
          h₄.1,
          h₄.2,
        )
        (regroup _ _ _ _ _);
  conserved = λ a.
      rw
        (
          total-cons r₄ (r₃ ∷ r₂ ∷ r₁ ∷ l) a,
          total-cons r₃ (r₂ ∷ r₁ ∷ l) a,
          total-cons r₂ (r₁ ∷ l) a,
          total-cons r₁ l a,
          h₁.1,
          h₁.2,
          h₂.1,
          h₂.2,
          h₃.1,
          h₃.2,
          h₄.1,
          h₄.2,
        )
        (evens _ _ _ _ _);
}

pub insert_entries-Post :
    (env : Env) (buyer seller : Uuid) (accounts : Accounts) (pair : Pair) (price quantity : Numeric)
    (id : Uuid) (db : Db)
    → Post
        (λ x.
          Booked buyer seller pair
            (column quantity)
            (column (mul price quantity))
            db.ledger
            x.ledger
          × (x.orders ≡ db.orders))
        (insert_entries env 2
          (trade_entries buyer seller accounts pair quantity (mul price quantity) id)
          db)
unfolding insert_entries insert_entry Post ◌>>=◌ guard io new_uuid
insert_entries-Post env buyer seller accounts pair price quantity id db =
    let quote = mul price quantity in
    let r₁ =
      ledger_row
        (record (new_entry buyer accounts.buy_base pair.base quantity id) { id = env.fresh 2 }) in
    let r₂ = ledger_row (record (new_entry buyer accounts.buy_quote pair.quote (neg quote) id) {
      id = env.fresh 3;
    }) in
    let r₃ = ledger_row (record (new_entry seller accounts.sell_base pair.base (neg quantity) id) {
      id = env.fresh 4;
    }) in
    let r₄ =
      ledger_row
        (record (new_entry seller accounts.sell_quote pair.quote quote id) { id = env.fresh 5 }) in
    ground (
      arith,
      four_rows buyer seller pair r₁ r₂ r₃ r₄ (column quantity) (column quote) db.ledger
          (refl, refl, refl) (refl, refl, column-neg quote) (refl, refl, column-neg quantity)
          (refl, refl, refl),
    )
