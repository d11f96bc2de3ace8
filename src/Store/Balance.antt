-- ===== src/Store/Balance.antt =====
-- How bookings move the balances of internal/ledger/store.go.
use mynance.Base.{
  ℕ, ◌≡◌, refl, List, ◌∷◌, Bytes, bytes_iff, ◌=ᵇ◌, ◌==◌, ◌&&◌, if◌then◌else◌, arith, ==_refl,
  =ᵇ_refl, ◌∙◌, sym,
}
use mynance.Base.Int.{ℤ, pos, negsuc, ◌+ℤ◌, ◌≤ℤ◌}
use mynance.Store.{Uuid, LedgerRow}
use mynance.Numeric.{column}
use mynance.Shared.{Post, Post-bind, Post-ok}
use mynance.Store.{Env, io, exec, LedgerEntry, Db}
use mynance.Store.Ledger.{ledger_row, insert_entry, balance}

-- The amount joins one user's balance in one asset; every other balance is as it was.
abbrev pub Adds : Uuid → Bytes → ℤ → List LedgerRow → List LedgerRow → Type 0
Adds user asset amount before after =
    (u : Uuid) (a : Bytes)
    → balance u a after
      ≡ (if (user == u) && (asset =ᵇ a) then amount +ℤ balance u a before else balance u a before)

pub entry-Adds :
    (row : LedgerRow) (ledger : List LedgerRow)
    → Adds row.user_id row.asset row.amount ledger (row ∷ ledger)
unfolding balance
entry-Adds row ledger u a = refl

-- A ledger with one more row, whose amount is `x`.
pub row-Adds :
    (row : LedgerRow) (x : ℤ) (ledger after : List LedgerRow)
    → after ≡ row ∷ ledger
    → row.amount ≡ x
    → Adds row.user_id row.asset x ledger after
row-Adds row x ledger after e h u a = rw (e, sym h) (entry-Adds row ledger u a)

pub Adds-self :
    (user : Uuid) (asset : Bytes) (amount : ℤ) (before after : List LedgerRow)
    → Adds user asset amount before after
    → balance user asset after ≡ amount +ℤ balance user asset before
Adds-self user asset amount before after h = h user asset ∙ rw (==_refl user, =ᵇ_refl asset) refl

pub zero_add : (x : ℤ) → pos 0 +ℤ x ≡ x
unfolding ◌+ℤ◌
zero_add (pos n) = ground arith
zero_add (negsuc n) = ground arith

pub Adds-zero :
    (user : Uuid) (asset : Bytes) (ledger : List LedgerRow) → Adds user asset (pos 0) ledger ledger
Adds-zero user asset ledger u a = rw (zero_add (balance u a ledger)) (ground arith)

pub insert_entry-Post :
    (env : Env) (k : ℕ) (e : LedgerEntry) (db : Db)
    → Post
        (λ x. Adds e.user_id e.asset (column e.amount) db.ledger x.ledger × (x.orders ≡ db.orders))
        (insert_entry env k e db)
unfolding insert_entry
insert_entry-Post env k e db =
    Post-bind _ (io env (exec k)) _
      (λ _ _. Post-ok _ _ (row-Adds (ledger_row e) _ db.ledger _ refl refl, refl))

-- A booking that lowers the user's own balance in no way lowers no balance.
pub Adds-mono :
    (user : Uuid) (asset : Bytes) (amount : ℤ) (before after : List LedgerRow)
    → Adds user asset amount before after
    → balance user asset before ≤ℤ amount +ℤ balance user asset before
    → (u : Uuid) (a : Bytes) → balance u a before ≤ℤ balance u a after
Adds-mono user asset amount before after h up u a = ground (arith, h u a, bytes_iff asset a)

pub Adds-anti :
    (user : Uuid) (asset : Bytes) (amount : ℤ) (before after : List LedgerRow)
    → Adds user asset amount before after
    → amount +ℤ balance user asset before ≤ℤ balance user asset before
    → (u : Uuid) (a : Bytes) → balance u a after ≤ℤ balance u a before
Adds-anti user asset amount before after h down u a = ground (arith, h u a, bytes_iff asset a)

-- What no booking of a user's takes below zero stays at zero or above.
pub Adds-nonneg :
    (user : Uuid) (asset : Bytes) (amount : ℤ) (before after : List LedgerRow)
    → Adds user asset amount before after
    → pos 0 ≤ℤ amount +ℤ balance user asset before
    → (u : Uuid) (a : Bytes) → pos 0 ≤ℤ balance u a before
    → pos 0 ≤ℤ balance u a after
Adds-nonneg user asset amount before after h enough u a was =
    ground (arith, h u a, bytes_iff asset a)
