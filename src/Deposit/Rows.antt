-- ===== src/Deposit/Rows.antt =====
-- The rows of internal/deposit/store.go, found and updated by their primary key.
use mynance.Base.{
  ℕ, ◌≡◌, ◌≢◌, refl, true, List, [], ◌∷◌, some, Option-cases, Bool-cases, inl, inr, ◌==◌, arith,
}
use mynance.Shared.{ok, ◌>>=◌, guard}
use mynance.Store.{
  Uuid, Env, Db, Deposit, DepositRow, DepositStatus, pending, confirmed, rejected, io,
}
use mynance.Deposit.{find_deposit, update_deposit, get_deposit, scan_deposit, is_pending}

abbrev pub marked : DepositStatus → DepositRow → DepositRow
marked s row = record row { status = s }

module _ (id : Uuid) (s : DepositStatus) where
  pub find_deposit-update_deposit :
      (rows : List DepositRow) (row : DepositRow)
      → find_deposit id rows ≡ some row
      → find_deposit id (update_deposit id s rows) ≡ some (marked s row)
  unfolding find_deposit update_deposit
  find_deposit-update_deposit [] row h = cc
  find_deposit-update_deposit (r ∷ rest) row h = elim (Bool-cases (r.id == id)) [
    | inl e ↦ ground (arith, e)
    | inr e ↦ ground (arith, e, find_deposit-update_deposit rest row (ground (arith, e)))
  ]

  pub find_deposit-others :
      (rows : List DepositRow) (other : Uuid)
      → other ≢ id
      → find_deposit other (update_deposit id s rows) ≡ find_deposit other rows
  unfolding find_deposit update_deposit
  find_deposit-others [] other h = refl
  find_deposit-others (r ∷ rest) other h = ground (arith, find_deposit-others rest other h)

pub find_deposit-id :
    (id : Uuid) (rows : List DepositRow) (row : DepositRow)
    → find_deposit id rows ≡ some row
    → row.id ≡ id
unfolding find_deposit
find_deposit-id id [] row h = cc
find_deposit-id id (r ∷ rest) row h = ground (arith, find_deposit-id id rest row)

pub get_deposit-ok :
    (env : Env) (k : ℕ) (id : Uuid) (db : Db) (d : Deposit)
    → get_deposit env k id db ≡ ok d
    → (row : DepositRow) × (find_deposit id db.deposits ≡ some row) × (d ≡ scan_deposit row)
unfolding get_deposit ◌>>=◌ io guard
get_deposit-ok env k id db d h = elim (Option-cases (find_deposit id db.deposits)) [
  | inl e ↦ ground (arith, e)
  | inr (row, e) ↦ (row, e, ground (arith, e))
]

pub is_pending_iff : (s : DepositStatus) → is_pending s ≡ true → s ≡ pending
is_pending_iff pending h = refl
is_pending_iff confirmed h = cc
is_pending_iff rejected h = cc
