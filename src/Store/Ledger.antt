-- ===== src/Store/Ledger.antt =====
-- internal/ledger/store.go: entries are only added, and a balance is the sum of a user's entries in an
-- asset.
use mynance.Base.{ℕ, Bool, List, [], ◌∷◌, Bytes, ◌=ᵇ◌, ◌==◌, ◌&&◌, if◌then◌else◌}
use mynance.Base.Int.{ℤ, pos, ◌+ℤ◌}
use mynance.Numeric.{Numeric, column, loaded}
use mynance.Shared.{Result, ok, ◌>>◌}
use mynance.Store.{Uuid, Env, Db, LedgerEntry, LedgerRow, io, query, exec}

abbrev pub ledger_row : LedgerEntry → LedgerRow
ledger_row e = record {
  id = e.id;
  user_id = e.user_id;
  account_id = e.account_id;
  asset = e.asset;
  amount = column e.amount;
  entry_type = e.entry_type;
  ref_type = e.ref_type;
  ref_id = e.ref_id;
}

-- `pgxStore.Insert`
unfoldable pub insert_entry : Env → ℕ → LedgerEntry → Db → Result Db
insert_entry env exec_call e db = do
  io env (exec exec_call)
  ok (record db { ledger = ledger_row e ∷ db.ledger })

abbrev pub is_of : Uuid → Bytes → LedgerRow → Bool
is_of user asset row = (row.user_id == user) && (row.asset =ᵇ asset)

-- `SELECT COALESCE(SUM(amount), 0) … WHERE user_id = $1 AND asset = $2`
unfoldable pub balance : Uuid → Bytes → List LedgerRow → ℤ
balance user asset [] = pos 0
balance user asset (row ∷ rest) =
    if is_of user asset row then row.amount +ℤ balance user asset rest else balance user asset rest

-- `SumByUserAsset`; the decimal text that it returns is taken as the amount it spells.
unfoldable pub sum_by_user_asset : Env → ℕ → Uuid → Bytes → Db → Result Numeric
sum_by_user_asset env query_call user asset db = do
  io env (query query_call)
  ok (loaded (balance user asset db.ledger))

-- Everything that is booked in an asset, over all users.
unfoldable pub total : Bytes → List LedgerRow → ℤ
total asset [] = pos 0
total asset (row ∷ rest) =
    if row.asset =ᵇ asset then row.amount +ℤ total asset rest else total asset rest
