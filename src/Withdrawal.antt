-- ===== src/Withdrawal.antt =====
-- Withdrawals: internal/withdrawal/service.go, internal/withdrawal/processor.go and
-- internal/withdrawal/store.go. As in Order, the balance is read before the transaction starts.
pub mod Debit
use Prim.Native.Nat.{Ordering}
use mynance.Base.{
  ℕ, Bool, true, false, List, [], ◌∷◌, ◌++◌, Option, none, some, Bytes, bytes, ◌=ᵇ◌, ◌==◌,
  if◌then◌else◌, not, is_empty,
}
use mynance.Base.Int.{ℤ, pos}
use mynance.Numeric.{Numeric, zero_numeric, neg}
use mynance.Shared.{
  Error, not_found, validation, bad_request, insufficient_funds, internal, Result, ok, err, ◌>>=◌,
  ◌>>◌, guard,
}
use mynance.Store.{
  Uuid, Env, io, new_uuid, begin, commit, query, exec, Db, LedgerEntry, withdraw_entry,
  withdraw_ref, Withdrawal, withdraw_requested, scope_withdraw, insert_key, insert_outbox,
  account_id,
}
use mynance.Store.Ledger.{insert_entry, sum_by_user_asset}
use mynance.Order.{exceeds}
use mynance.Asset.{Catalog, network_id, validate_address}

pub record WithdrawCommand : Type 0 where
  pub user_id : Uuid
  pub asset : Bytes
  pub network_name : Bytes
  pub destination_address : Bytes
  pub amount : Numeric
  pub idempotency_key : Bytes

-- The balance is read again after the commit; `none` if that fails.
pub record WithdrawResult : Type 0 where
  pub withdrawal : Withdrawal
  pub new_balance : Option Numeric
  pub db : Db

unfoldable pub withdrawal_known : Uuid → List Withdrawal → Bool
withdrawal_known id [] = false
withdrawal_known id (w ∷ rest) = if w.id == id then true else withdrawal_known id rest

-- `Insert`
unfoldable pub insert_withdrawal : Env → ℕ → Withdrawal → Db → Result Db
insert_withdrawal env exec_call w db = do
  io env (exec exec_call)
  guard (not (withdrawal_known w.id db.withdrawals)) internal
  ok (record db { withdrawals = w ∷ db.withdrawals })

-- An unknown network is a fault of the request.
abbrev pub as_validation : {A : Type 0} → Result A → Result A
as_validation (ok a) = ok a
as_validation (err not_found) = err validation
as_validation (err e) = err e

pub record Cleared : Type 0 where
  pub network_id : Uuid
  pub account_id : Uuid

-- `Withdraw` up to the start of its transaction.
unfoldable pub check_withdraw : Env → Catalog → Db → WithdrawCommand → Result Cleared
check_withdraw env catalog db cmd = do
  guard (exceeds cmd.amount zero_numeric) bad_request
  network ← as_validation (network_id env 0 catalog cmd.asset cmd.network_name)
  validate_address env 1 catalog network cmd.destination_address
  account ← account_id env 2 cmd.user_id cmd.asset db
  balance ← sum_by_user_asset env 3 cmd.user_id cmd.asset db
  guard (not (exceeds cmd.amount balance)) insufficient_funds
  ok (record { network_id = network; account_id = account })

abbrev pub debit_entry : Uuid → Uuid → WithdrawCommand → Cleared → LedgerEntry
debit_entry id withdrawal cmd c = record {
  id = id;
  user_id = cmd.user_id;
  account_id = c.account_id;
  asset = cmd.asset;
  amount = neg cmd.amount;
  entry_type = withdraw_entry;
  ref_type = withdraw_ref;
  ref_id = withdrawal;
}

abbrev pub new_withdrawal : Uuid → WithdrawCommand → Cleared → Withdrawal
new_withdrawal id cmd c = record {
  id = id;
  user_id = cmd.user_id;
  account_id = c.account_id;
  asset = cmd.asset;
  network_id = c.network_id;
  destination_address = cmd.destination_address;
  amount = cmd.amount;
  idempotency_key = cmd.idempotency_key;
}

abbrev pub balance_after : Result Numeric → Option Numeric
balance_after (ok n) = some n
balance_after (err e) = none

-- The transaction of `Withdraw`, and the balance read after it.
unfoldable pub withdraw_tx : Env → Db → WithdrawCommand → Cleared → Result WithdrawResult
withdraw_tx env db cmd c = do
  io env begin
  keyed ← insert_key env 0 0 cmd.idempotency_key scope_withdraw db
  id ← new_uuid env 1
  entry_id ← new_uuid env 2
  booked ← insert_entry env 1 (debit_entry entry_id id cmd c) keyed
  stored ← insert_withdrawal env 2 (new_withdrawal id cmd c) booked
  told ← insert_outbox env 3 3 (withdraw_requested (new_withdrawal id cmd c)) stored
  io env commit
  ok (record {
    withdrawal = new_withdrawal id cmd c;
    new_balance = balance_after (sum_by_user_asset env 4 cmd.user_id cmd.asset told);
    db = told;
  })

-- `Withdraw`, its balance read in the first state.
unfoldable pub withdraw : Env → Catalog → Db → Db → WithdrawCommand → Result WithdrawResult
withdraw env catalog seen db cmd = do
  c ← check_withdraw env catalog seen cmd
  withdraw_tx env db cmd c

-- `MaxSandboxWithdrawalAmount`
abbrev pub max_sandbox_withdrawal_amount : Numeric
max_sandbox_withdrawal_amount = record { valid = true; int = some (pos 100_000); exp = pos 0 }

-- The key that a simulated withdrawal gets if it has none; the text of an identifier is a parameter.
unfoldable pub sandbox_key : (Uuid → Bytes) → Env → WithdrawCommand → Result WithdrawCommand
sandbox_key uuid_text env cmd =
    if is_empty cmd.idempotency_key
    then (do
      id ← new_uuid env 4
      ok (record cmd { idempotency_key = bytes "sandbox-" ++ uuid_text id }))
    else ok cmd

-- `Simulate`
unfoldable pub simulate_withdraw :
    (Uuid → Bytes) → Env → Catalog → Db → Db → WithdrawCommand → Result WithdrawResult
simulate_withdraw uuid_text env catalog seen db cmd = do
  guard (not (exceeds cmd.amount max_sandbox_withdrawal_amount)) validation
  keyed ← sandbox_key uuid_text env cmd
  withdraw env catalog seen db keyed

-- `Withdraw` of the processor of production
unfoldable pub process_withdraw : Env → Catalog → Db → Db → WithdrawCommand → Result WithdrawResult
process_withdraw env catalog seen db cmd = do
  guard (not (is_empty cmd.idempotency_key)) bad_request
  withdraw env catalog seen db cmd
