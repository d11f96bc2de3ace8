-- ===== src/Deposit.antt =====
-- Deposits: internal/deposit/service.go, internal/deposit/processor.go and internal/deposit/store.go,
-- with the look-up by address of internal/wallet/store.go.
pub mod Rows
pub mod Confirm
pub mod Simulate
use mynance.Base.{
  ℕ, Bool, true, false, List, [], ◌∷◌, ◌++◌, Option, none, some, Bytes, bytes, ◌=ᵇ◌, ◌==◌, ◌||◌,
  if◌then◌else◌, not, is_empty,
}
use mynance.Base.Int.{ℤ, pos}
use mynance.Numeric.{Numeric, column, loaded}
use mynance.Shared.{
  not_found, conflict, validation, invalid_state_transition, not_implemented, Result, ok, err,
  ◌>>=◌, ◌>>◌, guard,
}
use mynance.Store.{
  Uuid, Env, io, new_uuid, begin, commit, query, exec, Db, LedgerEntry, deposit_entry, deposit_ref,
  WalletAddress, Deposit, DepositRow, DepositStatus, pending, confirmed, rejected,
  deposit_confirmed, insert_outbox, account_id,
}
use mynance.Store.Ledger.{insert_entry}
use mynance.Order.{exceeds}

pub record IntakeCommand : Type 0 where
  pub address : Bytes
  pub asset : Bytes
  pub amount : Numeric
  pub tx_hash : Bytes

unfoldable pub find_wallet : Bytes → List WalletAddress → Option WalletAddress
find_wallet address [] = none
find_wallet address (w ∷ rest) = if w.address =ᵇ address then some w else find_wallet address rest

-- `GetByAddress`
unfoldable pub get_wallet : Env → ℕ → Bytes → Db → Result WalletAddress
get_wallet env query_call address db = do
  io env (query query_call)
  elim (find_wallet address db.wallets) [ none ↦ err not_found | some w ↦ ok w ]

unfoldable pub find_deposit : Uuid → List DepositRow → Option DepositRow
find_deposit id [] = none
find_deposit id (row ∷ rest) = if row.id == id then some row else find_deposit id rest

unfoldable pub update_deposit : Uuid → DepositStatus → List DepositRow → List DepositRow
update_deposit id s [] = []
update_deposit id s (row ∷ rest) =
    if row.id == id
    then record row { status = s } ∷ update_deposit id s rest
    else row ∷ update_deposit id s rest

-- A row that breaks the primary key or UNIQUE (tx_hash).
unfoldable pub deposit_known : Uuid → Bytes → List DepositRow → Bool
deposit_known id hash [] = false
deposit_known id hash (row ∷ rest) =
    if (row.id == id) || (row.tx_hash =ᵇ hash) then true else deposit_known id hash rest

abbrev pub deposit_row : Deposit → DepositRow
deposit_row d = record {
  id = d.id;
  user_id = d.user_id;
  asset = d.asset;
  network_id = d.network_id;
  address = d.address;
  amount = column d.amount;
  tx_hash = d.tx_hash;
  status = d.status;
}

-- `scan`
abbrev pub scan_deposit : DepositRow → Deposit
scan_deposit row = record {
  id = row.id;
  user_id = row.user_id;
  asset = row.asset;
  network_id = row.network_id;
  address = row.address;
  amount = loaded row.amount;
  tx_hash = row.tx_hash;
  status = row.status;
}

-- `Create`
unfoldable pub create_deposit : Env → ℕ → Deposit → Db → Result Db
create_deposit env exec_call d db = do
  io env (exec exec_call)
  guard (not (deposit_known d.id d.tx_hash db.deposits)) conflict
  ok (record db { deposits = deposit_row d ∷ db.deposits })

-- `GetByIDTx`
unfoldable pub get_deposit : Env → ℕ → Uuid → Db → Result Deposit
get_deposit env query_call id db = do
  io env (query query_call)
  elim (find_deposit id db.deposits) [ none ↦ err not_found | some row ↦ ok (scan_deposit row) ]

-- `UpdateStatus`; no row affected is `ErrNotFound`.
unfoldable pub update_deposit_status : Env → ℕ → Uuid → DepositStatus → Db → Result Db
update_deposit_status env exec_call id s db = do
  io env (exec exec_call)
  elim (find_deposit id db.deposits) [
    | none ↦ err not_found
    | some row ↦ ok (record db { deposits = update_deposit id s db.deposits })
  ]

pub record Outcome : Type 0 where
  pub deposit : Deposit
  pub db : Db

abbrev pub is_pending : DepositStatus → Bool
is_pending pending = true
is_pending confirmed = false
is_pending rejected = false

abbrev pub new_deposit : Uuid → WalletAddress → IntakeCommand → Deposit
new_deposit id w cmd = record {
  id = id;
  user_id = w.user_id;
  asset = cmd.asset;
  network_id = w.network_id;
  address = cmd.address;
  amount = cmd.amount;
  tx_hash = cmd.tx_hash;
  status = pending;
}

-- `Intake`
unfoldable pub intake : Env → Db → IntakeCommand → Result Outcome
intake env db cmd = do
  w ← get_wallet env 0 cmd.address db
  guard (w.asset =ᵇ cmd.asset) validation
  io env begin
  id ← new_uuid env 0
  created ← create_deposit env 0 (new_deposit id w cmd) db
  io env commit
  ok (record { deposit = new_deposit id w cmd; db = created })

abbrev pub credit_entry : Uuid → Uuid → Deposit → LedgerEntry
credit_entry id account d = record {
  id = id;
  user_id = d.user_id;
  account_id = account;
  asset = d.asset;
  amount = d.amount;
  entry_type = deposit_entry;
  ref_type = deposit_ref;
  ref_id = d.id;
}

-- `Confirm`
unfoldable pub confirm : Env → Db → Uuid → Result Outcome
confirm env db id = do
  io env begin
  d ← get_deposit env 0 id db
  guard (is_pending d.status) invalid_state_transition
  account ← account_id env 1 d.user_id d.asset db
  entry_id ← new_uuid env 0
  booked ← insert_entry env 0 (credit_entry entry_id account d) db
  done ← update_deposit_status env 1 d.id confirmed booked
  told ← insert_outbox env 1 2 (deposit_confirmed (record d { status = confirmed })) done
  io env commit
  ok (record { deposit = record d { status = confirmed }; db = told })

-- `Reject`
unfoldable pub reject : Env → Db → Uuid → Result Outcome
reject env db id = do
  io env begin
  d ← get_deposit env 0 id db
  guard (is_pending d.status) invalid_state_transition
  done ← update_deposit_status env 0 d.id rejected db
  io env commit
  ok (record { deposit = record d { status = rejected }; db = done })

-- `MaxSandboxDepositAmount`
abbrev pub max_sandbox_deposit_amount : Numeric
max_sandbox_deposit_amount = record { valid = true; int = some (pos 100_000); exp = pos 0 }

-- A request that commits more than once: the database that it leaves and what it returns.
pub record Committed : Type 0 where
  pub db : Db
  pub result : Result Deposit

unfoldable pub then_confirm : Env → Db → Result Outcome → Committed
then_confirm env db (err e) = record { db = db; result = err e }
then_confirm env db (ok taken) = elim (confirm env taken.db taken.deposit.id) [
  | err e ↦ record { db = taken.db; result = err e }
  | ok done ↦ record { db = done.db; result = ok done.deposit }
]

-- The hash that a simulated deposit gets if it has none; the text of an identifier is a parameter.
unfoldable pub sandbox_hash : (Uuid → Bytes) → Env → IntakeCommand → Result IntakeCommand
sandbox_hash uuid_text env cmd =
    if is_empty cmd.tx_hash
    then (do id ← new_uuid env 0; ok (record cmd { tx_hash = bytes "sandbox-" ++ uuid_text id }))
    else ok cmd

-- `Simulate` up to its call of `Intake`.
unfoldable pub check_simulated :
    (Uuid → Bytes) → Env → Db → Uuid → IntakeCommand → Result IntakeCommand
check_simulated uuid_text env db user cmd = do
  w ← get_wallet env 0 cmd.address db
  guard (w.user_id == user) not_found
  guard (not (exceeds cmd.amount max_sandbox_deposit_amount)) validation
  sandbox_hash uuid_text env cmd

-- `Simulate`: two transactions, one after the other.
unfoldable pub simulate : (Uuid → Bytes) → Env → Env → Env → Db → Uuid → IntakeCommand → Committed
simulate uuid_text env intake_env confirm_env db user cmd =
    elim (check_simulated uuid_text env db user cmd) [
      | err e ↦ record { db = db; result = err e }
      | ok filled ↦ then_confirm confirm_env db (intake intake_env db filled)
    ]

pub data Processor : Type 0 where
  real sandbox : Processor

-- `Deposit` of the two processors
unfoldable pub process_deposit :
    Processor → (Uuid → Bytes) → Env → Env → Env → Db → Uuid → IntakeCommand → Committed
process_deposit real uuid_text env intake_env confirm_env db user cmd = record {
  db = db;
  result = err not_implemented;
}
process_deposit sandbox uuid_text env intake_env confirm_env db user cmd =
    simulate uuid_text env intake_env confirm_env db user cmd
