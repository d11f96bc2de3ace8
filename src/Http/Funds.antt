-- ===== src/Http/Funds.antt =====
-- The handlers of deposits, withdrawals and wallets: internal/deposit/handler.go,
-- internal/withdrawal/handler.go and internal/wallet/handler.go.
use mynance.Base.{ℕ, List, [], Bytes, filter, take, drop, map, ◌==◌}
use mynance.Shared.{Result, ok, err, ◌>>=◌ as result_bind}
use mynance.Store.{Uuid, Env, Db, Deposit, DepositRow, Withdrawal, WalletAddress, io, query}
use mynance.Asset.{Catalog}
use mynance.Deposit.{intake, confirm, reject, Committed, Processor, process_deposit, scan_deposit}
use mynance.Withdrawal.{WithdrawCommand, WithdrawResult, simulate_withdraw, process_withdraw}
use mynance.Wallet.{Random, get_or_create_address}
use mynance.Http.{
  Parsers, Context, json, go, plain, service_error, ◌>>=◌, ◌>>◌, Answer, finish, Body, decoded,
  parsed, served, caller, require_admin, Page, parse_pagination,
}

pub record IntakeRequest : Type 0 where
  pub address : Bytes
  pub asset : Bytes
  pub amount : Bytes
  pub tx_hash : Bytes

-- `Intake`, behind `RequireAdmin`
unfoldable pub intake_handler : Parsers → Env → Db → Context → Body IntakeRequest → Answer Deposit
intake_handler p env db ctx body = finish db (do
  require_admin ctx
  req ← decoded body
  amount ← parsed (p.numeric req.amount)
  d ← served (
      intake env db (record {
        address = req.address;
        asset = req.asset;
        amount = amount;
        tx_hash = req.tx_hash;
      }))
  go (record { reply = json 201 d.deposit; db = d.db }))

-- `Confirm`, behind `RequireAdmin`
unfoldable pub confirm_handler : Parsers → Env → Db → Context → Bytes → Answer Deposit
confirm_handler p env db ctx raw_id = finish db (do
  require_admin ctx
  id ← parsed (p.uuid raw_id)
  d ← served (confirm env db id)
  go (record { reply = json 200 d.deposit; db = d.db }))

-- `Reject`, behind `RequireAdmin`
unfoldable pub reject_handler : Parsers → Env → Db → Context → Bytes → Answer Deposit
reject_handler p env db ctx raw_id = finish db (do
  require_admin ctx
  id ← parsed (p.uuid raw_id)
  d ← served (reject env db id)
  go (record { reply = json 200 d.deposit; db = d.db }))

pub record DepositRequest : Type 0 where
  pub address : Bytes
  pub asset : Bytes
  pub network : Bytes
  pub amount : Bytes

-- The request may commit and still fail.
abbrev pub deposit_reply : Committed → Answer Deposit
deposit_reply c = elim c.result [
  | ok d ↦ record { reply = json 201 d; db = c.db }
  | err e ↦ record { reply = plain (service_error e); db = c.db }
]

-- `Deposit`
unfoldable pub deposit_handler :
    Processor
    → (Uuid → Bytes)
    → Parsers
    → Env
    → Env
    → Env
    → Db
    → Context
    → Body DepositRequest
    → Answer Deposit
deposit_handler processor uuid_text p env intake_env confirm_env db ctx body = finish db (do
  user ← caller ctx
  req ← decoded body
  amount ← parsed (p.numeric req.amount)
  go (
      deposit_reply (
        process_deposit processor uuid_text env intake_env confirm_env db user
          (record { address = req.address; asset = req.asset; amount = amount; tx_hash = [] }))))

pub record WithdrawRequest : Type 0 where
  pub asset : Bytes
  pub network : Bytes
  pub destination_address : Bytes
  pub amount : Bytes
  pub idempotency_key : Bytes

-- `Withdraw` of the processor of either environment
unfoldable pub withdraw_by :
    Processor → (Uuid → Bytes) → Env → Catalog → Db → WithdrawCommand → Result WithdrawResult
withdraw_by Processor.real uuid_text env catalog db cmd = process_withdraw env catalog db db cmd
withdraw_by Processor.sandbox uuid_text env catalog db cmd =
    simulate_withdraw uuid_text env catalog db db cmd

-- `Withdraw`
unfoldable pub withdraw_handler :
    Processor
    → (Uuid → Bytes)
    → Parsers
    → Env
    → Catalog
    → Db
    → Context
    → Body WithdrawRequest
    → Answer Withdrawal
withdraw_handler processor uuid_text p env catalog db ctx body = finish db (do
  user ← caller ctx
  req ← decoded body
  amount ← parsed (p.numeric req.amount)
  d ← served (
      withdraw_by processor uuid_text env catalog db (record {
        user_id = user;
        asset = req.asset;
        network_name = req.network;
        destination_address = req.destination_address;
        amount = amount;
        idempotency_key = req.idempotency_key;
      }))
  go (record { reply = json 200 d.withdrawal; db = d.db }))

pub record CreateWalletRequest : Type 0 where
  pub asset : Bytes
  pub network : Bytes

-- `Create` of internal/wallet/handler.go
unfoldable pub create_wallet_handler :
    Random
    → Env
    → (ℕ → Env)
    → Catalog
    → Db
    → Context
    → Body CreateWalletRequest
    → Answer WalletAddress
create_wallet_handler r env rounds catalog db ctx body = finish db (do
  user ← caller ctx
  req ← decoded body
  h ← served (get_or_create_address r env rounds catalog db db user req.asset req.network)
  go (record { reply = json 200 h.wallet; db = h.db }))

-- `ListMine` of internal/deposit/store.go and internal/withdrawal/store.go, and `ListByUser` of
-- internal/wallet/store.go, whose rows are listed oldest first.
unfoldable pub list_deposits : Env → Uuid → Page → Db → Result (List Deposit)
list_deposits env user page db = result_bind (io env (query 0)) (λ _. ok (
    map (λ (row : DepositRow). scan_deposit row)
      (take page.limit
        (drop page.offset (filter (λ (row : DepositRow). row.user_id == user) db.deposits)))))

unfoldable pub list_withdrawals : Env → Uuid → Page → Db → Result (List Withdrawal)
list_withdrawals env user page db = result_bind (io env (query 0)) (λ _. ok (
    take page.limit
      (drop page.offset (filter (λ (w : Withdrawal). w.user_id == user) db.withdrawals))))

-- `ListMine` of the two handlers
unfoldable pub list_deposits_handler :
    Parsers → Env → Db → Context → Bytes → Bytes → Answer (List Deposit)
list_deposits_handler p env db ctx limit offset = finish db (do
  user ← caller ctx
  found ← served (list_deposits env user (parse_pagination p limit offset) db)
  go (record { reply = json 200 found; db = db }))

unfoldable pub list_withdrawals_handler :
    Parsers → Env → Db → Context → Bytes → Bytes → Answer (List Withdrawal)
list_withdrawals_handler p env db ctx limit offset = finish db (do
  user ← caller ctx
  found ← served (list_withdrawals env user (parse_pagination p limit offset) db)
  go (record { reply = json 200 found; db = db }))
