-- ===== src/Exchange/Frame.antt =====
-- What the requests of the exchange leave alone: orders, keys and entries.
use mynance.Base.{◌≡◌, arith, Bytes}
use mynance.Shared.{◌>>=◌, guard, Post, Post-bind}
use mynance.Store.{Uuid, Env, Db, io, new_uuid, insert_outbox, account_id, insert_key}
use mynance.Store.Ledger.{insert_entry}
use mynance.Deposit.{
  IntakeCommand, get_wallet, create_deposit, get_deposit, update_deposit_status, intake, confirm,
  reject,
}
use mynance.Withdrawal.{
  WithdrawCommand, Cleared, insert_withdrawal, check_withdraw, withdraw_tx, withdraw,
}
use mynance.Asset.{Catalog}
use mynance.Account.{create_account_row, commit_tx, create_account, delete_account}
use mynance.User.{delete_user}

-- Orders, keys and entries are as they were.
abbrev pub Idle : Db → Db → Type 0
Idle db x =
    (x.orders ≡ db.orders) × (x.idempotency_keys ≡ db.idempotency_keys) × (x.ledger ≡ db.ledger)

-- Orders and keys are as they were.
abbrev pub Funding : Db → Db → Type 0
Funding db x = (x.orders ≡ db.orders) × (x.idempotency_keys ≡ db.idempotency_keys)

pub intake-Idle :
    (env : Env) (db : Db) (cmd : IntakeCommand) → Post (λ d. Idle db d.db) (intake env db cmd)
unfolding intake get_wallet create_deposit ◌>>=◌ io new_uuid guard Post
intake-Idle env db cmd = ground arith

pub confirm-Funding :
    (env : Env) (db : Db) (id : Uuid) → Post (λ d. Funding db d.db) (confirm env db id)
unfolding confirm get_deposit insert_entry update_deposit_status insert_outbox account_id ◌>>=◌ io
    new_uuid guard Post
confirm-Funding env db id = ground arith

pub reject-Idle : (env : Env) (db : Db) (id : Uuid) → Post (λ d. Idle db d.db) (reject env db id)
unfolding reject get_deposit update_deposit_status ◌>>=◌ io guard Post
reject-Idle env db id = ground arith

pub create_account-Idle :
    (env : Env) (db : Db) (user : Uuid) (asset : Bytes)
    → Post (λ d. Idle db d.db) (create_account env db user asset)
unfolding create_account create_account_row commit_tx ◌>>=◌ io new_uuid guard Post
create_account-Idle env db user asset = ground arith

pub delete_account-Idle :
    (env : Env) (db : Db) (id : Uuid) → Post (Idle db) (delete_account env db id)
unfolding delete_account ◌>>=◌ io guard Post
delete_account-Idle env db id = ground arith

pub delete_user-Idle : (env : Env) (db : Db) (id : Uuid) → Post (Idle db) (delete_user env db id)
unfolding delete_user ◌>>=◌ io guard Post
delete_user-Idle env db id = ground arith

withdraw_tx-orders :
    (env : Env) (db : Db) (cmd : WithdrawCommand) (c : Cleared)
    → Post (λ d. d.db.orders ≡ db.orders) (withdraw_tx env db cmd c)
unfolding withdraw_tx Post ◌>>=◌ guard io new_uuid insert_key insert_withdrawal insert_entry
    insert_outbox
withdraw_tx-orders env db cmd c = ground arith

pub withdraw-orders :
    (env : Env) (catalog : Catalog) (seen db : Db) (cmd : WithdrawCommand)
    → Post (λ d. d.db.orders ≡ db.orders) (withdraw env catalog seen db cmd)
unfolding withdraw
withdraw-orders env catalog seen db cmd =
    Post-bind _ (check_withdraw env catalog seen cmd) _ (λ c _. withdraw_tx-orders env db cmd c)
