-- ===== src/Account.antt =====
-- Accounts: internal/account/service.go, internal/account/store.go and internal/account/provisioner.go.
-- `ProvisionAll` runs inside a transaction of its caller and goes on after an INSERT that fails, so here
-- a transaction is a state of its own: after a statement that failed PostgreSQL refuses every further
-- one, and a commit of such a transaction rolls it back and is an error.
pub mod Provision
use mynance.Base.{
  ℕ, suc, Bool, true, false, List, [], ◌∷◌, Option, none, some, Bytes, ◌=ᵇ◌, ◌==◌, ◌&&◌, ◌||◌,
  if◌then◌else◌, not,
}
use mynance.Numeric.{Numeric}
use mynance.Shared.{Error, not_found, conflict, internal, Result, ok, err, ◌>>=◌, ◌>>◌, guard}
use mynance.Store.{Uuid, Env, io, new_uuid, begin, commit, query, exec, Db, Account}
use mynance.Store.Ledger.{sum_by_user_asset}

-- A row that breaks the primary key or UNIQUE (user_id, asset).
unfoldable pub account_known : Account → List Account → Bool
account_known new [] = false
account_known new (a ∷ rest) =
    if (a.id == new.id) || ((a.user_id == new.user_id) && (a.asset =ᵇ new.asset))
    then true
    else account_known new rest

pub record Tx : Type 0 where
  pub db : Db
  pub aborted : Bool

-- A statement's effect on its transaction, and what the call returns.
pub record Ran : Type 0 where
  pub tx : Tx
  pub result : Result (Unit {0})

abbrev pub refused : Tx → Error → Ran
refused tx e = record { tx = record tx { aborted = true }; result = err e }

-- `pgxStore.Create`
unfoldable pub create_account_row : Env → ℕ → Account → Tx → Ran
create_account_row env exec_call a tx =
    if tx.aborted || env.fails (exec exec_call)
    then refused tx internal
    else (if account_known a tx.db.accounts then refused tx conflict else record {
      tx = record tx { db = record tx.db { accounts = a ∷ tx.db.accounts } };
      result = ok tt;
    })

-- `tx.Commit`
unfoldable pub commit_tx : Env → Tx → Result Db
commit_tx env tx = do io env commit; guard (not tx.aborted) internal; ok tx.db

abbrev pub new_account : Uuid → Uuid → Bytes → Account
new_account id user asset = record { id = id; user_id = user; asset = asset }

-- The loop of `ProvisionAll` goes on after an INSERT that succeeded or was a conflict.
abbrev pub goes_on : Result (Unit {0}) → Bool
goes_on (ok done) = true
goes_on (err conflict) = true
goes_on (err e) = false

unfoldable pub provision : Env → ℕ → Uuid → List Bytes → Tx → Ran
provision env call user [] tx = record { tx = tx; result = ok tt }
provision env call user (symbol ∷ rest) tx = elim (new_uuid env call) [
  | err e ↦ record { tx = tx; result = err e }
  | ok id ↦
      let ran = create_account_row env call (new_account id user symbol) tx in
      let others = provision env (suc call) user rest ran.tx in
      if goes_on ran.result then others else ran
]

-- `GetByID`
unfoldable pub find_account_by_id : Uuid → List Account → Option Account
find_account_by_id id [] = none
find_account_by_id id (a ∷ rest) = if a.id == id then some a else find_account_by_id id rest

-- `GetAccount`
unfoldable pub get_account : Env → ℕ → Uuid → Db → Result Account
get_account env query_call id db = do
  io env (query query_call)
  elim (find_account_by_id id db.accounts) [ none ↦ err not_found | some a ↦ ok a ]

pub record Opened : Type 0 where
  pub account : Account
  pub db : Db

-- `CreateAccount`
unfoldable pub create_account : Env → Db → Uuid → Bytes → Result Opened
create_account env db user asset = do
  id ← new_uuid env 0
  io env begin
  let ran =
      create_account_row env 0 (new_account id user asset) (record { db = db; aborted = false })
  ran.result
  after ← commit_tx env ran.tx
  ok (record { account = new_account id user asset; db = after })

unfoldable pub remove_account : Uuid → List Account → List Account
remove_account id [] = []
remove_account id (a ∷ rest) =
    if a.id == id then remove_account id rest else a ∷ remove_account id rest

-- `DeleteAccount`; no row affected is `ErrNotFound`.
unfoldable pub delete_account : Env → Db → Uuid → Result Db
delete_account env db id = do
  io env begin
  io env (exec 0)
  (elim (find_account_by_id id db.accounts) [ none ↦ err not_found | some a ↦ ok tt ])
  io env commit
  ok (record db { accounts = remove_account id db.accounts })

-- `GetBalance`
unfoldable pub get_balance : Env → Db → Uuid → Bytes → Result Numeric
get_balance env db user asset = sum_by_user_asset env 0 user asset db
