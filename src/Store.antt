-- ===== src/Store.antt =====
-- The database behind the stores: the tables of migrations/ as lists of rows, newest first. A request
-- runs against a state of it; a transaction works on a copy that a commit publishes and an error
-- discards. What the world decides for a request (which calls of the database or of uuid.NewV7 fail,
-- and the identifiers made) is an `Env`; creation times are left out, since only listings read them: those that need them take them as a parameter.
pub mod Ledger
pub mod Balance
pub mod Orders
pub mod Keys
use mynance.Base.{
  ℕ, Bool, true, false, List, [], ◌∷◌, Option, none, some, Bytes, ◌=ᵇ◌, ◌==◌, ◌&&◌, if◌then◌else◌,
  not,
}
use mynance.Base.Int.{ℤ, pos, ◌+ℤ◌}
use mynance.Book.{Side}
use mynance.Numeric.{Numeric, column, loaded, column_add}
use mynance.Shared.{
  Error, not_found, duplicate_idempotency_key, conflict, internal, Result, ok, err, ◌>>=◌, ◌>>◌,
  guard,
}

abbrev pub Uuid : Type 0
Uuid = ℕ

-- `uuid.Nil`
abbrev pub nil_uuid : Uuid
nil_uuid = 0

-- The calls of one request that the outside can fail, numbered in the order in which they are written.
pub data Call : Type 0 where
  begin commit : Call
  new_id query exec : ℕ → Call

pub record Env : Type 0 where
  pub fails : Call → Bool
  pub fresh : ℕ → Uuid

unfoldable pub io : Env → Call → Result (Unit {0})
io env call = guard (not (env.fails call)) internal

-- `uuid.NewV7`
unfoldable pub new_uuid : Env → ℕ → Result Uuid
new_uuid env k = do io env (new_id k); ok (env.fresh k)

-- internal/order/domain.go
pub data Status : Type 0 where
  open_status partial filled cancelled : Status

pub record Order : Type 0 where
  pub id : Uuid
  pub user_id : Uuid
  pub symbol : Bytes
  pub side : Side
  pub price : Numeric
  pub quantity : Numeric
  pub filled_quantity : Numeric
  pub status : Status

-- A row of `orders`, whose amounts are columns.
pub record OrderRow : Type 0 where
  pub id : Uuid
  pub user_id : Uuid
  pub symbol : Bytes
  pub side : Side
  pub price : ℤ
  pub quantity : ℤ
  pub filled_quantity : ℤ
  pub status : Status

-- internal/trade/domain.go
pub record Trade : Type 0 where
  pub id : Uuid
  pub symbol : Bytes
  pub buy_order_id : Uuid
  pub sell_order_id : Uuid
  pub buy_user_id : Uuid
  pub sell_user_id : Uuid
  pub price : Numeric
  pub quantity : Numeric

-- internal/ledger/domain.go
pub data EntryType : Type 0 where
  reserve release trade_entry deposit_entry withdraw_entry : EntryType

pub data RefType : Type 0 where
  order_ref trade_ref deposit_ref withdraw_ref : RefType

pub record LedgerEntry : Type 0 where
  pub id : Uuid
  pub user_id : Uuid
  pub account_id : Uuid
  pub asset : Bytes
  pub amount : Numeric
  pub entry_type : EntryType
  pub ref_type : RefType
  pub ref_id : Uuid

pub record LedgerRow : Type 0 where
  pub id : Uuid
  pub user_id : Uuid
  pub account_id : Uuid
  pub asset : Bytes
  pub amount : ℤ
  pub entry_type : EntryType
  pub ref_type : RefType
  pub ref_id : Uuid

-- internal/account/domain.go
pub record Account : Type 0 where
  pub id : Uuid
  pub user_id : Uuid
  pub asset : Bytes

-- internal/user/domain.go; a row is deleted by setting `deleted_at`, of which only that it is set is kept.
pub data Role : Type 0 where
  user_role admin_role system_role : Role

pub data UserStatus : Type 0 where
  active suspended closed : UserStatus

pub record User : Type 0 where
  pub id : Uuid
  pub email : Bytes
  pub username : Bytes
  pub full_name : Bytes
  pub password_hash : Bytes
  pub status : UserStatus
  pub role : Role
  pub deleted : Bool

-- internal/idempotency/domain.go
pub data Scope : Type 0 where
  scope_order scope_trade scope_withdraw : Scope

pub record IdempotencyKey : Type 0 where
  pub id : Uuid
  pub key : Bytes
  pub scope : Scope

-- internal/wallet/domain.go
pub record WalletAddress : Type 0 where
  pub id : Uuid
  pub user_id : Uuid
  pub asset : Bytes
  pub network_id : Uuid
  pub address : Bytes

-- internal/deposit/domain.go
pub data DepositStatus : Type 0 where
  pending confirmed rejected : DepositStatus

pub record Deposit : Type 0 where
  pub id : Uuid
  pub user_id : Uuid
  pub asset : Bytes
  pub network_id : Uuid
  pub address : Bytes
  pub amount : Numeric
  pub tx_hash : Bytes
  pub status : DepositStatus

pub record DepositRow : Type 0 where
  pub id : Uuid
  pub user_id : Uuid
  pub asset : Bytes
  pub network_id : Uuid
  pub address : Bytes
  pub amount : ℤ
  pub tx_hash : Bytes
  pub status : DepositStatus

-- internal/withdrawal/domain.go; the only status written is COMPLETED.
pub record Withdrawal : Type 0 where
  pub id : Uuid
  pub user_id : Uuid
  pub account_id : Uuid
  pub asset : Bytes
  pub network_id : Uuid
  pub destination_address : Bytes
  pub amount : Numeric
  pub idempotency_key : Bytes

-- The documents that the services put in the outbox, by the values that they hold.
pub data Payload : Type 0 where
  order_placed : Order → Payload
  order_cancelled : Uuid → Uuid → Status → Payload
  trade_executed : Trade → Payload
  deposit_confirmed : Deposit → Payload
  withdraw_requested : Withdrawal → Payload

-- internal/outbox/domain.go
pub data OutboxStatus : Type 0 where
  pending_event processed_event : OutboxStatus

pub record OutboxEvent : Type 0 where
  pub id : Uuid
  pub payload : Payload
  pub status : OutboxStatus
  pub retries : ℕ

pub record Db : Type 0 where
  pub users : List User
  pub accounts : List Account
  pub orders : List OrderRow
  pub trades : List Trade
  pub ledger : List LedgerRow
  pub idempotency_keys : List IdempotencyKey
  pub outbox : List OutboxEvent
  pub wallets : List WalletAddress
  pub deposits : List DepositRow
  pub withdrawals : List Withdrawal

unfoldable same_scope : Scope → Scope → Bool
same_scope scope_order scope_order = true
same_scope scope_trade scope_trade = true
same_scope scope_withdraw scope_withdraw = true
same_scope _ _ = false

-- A row that breaks UNIQUE (key, scope).
unfoldable pub key_used : Bytes → Scope → List IdempotencyKey → Bool
unfolding same_scope
key_used key scope [] = false
key_used key scope (k ∷ ks) =
    if (k.key =ᵇ key) && same_scope k.scope scope then true else key_used key scope ks

-- `pgxStore.Insert` of internal/idempotency/store.go
unfoldable pub insert_key : Env → ℕ → ℕ → Bytes → Scope → Db → Result Db
insert_key env id_call exec_call key scope db = do
  id ← new_uuid env id_call
  io env (exec exec_call)
  guard (not (key_used key scope db.idempotency_keys)) duplicate_idempotency_key
  ok (record db {
    idempotency_keys = record { id = id; key = key; scope = scope } ∷ db.idempotency_keys;
  })

-- `pgxStore.Insert` of internal/outbox/store.go, with the identifier that the services make for it.
unfoldable pub insert_outbox : Env → ℕ → ℕ → Payload → Db → Result Db
insert_outbox env id_call exec_call payload db = do
  id ← new_uuid env id_call
  io env (exec exec_call)
  ok (record db {
    outbox = record { id = id; payload = payload; status = pending_event; retries = 0 } ∷ db.outbox;
  })

unfoldable pub find_account : Uuid → Bytes → List Account → Option Account
find_account user asset [] = none
find_account user asset (a ∷ rest) =
    if (a.user_id == user) && (a.asset =ᵇ asset) then some a else find_account user asset rest

-- `AccountID` of internal/account/service.go over `GetByUserAndAsset` of its store.
unfoldable pub account_id : Env → ℕ → Uuid → Bytes → Db → Result Uuid
account_id env query_call user asset db = do
  io env (query query_call)
  elim (find_account user asset db.accounts) [ none ↦ err not_found | some a ↦ ok a.id ]
