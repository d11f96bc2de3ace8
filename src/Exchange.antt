-- ===== src/Exchange.antt =====
-- The exchange as a whole: the services of internal/order/, internal/trade/, internal/deposit/,
-- internal/withdrawal/, internal/wallet/, internal/account/, internal/user/ and internal/engine/, whose
-- requests commit against one database in some order. A request may have read an earlier state.
pub mod Frame
pub mod Keys
pub mod Life
pub mod Once
pub mod Moves
use mynance.Base.{ℕ, List, Bytes, ◌≡◌}
use mynance.Shared.{ok}
use mynance.Store.{Uuid, Env, Db}
use mynance.Book.{Side}
use mynance.Order.{PlaceOrderCommand, Done, place_order, cancel_order}
use mynance.Trade.{ExecuteTradeCommand, Settled, execute_trade}
use mynance.Settlement.{Formats}
use mynance.Settlement.Sandbox.{Persisted, persist_market_order}
use mynance.Deposit.{IntakeCommand, Outcome, intake, confirm, reject}
use mynance.Asset.{Asset, Catalog}
use mynance.Withdrawal.{WithdrawCommand, WithdrawResult, withdraw}
use mynance.Wallet.{Random, Holding, get_or_create_address}
use mynance.Account.{Opened, create_account, delete_account}
use mynance.User.{Crypto, CreateUserCommand, Registered, create_user, delete_user}

-- A request that commits.
pub data Step : Db → Db → Type 0 where
  placed :
      (env : Env) (markets : List Bytes) (seen : Db) (cmd : PlaceOrderCommand) {db : Db} (d : Done)
      → place_order env markets seen db cmd ≡ ok d
      → Step db d.db
  dropped :
      (env : Env) (seen : Db) (id : Uuid) {db : Db} (d : Done)
      → cancel_order env seen db id ≡ ok d
      → Step db d.db
  traded :
      (env : Env) (cmd : ExecuteTradeCommand) {db : Db} (d : Settled)
      → execute_trade env db cmd ≡ ok d
      → Step db d.db
  stored :
      (f : Formats) (env : Env) (market : Uuid) (side : Side) (symbol : Bytes) (price qty : ℕ)
      {db : Db} (p : Persisted)
      → persist_market_order f env market side symbol price qty db ≡ ok p
      → Step db p.db
  announced :
      (env : Env) (cmd : IntakeCommand) {db : Db} (d : Outcome)
      → intake env db cmd ≡ ok d
      → Step db d.db
  credited :
      (env : Env) (id : Uuid) {db : Db} (d : Outcome) → confirm env db id ≡ ok d → Step db d.db
  denied : (env : Env) (id : Uuid) {db : Db} (d : Outcome) → reject env db id ≡ ok d → Step db d.db
  withdrawn :
      (env : Env) (catalog : Catalog) (seen : Db) (cmd : WithdrawCommand) {db : Db}
      (d : WithdrawResult)
      → withdraw env catalog seen db cmd ≡ ok d
      → Step db d.db
  addressed :
      (r : Random) (env : Env) (rounds : ℕ → Env) (catalog : Catalog) (seen : Db) (user : Uuid)
      (asset name : Bytes) {db : Db} (h : Holding)
      → get_or_create_address r env rounds catalog seen db user asset name ≡ ok h
      → Step db h.db
  opened :
      (env : Env) (user : Uuid) (asset : Bytes) {db : Db} (d : Opened)
      → create_account env db user asset ≡ ok d
      → Step db d.db
  closed : (env : Env) (id : Uuid) {db : Db} (x : Db) → delete_account env db id ≡ ok x → Step db x
  joined :
      (crypto : Crypto) (salt : ℕ) (env : Env) (assets : List Asset) (cmd : CreateUserCommand)
      {db : Db} (d : Registered)
      → create_user crypto salt env assets db cmd ≡ ok d
      → Step db d.db
  left : (env : Env) (id : Uuid) {db : Db} (x : Db) → delete_user env db id ≡ ok x → Step db x

-- Any number of requests, one after the other.
pub data Reach (db : Db) : Db → Type 0 where
  here : Reach db db
  next : {x y : Db} → Reach db x → Step x y → Reach db y
