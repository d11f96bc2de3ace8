-- ===== src/Http/Serve.antt =====
-- The requests that can change the database, as the router of cmd/server/main.go hands them to their
-- handlers, each served with no other request in between.
use mynance.Base.{suc, ℕ, List, Bytes}
use mynance.Store.{Uuid, Env, Db}
use mynance.Asset.{Asset, Catalog}
use mynance.Deposit.{Processor}
use mynance.User.{Crypto, CreateUserCommand}
use mynance.Wallet.{Random}
use mynance.Http.{Parsers, Context, anonymous, Body, go, stop, authenticate}
use mynance.Http.Orders.{
  PlaceOrderRequest, place_order_handler, cancel_order_handler, ExecuteTradeRequest,
  execute_trade_handler,
}
use mynance.Http.Funds.{
  IntakeRequest, intake_handler, confirm_handler, reject_handler, DepositRequest, deposit_handler,
  WithdrawRequest, withdraw_handler, CreateWalletRequest, create_wallet_handler,
}
use mynance.Http.Users.{create_user_handler, delete_user_handler}

-- What a request runs with: configuration, libraries, and what fails in its calls.
pub record World : Type 0 where
  pub parsers : Parsers
  pub markets : List Bytes
  pub assets : List Asset
  pub catalog : Catalog
  pub crypto : Crypto
  pub random : Random
  pub uuid_text : Uuid → Bytes
  pub processor : Processor
  pub salt : ℕ
  pub env : ℕ → Env

pub data Request : Type 0 where
  post_user : Body CreateUserCommand → Request
  delete_user : Bytes → Request
  post_order : Body PlaceOrderRequest → Request
  delete_order : Bytes → Request
  post_trade : Body ExecuteTradeRequest → Request
  post_wallet : Body CreateWalletRequest → Request
  post_deposit : Body DepositRequest → Request
  post_withdrawal : Body WithdrawRequest → Request
  admin_intake : Body IntakeRequest → Request
  admin_confirm : Bytes → Request
  admin_reject : Bytes → Request

-- The database after a request of a caller.
unfoldable pub serve : World → Context → Db → Request → Db
serve w ctx db (post_user body) =
    (create_user_handler w.crypto w.salt (w.env 0) w.assets db body).db
serve w ctx db (delete_user id) = (delete_user_handler w.parsers (w.env 0) db ctx id).db
serve w ctx db (post_order body) =
    (place_order_handler w.parsers (w.env 0) w.markets db ctx body).db
serve w ctx db (delete_order id) = (cancel_order_handler w.parsers (w.env 1) (w.env 0) db ctx id).db
serve w ctx db (post_trade body) = (execute_trade_handler w.parsers (w.env 0) db ctx body).db
serve w ctx db (post_wallet body) =
    (create_wallet_handler w.random (w.env 0) (λ n. w.env (suc n)) w.catalog db ctx body).db
serve w ctx db (post_deposit body) =
    (deposit_handler w.processor w.uuid_text w.parsers (w.env 0) (w.env 1) (w.env 2) db ctx body).db
serve w ctx db (post_withdrawal body) =
    (withdraw_handler w.processor w.uuid_text w.parsers (w.env 0) w.catalog db ctx body).db
serve w ctx db (admin_intake body) = (intake_handler w.parsers (w.env 0) db ctx body).db
serve w ctx db (admin_confirm id) = (confirm_handler w.parsers (w.env 0) db ctx id).db
serve w ctx db (admin_reject id) = (reject_handler w.parsers (w.env 0) db ctx id).db

-- The router: signing up is public, and everything else goes through `Middleware`.
unfoldable pub route : World → Bytes → Db → Request → Db
route w header db (post_user body) = serve w anonymous db (post_user body)
route w header db other = elim (authenticate w.parsers header) [
  | stop r ↦ db
  | go ctx ↦ serve w ctx db other
]
