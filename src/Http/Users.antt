-- ===== src/Http/Users.antt =====
-- The handlers of users, accounts and the ledger: internal/user/handler.go, internal/account/handler.go
-- and internal/ledger/handler.go. The signing of a token is a parameter.
use mynance.Base.{
  ℕ, Bool, true, false, List, Option, none, some, Bytes, ◌==◌, ◌&&◌, not, filter, take, drop, map,
}
use mynance.Numeric.{Numeric}
use mynance.Shared.{Result, ok, err, ◌>>=◌ as result_bind}
use mynance.Store.{
  Uuid, Env, Db, User, Role, user_role, admin_role, system_role, Account, io, query, account_id,
}
use mynance.Asset.{Asset}
use mynance.Account.{get_account, get_balance}
use mynance.User.{Crypto, CreateUserCommand, create_user, get_user, login, delete_user}
use mynance.Http.{
  Parsers, Context, http_error, bare, json, plain, Step, go, stop, ◌>>=◌, Answer, finish, Body,
  decoded, parsed, served, caller, Page, parse_pagination,
}

-- `CreateUser`
unfoldable pub create_user_handler :
    Crypto → ℕ → Env → List Asset → Db → Body CreateUserCommand → Answer User
create_user_handler crypto salt env assets db body = finish db (do
  req ← decoded body
  d ← served (create_user crypto salt env assets db req)
  go (record { reply = json 201 d.user; db = d.db }))

pub record LoginRequest : Type 0 where
  pub email : Bytes
  pub password : Bytes

pub record LoginResponse : Type 0 where
  pub token : Bytes
  pub user : User

abbrev signed : Option Bytes → Step Bytes
signed none = stop (http_error 500)
signed (some token) = go token

-- `Login`
unfoldable pub login_handler :
    Crypto → (Uuid → Role → Option Bytes) → Env → Db → Body LoginRequest → Answer LoginResponse
login_handler crypto sign env db body = finish db (do
  req ← decoded body
  u ← served (login crypto env db req.email req.password)
  token ← signed (sign u.id u.role)
  go (record { reply = json 200 (record { token = token; user = u }); db = db }))

-- `Me`
unfoldable pub me_handler : Env → Db → Context → Answer User
me_handler env db ctx = finish db (do
  user ← caller ctx
  u ← served (get_user env db user)
  go (record { reply = json 200 u; db = db }))

-- `GetUser`: the caller is not looked at.
unfoldable pub get_user_handler : Parsers → Env → Db → Context → Bytes → Answer User
get_user_handler p env db ctx raw_id = finish db (do
  id ← parsed (p.uuid raw_id)
  u ← served (get_user env db id)
  go (record { reply = json 200 u; db = db }))

abbrev pub is_system : Role → Bool
is_system user_role = false
is_system admin_role = false
is_system system_role = true

-- `List` of internal/user/store.go
unfoldable pub list_users : Env → Page → Db → Result (List User)
list_users env page db = result_bind (io env (query 0)) (λ _. ok (
    take page.limit
      (drop page.offset (filter (λ (u : User). not u.deleted && not (is_system u.role)) db.users))))

-- `ListUsers`
unfoldable pub list_users_handler :
    Parsers → Env → Db → Context → Bytes → Bytes → Answer (List User)
list_users_handler p env db ctx limit offset = finish db (do
  users ← served (list_users env (parse_pagination p limit offset) db)
  go (record { reply = json 200 users; db = db }))

-- `DeleteUser`: the caller is not looked at.
unfoldable pub delete_user_handler : Parsers → Env → Db → Context → Bytes → Answer User
delete_user_handler p env db ctx raw_id = finish db (do
  id ← parsed (p.uuid raw_id)
  after ← served (delete_user env db id)
  go (record { reply = plain (bare 204); db = after }))

-- An account with its balance; none if the balance could not be read.
pub record AccountResponse : Type 0 where
  pub account : Account
  pub balance : Option Numeric

abbrev shown : Result Numeric → Option Numeric
shown (ok n) = some n
shown (err e) = none

-- `ListByUser` of internal/account/store.go
unfoldable pub list_accounts : Env → Uuid → Page → Db → Result (List Account)
list_accounts env user page db = result_bind (io env (query 0)) (λ _.
    ok (
      take page.limit (drop page.offset (filter (λ (a : Account). a.user_id == user) db.accounts))))

-- `ListMyAssets`; each balance is a query of its own.
unfoldable pub list_my_assets :
    Parsers → Env → (Uuid → Env) → Db → Context → Bytes → Bytes → Answer (List AccountResponse)
list_my_assets p env balance_env db ctx limit offset = finish db (do
  user ← caller ctx
  accounts ← served (list_accounts env user (parse_pagination p limit offset) db)
  go (record {
    reply = json 200 (
        map
          (λ (a : Account). record {
            account = a;
            balance = shown (get_balance (balance_env a.id) db a.user_id a.asset);
          })
          accounts);
    db = db;
  }))

-- `GetMyAsset`
unfoldable pub get_my_asset : Env → Env → Env → Db → Context → Bytes → Answer AccountResponse
get_my_asset id_env env balance_env db ctx symbol = finish db (do
  user ← caller ctx
  id ← served (account_id id_env 0 user symbol db)
  account ← served (get_account env 0 id db)
  go (record {
    reply =
        json 200
          (record { account = account; balance = shown (get_balance balance_env db user symbol) });
    db = db;
  }))

-- `GetMyBalance`
unfoldable pub get_my_balance : Env → Db → Context → Bytes → Answer Numeric
get_my_balance env db ctx symbol = finish db (do
  user ← caller ctx
  balance ← served (get_balance env db user symbol)
  go (record { reply = json 200 balance; db = db }))
