-- ===== src/User.antt =====
-- Users: internal/user/service.go and internal/user/store.go. Hashing a password and checking it against
-- a hash are bcrypt's, so they are a `Crypto`; the salt that a hash is made with is a number.
pub mod Signup
use mynance.Base.{
  ℕ, Bool, true, false, List, [], ◌∷◌, Option, none, some, Bytes, ◌=ᵇ◌, ◌==◌, ◌&&◌, ◌||◌,
  if◌then◌else◌, not,
}
use mynance.Shared.{
  Error, not_found, unauthorized, conflict, internal, Result, ok, err, ◌>>=◌, ◌>>◌, guard,
}
use mynance.Store.{Uuid, Env, io, new_uuid, begin, commit, query, exec, Db, User, user_role, active}
use mynance.Asset.{Asset, enabled_symbols}
use mynance.Account.{Tx, Ran, provision, commit_tx}

-- `HashPassword` and `CheckPassword` of pkg/crypto/crypto.go
pub record Crypto : Type 0 where
  pub hash_password : ℕ → Bytes → Option Bytes
  pub check_password : Bytes → Bytes → Bool

pub record CreateUserCommand : Type 0 where
  pub email : Bytes
  pub username : Bytes
  pub full_name : Bytes
  pub password : Bytes

-- A row that breaks the primary key, UNIQUE (email) or UNIQUE (username); deleted rows count.
unfoldable pub user_known : User → List User → Bool
user_known new [] = false
user_known new (u ∷ rest) =
    if (u.id == new.id) || (u.email =ᵇ new.email) || (u.username =ᵇ new.username)
    then true
    else user_known new rest

-- `pgxStore.Create`
unfoldable pub create_user_row : Env → ℕ → User → Db → Result Db
create_user_row env exec_call u db = do
  io env (exec exec_call)
  guard (not (user_known u db.users)) conflict
  ok (record db { users = u ∷ db.users })

-- `GetByID`
unfoldable pub find_user : Uuid → List User → Option User
find_user id [] = none
find_user id (u ∷ rest) = if (u.id == id) && not u.deleted then some u else find_user id rest

-- `GetByEmail`
unfoldable pub find_email : Bytes → List User → Option User
find_email email [] = none
find_email email (u ∷ rest) =
    if (u.email =ᵇ email) && not u.deleted then some u else find_email email rest

unfoldable pub mark_deleted : Uuid → List User → List User
mark_deleted id [] = []
mark_deleted id (u ∷ rest) =
    if (u.id == id) && not u.deleted
    then record u { deleted = true } ∷ mark_deleted id rest
    else u ∷ mark_deleted id rest

abbrev pub new_user : Uuid → CreateUserCommand → Bytes → User
new_user id cmd hash = record {
  id = id;
  email = cmd.email;
  username = cmd.username;
  full_name = cmd.full_name;
  password_hash = hash;
  status = active;
  role = user_role;
  deleted = false;
}

abbrev pub hashed : Option Bytes → Result Bytes
hashed none = err internal
hashed (some h) = ok h

pub record Registered : Type 0 where
  pub user : User
  pub db : Db

-- `ProvisionAll` of the provisioner, in the transaction of `CreateUser`.
unfoldable pub provision_all : Env → List Asset → Uuid → Db → Result Tx
provision_all env assets user db = do
  symbols ← enabled_symbols env 0 assets
  let ran = provision env 1 user symbols (record { db = db; aborted = false })
  ran.result
  ok ran.tx

-- `CreateUser`
unfoldable pub create_user :
    Crypto → ℕ → Env → List Asset → Db → CreateUserCommand → Result Registered
create_user crypto salt env assets db cmd = do
  id ← new_uuid env 0
  hash ← hashed (crypto.hash_password salt cmd.password)
  io env begin
  created ← create_user_row env 0 (new_user id cmd hash) db
  tx ← provision_all env assets id created
  after ← commit_tx env tx
  ok (record { user = new_user id cmd hash; db = after })

-- `GetUser`
unfoldable pub get_user : Env → Db → Uuid → Result User
get_user env db id = do
  io env (query 0)
  elim (find_user id db.users) [ none ↦ err not_found | some u ↦ ok u ]

-- `Login`
unfoldable pub login : Crypto → Env → Db → Bytes → Bytes → Result User
login crypto env db email password = do
  io env (query 0)
  u ← elim (find_email email db.users) [ none ↦ err unauthorized | some u ↦ ok u ]
  guard (crypto.check_password password u.password_hash) unauthorized
  ok u

-- `DeleteUser`; no row affected is `ErrNotFound`.
unfoldable pub delete_user : Env → Db → Uuid → Result Db
delete_user env db id = do
  io env begin
  io env (exec 0)
  (elim (find_user id db.users) [ none ↦ err not_found | some u ↦ ok tt ])
  io env commit
  ok (record db { users = mark_deleted id db.users })
