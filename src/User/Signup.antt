-- ===== src/User/Signup.antt =====
-- Signing up, logging in and closing an account: internal/user/service.go.
use mynance.Base.{
  ℕ, true, false, List, [], ◌∷◌, Option, none, some, Bytes, ◌≡◌, ◌≢◌, refl, sym, ap, ◌∙◌, subst,
  arith, All, ==_refl, =ᵇ_refl,
}
use mynance.Shared.{ok, ◌>>=◌, guard, Post, Post-at, Post-bind, Post-ok}
use mynance.Store.{Uuid, Env, io, query, Db, User, find_account}
use mynance.Asset.{Asset, enabled_symbols, list_assets}
use mynance.Order.{listed}
use mynance.Account.{Tx, provision, commit_tx}
use mynance.Account.Provision.{HasAccount, Provisioned, provision-Provisioned, provision-clash}
use mynance.User.{
  hashed, Crypto, CreateUserCommand, user_known, create_user_row, find_email, mark_deleted,
  new_user, Registered, provision_all, create_user, login, delete_user,
}
use mynance.Base.{map}

abbrev pub symbols_of : List Asset → List Bytes
symbols_of assets = map (λ (a : Asset). a.symbol) (list_assets true assets)

-- A new user: stored, with an account in every enabled asset, and nobody else's account touched.
pub record Welcomed (db : Db) (assets : List Asset) (cmd : CreateUserCommand) (hash : Bytes)
    (d : Registered) : Type 0 where
  pub fresh : user_known d.user db.users ≡ false
  pub made : d.user ≡ new_user d.user.id cmd hash
  pub stored : d.db.users ≡ d.user ∷ db.users
  pub opened : All (λ s. HasAccount d.user.id s d.db.accounts) (symbols_of assets)
  pub others :
      (u : Uuid) (a : Bytes)
      → u ≢ d.user.id
      → find_account u a d.db.accounts ≡ find_account u a db.accounts
  pub ledger_kept : d.db.ledger ≡ db.ledger
  pub orders_kept : d.db.orders ≡ db.orders
  pub keys_kept : d.db.idempotency_keys ≡ db.idempotency_keys

abbrev start : Db → Tx
start db = record { db = db; aborted = false }

provision_all-Post :
    (env : Env) (assets : List Asset) (user : Uuid) (db : Db)
    → Post
        (λ tx.
          (tx ≡ (provision env 1 user (symbols_of assets) (start db)).tx)
          × ((provision env 1 user (symbols_of assets) (start db)).result ≡ ok tt))
        (provision_all env assets user db)
unfolding provision_all enabled_symbols ◌>>=◌ io guard Post
provision_all-Post env assets user db = ground arith

commit_tx-ok :
    (env : Env) (tx : Tx) (db : Db) → commit_tx env tx ≡ ok db → (tx.aborted ≡ false) × (db ≡ tx.db)
unfolding commit_tx ◌>>=◌ io guard
commit_tx-ok env tx db h = (ground arith, ground arith)

Provisioned-at :
    (env : Env) (assets : List Asset) (user : Uuid) (db : Db) (tx : Tx) (after : Db)
    → provision_all env assets user db ≡ ok tx
    → commit_tx env tx ≡ ok after
    → (x : Tx) × (x.db ≡ after) × Provisioned user (symbols_of assets) (start db) x
Provisioned-at env assets user db tx after h k =
    let p =
      Post-at
        (λ (x : Tx).
          (x ≡ (provision env 1 user (symbols_of assets) (start db)).tx)
          × ((provision env 1 user (symbols_of assets) (start db)).result ≡ ok tt))
        (provision_all-Post env assets user db) h in
    let c = commit_tx-ok env tx after k in
    (
      tx,
      sym c.1,
      subst (λ (x : Tx). Provisioned user (symbols_of assets) (start db) x) (sym p.0)
          (provision-Provisioned env 1 user (symbols_of assets) (start db) p.1
            (ap (λ (x : Tx). x.aborted) (sym p.0) ∙ c.0)),
    )

hashed-ok : (o : Option Bytes) (h : Bytes) → hashed o ≡ ok h → o ≡ some h
hashed-ok none h e = cc
hashed-ok (some g) h e = cc

create_user_row-Post :
    (env : Env) (k : ℕ) (u : User) (db : Db)
    → Post
        (λ x.
          (user_known u db.users ≡ false)
          × (x.users ≡ u ∷ db.users)
          × (x.accounts ≡ db.accounts)
          × (x.ledger ≡ db.ledger)
          × (x.orders ≡ db.orders)
          × (x.idempotency_keys ≡ db.idempotency_keys))
        (create_user_row env k u db)
unfolding create_user_row ◌>>=◌ io guard Post
create_user_row-Post env k u db = ground arith

create_user-Post :
    (crypto : Crypto) (salt : ℕ) (env : Env) (assets : List Asset) (db : Db)
    (cmd : CreateUserCommand)
    → Post
        (λ d.
          (hash : Bytes) × (crypto.hash_password salt cmd.password ≡ some hash)
          × Welcomed db assets cmd hash d)
        (create_user crypto salt env assets db cmd)
unfolding create_user
create_user-Post crypto salt env assets db cmd = Post-bind _ _ _ (λ id _.
    Post-bind _ _ _ (λ hash hashing. Post-bind _ _ _ (λ _ _. Post-bind _ _ _ (λ created c.
      Post-bind _ _ _ (λ tx t. Post-bind _ _ _ (λ after k.
        let u = new_user id cmd hash in
        let row =
          Post-at
            (λ (x : Db).
              (user_known u db.users ≡ false)
              × (x.users ≡ u ∷ db.users)
              × (x.accounts ≡ db.accounts)
              × (x.ledger ≡ db.ledger)
              × (x.orders ≡ db.orders)
              × (x.idempotency_keys ≡ db.idempotency_keys))
            (create_user_row-Post env 0 u db) c in
        let (x, left, p) = Provisioned-at env assets id created tx after t k in
        Post-ok _ _ (
          hash,
          hashed-ok _ hash hashing,
          record {
            fresh = row.0;
            made = refl;
            stored = ap (λ (y : Db). y.users) (sym left) ∙ p.users_kept ∙ row.1;
            opened =
                subst (λ (y : Db). All (λ s. HasAccount id s y.accounts) (symbols_of assets)) left
                  p.opened;
            others = λ v a n.
                ap (λ (y : Db). find_account v a y.accounts) (sym left)
                ∙ p.others v a n
                ∙ ap (find_account v a) row.2;
            ledger_kept = ap (λ (y : Db). y.ledger) (sym left) ∙ p.ledger_kept ∙ row.3;
            orders_kept = ap (λ (y : Db). y.orders) (sym left) ∙ p.orders_kept ∙ row.4;
            keys_kept = ap (λ (y : Db). y.idempotency_keys) (sym left) ∙ p.keys_kept ∙ row.5;
          },
        )))))))

-- `CreateUser` returns only if the password was hashed and neither the identifier, the e-mail nor the
-- user name is taken. It then stores the returned user with that hash, opens an account in every enabled
-- asset, touches nobody else's account, no order and no idempotency key, and books nothing.
pub create_user-Welcomed :
    (crypto : Crypto) (salt : ℕ) (env : Env) (assets : List Asset) (db : Db)
    (cmd : CreateUserCommand) (d : Registered)
    → create_user crypto salt env assets db cmd ≡ ok d
    → (hash : Bytes) × (crypto.hash_password salt cmd.password ≡ some hash)
      × Welcomed db assets cmd hash d
create_user-Welcomed crypto salt env assets db cmd d e =
    Post-at
      (λ (x : Registered).
        (hash : Bytes) × (crypto.hash_password salt cmd.password ≡ some hash)
        × Welcomed db assets cmd hash x)
      (create_user-Post crypto salt env assets db cmd) e

email_of_user :
    (email : Bytes) (u : User) (rest : List User)
    → u.email ≡ email
    → u.deleted ≡ false
    → find_email email (u ∷ rest) ≡ some u
unfolding find_email
email_of_user email u rest e d = rw (e, d, =ᵇ_refl email) refl

login-found :
    (crypto : Crypto) (env : Env) (db : Db) (email password : Bytes) (u : User)
    → env.fails (query 0) ≡ false
    → find_email email db.users ≡ some u
    → crypto.check_password password u.password_hash ≡ true
    → login crypto env db email password ≡ ok u
unfolding login ◌>>=◌ io guard
login-found crypto env db email password u f h c = rw (f, h, c) refl

-- Who has signed up can log in: after `CreateUser` has returned, `Login` with the same e-mail and
-- password returns that user, if its query succeeds and a hash is accepted for the password that it
-- was made from.
pub login-create_user :
    (crypto : Crypto) (salt : ℕ) (env env' : Env) (assets : List Asset) (db : Db)
    (cmd : CreateUserCommand) (d : Registered)
    → ((n : ℕ) (p h : Bytes) → crypto.hash_password n p ≡ some h → crypto.check_password p h ≡ true)
    → create_user crypto salt env assets db cmd ≡ ok d
    → env'.fails (query 0) ≡ false
    → login crypto env' d.db cmd.email cmd.password ≡ ok d.user
login-create_user crypto salt env env' assets db cmd d accepts e f =
    let (hash, hashing, w) = create_user-Welcomed crypto salt env assets db cmd d e in
    login-found crypto env' d.db cmd.email cmd.password d.user f
      (ap (find_email cmd.email) w.stored
        ∙ email_of_user cmd.email d.user db.users (ap (λ (u : User). u.email) w.made)
            (ap (λ (u : User). u.deleted) w.made))
      (ap (λ (u : User). crypto.check_password cmd.password u.password_hash) w.made
        ∙ accepts salt cmd.password hash hashing)

email_gone :
    (id : Uuid) (new : User) (users : List User)
    → user_known new users ≡ false
    → find_email new.email (mark_deleted id users) ≡ none
unfolding user_known find_email mark_deleted
email_gone id new [] h = refl
email_gone id new (u ∷ rest) h = ground (arith, email_gone id new rest, h)

delete_user-Post :
    (env : Env) (db : Db) (id : Uuid)
    → Post (λ x. x.users ≡ mark_deleted id db.users) (delete_user env db id)
unfolding delete_user ◌>>=◌ io guard Post
delete_user-Post env db id = ground arith

login-missing :
    (crypto : Crypto) (env : Env) (db : Db) (email password : Bytes)
    → find_email email db.users ≡ none
    → (u : User) → login crypto env db email password ≢ ok u
unfolding login ◌>>=◌ io guard
login-missing crypto env db email password h u e = ground (arith, h, e)

mark_first :
    (u : User) (rest : List User)
    → u.deleted ≡ false
    → mark_deleted u.id (u ∷ rest) ≡ record u { deleted = true } ∷ mark_deleted u.id rest
unfolding mark_deleted
mark_first u rest d = rw (d, ==_refl u.id) refl

closed_not_found :
    (email : Bytes) (u : User) (rest : List User)
    → find_email email rest ≡ none
    → find_email email (record u { deleted = true } ∷ rest) ≡ none
unfolding find_email
closed_not_found email u rest h = ground (arith, h)

-- Who has been deleted cannot log in: after `CreateUser` and then `DeleteUser` of that user have
-- returned, no `Login` with the e-mail returns, whatever the password.
pub login-delete_user :
    (crypto : Crypto) (salt : ℕ) (env env' env'' : Env) (assets : List Asset) (db db' : Db)
    (cmd : CreateUserCommand) (d : Registered) (password : Bytes) (u : User)
    → create_user crypto salt env assets db cmd ≡ ok d
    → delete_user env' d.db d.user.id ≡ ok db'
    → login crypto env'' db' cmd.email password ≢ ok u
login-delete_user crypto salt env env' env'' assets db db' cmd d password u e k =
    let (hash, hashing, w) = create_user-Welcomed crypto salt env assets db cmd d e in
    let same : d.user.email ≡ cmd.email = ap (λ (v : User). v.email) w.made in
    let gone : find_email d.user.email db'.users ≡ none =
      ap (find_email d.user.email) (
        Post-at (λ (x : Db). x.users ≡ mark_deleted d.user.id d.db.users)
          (delete_user-Post env' d.db d.user.id) k
        ∙ ap (mark_deleted d.user.id) w.stored
        ∙ mark_first d.user db.users (ap (λ (v : User). v.deleted) w.made))
      ∙ closed_not_found d.user.email d.user _ (email_gone d.user.id d.user db.users w.fresh) in
    login-missing crypto env'' db' cmd.email password
      (subst (λ (m : Bytes). find_email m db'.users ≡ none) same gone) u

alive_at_end : (env : Env) (tx : Tx) (db : Db) → tx.aborted ≡ true → commit_tx env tx ≢ ok db
unfolding commit_tx ◌>>=◌ io guard
alive_at_end env tx db h e = ground (arith, h, e)

-- An account that is already there is not skipped: if the user has one in an enabled asset, then after
-- `ProvisionAll` has returned the commit of its transaction fails.
pub provision_all-clash :
    (env : Env) (assets : List Asset) (user : Uuid) (db : Db) (symbol : Bytes) (tx : Tx)
    (after : Db)
    → listed symbol (symbols_of assets) ≡ true
    → HasAccount user symbol db.accounts
    → provision_all env assets user db ≡ ok tx
    → commit_tx env tx ≢ ok after
provision_all-clash env assets user db symbol tx after m a h =
    let p =
      Post-at
        (λ (x : Tx).
          (x ≡ (provision env 1 user (symbols_of assets) (start db)).tx)
          × ((provision env 1 user (symbols_of assets) (start db)).result ≡ ok tt))
        (provision_all-Post env assets user db) h in
    alive_at_end env tx after (
      ap (λ (x : Tx). x.aborted) p.0
      ∙ provision-clash env 1 user (symbols_of assets) (start db) symbol m a p.1)
