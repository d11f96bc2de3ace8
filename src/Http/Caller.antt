-- ===== src/Http/Caller.antt =====
-- Whose money a request can move: the handlers and services behind the router of cmd/server/main.go.
use mynance.Base.{
  suc, ℕ, Bool, true, false, Option-cases, some, some_inj, Bytes, ◌≡◌, ◌≢◌, refl, sym, ap, ◌∙◌,
  arith, ◌==◌, Bool-cases, inl, inr, List,
}
use mynance.Shared.{ok, Post-at}
use mynance.Store.{Uuid, Env, Db, Order, OrderRow}
use mynance.Store.Ledger.{balance}
use mynance.Store.Orders.{get_order-ok}
use mynance.Order.Place.{place_order-Books}
use mynance.Order.Cancel.{cancel_order-Cancelling}
use mynance.Deposit.{Processor}
use mynance.Withdrawal.{WithdrawResult}
use mynance.Wallet.{Random}
use mynance.Wallet.Held.{get_or_create_address-HeldFor}
use mynance.Asset.{Asset, Catalog}
use mynance.User.{Crypto, CreateUserCommand}
use mynance.User.Signup.{create_user-Welcomed}
use mynance.Http.{
  Parsers, Context, is_admin, ensure_owner, Step, ◌>>=◌, Answer, finish, finish-bind, served-go,
  require_admin, Body,
}
use mynance.Http.Orders.{PlaceOrderRequest, place_order_handler, cancel_order_handler}
use mynance.Http.Funds.{
  CreateWalletRequest, DepositRequest, WithdrawRequest, intake_handler, confirm_handler,
  reject_handler, deposit_handler, withdraw_handler, create_wallet_handler,
}
use mynance.Http.Users.{create_user_handler, delete_user_handler}
use mynance.Http.Serve.{
  World, Request, serve, post_user, delete_user as delete_user_request, post_order, delete_order,
  post_trade, post_wallet, post_deposit, post_withdrawal, admin_intake, admin_confirm, admin_reject,
}
use mynance.Http.Listing.Mine.{caller-go}
use mynance.Http.Others.{
  Adds-other, delete_user-ledger, withdraw_by-Keeps, process_deposit-Keeps, Held-Keeps,
  deposit_reply-db,
}

abbrev pub trades : Request → Bool
trades (post_trade body) = true
trades (post_user body) = false
trades (delete_user_request id) = false
trades (post_order body) = false
trades (delete_order id) = false
trades (post_wallet body) = false
trades (post_deposit body) = false
trades (post_withdrawal body) = false
trades (admin_intake body) = false
trades (admin_confirm id) = false
trades (admin_reject id) = false

ensure_owner-go :
    (ctx : Context) (owner : Uuid)
    → is_admin ctx ≡ false
    → ensure_owner ctx owner ≡ ok tt
    → ctx.user_id ≡ some owner
unfolding ensure_owner
ensure_owner-go ctx owner n h = elim (Option-cases ctx.user_id) [
  | inl e ↦ absurd (ground (arith, n, e, h))
  | inr (id, e) ↦ elim (Bool-cases (id == owner)) [
    | inl same ↦ ground (arith, e, same)
    | inr apart ↦ absurd (ground (arith, n, e, apart, h))
  ]
]

not_caller :
    (ctx : Context) (u user : Uuid) → ctx.user_id ≢ some u → ctx.user_id ≡ some user → u ≢ user
not_caller ctx u user h k e = h (k ∙ ap some (sym e))

abbrev Keeps : {B : Type 0} → Uuid → Bytes → Db → Answer B → Type 0
Keeps u a db x = balance u a x.db.ledger ≡ balance u a db.ledger

module _ (u : Uuid) (a : Bytes) (db : Db) (ctx : Context) (not_admin : is_admin ctx ≡ false)
    (not_me : ctx.user_id ≢ some u) where
  kept_user :
      (crypto : Crypto) (salt : ℕ) (env : Env) (assets : List Asset) (body : Body CreateUserCommand)
      → Keeps u a db (create_user_handler crypto salt env assets db body)
  unfolding create_user_handler
  kept_user crypto salt env assets body =
      finish-bind (Keeps u a db) db _ _ (λ _. refl)
        (λ req _.
          finish-bind (Keeps u a db) db _ _ (λ _. refl)
            (λ d e.
              let (hash, h, w) =
                create_user-Welcomed crypto salt env assets db req d (served-go _ d e) in
              ap (balance u a) w.ledger_kept))

  kept_delete :
      (p : Parsers) (env : Env) (id : Bytes) → Keeps u a db (delete_user_handler p env db ctx id)
  unfolding delete_user_handler
  kept_delete p env raw =
      finish-bind (Keeps u a db) db _ _ (λ _. refl)
        (λ id _.
          finish-bind (Keeps u a db) db _ _ (λ _. refl)
            (λ after e. ap (balance u a) (
              Post-at (λ (x : Db). x.ledger ≡ db.ledger) (delete_user-ledger env db id)
                (served-go _ after e))))

  kept_order :
      (p : Parsers) (env : Env) (markets : List Bytes) (body : Body PlaceOrderRequest)
      → Keeps u a db (place_order_handler p env markets db ctx body)
  unfolding place_order_handler
  kept_order p env markets body =
      finish-bind (Keeps u a db) db _ _ (λ _. refl)
        (λ req _.
          finish-bind (Keeps u a db) db _ _ (λ _. refl)
            (λ user c.
              finish-bind (Keeps u a db) db _ _ (λ _. refl)
                (λ price _.
                  finish-bind (Keeps u a db) db _ _ (λ _. refl)
                    (λ qty _.
                      finish-bind (Keeps u a db) db _ _ (λ _. refl)
                        (λ d e.
                          let (r, k, books) =
                            place_order-Books env markets db db _ d (served-go _ d e) in
                          Adds-other user r.asset _ db.ledger d.db.ledger books.reserved u a
                            (not_caller ctx u user not_me (caller-go ctx user c)))))))

  kept_cancel :
      (p : Parsers) (look_env env : Env) (id : Bytes)
      → Keeps u a db (cancel_order_handler p look_env env db ctx id)
  unfolding cancel_order_handler
  kept_cancel p look_env env raw =
      finish-bind (Keeps u a db) db _ _ (λ _. refl)
        (λ id _.
          finish-bind (Keeps u a db) db _ _ (λ _. refl)
            (λ existing g.
              finish-bind (Keeps u a db) db _ _ (λ _. refl)
                (λ _ owned.
                  finish-bind (Keeps u a db) db _ _ (λ _. refl)
                    (λ d e.
                      let (row, found, same) =
                        get_order-ok look_env 0 id db existing (served-go _ existing g) in
                      let c = cancel_order-Cancelling env db db id d (served-go _ d e) in
                      let mine : ctx.user_id ≡ some existing.user_id =
                        ensure_owner-go ctx existing.user_id not_admin (served-go _ tt owned) in
                      let owner : existing.user_id ≡ c.row.user_id =
                        ap (λ (o : Order). o.user_id) same
                        ∙ ap (λ (r : OrderRow). r.user_id) (some_inj (sym found ∙ c.found)) in
                      Adds-other c.row.user_id c.whole.asset _ db.ledger d.db.ledger c.released u a
                        (not_caller ctx u c.row.user_id not_me (mine ∙ ap some owner))))))

  kept_wallet :
      (r : Random) (env : Env) (rounds : ℕ → Env) (catalog : Catalog)
      (body : Body CreateWalletRequest)
      → Keeps u a db (create_wallet_handler r env rounds catalog db ctx body)
  unfolding create_wallet_handler
  kept_wallet r env rounds catalog body =
      finish-bind (Keeps u a db) db _ _ (λ _. refl)
        (λ user _.
          finish-bind (Keeps u a db) db _ _ (λ _. refl)
            (λ req _.
              finish-bind (Keeps u a db) db _ _ (λ _. refl)
                (λ h e.
                  let (network, n, held) =
                    get_or_create_address-HeldFor r env rounds catalog db db user req.asset
                      req.network h (served-go _ h e) in
                  Held-Keeps u a db user req.asset network h held)))

  kept_deposit :
      (processor : Processor) (text : Uuid → Bytes) (p : Parsers) (env intake_env confirm_env : Env)
      (body : Body DepositRequest)
      → Keeps u a db (deposit_handler processor text p env intake_env confirm_env db ctx body)
  unfolding deposit_handler
  kept_deposit processor text p env intake_env confirm_env body =
      finish-bind (Keeps u a db) db _ _ (λ _. refl)
        (λ user c.
          finish-bind (Keeps u a db) db _ _ (λ _. refl)
            (λ req _.
              finish-bind (Keeps u a db) db _ _ (λ _. refl)
                (λ amount _.
                  ap (λ (x : Db). balance u a x.ledger) (deposit_reply-db u a db _)
                  ∙ process_deposit-Keeps u a db processor text env intake_env confirm_env user _
                      (not_caller ctx u user not_me (caller-go ctx user c)))))

  kept_withdrawal :
      (processor : Processor) (text : Uuid → Bytes) (p : Parsers) (env : Env) (catalog : Catalog)
      (body : Body WithdrawRequest)
      → Keeps u a db (withdraw_handler processor text p env catalog db ctx body)
  unfolding withdraw_handler
  kept_withdrawal processor text p env catalog body =
      finish-bind (Keeps u a db) db _ _ (λ _. refl)
        (λ user c.
          finish-bind (Keeps u a db) db _ _ (λ _. refl)
            (λ req _.
              finish-bind (Keeps u a db) db _ _ (λ _. refl)
                (λ amount _.
                  finish-bind (Keeps u a db) db _ _ (λ _. refl)
                    (λ d e.
                      Post-at
                        (λ (x : WithdrawResult). balance u a x.db.ledger ≡ balance u a db.ledger)
                        (withdraw_by-Keeps u a db processor text env catalog _
                          (not_caller ctx u user not_me (caller-go ctx user c)))
                        (served-go _ d e)))))

  -- A route for administrators refuses everyone else.
  kept_admin :
      {A : Type 0} (k : Unit {0} → Step (Answer A))
      → Keeps u a db (finish db (require_admin ctx >>= k))
  unfolding require_admin ◌>>=◌
  kept_admin k = rw not_admin refl

-- Nobody but an administrator moves another's money: whatever a caller sends, in a request other than
-- one to execute a trade, and whatever fails while it is served, every balance of every other user is
-- as it was.
pub serve-Keeps :
    (w : World) (ctx : Context) (db : Db) (req : Request) (u : Uuid) (a : Bytes)
    → is_admin ctx ≡ false
    → ctx.user_id ≢ some u
    → trades req ≡ false
    → balance u a (serve w ctx db req).ledger ≡ balance u a db.ledger
unfolding serve intake_handler confirm_handler reject_handler
serve-Keeps w ctx db (post_user body) u a n m t =
    kept_user u a db ctx n m w.crypto w.salt (w.env 0) w.assets body
serve-Keeps w ctx db (delete_user_request id) u a n m t =
    kept_delete u a db ctx n m w.parsers (w.env 0) id
serve-Keeps w ctx db (post_order body) u a n m t =
    kept_order u a db ctx n m w.parsers (w.env 0) w.markets body
serve-Keeps w ctx db (delete_order id) u a n m t =
    kept_cancel u a db ctx n m w.parsers (w.env 1) (w.env 0) id
serve-Keeps w ctx db (post_trade body) u a n m t = cc
serve-Keeps w ctx db (post_wallet body) u a n m t =
    kept_wallet u a db ctx n m w.random (w.env 0) (λ k. w.env (suc k)) w.catalog body
serve-Keeps w ctx db (post_deposit body) u a n m t =
    kept_deposit u a db ctx n m w.processor w.uuid_text w.parsers (w.env 0) (w.env 1) (w.env 2) body
serve-Keeps w ctx db (post_withdrawal body) u a n m t =
    kept_withdrawal u a db ctx n m w.processor w.uuid_text w.parsers (w.env 0) w.catalog body
serve-Keeps w ctx db (admin_intake body) u a n m t = kept_admin u a db ctx n m _
serve-Keeps w ctx db (admin_confirm id) u a n m t = kept_admin u a db ctx n m _
serve-Keeps w ctx db (admin_reject id) u a n m t = kept_admin u a db ctx n m _
