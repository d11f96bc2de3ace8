-- ===== src/Exchange/Once.antt =====
-- An idempotency key over the life of the exchange: internal/idempotency/store.go as the services use it.
use mynance.Base.{◌≡◌, ◌∙◌, sym, ap, true, false, List, Bytes, arith, inl, inr, true_not_false}
use mynance.Shared.{ok, ◌>>=◌, guard, Post, Post-at, Post-bind}
use mynance.Store.{
  Env, Db, io, new_uuid, insert_outbox, Scope, key_used, insert_key, scope_order, scope_withdraw,
  scope_trade,
}
use mynance.Store.Keys.{key_used_first}
use mynance.Store.Ledger.{insert_entry}
use mynance.Store.Orders.{create_order}
use mynance.Order.{PlaceOrderCommand, Checked, Done, check_order, place_tx, place_order}
use mynance.Withdrawal.{WithdrawCommand, WithdrawResult, withdraw}
use mynance.Withdrawal.Debit.{withdraw-Debited}
use mynance.Asset.{Catalog}
use mynance.Trade.{ExecuteTradeCommand, Settled, execute_trade}
use mynance.Trade.Once.{TakesKey, execute_trade-TakesKey}
use mynance.User.Signup.{create_user-Welcomed}
use mynance.Wallet.Held.{get_or_create_address-HeldFor}
use mynance.Settlement.Partner.{Stored, persist_market_order-Stored}
use mynance.Exchange.{
  Step, placed, dropped, traded, stored, announced, credited, denied, withdrawn, addressed, opened,
  closed, joined, left, Reach, here, next,
}
use mynance.Exchange.Frame.{
  Idle, Funding, intake-Idle, confirm-Funding, reject-Idle, create_account-Idle,
  delete_account-Idle, delete_user-Idle,
}
use mynance.Exchange.Keys.{
  Grows, Grows-same, place_order-Grows, withdraw-Grows, execute_trade-Grows, cancel_order-KeepsKeys,
}
use mynance.Trade.Once.{KeepsKeys}

Step-Grows : {db x : Db} → Step db x → Grows db x
Step-Grows {db} (placed env markets seen cmd d e) =
    Post-at (λ d. Grows db d.db) (place_order-Grows env markets seen db cmd) e
Step-Grows {db} (dropped env seen id d e) =
    Grows-same db d.db
      (Post-at (λ (d : Done). KeepsKeys db d.db) (cancel_order-KeepsKeys env seen db id) e)
Step-Grows {db} (traded env cmd d e) =
    Post-at (λ (d : Settled). Grows db d.db) (execute_trade-Grows env db cmd) e
Step-Grows {db} (stored f env market side symbol price qty p e) = Grows-same db p.db (
    (Post-at (Stored market side db)
      (persist_market_order-Stored f env market side symbol price qty db) e).keys_kept)
Step-Grows {db} (announced env cmd d e) =
    Grows-same db d.db (Post-at (λ d. Idle db d.db) (intake-Idle env db cmd) e).1
Step-Grows {db} (credited env id d e) =
    Grows-same db d.db (Post-at (λ d. Funding db d.db) (confirm-Funding env db id) e).1
Step-Grows {db} (denied env id d e) =
    Grows-same db d.db (Post-at (λ d. Idle db d.db) (reject-Idle env db id) e).1
Step-Grows {db} (withdrawn env catalog seen cmd d e) =
    Post-at (λ d. Grows db d.db) (withdraw-Grows env catalog seen db cmd) e
Step-Grows {db} (addressed r env rounds catalog seen user asset name h e) =
    let (network, known, held) =
      get_or_create_address-HeldFor r env rounds catalog seen db user asset name h e in
    elim held [
      | inl old ↦ Grows-same db h.db (ap (λ (y : Db). y.idempotency_keys) old.1)
      | inr (none_held, new) ↦ Grows-same db h.db new.keys_kept
    ]
Step-Grows {db} (opened env user asset d e) =
    Grows-same db d.db (Post-at (λ d. Idle db d.db) (create_account-Idle env db user asset) e).1
Step-Grows {db} (closed env id x e) =
    Grows-same db x (Post-at (Idle db) (delete_account-Idle env db id) e).1
Step-Grows {db} (joined crypto salt env assets cmd d e) =
    let (hash, hashing, w) = create_user-Welcomed crypto salt env assets db cmd d e in
    Grows-same db d.db w.keys_kept
Step-Grows {db} (left env id x e) =
    Grows-same db x (Post-at (Idle db) (delete_user-Idle env db id) e).1

Reach-Grows : {db x : Db} → Reach db x → Grows db x
Reach-Grows here key scope h = h
Reach-Grows (next r s) key scope h = Step-Grows s key scope (Reach-Grows r key scope h)

-- A request that went through under a key.
pub data Takes (key : Bytes) : Scope → Db → Db → Type 0 where
  orders :
      (env : Env) (markets : List Bytes) (seen : Db) (cmd : PlaceOrderCommand) {db : Db} (d : Done)
      → cmd.idempotency_key ≡ key
      → place_order env markets seen db cmd ≡ ok d
      → Takes key scope_order db d.db
  settles :
      (env : Env) (cmd : ExecuteTradeCommand) {db : Db} (d : Settled)
      → cmd.idempotency_key ≡ key
      → execute_trade env db cmd ≡ ok d
      → Takes key scope_trade db d.db
  withdraws :
      (env : Env) (catalog : Catalog) (seen : Db) (cmd : WithdrawCommand) {db : Db}
      (d : WithdrawResult)
      → cmd.idempotency_key ≡ key
      → withdraw env catalog seen db cmd ≡ ok d
      → Takes key scope_withdraw db d.db

abbrev Spends : Bytes → Scope → Db → Db → Type 0
Spends key scope db x =
    (key_used key scope db.idempotency_keys ≡ false)
    × (key_used key scope x.idempotency_keys ≡ true)

place_tx-Spends :
    (env : Env) (db : Db) (cmd : PlaceOrderCommand) (c : Checked)
    → Post (λ d. Spends cmd.idempotency_key scope_order db d.db) (place_tx env db cmd c)
unfolding place_tx Post ◌>>=◌ guard io new_uuid insert_key create_order insert_entry insert_outbox
place_tx-Spends env db cmd c =
    ground (arith, key_used_first (env.fresh 0) cmd.idempotency_key scope_order db.idempotency_keys)

place_order-Spends :
    (env : Env) (markets : List Bytes) (seen db : Db) (cmd : PlaceOrderCommand)
    → Post
        (λ d. Spends cmd.idempotency_key scope_order db d.db)
        (place_order env markets seen db cmd)
unfolding place_order
place_order-Spends env markets seen db cmd =
    Post-bind _ (check_order env markets seen cmd) _ (λ c _. place_tx-Spends env db cmd c)

Takes-Spends :
    {key : Bytes} {scope : Scope} {db x : Db} → Takes key scope db x → Spends key scope db x
Takes-Spends {key} {scope} {db} (orders env markets seen cmd d e h) = rw (sym e) (
    Post-at (λ d. Spends cmd.idempotency_key scope_order db d.db)
      (place_order-Spends env markets seen db cmd) h)
Takes-Spends {key} {scope} {db} (settles env cmd d e h) = rw (sym e) (
    Post-at (λ (d : Settled). TakesKey cmd.idempotency_key db d.db)
      (execute_trade-TakesKey env db cmd) h)
Takes-Spends {key} {scope} {db} (withdraws env catalog seen cmd d e h) =
    let w = withdraw-Debited env catalog seen db cmd d h in rw (sym e) (w.fresh_key, w.keyed)

-- A key goes through once in each scope, for good: after `PlaceOrder`, `ExecuteTrade` or `Withdraw` has
-- returned under a key, and any number of requests of the exchange have committed since, no call of
-- the same operation returns under that key.
pub Takes-once :
    {key : Bytes} {scope : Scope} {db x y z : Db}
    → Takes key scope db x
    → Reach x y
    → ¬ Takes key scope y z
Takes-once {key} {scope} first later again =
    true_not_false
      (sym (Reach-Grows later key scope (Takes-Spends first).1) ∙ (Takes-Spends again).0)
