-- ===== src/Exchange/Keys.antt =====
-- The idempotency keys that the requests of the exchange take: none is ever given back.
use mynance.Base.{◌≡◌, ◌∙◌, true, List, ◌∷◌, Bytes, arith}
use mynance.Shared.{◌>>=◌, guard, Post, Post-at, Post-bind, Post-ok, Post-map}
use mynance.Store.{
  Uuid, Env, Db, io, new_uuid, insert_outbox, IdempotencyKey, Scope, key_used, insert_key,
  scope_order, scope_withdraw, scope_trade, Order, cancelled,
}
use mynance.Numeric.{Numeric}
use mynance.Store.Ledger.{insert_entry}
use mynance.Store.Orders.{create_order}
use mynance.Order.{
  PlaceOrderCommand, Checked, Done, check_order, place_tx, place_order, release_rest, cancel_order,
}
use mynance.Withdrawal.{
  WithdrawCommand, Cleared, insert_withdrawal, check_withdraw, withdraw_tx, withdraw,
}
use mynance.Asset.{Catalog}
use mynance.Trade.{ExecuteTradeCommand, Settled, execute_trade}
use mynance.Trade.Once.{
  KeepsKeys, insert_outbox-KeepsKeys, update_status-KeepsKeys, settle_orders-KeepsKeys,
}

-- Every key that is taken stays taken.
abbrev pub Grows : Db → Db → Type 0
Grows db x =
    (key : Bytes) (scope : Scope)
    → key_used key scope db.idempotency_keys ≡ true
    → key_used key scope x.idempotency_keys ≡ true

pub Grows-same : (db x : Db) → x.idempotency_keys ≡ db.idempotency_keys → Grows db x
Grows-same db x e key scope h = rw e h

pub Grows-cons :
    (k : IdempotencyKey) (db x : Db) → x.idempotency_keys ≡ k ∷ db.idempotency_keys → Grows db x
unfolding key_used
Grows-cons k db x e key scope h = rw e (ground (arith, h))

place_tx-Grows :
    (env : Env) (db : Db) (cmd : PlaceOrderCommand) (c : Checked)
    → Post
        (λ d.
          d.db.idempotency_keys
          ≡ record { id = env.fresh 0; key = cmd.idempotency_key; scope = scope_order }
            ∷ db.idempotency_keys)
        (place_tx env db cmd c)
unfolding place_tx Post ◌>>=◌ guard io new_uuid insert_key create_order insert_entry insert_outbox
place_tx-Grows env db cmd c = ground arith

withdraw_tx-Grows :
    (env : Env) (db : Db) (cmd : WithdrawCommand) (c : Cleared)
    → Post
        (λ d.
          d.db.idempotency_keys
          ≡ record { id = env.fresh 0; key = cmd.idempotency_key; scope = scope_withdraw }
            ∷ db.idempotency_keys)
        (withdraw_tx env db cmd c)
unfolding withdraw_tx Post ◌>>=◌ guard io new_uuid insert_key insert_withdrawal insert_entry
    insert_outbox
withdraw_tx-Grows env db cmd c = ground arith

pub place_order-Grows :
    (env : Env) (markets : List Bytes) (seen db : Db) (cmd : PlaceOrderCommand)
    → Post (λ d. Grows db d.db) (place_order env markets seen db cmd)
unfolding place_order
place_order-Grows env markets seen db cmd =
    Post-bind _ (check_order env markets seen cmd) _
      (λ c _. Post-map _ _ _ (λ d e. Grows-cons _ db d.db e) (place_tx-Grows env db cmd c))

pub withdraw-Grows :
    (env : Env) (catalog : Catalog) (seen db : Db) (cmd : WithdrawCommand)
    → Post (λ d. Grows db d.db) (withdraw env catalog seen db cmd)
unfolding withdraw
withdraw-Grows env catalog seen db cmd =
    Post-bind _ (check_withdraw env catalog seen cmd) _
      (λ c _. Post-map _ _ _ (λ d e. Grows-cons _ db d.db e) (withdraw_tx-Grows env db cmd c))

insert_key-cons :
    (env : Env) (key : Bytes) (scope : Scope) (db : Db)
    → Post
        (λ x.
          x.idempotency_keys
          ≡ record { id = env.fresh 0; key = key; scope = scope } ∷ db.idempotency_keys)
        (insert_key env 0 0 key scope db)
unfolding insert_key ◌>>=◌ io new_uuid guard Post
insert_key-cons env key scope db = ground arith

pub execute_trade-Grows :
    (env : Env) (db : Db) (cmd : ExecuteTradeCommand)
    → Post (λ (d : Settled). Grows db d.db) (execute_trade env db cmd)
unfolding execute_trade
execute_trade-Grows env db cmd = Post-bind _ _ _ (λ pair _. Post-bind _ _ _ (λ _ _.
    Post-bind _ _ _ (λ keyed k. Post-bind _ _ _ (λ buy_order _. Post-bind _ _ _ (λ sell_order _.
      Post-map (λ (d : Settled). KeepsKeys keyed d.db) (λ (d : Settled). Grows db d.db) _
        (λ d kept.
          Grows-cons _ db d.db
            (kept ∙ Post-at _ (insert_key-cons env cmd.idempotency_key scope_trade db) k))
        (settle_orders-KeepsKeys env keyed cmd pair buy_order sell_order))))))

release_rest-KeepsKeys :
    (env : Env) (db : Db) (o : Order) (asset : Bytes) (n : Numeric)
    → Post (KeepsKeys db) (release_rest env db o asset n)
unfolding release_rest ◌>>=◌ io new_uuid guard insert_entry Post
release_rest-KeepsKeys env db o asset n = ground arith

pub cancel_order-KeepsKeys :
    (env : Env) (seen db : Db) (id : Uuid)
    → Post (λ (d : Done). KeepsKeys db d.db) (cancel_order env seen db id)
unfolding cancel_order
cancel_order-KeepsKeys env seen db id = Post-bind _ _ _ (λ _ _. Post-bind _ _ _ (λ _ _.
    Post-bind _ _ _ (λ _ _. Post-bind _ _ _ (λ o _. Post-bind _ _ _ (λ _ _.
      Post-bind _ _ _ (λ pair _. Post-bind _ _ _ (λ total _. Post-bind _ _ _ (λ filled_part _.
        Post-bind _ _ _ (λ released r. Post-bind _ _ _ (λ done d. Post-bind _ _ _ (λ told t.
          Post-bind _ _ _ (λ _ _. Post-ok _ _ (
            Post-at (KeepsKeys done) (insert_outbox-KeepsKeys env 1 2 _ done) t
            ∙ Post-at (KeepsKeys released) (update_status-KeepsKeys env 1 o.id cancelled released) d
            ∙ Post-at (KeepsKeys db) (release_rest-KeepsKeys env db o total.asset _) r)))))))))))))
