-- ===== src/Order/Accept.antt =====
-- When `PlaceOrder` of internal/order/service.go accepts an order, and what it then allows.
use mynance.Base.{
  ◌≡◌, ◌≢◌, ◌∙◌, sym, subst, refl, true, false, List, none, some, Bytes, ◌==◌, ◌||◌, arith,
  is_empty,
}
use mynance.Base.Int.{ℤ, pos, ◌+ℤ◌, ◌<ℤ◌, neg_ℤ, +ℤ_parts, neg_ℤ_parts}
use mynance.Numeric.{column, loaded}
use mynance.Shared.{ok_inj, ok, ◌>>=◌, guard, Post, Post-at, Post-bind}
use mynance.Store.{
  nil_uuid, Account, Env, Call, begin, commit, new_id, query, exec, io, new_uuid, Db, scope_order,
  key_used, insert_key, insert_outbox, account_id, find_account,
}
use mynance.Store.Balance.{Adds, Adds-self}
use mynance.Store.Keys.{key_used_first}
use mynance.Store.Ledger.{insert_entry, balance, sum_by_user_asset}
use mynance.Store.Orders.{create_order, find_order}
use mynance.Order.{
  Reserve, PlaceOrderCommand, Checked, Done, listed, exceeds, check_order, place_tx, place_order,
}
use mynance.Order.Place.{reserve_for, place_order-Books}

place_tx-key :
    (env : Env) (db : Db) (cmd : PlaceOrderCommand) (c : Checked)
    → Post
        (λ d. key_used cmd.idempotency_key scope_order d.db.idempotency_keys ≡ true)
        (place_tx env db cmd c)
unfolding place_tx Post ◌>>=◌ guard io new_uuid insert_key create_order insert_entry insert_outbox
place_tx-key env db cmd c =
    ground (arith, key_used_first (env.fresh 0) cmd.idempotency_key scope_order db.idempotency_keys)

place_tx_refuses :
    (env : Env) (db : Db) (cmd : PlaceOrderCommand) (c : Checked)
    → key_used cmd.idempotency_key scope_order db.idempotency_keys ≡ true
    → Post (λ d. ⊥) (place_tx env db cmd c)
unfolding place_tx Post ◌>>=◌ guard io new_uuid insert_key
place_tx_refuses env db cmd c h = ground arith

place_order_refuses :
    (env : Env) (markets : List Bytes) (seen db : Db) (cmd : PlaceOrderCommand)
    → key_used cmd.idempotency_key scope_order db.idempotency_keys ≡ true
    → Post (λ d. ⊥) (place_order env markets seen db cmd)
unfolding place_order
place_order_refuses env markets seen db cmd h =
    Post-bind _ (check_order env markets seen cmd) _ (λ c k. place_tx_refuses env db cmd c h)

-- A key places one order: once `PlaceOrder` has returned an order, no call with the same key returns
-- one against the database it left, whatever that call orders.
pub place_order-once :
    (env env' : Env) (markets : List Bytes) (seen seen' db : Db) (cmd cmd' : PlaceOrderCommand)
    (d : Done)
    → place_order env markets seen db cmd ≡ ok d
    → cmd'.idempotency_key ≡ cmd.idempotency_key
    → (d' : Done) → place_order env' markets seen' d.db cmd' ≢ ok d'
unfolding place_order
place_order-once env env' markets seen seen' db cmd cmd' d e same d' e' =
    Post-at (λ (x : Done). ⊥)
      (place_order_refuses env' markets seen' d.db cmd' (
        rw same (
          Post-at
            (λ (x : Done). key_used cmd.idempotency_key scope_order x.db.idempotency_keys ≡ true)
            (Post-bind _ (check_order env markets seen cmd) _ (λ c k. place_tx-key env db cmd c))
            e)))
      e'

raised : (x b : ℤ) → x <ℤ pos 0 → b <ℤ neg_ℤ x +ℤ b
raised x b h = omega (arith, +ℤ_parts (neg_ℤ x) b, neg_ℤ_parts x)

-- If what an order would reserve is negative, as it is for a price below zero, and `PlaceOrder`
-- returns it, then the user's balance in the asset has risen.
pub place_order-negative :
    (env : Env) (markets : List Bytes) (seen db : Db) (cmd : PlaceOrderCommand) (d : Done)
    (r : Reserve)
    → place_order env markets seen db cmd ≡ ok d
    → reserve_for cmd ≡ ok r
    → column r.amount <ℤ pos 0
    → balance cmd.user_id r.asset db.ledger <ℤ balance cmd.user_id r.asset d.db.ledger
place_order-negative env markets seen db cmd d r e k h =
    let (r', k', books) = place_order-Books env markets seen db cmd d e in
    let same : r' ≡ r = ok_inj (sym k' ∙ k) in
    rw
      (Adds-self _ _ _ _ _ (
        subst
          (λ (x : Reserve).
            Adds cmd.user_id x.asset (neg_ℤ (column x.amount)) db.ledger d.db.ledger)
          same books.reserved))
      (raised _ _ h)

check_order-ok :
    (env : Env) (markets : List Bytes) (seen : Db) (cmd : PlaceOrderCommand) (r : Reserve)
    (a : Account)
    → ((call : Call) → env.fails call ≡ false)
    → (cmd.user_id == nil_uuid) ≡ false
    → (is_empty markets || listed cmd.symbol markets) ≡ true
    → reserve_for cmd ≡ ok r
    → find_account cmd.user_id r.asset seen.accounts ≡ some a
    → exceeds r.amount (loaded (balance cmd.user_id r.asset seen.ledger)) ≡ false
    → check_order env markets seen cmd ≡ ok (record { reserve = r; account_id = a.id })
unfolding check_order ◌>>=◌ guard io sum_by_user_asset account_id
check_order-ok env markets seen cmd r a f u m k acc fit = ground (arith, f (query 0), f (query 1))

place_tx-ok :
    (env : Env) (db : Db) (cmd : PlaceOrderCommand) (c : Checked)
    → ((call : Call) → env.fails call ≡ false)
    → key_used cmd.idempotency_key scope_order db.idempotency_keys ≡ false
    → find_order (env.fresh 1) db.orders ≡ none
    → (d : Done) × place_tx env db cmd c ≡ ok d
unfolding place_tx ◌>>=◌ guard io new_uuid insert_key create_order insert_entry insert_outbox
place_tx-ok env db cmd c f k o =
    rw
      (
        f begin,
        f (new_id 0),
        f (exec 0),
        k,
        f (new_id 1),
        f (exec 1),
        o,
        f (new_id 2),
        f (exec 2),
        f (new_id 3),
        f (exec 3),
        f commit,
      )
      (_, refl)

-- If every call succeeds, the user is set, the symbol is listed, its pair and the side give a reserve,
-- the account is there and the balance that is read covers the reserve, and neither the key nor the
-- identifier of the order is taken, then `PlaceOrder` returns an order.
pub place_order-accepts :
    (env : Env) (markets : List Bytes) (seen db : Db) (cmd : PlaceOrderCommand) (r : Reserve)
    (a : Account)
    → ((call : Call) → env.fails call ≡ false)
    → (cmd.user_id == nil_uuid) ≡ false
    → (is_empty markets || listed cmd.symbol markets) ≡ true
    → reserve_for cmd ≡ ok r
    → find_account cmd.user_id r.asset seen.accounts ≡ some a
    → exceeds r.amount (loaded (balance cmd.user_id r.asset seen.ledger)) ≡ false
    → key_used cmd.idempotency_key scope_order db.idempotency_keys ≡ false
    → find_order (env.fresh 1) db.orders ≡ none
    → (d : Done) × place_order env markets seen db cmd ≡ ok d
unfolding place_order ◌>>=◌
place_order-accepts env markets seen db cmd r a f u m k acc fit key id =
    rw (check_order-ok env markets seen cmd r a f u m k acc fit) (place_tx-ok env db cmd _ f key id)
