-- ===== src/Order/Cancel.antt =====
-- What `CancelOrder` of internal/order/service.go does to the books.
use mynance.Base.{
  ◌≡◌, ◌≢◌, ◌∙◌, sym, ap, ap₂, subst, some_inj, refl, true, List, some, Bytes, arith,
}
use mynance.Base.Int.{ℤ, ◌+ℤ◌, ◌-ℤ◌, ◌≤ℤ◌, +ℤ_parts}
use mynance.Numeric.{column, loaded, sub}
use mynance.Numeric.Units.{HasUnits, sub-HasUnits}
use mynance.Shared.{
  ok, guard, guard-ok, Post, Post-at, Post-ok, Post-bind, invalid_state_transition,
}
use mynance.Store.{
  Uuid, OrderRow, LedgerRow, Env, Db, Order, insert_outbox, cancelled, order_cancelled,
}
use mynance.Store.Balance.{Adds, Adds-mono}
use mynance.Store.Keys.{insert_outbox-Post}
use mynance.Store.Ledger.{balance}
use mynance.Store.Orders.{
  find_order, scan_order, update_status, with_status, find_order-update_order, find_order-others,
  find_order-id, get_order-ok, update_status-Post, update_order,
}
use mynance.Order.{
  is_cancellable, split_symbol, Pair, reserve_of, Reserve, Done, release_rest, cancel_order,
  submit_cancel,
}
use mynance.Order.Release.{release_rest-Post, reserve_of-HasUnits, surplus}

-- A cancelled order: what it was and what its cancelling did to the books.
pub record Cancelling (db : Db) (id : Uuid) (d : Done) : Type 0 where
  pub row : OrderRow
  pub pair : Pair
  pub whole : Reserve
  pub filled : Reserve
  pub found : find_order id db.orders ≡ some row
  pub live : is_cancellable row.status ≡ true
  pub splits : split_symbol row.symbol ≡ ok pair
  pub for_whole : reserve_of row.side pair (loaded row.price) (loaded row.quantity) ≡ ok whole
  pub for_filled :
      reserve_of row.side pair (loaded row.price) (loaded row.filled_quantity) ≡ ok filled
  pub released :
      Adds row.user_id whole.asset
        (surplus (column whole.amount -ℤ column filled.amount))
        db.ledger
        d.db.ledger
  pub closed : find_order id d.db.orders ≡ some (with_status cancelled row)
  pub others :
      (other : Uuid) → other ≢ id → find_order other d.db.orders ≡ find_order other db.orders
  pub returned : d.order ≡ scan_order (with_status cancelled row)
  pub told : d.call ≡ submit_cancel id row.symbol

module _ (env : Env) (db : Db) (id : Uuid) (o : Order) (pair : Pair) (whole filled : Reserve)
    (released done told : Db) (row : OrderRow) (found : find_order id db.orders ≡ some row)
    (same : o ≡ scan_order row)
    (live : guard (is_cancellable o.status) invalid_state_transition ≡ ok tt)
    (splits : split_symbol o.symbol ≡ ok pair)
    (for_whole : reserve_of o.side pair o.price o.quantity ≡ ok whole)
    (for_filled : reserve_of o.side pair o.price o.filled_quantity ≡ ok filled)
    (booked : release_rest env db o whole.asset (sub whole.amount filled.amount) ≡ ok released)
    (updated : update_status env 1 o.id cancelled released ≡ ok done)
    (events : insert_outbox env 1 2 (order_cancelled o.id o.user_id cancelled) done ≡ ok told) where
  whole_units : HasUnits whole.amount (column whole.amount)
  whole_units =
      reserve_of-HasUnits row.side pair row.price row.quantity whole
        (subst (λ (x : Order). reserve_of x.side pair x.price x.quantity ≡ ok whole) same for_whole)

  filled_units : HasUnits filled.amount (column filled.amount)
  filled_units = reserve_of-HasUnits row.side pair row.price row.filled_quantity filled (
      subst (λ (x : Order). reserve_of x.side pair x.price x.filled_quantity ≡ ok filled) same
        for_filled)

  o_id : o.id ≡ id
  o_id = ap (λ (x : Order). x.id) same ∙ find_order-id id db.orders row found

  rest :
      Adds o.user_id whole.asset
        (surplus (column whole.amount -ℤ column filled.amount))
        db.ledger
        released.ledger
      × (released.orders ≡ db.orders)
  rest =
      Post-at
        (λ (x : Db).
          Adds o.user_id whole.asset (surplus (column whole.amount -ℤ column filled.amount))
            db.ledger x.ledger
          × (x.orders ≡ db.orders))
        (release_rest-Post env db o whole.asset (sub whole.amount filled.amount) _
          (sub-HasUnits whole.amount filled.amount _ _ whole_units filled_units))
        booked

  closing :
      (done.orders ≡ update_order id (with_status cancelled) db.orders)
      × (done.ledger ≡ released.ledger)
  closing =
      let u =
        Post-at
          (λ (x : Db).
            (x.orders ≡ update_order o.id (with_status cancelled) released.orders)
            × (x.ledger ≡ released.ledger))
          (update_status-Post env 1 o.id cancelled released) updated in
      (
        u.0
            ∙ ap₂ (λ (i : Uuid) (rows : List OrderRow). update_order i (with_status cancelled) rows)
                o_id rest.1,
        u.1,
      )

  kept : (told.orders ≡ done.orders) × (told.ledger ≡ done.ledger)
  kept =
      Post-at (λ (x : Db). (x.orders ≡ done.orders) × (x.ledger ≡ done.ledger))
        (insert_outbox-Post env 1 2 _ done) events

  orders_after : told.orders ≡ update_order id (with_status cancelled) db.orders
  orders_after = kept.0 ∙ closing.0

  cancelling : Cancelling db id (record {
    order = record o { status = cancelled };
    db = told;
    call = submit_cancel o.id o.symbol;
  })
  cancelling = record {
    row = row;
    pair = pair;
    whole = whole;
    filled = filled;
    found = found;
    live = guard-ok _ _ (
        subst (λ (x : Order). guard (is_cancellable x.status) invalid_state_transition ≡ ok tt) same
          live);
    splits = subst (λ (x : Order). split_symbol x.symbol ≡ ok pair) same splits;
    for_whole =
        subst (λ (x : Order). reserve_of x.side pair x.price x.quantity ≡ ok whole) same for_whole;
    for_filled =
        subst (λ (x : Order). reserve_of x.side pair x.price x.filled_quantity ≡ ok filled) same
          for_filled;
    released =
        subst
          (λ (rows : List LedgerRow).
            Adds row.user_id whole.asset (surplus (column whole.amount -ℤ column filled.amount))
              db.ledger rows)
          (sym (kept.1 ∙ closing.1))
          (subst
            (λ (x : Order).
              Adds x.user_id whole.asset (surplus (column whole.amount -ℤ column filled.amount))
                db.ledger released.ledger)
            same rest.0);
    closed =
        rw orders_after
          (find_order-update_order id (with_status cancelled) (λ _. refl) db.orders row found);
    others = λ other ne.
        rw orders_after
          (find_order-others id (with_status cancelled) (λ _. refl) db.orders other ne);
    returned = ap (λ (x : Order). record x { status = cancelled }) same;
    told = ap₂ submit_cancel o_id (ap (λ (x : Order). x.symbol) same);
  }

cancel_order-Post :
    (env : Env) (seen db : Db) (id : Uuid) → Post (Cancelling db id) (cancel_order env seen db id)
unfolding cancel_order
cancel_order-Post env seen db id = Post-bind _ _ _ (λ existing _. Post-bind _ _ _ (λ _ _.
    Post-bind _ _ _ (λ _ _. Post-bind _ _ _ (λ o got. Post-bind _ _ _ (λ _ live.
      Post-bind _ _ _ (λ pair splits. Post-bind _ _ _ (λ whole for_whole.
        Post-bind _ _ _ (λ filled for_filled. Post-bind _ _ _ (λ released rel.
          Post-bind _ _ _ (λ done upd. Post-bind _ _ _ (λ told out. Post-bind _ _ _ (λ _ _.
            let (row, found, same) = get_order-ok env 1 id db o got in
            Post-ok _ _ (
              cancelling env db id o pair whole filled released done told row found same live splits
                for_whole for_filled rel upd out)))))))))))))

not_live : is_cancellable cancelled ≢ true
unfolding is_cancellable
not_live h = cc

-- `CancelOrder` returns only if the order was there and OPEN or PARTIAL when the transaction locked it.
-- It then books on the user and the asset of the order's side what the whole quantity reserves less
-- what the filled quantity reserves (nothing, if that is not positive), moves no other balance, sets
-- the order to CANCELLED, leaves every other order alone and tells the engine to take it out.
pub cancel_order-Cancelling :
    (env : Env) (seen db : Db) (id : Uuid) (d : Done)
    → cancel_order env seen db id ≡ ok d
    → Cancelling db id d
cancel_order-Cancelling env seen db id d e =
    Post-at (Cancelling db id) (cancel_order-Post env seen db id) e

-- An order is cancelled once: after `CancelOrder` has returned, no further call for the same order
-- returns against the database that it left.
pub cancel_order-once :
    (env env' : Env) (seen seen' db : Db) (id : Uuid) (d d' : Done)
    → cancel_order env seen db id ≡ ok d
    → cancel_order env' seen' d.db id ≢ ok d'
cancel_order-once env env' seen seen' db id d d' e e' =
    let first = cancel_order-Cancelling env seen db id d e in
    let again = cancel_order-Cancelling env' seen' d.db id d' e' in
    not_live (
      subst (λ (r : OrderRow). is_cancellable r.status ≡ true)
        (some_inj (sym again.found ∙ first.closed)) again.live)

surplus_adds : (x b : ℤ) → b ≤ℤ surplus x +ℤ b
surplus_adds x b = ground (arith, +ℤ_parts (surplus x) b)

-- Cancelling lowers no balance, of any user in any asset.
pub cancel_order-mono :
    (env : Env) (seen db : Db) (id : Uuid) (d : Done)
    → cancel_order env seen db id ≡ ok d
    → (u : Uuid) (a : Bytes) → balance u a db.ledger ≤ℤ balance u a d.db.ledger
cancel_order-mono env seen db id d e u a =
    let c = cancel_order-Cancelling env seen db id d e in
    Adds-mono c.row.user_id c.whole.asset
      (surplus (column c.whole.amount -ℤ column c.filled.amount)) db.ledger d.db.ledger c.released
      (surplus_adds (column c.whole.amount -ℤ column c.filled.amount)
        (balance c.row.user_id c.whole.asset db.ledger))
      u a
