-- ===== src/Order/Place.antt =====
-- What `PlaceOrder` of internal/order/service.go does to the books.
use Prim.Native.Nat.{Ordering}
use mynance.Base.{◌≡◌, ◌≢◌, refl, false, List, ◌∷◌, none, some, Bytes, arith, ◌∙◌, ap, sym, ==_refl}
use mynance.Base.Int.{ℤ, pos, ◌+ℤ◌, ◌≤ℤ◌, neg_ℤ, +ℤ_parts, neg_ℤ_parts}
use mynance.Numeric.{Numeric, column, loaded, cmp, zero_numeric}
use mynance.Numeric.Units.{column-neg, column_le, column-HasUnits, zero-HasUnits}
use mynance.Shared.{Result, ok, ◌>>=◌, guard, Post, Post-at, Post-bind, Post-self}
use mynance.Store.{
  Uuid, OrderRow, Order, Env, io, new_uuid, Db, insert_key, insert_outbox, account_id, open_status,
}
use mynance.Store.Balance.{Adds, row-Adds, Adds-nonneg}
use mynance.Store.Ledger.{insert_entry, balance, ledger_row, sum_by_user_asset}
use mynance.Store.Orders.{create_order, find_order, order_row}
use mynance.Order.{
  split_symbol, reserve_of, Reserve, PlaceOrderCommand, Checked, Done, new_order, reserve_entry,
  check_order, place_tx, place_order, exceeds, submit_place,
}

record Placed (env : Env) (db : Db) (cmd : PlaceOrderCommand) (c : Checked) (d : Done)
    : Type 0 where
  booked : d.db.ledger ≡ ledger_row (reserve_entry (env.fresh 2) (env.fresh 1) cmd c) ∷ db.ledger
  stored : d.db.orders ≡ order_row (new_order (env.fresh 1) cmd) ∷ db.orders
  returned : d.order ≡ new_order (env.fresh 1) cmd
  told_engine : d.call ≡ submit_place (new_order (env.fresh 1) cmd)
  unknown : find_order (env.fresh 1) db.orders ≡ none

place_tx-Placed :
    (env : Env) (db : Db) (cmd : PlaceOrderCommand) (c : Checked)
    → Post (Placed env db cmd c) (place_tx env db cmd c)
unfolding place_tx Post ◌>>=◌ guard io new_uuid insert_key create_order insert_entry insert_outbox
place_tx-Placed env db cmd c = ground arith

-- What an order reserves, by its side and symbol.
abbrev pub reserve_for : PlaceOrderCommand → Result Reserve
reserve_for cmd =
    split_symbol cmd.symbol >>= λ pair. reserve_of cmd.side pair cmd.price cmd.quantity

abbrev Admitted : Db → PlaceOrderCommand → Checked → Type 0
Admitted seen cmd c =
    (reserve_for cmd ≡ ok c.reserve)
    × (exceeds c.reserve.amount (loaded (balance cmd.user_id c.reserve.asset seen.ledger)) ≡ false)

check_order-Post :
    (env : Env) (markets : List Bytes) (seen : Db) (cmd : PlaceOrderCommand)
    → Post (Admitted seen cmd) (check_order env markets seen cmd)
unfolding check_order Post ◌>>=◌ guard io sum_by_user_asset account_id
check_order-Post env markets seen cmd = ground arith

pub exceeds-false : (a b : Numeric) → exceeds a b ≡ false → cmp a b ≢ Ordering.gt
exceeds-false a b h e = ground arith

-- The order that was placed, and what it did to the books.
pub record Books (seen db : Db) (cmd : PlaceOrderCommand) (r : Reserve) (d : Done) : Type 0 where
  pub covered : column r.amount ≤ℤ balance cmd.user_id r.asset seen.ledger
  pub reserved : Adds cmd.user_id r.asset (neg_ℤ (column r.amount)) db.ledger d.db.ledger
  pub ordered : d.order ≡ new_order d.order.id cmd
  pub fresh : find_order d.order.id db.orders ≡ none
  pub stored : find_order d.order.id d.db.orders ≡ some (order_row d.order)
  pub others : (id : Uuid) → id ≢ d.order.id → find_order id d.db.orders ≡ find_order id db.orders
  pub opened : (d.order.status ≡ open_status) × ((order_row d.order).filled_quantity ≡ pos 0)
  pub submitted : d.call ≡ submit_place d.order

find_first : (row : OrderRow) (rows : List OrderRow) → find_order row.id (row ∷ rows) ≡ some row
unfolding find_order
find_first row rows = rw (==_refl row.id) refl

pub find_later :
    (row : OrderRow) (rows : List OrderRow) (id : Uuid)
    → id ≢ row.id
    → find_order id (row ∷ rows) ≡ find_order id rows
unfolding find_order
find_later row rows id ne = ground arith

pub opened_at_zero : column zero_numeric ≡ pos 0
opened_at_zero = column-HasUnits zero_numeric (pos 0) zero-HasUnits

place_tx-Books :
    (env : Env) (seen db : Db) (cmd : PlaceOrderCommand) (c : Checked)
    → exceeds c.reserve.amount (loaded (balance cmd.user_id c.reserve.asset seen.ledger)) ≡ false
    → (d : Done) → place_tx env db cmd c ≡ ok d
    → Books seen db cmd c.reserve d
place_tx-Books env seen db cmd c h d e =
    let p = Post-at (Placed env db cmd c) (place_tx-Placed env db cmd c) e in
    record {
      covered = column_le c.reserve.amount _ (exceeds-false _ _ h);
      reserved =
          row-Adds (ledger_row (reserve_entry (env.fresh 2) (env.fresh 1) cmd c))
            (neg_ℤ (column c.reserve.amount)) db.ledger d.db.ledger p.booked
            (column-neg c.reserve.amount);
      ordered = rw p.returned refl;
      fresh = rw p.returned p.unknown;
      stored =
          rw p.returned
            (rw p.stored (find_first (order_row (new_order (env.fresh 1) cmd)) db.orders));
      others = λ id ne.
          ap (find_order id) p.stored
          ∙ find_later (order_row (new_order (env.fresh 1) cmd)) db.orders id
              (λ h. ne (h ∙ sym (ap (λ (o : Order). o.id) p.returned)));
      opened = rw p.returned (refl, opened_at_zero);
      submitted = p.told_engine ∙ ap submit_place (sym p.returned);
    }

-- `PlaceOrder` returns an order only if what it reserves, by its side and symbol, is at most the
-- balance that was read; it then books exactly minus that amount on that user and asset and moves no
-- other balance, stores the returned order, whose identifier no order had, as OPEN with nothing filled, leaves every other order as it
-- was, and submits the order to the engine.
pub place_order-Books :
    (env : Env) (markets : List Bytes) (seen db : Db) (cmd : PlaceOrderCommand) (d : Done)
    → place_order env markets seen db cmd ≡ ok d
    → (r : Reserve) × (reserve_for cmd ≡ ok r) × Books seen db cmd r d
unfolding place_order
place_order-Books env markets seen db cmd d e =
    Post-at (λ (d' : Done). (r : Reserve) × (reserve_for cmd ≡ ok r) × Books seen db cmd r d')
      (Post-bind _ (check_order env markets seen cmd) _ (λ c h.
        let q = Post-at (Admitted seen cmd) (check_order-Post env markets seen cmd) h in
        Post-self _ (place_tx env db cmd c)
          (λ d' k. (c.reserve, q.0, place_tx-Books env seen db cmd c q.1 d' k))))
      e

pub enough : (x b : ℤ) → x ≤ℤ b → pos 0 ≤ℤ neg_ℤ x +ℤ b
enough x b h = omega (arith, +ℤ_parts (neg_ℤ x) b, neg_ℤ_parts x)

-- If no other request commits between reading the balance and the transaction, then after
-- `PlaceOrder` has returned every balance that was not negative is still not negative.
pub place_order-nonneg :
    (env : Env) (markets : List Bytes) (db : Db) (cmd : PlaceOrderCommand) (d : Done)
    → place_order env markets db db cmd ≡ ok d
    → (u : Uuid) (a : Bytes) → pos 0 ≤ℤ balance u a db.ledger
    → pos 0 ≤ℤ balance u a d.db.ledger
place_order-nonneg env markets db cmd d e u a was =
    let (r, k, books) = place_order-Books env markets db db cmd d e in
    Adds-nonneg cmd.user_id r.asset (neg_ℤ (column r.amount)) db.ledger d.db.ledger books.reserved
      (enough _ _ books.covered) u a was
