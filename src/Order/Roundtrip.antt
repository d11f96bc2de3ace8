-- ===== src/Order/Roundtrip.antt =====
-- An order of internal/order/service.go that is placed and cancelled without a fill between.
use mynance.Base.{◌≡◌, ◌∙◌, sym, ap, refl, Bytes, List, some_inj, arith, subst}
use mynance.Base.Int.{ℤ, pos, ◌+ℤ◌, ◌-ℤ◌, ◌≤ℤ◌, neg_ℤ, +ℤ_parts, -ℤ_parts, neg_ℤ_parts, eq_of_parts}
use mynance.Book.{Side, buy, sell, other}
use mynance.Numeric.{Numeric, column, loaded}
use mynance.Numeric.Product.{column-mul-loaded, column-mul-zero}
use mynance.Numeric.Units.{HasUnits, column-loaded}
use mynance.Shared.{Result, ok, ok_inj, ◌>>=◌}
use mynance.Store.{Uuid, Env, Db, Order, OrderRow}
use mynance.Store.Balance.{Adds}
use mynance.Store.Ledger.{balance}
use mynance.Store.Orders.{order_row}
use mynance.Order.{
  new_order, Pair, Reserve, PlaceOrderCommand, Done, reserve_of, place_order, cancel_order,
  split_symbol,
}
use mynance.Order.Place.{reserve_for, place_order-Books}
use mynance.Order.Release.{surplus}
use mynance.Order.Cancel.{cancel_order-Cancelling}

-- An amount of at most ten decimals.
abbrev pub IsExact : Numeric → Type 0
IsExact n = HasUnits n (column n)

-- What the stored amounts reserve is what the order took, and what is filled of it is nothing.
stored_reserve :
    (s : Side) (pair : Pair) (p q : Numeric) (r whole filled : Reserve)
    → IsExact p
    → IsExact q
    → reserve_of s pair p q ≡ ok r
    → reserve_of s pair (loaded (column p)) (loaded (column q)) ≡ ok whole
    → reserve_of s pair (loaded (column p)) (loaded (pos 0)) ≡ ok filled
    → (whole.asset ≡ r.asset)
      × (column whole.amount ≡ column r.amount)
      × (column filled.amount ≡ pos 0)
unfolding reserve_of
stored_reserve buy pair p q r whole filled hp hq er ew ef =
    rw (sym (ok_inj er), sym (ok_inj ew), sym (ok_inj ef))
      (refl, sym (column-mul-loaded p q (column p) (column q) hp hq), column-mul-zero (column p))
stored_reserve sell pair p q r whole filled hp hq er ew ef =
    rw (sym (ok_inj er), sym (ok_inj ew), sym (ok_inj ef))
      (refl, column-loaded (column q), column-loaded (pos 0))
stored_reserve (other s) pair p q r whole filled hp hq er ew ef = cc

back : (x b : ℤ) → pos 0 ≤ℤ x → surplus (x -ℤ pos 0) +ℤ (neg_ℤ x +ℤ b) ≡ b
back x b h = eq_of_parts _ _ (
    ground (
      arith,
      +ℤ_parts (surplus (x -ℤ pos 0)) (neg_ℤ x +ℤ b),
      +ℤ_parts (neg_ℤ x) b,
      neg_ℤ_parts x,
      -ℤ_parts x (pos 0),
    ))

Adds-back :
    (user : Uuid) (asset : Bytes) (x : ℤ) (first second third : Db)
    → pos 0 ≤ℤ x
    → Adds user asset (neg_ℤ x) first.ledger second.ledger
    → Adds user asset (surplus (x -ℤ pos 0)) second.ledger third.ledger
    → (u : Uuid) (a : Bytes) → balance u a third.ledger ≡ balance u a first.ledger
Adds-back user asset x first second third h out in_ u a =
    ground (arith, out u a, in_ u a, back x (balance u a first.ledger) h)

-- What the cancelled row, which is the placed order, says of its reserve.
row_reserve :
    (cmd : PlaceOrderCommand) (o : Order) (row : OrderRow) (r whole filled : Reserve) (pair : Pair)
    → IsExact cmd.price
    → IsExact cmd.quantity
    → o ≡ new_order o.id cmd
    → row ≡ order_row o
    → column o.filled_quantity ≡ pos 0
    → reserve_for cmd ≡ ok r
    → split_symbol row.symbol ≡ ok pair
    → reserve_of row.side pair (loaded row.price) (loaded row.quantity) ≡ ok whole
    → reserve_of row.side pair (loaded row.price) (loaded row.filled_quantity) ≡ ok filled
    → (row.user_id ≡ cmd.user_id)
      × (whole.asset ≡ r.asset)
      × (column whole.amount ≡ column r.amount)
      × (column filled.amount ≡ pos 0)
unfolding ◌>>=◌
row_reserve cmd o row r whole filled pair hp hq eo er z k sp ew ef =
    let same : row ≡ order_row (new_order o.id cmd) = er ∙ ap order_row eo in
    let splits : split_symbol cmd.symbol ≡ ok pair =
      subst (λ (x : OrderRow). split_symbol x.symbol ≡ ok pair) same sp in
    let reserves : reserve_of cmd.side pair cmd.price cmd.quantity ≡ ok r =
      subst (λ (m : Result Pair). (m >>= λ x. reserve_of cmd.side x cmd.price cmd.quantity) ≡ ok r)
        splits k in
    let nothing : row.filled_quantity ≡ pos 0 = ap (λ (x : OrderRow). x.filled_quantity) er ∙ z in
    let stored =
      stored_reserve cmd.side pair cmd.price cmd.quantity r whole filled hp hq reserves
        (subst
          (λ (x : OrderRow). reserve_of x.side pair (loaded x.price) (loaded x.quantity) ≡ ok whole)
          same ew)
        (subst
          (λ (x : OrderRow). reserve_of x.side pair (loaded x.price) (loaded (pos 0)) ≡ ok filled)
          same
          (subst (λ (x : ℤ). reserve_of row.side pair (loaded row.price) (loaded x) ≡ ok filled)
            nothing ef)) in
    (ap (λ (x : OrderRow). x.user_id) same, stored.0, stored.1, stored.2)

-- If price and quantity have at most ten decimals and what the order reserves is not negative,
-- then placing the order and cancelling it in the next request, if both return, leaves every
-- balance as it was.
pub cancel_order-place_order :
    (env env' : Env) (markets : List Bytes) (seen seen' db : Db) (cmd : PlaceOrderCommand)
    (r : Reserve) (d d' : Done)
    → IsExact cmd.price
    → IsExact cmd.quantity
    → reserve_for cmd ≡ ok r
    → pos 0 ≤ℤ column r.amount
    → place_order env markets seen db cmd ≡ ok d
    → cancel_order env' seen' d.db d.order.id ≡ ok d'
    → (u : Uuid) (a : Bytes) → balance u a d'.db.ledger ≡ balance u a db.ledger
cancel_order-place_order env env' markets seen seen' db cmd r d d' hp hq k h e e' u a =
    let (r', k', books) = place_order-Books env markets seen db cmd d e in
    let c = cancel_order-Cancelling env' seen' d.db d.order.id d' e' in
    let same : r' ≡ r = ok_inj (sym k' ∙ k) in
    let (user, asset, whole, filled) =
      row_reserve cmd d.order c.row r c.whole c.filled c.pair hp hq books.ordered
        (some_inj (sym c.found ∙ books.stored)) books.opened.1 k c.splits c.for_whole
        c.for_filled in
    Adds-back cmd.user_id r.asset (column r.amount) db d.db d'.db h
      (subst
        (λ (x : Reserve). Adds cmd.user_id x.asset (neg_ℤ (column x.amount)) db.ledger d.db.ledger)
        same books.reserved)
      (subst
        (λ (x : ℤ).
          Adds cmd.user_id r.asset (surplus (column r.amount -ℤ x)) d.db.ledger d'.db.ledger)
        filled
        (subst
          (λ (x : ℤ).
            Adds cmd.user_id r.asset (surplus (x -ℤ column c.filled.amount)) d.db.ledger
              d'.db.ledger)
          whole
          (subst
            (λ (x : Bytes).
              Adds cmd.user_id x (surplus (column c.whole.amount -ℤ column c.filled.amount))
                d.db.ledger d'.db.ledger)
            asset
            (subst
              (λ (x : Uuid).
                Adds x c.whole.asset (surplus (column c.whole.amount -ℤ column c.filled.amount))
                  d.db.ledger d'.db.ledger)
              user c.released))))
      u a
