-- ===== src/Trade/Fills.antt =====
-- What `applyOrderFill` of internal/trade/service.go does to an order.
use Prim.Native.Nat.{Ordering}
use mynance.Base.{
  ℕ, suc, ◌≡◌, ◌≢◌, ◌∙◌, sym, ap, refl, true, false, some, if◌then◌else◌, arith, Bool-cases, inl,
  inr,
}
use mynance.Base.Int.{ℤ, ltb_ℤ}
use mynance.Numeric.{Numeric, add, cmp_ℤ, column_add, loaded}
use mynance.Numeric.Product.{add-loaded-HasUnits}
use mynance.Numeric.Units.{loaded-HasUnits, cmp-HasUnits}
use mynance.Shared.{Post, Post-at, Post-bind, Post-ok, Post-map}
use mynance.Store.{Uuid, OrderRow, Env, Db, Status, partial, filled}
use mynance.Store.Orders.{
  find_order, update_order, scan_order, with_status, with_fill, increment_filled, update_status,
  update_status-Post, increment_filled-Post, find_order-update_order, find_order-others,
}
use mynance.Trade.{at_least, is_open, apply_order_fill}

-- One order, if it is there, is changed by `f`; the others are as they were, and no money moves.
abbrev pub Touches : Uuid → (OrderRow → OrderRow) → Db → Db → Type 0
Touches id f before after =
    ((row : OrderRow)
      → find_order id before.orders ≡ some row
      → find_order id after.orders ≡ some (f row))
    × ((other : Uuid) → other ≢ id → find_order other after.orders ≡ find_order other before.orders)
    × (after.ledger ≡ before.ledger)

updated-Touches :
    (id : Uuid) (f : OrderRow → OrderRow) (before after : Db)
    → ((r : OrderRow) → (f r).id ≡ r.id)
    → (after.orders ≡ update_order id f before.orders) × (after.ledger ≡ before.ledger)
    → Touches id f before after
updated-Touches id f before after keep h = (
  λ row e. rw h.0 (find_order-update_order id f keep before.orders row e),
  λ other ne. rw h.0 (find_order-others id f keep before.orders other ne),
  h.1,
)

then-Touches :
    (id : Uuid) (f g : OrderRow → OrderRow) (first second third : Db)
    → Touches id f first second
    → Touches id g second third
    → Touches id (λ row. g (f row)) first third
then-Touches id f g first second third h k =
    (λ row e. k.0 (f row) (h.0 row e), λ other ne. k.1 other ne ∙ h.1 other ne, k.2 ∙ h.2)

update_status-Touches :
    (env : Env) (k : ℕ) (id : Uuid) (s : Status) (db : Db)
    → Post (Touches id (with_status s) db) (update_status env k id s db)
update_status-Touches env k id s db =
    Post-map _ (Touches id (with_status s) db) _
      (λ after h. updated-Touches id (with_status s) db after (λ _. refl) h)
      (update_status-Post env k id s db)

-- The status after a fill: FILLED as soon as the stored fill reaches the quantity, and otherwise
-- PARTIAL once anything has been filled.
abbrev pub status_after : ℤ → OrderRow → Status
status_after grown row =
    if ltb_ℤ grown row.quantity
    then (if is_open row.status then partial else row.status)
    else filled

abbrev pub after_fill : Numeric → OrderRow → OrderRow
after_fill qty row = record row {
  filled_quantity = column_add row.filled_quantity qty;
  status = status_after (column_add row.filled_quantity qty) row;
}

not_lt :
    (a b : ℤ)
    → (elim (cmp_ℤ a b) [ Ordering.lt ↦ false | _ ↦ true ]) ≡ (if ltb_ℤ a b then false else true)
unfolding cmp_ℤ
not_lt a b = ground arith

at_least-loaded :
    (u q : ℤ) (n : Numeric)
    → at_least (add (loaded u) n) (loaded q) ≡ (if ltb_ℤ (column_add u n) q then false else true)
at_least-loaded u q n =
    rw
      (
        at_least,
        cmp-HasUnits (add (loaded u) n) (loaded q) (column_add u n) q (add-loaded-HasUnits u n)
            (loaded-HasUnits q),
      )
      (not_lt (column_add u n) q)

-- The order is as it is after the fill, and nothing else has changed.
abbrev pub Fills : OrderRow → Numeric → Db → Db → Type 0
Fills row qty before after =
    (find_order row.id after.orders ≡ some (after_fill qty row))
    × ((other : Uuid)
        → other ≢ row.id
        → find_order other after.orders ≡ find_order other before.orders)
    × (after.ledger ≡ before.ledger)

touched-Fills :
    (row : OrderRow) (qty : Numeric) (f : OrderRow → OrderRow) (before after : Db)
    → find_order row.id before.orders ≡ some row
    → f row ≡ after_fill qty row
    → Touches row.id f before after
    → Fills row qty before after
touched-Fills row qty f before after found e h = (h.0 row found ∙ ap some e, h.1, h.2)

module _ (env : Env) (k : ℕ) (row : OrderRow) (qty : Numeric) (db grown : Db)
    (found : find_order row.id db.orders ≡ some row)
    (t : Touches row.id (with_fill qty) db grown) where
  set-Fills :
      (s : Status)
      → s ≡ status_after (column_add row.filled_quantity qty) row
      → Post (Fills row qty db) (update_status env k row.id s grown)
  set-Fills s e =
      Post-map _ (Fills row qty db) _
        (λ after u.
          touched-Fills row qty (λ r. with_status s (with_fill qty r)) db after found
            (ap (λ (x : Status). with_status x (with_fill qty row)) e)
            (then-Touches row.id (with_fill qty) (with_status s) db grown after t u))
        (update_status-Touches env k row.id s grown)

  kept-Fills :
      row.status ≡ status_after (column_add row.filled_quantity qty) row → Fills row qty db grown
  kept-Fills e =
      touched-Fills row qty (with_fill qty) db grown found
        (ap (λ (x : Status). with_status x (with_fill qty row)) e) t

pub apply_order_fill-Fills :
    (env : Env) (k : ℕ) (row : OrderRow) (qty : Numeric) (db : Db)
    → find_order row.id db.orders ≡ some row
    → Post (Fills row qty db) (apply_order_fill env k (scan_order row) qty db)
unfolding apply_order_fill
apply_order_fill-Fills env k row qty db found =
    Post-bind _ (increment_filled env k row.id qty db) _ (λ grown h.
      let t : Touches row.id (with_fill qty) db grown =
        updated-Touches row.id (with_fill qty) db grown (λ _. refl)
          (Post-at
            (λ (x : Db).
              (x.orders ≡ update_order row.id (with_fill qty) db.orders) × (x.ledger ≡ db.ledger))
            (increment_filled-Post env k row.id qty db) h) in
      elim (Bool-cases (ltb_ℤ (column_add row.filled_quantity qty) row.quantity)) [
        | inl e ↦
            rw (at_least-loaded row.filled_quantity row.quantity qty, e)
              (elim (Bool-cases (is_open row.status)) [
                | inl o ↦
                    rw o (
                      set-Fills env (suc k) row qty db grown found t partial (sym (rw (e, o) refl)))
                | inr o ↦ rw o (
                    Post-ok (Fills row qty db) grown
                      (kept-Fills env k row qty db grown found t (sym (rw (e, o) refl))))
              ])
        | inr e ↦
            rw (at_least-loaded row.filled_quantity row.quantity qty, e)
              (set-Fills env (suc k) row qty db grown found t filled (sym (rw e refl)))
      ])
