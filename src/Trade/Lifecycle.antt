-- ===== src/Trade/Lifecycle.antt =====
-- The life of an order over internal/order/service.go and internal/trade/service.go: OPEN, PARTIAL,
-- FILLED and CANCELLED, and what each says of what is filled.
use mynance.Base.{
  ℕ, ◌≡◌, ◌≢◌, ◌∙◌, sym, ap, subst, false, List, some, some_inj, dec_lt, inl, inr, ◌⊎◌,
  if◌then◌else◌, arith, Bytes,
}
use mynance.Base.Int.{ℤ, pos, ◌≤ℤ◌, ◌<ℤ◌, ltb_ℤ}
use mynance.Numeric.{Numeric, column_add}
use mynance.Shared.{ok}
use mynance.Store.{Uuid, OrderRow, Env, Db, Status, open_status, partial, filled, cancelled}
use mynance.Store.Orders.{find_order, with_status, order_row}
use mynance.Order.{PlaceOrderCommand, Done, place_order, cancel_order, is_terminal}
use mynance.Order.Place.{place_order-Books}
use mynance.Order.Cancel.{cancel_order-Cancelling}
use mynance.Trade.{ExecuteTradeCommand, Settled, execute_trade, is_open}
use mynance.Trade.Fills.{after_fill}
use mynance.Trade.Settle.{execute_trade-Settling}

abbrev FillOf : Status → ℤ → ℤ → Type 0
FillOf open_status f q = f ≡ pos 0
FillOf partial f q = f <ℤ q
FillOf filled f q = q ≤ℤ f
FillOf cancelled f q = Unit

-- An order that is OPEN has nothing filled, a PARTIAL one less than its quantity, a FILLED one at
-- least its quantity.
abbrev pub RowIsValid : OrderRow → Type 0
RowIsValid row = FillOf row.status row.filled_quantity row.quantity

abbrev pub OrdersValid : Db → Type 0
OrdersValid db = (id : Uuid) (row : OrderRow) → find_order id db.orders ≡ some row → RowIsValid row

pub same_or_not : (a b : ℕ) → (a ≡ b) ⊎ (a ≢ b)
same_or_not a b = elim (dec_lt a b) [
  | yes less ↦ inr (λ e. omega arith)
  | no not_less ↦ elim (dec_lt b a) [
    | yes more ↦ inr (λ e. omega arith)
    | no not_more ↦ inl (omega arith)
  ]
]

fill_next :
    (s : Status) (f q : ℤ)
    → is_terminal s ≡ false
    → FillOf (if ltb_ℤ f q then (if is_open s then partial else s) else filled) f q
unfolding is_terminal
fill_next open_status f q h = ground arith
fill_next partial f q h = ground arith
fill_next filled f q h = cc
fill_next cancelled f q h = cc

pub after_fill-RowIsValid :
    (row : OrderRow) (qty : Numeric)
    → is_terminal row.status ≡ false
    → RowIsValid (after_fill qty row)
after_fill-RowIsValid row qty h =
    fill_next row.status (column_add row.filled_quantity qty) row.quantity h

-- A row that is found after an operation is a valid one if those the operation wrote are.
found-RowIsValid :
    (id : Uuid) (row new : OrderRow) (rows : List OrderRow)
    → find_order id rows ≡ some row
    → find_order id rows ≡ some new
    → RowIsValid new
    → RowIsValid row
found-RowIsValid id row new rows h k v = subst RowIsValid (some_inj (sym k ∙ h)) v

-- Placing an order leaves every order valid that was, and the placed one valid.
pub place_order-OrdersValid :
    (env : Env) (markets : List Bytes) (seen db : Db) (cmd : PlaceOrderCommand) (d : Done)
    → place_order env markets seen db cmd ≡ ok d
    → OrdersValid db
    → OrdersValid d.db
place_order-OrdersValid env markets seen db cmd d e v id row h =
    let (r, k, books) = place_order-Books env markets seen db cmd d e in
    elim (same_or_not id d.order.id) [
      | inl same ↦
          found-RowIsValid id row (order_row d.order) d.db.orders h
            (ap (λ (i : Uuid). find_order i d.db.orders) same ∙ books.stored)
            (rw books.opened.0 books.opened.1)
      | inr apart ↦ v id row (sym (books.others id apart) ∙ h)
    ]

-- Cancelling an order leaves every order valid that was, and the cancelled one.
pub cancel_order-OrdersValid :
    (env : Env) (seen db : Db) (id : Uuid) (d : Done)
    → cancel_order env seen db id ≡ ok d
    → OrdersValid db
    → OrdersValid d.db
cancel_order-OrdersValid env seen db id d e v other row h =
    let c = cancel_order-Cancelling env seen db id d e in
    elim (same_or_not other id) [
      | inl same ↦
          found-RowIsValid other row (with_status cancelled c.row) d.db.orders h
            (ap (λ (i : Uuid). find_order i d.db.orders) same ∙ c.closed) tt
      | inr apart ↦ v other row (sym (c.others other apart) ∙ h)
    ]

-- `ExecuteTrade`, whatever quantity it is given, keeps every order valid that was: OPEN with
-- nothing filled, PARTIAL with less than its quantity filled, FILLED with at least its quantity
-- filled, or CANCELLED.
pub execute_trade-OrdersValid :
    (env : Env) (db : Db) (cmd : ExecuteTradeCommand) (d : Settled)
    → execute_trade env db cmd ≡ ok d
    → OrdersValid db
    → OrdersValid d.db
execute_trade-OrdersValid env db cmd d e v id row h =
    let s = execute_trade-Settling env db cmd d e in
    elim (same_or_not id cmd.buy_order_id) [
      | inl same ↦
          found-RowIsValid id row (after_fill cmd.quantity s.bought) d.db.orders h
            (ap (λ (i : Uuid). find_order i d.db.orders) same ∙ s.buy_filled)
            (after_fill-RowIsValid s.bought cmd.quantity s.live.0)
      | inr not_buy ↦ elim (same_or_not id cmd.sell_order_id) [
        | inl same ↦
            found-RowIsValid id row (after_fill cmd.quantity s.sold) d.db.orders h
              (ap (λ (i : Uuid). find_order i d.db.orders) same ∙ s.sell_filled)
              (after_fill-RowIsValid s.sold cmd.quantity s.live.1)
        | inr not_sell ↦ v id row (sym (s.others id not_buy not_sell) ∙ h)
      ]
    ]
