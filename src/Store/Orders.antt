-- ===== src/Store/Orders.antt =====
-- internal/order/store.go: the rows of `orders`, found and updated by their primary key.
use mynance.Base.{
  ℕ, List, [], ◌∷◌, Option, none, some, ◌==◌, if◌then◌else◌, ◌≡◌, refl, Bool-cases, inl, inr,
  Option-cases, arith, ◌≢◌,
}
use mynance.Numeric.{Numeric, column, loaded, column_add}
use mynance.Shared.{not_found, internal, Result, ok, err, ◌>>=◌, ◌>>◌, guard, Post}
use mynance.Store.{Uuid, Env, Db, Order, OrderRow, Status, io, query, exec}

unfoldable pub find_order : Uuid → List OrderRow → Option OrderRow
find_order id [] = none
find_order id (row ∷ rest) = if row.id == id then some row else find_order id rest

unfoldable pub update_order : Uuid → (OrderRow → OrderRow) → List OrderRow → List OrderRow
update_order id f [] = []
update_order id f (row ∷ rest) =
    if row.id == id then f row ∷ update_order id f rest else row ∷ update_order id f rest

abbrev pub order_row : Order → OrderRow
order_row o = record {
  id = o.id;
  user_id = o.user_id;
  symbol = o.symbol;
  side = o.side;
  price = column o.price;
  quantity = column o.quantity;
  filled_quantity = column o.filled_quantity;
  status = o.status;
}

-- `scanOrder`
abbrev pub scan_order : OrderRow → Order
scan_order row = record {
  id = row.id;
  user_id = row.user_id;
  symbol = row.symbol;
  side = row.side;
  price = loaded row.price;
  quantity = loaded row.quantity;
  filled_quantity = loaded row.filled_quantity;
  status = row.status;
}

-- `Create`: a second row of that key is refused by the primary key.
unfoldable pub create_order : Env → ℕ → Order → Db → Result Db
create_order env exec_call o db = do
  io env (exec exec_call)
  elim (find_order o.id db.orders) [
    | some row ↦ err internal
    | none ↦ ok (record db { orders = order_row o ∷ db.orders })
  ]

-- `GetByID` and `GetByIDTx`; the latter also locks the row.
unfoldable pub get_order : Env → ℕ → Uuid → Db → Result Order
get_order env query_call id db = do
  io env (query query_call)
  elim (find_order id db.orders) [ none ↦ err not_found | some row ↦ ok (scan_order row) ]

-- An UPDATE of the row of that key; no row affected is `ErrNotFound`.
unfoldable pub update_row : Uuid → (OrderRow → OrderRow) → Db → Result Db
update_row id f db = elim (find_order id db.orders) [
  | none ↦ err not_found
  | some row ↦ ok (record db { orders = update_order id f db.orders })
]

abbrev pub with_status : Status → OrderRow → OrderRow
with_status s row = record row { status = s }

abbrev pub with_fill : Numeric → OrderRow → OrderRow
with_fill qty row = record row { filled_quantity = column_add row.filled_quantity qty }

-- `UpdateStatus`
unfoldable pub update_status : Env → ℕ → Uuid → Status → Db → Result Db
unfolding update_row
update_status env exec_call id s db = do io env (exec exec_call); update_row id (with_status s) db

-- `IncrementFilled`
unfoldable pub increment_filled : Env → ℕ → Uuid → Numeric → Db → Result Db
unfolding update_row
increment_filled env exec_call id qty db = do
  io env (exec exec_call)
  update_row id (with_fill qty) db

module _ (id : Uuid) (f : OrderRow → OrderRow) (keep : (r : OrderRow) → (f r).id ≡ r.id) where
  -- An update of the row of a key finds that row changed,
  pub find_order-update_order :
      (rows : List OrderRow) (row : OrderRow)
      → find_order id rows ≡ some row
      → find_order id (update_order id f rows) ≡ some (f row)
  unfolding find_order update_order
  find_order-update_order [] row h = cc
  find_order-update_order (r ∷ rest) row h = elim (Bool-cases (r.id == id)) [
    | inl e ↦ ground (arith, e, keep r)
    | inr e ↦ ground (arith, e, find_order-update_order rest row (ground (arith, e)))
  ]

  -- and every other row as it was.
  pub find_order-others :
      (rows : List OrderRow) (other : Uuid)
      → other ≢ id
      → find_order other (update_order id f rows) ≡ find_order other rows
  unfolding find_order update_order
  find_order-others [] other h = refl
  find_order-others (r ∷ rest) other h = ground (arith, keep r, find_order-others rest other h)

pub find_order-id :
    (id : Uuid) (rows : List OrderRow) (row : OrderRow)
    → find_order id rows ≡ some row
    → row.id ≡ id
unfolding find_order
find_order-id id [] row h = cc
find_order-id id (r ∷ rest) row h = ground (arith, find_order-id id rest row)

pub get_order-ok :
    (env : Env) (k : ℕ) (id : Uuid) (db : Db) (o : Order)
    → get_order env k id db ≡ ok o
    → (row : OrderRow) × (find_order id db.orders ≡ some row) × (o ≡ scan_order row)
unfolding get_order ◌>>=◌ io guard
get_order-ok env k id db o h = elim (Option-cases (find_order id db.orders)) [
  | inl e ↦ ground (arith, e)
  | inr (row, e) ↦ (row, e, ground (arith, e))
]

-- An update of a status moves no money and leaves the other tables alone.
pub update_status-Post :
    (env : Env) (k : ℕ) (id : Uuid) (s : Status) (db : Db)
    → Post
        (λ x. (x.orders ≡ update_order id (with_status s) db.orders) × (x.ledger ≡ db.ledger))
        (update_status env k id s db)
unfolding update_status update_row ◌>>=◌ io guard Post
update_status-Post env k id s db = ground arith

pub increment_filled-Post :
    (env : Env) (k : ℕ) (id : Uuid) (qty : Numeric) (db : Db)
    → Post
        (λ x. (x.orders ≡ update_order id (with_fill qty) db.orders) × (x.ledger ≡ db.ledger))
        (increment_filled env k id qty db)
unfolding increment_filled update_row ◌>>=◌ io guard Post
increment_filled-Post env k id qty db = ground arith
