-- ===== src/Http/Orders.antt =====
-- The handlers of orders and trades: internal/order/handler.go and internal/trade/handler.go.
use mynance.Base.{List, Bytes, bytes, ◌=ᵇ◌, if◌then◌else◌, filter, take, drop, map, ◌==◌}
use mynance.Book.{Side, buy, sell, other}
use mynance.Shared.{Result, ok, ◌>>=◌ as result_bind}
use mynance.Store.{Uuid, Env, Db, Order, OrderRow, Trade, io, query}
use mynance.Store.Orders.{get_order, scan_order}
use mynance.Order.{place_order, cancel_order}
use mynance.Trade.{ExecuteTradeCommand, execute_trade}
use mynance.Http.{
  Parsers, Context, json, Step, go, ◌>>=◌, ◌>>◌, Answer, finish, Body, decoded, parsed, served,
  caller, ensure_owner, Page, parse_pagination,
}

pub record PlaceOrderRequest : Type 0 where
  pub symbol : Bytes
  pub side : Bytes
  pub price : Bytes
  pub quantity : Bytes
  pub idempotency_key : Bytes

-- `Side(req.Side)`
unfoldable pub side_of : Bytes → Side
side_of text =
    if text =ᵇ bytes "BUY" then buy else (if text =ᵇ bytes "SELL" then sell else other text)

-- `PlaceOrder`
unfoldable pub place_order_handler :
    Parsers → Env → List Bytes → Db → Context → Body PlaceOrderRequest → Answer Order
place_order_handler p env markets db ctx body = finish db (do
  req ← decoded body
  user ← caller ctx
  price ← parsed (p.numeric req.price)
  qty ← parsed (p.numeric req.quantity)
  d ← served (
      place_order env markets db db (record {
        user_id = user;
        symbol = req.symbol;
        side = side_of req.side;
        price = price;
        quantity = qty;
        idempotency_key = req.idempotency_key;
      }))
  go (record { reply = json 201 d.order; db = d.db }))

-- `GetOrder`
unfoldable pub get_order_handler : Parsers → Env → Db → Context → Bytes → Answer Order
get_order_handler p env db ctx raw_id = finish db (do
  id ← parsed (p.uuid raw_id)
  o ← served (get_order env 0 id db)
  served (ensure_owner ctx o.user_id)
  go (record { reply = json 200 o; db = db }))

-- `CancelOrder`: the owner is looked up in a query of its own.
unfoldable pub cancel_order_handler : Parsers → Env → Env → Db → Context → Bytes → Answer Order
cancel_order_handler p look_env env db ctx raw_id = finish db (do
  id ← parsed (p.uuid raw_id)
  existing ← served (get_order look_env 0 id db)
  served (ensure_owner ctx existing.user_id)
  d ← served (cancel_order env db db id)
  go (record { reply = json 200 d.order; db = d.db }))

-- `ListByUser` of internal/order/store.go; the rows stand newest first.
unfoldable pub list_orders : Env → Uuid → Page → Db → Result (List Order)
list_orders env user page db = result_bind (io env (query 0)) (λ _. ok (
    map (λ (row : OrderRow). scan_order row)
      (take page.limit
        (drop page.offset (filter (λ (row : OrderRow). row.user_id == user) db.orders)))))

-- `ListByUser` of internal/order/handler.go
unfoldable pub list_orders_handler :
    Parsers → Env → Db → Context → Bytes → Bytes → Bytes → Answer (List Order)
list_orders_handler p env db ctx raw_user limit offset = finish db (do
  user ← parsed (p.uuid raw_user)
  served (ensure_owner ctx user)
  orders ← served (list_orders env user (parse_pagination p limit offset) db)
  go (record { reply = json 200 orders; db = db }))

pub record ExecuteTradeRequest : Type 0 where
  pub symbol : Bytes
  pub buy_order_id : Bytes
  pub sell_order_id : Bytes
  pub price : Bytes
  pub quantity : Bytes
  pub idempotency_key : Bytes

-- What `ExecuteTrade` of internal/trade/handler.go asks for, if its texts can be read.
unfoldable pub trade_request : Parsers → ExecuteTradeRequest → Step ExecuteTradeCommand
trade_request p req = do
  buy_id ← parsed (p.uuid req.buy_order_id)
  sell_id ← parsed (p.uuid req.sell_order_id)
  price ← parsed (p.numeric req.price)
  qty ← parsed (p.numeric req.quantity)
  go (record {
    symbol = req.symbol;
    buy_order_id = buy_id;
    sell_order_id = sell_id;
    price = price;
    quantity = qty;
    idempotency_key = req.idempotency_key;
  })

-- `ExecuteTrade`: the caller is not looked at.
unfoldable pub execute_trade_handler :
    Parsers → Env → Db → Context → Body ExecuteTradeRequest → Answer Trade
execute_trade_handler p env db ctx body = finish db (do
  req ← decoded body
  cmd ← trade_request p req
  d ← served (execute_trade env db cmd)
  go (record { reply = json 201 d.trade; db = d.db }))
