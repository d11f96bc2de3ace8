-- ===== src/Settlement/Sandbox.antt =====
-- The settlement of matches in the sandbox: internal/engine/settlement_sandbox.go. A side without an
-- owner is the partner exchange; MARKET stands in for it with an order of its own.
use mynance.Base.{ℕ, ◌&&◌, not, if◌then◌else◌, Option, none, some, Bytes}
use mynance.Book.{Side, buy, sell, other, Trade}
use mynance.Engine.{Event, trade_matched, order_rested, order_cancelled}
use mynance.Numeric.{Numeric, zero_numeric}
use mynance.Shared.{Result, ok, err, internal, ◌>>=◌, ◌>>◌}
use mynance.Store.{Uuid, Env, io, new_uuid, begin, commit, Db, Order, open_status}
use mynance.Store.Orders.{create_order}
use mynance.Settlement.{Formats, is_partner, settle}

-- `numeric.Parse` of `strconv.FormatFloat`
abbrev pub parsed : Option Numeric → Result Numeric
parsed none = err internal
parsed (some n) = ok n

abbrev pub market_order : Uuid → Uuid → Side → Bytes → Numeric → Numeric → Order
market_order id market side symbol price qty = record {
  id = id;
  user_id = market;
  symbol = symbol;
  side = side;
  price = price;
  quantity = qty;
  filled_quantity = zero_numeric;
  status = open_status;
}

pub record Persisted : Type 0 where
  pub id : Uuid
  pub db : Db

-- `persistMarketOrder`
unfoldable pub persist_market_order :
    Formats → Env → Uuid → Side → Bytes → ℕ → ℕ → Db → Result Persisted
persist_market_order f env market side symbol price qty db = do
  id ← new_uuid env 0
  price_n ← parsed (f.amount price)
  qty_n ← parsed (f.amount qty)
  io env begin
  created ← create_order env 0 (market_order id market side symbol price_n qty_n) db
  io env commit
  ok (record { id = id; db = created })

-- The event with an order of MARKET on one of its sides.
abbrev pub with_market : Side → Bytes → Bytes → Trade → Trade
with_market buy id user t = record t { buy_order_id = id; buy_user_id = user }
with_market sell id user t = record t { sell_order_id = id; sell_user_id = user }
with_market (other s) id user t = t

-- A failure to store the order is only logged.
unfoldable pub settle_stored :
    Formats → (Uuid → Bytes) → Uuid → Env → Db → Side → ℕ → Trade → Result Persisted → Db
settle_stored f text market env db side seq t (err e) = db
settle_stored f text market env db side seq t (ok p) =
    settle f env p.db seq (with_market side (text p.id) (text market) t)

-- One side of the match is the partner's: its order is stored in one transaction, and the match is
-- settled in another.
unfoldable pub settle_with_market :
    Formats → (Uuid → Bytes) → Uuid → Env → Env → Db → Side → ℕ → Trade → Db
settle_with_market f text market env settle_env db side seq t =
    settle_stored f text market settle_env db side seq t
      (persist_market_order f env market side t.symbol t.price t.quantity db)

-- `OnTradeMatched` of `sandboxSettlementProcessor`
unfoldable pub sandbox_trade_matched : Formats → (Uuid → Bytes) → Uuid → Env → Env → Db → Event → Db
sandbox_trade_matched f text market env settle_env db (trade_matched seq t) =
    if is_partner t.buy_user_id && is_partner t.sell_user_id
    then db
    else (if not (is_partner t.buy_user_id) && not (is_partner t.sell_user_id)
        then settle f settle_env db seq t
        else (if is_partner t.buy_user_id
            then settle_with_market f text market env settle_env db buy seq t
            else settle_with_market f text market env settle_env db sell seq t))
sandbox_trade_matched f text market env settle_env db (order_rested o) = db
sandbox_trade_matched f text market env settle_env db (order_cancelled c r) = db
