-- ===== src/Settlement.antt =====
-- The settlement of matches in production: internal/engine/settlement.go. The texts of identifiers and
-- numbers are Go's library's, so reading and writing them are a `Formats`. An error is only logged.
pub mod Twice
pub mod Sandbox
pub mod Partner
pub mod Leftover
use mynance.Base.{
  ℕ, Bool, ◌||◌, if◌then◌else◌, List, ◌++◌, Option, none, some, Bytes, bytes, is_empty,
}
use mynance.Numeric.{Numeric}
use mynance.Shared.{Result, ok, err}
use mynance.Store.{Uuid, Env, Db}
use mynance.Book.{Trade}
use mynance.Engine.{Event, trade_matched, order_rested, order_cancelled}
use mynance.Trade.{ExecuteTradeCommand, Settled, execute_trade}

-- `uuid.Parse`, `numeric.Parse` of `strconv.FormatFloat`, and the decimal text of a number.
pub record Formats : Type 0 where
  pub parse_uuid : Bytes → Option Uuid
  pub amount : ℕ → Option Numeric
  pub decimal : ℕ → Bytes

-- `isPartner`
abbrev pub is_partner : Bytes → Bool
is_partner user_id = is_empty user_id

abbrev pub settlement_key : Formats → ℕ → Trade → Bytes
settlement_key f seq t =
    bytes "match-"
    ++ (t.buy_order_id ++ (bytes "-" ++ (t.sell_order_id ++ (bytes "-" ++ f.decimal seq))))

infixl 5 ◌>>=◌
abbrev ◌>>=◌ : {A B : Type 0} → Option A → (A → Option B) → Option B
none >>= k = none
some a >>= k = k a

-- What `settle` asks for, if the texts can be read.
unfoldable pub settle_command : Formats → ℕ → Trade → Option ExecuteTradeCommand
settle_command f seq t = do
  buy_id ← f.parse_uuid t.buy_order_id
  sell_id ← f.parse_uuid t.sell_order_id
  price ← f.amount t.price
  qty ← f.amount t.quantity
  some (record {
    symbol = t.symbol;
    buy_order_id = buy_id;
    sell_order_id = sell_id;
    price = price;
    quantity = qty;
    idempotency_key = settlement_key f seq t;
  })

-- The database after a call of `ExecuteTrade`.
abbrev pub executed : Db → Result Settled → Db
executed db (ok d) = d.db
executed db (err e) = db

-- `settle`
unfoldable pub settle : Formats → Env → Db → ℕ → Trade → Db
settle f env db seq t = elim (settle_command f seq t) [
  | none ↦ db
  | some cmd ↦ executed db (execute_trade env db cmd)
]

-- `OnTradeMatched` of `realSettlementProcessor`
unfoldable pub on_trade_matched : Formats → Env → Db → Event → Db
on_trade_matched f env db (trade_matched seq t) =
    if is_partner t.buy_user_id || is_partner t.sell_user_id then db else settle f env db seq t
on_trade_matched f env db (order_rested o) = db
on_trade_matched f env db (order_cancelled c r) = db
