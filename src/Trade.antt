-- ===== src/Trade.antt =====
-- Settling a match: internal/trade/service.go with the store of internal/trade/store.go.
pub mod Entries
pub mod Fills
pub mod Outcome
pub mod Settle
pub mod Lifecycle
pub mod Debit
pub mod Once
use Prim.Native.Nat.{Ordering}
use mynance.Base.{
  ℕ, suc, Bool, true, false, List, [], ◌∷◌, Option, none, some, Bytes, ◌=ᵇ◌, ◌==◌, ◌&&◌, ◌||◌,
  if◌then◌else◌, not,
}
use mynance.Book.{Side, buy, sell, other}
use mynance.Numeric.{Numeric, zero_numeric, mul, add, neg, cmp}
use mynance.Shared.{invalid_state_transition, internal, Result, ok, err, ◌>>=◌, ◌>>◌, guard}
use mynance.Store.{
  Uuid, Env, io, new_uuid, begin, commit, exec, Db, Order, Status, open_status, partial, filled,
  cancelled, Trade, LedgerEntry, trade_entry, trade_ref, scope_trade, trade_executed, insert_key,
  insert_outbox, account_id,
}
use mynance.Store.Ledger.{insert_entry}
use mynance.Store.Orders.{get_order, update_status, increment_filled}
use mynance.Order.{is_terminal, Pair, split_symbol}

pub record ExecuteTradeCommand : Type 0 where
  pub symbol : Bytes
  pub buy_order_id : Uuid
  pub sell_order_id : Uuid
  pub price : Numeric
  pub quantity : Numeric
  pub idempotency_key : Bytes

pub record Accounts : Type 0 where
  pub buy_base : Uuid
  pub buy_quote : Uuid
  pub sell_base : Uuid
  pub sell_quote : Uuid

-- The identifier of an entry is set when it is inserted.
abbrev pub new_entry : Uuid → Uuid → Bytes → Numeric → Uuid → LedgerEntry
new_entry user account asset amount trade_id = record {
  id = 0;
  user_id = user;
  account_id = account;
  asset = asset;
  amount = amount;
  entry_type = trade_entry;
  ref_type = trade_ref;
  ref_id = trade_id;
}

-- The buyer gets base for quote, the seller quote for base.
abbrev pub trade_entries :
    Uuid → Uuid → Accounts → Pair → Numeric → Numeric → Uuid → List LedgerEntry
trade_entries buyer seller accounts pair base_amount quote_amount trade_id =
    new_entry buyer accounts.buy_base pair.base base_amount trade_id
    ∷ new_entry buyer accounts.buy_quote pair.quote (neg quote_amount) trade_id
    ∷ new_entry seller accounts.sell_base pair.base (neg base_amount) trade_id
    ∷ new_entry seller accounts.sell_quote pair.quote quote_amount trade_id
    ∷ []

unfoldable pub add_amounts : Numeric → List LedgerEntry → Numeric
add_amounts sum [] = sum
add_amounts sum (e ∷ rest) = add_amounts (add sum e.amount) rest

abbrev pub is_zero : Numeric → Bool
is_zero n = elim (cmp n zero_numeric) [ Ordering.eq ↦ true | _ ↦ false ]

abbrev pub at_least : Numeric → Numeric → Bool
at_least a b = elim (cmp a b) [ Ordering.lt ↦ false | _ ↦ true ]

abbrev pub is_buy : Side → Bool
is_buy buy = true
is_buy sell = false
is_buy (other s) = false

abbrev pub is_sell : Side → Bool
is_sell buy = false
is_sell sell = true
is_sell (other s) = false

abbrev pub new_trade : Uuid → ExecuteTradeCommand → Order → Order → Trade
new_trade id cmd buy_order sell_order = record {
  id = id;
  symbol = cmd.symbol;
  buy_order_id = cmd.buy_order_id;
  sell_order_id = cmd.sell_order_id;
  buy_user_id = buy_order.user_id;
  sell_user_id = sell_order.user_id;
  price = cmd.price;
  quantity = cmd.quantity;
}

-- `Create`; a second trade of an identifier is refused by the primary key.
unfoldable pub trade_known : Uuid → List Trade → Bool
trade_known id [] = false
trade_known id (t ∷ rest) = if t.id == id then true else trade_known id rest

unfoldable pub create_trade : Env → ℕ → Trade → Db → Result Db
create_trade env exec_call t db = do
  io env (exec exec_call)
  guard (not (trade_known t.id db.trades)) internal
  ok (record db { trades = t ∷ db.trades })

-- The loop that numbers and inserts the entries.
unfoldable pub insert_entries : Env → ℕ → List LedgerEntry → Db → Result Db
insert_entries env call [] db = ok db
insert_entries env call (e ∷ rest) db = new_uuid env call >>= λ id.
    insert_entry env call (record e { id = id }) db >>= λ booked.
    insert_entries env (suc call) rest booked

abbrev pub is_open : Status → Bool
is_open open_status = true
is_open partial = false
is_open filled = false
is_open cancelled = false

-- `applyOrderFill`
unfoldable pub apply_order_fill : Env → ℕ → Order → Numeric → Db → Result Db
apply_order_fill env exec_call o qty db = do
  grown ← increment_filled env exec_call o.id qty db
  (if at_least (add o.filled_quantity qty) o.quantity
      then update_status env (suc exec_call) o.id filled grown
      else (if is_open o.status
          then update_status env (suc exec_call) o.id partial grown
          else ok grown))

pub record Settled : Type 0 where
  pub trade : Trade
  pub db : Db

-- The four look-ups of `AccountID`.
unfoldable pub trade_accounts : Env → Pair → Uuid → Uuid → Db → Result Accounts
trade_accounts env pair buyer seller db = do
  buy_base ← account_id env 2 buyer pair.base db
  buy_quote ← account_id env 3 buyer pair.quote db
  sell_base ← account_id env 4 seller pair.base db
  sell_quote ← account_id env 5 seller pair.quote db
  ok (record {
    buy_base = buy_base;
    buy_quote = buy_quote;
    sell_base = sell_base;
    sell_quote = sell_quote;
  })

-- `ExecuteTrade` from the tests of the two orders on.
unfoldable pub settle_orders :
    Env → Db → ExecuteTradeCommand → Pair → Order → Order → Result Settled
settle_orders env keyed cmd pair buy_order sell_order = do
  guard (is_buy buy_order.side) internal
  guard (is_sell sell_order.side) internal
  guard (not (is_terminal buy_order.status || is_terminal sell_order.status))
      invalid_state_transition
  accounts ← trade_accounts env pair buy_order.user_id sell_order.user_id keyed
  trade_id ← new_uuid env 1
  let entries =
      trade_entries buy_order.user_id sell_order.user_id accounts pair cmd.quantity
        (mul cmd.price cmd.quantity) trade_id
  guard (is_zero (add_amounts zero_numeric entries)) internal
  created ← create_trade env 1 (new_trade trade_id cmd buy_order sell_order) keyed
  booked ← insert_entries env 2 entries created
  buy_filled ← apply_order_fill env 6 buy_order cmd.quantity booked
  sell_filled ← apply_order_fill env 8 sell_order cmd.quantity buy_filled
  told ←
      insert_outbox env 6 10 (trade_executed (new_trade trade_id cmd buy_order sell_order))
        sell_filled
  io env commit
  ok (record { trade = new_trade trade_id cmd buy_order sell_order; db = told })

-- `ExecuteTrade`
unfoldable pub execute_trade : Env → Db → ExecuteTradeCommand → Result Settled
execute_trade env db cmd = do
  pair ← split_symbol cmd.symbol
  io env begin
  keyed ← insert_key env 0 0 cmd.idempotency_key scope_trade db
  buy_order ← get_order env 0 cmd.buy_order_id keyed
  sell_order ← get_order env 1 cmd.sell_order_id keyed
  settle_orders env keyed cmd pair buy_order sell_order
