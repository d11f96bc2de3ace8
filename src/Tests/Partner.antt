-- ===== src/Tests/Partner.antt =====
-- The settlement of the sandbox and the exchange as a whole on concrete inputs.
use mynance.Base.{◌+◌, ◌≡◌, refl, true, false, [], ◌∷◌, none, some, bytes, inl, arith}
use mynance.Base.Int.{pos, ◌*ℤ◌}
use mynance.Book.{Side, Trade, buy}
use mynance.Engine.{trade_matched}
use mynance.Numeric.{column, to_rat, round, round_abs, scaled}
use mynance.Shared.{internal, ok, err, ◌>>=◌, guard}
use mynance.Store.{Env, io, new_uuid, OrderRow, open_status}
use mynance.Store.Orders.{create_order, find_order}
use mynance.Order.{split_symbol, split}
use mynance.Trade.{ExecuteTradeCommand, execute_trade}
use mynance.Settlement.{Formats, is_partner, settle_command, settlement_key}
use mynance.Settlement.Sandbox.{
  Persisted, persist_market_order, with_market, settle_with_market, sandbox_trade_matched,
}
use mynance.Settlement.Partner.{Untouched, sandbox_trade_matched-Untouched}
use mynance.Settlement.Leftover.{IsLeftover, settle_with_market-IsLeftover}
use mynance.Tests.{env, db, usdt, btc_usdt}

-- Identifiers are one byte, and amounts whole numbers.
abbrev formats : Formats
formats = record {
  parse_uuid = λ text. elim text [ [] ↦ none | c ∷ rest ↦ some c ];
  amount = λ n. some (record { valid = true; int = some (pos n); exp = pos 0 });
  decimal = λ n. n ∷ [];
}

-- The partner buys from the order of user 2.
abbrev match : Trade
match = record {
  buy_order_id = bytes "p";
  sell_order_id = 52 ∷ [];
  buy_user_id = [];
  sell_user_id = 2 ∷ [];
  symbol = btc_usdt;
  price = 20;
  quantity = 2;
}

abbrev seller_row : OrderRow
seller_row = record {
  id = 52;
  user_id = 2;
  symbol = btc_usdt;
  side = Side.sell;
  price = pos 200_000_000_000;
  quantity = pos 20_000_000_000;
  filled_quantity = pos 0;
  status = open_status;
}

seller_there : find_order 52 db.orders ≡ some seller_row
unfolding find_order
seller_there = refl

buys : is_partner match.buy_user_id ≡ true
buys = refl

sells_not : is_partner match.sell_user_id ≡ false
sells_not = refl

sandbox_trade_matched-Untouched_example :
    Untouched 3 usdt db
      (sandbox_trade_matched formats (λ id. id ∷ []) 9 env env db (trade_matched 1 match))
sandbox_trade_matched-Untouched_example =
    sandbox_trade_matched-Untouched formats (λ id. id ∷ []) 9 env env db 1 match 52 seller_row
      (λ id. refl) seller_there 3 usdt (λ h. omega arith) (λ h. omega arith)
      (inl (buys, sells_not, refl))

-- The second transaction does not begin.
abbrev down : Env
down = record { fails = λ call. true; fresh = λ k. 200 + k }

unfoldable persisted :
    (p : Persisted) × (persist_market_order formats env 9 buy btc_usdt 20 2 db ≡ ok p)
unfolding persist_market_order ◌>>=◌ guard io new_uuid create_order find_order column to_rat round
    round_abs scaled ◌*ℤ◌
persisted = (_, refl)

abbrev command : ExecuteTradeCommand
command = record {
  symbol = btc_usdt;
  buy_order_id = 100;
  sell_order_id = 52;
  price = record { valid = true; int = some (pos 20); exp = pos 0 };
  quantity = record { valid = true; int = some (pos 2); exp = pos 0 };
  idempotency_key = settlement_key formats 1 (with_market buy (100 ∷ []) (9 ∷ []) match);
}

read :
    settle_command formats 1 (with_market buy (persisted.0.id ∷ []) (9 ∷ []) match) ≡ some command
unfolding persisted settle_command
read = refl

refused : execute_trade down persisted.0.db command ≡ err internal
unfolding persisted execute_trade ◌>>=◌ guard io split_symbol split
refused = refl

settle_with_market-IsLeftover_example :
    IsLeftover 9 persisted.0.id
      (settle_with_market formats (λ id. id ∷ []) 9 env down db buy 1 match)
settle_with_market-IsLeftover_example =
    settle_with_market-IsLeftover formats (λ id. id ∷ []) 9 env down db buy 1 match persisted.0
      command internal persisted.1 read refused
