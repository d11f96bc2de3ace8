-- ===== src/Tests/Trades.antt =====
-- The trades of internal/trade/service.go, and the life of orders, on concrete inputs.
use mynance.Base.{◌∷◌, none, ◌⊎◌, some, ◌≡◌, refl, [], bytes, ◌=ᵇ◌, arith}
use mynance.Base.Int.{pos, ◌*ℤ◌, ◌+ℤ◌, neg_ℤ}
use mynance.Book.{buy, sell}
use mynance.Numeric.{
  column, loaded, cmp, cmp_ℤ, mul, add, to_rat, from_rat, round, round_abs, scaled, neg,
  zero_numeric, column_add,
}
use mynance.Shared.{ok, ◌>>=◌, guard}
use mynance.Store.{
  OrderRow, open_status, io, new_uuid, insert_key, key_used, insert_outbox, account_id,
  find_account,
}
use mynance.Store.Ledger.{insert_entry, balance, sum_by_user_asset}
use mynance.Store.Orders.{
  update_row, update_order, create_order, find_order, get_order, update_status, increment_filled,
}
use mynance.Order.{
  Pair, Reserve, PlaceOrderCommand, Done, split_symbol, split, listed, reserve_of, check_order,
  place_tx, place_order, is_terminal,
}
use mynance.Trade.{
  ExecuteTradeCommand, Settled, add_amounts, trade_accounts, trade_known, create_trade,
  insert_entries, apply_order_fill, settle_orders, execute_trade,
}
use mynance.Trade.Debit.{execute_trade-place_order}
use mynance.Order.Place.{reserve_for}
use mynance.Trade.Lifecycle.{OrdersValid}
use mynance.Trade.Outcome.{Settling}
use mynance.Trade.Settle.{execute_trade-Settling}
use mynance.Settlement.{Formats, on_trade_matched}
use mynance.Settlement.Twice.{on_trade_matched-twice}
use mynance.Engine.{Event, trade_matched}
use mynance.Tests.{env, db, btc, usdt, btc_usdt, num}

-- The two orders trade 2 at 20.
abbrev pub match : ExecuteTradeCommand
match = record {
  symbol = btc_usdt;
  buy_order_id = 51;
  sell_order_id = 52;
  price = num (pos 20);
  quantity = num (pos 2);
  idempotency_key = bytes "t";
}

unfoldable pub settled : (d : Settled) × (execute_trade env db match ≡ ok d)
unfolding execute_trade settle_orders ◌>>=◌ guard io new_uuid insert_key key_used insert_outbox
    account_id find_account insert_entry find_order get_order update_status update_row update_order
    increment_filled is_terminal add_amounts trade_accounts trade_known create_trade insert_entries
    apply_order_fill split_symbol split ◌=ᵇ◌ cmp cmp_ℤ mul add to_rat from_rat round round_abs
    scaled column column_add neg loaded zero_numeric ◌*ℤ◌ ◌+ℤ◌ neg_ℤ
settled = (_, refl)

execute_trade-Settling_example : Settling db match settled.0
execute_trade-Settling_example = execute_trade-Settling env db match settled.0 settled.1

pub db-OrdersValid : OrdersValid db
unfolding find_order
db-OrdersValid id row h = ground arith

-- User 1 buys 3 more at 20, and cancels the first order.
abbrev pub bid : PlaceOrderCommand
bid = record {
  user_id = 1;
  symbol = btc_usdt;
  side = buy;
  price = num (pos 20);
  quantity = num (pos 3);
  idempotency_key = bytes "k";
}

unfoldable pub placed : (d : Done) × (place_order env [] db db bid ≡ ok d)
unfolding place_order check_order place_tx ◌>>=◌ guard io new_uuid insert_key key_used insert_outbox
    account_id find_account insert_entry balance sum_by_user_asset create_order find_order
    split_symbol split listed reserve_of ◌=ᵇ◌ cmp cmp_ℤ mul to_rat from_rat round round_abs scaled
    column neg loaded ◌*ℤ◌ ◌+ℤ◌ neg_ℤ
placed = (_, refl)

abbrev pub bid_match : ExecuteTradeCommand
bid_match = record match { buy_order_id = 101 }

pub bid_settled : (d : Settled) × (execute_trade env placed.0.db bid_match ≡ ok d)
unfolding placed execute_trade settle_orders ◌>>=◌ guard io new_uuid insert_key key_used
    insert_outbox account_id find_account insert_entry find_order get_order update_status update_row
    update_order increment_filled is_terminal add_amounts trade_accounts trade_known create_trade
    insert_entries apply_order_fill split_symbol split ◌=ᵇ◌ cmp cmp_ℤ mul add to_rat from_rat round
    round_abs scaled column column_add neg loaded zero_numeric ◌*ℤ◌ ◌+ℤ◌ neg_ℤ
bid_settled = (_, refl)

abbrev pair : Pair
pair = record { base = btc; quote = usdt }

abbrev reserve : Reserve
reserve = record { asset = usdt; amount = mul (num (pos 20)) (num (pos 3)) }

bid_id : bid_match.buy_order_id ≡ placed.0.order.id
unfolding placed
bid_id = refl

bid_pair : split_symbol btc_usdt ≡ ok pair
unfolding split_symbol split
bid_pair = refl

bid_reserve : reserve_for bid ≡ ok reserve
unfolding split_symbol split reserve_of ◌>>=◌
bid_reserve = refl

abbrev seller_row : OrderRow
seller_row = record {
  id = 52;
  user_id = 2;
  symbol = btc_usdt;
  side = sell;
  price = pos 200_000_000_000;
  quantity = pos 20_000_000_000;
  filled_quantity = pos 0;
  status = open_status;
}

seller_there : find_order 52 placed.0.db.orders ≡ some seller_row
unfolding placed find_order
seller_there = refl

execute_trade-place_order_example :
    balance 1 usdt bid_settled.0.db.ledger
    ≡ neg_ℤ (column (mul (num (pos 20)) (num (pos 2))))
      +ℤ (neg_ℤ (column reserve.amount) +ℤ balance 1 usdt db.ledger)
execute_trade-place_order_example =
    execute_trade-place_order env env [] db db bid placed.0 bid_match bid_settled.0 pair reserve
      seller_row placed.1 bid_settled.1 bid_id refl bid_pair (λ h. ground (arith, h)) bid_reserve
      seller_there (λ h. omega arith)

-- Identifiers are one byte, and amounts whole numbers.
abbrev formats : Formats
formats = record {
  parse_uuid = λ text. elim text [ [] ↦ none | c ∷ rest ↦ some c ];
  amount = λ n. some (num (pos n));
  decimal = λ n. n ∷ [];
}

-- The order book's trade of the two orders.
abbrev matched : Event
matched = trade_matched 1 (record {
  buy_order_id = 51 ∷ [];
  sell_order_id = 52 ∷ [];
  buy_user_id = 1 ∷ [];
  sell_user_id = 2 ∷ [];
  symbol = btc_usdt;
  price = 20;
  quantity = 2;
})

on_trade_matched-twice_example :
    (on_trade_matched formats env db matched ≡ db)
    ⊎ (on_trade_matched formats env (on_trade_matched formats env db matched) matched
        ≡ on_trade_matched formats env db matched)
on_trade_matched-twice_example = on_trade_matched-twice formats env env db matched
