-- ===== src/Tests/Exchange.antt =====
-- Sequences of requests of the exchange on concrete inputs.
use mynance.Base.{◌≡◌, refl, [], some, bytes}
use mynance.Base.Int.{pos}
use mynance.Book.{buy}
use mynance.Store.{OrderRow, scope_order, open_status}
use mynance.Store.Orders.{find_order}
use mynance.Trade.Lifecycle.{OrdersValid}
use mynance.Exchange.{Reach, here, next, placed, traded}
use mynance.Exchange.Moves.{view, requests, Moves, Reach-Moves}
use mynance.Exchange.Life.{Follows, Reach-OrdersValid, Reach-Follows}
use mynance.Exchange.Once.{Takes, orders, Takes-once}
use mynance.Tests.{env, db, btc_usdt}
use mynance.Tests.Trades as Trades

-- User 1 places a second order, which trades with the order of user 2.
abbrev day : Reach db Trades.bid_settled.0.db
day =
    next (next here (placed env [] db Trades.bid Trades.placed.0 Trades.placed.1))
      (traded env Trades.bid_match Trades.bid_settled.0 Trades.bid_settled.1)

Reach-Moves_example : Moves (view db) (requests day) (view Trades.bid_settled.0.db)
Reach-Moves_example = Reach-Moves day

Reach-OrdersValid_example : OrdersValid Trades.bid_settled.0.db
Reach-OrdersValid_example = Reach-OrdersValid day Trades.db-OrdersValid

abbrev first_row : OrderRow
first_row = record {
  id = 51;
  user_id = 1;
  symbol = btc_usdt;
  side = buy;
  price = pos 200_000_000_000;
  quantity = pos 30_000_000_000;
  filled_quantity = pos 0;
  status = open_status;
}

first_there : find_order 51 db.orders ≡ some first_row
unfolding find_order
first_there = refl

Reach-Follows_example :
    (new : OrderRow) × (find_order 51 Trades.bid_settled.0.db.orders ≡ some new)
    × Follows first_row new
Reach-Follows_example = Reach-Follows day 51 first_row first_there

Takes-once_example : ¬ Takes (bytes "k") scope_order Trades.bid_settled.0.db db
Takes-once_example =
    Takes-once (orders env [] db Trades.bid Trades.placed.0 refl Trades.placed.1)
      (next here (traded env Trades.bid_match Trades.bid_settled.0 Trades.bid_settled.1))
