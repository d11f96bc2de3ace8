-- ===== src/Trade/Outcome.antt =====
-- A match that `ExecuteTrade` of internal/trade/service.go has settled, put together from what each of
-- its steps does.
use mynance.Base.{◌≡◌, ◌≢◌, ◌∙◌, sym, ap, ap₂, false, some, some_inj}
use mynance.Book.{buy, sell}
use mynance.Numeric.{mul, column}
use mynance.Shared.{ok}
use mynance.Store.{Uuid, OrderRow, Db, Trade}
use mynance.Store.Orders.{find_order, find_order-id}
use mynance.Order.{Pair, is_terminal, split_symbol}
use mynance.Trade.{ExecuteTradeCommand, Settled}
use mynance.Trade.Entries.{Booked}
use mynance.Trade.Fills.{Fills, after_fill}

-- A settled match: the two orders as they were, and what it did to the books and to them.
pub record Settling (db : Db) (cmd : ExecuteTradeCommand) (d : Settled) : Type 0 where
  pub pair : Pair
  pub bought : OrderRow
  pub sold : OrderRow
  pub splits : split_symbol cmd.symbol ≡ ok pair
  pub buy_found : find_order cmd.buy_order_id db.orders ≡ some bought
  pub sell_found : find_order cmd.sell_order_id db.orders ≡ some sold
  pub sides : (bought.side ≡ buy) × (sold.side ≡ sell)
  pub live : (is_terminal bought.status ≡ false) × (is_terminal sold.status ≡ false)
  pub booked :
      Booked bought.user_id sold.user_id pair
        (column cmd.quantity)
        (column (mul cmd.price cmd.quantity))
        db.ledger
        d.db.ledger
  pub buy_filled : find_order cmd.buy_order_id d.db.orders ≡ some (after_fill cmd.quantity bought)
  pub sell_filled : find_order cmd.sell_order_id d.db.orders ≡ some (after_fill cmd.quantity sold)
  pub others :
      (id : Uuid)
      → id ≢ cmd.buy_order_id
      → id ≢ cmd.sell_order_id
      → find_order id d.db.orders ≡ find_order id db.orders

buy_not_sell : buy ≢ sell
buy_not_sell h = cc

module _ (db keyed created booked buy_done sell_done told : Db) (cmd : ExecuteTradeCommand)
    (pair : Pair) (bought sold : OrderRow) (trade : Trade)
    (splits : split_symbol cmd.symbol ≡ ok pair)
    (keyed_same : (keyed.orders ≡ db.orders) × (keyed.ledger ≡ db.ledger))
    (found_buy : find_order cmd.buy_order_id keyed.orders ≡ some bought)
    (found_sell : find_order cmd.sell_order_id keyed.orders ≡ some sold)
    (side_buy : bought.side ≡ buy) (side_sell : sold.side ≡ sell)
    (live : (is_terminal bought.status ≡ false) × (is_terminal sold.status ≡ false))
    (created_same : (created.orders ≡ keyed.orders) × (created.ledger ≡ keyed.ledger))
    (entries : Booked bought.user_id sold.user_id pair
        (column cmd.quantity)
        (column (mul cmd.price cmd.quantity))
        created.ledger
        booked.ledger
      × (booked.orders ≡ created.orders)) where
  orders_before : booked.orders ≡ db.orders
  orders_before = entries.1 ∙ created_same.0 ∙ keyed_same.0

  buy_id : bought.id ≡ cmd.buy_order_id
  buy_id = find_order-id cmd.buy_order_id keyed.orders bought found_buy

  sell_id : sold.id ≡ cmd.sell_order_id
  sell_id = find_order-id cmd.sell_order_id keyed.orders sold found_sell

  pub buy_there : find_order bought.id booked.orders ≡ some bought
  buy_there = ap₂ find_order buy_id (entries.1 ∙ created_same.0) ∙ found_buy

  sell_there : find_order sold.id booked.orders ≡ some sold
  sell_there = ap₂ find_order sell_id (entries.1 ∙ created_same.0) ∙ found_sell

  -- One order cannot be on both sides.
  apart : sold.id ≢ bought.id
  apart e =
      let same : sold ≡ bought =
        some_inj (sym sell_there ∙ ap (λ (i : Uuid). find_order i booked.orders) e ∙ buy_there) in
      buy_not_sell (sym side_buy ∙ sym (ap (λ (r : OrderRow). r.side) same) ∙ side_sell)

  module _ (first : Fills bought cmd.quantity booked buy_done) where
    pub sell_still_there : find_order sold.id buy_done.orders ≡ some sold
    sell_still_there = first.1 sold.id apart ∙ sell_there

    module _ (second : Fills sold cmd.quantity buy_done sell_done)
        (told_same : (told.orders ≡ sell_done.orders) × (told.ledger ≡ sell_done.ledger)) where
      ledger_after : told.ledger ≡ booked.ledger
      ledger_after = told_same.1 ∙ second.2 ∙ first.2

      pub settling : Settling db cmd (record { trade = trade; db = told })
      settling = record {
        pair = pair;
        bought = bought;
        sold = sold;
        splits = splits;
        buy_found = sym (ap (find_order cmd.buy_order_id) keyed_same.0) ∙ found_buy;
        sell_found = sym (ap (find_order cmd.sell_order_id) keyed_same.0) ∙ found_sell;
        sides = (side_buy, side_sell);
        live = live;
        booked = rw (ledger_after, sym keyed_same.1, sym created_same.1) entries.0;
        buy_filled =
            rw (told_same.0, sym buy_id) (second.1 bought.id (λ e. apart (sym e)) ∙ first.0);
        sell_filled = rw (told_same.0, sym sell_id) second.0;
        others = λ id nb ns. rw (told_same.0) (
            second.1 id (λ e. ns (e ∙ sell_id))
            ∙ first.1 id (λ e. nb (e ∙ buy_id))
            ∙ ap (find_order id) orders_before);
      }
