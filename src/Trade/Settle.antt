-- ===== src/Trade/Settle.antt =====
-- What `ExecuteTrade` of internal/trade/service.go does to the books and to the two orders.
use mynance.Base.{ℕ, ◌≡◌, sym, subst, refl, true, false, not, some, Bytes, ◌||◌, arith}
use mynance.Book.{Side, buy, sell, other}
use mynance.Numeric.{mul, column}
use mynance.Shared.{
  ok, ◌>>=◌, guard, guard-ok, Post, Post-at, Post-bind, Post-ok, invalid_state_transition, internal,
}
use mynance.Store.{
  Uuid, OrderRow, Order, Env, Db, Status, io, new_uuid, insert_key, scope_trade, Trade,
  trade_executed,
}
use mynance.Store.Keys.{insert_outbox-Post}
use mynance.Store.Ledger.{total}
use mynance.Store.Orders.{find_order, scan_order, get_order-ok}
use mynance.Order.{Pair, is_terminal, split_symbol}
use mynance.Trade.{
  is_buy, is_sell, ExecuteTradeCommand, Settled, new_trade, create_trade, apply_order_fill,
  execute_trade,
}
use mynance.Trade.Entries.{Booked, insert_entries-Post}
use mynance.Trade.Fills.{Fills, apply_order_fill-Fills}
use mynance.Trade.Outcome.{Settling, buy_there, sell_still_there, settling}
use mynance.Trade.{settle_orders}

insert_key-Post :
    (env : Env) (i k : ℕ) (key : Bytes) (db : Db)
    → Post
        (λ x. (x.orders ≡ db.orders) × (x.ledger ≡ db.ledger))
        (insert_key env i k key scope_trade db)
unfolding insert_key ◌>>=◌ io new_uuid guard Post
insert_key-Post env i k key db = ground arith

create_trade-Post :
    (env : Env) (k : ℕ) (t : Trade) (db : Db)
    → Post (λ x. (x.orders ≡ db.orders) × (x.ledger ≡ db.ledger)) (create_trade env k t db)
unfolding create_trade ◌>>=◌ io guard Post
create_trade-Post env k t db = ground arith

is_buy_iff : (s : Side) → is_buy s ≡ true → s ≡ buy
is_buy_iff buy h = refl
is_buy_iff sell h = cc
is_buy_iff (other s) h = cc

is_sell_iff : (s : Side) → is_sell s ≡ true → s ≡ sell
is_sell_iff buy h = cc
is_sell_iff sell h = refl
is_sell_iff (other s) h = cc

both_live :
    (s t : Status)
    → guard (not (is_terminal s || is_terminal t)) invalid_state_transition ≡ ok tt
    → (is_terminal s ≡ false) × (is_terminal t ≡ false)
both_live s t h = ground (arith, guard-ok _ _ h)

abbrev Same : Db → Db → Type 0
Same db x = (x.orders ≡ db.orders) × (x.ledger ≡ db.ledger)

abbrev BookedFor : ExecuteTradeCommand → Pair → Uuid → Uuid → Db → Db → Type 0
BookedFor cmd pair buyer seller created x =
    Booked buyer seller pair (column cmd.quantity) (column (mul cmd.price cmd.quantity))
      created.ledger x.ledger
    × (x.orders ≡ created.orders)

-- The part after the look-ups, on two orders as they are stored.
module _ (env : Env) (db keyed : Db) (cmd : ExecuteTradeCommand) (pair : Pair)
    (bought sold : OrderRow) (splits : split_symbol cmd.symbol ≡ ok pair)
    (keyed_same : Same db keyed)
    (found_buy : find_order cmd.buy_order_id keyed.orders ≡ some bought)
    (found_sell : find_order cmd.sell_order_id keyed.orders ≡ some sold) where
  written :
      (created booked buy_done sell_done told : Db) (trade : Trade)
      → guard (is_buy bought.side) internal ≡ ok tt
      → guard (is_sell sold.side) internal ≡ ok tt
      → guard (not (is_terminal bought.status || is_terminal sold.status)) invalid_state_transition
        ≡ ok tt
      → Same keyed created
      → BookedFor cmd pair bought.user_id sold.user_id created booked
      → apply_order_fill env 6 (scan_order bought) cmd.quantity booked ≡ ok buy_done
      → apply_order_fill env 8 (scan_order sold) cmd.quantity buy_done ≡ ok sell_done
      → Same sell_done told
      → Settling db cmd (record { trade = trade; db = told })
  written created booked buy_done sell_done told trade sb ss live created_same entries first second
        told_same =
      let side_buy = is_buy_iff bought.side (guard-ok _ internal sb) in
      let side_sell = is_sell_iff sold.side (guard-ok _ internal ss) in
      let live_both = both_live bought.status sold.status live in
      let buy_fill =
        Post-at (Fills bought cmd.quantity booked)
          (apply_order_fill-Fills env 6 bought cmd.quantity booked (
            buy_there db keyed created booked buy_done sell_done told cmd pair bought sold trade
              splits keyed_same found_buy found_sell side_buy side_sell live_both created_same
              entries))
          first in
      let sell_fill =
        Post-at (Fills sold cmd.quantity buy_done)
          (apply_order_fill-Fills env 8 sold cmd.quantity buy_done (
            sell_still_there db keyed created booked buy_done sell_done told cmd pair bought sold
              trade splits keyed_same found_buy found_sell side_buy side_sell live_both created_same
              entries buy_fill))
          second in
      settling db keyed created booked buy_done sell_done told cmd pair bought sold trade splits
        keyed_same found_buy found_sell side_buy side_sell live_both created_same entries buy_fill
        sell_fill told_same

  settle_orders-Post :
      Post
        (Settling db cmd)
        (settle_orders env keyed cmd pair (scan_order bought) (scan_order sold))
  unfolding settle_orders
  settle_orders-Post = Post-bind _ _ _ (λ _ sb. Post-bind _ _ _ (λ _ ss. Post-bind _ _ _ (λ _ live.
      Post-bind _ _ _ (λ accounts _. Post-bind _ _ _ (λ trade_id _. Post-bind _ _ _ (λ _ _.
        Post-bind _ _ _ (λ created c. Post-bind _ _ _ (λ booked b.
          Post-bind _ _ _ (λ buy_done first. Post-bind _ _ _ (λ sell_done second.
            Post-bind _ _ _ (λ told t. Post-bind _ _ _ (λ _ _.
              let trade = new_trade trade_id cmd (scan_order bought) (scan_order sold) in
              Post-ok _ _ (
                written created booked buy_done sell_done told trade sb ss live
                  (Post-at (Same keyed) (create_trade-Post env 1 trade keyed) c)
                  (Post-at (BookedFor cmd pair bought.user_id sold.user_id created)
                    (insert_entries-Post env bought.user_id sold.user_id accounts pair cmd.price
                      cmd.quantity trade_id created)
                    b)
                  first second
                  (Post-at (Same sell_done)
                    (insert_outbox-Post env 6 10 (trade_executed trade) sell_done) t))))))))))))))

execute_trade-Post :
    (env : Env) (db : Db) (cmd : ExecuteTradeCommand)
    → Post (Settling db cmd) (execute_trade env db cmd)
unfolding execute_trade
execute_trade-Post env db cmd = Post-bind _ _ _ (λ pair splits. Post-bind _ _ _ (λ _ _.
    Post-bind _ _ _ (λ keyed k. Post-bind _ _ _ (λ buy_order gb. Post-bind _ _ _ (λ sell_order gs.
      let (bought, found_buy, same_buy) = get_order-ok env 0 cmd.buy_order_id keyed buy_order gb in
      let (sold, found_sell, same_sell) =
        get_order-ok env 1 cmd.sell_order_id keyed sell_order gs in
      subst (λ (x : Order). Post (Settling db cmd) (settle_orders env keyed cmd pair x sell_order))
        (sym same_buy)
        (subst
          (λ (x : Order).
            Post (Settling db cmd) (settle_orders env keyed cmd pair (scan_order bought) x))
          (sym same_sell)
          (settle_orders-Post env db keyed cmd pair bought sold splits
            (Post-at (Same db) (insert_key-Post env 0 0 cmd.idempotency_key db) k) found_buy
            found_sell)))))))

-- `ExecuteTrade` returns only if the symbol splits, the two orders are there, on a BUY and a SELL side,
-- and neither is FILLED or CANCELLED. It then books base to the buyer for quote, and quote to the
-- seller for base, and nothing else; adds the quantity to what is filled of each order and sets its
-- status by that; and leaves every other order as it was.
pub execute_trade-Settling :
    (env : Env) (db : Db) (cmd : ExecuteTradeCommand) (d : Settled)
    → execute_trade env db cmd ≡ ok d
    → Settling db cmd d
execute_trade-Settling env db cmd d e = Post-at (Settling db cmd) (execute_trade-Post env db cmd) e

-- A trade neither makes nor destroys money: in every asset, all entries together sum to what they
-- summed to before.
pub execute_trade-total :
    (env : Env) (db : Db) (cmd : ExecuteTradeCommand) (d : Settled)
    → execute_trade env db cmd ≡ ok d
    → (asset : Bytes) → total asset d.db.ledger ≡ total asset db.ledger
execute_trade-total env db cmd d e = (execute_trade-Settling env db cmd d e).booked.conserved
