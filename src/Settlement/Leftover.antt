-- ===== src/Settlement/Leftover.antt =====
-- What internal/engine/settlement_sandbox.go leaves when the settlement of a match with the partner
-- fails: its order of MARKET has been committed by then.
use mynance.Base.{ℕ, ◌≡◌, refl, some, Bytes}
use mynance.Base.Int.{pos}
use mynance.Book.{Side, Trade}
use mynance.Shared.{Error, ok, err, Post-at}
use mynance.Store.{Uuid, Env, Db, OrderRow, open_status}
use mynance.Store.Orders.{find_order}
use mynance.Trade.{ExecuteTradeCommand, execute_trade}
use mynance.Settlement.{Formats, settle_command, settle}
use mynance.Settlement.Sandbox.{
  Persisted, persist_market_order, with_market, settle_stored, settle_with_market,
}
use mynance.Settlement.Partner.{Stored, persist_market_order-Stored}

-- An order of MARKET that is OPEN with nothing filled.
abbrev pub IsLeftover : Uuid → Uuid → Db → Type 0
IsLeftover market id db =
    (row : OrderRow) × (find_order id db.orders ≡ some row)
    × (row.user_id ≡ market)
    × (row.status ≡ open_status)
    × (row.filled_quantity ≡ pos 0)

settle_refused :
    (f : Formats) (env : Env) (db : Db) (seq : ℕ) (t : Trade) (cmd : ExecuteTradeCommand)
    (e : Error)
    → settle_command f seq t ≡ some cmd
    → execute_trade env db cmd ≡ err e
    → settle f env db seq t ≡ db
unfolding settle
settle_refused f env db seq t cmd e read refused = rw (read, refused, settle) refl

-- If the order of MARKET has been stored and `ExecuteTrade` refuses the match, the database keeps that
-- order, OPEN with nothing filled.
pub settle_with_market-IsLeftover :
    (f : Formats) (text : Uuid → Bytes) (market : Uuid) (env settle_env : Env) (db : Db)
    (side : Side) (seq : ℕ) (t : Trade) (p : Persisted) (cmd : ExecuteTradeCommand) (e : Error)
    → persist_market_order f env market side t.symbol t.price t.quantity db ≡ ok p
    → settle_command f seq (with_market side (text p.id) (text market) t) ≡ some cmd
    → execute_trade settle_env p.db cmd ≡ err e
    → IsLeftover market p.id (settle_with_market f text market env settle_env db side seq t)
unfolding settle_with_market settle_stored
settle_with_market-IsLeftover f text market env settle_env db side seq t p cmd e stored read
      refused =
    let k =
      Post-at (Stored market side db)
        (persist_market_order-Stored f env market side t.symbol t.price t.quantity db) stored in
    rw
      (
        stored,
        settle_refused f settle_env p.db seq (with_market side (text p.id) (text market) t) cmd e
            read refused,
        settle_stored,
      )
      (k.row, k.found, k.owned, k.opened.0, k.opened.1)
