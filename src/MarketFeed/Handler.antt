-- ===== src/MarketFeed/Handler.antt =====
-- What clients are shown of the other exchange: internal/marketfeed/handler.go.
use mynance.Base.{ℕ, List, [], Option, none, some, Bytes, if◌then◌else◌}
use mynance.Http.{Reply, plain, json, http_error}
use mynance.MarketFeed.{Client, OrderBookSnapshot, TickerSnapshot, TradeSnapshot}
use mynance.MarketFeed.Views.{get_order_book, get_ticker, get_trades, markets, has_symbol}
use mynance.MarketFeed.Symbol.{to_upper}

-- `Markets`
unfoldable pub markets_handler : Client → Reply (List TickerSnapshot)
markets_handler c = if c.enabled then json 200 (markets c) else plain (http_error 503)

-- The tests that the handlers of a symbol begin with.
unfoldable pub for_symbol : {A : Type 0} → Client → Bytes → Reply A → Reply A
for_symbol c symbol reply =
    if c.enabled
    then (if has_symbol c symbol then reply else plain (http_error 404))
    else plain (http_error 503)

abbrev shown : {A : Type 0} → Option A → Reply A
shown none = plain (http_error 503)
shown (some a) = json 200 a

-- `OrderBook`
unfoldable pub order_book_handler : ℕ → Client → Bytes → Reply OrderBookSnapshot
order_book_handler now c raw =
    let symbol = to_upper raw in for_symbol c symbol (shown (get_order_book now c symbol))

abbrev or_none : Option (List TradeSnapshot) → List TradeSnapshot
or_none none = []
or_none (some ts) = ts

-- `Trades`
unfoldable pub trades_handler : Client → Bytes → Reply (List TradeSnapshot)
trades_handler c raw =
    let symbol = to_upper raw in for_symbol c symbol (json 200 (or_none (get_trades c symbol)))

-- `Ticker`
unfoldable pub ticker_handler : ℕ → Client → Bytes → Reply TickerSnapshot
ticker_handler now c raw =
    let symbol = to_upper raw in for_symbol c symbol (shown (get_ticker now c symbol))
