-- ===== src/MarketFeed/Views.antt =====
-- What internal/marketfeed/client.go answers of its maps, and the streams that it asks for.
use mynance.Base.{
  ℕ, ◌-◌, Bool, List, [], ◌∷◌, ◌++◌, Option, none, some, Bytes, bytes, if◌then◌else◌, ltb, map,
}
use mynance.Order.{listed}
use mynance.MarketFeed.Symbol.{to_binance}
use mynance.MarketFeed.{OrderBookSnapshot, TickerSnapshot, TradeSnapshot, Client, staleness_window}

-- `GetOrderBook`, `GetTicker`, `GetTrades` and `Markets`
unfoldable pub get_order_book : ℕ → Client → Bytes → Option OrderBookSnapshot
get_order_book now c symbol = elim (c.books symbol) [
  | none ↦ none
  | some b ↦ if ltb staleness_window (now - b.updated_at) then none else some b
]

unfoldable pub get_ticker : ℕ → Client → Bytes → Option TickerSnapshot
get_ticker now c symbol = elim (c.tickers symbol) [
  | none ↦ none
  | some t ↦ if ltb staleness_window (now - t.updated_at) then none else some t
]

abbrev pub get_trades : Client → Bytes → Option (List TradeSnapshot)
get_trades c symbol = c.trades symbol

abbrev pub markets_from : Client → List Bytes → List TickerSnapshot
markets_from c [] = []
markets_from c (s ∷ rest) = elim (c.tickers s) [
  | none ↦ markets_from c rest
  | some t ↦ t ∷ markets_from c rest
]

abbrev pub markets : Client → List TickerSnapshot
markets c = markets_from c c.symbols

-- `HasSymbol`
abbrev pub has_symbol : Client → Bytes → Bool
has_symbol c symbol = listed symbol c.symbols

-- `buildURL`, less the fixed start
abbrev pub streams_of : List Bytes → List Bytes → List Bytes
streams_of intervals [] = []
streams_of intervals (s ∷ rest) =
    (to_binance s ++ bytes "@depth20@100ms")
    ∷ (to_binance s ++ bytes "@trade")
    ∷ (to_binance s ++ bytes "@ticker")
    ∷ (map (λ (iv : Bytes). to_binance s ++ (bytes "@kline_" ++ iv)) intervals
        ++ streams_of intervals rest)
