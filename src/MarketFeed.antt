-- ===== src/MarketFeed.antt =====
-- The client of another exchange's streams: internal/marketfeed/client.go. What encoding/json and
-- strconv make of a message, and the clock, in nanoseconds, are parameters; a connection is what it
-- delivered before it ended. The locks make every method one step.
pub mod Symbol
pub mod Recent
pub mod Named
pub mod Backoff
pub mod Views
pub mod Start
pub mod Handler
use mynance.Base.{
  ℕ, zero, suc, ◌+◌, ◌-◌, ◌*◌, ◌%◌, ◌^◌, Bool, true, false, List, [], ◌∷◌, ◌++◌, Option, none, some,
  Bytes, bytes, ◌=ᵇ◌, ◌==◌, ◌&&◌, ◌||◌, if◌then◌else◌, not, ltb, length, take, drop, map, is_empty,
}
use mynance.Base.Int.{ℤ, pos, negsuc, ltb_ℤ}
use mynance.Order.{split, listed}
use mynance.Http.{has_prefix}
use mynance.MarketFeed.Symbol.{Halves, to_binance, from_binance, split_symbol}

-- A price and a quantity
pub record Level : Type 0 where
  pub price : ℕ
  pub qty : ℕ

pub record OrderBookSnapshot : Type 0 where
  pub symbol : Bytes
  pub bids : List Level
  pub asks : List Level
  pub updated_at : ℕ

pub record TickerSnapshot : Type 0 where
  pub symbol : Bytes
  pub base : Bytes
  pub quote : Bytes
  pub open_price : ℕ
  pub high : ℕ
  pub low : ℕ
  pub close : ℕ
  pub volume : ℕ
  pub change_24h : ℕ
  pub change_pct_24h : ℕ
  pub updated_at : ℕ

pub record TradeSnapshot : Type 0 where
  pub price : ℕ
  pub quantity : ℕ
  pub timestamp : ℤ
  pub is_buyer_maker : Bool

pub record KlineSnapshot : Type 0 where
  pub symbol : Bytes
  pub interval : Bytes
  pub open_time : ℤ
  pub close_time : ℤ
  pub open_price : Bytes
  pub high : Bytes
  pub low : Bytes
  pub close : Bytes
  pub volume : Bytes
  pub closed : Bool

-- `strconv.ParseFloat`: a value, also where there is an error.
pub record ParsedFloat : Type 0 where
  pub value : ℕ
  pub is_ok : Bool

pub record TradeMsg : Type 0 where
  pub price : Bytes
  pub quantity : Bytes
  pub trade_time : ℤ
  pub is_buyer_maker : Bool

pub record DepthMsg : Type 0 where
  pub bids : List (List Bytes)
  pub asks : List (List Bytes)

pub record Envelope : Type 0 where
  pub stream : Bytes
  pub payload : Bytes

-- `json.Unmarshal` into each of the types used: `none` is an error, and where the code ignores it, the
-- function gives the value that is left.
pub record Json : Type 0 where
  pub envelope : Bytes → Option Envelope
  pub depth : Bytes → Option DepthMsg
  pub trade : Bytes → Option TradeMsg
  pub object : Bytes → Option (Bytes → Option Bytes)
  pub candle : Bytes → Option Bytes
  pub text : Bytes → Option Bytes
  pub int : Bytes → ℤ
  pub bool : Bytes → Bool
  pub float : Bytes → ℕ
  pub parse_float : Bytes → ParsedFloat

-- The maps of `Client`, as functions, and its subscribers, by number.
pub record Client : Type 0 where
  pub symbols : List Bytes
  pub intervals : List Bytes
  pub enabled : Bool
  pub books : Bytes → Option OrderBookSnapshot
  pub tickers : Bytes → Option TickerSnapshot
  pub trades : Bytes → Option (List TradeSnapshot)
  pub kline_handlers : List ℕ
  pub ticker_handlers : List ℕ
  pub trade_handlers : List ℕ

-- `NewClient`
abbrev pub new_client : List Bytes → Bool → Client
new_client symbols enabled = record {
  symbols = symbols;
  intervals = bytes "1m" ∷ bytes "5m" ∷ bytes "15m" ∷ bytes "1h" ∷ bytes "4h" ∷ bytes "1d" ∷ [];
  enabled = enabled;
  books = λ symbol. none;
  tickers = λ symbol. none;
  trades = λ symbol. none;
  kline_handlers = [];
  ticker_handlers = [];
  trade_handlers = [];
}

-- `SubscribeKline`, `SubscribeTicker` and `SubscribeTrade`
abbrev pub subscribe_kline : ℕ → Client → Client
subscribe_kline h c = record c { kline_handlers = c.kline_handlers ++ (h ∷ []) }

abbrev pub subscribe_ticker : ℕ → Client → Client
subscribe_ticker h c = record c { ticker_handlers = c.ticker_handlers ++ (h ∷ []) }

abbrev pub subscribe_trade : ℕ → Client → Client
subscribe_trade h c = record c { trade_handlers = c.trade_handlers ++ (h ∷ []) }

-- A call of a subscriber
pub data Call : Type 0 where
  on_kline_call : ℕ → KlineSnapshot → Call
  on_ticker_call : ℕ → TickerSnapshot → Call
  on_trade_call : ℕ → Bytes → TradeSnapshot → Call

pub record Handled : Type 0 where
  pub client : Client
  pub calls : List Call

abbrev pub unchanged : Client → Handled
unchanged c = record { client = c; calls = [] }

-- The constant of that name
abbrev pub max_recent_trades : ℕ
max_recent_trades = 100

abbrev pub staleness_window : ℕ
staleness_window = 60_000_000_000

-- `parseLevels`; a third part of a level is not looked at.
unfoldable pub parse_levels : Json → List (List Bytes) → List Level
parse_levels j [] = []
parse_levels j ([] ∷ rest) = parse_levels j rest
parse_levels j ((p ∷ []) ∷ rest) = parse_levels j rest
parse_levels j ((p ∷ q ∷ more) ∷ rest) =
    let price = j.parse_float p in
    let qty = j.parse_float q in
    let others = parse_levels j rest in
    if price.is_ok && qty.is_ok
    then record { price = price.value; qty = qty.value } ∷ others
    else others

-- `onDepth`
unfoldable pub on_depth : Json → ℕ → Bytes → Bytes → Client → Handled
on_depth j now symbol payload c = elim (j.depth payload) [
  | none ↦ unchanged c
  | some d ↦
      let snap : OrderBookSnapshot = record {
        symbol = symbol;
        bids = parse_levels j d.bids;
        asks = parse_levels j d.asks;
        updated_at = now;
      } in
      unchanged (record c { books = λ s. if s =ᵇ symbol then some snap else c.books s })
]

abbrev pub trades_of : Client → Bytes → List TradeSnapshot
trades_of c symbol = elim (c.trades symbol) [ none ↦ [] | some list ↦ list ]

-- The newest trade first, and at most so many.
abbrev pub recent : TradeSnapshot → List TradeSnapshot → List TradeSnapshot
recent t list =
    if ltb max_recent_trades (length (t ∷ list))
    then take max_recent_trades (t ∷ list)
    else t ∷ list

abbrev pub trade_snapshot : Json → TradeMsg → TradeSnapshot
trade_snapshot j t = record {
  price = (j.parse_float t.price).value;
  quantity = (j.parse_float t.quantity).value;
  timestamp = t.trade_time;
  is_buyer_maker = t.is_buyer_maker;
}

-- `onTrade`
unfoldable pub on_trade : Json → Bytes → Bytes → Client → Handled
on_trade j symbol payload c = elim (j.trade payload) [
  | none ↦ unchanged c
  | some t ↦ record {
    client = record c {
      trades = λ s.
          if s =ᵇ symbol
          then some (recent (trade_snapshot j t) (trades_of c symbol))
          else c.trades s;
    };
    calls = map (λ (h : ℕ). on_trade_call h symbol (trade_snapshot j t)) c.trade_handlers;
  }
]

-- `tickerFloat`: a number in a text, or a number.
unfoldable pub ticker_float : Json → (Bytes → Option Bytes) → Bytes → ℕ
ticker_float j raw key = elim (raw key) [
  | none ↦ 0
  | some v ↦ elim (j.text v) [ none ↦ j.float v | some s ↦ (j.parse_float s).value ]
]

-- `onTicker`
unfoldable pub on_ticker : Json → ℕ → Bytes → Bytes → Client → Handled
on_ticker j now symbol payload c = elim (j.object payload) [
  | none ↦ unchanged c
  | some raw ↦
      let names = split_symbol symbol in
      let snap : TickerSnapshot = record {
        symbol = symbol;
        base = names.base;
        quote = names.quote;
        open_price = ticker_float j raw (bytes "o");
        high = ticker_float j raw (bytes "h");
        low = ticker_float j raw (bytes "l");
        close = ticker_float j raw (bytes "c");
        volume = ticker_float j raw (bytes "v");
        change_24h = ticker_float j raw (bytes "p");
        change_pct_24h = ticker_float j raw (bytes "P");
        updated_at = now;
      } in
      record {
        client = record c { tickers = λ s. if s =ᵇ symbol then some snap else c.tickers s };
        calls = map (λ (h : ℕ). on_ticker_call h snap) c.ticker_handlers;
      }
]

abbrev pub trim_left : Bytes → Bytes
trim_left [] = []
trim_left (c ∷ cs) = if c == 34 then trim_left cs else c ∷ cs

abbrev pub trim_right : Bytes → Bytes
trim_right [] = []
trim_right (c ∷ cs) =
    let rest = trim_right cs in if (c == 34) && is_empty rest then [] else c ∷ rest

-- `strings.Trim` of quotation marks
abbrev pub trim_quotes : Bytes → Bytes
trim_quotes text = trim_right (trim_left text)

-- `klineInt`, `klineStr` and `klineBool`
unfoldable pub kline_int : Json → (Bytes → Option Bytes) → Bytes → ℤ
kline_int j raw key = elim (raw key) [ none ↦ pos 0 | some v ↦ j.int v ]

unfoldable pub kline_str : Json → (Bytes → Option Bytes) → Bytes → Bytes
kline_str j raw key = elim (raw key) [
  | none ↦ []
  | some v ↦ elim (j.text v) [ none ↦ trim_quotes v | some s ↦ s ]
]

unfoldable pub kline_bool : Json → (Bytes → Option Bytes) → Bytes → Bool
kline_bool j raw key = elim (raw key) [ none ↦ false | some v ↦ j.bool v ]

-- `onKline`; the candle is the part "k" of the message, and empty if there is none.
unfoldable pub on_kline : Json → Bytes → Bytes → Bytes → Client → Handled
on_kline j symbol interval payload c = elim (j.candle payload) [
  | none ↦ unchanged c
  | some k ↦ if is_empty k then unchanged c else (elim (j.object k) [
    | none ↦ unchanged c
    | some raw ↦
        let snap : KlineSnapshot = record {
          symbol = symbol;
          interval = interval;
          open_time = kline_int j raw (bytes "t");
          close_time = kline_int j raw (bytes "T");
          open_price = kline_str j raw (bytes "o");
          high = kline_str j raw (bytes "h");
          low = kline_str j raw (bytes "l");
          close = kline_str j raw (bytes "c");
          volume = kline_str j raw (bytes "v");
          closed = kline_bool j raw (bytes "x");
        } in
        record { client = c; calls = map (λ (h : ℕ). on_kline_call h snap) c.kline_handlers }
  ])
]

-- What a stream's name asks for.
pub data Stream : Type 0 where
  depth_stream trade_stream ticker_stream : Stream
  kline_stream : Bytes → Stream
  no_stream : Stream

abbrev pub stream_of : Bytes → Stream
stream_of kind =
    if has_prefix (bytes "depth20") kind
    then depth_stream
    else (if kind =ᵇ bytes "trade"
        then trade_stream
        else (if kind =ᵇ bytes "ticker"
            then ticker_stream
            else (if has_prefix (bytes "kline_") kind
                then kline_stream (drop 6 kind)
                else no_stream)))

pub record Target : Type 0 where
  pub symbol : Bytes
  pub stream : Stream

abbrev pub target_of : List Bytes → Option Target
target_of [] = none
target_of (name ∷ []) = none
target_of (name ∷ kind ∷ more) = elim (from_binance name) [
  | none ↦ none
  | some symbol ↦ some (record { symbol = symbol; stream = stream_of kind })
]

-- `dispatch`
abbrev pub dispatch_to : Json → ℕ → Bytes → Client → Target → Handled
dispatch_to j now payload c t = elim t.stream [
  | depth_stream ↦ on_depth j now t.symbol payload c
  | trade_stream ↦ on_trade j t.symbol payload c
  | ticker_stream ↦ on_ticker j now t.symbol payload c
  | kline_stream interval ↦ on_kline j t.symbol interval payload c
  | no_stream ↦ unchanged c
]

unfoldable pub dispatch : Json → ℕ → Bytes → Client → Handled
dispatch j now msg c = elim (j.envelope msg) [
  | none ↦ unchanged c
  | some e ↦ elim (target_of (split b'@' e.stream)) [
    | none ↦ unchanged c
    | some t ↦ dispatch_to j now e.payload c t
  ]
]

-- A connection: the messages that came, each with its time, and whether it ended because the program
-- is stopping. One that cannot be made has no messages.
pub record Message : Type 0 where
  pub at : ℕ
  pub text : Bytes

pub record Connection : Type 0 where
  pub messages : List Message
  pub stopping : Bool

unfoldable pub receive : Json → List Message → Client → Handled
receive j [] c = unchanged c
receive j (m ∷ rest) c =
    let first = dispatch j m.at m.text c in
    let others = receive j rest first.client in
    record { client = others.client; calls = first.calls ++ others.calls }
