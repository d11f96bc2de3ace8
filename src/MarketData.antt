-- ===== src/MarketData.antt =====
-- The view of the books that clients read: internal/marketdata/service.go, fed by the engine's events.
-- Prices and quantities are the bit patterns that Book describes; the sum, the difference and the test against
-- the dust limit of two such numbers are parameters. `mu` makes every method one step.
pub mod Recent
use mynance.Base.{
  ℕ, Bool, true, false, List, [], ◌∷◌, Option, none, some, Bytes, bytes, ◌=ᵇ◌, ◌==◌, if◌then◌else◌,
  take, ltb, length,
}

pub record BookLevel : Type 0 where
  pub price : ℕ
  pub quantity : ℕ

pub record OrderBookView : Type 0 where
  pub symbol : Bytes
  pub bids : List BookLevel
  pub asks : List BookLevel

pub record RecentTrade : Type 0 where
  pub price : ℕ
  pub quantity : ℕ
  pub timestamp : ℕ

-- The two maps, as functions; a symbol without an entry has `none`, or no trades.
pub record Service : Type 0 where
  pub books : Bytes → Option OrderBookView
  pub trades : Bytes → List RecentTrade

-- The arithmetic of float64 that the levels use.
pub record Float : Type 0 where
  pub plus : ℕ → ℕ → ℕ
  pub minus : ℕ → ℕ → Option ℕ

abbrev pub max_recent_trades : ℕ
max_recent_trades = 100

abbrev pub new_service : Service
new_service = record { books = λ symbol. none; trades = λ symbol. [] }

abbrev pub empty_book : Bytes → OrderBookView
empty_book symbol = record { symbol = symbol; bids = []; asks = [] }

-- `bookFor`
unfoldable pub book_for : Service → Bytes → OrderBookView
book_for s symbol = elim (s.books symbol) [ none ↦ empty_book symbol | some b ↦ b ]

-- `addLevel` on the levels of a side
unfoldable pub add_level : Float → ℕ → ℕ → List BookLevel → List BookLevel
add_level float price qty [] = record { price = price; quantity = qty } ∷ []
add_level float price qty (l ∷ rest) =
    if l.price == price
    then record l { quantity = float.plus l.quantity qty } ∷ rest
    else l ∷ add_level float price qty rest

-- `deductLevel` on the levels of a side; a difference of at most the dust limit is `none`.
unfoldable pub deduct_level : Float → ℕ → ℕ → List BookLevel → List BookLevel
deduct_level float price qty [] = []
deduct_level float price qty (l ∷ rest) =
    if l.price == price
    then (elim (float.minus l.quantity qty) [
      | none ↦ rest
      | some q ↦ record l { quantity = q } ∷ rest
    ])
    else l ∷ deduct_level float price qty rest

pub record OrderRested : Type 0 where
  pub symbol : Bytes
  pub side : Bytes
  pub price : ℕ
  pub remaining : ℕ

pub record TradeMatched : Type 0 where
  pub symbol : Bytes
  pub price : ℕ
  pub quantity : ℕ
  pub timestamp : ℕ

abbrev pub set_book : Bytes → OrderBookView → Service → Service
set_book symbol b s = record s {
  books = λ other. if other =ᵇ symbol then some b else s.books other;
}

-- Only the side of a BUY is the bids.
abbrev pub on_side : Bytes → (List BookLevel → List BookLevel) → OrderBookView → OrderBookView
on_side side f b =
    if side =ᵇ bytes "BUY" then record b { bids = f b.bids } else record b { asks = f b.asks }

-- `OnOrderRested`
unfoldable pub on_order_rested : Float → OrderRested → Service → Service
on_order_rested float e s =
    set_book e.symbol (on_side e.side (add_level float e.price e.remaining) (book_for s e.symbol)) s

-- `OnOrderCancelled`, whose event has the same fields
unfoldable pub on_order_cancelled : Float → OrderRested → Service → Service
on_order_cancelled float e s =
    if ltb 0 e.remaining
    then set_book e.symbol
        (on_side e.side (deduct_level float e.price e.remaining) (book_for s e.symbol)) s
    else s

abbrev pub recent : TradeMatched → List RecentTrade → List RecentTrade
recent e ts =
    let all = record { price = e.price; quantity = e.quantity; timestamp = e.timestamp } ∷ ts in
    if ltb max_recent_trades (length all) then take max_recent_trades all else all

-- `OnTradeMatched`
unfoldable pub on_trade_matched : Float → TradeMatched → Service → Service
on_trade_matched float e s =
    let b = book_for s e.symbol in
    let deducted = record b {
      bids = deduct_level float e.price e.quantity b.bids;
      asks = deduct_level float e.price e.quantity b.asks;
    } in
    let shown = set_book e.symbol deducted s in
    record shown {
      trades = λ other. if other =ᵇ e.symbol then recent e (s.trades e.symbol) else s.trades other;
    }

-- `GetOrderBook` and `GetRecentTrades`
unfoldable pub get_order_book : Service → Bytes → OrderBookView
get_order_book s symbol = elim (s.books symbol) [ none ↦ empty_book symbol | some b ↦ b ]

abbrev pub get_recent_trades : Service → Bytes → List RecentTrade
get_recent_trades s symbol = s.trades symbol

pub data Notice : Type 0 where
  rested cancelled : OrderRested → Notice
  matched : TradeMatched → Notice

abbrev pub notify : Float → Notice → Service → Service
notify float (rested e) s = on_order_rested float e s
notify float (cancelled e) s = on_order_cancelled float e s
notify float (matched e) s = on_trade_matched float e s

-- The state after a sequence of events, from `NewService`.
unfoldable pub notify_all : Float → List Notice → Service → Service
notify_all float [] s = s
notify_all float (n ∷ rest) s = notify_all float rest (notify float n s)
