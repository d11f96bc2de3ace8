-- ===== src/Book/Match.antt =====
-- `Match`, `matchBuy` and `matchSell` of internal/engine/book.go. The two loops differ in the test
-- that ends the sweep and in the roles that a fill names, so they are written once over both.
-- A loop takes fuel, and `none` says that it ran out.
use mynance.Base.{
  ℕ, zero, suc, Bool, List, [], ◌∷◌, ◌++◌, Option, none, some, Bytes, ltb, ◌==◌, if◌then◌else◌,
  length, is_empty,
}
use mynance.Book.{Order, Trade, PriceLevel, OrderBook, is_buy, add_bid, add_ask}

infixl 5 ◌>>=◌
abbrev ◌>>=◌ : {A B : Type 0} → Option A → (A → Option B) → Option B
none >>= f = none
some a >>= f = f a

abbrev pub min : ℕ → ℕ → ℕ
min a b = if ltb a b then a else b

-- A fill as one of the two loops records it: the incoming order, the resting one, price, quantity.
abbrev pub Recorder : Type 0
Recorder = Order → Order → ℕ → ℕ → Trade

-- `matchBuy`: the incoming order buys.
abbrev pub buy_trade : Bytes → Recorder
buy_trade symbol buy sell price qty = record {
  buy_order_id = buy.id;
  sell_order_id = sell.id;
  buy_user_id = buy.user_id;
  sell_user_id = sell.user_id;
  symbol = symbol;
  price = price;
  quantity = qty;
}

-- `matchSell`: the incoming order sells.
abbrev pub sell_trade : Bytes → Recorder
sell_trade symbol sell buy price qty = record {
  buy_order_id = buy.id;
  sell_order_id = sell.id;
  buy_user_id = buy.user_id;
  sell_user_id = sell.user_id;
  symbol = symbol;
  price = price;
  quantity = qty;
}

-- The test before `break`: a limit price that the level does not meet.
abbrev pub buy_stops : ℕ → ℕ → Bool
buy_stops limit level = ltb limit level

abbrev pub sell_stops : ℕ → ℕ → Bool
sell_stops limit level = ltb level limit

-- The state of a loop: the incoming order's remaining quantity, what still rests, the trades.
pub record Filled (A : Type 0) : Type 0 where
  pub left : ℕ
  pub resting : List A
  pub trades : List Trade

abbrev pub prepend : {A : Type 0} → List Trade → Option (Filled A) → Option (Filled A)
prepend ts none = none
prepend ts (some r) = some (record r { trades = ts ++ r.trades })

module _ (fsub : ℕ → ℕ → ℕ) (stops : ℕ → ℕ → Bool) (make : Recorder) where
  -- The inner loop over the orders of one level.
  unfoldable pub fill_level : ℕ → Order → ℕ → ℕ → List Order → Option (Filled Order)
  fill_level zero taker price left orders = none
  fill_level (suc n) taker price left [] = some (record { left = left; resting = []; trades = [] })
  fill_level (suc n) taker price left (maker ∷ rest) =
      let qty : ℕ = min left maker.remaining in
      let left' : ℕ = fsub left qty in
      let maker' : Order = record maker { remaining = fsub maker.remaining qty } in
      let popped = fill_level n taker price left' rest in
      let kept = fill_level n taker price left' (maker' ∷ rest) in
      if ltb 0 left
      then prepend (make taker maker price qty ∷ [])
          (if maker'.remaining == 0 then popped else kept)
      else some (record { left = left; resting = maker ∷ rest; trades = [] })

  -- The outer loop over the levels, best first.
  unfoldable pub match_levels : ℕ → Order → ℕ → List PriceLevel → Option (Filled PriceLevel)
  match_levels zero taker left levels = none
  match_levels (suc n) taker left [] = some (record { left = left; resting = []; trades = [] })
  match_levels (suc n) taker left (best ∷ rest) =
      let stay : Option (Filled PriceLevel) =
        some (record { left = left; resting = best ∷ rest; trades = [] }) in
      let sweep : Option (Filled PriceLevel) = (do
        r ← fill_level (suc (length best.orders)) taker best.price left best.orders
        let dropped = match_levels n taker r.left rest
        let kept = match_levels n taker r.left (record best { orders = r.resting } ∷ rest)
        prepend r.trades (if is_empty r.resting then dropped else kept)) in
      if ltb 0 left then (if stops taker.price best.price then stay else sweep) else stay

-- What `Match` leaves: the book, the incoming order's remaining quantity, the trades.
pub record Matched : Type 0 where
  pub book : OrderBook
  pub left : ℕ
  pub trades : List Trade

abbrev pub with_left : Order → ℕ → Order
with_left o left = record o { remaining = left }

module _ (fsub : ℕ → ℕ → ℕ) where
  unfoldable pub match_buy : OrderBook → Order → Option Matched
  match_buy book buy = do
    r ←
        match_levels fsub buy_stops (buy_trade book.symbol) (suc (length book.asks)) buy
          buy.remaining book.asks
    let swept : OrderBook = record book { asks = r.resting }
    some (record {
      book = if ltb 0 r.left then add_bid swept (with_left buy r.left) else swept;
      left = r.left;
      trades = r.trades;
    })

  unfoldable pub match_sell : OrderBook → Order → Option Matched
  match_sell book sell = do
    r ←
        match_levels fsub sell_stops (sell_trade book.symbol) (suc (length book.bids)) sell
          sell.remaining book.bids
    let swept : OrderBook = record book { bids = r.resting }
    some (record {
      book = if ltb 0 r.left then add_ask swept (with_left sell r.left) else swept;
      left = r.left;
      trades = r.trades;
    })

  unfoldable pub match : OrderBook → Order → Option Matched
  unfolding match_buy match_sell
  match book incoming =
      if is_buy incoming.side then match_buy book incoming else match_sell book incoming
