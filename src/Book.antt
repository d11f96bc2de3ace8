-- ===== src/Book.antt =====
-- The order book of one symbol: internal/engine/book.go. A price, a quantity or a remaining
-- quantity is a finite float64 that is not negative, held as its IEEE 754 bit pattern: on those
-- values `<` and `==` are the order and the equality of the patterns. Subtraction is the parameter
-- `fsub`.
pub mod Match
pub mod Cancel
pub mod CancelLaws
pub mod CancelQueues
pub mod Float
pub mod Loop
pub mod Sweep
pub mod Insert
pub mod Valid
pub mod Priority
use mynance.Base.{
  ℕ, Bool, true, false, List, [], ◌∷◌, Option, none, some, Bytes, ltb, ◌==◌, if◌then◌else◌,
}

-- `type Side string`: a text that is neither "BUY" nor "SELL" is `other`.
pub data Side : Type 0 where
  buy sell : Side
  other : Bytes → Side

abbrev pub is_buy : Side → Bool
is_buy buy = true
is_buy sell = false
is_buy (other s) = false

pub record Order : Type 0 where
  pub id : Bytes
  pub user_id : Bytes
  pub symbol : Bytes
  pub side : Side
  pub price : ℕ
  pub quantity : ℕ
  pub remaining : ℕ

pub record Trade : Type 0 where
  pub buy_order_id : Bytes
  pub sell_order_id : Bytes
  pub buy_user_id : Bytes
  pub sell_user_id : Bytes
  pub symbol : Bytes
  pub price : ℕ
  pub quantity : ℕ

pub record PriceLevel : Type 0 where
  pub price : ℕ
  pub orders : List Order

-- `Bids` fall and `Asks` rise in price.
pub record OrderBook : Type 0 where
  pub symbol : Bytes
  pub bids : List PriceLevel
  pub asks : List PriceLevel

unfoldable pub new_order_book : Bytes → OrderBook
new_order_book symbol = record { symbol = symbol; bids = []; asks = [] }

unfoldable pub append_order : List Order → Order → List Order
append_order [] o = o ∷ []
append_order (x ∷ xs) o = x ∷ append_order xs o

-- `PriceLevel.Add`
unfoldable pub add : PriceLevel → Order → PriceLevel
unfolding append_order
add level o = record level { orders = append_order level.orders o }

-- `PriceLevel.Peek`
unfoldable pub peek : PriceLevel → Option Order
peek level = elim level.orders [ [] ↦ none | o ∷ rest ↦ some o ]

-- `PriceLevel.Pop`
unfoldable pub pop : PriceLevel → PriceLevel
pop level = elim level.orders [ [] ↦ level | o ∷ rest ↦ record level { orders = rest } ]

abbrev pub new_level : Order → PriceLevel
new_level o = record { price = o.price; orders = o ∷ [] }

-- The loop of `addBid`: join the level of that price, or stand in front of the first lower one.
unfoldable pub add_bid_level : Order → List PriceLevel → List PriceLevel
add_bid_level o [] = new_level o ∷ []
add_bid_level o (level ∷ rest) =
    if level.price == o.price
    then add level o ∷ rest
    else if ltb level.price o.price
    then new_level o ∷ level ∷ rest
    else level ∷ add_bid_level o rest

-- The loop of `addAsk`.
unfoldable pub add_ask_level : Order → List PriceLevel → List PriceLevel
add_ask_level o [] = new_level o ∷ []
add_ask_level o (level ∷ rest) =
    if level.price == o.price
    then add level o ∷ rest
    else if ltb o.price level.price
    then new_level o ∷ level ∷ rest
    else level ∷ add_ask_level o rest

unfoldable pub add_bid : OrderBook → Order → OrderBook
add_bid book o = record book { bids = add_bid_level o book.bids }

unfoldable pub add_ask : OrderBook → Order → OrderBook
add_ask book o = record book { asks = add_ask_level o book.asks }
