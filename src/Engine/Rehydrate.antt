-- ===== src/Engine/Rehydrate.antt =====
-- What the engine starts with: `rehydrateEngine` of cmd/server/main.go loads the live orders, the oldest
-- first.
use mynance.Base.{
  ℕ, ◌<◌, ◌≡◌, refl, sym, Bool, true, false, List, [], ◌∷◌, Option, none, some, Bytes, subst, ◌&&◌,
  if◌then◌else◌, All, Bool-cases, Option-cases, inl, inr,
}
use mynance.Base.Int.{ℤ, ◌-ℤ◌}
use mynance.Book.{Order, OrderBook, is_buy, add_bid, add_ask}
use mynance.Book.Insert.{Bids, Asks, add_bid_level-Sorted, add_ask_level-Sorted}
use mynance.Shared.{Result, ok, ◌>>◌, Post-at, Post-bind, Post-ok}
use mynance.Store.{
  Uuid, Env, Db, OrderRow, Status, open_status, partial, filled, cancelled, io, query,
}
use mynance.Order.{listed}
use mynance.Engine.{Engine, Shard, shard_of, put_shard, load_order}
use mynance.Engine.Channel.{every_shard-put_shard}

-- The text of an identifier, the float64 of an amount's text, and `<= 0` of a float64. A float64 is its bit
-- pattern, of which Book orders those that are finite and not negative.
pub record Texts : Type 0 where
  pub uuid_text : Uuid → Bytes
  pub float_of : ℤ → Option ℕ
  pub at_most_zero : ℕ → Bool

abbrev pub is_live : Status → Bool
is_live open_status = true
is_live partial = true
is_live filled = false
is_live cancelled = false

abbrev with_remaining : Texts → OrderRow → ℕ → Option ℕ → Option Order
with_remaining t row price none = none
with_remaining t row price (some remain) =
    if t.at_most_zero remain
    then none
    else some (record {
      id = t.uuid_text row.id;
      user_id = t.uuid_text row.user_id;
      symbol = row.symbol;
      side = row.side;
      price = price;
      quantity = remain;
      remaining = remain;
    })

abbrev with_price : Texts → OrderRow → Option ℕ → Option Order
with_price t row none = none
with_price t row (some price) =
    with_remaining t row price (t.float_of (row.quantity -ℤ row.filled_quantity))

-- The order that is loaded for a row, if one is.
unfoldable pub loaded_order : Texts → List Bytes → OrderRow → Option Order
loaded_order t symbols row =
    if is_live row.status && listed row.symbol symbols
    then with_price t row (t.float_of row.price)
    else none

abbrev pub load_if : Engine → Option Order → Engine
load_if e none = e
load_if e (some o) = load_order e o

-- The rows stand newest first.
unfoldable pub load_rows : Texts → List Bytes → List OrderRow → Engine → Engine
load_rows t symbols [] e = e
load_rows t symbols (row ∷ older) e =
    load_if (load_rows t symbols older e) (loaded_order t symbols row)

unfoldable pub rehydrate_engine : Texts → Env → Db → Engine → List Bytes → Result Engine
rehydrate_engine t env db e symbols = do io env (query 0); ok (load_rows t symbols db.orders e)

-- Both sides of a book are in order, and every order in them has something left.
abbrev pub SidesValid : OrderBook → Type 0
SidesValid book = Bids book.bids × Asks book.asks

abbrev pub AllSides : Engine → Type 0
AllSides e = (symbol : Bytes) (sh : Shard) → shard_of symbol e.shards ≡ some sh → SidesValid sh.book

added-SidesValid :
    (book : OrderBook) (o : Order)
    → 0 < o.remaining
    → SidesValid book
    → SidesValid (if is_buy o.side then add_bid book o else add_ask book o)
unfolding add_bid add_ask
added-SidesValid book o left v = elim (Bool-cases (is_buy o.side)) [
  | inl e ↦ rw e (add_bid_level-Sorted o book.bids left v.0, v.1)
  | inr e ↦ rw e (v.0, add_ask_level-Sorted o book.asks left v.1)
]

pub load_order-put :
    (e : Engine) (o : Order) (sh : Shard)
    → e.started ≡ false
    → shard_of o.symbol e.shards ≡ some sh
    → load_order e o ≡ record e {
      shards =
          put_shard o.symbol
            (record sh { book = if is_buy o.side then add_bid sh.book o else add_ask sh.book o })
            e.shards;
    }
unfolding load_order
load_order-put e o sh s f = simp (s, f) refl

load_order-ignored :
    (e : Engine) (o : Order) → shard_of o.symbol e.shards ≡ none → load_order e o ≡ e
unfolding load_order
load_order-ignored e o n = elim (Bool-cases e.started) [
  | inl s ↦ simp s refl
  | inr s ↦ simp (s, n) refl
]

load_order-started : (e : Engine) (o : Order) → e.started ≡ true → load_order e o ≡ e
unfolding load_order
load_order-started e o s = simp s refl

load_order-AllSides :
    (e : Engine) (o : Order) → 0 < o.remaining → AllSides e → AllSides (load_order e o)
load_order-AllSides e o left v = elim (Bool-cases e.started) [
  | inl s ↦ subst AllSides (sym (load_order-started e o s)) v
  | inr s ↦ elim (Option-cases (shard_of o.symbol e.shards)) [
    | inl n ↦ subst AllSides (sym (load_order-ignored e o n)) v
    | inr (sh, f) ↦ subst AllSides (sym (load_order-put e o sh s f)) (
        every_shard-put_shard (λ x. SidesValid x.book) o.symbol
          (record sh { book = if is_buy o.side then add_bid sh.book o else add_ask sh.book o })
          e.shards (added-SidesValid sh.book o left (v o.symbol sh f)) v)
  ]
]

-- What is loaded has something left.
abbrev Left : Option Order → Type 0
Left none = Unit
Left (some o) = 0 < o.remaining

-- A float64 below the pattern of infinity, and with its sign bit unset
abbrev pub IsFinite : ℕ → Type 0
IsFinite n = n < 9_218_868_437_227_405_312

abbrev pub ReadsFinite : Option ℕ → Type 0
ReadsFinite none = Unit
ReadsFinite (some n) = IsFinite n

-- The price and the unfilled quantity of a row are read as numbers that Book orders.
abbrev pub FiniteRow : Texts → OrderRow → Type 0
FiniteRow t row =
    ReadsFinite (t.float_of row.price)
    × ReadsFinite (t.float_of (row.quantity -ℤ row.filled_quantity))

abbrev pub ComparesZero : Texts → Type 0
ComparesZero t = (n : ℕ) → IsFinite n → t.at_most_zero n ≡ false → 0 < n

loaded_order-Left :
    (t : Texts) (symbols : List Bytes) (row : OrderRow)
    → ComparesZero t
    → FiniteRow t row
    → Left (loaded_order t symbols row)
unfolding loaded_order
loaded_order-Left t symbols row above finite =
    elim (Bool-cases (is_live row.status && listed row.symbol symbols)) [
      | inr e ↦ rw e tt
      | inl e ↦ rw e (elim (Option-cases (t.float_of row.price)) [
        | inl n ↦ rw n tt
        | inr (price, p) ↦
            rw p (elim (Option-cases (t.float_of (row.quantity -ℤ row.filled_quantity))) [
              | inl n ↦ rw n tt
              | inr (remain, r) ↦ rw r (elim (Bool-cases (t.at_most_zero remain)) [
                | inl b ↦ rw b tt
                | inr b ↦ rw b (above remain (subst ReadsFinite r finite.1) b)
              ])
            ])
      ])
    ]

load_if-AllSides : (e : Engine) (o : Option Order) → Left o → AllSides e → AllSides (load_if e o)
load_if-AllSides e none h v = v
load_if-AllSides e (some o) h v = load_order-AllSides e o h v

load_rows-AllSides :
    (t : Texts) (symbols : List Bytes) (rows : List OrderRow) (e : Engine)
    → ComparesZero t
    → All (FiniteRow t) rows
    → AllSides e
    → AllSides (load_rows t symbols rows e)
unfolding load_rows
load_rows-AllSides t symbols [] e above finite v = v
load_rows-AllSides t symbols (row ∷ older) e above finite v =
    load_if-AllSides (load_rows t symbols older e) (loaded_order t symbols row)
      (loaded_order-Left t symbols row above finite.0)
      (load_rows-AllSides t symbols older e above finite.1 v)

-- If the price and the unfilled quantity of every row of the table of orders are read as float64 that are
-- finite and whose sign bit is unset, then after `rehydrateEngine` both sides of every book are in the order
-- of their prices and every order in them has something left, if it was so before. A row of NaN or of a
-- negative price is not covered.
pub rehydrate_engine-AllSides :
    (t : Texts) (env : Env) (db : Db) (e x : Engine) (symbols : List Bytes)
    → ComparesZero t
    → All (FiniteRow t) db.orders
    → AllSides e
    → rehydrate_engine t env db e symbols ≡ ok x
    → AllSides x
unfolding rehydrate_engine
rehydrate_engine-AllSides t env db e x symbols above finite v h =
    Post-at AllSides
      (Post-bind AllSides (io env (query 0)) _
        (λ u k. Post-ok AllSides _ (load_rows-AllSides t symbols db.orders e above finite v)))
      h
