-- ===== src/Engine.antt =====
-- The matching engine: internal/engine/engine.go. A symbol has its own book, its own bounded command
-- channel and one worker, which is the only one to touch the book and the trade counter. What the
-- engine publishes on the event bus (internal/eventbus/events.go) comes back as a list.
pub mod Channel
pub mod Worker
pub mod Published
pub mod Rehydrate
pub mod Crossed
use mynance.Base.{
  ℕ, zero, suc, ◌+◌, Bool, true, false, List, [], ◌∷◌, ◌++◌, Option, none, some, Bytes, ◌=ᵇ◌, ltb,
  if◌then◌else◌, length,
}
use mynance.Base.Int.{ℤ, pos, negsuc}
use mynance.Book.{Side, Order, Trade, OrderBook, is_buy, new_order_book, add_bid, add_ask}
use mynance.Book.Match.{Matched, match}
use mynance.Book.Cancel.{CancelResult, cancel}

pub record CancelInfo : Type 0 where
  pub order_id : Bytes
  pub symbol : Bytes

-- `type CommandKind int`
pub data CommandKind : Type 0 where
  place_order cancel_order : CommandKind
  other_kind : ℕ → CommandKind

-- Both pointers may be nil, whatever the kind.
pub record Command : Type 0 where
  pub kind : CommandKind
  pub order : Option Order
  pub cancel : Option CancelInfo

pub data Event : Type 0 where
  trade_matched : ℕ → Trade → Event
  order_rested : Order → Event
  order_cancelled : CancelInfo → CancelResult → Event

pub data EngineError : Type 0 where
  submit_channel_full unknown_symbol : EngineError

-- The book, the channel with its capacity, and the worker's counter.
pub record Shard : Type 0 where
  pub book : OrderBook
  pub cmd_ch : List Command
  pub capacity : ℕ
  pub seq : ℕ

abbrev pub Shards : Type 0
Shards = List (Bytes × Shard)

pub record Engine : Type 0 where
  pub shards : Shards
  pub started : Bool

unfoldable pub shard_of : Bytes → Shards → Option Shard
shard_of symbol [] = none
shard_of symbol ((key, sh) ∷ rest) = if key =ᵇ symbol then some sh else shard_of symbol rest

unfoldable pub put_shard : Bytes → Shard → Shards → Shards
put_shard symbol sh [] = (symbol, sh) ∷ []
put_shard symbol sh ((key, old) ∷ rest) =
    if key =ᵇ symbol then (key, sh) ∷ rest else (key, old) ∷ put_shard symbol sh rest

-- `bufferSize <= 0` selects 1024.
unfoldable pub buffer_capacity : ℤ → ℕ
buffer_capacity (pos zero) = 1024
buffer_capacity (pos (suc n)) = suc n
buffer_capacity (negsuc n) = 1024

unfoldable pub new_shards : ℕ → Shards → List Bytes → Shards
new_shards capacity shards [] = shards
new_shards capacity shards (symbol ∷ rest) =
    new_shards capacity
      (put_shard symbol
        (record { book = new_order_book symbol; cmd_ch = []; capacity = capacity; seq = 0 }) shards)
      rest

unfoldable pub new_engine : List Bytes → ℤ → Engine
new_engine symbols buffer_size = record {
  shards = new_shards (buffer_capacity buffer_size) [] symbols;
  started = false;
}

-- `LoadOrder`: ignored after the start, and for a symbol that has no shard.
unfoldable pub load_order : Engine → Order → Engine
load_order e o = if e.started then e else elim (shard_of o.symbol e.shards) [
  | none ↦ e
  | some sh ↦ record e {
    shards =
        put_shard o.symbol
          (record sh { book = if is_buy o.side then add_bid sh.book o else add_ask sh.book o })
          e.shards;
  }
]

unfoldable pub start : Engine → Engine
start e = record e { started = true }

symbol_of_order : Option Order → Bytes
symbol_of_order none = []
symbol_of_order (some o) = o.symbol

symbol_of_cancel : Option CancelInfo → Bytes
symbol_of_cancel none = []
symbol_of_cancel (some c) = c.symbol

unfoldable pub command_symbol : Command → Bytes
unfolding symbol_of_order symbol_of_cancel
command_symbol cmd = elim cmd.kind [
  | place_order ↦ symbol_of_order cmd.order
  | cancel_order ↦ symbol_of_cancel cmd.cancel
  | other_kind k ↦ []
]

-- `Submit`: the select sends if the channel has room, and never waits.
unfoldable pub submit : Engine → Command → Engine × Option EngineError
submit e cmd = elim (shard_of (command_symbol cmd) e.shards) [
  | none ↦ (e, some unknown_symbol)
  | some sh ↦
      if ltb (length sh.cmd_ch) sh.capacity
      then (
        record e {
          shards =
              put_shard (command_symbol cmd) (record sh { cmd_ch = sh.cmd_ch ++ cmd ∷ [] })
                e.shards;
        },
        none,
      )
      else (e, some submit_channel_full)
]

-- The loop over the trades: each is published under the next number.
unfoldable pub publish_trades : ℕ → List Trade → List Event
publish_trades seq [] = []
publish_trades seq (t ∷ ts) = trade_matched (seq + 1) t ∷ publish_trades (seq + 1) ts

pub record Handled : Type 0 where
  pub book : OrderBook
  pub seq : ℕ
  pub events : List Event

abbrev pub unhandled : OrderBook → ℕ → Handled
unhandled book seq = record { book = book; seq = seq; events = [] }

module _ (fsub : ℕ → ℕ → ℕ) where
  -- `handlePlace`; `none` is only the matching loop out of fuel.
  unfoldable pub handle_place : OrderBook → ℕ → Option Order → Option Handled
  handle_place book seq none = some (unhandled book seq)
  handle_place book seq (some o) = elim (match fsub book o) [
    | none ↦ none
    | some m ↦ some (record {
      book = m.book;
      seq = seq + length m.trades;
      events =
          publish_trades seq m.trades
          ++ (if ltb 0 m.left then order_rested (record o { remaining = m.left }) ∷ [] else []);
    })
  ]

  unfoldable pub handle_cancel : OrderBook → ℕ → Option CancelInfo → Handled
  handle_cancel book seq none = unhandled book seq
  handle_cancel book seq (some c) = elim (cancel book c.order_id) [
    | none ↦ unhandled book seq
    | some r ↦ record { book = r.1; seq = seq; events = order_cancelled c r.0 ∷ [] }
  ]

  unfoldable pub handle : OrderBook → ℕ → Command → Option Handled
  unfolding handle_place handle_cancel
  handle book seq cmd = elim cmd.kind [
    | place_order ↦ handle_place book seq cmd.order
    | cancel_order ↦ some (handle_cancel book seq cmd.cancel)
    | other_kind k ↦ some (unhandled book seq)
  ]

  work : Engine → Bytes → Shard → List Command → Option (Engine × List Event)
  work e symbol sh [] = some (e, [])
  work e symbol sh (cmd ∷ rest) = elim (handle sh.book sh.seq cmd) [
    | none ↦ none
    | some h ↦ some (
      record e {
        shards =
            put_shard symbol (record sh { book = h.book; cmd_ch = rest; seq = h.seq }) e.shards;
      },
      h.events,
    )
  ]

  -- One round of `runWorker` for a symbol: receive a command, if one is there, and handle it.
  unfoldable pub run_worker : Engine → Bytes → Option (Engine × List Event)
  unfolding work
  run_worker e symbol = elim (shard_of symbol e.shards) [
    | none ↦ some (e, [])
    | some sh ↦ work e symbol sh sh.cmd_ch
  ]
