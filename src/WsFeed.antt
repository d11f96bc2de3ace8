-- ===== src/WsFeed.antt =====
-- The feed of internal/wsfeed/: the hub (hub.go), the clients (client.go) and the bridge from the engine's
-- events to topics (publisher.go). A connection is the texts it delivers and what its writes answer. A hub
-- lists its clients in the order in which Go walks through the map; the mutexes make every method one
-- step.
pub mod Buffer
pub mod Queue
use mynance.Base.{
  ℕ, suc, ◌+◌, Bool, true, false, List, [], ◌∷◌, ◌++◌, Option, none, some, Bytes, bytes, ◌=ᵇ◌, ◌==◌,
  if◌then◌else◌, not, ltb, length, filter, map,
}
use mynance.MarketData.{OrderRested, TradeMatched, Notice, rested, cancelled, matched}

-- A float64 with its sign.
pub data Signed : Type 0 where
  plus minus : ℕ → Signed

pub record TradePayload : Type 0 where
  pub symbol : Bytes
  pub price : ℕ
  pub quantity : ℕ
  pub timestamp : ℕ

pub record BookDeltaPayload : Type 0 where
  pub symbol : Bytes
  pub side : Bytes
  pub price : ℕ
  pub quantity : Signed
  pub kind : Bytes

pub data Payload : Type 0 where
  trade : TradePayload → Payload
  book_delta : BookDeltaPayload → Payload

pub record Envelope : Type 0 where
  pub topic : Bytes
  pub payload : Payload

pub record InboundOp : Type 0 where
  pub op : Bytes
  pub topic : Bytes

-- `id` stands for the pointer; `out` is the channel, the first envelope queued first.
pub record Client : Type 0 where
  pub id : ℕ
  pub topics : Bytes → Bool
  pub out : List Envelope

abbrev pub send_buffer_length : ℕ
send_buffer_length = 256

abbrev pub new_client : ℕ → Client
new_client id = record { id = id; topics = λ topic. false; out = [] }

abbrev pub subscribed : Client → Bytes → Bool
subscribed c topic = c.topics topic

abbrev pub subscribe : Bytes → Client → Client
subscribe topic c = record c { topics = λ t. if t =ᵇ topic then true else c.topics t }

abbrev pub unsubscribe : Bytes → Client → Client
unsubscribe topic c = record c { topics = λ t. if t =ᵇ topic then false else c.topics t }

-- Whether the envelope was queued, and the client after it.
pub record Sending : Type 0 where
  pub is_sent : Bool
  pub client : Client

unfoldable pub send : Client → Envelope → Sending
send c env =
    if ltb (length c.out) send_buffer_length
    then record { is_sent = true; client = record c { out = c.out ++ (env ∷ []) } }
    else record { is_sent = false; client = c }

-- One message of `readLoop`; the parameter is `json.Unmarshal`.
unfoldable pub read_message : (Bytes → Option InboundOp) → Bytes → Client → Client
read_message unmarshal msg c = elim (unmarshal msg) [
  | none ↦ c
  | some op ↦
      if op.op =ᵇ bytes "subscribe"
      then (if op.topic =ᵇ [] then c else subscribe op.topic c)
      else if op.op =ᵇ bytes "unsubscribe"
      then (if op.topic =ᵇ [] then c else unsubscribe op.topic c)
      else c
]

-- A receive of `writeLoop` from the channel: the envelope written, if one was queued.
pub record Writing : Type 0 where
  pub written : Option Envelope
  pub client : Client

unfoldable pub receive_out : Client → Writing
receive_out c = elim c.out [
  | [] ↦ record { written = none; client = c }
  | env ∷ rest ↦ record { written = some env; client = record c { out = rest } }
]

abbrev pub Hub : Type 0
Hub = List Client

abbrev pub new_hub : Hub
new_hub = []

-- Of a map: a client that is there is there once.
abbrev pub unregister : ℕ → Hub → Hub
unregister id hub = filter (λ c. not (c.id == id)) hub

abbrev pub register : Client → Hub → Hub
register c hub = c ∷ unregister c.id hub

pub record Published : Type 0 where
  pub sent : ℕ
  pub hub : Hub

-- What the loop of `Publish` does with a client, before the others.
abbrev dispatch : Envelope → Client → Published → Published
dispatch env c rest =
    if subscribed c env.topic
    then (let s = send c env in
        record { sent = if s.is_sent then suc rest.sent else rest.sent; hub = s.client ∷ rest.hub })
    else record rest { hub = c ∷ rest.hub }

unfoldable pub publish : Envelope → Hub → Published
publish env [] = record { sent = 0; hub = [] }
publish env (c ∷ hub) = dispatch env c (publish env hub)

abbrev pub delta : Bytes → Bytes → ℕ → Signed → Bytes → Envelope
delta symbol side price quantity kind = record {
  topic = bytes "orderbook." ++ symbol;
  payload =
      book_delta
        (record { symbol = symbol; side = side; price = price; quantity = quantity; kind = kind });
}

-- `onTradeMatched`
unfoldable pub on_trade_matched : TradeMatched → Hub → Hub
on_trade_matched e hub =
    let traded =
      publish
        (record {
          topic = bytes "trades." ++ e.symbol;
          payload = trade (record {
            symbol = e.symbol;
            price = e.price;
            quantity = e.quantity;
            timestamp = e.timestamp;
          });
        })
        hub in
    let bought =
      publish (delta e.symbol (bytes "BUY") e.price (minus e.quantity) (bytes "trade"))
        traded.hub in
    let sold =
      publish (delta e.symbol (bytes "SELL") e.price (minus e.quantity) (bytes "trade"))
        bought.hub in
    sold.hub

-- `onOrderRested`
unfoldable pub on_order_rested : OrderRested → Hub → Hub
on_order_rested e hub =
    (publish (delta e.symbol e.side e.price (plus e.remaining) (bytes "rest")) hub).hub

-- `onOrderCancelled`, whose event has the same fields
unfoldable pub on_order_cancelled : OrderRested → Hub → Hub
on_order_cancelled e hub =
    if ltb 0 e.remaining
    then (publish (delta e.symbol e.side e.price (minus e.remaining) (bytes "cancel")) hub).hub
    else hub

-- `EngineBridge.Subscribe`: which handler an event is given to.
unfoldable pub bridge : Notice → Hub → Hub
bridge (rested e) hub = on_order_rested e hub
bridge (cancelled e) hub = on_order_cancelled e hub
bridge (matched e) hub = on_trade_matched e hub

-- Events whose handlers run one after the other
unfoldable pub bridge_all : List Notice → Hub → Hub
bridge_all [] hub = hub
bridge_all (n ∷ ns) hub = bridge_all ns (bridge n hub)

-- The client at a pointer changes.
abbrev pub at_client : ℕ → (Client → Client) → Hub → Hub
at_client id f hub = map (λ c. if c.id == id then f c else c) hub

-- A step of the hub or of one of the goroutines of a client, in any order
pub data HubStep : Hub → Hub → Type 0 where
  opened : (hub : Hub) (id : ℕ) → HubStep hub (register (new_client id) hub)
  closed : (hub : Hub) (id : ℕ) → HubStep hub (unregister id hub)
  asked :
      (hub : Hub) (unmarshal : Bytes → Option InboundOp) (id : ℕ) (msg : Bytes)
      → HubStep hub (at_client id (read_message unmarshal msg) hub)
  wrote : (hub : Hub) (id : ℕ) → HubStep hub (at_client id (λ c. (receive_out c).client) hub)
  published : (hub : Hub) (env : Envelope) → HubStep hub (publish env hub).hub

pub data HubReach : Hub → Type 0 where
  started : HubReach new_hub
  stepped : (before hub : Hub) → HubReach before → HubStep before hub → HubReach hub
