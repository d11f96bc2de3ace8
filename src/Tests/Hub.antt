-- ===== src/Tests/Hub.antt =====
-- The hub of internal/wsfeed/ with two clients, on concrete inputs.
use mynance.Base.{◌≡◌, ◌=ᵇ◌, refl, List, [], ◌∷◌, Option, some, Bytes, bytes, map, length}
use mynance.Tests.{btc_usdt}
use mynance.MarketData.{Notice, matched, cancelled}
use mynance.WsFeed.{
  Hub, new_client, new_hub, register, at_client, read_message, publish, bridge, bridge_all, send,
  on_trade_matched, on_order_cancelled, opened, asked, HubReach, started, stepped, InboundOp,
}
use mynance.WsFeed.Queue.{told_all, queued, bridge_all-Queued}

-- Every message asks for the trades of the symbol.
abbrev unmarshal : Bytes → Option InboundOp
unmarshal msg = some (record { op = bytes "subscribe"; topic = bytes "trades.B-U" })

abbrev two_clients : Hub
two_clients = register (new_client 2) (register (new_client 1) new_hub)

abbrev one_asked : Hub
one_asked = at_client 1 (read_message unmarshal (bytes "{}")) two_clients

one_asked-HubReach : HubReach one_asked
one_asked-HubReach =
    stepped two_clients one_asked
      (stepped (register (new_client 1) new_hub) two_clients
        (stepped new_hub (register (new_client 1) new_hub) started (opened new_hub 1))
        (opened (register (new_client 1) new_hub) 2))
      (asked two_clients unmarshal 1 (bytes "{}"))

-- A trade, and the cancellation of an order of which nothing remained
abbrev notices : List Notice
notices =
    matched (record { symbol = btc_usdt; price = 5; quantity = 3; timestamp = 7 })
    ∷ cancelled (record { symbol = btc_usdt; side = bytes "BUY"; price = 5; remaining = 0 })
    ∷ []

-- Only the trade reaches the client that asked for it.
queue_lengths : map (λ c. length c.out) (bridge_all notices one_asked) ≡ 0 ∷ 1 ∷ []
unfolding bridge_all bridge on_trade_matched on_order_cancelled publish send read_message ◌=ᵇ◌
queue_lengths = refl

bridge_all-Queued_example : bridge_all notices one_asked ≡ map (queued (told_all notices)) one_asked
bridge_all-Queued_example = bridge_all-Queued notices one_asked one_asked-HubReach
