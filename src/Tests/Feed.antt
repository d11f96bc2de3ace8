-- ===== src/Tests/Feed.antt =====
-- The client of internal/marketfeed/ and the bot of internal/partnerfeed/ on concrete inputs.
use mynance.Base.{
  map, Bytes, ℕ, zero, suc, ◌≡◌, refl, true, false, List, [], ◌∷◌, none, some, bytes, drop, take,
  All, arith, ltb, not, ◌==◌, ◌=ᵇ◌, if◌then◌else◌,
}
use mynance.Base.Int.{pos}
use mynance.MarketFeed.{
  Json, Message, Connection, Client, new_client, subscribe_trade, trades_of, max_recent_trades,
  receive,
}
use mynance.MarketFeed.Start.{start}
use mynance.MarketFeed.Backoff.{NoWait, start-hot}
use mynance.MarketFeed.Named.{Told, trades, IsSaid, told_trades, receive-told}
use mynance.MarketFeed.Symbol.{to_lower, Plain}
use mynance.Tests.{btc_usdt}
use mynance.Order.{listed}
use mynance.MarketFeed.{Level}
use mynance.PartnerFeed.{
  bid_side, BookState, side_map, Floats, Answers, wanted_from, nothing_wanted, sync, Ticked,
}
use mynance.PartnerFeed.Mirror.{not_same, kept, filled, sync-filled}

-- Every message is a trade of BTC-USDT at the price 5.
abbrev json : Json
json = record {
  envelope = λ msg. some (record { stream = bytes "btcusdt@trade"; payload = msg });
  depth = λ msg. none;
  trade = λ msg.
      some
        (record { price = bytes "5"; quantity = msg; trade_time = pos 1; is_buyer_maker = true });
  object = λ msg. none;
  candle = λ msg. none;
  text = λ v. none;
  int = λ v. pos 0;
  bool = λ v. false;
  float = λ v. 0;
  parse_float = λ text. record { value = 5; is_ok = true };
}

abbrev client : Client
client = subscribe_trade 1 (new_client (bytes "BTC-USDT" ∷ []) true)

abbrev messages : List Message
messages = record { at = 1; text = bytes "a" } ∷ record { at = 2; text = bytes "b" } ∷ []

abbrev said : List Told
said =
    record {
      message = record { at = 1; text = bytes "a" };
      base = bytes "BTC";
      kind = trades;
      payload = bytes "a";
    }
    ∷ record {
      message = record { at = 2; text = bytes "b" };
      base = bytes "BTC";
      kind = trades;
      payload = bytes "b";
    }
    ∷ []

said-IsSaid : All (IsSaid json) said
unfolding to_lower
said-IsSaid =
    let plain : All Plain (bytes "BTC") = (refl, (refl, (refl, tt))) in
    ((omega arith, (plain, (tt, refl))), ((omega arith, (plain, (tt, refl))), tt))

receive-told_example :
    trades_of
      (receive json
        (map (λ (t : Told). t.message) said)
        (new_client (bytes "BTC-USDT" ∷ []) true)).client
      (bytes "BTC-USDT")
    ≡ take max_recent_trades (told_trades json (bytes "BTC") said [])
receive-told_example = receive-told json said (bytes "BTC-USDT" ∷ []) true (bytes "BTC") said-IsSaid

-- Connections that each deliver both messages and then fail.
abbrev failing : ℕ → List Connection
failing zero = []
failing (suc n) = record { messages = messages; stopping = false } ∷ failing n

start-hot_example : All NoWait (drop 55 (start json (failing 60) client).waits)
start-hot_example = start-hot json (failing 60) client

-- Keys are one byte, and a quantity that is another one has drifted.
abbrev floats : Floats
floats = record {
  level_key = λ price. price ∷ [];
  parse_level_key = λ key. 0;
  positive = λ n. ltb 0 n;
  jittered = λ draw qty. qty;
  over_tenth = λ prev next. not (prev == next);
}

abbrev answers : Answers
answers = record { cancels = λ id. false; places = λ key. true; fresh = λ key. some (bytes "new") }

-- An order at 4, while the partner shows a level at 5.
abbrev at_four : BookState
at_four = record {
  bids = λ symbol key.
      if key =ᵇ 4 ∷ [] then some (record { order_id = bytes "old"; qty = 7 }) else none;
  asks = λ symbol key. none;
}

abbrev shown_levels : List Level
shown_levels = record { price = 5; qty = 3 } ∷ []

unlisted : (a k : Bytes) → listed k (a ∷ []) ≡ false → (a =ᵇ k) ≡ false
unfolding listed
unlisted a k h = ground (arith, h)

walks_cur :
    (k : Bytes) → listed k ((4 ∷ []) ∷ []) ≡ false → side_map at_four btc_usdt bid_side k ≡ none
unfolding listed
walks_cur k h = rw (not_same (4 ∷ []) k (unlisted (4 ∷ []) k h)) refl

walks_want :
    (k : Bytes)
    → listed k ((5 ∷ []) ∷ []) ≡ false
    → wanted_from floats 0 shown_levels nothing_wanted k ≡ none
unfolding listed wanted_from
walks_want k h = rw (not_same (5 ∷ []) k (unlisted (5 ∷ []) k h)) refl

abbrev synced : Ticked
synced = sync floats answers ((4 ∷ []) ∷ []) ((5 ∷ []) ∷ []) at_four btc_usdt bid_side shown_levels

sync-filled_example :
    side_map synced.state btc_usdt bid_side (5 ∷ [])
    ≡ filled (some (bytes "new")) true (wanted_from floats 0 shown_levels nothing_wanted (5 ∷ [])) (
        kept floats
          (wanted_from floats 0 shown_levels nothing_wanted (5 ∷ []))
          (side_map at_four btc_usdt bid_side (5 ∷ [])))
sync-filled_example =
    sync-filled floats answers ((4 ∷ []) ∷ []) ((5 ∷ []) ∷ []) at_four btc_usdt bid_side
      shown_levels (5 ∷ []) walks_cur walks_want
