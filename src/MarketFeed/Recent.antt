-- ===== src/MarketFeed/Recent.antt =====
-- The trades that internal/marketfeed/client.go keeps of what its connection delivers.
use mynance.Base.{
  ℕ, Bool, ◌≡◌, ◌∙◌, sym, ap, refl, List, [], ◌∷◌, Option, none, some, Bytes, ◌=ᵇ◌, if◌then◌else◌,
  take, ltb, length, Bool-cases, Option-cases, inl, inr, bytes_iff, arith,
}
use mynance.Order.{split}
use mynance.MarketData.Recent.{take_all, take-take-suc, ltb_le}
use mynance.MarketFeed.{
  Json, Message, Client, Stream, depth_stream, trade_stream, ticker_stream, kline_stream, no_stream,
  Target, target_of, TradeSnapshot, trade_snapshot, trades_of, recent, max_recent_trades, on_depth,
  on_trade, on_ticker, on_kline, dispatch_to, dispatch, receive, new_client,
}

-- The trade that a message tells of, if it is one of this symbol.
unfoldable pub told_trade : Json → Bytes → Bytes → Target → Option TradeSnapshot
told_trade j symbol payload t = elim t.stream [
  | trade_stream ↦
      if symbol =ᵇ t.symbol
      then (elim (j.trade payload) [ none ↦ none | some m ↦ some (trade_snapshot j m) ])
      else none
  | depth_stream ↦ none
  | ticker_stream ↦ none
  | kline_stream interval ↦ none
  | no_stream ↦ none
]

unfoldable pub trade_in : Json → Bytes → Bytes → Option TradeSnapshot
trade_in j symbol msg = elim (j.envelope msg) [
  | none ↦ none
  | some e ↦ elim (target_of (split b'@' e.stream)) [
    | none ↦ none
    | some t ↦ told_trade j symbol e.payload t
  ]
]

abbrev pub in_front : Option TradeSnapshot → List TradeSnapshot → List TradeSnapshot
in_front none ts = ts
in_front (some t) ts = t ∷ ts

-- All trades of the symbol in a sequence of messages, the last one first, before those given.
unfoldable pub history : Json → Bytes → List Message → List TradeSnapshot → List TradeSnapshot
history j symbol [] ts = ts
history j symbol (m ∷ rest) ts = history j symbol rest (in_front (trade_in j symbol m.text) ts)

recent-take :
    (t : TradeSnapshot) (all : List TradeSnapshot) → recent t (take 100 all) ≡ take 100 (t ∷ all)
recent-take t all = elim (Bool-cases (ltb 100 (length (t ∷ take 100 all)))) [
  | inl h ↦ rw h (ap (λ ts. t ∷ ts) (take-take-suc 99 all))
  | inr h ↦ rw h (
      sym (take_all 100 (t ∷ take 100 all) (ltb_le 100 (length (t ∷ take 100 all)) h))
      ∙ ap (λ ts. t ∷ ts) (take-take-suc 99 all))
]

on_depth-trades :
    (j : Json) (now : ℕ) (s payload : Bytes) (c : Client) (symbol : Bytes)
    → trades_of (on_depth j now s payload c).client symbol ≡ trades_of c symbol
unfolding on_depth
on_depth-trades j now s payload c symbol = elim (Option-cases (j.depth payload)) [
  | inl e ↦ rw (e, trades_of, on_depth) refl
  | inr (d, e) ↦ rw (e, trades_of, on_depth) refl
]

on_ticker-trades :
    (j : Json) (now : ℕ) (s payload : Bytes) (c : Client) (symbol : Bytes)
    → trades_of (on_ticker j now s payload c).client symbol ≡ trades_of c symbol
unfolding on_ticker
on_ticker-trades j now s payload c symbol = elim (Option-cases (j.object payload)) [
  | inl e ↦ rw (e, trades_of, on_ticker) refl
  | inr (d, e) ↦ rw (e, trades_of, on_ticker) refl
]

on_kline-trades :
    (j : Json) (s interval payload : Bytes) (c : Client) (symbol : Bytes)
    → trades_of (on_kline j s interval payload c).client symbol ≡ trades_of c symbol
unfolding on_kline
on_kline-trades j s interval payload c symbol = ground arith

on_trade-trades :
    (j : Json) (s payload : Bytes) (c : Client) (symbol : Bytes) (all : List TradeSnapshot)
    → trades_of c symbol ≡ take 100 all
    → trades_of (on_trade j s payload c).client symbol
      ≡ take 100 (
          in_front
            (if symbol =ᵇ s
              then (elim (j.trade payload) [ none ↦ none | some m ↦ some (trade_snapshot j m) ])
              else none)
            all)
unfolding on_trade
on_trade-trades j s payload c symbol all h = elim (Option-cases (j.trade payload)) [
  | inl e ↦ elim (Bool-cases (symbol =ᵇ s)) [
    | inl k ↦ rw (e, k, trades_of, on_trade) h
    | inr k ↦ rw (e, k, trades_of, on_trade) h
  ]
  | inr (m, e) ↦ elim (Bool-cases (symbol =ᵇ s)) [
    | inl k ↦
        rw (e, k, trades_of, on_trade)
          (ap (recent (trade_snapshot j m)) (ap (trades_of c) (sym ((bytes_iff symbol s).0 k)) ∙ h)
            ∙ recent-take (trade_snapshot j m) all)
    | inr k ↦ rw (e, k, trades_of, on_trade) h
  ]
]

dispatch_to-trades :
    (j : Json) (now : ℕ) (payload : Bytes) (c : Client) (s : Bytes) (kind : Stream) (symbol : Bytes)
    (all : List TradeSnapshot)
    → trades_of c symbol ≡ take 100 all
    → trades_of (dispatch_to j now payload c (record { symbol = s; stream = kind })).client symbol
      ≡ take 100 (in_front (told_trade j symbol payload (record { symbol = s; stream = kind })) all)
unfolding told_trade
dispatch_to-trades j now payload c s depth_stream symbol all h =
    on_depth-trades j now s payload c symbol ∙ h
dispatch_to-trades j now payload c s trade_stream symbol all h =
    on_trade-trades j s payload c symbol all h
dispatch_to-trades j now payload c s ticker_stream symbol all h =
    on_ticker-trades j now s payload c symbol ∙ h
dispatch_to-trades j now payload c s (kline_stream interval) symbol all h =
    on_kline-trades j s interval payload c symbol ∙ h
dispatch_to-trades j now payload c s no_stream symbol all h = h

dispatch-trades :
    (j : Json) (m : Message) (c : Client) (symbol : Bytes) (all : List TradeSnapshot)
    → trades_of c symbol ≡ take 100 all
    → trades_of (dispatch j m.at m.text c).client symbol
      ≡ take 100 (in_front (trade_in j symbol m.text) all)
unfolding dispatch trade_in
dispatch-trades j m c symbol all h = elim (Option-cases (j.envelope m.text)) [
  | inl e ↦ rw (e, dispatch, trade_in) h
  | inr (env, e) ↦ elim (Option-cases (target_of (split b'@' env.stream))) [
    | inl k ↦ rw (e, k, dispatch, trade_in) h
    | inr (t, k) ↦
        rw (e, k, dispatch, trade_in)
          (dispatch_to-trades j m.at env.payload c t.symbol t.stream symbol all h)
  ]
]

receive-trades :
    (j : Json) (ms : List Message) (c : Client) (symbol : Bytes) (all : List TradeSnapshot)
    → trades_of c symbol ≡ take 100 all
    → trades_of (receive j ms c).client symbol ≡ take 100 (history j symbol ms all)
unfolding receive history
receive-trades j [] c symbol all h = h
receive-trades j (m ∷ rest) c symbol all h =
    receive-trades j rest (dispatch j m.at m.text c).client symbol
      (in_front (trade_in j symbol m.text) all) (dispatch-trades j m c symbol all h)

-- Whatever messages a new client receives, well formed or not, it keeps of each symbol exactly the
-- last hundred trades that they tell of, or all of them if there are fewer, the last one first.
pub receive-history :
    (j : Json) (ms : List Message) (symbols : List Bytes) (enabled : Bool) (symbol : Bytes)
    → trades_of (receive j ms (new_client symbols enabled)).client symbol
      ≡ take max_recent_trades (history j symbol ms [])
receive-history j ms symbols enabled symbol =
    receive-trades j ms (new_client symbols enabled) symbol [] refl
