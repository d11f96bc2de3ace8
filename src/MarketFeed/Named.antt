-- ===== src/MarketFeed/Named.antt =====
-- How internal/marketfeed/client.go reads the names of the streams that it asks for, of symbols in USDT.
use mynance.Base.{
  ℕ, ◌≤◌, Bool, false, List, [], ◌∷◌, ◌++◌, Option, none, some, Bytes, bytes, ◌=ᵇ◌, ◌==◌, ◌||◌,
  if◌then◌else◌, map, take, length, ◌≡◌, ◌≢◌, refl, sym, ap, ap₂, ◌∙◌, arith, All, Bool-cases, inl,
  inr, bytes_iff, ==_iff, append_assoc, length-append, true_not_false,
}
use mynance.Order.{split}
use mynance.Http.{has_prefix}
use mynance.MarketFeed.Symbol.{
  to_lower, to_upper, lower, Plain, take-append, kept_upper, from_binance, split_quote, quotes,
  split_quote-here,
}
use mynance.MarketFeed.{
  Json, Message, Stream, depth_stream, trade_stream, ticker_stream, kline_stream, target_of,
  TradeSnapshot, trade_snapshot, trades_of, receive, new_client, max_recent_trades,
}
use mynance.MarketFeed.Recent.{told_trade, trade_in, in_front, history, receive-history}

-- The streams of a symbol
pub data Kind : Type 0 where
  depths trades tickers : Kind
  candles : Bytes → Kind

abbrev pub kind_name : Kind → Bytes
kind_name depths = bytes "depth20@100ms"
kind_name trades = bytes "trade"
kind_name tickers = bytes "ticker"
kind_name (candles interval) = bytes "kline_" ++ interval

-- The name that the other exchange gives to a stream of a base asset in USDT
abbrev pub stream_name : Bytes → Kind → Bytes
stream_name base kind = to_lower base ++ (bytes "usdt@" ++ kind_name kind)

abbrev pub NoAt : Bytes → Type 0
NoAt text = All (λ (c : ℕ). c ≢ 64) text

abbrev pub KindIsNamed : Kind → Type 0
KindIsNamed depths = Unit
KindIsNamed trades = Unit
KindIsNamed tickers = Unit
KindIsNamed (candles interval) = NoAt interval

split-cons :
    (c : ℕ) (cs p : Bytes) (ps : List Bytes)
    → c ≢ 64
    → split 64 cs ≡ p ∷ ps
    → split 64 (c ∷ cs) ≡ (c ∷ p) ∷ ps
unfolding split
split-cons c cs p ps apart h = elim (Bool-cases (c == 64)) [
  | inl e ↦ absurd (apart ((==_iff c 64).0 e))
  | inr e ↦ rw (e, h) refl
]

split-at : (a b : Bytes) → NoAt a → split 64 (a ++ (64 ∷ b)) ≡ a ∷ split 64 b
unfolding split
split-at [] b h = refl
split-at (c ∷ cs) b h = split-cons c (cs ++ (64 ∷ b)) cs (split 64 b) h.0 (split-at cs b h.1)

split-none : (a : Bytes) → NoAt a → split 64 a ≡ a ∷ []
unfolding split
split-none [] h = refl
split-none (c ∷ cs) h = split-cons c cs cs [] h.0 (split-none cs h.1)

abbrev has_at : Bytes → Bool
has_at [] = false
has_at (c ∷ cs) = (c == 64) || has_at cs

append-NoAt : (a b : Bytes) → has_at a ≡ false → NoAt b → NoAt (a ++ b)
append-NoAt [] b h k = k
append-NoAt (c ∷ cs) b h k =
    (λ e. absurd (ground (arith, h, e)), append-NoAt cs b (ground (arith, h)) k)

lower_no_at : (c : ℕ) → Plain c → lower c ≢ 64
lower_no_at c h e = ground (arith, h, e)

name-NoAt : (base : Bytes) → All Plain base → NoAt (to_lower base ++ bytes "usdt")
unfolding to_lower
name-NoAt [] h = append-NoAt (bytes "usdt") [] refl tt
name-NoAt (c ∷ cs) h = (lower_no_at c h.0, name-NoAt cs h.1)

to_upper-name :
    (base : Bytes)
    → All Plain base
    → to_upper (to_lower base ++ bytes "usdt") ≡ base ++ bytes "USDT"
unfolding to_lower to_upper
to_upper-name [] h = refl
to_upper-name (c ∷ cs) h = ap₂ (λ x xs. x ∷ xs) (kept_upper c h.0).1 (to_upper-name cs h.1)

from_binance-name :
    (base : Bytes)
    → 1 ≤ length base
    → All Plain base
    → from_binance (to_lower base ++ bytes "usdt") ≡ some (base ++ bytes "-USDT")
unfolding from_binance
from_binance-name base long plain =
    ap (split_quote quotes) (to_upper-name base plain) ∙ split_quote-here (bytes "USDT") _ base long

-- What a kind's name is read as
abbrev stream_kind : Kind → Stream
stream_kind depths = depth_stream
stream_kind trades = trade_stream
stream_kind tickers = ticker_stream
stream_kind (candles interval) = kline_stream interval

target-kind :
    (name symbol : Bytes) (k : Kind)
    → KindIsNamed k
    → from_binance name ≡ some symbol
    → target_of (name ∷ split 64 (kind_name k))
      ≡ some (record { symbol = symbol; stream = stream_kind k })
unfolding split has_prefix ◌=ᵇ◌
target-kind name symbol depths h e = rw (e, target_of) refl
target-kind name symbol trades h e = rw (e, target_of) refl
target-kind name symbol tickers h e = rw (e, target_of) refl
target-kind name symbol (candles interval) h e =
    ap (λ parts. target_of (name ∷ parts))
      (split-none (bytes "kline_" ++ interval) (append-NoAt (bytes "kline_") interval refl h))
    ∙ rw (e, target_of) refl

target-name :
    (base : Bytes) (k : Kind)
    → 1 ≤ length base
    → All Plain base
    → KindIsNamed k
    → target_of (split 64 (stream_name base k))
      ≡ some (record { symbol = base ++ bytes "-USDT"; stream = stream_kind k })
target-name base k long plain named =
    ap (λ text. target_of (split 64 text))
      (sym (append_assoc (to_lower base) (bytes "usdt") (64 ∷ kind_name k)))
    ∙ ap target_of (split-at (to_lower base ++ bytes "usdt") (kind_name k) (name-NoAt base plain))
    ∙ target-kind (to_lower base ++ bytes "usdt") (base ++ bytes "-USDT") k named
        (from_binance-name base long plain)

append_cancel : (a b s : Bytes) → a ++ s ≡ b ++ s → a ≡ b
append_cancel a b s e =
    let same : length a ≡ length b =
      omega (arith, length-append a s, length-append b s, ap (λ (x : Bytes). length x) e) in
    sym (take-append a s) ∙ ap₂ (λ n x. take n x) same e ∙ take-append b s

equal-suffix : (a b s : Bytes) → ((a ++ s) =ᵇ (b ++ s)) ≡ (a =ᵇ b)
equal-suffix a b s = elim (Bool-cases (a =ᵇ b)) [
  | inl e ↦ (bytes_iff (a ++ s) (b ++ s)).1 (ap (λ x. x ++ s) ((bytes_iff a b).0 e)) ∙ sym e
  | inr e ↦ elim (Bool-cases ((a ++ s) =ᵇ (b ++ s))) [
    | inr k ↦ k ∙ sym e
    | inl k ↦ absurd (
        let same = (bytes_iff a b).1 (append_cancel a b s ((bytes_iff (a ++ s) (b ++ s)).0 k)) in
        true_not_false (sym same ∙ e))
  ]
]

-- A message, and what the other exchange says in it
pub record Told : Type 0 where
  pub message : Message
  pub base : Bytes
  pub kind : Kind
  pub payload : Bytes

-- It comes on the stream of a base asset of capital letters and digits in USDT.
abbrev pub IsSaid : Json → Told → Type 0
IsSaid j t =
    (1 ≤ length t.base)
    × (All Plain t.base
        × (KindIsNamed t.kind
            × (j.envelope t.message.text
                ≡ some (record { stream = stream_name t.base t.kind; payload = t.payload }))))

-- The trade of a base asset in USDT that it tells, if it comes on that asset's stream of trades
abbrev pub told_of : Json → Bytes → Told → Option TradeSnapshot
told_of j base t = elim t.kind [
  | depths ↦ none
  | trades ↦
      if base =ᵇ t.base
      then (elim (j.trade t.payload) [ none ↦ none | some m ↦ some (trade_snapshot j m) ])
      else none
  | tickers ↦ none
  | candles interval ↦ none
]

-- All of them, the last one first, before those given
abbrev pub told_trades : Json → Bytes → List Told → List TradeSnapshot → List TradeSnapshot
told_trades j base [] ts = ts
told_trades j base (t ∷ rest) ts = told_trades j base rest (in_front (told_of j base t) ts)

trade_in-told :
    (j : Json) (base : Bytes) (t : Told)
    → IsSaid j t
    → trade_in j (base ++ bytes "-USDT") t.message.text ≡ told_of j base t
unfolding trade_in told_trade
trade_in-told j base t h =
    rw (h.1.1.1, target-name t.base t.kind h.0 h.1.0 h.1.1.0, trade_in) (by_kind t.kind)
  where
    by_kind :
        (k : Kind)
        → told_trade j
            (base ++ bytes "-USDT")
            t.payload
            (record { symbol = t.base ++ bytes "-USDT"; stream = stream_kind k })
          ≡ told_of j base (record t { kind = k })
    by_kind depths = refl
    by_kind trades = rw (equal-suffix base t.base (bytes "-USDT"), told_trade) refl
    by_kind tickers = refl
    by_kind (candles interval) = refl

history-told :
    (j : Json) (base : Bytes) (ts : List Told) (all : List TradeSnapshot)
    → All (IsSaid j) ts
    → history j (base ++ bytes "-USDT") (map (λ (t : Told). t.message) ts) all
      ≡ told_trades j base ts all
unfolding history
history-told j base [] all h = refl
history-told j base (t ∷ rest) all h =
    ap
      (λ o. history j (base ++ bytes "-USDT") (map (λ (x : Told). x.message) rest) (in_front o all))
      (trade_in-told j base t h.0)
    ∙ history-told j base rest (in_front (told_of j base t) all) h.1

-- If every message comes on a stream of depths, trades, tickers or candles whose name is that of a base asset
-- of capital letters and digits in USDT, then a new client that has received them keeps of every such symbol
-- exactly the last hundred trades that came on that symbol's own stream of trades, or all of them if there are
-- fewer, the last one first, and nothing of another stream.
pub receive-told :
    (j : Json) (ts : List Told) (symbols : List Bytes) (enabled : Bool) (base : Bytes)
    → All (IsSaid j) ts
    → trades_of
        (receive j (map (λ (t : Told). t.message) ts) (new_client symbols enabled)).client
        (base ++ bytes "-USDT")
      ≡ take max_recent_trades (told_trades j base ts [])
receive-told j ts symbols enabled base said =
    receive-history j (map (λ (t : Told). t.message) ts) symbols enabled (base ++ bytes "-USDT")
    ∙ ap (take max_recent_trades) (history-told j base ts [] said)
