-- ===== src/MarketData/Recent.antt =====
-- What internal/marketdata/service.go shows after any sequence of events.
use mynance.Base.{
  ℕ, zero, suc, ◌≤◌, ◌≡◌, ◌≢◌, ◌∙◌, sym, ap, refl, false, List, [], ◌∷◌, Bytes, ◌=ᵇ◌, ◌==◌,
  if◌then◌else◌, take, ltb, length, Bool-cases, Option-cases, inl, inr, arith, All, bytes_iff,
}
use mynance.MarketData.{
  Service, RecentTrade, BookLevel, Float, Notice, rested, cancelled, matched, TradeMatched,
  OrderRested, max_recent_trades, new_service, recent, notify_all, on_order_rested,
  on_order_cancelled, on_trade_matched, get_recent_trades, add_level, deduct_level,
}

abbrev trade_of : TradeMatched → RecentTrade
trade_of e = record { price = e.price; quantity = e.quantity; timestamp = e.timestamp }

-- The trades of a symbol in a sequence of events, the last one first, before those given.
unfoldable pub history : Bytes → List Notice → List RecentTrade → List RecentTrade
history symbol [] ts = ts
history symbol (rested e ∷ rest) ts = history symbol rest ts
history symbol (cancelled e ∷ rest) ts = history symbol rest ts
history symbol (matched e ∷ rest) ts =
    history symbol rest (if symbol =ᵇ e.symbol then trade_of e ∷ ts else ts)

pub take_all : {A : Type 0} (n : ℕ) (xs : List A) → length xs ≤ n → take n xs ≡ xs
take_all zero [] h = refl
take_all zero (x ∷ xs) h = ground arith
take_all (suc n) [] h = refl
take_all (suc n) (x ∷ xs) h = ap (λ ys. x ∷ ys) (take_all n xs (omega arith))

pub take-take-suc : {A : Type 0} (n : ℕ) (xs : List A) → take n (take (suc n) xs) ≡ take n xs
take-take-suc zero xs = refl
take-take-suc (suc n) [] = refl
take-take-suc (suc n) (x ∷ xs) = ap (λ ys. x ∷ ys) (take-take-suc n xs)

pub ltb_le : (a b : ℕ) → ltb a b ≡ false → b ≤ a
ltb_le a b h = ground arith

recent-take :
    (e : TradeMatched) (all : List RecentTrade)
    → recent e (take 100 all) ≡ take 100 (trade_of e ∷ all)
recent-take e all = elim (Bool-cases (ltb 100 (length (trade_of e ∷ take 100 all)))) [
  | inl h ↦ rw h (ap (λ ts. trade_of e ∷ ts) (take-take-suc 99 all))
  | inr h ↦ rw h (
      sym (
        take_all 100 (trade_of e ∷ take 100 all)
          (ltb_le 100 (length (trade_of e ∷ take 100 all)) h))
      ∙ ap (λ ts. trade_of e ∷ ts) (take-take-suc 99 all))
]

kept_trades :
    (float : Float) (e : OrderRested) (s : Service) (symbol : Bytes)
    → get_recent_trades (on_order_cancelled float e s) symbol ≡ get_recent_trades s symbol
unfolding on_order_cancelled
kept_trades float e s symbol = elim (Bool-cases (ltb 0 e.remaining)) [
  | inl h ↦ rw h refl
  | inr h ↦ rw h refl
]

matched_trades :
    (float : Float) (e : TradeMatched) (s : Service) (symbol : Bytes) (all : List RecentTrade)
    → get_recent_trades s symbol ≡ take 100 all
    → get_recent_trades (on_trade_matched float e s) symbol
      ≡ take 100 (if symbol =ᵇ e.symbol then trade_of e ∷ all else all)
unfolding on_trade_matched
matched_trades float e s symbol all h = elim (Bool-cases (symbol =ᵇ e.symbol)) [
  | inl k ↦
      rw k (
        ap (recent e) (sym (ap s.trades ((bytes_iff symbol e.symbol).0 k)) ∙ h) ∙ recent-take e all)
  | inr k ↦ rw k h
]

notify_all-trades :
    (float : Float) (ns : List Notice) (s : Service) (symbol : Bytes) (all : List RecentTrade)
    → get_recent_trades s symbol ≡ take 100 all
    → get_recent_trades (notify_all float ns s) symbol ≡ take 100 (history symbol ns all)
unfolding notify_all history on_order_rested
notify_all-trades float [] s symbol all h = h
notify_all-trades float (rested e ∷ rest) s symbol all h =
    notify_all-trades float rest (on_order_rested float e s) symbol all h
notify_all-trades float (cancelled e ∷ rest) s symbol all h =
    notify_all-trades float rest (on_order_cancelled float e s) symbol all
      (kept_trades float e s symbol ∙ h)
notify_all-trades float (matched e ∷ rest) s symbol all h =
    notify_all-trades float rest (on_trade_matched float e s) symbol
      (if symbol =ᵇ e.symbol then trade_of e ∷ all else all) (matched_trades float e s symbol all h)

-- After any sequence of events, `GetRecentTrades` shows the last hundred trades of the symbol, or all
-- of them if there are fewer, the last one first.
pub notify_all-history :
    (float : Float) (ns : List Notice) (symbol : Bytes)
    → get_recent_trades (notify_all float ns new_service) symbol
      ≡ take max_recent_trades (history symbol ns [])
notify_all-history float ns symbol = notify_all-trades float ns new_service symbol [] refl

-- No two levels of a side have the same price.
abbrev pub OnePerPrice : List BookLevel → Type 0
OnePerPrice [] = Unit
OnePerPrice (l ∷ rest) = All (λ (m : BookLevel). m.price ≢ l.price) rest × OnePerPrice rest

add_level-All :
    (float : Float) (p price qty : ℕ) (ls : List BookLevel)
    → price ≢ p
    → All (λ (m : BookLevel). m.price ≢ p) ls
    → All (λ (m : BookLevel). m.price ≢ p) (add_level float price qty ls)
unfolding add_level
add_level-All float p price qty [] ne h = ground arith
add_level-All float p price qty (l ∷ rest) ne h =
    ground (arith, add_level-All float p price qty rest ne h.1)

deduct_level-All :
    (float : Float) (p price qty : ℕ) (ls : List BookLevel)
    → All (λ (m : BookLevel). m.price ≢ p) ls
    → All (λ (m : BookLevel). m.price ≢ p) (deduct_level float price qty ls)
unfolding deduct_level
deduct_level-All float p price qty [] h = tt
deduct_level-All float p price qty (l ∷ rest) h =
    ground (arith, deduct_level-All float p price qty rest h.1)

not_same : (a b : ℕ) → (a == b) ≡ false → b ≢ a
not_same a b h e = ground arith

-- A side keeps one level per price when an order rests, and when a quantity is taken off.
pub levels-OnePerPrice :
    (float : Float) (price qty : ℕ) (ls : List BookLevel)
    → OnePerPrice ls
    → OnePerPrice (add_level float price qty ls) × OnePerPrice (deduct_level float price qty ls)
unfolding add_level deduct_level
levels-OnePerPrice float price qty [] h = ((tt, tt), tt)
levels-OnePerPrice float price qty (l ∷ rest) h = elim (Bool-cases (l.price == price)) [
  | inl e ↦ rw e (
    h,
    (elim (Option-cases (float.minus l.quantity qty)) [
      | inl none_left ↦ rw none_left h.1
      | inr (q, left) ↦ rw left h
    ]),
  )
  | inr e ↦
      let ih = levels-OnePerPrice float price qty rest h.1 in
      rw e (
        (add_level-All float l.price price qty rest (not_same l.price price e) h.0, ih.0),
        (deduct_level-All float l.price price qty rest h.0, ih.1),
      )
]
