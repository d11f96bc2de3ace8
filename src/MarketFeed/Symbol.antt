-- ===== src/MarketFeed/Symbol.antt =====
-- The names of symbols here and at the other exchange: internal/marketfeed/symbol.go. The two cases of
-- letters are those of ASCII; a byte beyond it stays as it is.
use mynance.Base.{
  ℕ, ◌+◌, ◌-◌, ◌≤◌, Bool, true, false, List, [], ◌∷◌, ◌++◌, Option, none, some, Bytes, bytes, ◌=ᵇ◌,
  ◌==◌, ◌&&◌, ◌||◌, if◌then◌else◌, not, leb, ltb, length, take, drop, filter, map, ◌≡◌, refl, ap,
  ◌∙◌, arith, All, =ᵇ_refl, length-append, Bool-cases, inl, inr,
}

abbrev between : ℕ → ℕ → ℕ → Bool
between lo hi c = leb lo c && leb c hi

abbrev pub lower : ℕ → ℕ
lower c = if between 65 90 c then c + 32 else c

abbrev upper : ℕ → ℕ
upper c = if between 97 122 c then c - 32 else c

-- `strings.ToLower` and `strings.ToUpper`
unfoldable pub to_lower : Bytes → Bytes
to_lower text = map lower text

unfoldable pub to_upper : Bytes → Bytes
to_upper text = map upper text

-- `toBinance`
unfoldable pub to_binance : Bytes → Bytes
to_binance symbol = to_lower (filter (λ c. not (c == b'-')) symbol)

-- `strings.HasSuffix`
abbrev pub has_suffix : Bytes → Bytes → Bool
has_suffix text end_part =
    leb (length end_part) (length text) && (drop (length text - length end_part) text =ᵇ end_part)

abbrev pub quotes : List Bytes
quotes = bytes "USDT" ∷ bytes "USDC" ∷ bytes "BUSD" ∷ bytes "USD" ∷ bytes "BTC" ∷ bytes "ETH" ∷ []

-- The loop of `fromBinance`
unfoldable pub split_quote : List Bytes → Bytes → Option Bytes
split_quote [] text = none
split_quote (quote ∷ rest) text =
    if has_suffix text quote && ltb (length quote) (length text)
    then some (take (length text - length quote) text ++ (bytes "-" ++ quote))
    else split_quote rest text

-- `fromBinance`
unfoldable pub from_binance : Bytes → Option Bytes
from_binance binance = split_quote quotes (to_upper binance)

pub record Halves : Type 0 where
  pub base : Bytes
  pub quote : Bytes

-- `strings.SplitN` at the first dash; without one, two empty texts.
unfoldable pub split_once : Bytes → Option Halves
split_once [] = none
split_once (c ∷ cs) =
    let rest = split_once cs in
    if c == b'-'
    then some (record { base = []; quote = cs })
    else (elim rest [ none ↦ none | some h ↦ some (record { base = c ∷ h.base; quote = h.quote }) ])

-- `splitSymbol`
unfoldable pub split_symbol : Bytes → Halves
split_symbol symbol = elim (split_once symbol) [
  | none ↦ record { base = []; quote = [] }
  | some h ↦ h
]

-- A capital letter or a digit.
abbrev pub Plain : ℕ → Type 0
Plain c = (between 65 90 c || between 48 57 c) ≡ true

pub kept_upper : (c : ℕ) → Plain c → (not (c == 45) ≡ true) × (upper (lower c) ≡ c)
kept_upper c h = ground (arith, h)

filter-kept : (p : ℕ → Bool) (c : ℕ) (cs : Bytes) → p c ≡ true → filter p (c ∷ cs) ≡ c ∷ filter p cs
filter-kept p c cs h = ground (arith, h)

abbrev no_dash : Bytes → Bytes
no_dash text = filter (λ c. not (c == b'-')) text

to_upper-to_binance :
    (text rest : Bytes)
    → All Plain text
    → to_upper (to_binance (text ++ rest)) ≡ text ++ to_upper (to_binance rest)
unfolding to_upper to_lower to_binance
to_upper-to_binance [] rest h = refl
to_upper-to_binance (c ∷ cs) rest h =
    let k = kept_upper c h.0 in
    ap (λ (xs : Bytes). map upper (map lower xs))
      (filter-kept (λ d. not (d == b'-')) c (cs ++ rest) k.0)
    ∙ ap (λ (x : ℕ). x ∷ map upper (map lower (no_dash (cs ++ rest)))) k.1
    ∙ ap (λ (xs : Bytes). c ∷ xs) (to_upper-to_binance cs rest h.1)

drop-append : (b q : Bytes) → drop (length b) (b ++ q) ≡ q
drop-append [] q = refl
drop-append (c ∷ cs) q = drop-append cs q

pub take-append : (b q : Bytes) → take (length b) (b ++ q) ≡ b
take-append [] q = refl
take-append (c ∷ cs) q = ap (λ (xs : Bytes). c ∷ xs) (take-append cs q)

before : (b q : Bytes) → length (b ++ q) - length q ≡ length b
before b q = omega (arith, length-append b q)

leb_long : (b q : Bytes) → leb (length q) (length (b ++ q)) ≡ true
leb_long b q = ground (arith, length-append b q)

ltb_longer : (b q : Bytes) → 1 ≤ length b → ltb (length q) (length (b ++ q)) ≡ true
ltb_longer b q h = ground (arith, length-append b q)

pub split_quote-here :
    (quote : Bytes) (rest : List Bytes) (base : Bytes)
    → 1 ≤ length base
    → split_quote (quote ∷ rest) (base ++ quote) ≡ some (base ++ (bytes "-" ++ quote))
unfolding split_quote
split_quote-here quote rest base h =
    rw
      (
        leb_long base quote,
        ltb_longer base quote h,
        before base quote,
        drop-append base quote,
        take-append base quote,
        =ᵇ_refl quote,
      )
      refl

split_quote-later :
    (first : Bytes) (rest : List Bytes) (text : Bytes)
    → has_suffix text first ≡ false
    → split_quote (first ∷ rest) text ≡ split_quote rest text
unfolding split_quote
split_quote-later first rest text h = rw h refl

-- A symbol in the quote asset USDT survives the way to the other exchange's name and back, if its base
-- is made of capital letters and digits and is not empty.
pub from_binance-to_binance :
    (base : Bytes)
    → 1 ≤ length base
    → All Plain base
    → from_binance (to_binance (base ++ bytes "-USDT")) ≡ some (base ++ bytes "-USDT")
unfolding from_binance to_upper to_lower to_binance
from_binance-to_binance base long plain =
    ap (split_quote quotes) (to_upper-to_binance base (bytes "-USDT") plain)
    ∙ split_quote-here (bytes "USDT") _ base long

not_suffix :
    (base quote other : Bytes)
    → length other ≡ length quote
    → (quote =ᵇ other) ≡ false
    → has_suffix (base ++ quote) other ≡ false
not_suffix base quote other same apart =
    rw (same, before base quote, drop-append base quote, apart)
      (elim (Bool-cases (leb (length quote) (length (base ++ quote)))) [
        | inl e ↦ rw e refl
        | inr e ↦ rw e refl
      ])

-- A symbol in USD whose base ends in B comes back as another one, in BUSD: DOGEB-USD, say,
-- becomes DOGE-BUSD.
pub from_binance-misread :
    (base : Bytes)
    → 1 ≤ length base
    → All Plain base
    → from_binance (to_binance (base ++ bytes "B-USD")) ≡ some (base ++ bytes "-BUSD")
unfolding from_binance to_upper to_lower to_binance ◌=ᵇ◌
from_binance-misread base long plain =
    ap (split_quote quotes) (to_upper-to_binance base (bytes "B-USD") plain)
    ∙ split_quote-later (bytes "USDT") _ (base ++ bytes "BUSD")
        (not_suffix base (bytes "BUSD") (bytes "USDT") refl refl)
    ∙ split_quote-later (bytes "USDC") _ (base ++ bytes "BUSD")
        (not_suffix base (bytes "BUSD") (bytes "USDC") refl refl)
    ∙ split_quote-here (bytes "BUSD") _ base long
