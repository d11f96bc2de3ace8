-- ===== src/Order/Symbol.antt =====
-- `SplitSymbol` of internal/order/domain.go and the symbols that it reads.
use mynance.Base.{
  ℕ, ◌≡◌, refl, false, List, [], ◌∷◌, ◌++◌, Bytes, ◌==◌, ==_iff, is_empty, arith, Bool-cases, inl,
  inr, ap, subst, sym, ◌∙◌, ◌↔◌,
}
use mynance.Shared.{ok}
use mynance.Order.{split, Pair, pair_of, split_symbol}

-- No byte of the text is the separator.
abbrev pub Free : ℕ → Bytes → Type 0
Free sep [] = Unit {0}
Free sep (c ∷ cs) = ((c == sep) ≡ false) × Free sep cs

split-Free : (sep : ℕ) (p : Bytes) → Free sep p → split sep p ≡ p ∷ []
unfolding split
split-Free sep [] h = refl
split-Free sep (c ∷ cs) h = rw (h.0, split-Free sep cs h.1)

split_append :
    (sep : ℕ) (p rest : Bytes) → Free sep p → split sep (p ++ sep ∷ rest) ≡ p ∷ split sep rest
unfolding split
split_append sep [] rest h = ground arith
split_append sep (c ∷ cs) rest h = rw (h.0, split_append sep cs rest h.1)

-- A symbol made of two non-empty parts without a hyphen is split into those parts.
pub split_symbol-append :
    (base quote : Bytes)
    → Free b'-' base
    → Free b'-' quote
    → is_empty base ≡ false
    → is_empty quote ≡ false
    → split_symbol (base ++ b'-' ∷ quote) ≡ ok (record { base = base; quote = quote })
unfolding split_symbol
split_symbol-append base quote hb hq eb eq =
    rw (split_append b'-' base quote hb, split-Free b'-' quote hq) (rw (eb, eq))

-- The text whose parts these are.
abbrev join : ℕ → List Bytes → Bytes
join sep [] = []
join sep (p ∷ []) = p
join sep (p ∷ q ∷ ps) = p ++ sep ∷ join sep (q ∷ ps)

AllFree : ℕ → List Bytes → Type 0
AllFree sep [] = Unit {0}
AllFree sep (p ∷ ps) = Free sep p × AllFree sep ps

abbrev extend_first : ℕ → List Bytes → List Bytes
extend_first c [] = (c ∷ []) ∷ []
extend_first c (p ∷ ps) = (c ∷ p) ∷ ps

join-extend_first :
    (sep c : ℕ) (parts : List Bytes) → join sep (extend_first c parts) ≡ c ∷ join sep parts
join-extend_first sep c [] = refl
join-extend_first sep c (p ∷ []) = refl
join-extend_first sep c (p ∷ q ∷ ps) = refl

AllFree-extend_first :
    (sep c : ℕ) (parts : List Bytes)
    → (c == sep) ≡ false
    → AllFree sep parts
    → AllFree sep (extend_first c parts)
unfolding AllFree
AllFree-extend_first sep c [] h f = ((h, tt), tt)
AllFree-extend_first sep c (p ∷ ps) h f = ((h, f.0), f.1)

split_occupied : (sep : ℕ) (s : Bytes) → is_empty (split sep s) ≡ false
unfolding split
split_occupied sep [] = refl
split_occupied sep (c ∷ cs) = elim (Bool-cases (c == sep)) [
  | inl e ↦ rw e
  | inr e ↦ rw e (extended (split sep cs))
]
  where
    extended : (parts : List Bytes) → is_empty (extend_first c parts) ≡ false
    extended [] = refl
    extended (p ∷ ps) = refl

join-cons :
    (sep : ℕ) (parts : List Bytes)
    → is_empty parts ≡ false
    → join sep ([] ∷ parts) ≡ sep ∷ join sep parts
join-cons sep [] h = cc
join-cons sep (p ∷ ps) h = refl

join-split : (sep : ℕ) (s : Bytes) → join sep (split sep s) ≡ s
unfolding split
join-split sep [] = refl
join-split sep (c ∷ cs) = elim (Bool-cases (c == sep)) [
  | inl e ↦ rw e (
      rw (
        join-cons sep (split sep cs) (split_occupied sep cs),
        join-split sep cs,
        (==_iff c sep).0 e,
      ))
  | inr e ↦
      rw e (join-extend_first sep c (split sep cs) ∙ ap (λ (t : Bytes). c ∷ t) (join-split sep cs))
]

split-AllFree : (sep : ℕ) (s : Bytes) → AllFree sep (split sep s)
unfolding split AllFree
split-AllFree sep [] = (tt, tt)
split-AllFree sep (c ∷ cs) = elim (Bool-cases (c == sep)) [
  | inl e ↦ rw e (tt, split-AllFree sep cs)
  | inr e ↦ rw e (AllFree-extend_first sep c (split sep cs) e (split-AllFree sep cs))
]

-- What holds of the parts that `pair_of` takes.
pair_of-ok :
    (parts : List Bytes) (p : Pair)
    → pair_of parts ≡ ok p
    → (parts ≡ p.base ∷ p.quote ∷ []) × (is_empty p.base ≡ false) × (is_empty p.quote ≡ false)
unfolding pair_of
pair_of-ok [] p h = cc
pair_of-ok (base ∷ []) p h = cc
pair_of-ok (base ∷ quote ∷ []) p h = ground arith
pair_of-ok (base ∷ quote ∷ more ∷ rest) p h = cc

-- `SplitSymbol` accepts a symbol exactly if it is BASE-QUOTE for two non-empty texts without a hyphen,
-- and then returns those two.
pub split_symbol_iff :
    (symbol : Bytes) (p : Pair)
    → (split_symbol symbol ≡ ok p) ↔ (
        (symbol ≡ p.base ++ b'-' ∷ p.quote)
        × Free b'-' p.base
        × Free b'-' p.quote
        × (is_empty p.base ≡ false)
        × (is_empty p.quote ≡ false))
unfolding split_symbol AllFree
split_symbol_iff symbol p = (
  λ h.
      let parts = pair_of-ok (split b'-' symbol) p h in
      let whole : join b'-' (split b'-' symbol) ≡ p.base ++ b'-' ∷ p.quote =
        ap (join b'-') parts.0 in
      let free : AllFree b'-' (p.base ∷ p.quote ∷ []) =
        subst (AllFree b'-') parts.0 (split-AllFree b'-' symbol) in
      (sym (join-split b'-' symbol) ∙ whole, free.0, free.1.0, parts.1, parts.2),
  λ h. rw h.0 (split_symbol-append p.base p.quote h.1 h.2 h.3 h.4),
)
