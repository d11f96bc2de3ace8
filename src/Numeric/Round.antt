-- ===== src/Numeric/Round.antt =====
-- Rounding to ten decimals, as `fromRat` of pkg/numeric/numeric.go and the columns round.
use native.Mathlib.Nat.{div-eq_of_lt-le, mul-div-mul_right, div-lt_iff_lt-mul}
use mynance.Base.{ℕ, zero, suc, ◌+◌, ◌*◌, ◌/◌, ◌≤◌, ◌<◌, ◌≡◌, arith, sym, ◌∙◌, ap₂, dec_lt}
use mynance.Base.Int.{ℤ, pos, negsuc, pos_part, neg_part, ◌≤ℤ◌, neg_ℤ, int_laws}
use mynance.Numeric.{Rat, scale_factor, round_abs, round}

round_abs_exact : (n d u : ℕ) → 0 < d → n * scale_factor ≡ u * d → round_abs n d ≡ u
unfolding round_abs
round_abs_exact n d u h e =
    div-eq_of_lt-le {k = u} (2 * d) {m = 2 * (n * scale_factor) + d} (omega arith) (omega arith)

round_abs_le : (n d u : ℕ) → 0 < d → n * scale_factor ≤ u * d → round_abs n d ≤ u
unfolding round_abs
round_abs_le n d u h e =
    let below : round_abs n d < suc u =
      (div-lt_iff_lt-mul {k = 2 * d} {x = 2 * (n * scale_factor) + d} {y = suc u} (omega arith)).1
        (omega arith) in
    omega arith

round_abs_ge : (n d u : ℕ) → 0 < d → u * d ≤ n * scale_factor → u ≤ round_abs n d
unfolding round_abs
round_abs_ge n d u h e = elim (dec_lt (round_abs n d) u) [
  | yes low ↦
      let bad : 2 * (n * scale_factor) + d < u * (2 * d) =
        (div-lt_iff_lt-mul {k = 2 * d} {x = 2 * (n * scale_factor) + d} {y = u} (omega arith)).0
          low in
      absurd (omega arith)
  | no high ↦ omega arith
]

round_abs_congr : (n d m e : ℕ) → 0 < d → 0 < e → n * e ≡ m * d → round_abs n d ≡ round_abs m e
unfolding round_abs
round_abs_congr n d m e hd he h =
    sym (mul-div-mul_right (2 * (n * scale_factor) + d) (2 * d) he)
    ∙ ap₂ (λ (a b : ℕ). a / b) {x = (2 * (n * scale_factor) + d) * e} (omega (arith, h))
        (omega arith)
    ∙ mul-div-mul_right (2 * (m * scale_factor) + e) (2 * e) hd

round_abs_zero : (d : ℕ) → 0 < d → round_abs 0 d ≡ 0
round_abs_zero d h = round_abs_exact 0 d 0 h (omega arith)

-- The fraction is `u` ten-decimal units.
abbrev pub IsUnits : Rat → ℤ → Type 0
IsUnits r u =
    pos_part r.num * scale_factor + neg_part u * r.den
    ≡ neg_part r.num * scale_factor + pos_part u * r.den

-- At most, and at least, so many units.
abbrev pub AtMost : Rat → ℤ → Type 0
AtMost r u =
    pos_part r.num * scale_factor + neg_part u * r.den
    ≤ neg_part r.num * scale_factor + pos_part u * r.den

abbrev pub AtLeast : Rat → ℤ → Type 0
AtLeast r u =
    neg_part r.num * scale_factor + pos_part u * r.den
    ≤ pos_part r.num * scale_factor + neg_part u * r.den

round-AtMost :
    (n : ℤ) (d : ℕ) (u : ℤ)
    → 0 < d
    → AtMost (record { num = n; den = d }) u
    → round (record { num = n; den = d }) ≤ℤ u
unfolding round
round-AtMost (pos n) d (pos u) h e = ground (arith, round_abs_le n d u h, round_abs_zero d h)
round-AtMost (pos n) d (negsuc u) h e = absurd (grind arith)
round-AtMost (negsuc n) d (pos u) h e = ground (arith, round_abs_zero d h)
round-AtMost (negsuc n) d (negsuc u) h e =
    ground (arith, round_abs_ge (suc n) d (suc u) h, round_abs_zero d h)

round-AtLeast :
    (n : ℤ) (d : ℕ) (u : ℤ)
    → 0 < d
    → AtLeast (record { num = n; den = d }) u
    → u ≤ℤ round (record { num = n; den = d })
unfolding round
round-AtLeast (pos n) d (pos u) h e = ground (arith, round_abs_ge n d u h, round_abs_zero d h)
round-AtLeast (pos n) d (negsuc u) h e = ground (arith, round_abs_zero d h)
round-AtLeast (negsuc n) d (pos u) h e = absurd (grind arith)
round-AtLeast (negsuc n) d (negsuc u) h e =
    ground (arith, round_abs_le (suc n) d (suc u) h, round_abs_zero d h)

-- What is at most some number of units still is after rounding.
pub round_le : (r : Rat) (u : ℤ) → 0 < r.den → AtMost r u → round r ≤ℤ u
round_le r u h e = round-AtMost r.num r.den u h e

pub round_ge : (r : Rat) (u : ℤ) → 0 < r.den → AtLeast r u → u ≤ℤ round r
round_ge r u h e = round-AtLeast r.num r.den u h e

pub round_exact : (r : Rat) (u : ℤ) → 0 < r.den → IsUnits r u → round r ≡ u
round_exact r u h e = omega (int_laws, round_le r u h (omega arith), round_ge r u h (omega arith))

round_parts-congr :
    (n : ℤ) (d : ℕ) (m : ℤ) (e : ℕ)
    → 0 < d
    → 0 < e
    → pos_part n * e + neg_part m * d ≡ pos_part m * d + neg_part n * e
    → round (record { num = n; den = d }) ≡ round (record { num = m; den = e })
unfolding round
round_parts-congr (pos n) d (pos m) e hd he h =
    ground (arith, round_abs_congr n d m e hd he, round_abs_zero d hd, round_abs_zero e he)
round_parts-congr (pos n) d (negsuc m) e hd he h = absurd (grind arith)
round_parts-congr (negsuc n) d (pos m) e hd he h = absurd (grind arith)
round_parts-congr (negsuc n) d (negsuc m) e hd he h =
    ground
      (arith, round_abs_congr (suc n) d (suc m) e hd he, round_abs_zero d hd, round_abs_zero e he)

-- Two fractions of one value round alike.
pub round_congr :
    (r s : Rat)
    → 0 < r.den
    → 0 < s.den
    → pos_part r.num * s.den + neg_part s.num * r.den
      ≡ pos_part s.num * r.den + neg_part r.num * s.den
    → round r ≡ round s
round_congr r s hr hs e = round_parts-congr r.num r.den s.num s.den hr hs e

-- Rounding is symmetric about zero.
pub round-neg :
    (n : ℤ) (d : ℕ)
    → round (record { num = neg_ℤ n; den = d }) ≡ neg_ℤ (round (record { num = n; den = d }))
unfolding round neg_ℤ
round-neg (pos zero) d = ground arith
round-neg (pos (suc n)) d = ground arith
round-neg (negsuc n) d = ground arith
