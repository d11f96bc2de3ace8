-- ===== src/Numeric/Units.antt =====
-- The amounts of pkg/numeric/numeric.go in units of the tenth decimal.
use native.Mathlib.Nat.{pow-suc}
use Prim.Native.Nat.{compare, Ordering}
use mynance.Base.{
  ℕ, zero, suc, ◌+◌, ◌*◌, ◌^◌, ◌<◌, ◌≡◌, ◌≢◌, Bool, true, false, Option, none, some, arith, ◌∙◌, ap,
  subst, dec_lt,
}
use mynance.Base.Int.{
  ℤ, pos, negsuc, pos_part, neg_part, ◌+ℤ◌, ◌-ℤ◌, ◌*ℤ◌, ◌≤ℤ◌, neg_ℤ, *ℤ_parts, +ℤ_parts, -ℤ_parts,
}
use mynance.Numeric.{
  Numeric, Rat, scale_factor, scaled, to_rat, round, from_rat, zero_numeric, sub, add, add_rat, neg,
  cmp_ℤ, cmp, column, loaded, column_add,
}
use mynance.Numeric.Round.{IsUnits, AtMost, round_le, round_exact, round-neg}

ten_pow_pos : (k : ℕ) → 0 < 10 ^ k
ten_pow_pos zero = omega arith
ten_pow_pos (suc k) = rw (pow-suc 10 k) (omega (arith, ten_pow_pos k))

scaled_pos : (n e : ℤ) → 0 < (scaled n e).den
unfolding scaled
scaled_pos n (pos e) = omega arith
scaled_pos n (negsuc e) = ten_pow_pos (suc e)

parts_pos :
    (v : Bool) (i : Option ℤ) (e : ℤ) → 0 < (to_rat (record { valid = v; int = i; exp = e })).den
unfolding to_rat
parts_pos false i e = omega arith
parts_pos true none e = omega arith
parts_pos true (some i) e = scaled_pos i e

pub to_rat_pos : (n : Numeric) → 0 < (to_rat n).den
to_rat_pos n = parts_pos n.valid n.int n.exp

abbrev pub HasUnits : Numeric → ℤ → Type 0
HasUnits n u = IsUnits (to_rat n) u

pub loaded-HasUnits : (u : ℤ) → HasUnits (loaded u) u
unfolding loaded to_rat scaled
loaded-HasUnits u = omega arith

pub from_rat-HasUnits : (r : Rat) → HasUnits (from_rat r) (round r)
unfolding from_rat to_rat scaled
from_rat-HasUnits r = omega arith

pub zero-HasUnits : HasUnits zero_numeric (pos 0)
unfolding zero_numeric to_rat scaled ◌*ℤ◌
zero-HasUnits = omega arith

pub column-HasUnits : (n : Numeric) (u : ℤ) → HasUnits n u → column n ≡ u
unfolding column
column-HasUnits n u h = round_exact (to_rat n) u (to_rat_pos n) h

pub column-loaded : (u : ℤ) → column (loaded u) ≡ u
column-loaded u = column-HasUnits (loaded u) u (loaded-HasUnits u)

pub column-neg : (n : Numeric) → column (neg n) ≡ neg_ℤ (column n)
unfolding neg
column-neg n =
    column-HasUnits (neg n) _ (from_rat-HasUnits _)
    ∙ unfold column in round-neg (to_rat n).num (to_rat n).den

pub neg-HasUnits : (n : Numeric) → HasUnits (neg n) (neg_ℤ (column n))
unfolding neg column
neg-HasUnits n =
    subst (HasUnits (neg n)) (round-neg (to_rat n).num (to_rat n).den) (from_rat-HasUnits _)

add_parts :
    (n : ℤ) (d : ℕ) (m : ℤ) (e : ℕ) (u v : ℤ)
    → IsUnits (record { num = n; den = d }) u
    → IsUnits (record { num = m; den = e }) v
    → IsUnits (record { num = n *ℤ pos e +ℤ m *ℤ pos d; den = d * e }) (u +ℤ v)
add_parts n d m e u v hu hv = omega (
  arith,
  *ℤ_parts n (pos e),
  *ℤ_parts m (pos d),
  +ℤ_parts (n *ℤ pos e) (m *ℤ pos d),
  ap (λ (t : ℕ). t * e) hu,
  ap (λ (t : ℕ). t * d) hv,
  ap (λ (t : ℕ). t * (d * e)) (+ℤ_parts u v),
)

sub_parts :
    (n : ℤ) (d : ℕ) (m : ℤ) (e : ℕ) (u v : ℤ)
    → IsUnits (record { num = n; den = d }) u
    → IsUnits (record { num = m; den = e }) v
    → IsUnits (record { num = n *ℤ pos e -ℤ m *ℤ pos d; den = d * e }) (u -ℤ v)
sub_parts n d m e u v hu hv = omega (
  arith,
  *ℤ_parts n (pos e),
  *ℤ_parts m (pos d),
  -ℤ_parts (n *ℤ pos e) (m *ℤ pos d),
  ap (λ (t : ℕ). t * e) hu,
  ap (λ (t : ℕ). t * d) hv,
  ap (λ (t : ℕ). t * (d * e)) (-ℤ_parts u v),
)

mul_lt : (p q d : ℕ) → 0 < d → p < q → p * d < q * d
mul_lt p q d h k = grind arith

compare_scaled :
    (x y p q d : ℕ)
    → 0 < d
    → x * scale_factor + q * d ≡ y * scale_factor + p * d
    → compare x y ≡ compare p q
compare_scaled x y p q d h e = elim (dec_lt p q) [
  | yes less ↦ ground (arith, mul_lt p q d h less)
  | no not_less ↦ elim (dec_lt q p) [
    | yes more ↦ ground (arith, mul_lt q p d h more)
    | no not_more ↦
        let same : p ≡ q = omega arith in rw same (ground (arith, ap (λ (t : ℕ). t * d) same))
  ]
]

cmp_parts :
    (n : ℤ) (d : ℕ) (m : ℤ) (e : ℕ) (u v : ℤ)
    → 0 < d * e
    → IsUnits (record { num = n; den = d }) u
    → IsUnits (record { num = m; den = e }) v
    → cmp_ℤ (n *ℤ pos e) (m *ℤ pos d) ≡ cmp_ℤ u v
unfolding cmp_ℤ
cmp_parts n d m e u v h hu hv =
    compare_scaled _ _ (pos_part u + neg_part v) (pos_part v + neg_part u) (d * e) h (
      omega (
        arith,
        *ℤ_parts n (pos e),
        *ℤ_parts m (pos d),
        ap (λ (t : ℕ). t * e) hu,
        ap (λ (t : ℕ). t * d) hv,
      ))

pub mul_pos : (d e : ℕ) → 0 < d → 0 < e → 0 < d * e
mul_pos d e h k = grind arith

module _ (a b : Numeric) (u v : ℤ) (hu : HasUnits a u) (hv : HasUnits b v) where
  -- Sums of whole units are exact.
  pub add-HasUnits : HasUnits (add a b) (u +ℤ v)
  unfolding add add_rat
  add-HasUnits =
      subst (HasUnits (add a b))
        (round_exact _ _ (mul_pos _ _ (to_rat_pos a) (to_rat_pos b))
          (add_parts (to_rat a).num (to_rat a).den (to_rat b).num (to_rat b).den u v hu hv))
        (from_rat-HasUnits _)

  pub sub-HasUnits : HasUnits (sub a b) (u -ℤ v)
  unfolding sub
  sub-HasUnits =
      subst (HasUnits (sub a b))
        (round_exact _ _ (mul_pos _ _ (to_rat_pos a) (to_rat_pos b))
          (sub_parts (to_rat a).num (to_rat a).den (to_rat b).num (to_rat b).den u v hu hv))
        (from_rat-HasUnits _)

  -- And so is their order.
  pub cmp-HasUnits : cmp a b ≡ cmp_ℤ u v
  unfolding cmp
  cmp-HasUnits =
      cmp_parts (to_rat a).num (to_rat a).den (to_rat b).num (to_rat b).den u v
        (mul_pos _ _ (to_rat_pos a) (to_rat_pos b)) hu hv

pub column_add-HasUnits : (u v : ℤ) (n : Numeric) → HasUnits n v → column_add u n ≡ u +ℤ v
unfolding column_add add_rat
column_add-HasUnits u v n h = round_exact _ _ (mul_pos _ _ (to_rat_pos (loaded u)) (to_rat_pos n)) (
    add_parts (to_rat (loaded u)).num (to_rat (loaded u)).den (to_rat n).num (to_rat n).den u v
      (loaded-HasUnits u) h)

not_gt_le :
    (n : ℤ) (d : ℕ) (u : ℤ)
    → cmp_ℤ (n *ℤ pos scale_factor) (u *ℤ pos d) ≢ Ordering.gt
    → AtMost (record { num = n; den = d }) u
unfolding cmp_ℤ
not_gt_le n d u h = ground (arith, h, *ℤ_parts n (pos scale_factor), *ℤ_parts u (pos d))

-- An amount, however many decimals it has, that compares as at most a column's value is at most that
-- value after rounding.
pub column_le : (n : Numeric) (u : ℤ) → cmp n (loaded u) ≢ Ordering.gt → column n ≤ℤ u
unfolding cmp column loaded to_rat scaled
column_le n u h = round_le (to_rat n) u (to_rat_pos n) (not_gt_le (to_rat n).num (to_rat n).den u h)
