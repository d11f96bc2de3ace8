-- ===== src/Numeric/Product.antt =====
-- Products and sums of pkg/numeric/numeric.go whose operands have any number of decimals.
use Prim.Native.Nat.{Ordering}
use mynance.Base.{ℕ, ◌+◌, ◌*◌, ◌≡◌, refl, arith, subst, sym, ◌∙◌, ap}
use mynance.Base.Int.{ℤ, pos, pos_part, neg_part, ◌*ℤ◌, ◌+ℤ◌, ◌≤ℤ◌, *ℤ_parts, +ℤ_parts}
use mynance.Numeric.{
  Numeric, Rat, scale_factor, to_rat, mul, add, add_rat, zero_numeric, column, column_add, loaded,
  scaled, whole, cmp, cmp_ℤ,
}
use mynance.Numeric.Round.{IsUnits, AtLeast, round_ge, round_congr, round_exact}
use mynance.Numeric.Units.{HasUnits, column-HasUnits, from_rat-HasUnits, to_rat_pos, mul_pos}

product_parts :
    (n : ℤ) (d : ℕ) (m : ℤ) (e : ℕ) (u v : ℤ)
    → IsUnits (record { num = n; den = d }) u
    → IsUnits (record { num = m; den = e }) v
    → pos_part (n *ℤ m) * (scale_factor * scale_factor) + neg_part (u *ℤ v) * (d * e)
      ≡ pos_part (u *ℤ v) * (d * e) + neg_part (n *ℤ m) * (scale_factor * scale_factor)
product_parts n d m e u v hu hv = omega (
  arith,
  ap (λ (t : ℕ). t * (scale_factor * scale_factor)) (*ℤ_parts n m),
  ap (λ (t : ℕ). t * (d * e)) (*ℤ_parts u v),
  ap (λ (t : ℕ). t * (pos_part m * scale_factor)) hu,
  ap (λ (t : ℕ). t * (neg_part m * scale_factor)) hu,
  ap (λ (t : ℕ). t * (pos_part u * d)) hv,
  ap (λ (t : ℕ). t * (neg_part u * d)) hv,
)

to_rat-loaded : (u : ℤ) → to_rat (loaded u) ≡ record { num = u; den = scale_factor }
unfolding to_rat loaded scaled
to_rat-loaded u = refl

pub column-mul-loaded :
    (a b : Numeric) (u v : ℤ)
    → HasUnits a u
    → HasUnits b v
    → column (mul a b) ≡ column (mul (loaded u) (loaded v))
unfolding mul
column-mul-loaded a b u v hu hv =
    column-HasUnits _ _ (from_rat-HasUnits _)
    ∙ round_congr _ _ (mul_pos _ _ (to_rat_pos a) (to_rat_pos b))
        (mul_pos _ _ (to_rat_pos (loaded u)) (to_rat_pos (loaded v)))
        (rw (to_rat-loaded u, to_rat-loaded v)
          (product_parts (to_rat a).num (to_rat a).den (to_rat b).num (to_rat b).den u v hu hv))
    ∙ sym (column-HasUnits _ _ (from_rat-HasUnits _))

times_zero :
    (u : ℤ) → IsUnits (record { num = u *ℤ pos 0; den = scale_factor * scale_factor }) (pos 0)
times_zero u = omega (arith, *ℤ_parts u (pos 0))

-- Nothing times a price is nothing.
pub column-mul-zero : (u : ℤ) → column (mul (loaded u) (loaded (pos 0))) ≡ pos 0
unfolding mul
column-mul-zero u =
    column-HasUnits _ _ (from_rat-HasUnits _)
    ∙ round_exact _ (pos 0) (mul_pos _ _ (to_rat_pos (loaded u)) (to_rat_pos (loaded (pos 0))))
        (rw (to_rat-loaded u, to_rat-loaded (pos 0)) (times_zero u))

pub mul-HasUnits : (a b : Numeric) → HasUnits (mul a b) (column (mul a b))
unfolding mul
mul-HasUnits a b =
    subst (HasUnits (mul a b)) (sym (column-HasUnits _ _ (from_rat-HasUnits _)))
      (from_rat-HasUnits _)

to_rat_zero : to_rat zero_numeric ≡ whole (pos 0)
unfolding to_rat zero_numeric scaled ◌*ℤ◌
to_rat_zero = refl

zero_plus :
    (n : ℤ) (d : ℕ)
    → pos_part (pos 0 *ℤ pos d +ℤ n *ℤ pos 1) * d + neg_part n * (1 * d)
      ≡ pos_part n * (1 * d) + neg_part (pos 0 *ℤ pos d +ℤ n *ℤ pos 1) * d
zero_plus n d = omega (
  arith,
  *ℤ_parts (pos 0) (pos d),
  *ℤ_parts n (pos 1),
  ap (λ (t : ℕ). t * d) (*ℤ_parts (pos 0) (pos d)),
  ap (λ (t : ℕ). t * d) (*ℤ_parts n (pos 1)),
  ap (λ (t : ℕ). t * d) (+ℤ_parts (pos 0 *ℤ pos d) (n *ℤ pos 1)),
)

-- Adding to zero rounds as a column does.
pub add-zero-HasUnits : (n : Numeric) → HasUnits (add zero_numeric n) (column n)
unfolding add add_rat column
add-zero-HasUnits n =
    subst (HasUnits (add zero_numeric n))
      (round_congr _ _ (mul_pos _ _ (to_rat_pos zero_numeric) (to_rat_pos n)) (to_rat_pos n)
        (rw to_rat_zero (zero_plus (to_rat n).num (to_rat n).den)))
      (from_rat-HasUnits _)

-- What is filled after a fill, computed from the stored amount, is what the column then holds.
pub add-loaded-HasUnits : (u : ℤ) (n : Numeric) → HasUnits (add (loaded u) n) (column_add u n)
unfolding add column_add
add-loaded-HasUnits u n = from_rat-HasUnits _

gt_zero :
    (n : ℤ) (d : ℕ)
    → cmp_ℤ (n *ℤ pos 1) (pos 0 *ℤ pos d) ≡ Ordering.gt
    → AtLeast (record { num = n; den = d }) (pos 0)
unfolding cmp_ℤ
gt_zero n d h = ground (arith, h, *ℤ_parts n (pos 1), *ℤ_parts (pos 0) (pos d))

-- An amount above zero is not below zero once it is stored.
pub column_nonneg : (n : Numeric) → cmp n zero_numeric ≡ Ordering.gt → pos 0 ≤ℤ column n
unfolding cmp column
column_nonneg n h = round_ge (to_rat n) (pos 0) (to_rat_pos n) (
    gt_zero (to_rat n).num (to_rat n).den (
      subst
        (λ (r : Rat).
          cmp_ℤ ((to_rat n).num *ℤ pos r.den) (r.num *ℤ pos (to_rat n).den) ≡ Ordering.gt)
        to_rat_zero h))
