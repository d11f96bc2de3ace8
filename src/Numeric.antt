-- ===== src/Numeric.antt =====
-- Decimal amounts: pkg/numeric/numeric.go over pgtype.Numeric and big.Rat. A `Rat` is a fraction that
-- need not be in lowest terms: `Cmp` and `FloatString` depend on its value alone. The text that
-- `fromRat` writes and parses again has ten decimals, so it is taken as the number it spells. NaN and the two
-- infinities, which pgtype.Numeric has as well, are not modelled: an amount is a finite decimal.
pub mod Round
pub mod Units
pub mod Product
use Prim.Native.Nat.{compare, Ordering}
use mynance.Base.{
  ℕ, zero, suc, ◌+◌, ◌*◌, ◌/◌, ◌^◌, Bool, true, false, Option, none, some, if◌then◌else◌,
}
use mynance.Base.Int.{ℤ, pos, negsuc, pos_part, neg_part, sub_ℕ, ◌+ℤ◌, ◌-ℤ◌, ◌*ℤ◌, neg_ℤ}

-- `pgtype.Numeric`: `Int` may be nil, and the value is `Int` times ten to the `Exp`.
pub record Numeric : Type 0 where
  pub valid : Bool
  pub int : Option ℤ
  pub exp : ℤ

pub record Rat : Type 0 where
  pub num : ℤ
  pub den : ℕ

-- 10 ^ Scale, for `Scale = 10`.
abbrev pub scale_factor : ℕ
scale_factor = 10_000_000_000

abbrev pub whole : ℤ → Rat
whole n = record { num = n; den = 1 }

-- An integer times a power of ten.
unfoldable pub scaled : ℤ → ℤ → Rat
scaled n (pos e) = whole (n *ℤ pos (10 ^ e))
scaled n (negsuc e) = record { num = n; den = 10 ^ suc e }

unfoldable pub to_rat : Numeric → Rat
to_rat n =
    if n.valid
    then (elim n.int [ none ↦ whole (pos 0) | some i ↦ scaled i n.exp ])
    else whole (pos 0)

-- The absolute value of `FloatString(Scale)` without its point: the nearest multiple of ten to the
-- -Scale, halves away from zero.
unfoldable pub round_abs : ℕ → ℕ → ℕ
round_abs n d = (2 * (n * scale_factor) + d) / (2 * d)

unfoldable pub round : Rat → ℤ
round r = sub_ℕ (round_abs (pos_part r.num) r.den) (round_abs (neg_part r.num) r.den)

unfoldable pub from_rat : Rat → Numeric
from_rat r = record { valid = true; int = some (round r); exp = negsuc 9 }

-- `Parse("0")`
unfoldable pub zero_numeric : Numeric
zero_numeric = record { valid = true; int = some (pos 0); exp = pos 0 }

unfoldable pub mul : Numeric → Numeric → Numeric
mul a b =
    from_rat
      (record { num = (to_rat a).num *ℤ (to_rat b).num; den = (to_rat a).den * (to_rat b).den })

unfoldable pub sub : Numeric → Numeric → Numeric
sub a b = from_rat (record {
  num = (to_rat a).num *ℤ pos (to_rat b).den -ℤ (to_rat b).num *ℤ pos (to_rat a).den;
  den = (to_rat a).den * (to_rat b).den;
})

add_rat : Rat → Rat → Rat
add_rat a b = record { num = a.num *ℤ pos b.den +ℤ b.num *ℤ pos a.den; den = a.den * b.den }

unfoldable pub add : Numeric → Numeric → Numeric
unfolding add_rat
add a b = from_rat (add_rat (to_rat a) (to_rat b))

unfoldable pub neg : Numeric → Numeric
neg n = from_rat (record { num = neg_ℤ (to_rat n).num; den = (to_rat n).den })

-- `lt`, `eq` and `gt` are the results -1, 0 and 1 of `Cmp`.
unfoldable pub cmp_ℤ : ℤ → ℤ → Ordering
cmp_ℤ a b = compare (pos_part a + neg_part b) (pos_part b + neg_part a)

unfoldable pub cmp : Numeric → Numeric → Ordering
unfolding cmp_ℤ
cmp a b = cmp_ℤ ((to_rat a).num *ℤ pos (to_rat b).den) ((to_rat b).num *ℤ pos (to_rat a).den)

-- A column NUMERIC(30, 10) of migrations/: what is stored is the nearest multiple of ten to the -10,
-- held here as that multiple, and what is read back is exact.
unfoldable pub column : Numeric → ℤ
column n = round (to_rat n)

unfoldable pub loaded : ℤ → Numeric
loaded u = record { valid = true; int = some u; exp = negsuc 9 }

-- `filled_quantity + $1` in such a column.
unfoldable pub column_add : ℤ → Numeric → ℤ
unfolding add_rat
column_add u n = round (add_rat (to_rat (loaded u)) (to_rat n))
