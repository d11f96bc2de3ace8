-- ===== src/Book/Float.antt =====
-- What the matching relies on in float64 subtraction, on finite values that are not negative.
use mynance.Base.{ℕ, ◌-◌, ◌<◌, ◌≡◌, arith}

-- With gradual underflow x - y is zero if x and y are equal, and above zero if y is below x.
pub record IsSub (fsub : ℕ → ℕ → ℕ) : Type 0 where
  pub sub_self : (x : ℕ) → fsub x x ≡ 0
  pub sub_pos : (x y : ℕ) → y < x → 0 < fsub x y

-- The bit pattern of a subnormal float64 is its multiple of the least one, so on subnormal values
-- float subtraction is this one.
abbrev pub subnormal_sub : ℕ → ℕ → ℕ
subnormal_sub x y = x - y

pub subnormal_sub-IsSub : IsSub subnormal_sub
subnormal_sub-IsSub = record { sub_self = λ x. omega arith; sub_pos = λ x y h. omega arith }
