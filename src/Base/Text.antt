-- ===== src/Base/Text.antt =====
-- Go strings: sequences of bytes, compared by `==`.
use Prim.Native.Nat.{ℕ}
use Prim.Native.Char.{code}
use Prim.Native.String.{String}
use mathlib.Core.Path.{◌≡◌, refl, subst}
use mathlib.Core.Logic.{◌↔◌}
use mathlib.Core.Bool.{Bool, true, false, ◌&&◌}
use mathlib.Core.List.{List, [], ◌∷◌}
use native.Mathlib.Omega.{arith}
use mynance.Base.Tests.{◌==◌}

abbrev pub Bytes : Type 0
Bytes = List ℕ

-- The bytes of an ASCII literal.
abbrev pub bytes : String → Bytes
bytes String.[] = []
bytes (String.◌∷◌ c s) = code c ∷ bytes s

infix 50 ◌=ᵇ◌
unfoldable pub ◌=ᵇ◌ : Bytes → Bytes → Bool
[] =ᵇ [] = true
[] =ᵇ (y ∷ ys) = false
(x ∷ xs) =ᵇ [] = false
(x ∷ xs) =ᵇ (y ∷ ys) = (x == y) && (xs =ᵇ ys)

pub =ᵇ_refl : (x : Bytes) → (x =ᵇ x) ≡ true
unfolding ◌=ᵇ◌
=ᵇ_refl [] = refl
=ᵇ_refl (x ∷ xs) = ground (arith, =ᵇ_refl xs)

pub eq_of_bytes : (x y : Bytes) → (x =ᵇ y) ≡ true → x ≡ y
unfolding ◌=ᵇ◌
eq_of_bytes [] [] h = refl
eq_of_bytes [] (y ∷ ys) h = cc
eq_of_bytes (x ∷ xs) [] h = cc
eq_of_bytes (x ∷ xs) (y ∷ ys) h = ground (arith, eq_of_bytes xs ys)

pub bytes_iff : (x y : Bytes) → ((x =ᵇ y) ≡ true) ↔ (x ≡ y)
bytes_iff x y = (eq_of_bytes x y, λ e. subst (λ z. (x =ᵇ z) ≡ true) e (=ᵇ_refl x))
