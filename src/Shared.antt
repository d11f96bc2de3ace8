-- ===== src/Shared.antt =====
-- Errors as values: the sentinels of internal/shared/errors.go, which wrapping by `%w` keeps, and the
-- sequence of fallible calls that a Go function makes. `internal` is any error that is no sentinel.
use mynance.Base.{Bool, true, false, ◌≡◌, refl, subst, ◌⊎◌, inl, inr}

pub data Error : Type 0 where
  not_found duplicate_idempotency_key insufficient_funds invalid_state_transition : Error
  bad_request unauthorized forbidden conflict validation rate_limit_exceeded : Error
  service_unavailable not_implemented internal : Error

pub data Result (A : Type 0) : Type 0 where
  ok : A → Result A
  err : Error → Result A

infixl 5 ◌>>=◌ ◌>>◌
unfoldable pub ◌>>=◌ : {A B : Type 0} → Result A → (A → Result B) → Result B
ok a >>= f = f a
err e >>= f = err e

abbrev pub ◌>>◌ : {A B : Type 0} → Result A → Result B → Result B
m >> k = m >>= λ _. k

-- `if !b { return e }`
unfoldable pub guard : Bool → Error → Result (Unit {0})
guard true e = ok tt
guard false e = err e

-- What a call ensures of its result, if it returns one.
unfoldable pub Post : {A : Type 0} → (A → Type 0) → Result A → Type 0
Post P (ok a) = P a
Post P (err e) = Unit

module _ {A : Type 0} where
  pub Post-ok : (P : A → Type 0) (a : A) → P a → Post P (ok a)
  unfolding Post
  Post-ok P a p = p

  pub Post-at : (P : A → Type 0) {r : Result A} {a : A} → Post P r → r ≡ ok a → P a
  unfolding Post
  Post-at P h e = subst (Post P) e h

  pub Post-map :
      (P : A → Type 0) (Q : A → Type 0) (r : Result A) → ((a : A) → P a → Q a) → Post P r → Post Q r
  unfolding Post
  Post-map P Q (ok a) f h = f a h
  Post-map P Q (err e) f h = tt

  -- Every result may be assumed to be the one returned.
  pub Post-self : (P : A → Type 0) (r : Result A) → ((a : A) → r ≡ ok a → P a) → Post P r
  unfolding Post
  Post-self P (ok a) f = f a refl
  Post-self P (err e) f = tt

  -- After a call the rest goes on with what the call returned.
  pub Post-bind :
      {B : Type 0} (P : B → Type 0) (m : Result A) (f : A → Result B)
      → ((a : A) → m ≡ ok a → Post P (f a))
      → Post P (m >>= f)
  unfolding Post ◌>>=◌
  Post-bind P (ok a) f h = h a refl
  Post-bind P (err e) f h = tt

pub guard-ok : (b : Bool) (e : Error) {u : Unit {0}} → guard b e ≡ ok u → b ≡ true
unfolding guard
guard-ok true e h = refl
guard-ok false e h = cc

pub ok_inj : {A : Type 0} {a b : A} → ok a ≡ ok b → a ≡ b
ok_inj h = cc

pub Result-cases :
    {A : Type 0} (r : Result A) → ((a : A) × (r ≡ ok a)) ⊎ ((e : Error) × (r ≡ err e))
Result-cases (ok a) = inl (a, refl)
Result-cases (err e) = inr (e, refl)
