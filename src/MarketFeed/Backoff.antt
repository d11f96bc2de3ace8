-- ===== src/MarketFeed/Backoff.antt =====
-- How long `Start` of internal/marketfeed/client.go waits before it connects again.
use mynance.Base.{
  ℕ, zero, suc, ◌+◌, ◌*◌, ◌%◌, ◌^◌, ◌<◌, Bool, true, false, ◌&&◌, List, [], ◌∷◌, ◌≡◌, refl, ap, ◌∙◌,
  arith, ltb, leb, if◌then◌else◌, drop, All, Bool-cases, inl, inr,
}
use mynance.Base.Int.{ℤ, pos, negsuc}
use mynance.MarketFeed.{Json, Connection, Client, receive}
use mynance.MarketFeed.Start.{second, backoff, start_from, start}

-- Twice as long each time, up to half a minute.
abbrev pub doubling : ℕ → ℕ
doubling attempt = if ltb 30 (2 ^ attempt) then 30 else 2 ^ attempt

abbrev same_ℤ : ℤ → ℕ → Bool
same_ℤ (pos n) m = leb n m && leb m n
same_ℤ (negsuc n) m = false

abbrev all_below : ℕ → (ℕ → Bool) → Bool
all_below zero p = true
all_below (suc n) p = p n && all_below n p

all_below-at : (n : ℕ) (p : ℕ → Bool) (k : ℕ) → all_below n p ≡ true → k < n → p k ≡ true
all_below-at zero p k h less = absurd (omega (arith, less))
all_below-at (suc n) p k h less = ground (arith, all_below-at n p k, less, h)

same_ℤ-at : (z : ℤ) (m : ℕ) → same_ℤ z m ≡ true → z ≡ pos m
same_ℤ-at (pos n) m h = let e : n ≡ m = ground (arith, h) in ap pos e
same_ℤ-at (negsuc n) m h = cc

first_waits : all_below 34 (λ k. same_ℤ (backoff k) (doubling k * second)) ≡ true
unfolding backoff
first_waits = refl

-- The first 34 waits double from one second and stop at half a minute.
pub backoff-doubling :
    (attempt : ℕ) → attempt < 34 → backoff attempt ≡ pos (doubling attempt * second)
backoff-doubling attempt h =
    same_ℤ-at (backoff attempt) (doubling attempt * second)
      (all_below-at 34 (λ k. same_ℤ (backoff k) (doubling k * second)) attempt first_waits h)

double : (k m : ℕ) → 2 ^ k ≡ m → 2 ^ suc k ≡ 2 * m
double k m h = omega (arith, h)

again : (n : ℕ) → 2 * (36_028_797_018_963_968 * 2 ^ n) ≡ 36_028_797_018_963_968 * 2 ^ suc n
again n = omega arith

times_64 : (y : ℕ) → 36_028_797_018_963_968 * y * second % 2 ^ 64 ≡ 0
times_64 y = omega arith

pow-add : (n : ℕ) → 2 ^ (55 + n) ≡ 36_028_797_018_963_968 * 2 ^ n
pow-add zero = refl
pow-add (suc n) =
    ap (λ (k : ℕ). 2 ^ k) (omega arith)
    ∙ double (55 + n) (36_028_797_018_963_968 * 2 ^ n) (pow-add n)
    ∙ again n

overflown : (n : ℕ) → 2 ^ (55 + n) * second % 2 ^ 64 ≡ 0
overflown n = rw (pow-add n) (times_64 (2 ^ n))

-- From the 56th on there is no wait: the shift and the product have left the 64 bits.
backoff-none : (n : ℕ) → backoff (55 + n) ≡ pos 0
unfolding backoff
backoff-none n = rw (overflown n) refl

abbrev pub NoWait : ℤ → Type 0
NoWait w = w ≡ pos 0

start_from-waits :
    (j : Json) (a n : ℕ) (ks : List Connection) (c : Client)
    → a ≡ 55 + n
    → All NoWait (start_from j a ks c).waits
unfolding start_from
start_from-waits j a n [] c e = tt
start_from-waits j a n (k ∷ rest) c e = elim (Bool-cases k.stopping) [
  | inl stops ↦ rw stops tt
  | inr goes ↦ rw goes (
    ap backoff e ∙ backoff-none n,
    start_from-waits j (suc a) (suc n) rest (receive j k.messages c).client (omega (arith, e)),
  )
]

start_from-drop :
    (j : Json) (m a : ℕ) (ks : List Connection) (c : Client)
    → a + m ≡ 55
    → All NoWait (drop m (start_from j a ks c).waits)
unfolding start_from
start_from-drop j zero a ks c e = start_from-waits j a 0 ks c (omega (arith, e))
start_from-drop j (suc m) a [] c e = tt
start_from-drop j (suc m) a (k ∷ rest) c e = elim (Bool-cases k.stopping) [
  | inl stops ↦ rw stops tt
  | inr goes ↦
      rw goes (start_from-drop j m (suc a) rest (receive j k.messages c).client (omega (arith, e)))
]

-- Whatever the connections deliver, and however long each of them stands, all waits after the first
-- 55 are zero: the client then connects again and again with no pause.
pub start-hot :
    (j : Json) (ks : List Connection) (c : Client) → All NoWait (drop 55 (start j ks c).waits)
unfolding start
start-hot j ks c = elim (Bool-cases c.enabled) [
  | inl e ↦ simp e (start_from-drop j 55 0 ks c refl)
  | inr e ↦ simp e tt
]
