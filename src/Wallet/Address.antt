-- ===== src/Wallet/Address.antt =====
-- The shape of the addresses that internal/wallet/domain.go makes up, against the patterns of the
-- networks in migrations/00012_create_asset_catalog.sql.
use mynance.Base.{
  ℕ, zero, suc, ◌+◌, ◌*◌, ◌/◌, ◌%◌, ◌<◌, Bool, true, List, [], ◌∷◌, ◌++◌, some, none, Bytes, bytes,
  ◌=ᵇ◌, ◌&&◌, ◌||◌, ◌≡◌, refl, leb, length, get_or, set, All, subst, arith, Option,
}
use mynance.Shared.{ok, ok_inj}
use mynance.Wallet.{
  base58_alphabet, base58_from, base58_like, hex_digits, hex, Random, with_random,
  generate_mock_address,
}

abbrev between : ℕ → ℕ → ℕ → Bool
between lo hi c = leb lo c && leb c hi

-- `[1-9A-HJ-NP-Za-km-z]`
abbrev is_base58 : ℕ → Bool
is_base58 c =
    between b'1' b'9' c
    || (between b'A' b'H' c
        || (between b'J' b'N' c
            || (between b'P' b'Z' c || (between b'a' b'k' c || between b'm' b'z' c))))

abbrev pub IsBase58 : ℕ → Type 0
IsBase58 c = is_base58 c ≡ true

-- `[a-f0-9]`
abbrev is_hex : ℕ → Bool
is_hex c = between b'0' b'9' c || between b'a' b'f' c

abbrev pub IsHex : ℕ → Type 0
IsHex c = is_hex c ≡ true

alphabet_small : length base58_alphabet ≡ 58
alphabet_small = refl

abbrev all_of : (ℕ → Bool) → List ℕ → Bool
all_of p [] = true
all_of p (x ∷ xs) = p x && all_of p xs

all_of-All : (p : ℕ → Bool) (xs : List ℕ) → all_of p xs ≡ true → All (λ (x : ℕ). p x ≡ true) xs
all_of-All p [] h = tt
all_of-All p (x ∷ xs) h = (ground arith, all_of-All p xs (ground arith))

alphabet-IsBase58 : All IsBase58 base58_alphabet
alphabet-IsBase58 = all_of-All is_base58 base58_alphabet refl

hex_digits-IsHex : All IsHex hex_digits
hex_digits-IsHex = all_of-All is_hex hex_digits refl

All-get_or : (P : ℕ → Type 0) (xs : List ℕ) (i d : ℕ) → All P xs → i < length xs → P (get_or xs i d)
All-get_or P [] i d h k = absurd (omega arith)
All-get_or P (x ∷ xs) zero d h k = h.0
All-get_or P (x ∷ xs) (suc i) d h k = All-get_or P xs i d h.1 (omega arith)

base58_from-All : (n i : ℕ) (seed : List ℕ) → All IsBase58 (base58_from n i seed)
unfolding base58_from
base58_from-All zero i seed = tt
base58_from-All (suc n) i seed =
    let x = get_or seed (i % length seed) 0 in
    (
      All-get_or IsBase58 base58_alphabet (x % 58) 0 alphabet-IsBase58
          (omega (arith, alphabet_small)),
      base58_from-All n (i + 1) (set seed (i % length seed) ((x + i * 31) % 256)),
    )

length-base58_from : (n i : ℕ) (seed : List ℕ) → length (base58_from n i seed) ≡ n
unfolding base58_from
length-base58_from zero i seed = refl
length-base58_from (suc n) i seed =
    let x = get_or seed (i % length seed) 0 in
    omega (arith, length-base58_from n (i + 1) (set seed (i % length seed) ((x + i * 31) % 256)))

hex-All : (bs : List ℕ) → All (λ b. b < 256) bs → All IsHex (hex bs)
unfolding hex
hex-All [] h = tt
hex-All (b ∷ rest) h = (
  All-get_or IsHex hex_digits (b / 16) 0 hex_digits-IsHex (omega (arith, h.0)),
  (All-get_or IsHex hex_digits (b % 16) 0 hex_digits-IsHex (omega arith), hex-All rest h.1),
)

length-hex : (bs : List ℕ) → length (hex bs) ≡ 2 * length bs
unfolding hex
length-hex [] = refl
length-hex (b ∷ rest) = omega (arith, length-hex rest)

-- A fixed start, and so many characters of a class after it.
pub record Matches (start : Bytes) (P : ℕ → Type 0) (n : ℕ) (address : Bytes) : Type 0 where
  pub rest : Bytes
  pub starts : address ≡ start ++ rest
  pub long : length rest ≡ n
  pub class : All P rest

-- `^…[base58]{n}$` and `^…[a-f0-9]{n}$`
pub data Shape : Type 0 where
  base58_shape hex_shape : Bytes → ℕ → Shape

-- The networks whose patterns are shipped.
pub data Shipped (network : Bytes) : Shape → Type 0 where
  bitcoin : network ≡ bytes "Bitcoin" → Shipped network (base58_shape (bytes "bc1") 39)
  erc20 : network ≡ bytes "ERC20" → Shipped network (hex_shape (bytes "0x") 40)
  bep20 : network ≡ bytes "BEP20" → Shipped network (hex_shape (bytes "0x") 40)
  tron : network ≡ bytes "TRON" → Shipped network (base58_shape (bytes "T") 33)
  solana : network ≡ bytes "Solana" → Shipped network (base58_shape [] 44)

abbrev pub Conforms : Shape → Bytes → Type 0
Conforms (base58_shape start n) address = Matches start IsBase58 n address
Conforms (hex_shape start n) address = Matches start IsHex n address

IsBase58-at :
    (start : Bytes) (seed : List ℕ) (n : ℕ) → Matches start IsBase58 n (start ++ base58_like seed n)
IsBase58-at start seed n = record {
  rest = base58_like seed n;
  starts = refl;
  long = length-base58_from n 0 seed;
  class = base58_from-All n 0 seed;
}

hex_at :
    (bs : List ℕ) (n : ℕ)
    → length bs ≡ n
    → All (λ b. b < 256) bs
    → Matches (bytes "0x") IsHex (2 * n) (bytes "0x" ++ hex bs)
hex_at bs n h small = record {
  rest = hex bs;
  starts = refl;
  long = omega (arith, length-hex bs);
  class = hex-All bs small;
}

-- What is asked of the random source: a slice is filled with as many bytes as it has room for.
abbrev pub FillsBytes : Random → Type 0
FillsBytes r =
    (attempt n : ℕ) (bs : List ℕ)
    → r.read attempt n ≡ some bs
    → (length bs ≡ n) × All (λ b. b < 256) bs

made_by :
    (P : Bytes → Type 0) (o : Option (List ℕ)) (make : List ℕ → Bytes) (address : Bytes)
    → ((bs : List ℕ) → o ≡ some bs → P (make bs))
    → with_random o make ≡ ok address
    → P address
made_by P none make address h e = cc
made_by P (some bs) make address h e = subst P (ok_inj e) (h bs refl)

module _ (r : Random) (fills : FillsBytes r) (attempt : ℕ) (address : Bytes) where
  made-IsBase58 :
      (start : Bytes) (n bytes_read : ℕ)
      → with_random (r.read attempt bytes_read) (λ b. start ++ base58_like b n) ≡ ok address
      → Matches start IsBase58 n address
  made-IsBase58 start n k h =
      made_by (Matches start IsBase58 n) (r.read attempt k) (λ b. start ++ base58_like b n) address
        (λ bs e. IsBase58-at start bs n) h

  made_hex :
      with_random (r.read attempt 20) (λ b. bytes "0x" ++ hex b) ≡ ok address
      → Matches (bytes "0x") IsHex 40 address
  made_hex h =
      made_by (Matches (bytes "0x") IsHex 40) (r.read attempt 20) (λ b. bytes "0x" ++ hex b) address
        (λ bs e. let f = fills attempt 20 bs e in hex_at bs 20 f.0 f.1) h

  abbrev Made : Bytes → Type 0
  Made network = generate_mock_address r attempt network ≡ ok address

  at_bitcoin : Made (bytes "Bitcoin") → Matches (bytes "bc1") IsBase58 39 address
  unfolding generate_mock_address ◌=ᵇ◌
  at_bitcoin h = made-IsBase58 (bytes "bc1") 39 20 h

  at_erc20 : Made (bytes "ERC20") → Matches (bytes "0x") IsHex 40 address
  unfolding generate_mock_address ◌=ᵇ◌
  at_erc20 h = made_hex h

  at_bep20 : Made (bytes "BEP20") → Matches (bytes "0x") IsHex 40 address
  unfolding generate_mock_address ◌=ᵇ◌
  at_bep20 h = made_hex h

  at_tron : Made (bytes "TRON") → Matches (bytes "T") IsBase58 33 address
  unfolding generate_mock_address ◌=ᵇ◌
  at_tron h = made-IsBase58 (bytes "T") 33 16 h

  at_solana : Made (bytes "Solana") → Matches [] IsBase58 44 address
  unfolding generate_mock_address ◌=ᵇ◌
  at_solana h = made-IsBase58 [] 44 24 h

  -- If the random source fills its slices, an address that is made up for a network whose pattern is
  -- shipped matches it: the fixed start, and after it so many characters of the base58 alphabet or so
  -- many hexadecimal digits.
  pub generate_mock_address-Conforms :
      {network : Bytes} {shape : Shape}
      → Shipped network shape
      → generate_mock_address r attempt network ≡ ok address
      → Conforms shape address
  generate_mock_address-Conforms (bitcoin e) h = at_bitcoin (subst Made e h)
  generate_mock_address-Conforms (erc20 e) h = at_erc20 (subst Made e h)
  generate_mock_address-Conforms (bep20 e) h = at_bep20 (subst Made e h)
  generate_mock_address-Conforms (tron e) h = at_tron (subst Made e h)
  generate_mock_address-Conforms (solana e) h = at_solana (subst Made e h)
