-- ===== src/Wallet.antt =====
-- Deposit addresses: internal/wallet/service.go, internal/wallet/store.go and the addresses that
-- internal/wallet/domain.go makes up. The bytes of crypto/rand and the lower case of a text are Go's.
pub mod Address
pub mod Held
use mynance.Base.{
  ℕ, zero, suc, ◌+◌, ◌*◌, ◌/◌, ◌%◌, Bool, true, false, List, [], ◌∷◌, ◌++◌, Option, none, some,
  Bytes, bytes, ◌=ᵇ◌, ◌==◌, ◌&&◌, ◌||◌, if◌then◌else◌, not, length, get_or, set, ltb,
}
use mynance.Shared.{
  Error, not_found, validation, conflict, internal, Result, ok, err, ◌>>=◌, ◌>>◌, guard,
}
use mynance.Store.{
  Uuid, Env, io, new_uuid, Call, begin, commit, query, exec, Db, WalletAddress, account_id,
}
use mynance.Asset.{Catalog, network_id}
use mynance.Withdrawal.{as_validation}

abbrev pub base58_alphabet : Bytes
base58_alphabet = bytes "123456789ABCDEFGHJKLMNPQRSTUVWXYZabcdefghijkmnopqrstuvwxyz"

-- The loop of `base58Like`, from index `i` on; `& 0xff` is the remainder by 256.
unfoldable pub base58_from : ℕ → ℕ → List ℕ → Bytes
base58_from zero i seed = []
base58_from (suc n) i seed =
    let at = i % length seed in
    let x = get_or seed at 0 in
    get_or base58_alphabet (x % 58) 0 ∷ base58_from n (i + 1) (set seed at ((x + i * 31) % 256))

-- `base58Like`
abbrev pub base58_like : List ℕ → ℕ → Bytes
base58_like seed n = base58_from n 0 seed

abbrev pub hex_digits : Bytes
hex_digits = bytes "0123456789abcdef"

-- `hex.EncodeToString`
unfoldable pub hex : List ℕ → Bytes
hex [] = []
hex (b ∷ rest) = get_or hex_digits (b / 16) 0 ∷ get_or hex_digits (b % 16) 0 ∷ hex rest

-- `rand.Read` into a slice of that many bytes, at each attempt; and `strings.ToLower`.
pub record Random : Type 0 where
  pub read : ℕ → ℕ → Option (List ℕ)
  pub lower : Bytes → Bytes

abbrev pub with_random : Option (List ℕ) → (List ℕ → Bytes) → Result Bytes
with_random none make = err internal
with_random (some b) make = ok (make b)

-- `generateMockAddress`
unfoldable pub generate_mock_address : Random → ℕ → Bytes → Result Bytes
generate_mock_address r attempt network =
    if network =ᵇ bytes "Bitcoin"
    then with_random (r.read attempt 20) (λ b. bytes "bc1" ++ base58_like b 39)
    else (if (network =ᵇ bytes "ERC20") || (network =ᵇ bytes "BEP20")
        then with_random (r.read attempt 20) (λ b. bytes "0x" ++ hex b)
        else (if network =ᵇ bytes "TRON"
            then with_random (r.read attempt 16) (λ b. bytes "T" ++ base58_like b 33)
            else (if network =ᵇ bytes "Solana"
                then with_random (r.read attempt 24) (λ b. base58_like b 44)
                else with_random (r.read attempt 8)
                    (λ b. bytes "mock-" ++ (r.lower network ++ (bytes "-" ++ hex b))))))

abbrev pub is_held : Uuid → Bytes → Uuid → WalletAddress → Bool
is_held user asset network w =
    (w.user_id == user) && ((w.asset =ᵇ asset) && (w.network_id == network))

-- A row that breaks the primary key, UNIQUE (address) or UNIQUE (user_id, asset, network_id).
unfoldable pub wallet_known : WalletAddress → List WalletAddress → Bool
wallet_known new [] = false
wallet_known new (w ∷ rest) =
    if (w.id == new.id)
      || ((w.address =ᵇ new.address) || is_held new.user_id new.asset new.network_id w)
    then true
    else wallet_known new rest

-- `pgxStore.Create`
unfoldable pub create_wallet : Env → ℕ → WalletAddress → Db → Result Db
create_wallet env exec_call w db = do
  io env (exec exec_call)
  guard (not (wallet_known w db.wallets)) conflict
  ok (record db { wallets = w ∷ db.wallets })

-- `GetByUserAssetNetwork`
unfoldable pub find_held : Uuid → Bytes → Uuid → List WalletAddress → Option WalletAddress
find_held user asset network [] = none
find_held user asset network (w ∷ rest) =
    if is_held user asset network w then some w else find_held user asset network rest

pub record Holding : Type 0 where
  pub wallet : WalletAddress
  pub db : Db

abbrev pub new_wallet : Uuid → Uuid → Bytes → Uuid → Bytes → WalletAddress
new_wallet id user asset network address = record {
  id = id;
  user_id = user;
  asset = asset;
  network_id = network;
  address = address;
}

pub data Attempt : Type 0 where
  made : Holding → Attempt
  clashed : Attempt

abbrev pub clash : WalletAddress → Result Db → Result Attempt
clash w (ok db) = ok (made (record { wallet = w; db = db }))
clash w (err conflict) = ok clashed
clash w (err e) = err e

-- One round of the loop, with an `Env` of its own: a conflict is rolled back and tried again.
unfoldable pub try_address : Random → Env → ℕ → Db → Uuid → Bytes → Uuid → Bytes → Result Attempt
try_address r env attempt db user asset network network_name = do
  address ← generate_mock_address r attempt network_name
  id ← new_uuid env 0
  io env begin
  let w = new_wallet id user asset network address
  outcome ← clash w (create_wallet env 0 w db)
  (elim outcome [ made h ↦ io env commit | clashed ↦ ok tt ])
  ok outcome

unfoldable pub try_addresses :
    ℕ → Random → (ℕ → Env) → ℕ → Db → Uuid → Bytes → Uuid → Bytes → Result Holding
try_addresses zero r rounds attempt db user asset network network_name = err internal
try_addresses (suc left) r rounds attempt db user asset network network_name =
    try_address r (rounds attempt) attempt db user asset network network_name >>= λ outcome.
    elim outcome [
      | made h ↦ ok h
      | clashed ↦ try_addresses left r rounds (suc attempt) db user asset network network_name
    ]

abbrev pub max_attempts : ℕ
max_attempts = 3

-- `GetOrCreateAddress`: what is held is read in the first state, and the transactions run in the second.
unfoldable pub get_or_create_address :
    Random → Env → (ℕ → Env) → Catalog → Db → Db → Uuid → Bytes → Bytes → Result Holding
get_or_create_address r env rounds catalog seen db user asset network_name = do
  network ← as_validation (network_id env 0 catalog asset network_name)
  io env (query 1)
  (elim (find_held user asset network seen.wallets) [
    | some w ↦ ok (record { wallet = w; db = db })
    | none ↦ as_validation (account_id env 2 user asset seen) >>= λ account.
        try_addresses max_attempts r rounds 0 db user asset network network_name
  ])
