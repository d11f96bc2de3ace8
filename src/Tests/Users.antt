-- ===== src/Tests/Users.antt =====
-- Users, their accounts and their deposit addresses on concrete inputs.
use mynance.Base.{
  ℕ, zero, suc, ◌≡◌, ◌≢◌, refl, true, List, [], ◌∷◌, some, some_inj, subst, Bytes, bytes, ◌=ᵇ◌,
  =ᵇ_refl,
}
use mynance.Shared.{ok, ◌>>=◌, guard}
use mynance.Store.{Db, io, new_uuid, find_account, account_id}
use mynance.Asset.{
  Asset, Catalog, list_assets, enabled_symbols, network_id, get_network, find_network,
}
use mynance.Order.{listed}
use mynance.Account.{Tx, account_known, create_account_row, commit_tx, provision}
use mynance.Account.Provision.{HasAccount}
use mynance.User.{
  Crypto, CreateUserCommand, Registered, user_known, create_user_row, find_user, mark_deleted,
  provision_all, create_user, login, delete_user,
}
use mynance.User.Signup.{
  Welcomed, symbols_of, create_user-Welcomed, login-create_user, login-delete_user,
  provision_all-clash,
}
use mynance.Wallet.{
  Random, Holding, base58_from, generate_mock_address, find_held, wallet_known, create_wallet,
  try_address, try_addresses, get_or_create_address,
}
use mynance.Wallet.Held.{Held, get_or_create_address-HeldFor}
use mynance.Tests.{env, db, usdt, btc}

abbrev pub assets : List Asset
assets = record { symbol = btc; enabled = true } ∷ record { symbol = usdt; enabled = true } ∷ []

-- A hash is the password itself.
abbrev pub crypto : Crypto
crypto = record {
  hash_password = λ salt password. some password;
  check_password = λ password hash. password =ᵇ hash;
}

accepts :
    (n : ℕ) (p h : Bytes) → crypto.hash_password n p ≡ some h → crypto.check_password p h ≡ true
accepts n p h e = subst (λ (x : Bytes). (p =ᵇ x) ≡ true) (some_inj e) (=ᵇ_refl p)

abbrev newcomer : CreateUserCommand
newcomer = record {
  email = bytes "e";
  username = bytes "n";
  full_name = bytes "f";
  password = bytes "p";
}

unfoldable signed_up : (d : Registered) × (create_user crypto 0 env assets db newcomer ≡ ok d)
unfolding create_user create_user_row user_known provision_all enabled_symbols list_assets provision
    create_account_row account_known commit_tx ◌>>=◌ guard io new_uuid ◌=ᵇ◌
signed_up = (_, refl)

create_user-Welcomed_example :
    (hash : Bytes) × (crypto.hash_password 0 (bytes "p") ≡ some hash)
    × Welcomed db assets newcomer hash signed_up.0
create_user-Welcomed_example =
    create_user-Welcomed crypto 0 env assets db newcomer signed_up.0 signed_up.1

login-create_user_example :
    login crypto env signed_up.0.db newcomer.email newcomer.password ≡ ok signed_up.0.user
login-create_user_example =
    login-create_user crypto 0 env env assets db newcomer signed_up.0 accepts signed_up.1 refl

deleted : (x : Db) × (delete_user env signed_up.0.db signed_up.0.user.id ≡ ok x)
unfolding signed_up delete_user find_user mark_deleted ◌>>=◌ guard io
deleted = (_, refl)

login-delete_user_example : login crypto env deleted.0 (bytes "e") (bytes "p") ≢ ok signed_up.0.user
login-delete_user_example =
    login-delete_user crypto 0 env env env assets db deleted.0 newcomer signed_up.0 (bytes "p")
      signed_up.0.user signed_up.1 deleted.1

-- The only asset, in which user 1 has an account already.
abbrev quote_asset : List Asset
quote_asset = record { symbol = usdt; enabled = true } ∷ []

again : (tx : Tx) × (provision_all env quote_asset 1 db ≡ ok tx)
unfolding provision_all enabled_symbols list_assets provision create_account_row account_known ◌>>=◌
    guard io new_uuid ◌=ᵇ◌
again = (_, refl)

has_usdt : HasAccount 1 usdt db.accounts
unfolding find_account ◌=ᵇ◌
has_usdt = (_, refl)

usdt-listed : listed usdt (symbols_of quote_asset) ≡ true
unfolding listed list_assets ◌=ᵇ◌
usdt-listed = refl

provision_all-clash_example : commit_tx env again.0 ≢ ok db
provision_all-clash_example =
    provision_all-clash env quote_asset 1 db usdt again.0 db usdt-listed has_usdt again.1

abbrev pub zeros : ℕ → List ℕ
zeros n = elim n [ zero ↦ [] | suc (k → rest) ↦ 0 ∷ rest ]

abbrev pub random : Random
random = record { read = λ attempt n. some (zeros n); lower = λ text. text }

abbrev pub catalog : Catalog
catalog = record {
  networks =
      record {
        id = 43;
        asset_symbol = usdt;
        name = bytes "TRON";
        address_pattern = bytes "p";
        enabled = true;
      }
      ∷ [];
  matches = λ pattern address. some true;
}

given :
    (h : Holding) × (get_or_create_address random env (λ n. env) catalog db db 1 usdt (bytes "TRON")
      ≡ ok h)
unfolding get_or_create_address try_addresses try_address generate_mock_address base58_from
    create_wallet wallet_known find_held network_id get_network find_network account_id find_account
    ◌>>=◌ guard io new_uuid ◌=ᵇ◌
given = (_, refl)

get_or_create_address-HeldFor_example :
    (network : ℕ) × (network_id env 0 catalog usdt (bytes "TRON") ≡ ok network)
    × Held db db 1 usdt network given.0
get_or_create_address-HeldFor_example =
    get_or_create_address-HeldFor random env (λ n. env) catalog db db 1 usdt (bytes "TRON") given.0
      given.1
