-- ===== src/Wallet/Held.antt =====
-- What `GetOrCreateAddress` of internal/wallet/service.go returns and stores.
use mynance.Base.{
  ℕ, zero, suc, true, false, List, ◌∷◌, none, some, Option-cases, inl, inr, ◌⊎◌, Bytes, =ᵇ_refl,
  ==_refl, ◌≡◌, refl, ap, ◌∙◌, arith,
}
use mynance.Shared.{
  not_found, Result, ok, err, conflict, ◌>>=◌, guard, Post, Post-at, Post-bind, Post-ok, Post-map,
}
use mynance.Store.{Uuid, Env, io, query, Db, WalletAddress}
use mynance.Asset.{Catalog, get_network, network_id}
use mynance.Withdrawal.{as_validation}
use mynance.Wallet.{
  Random, is_held, wallet_known, create_wallet, find_held, Holding, new_wallet, Attempt, made,
  clashed, clash, try_address, try_addresses, max_attempts, get_or_create_address,
}

-- A new row: the request's own, under an address that no row has, in front of all other rows.
pub record Added (db : Db) (user : Uuid) (asset : Bytes) (network : Uuid) (h : Holding)
    : Type 0 where
  pub fresh : wallet_known h.wallet db.wallets ≡ false
  pub own : is_held user asset network h.wallet ≡ true
  pub stored : h.db.wallets ≡ h.wallet ∷ db.wallets
  pub ledger_kept : h.db.ledger ≡ db.ledger
  pub orders_kept : h.db.orders ≡ db.orders
  pub keys_kept : h.db.idempotency_keys ≡ db.idempotency_keys

abbrev AddedIf : Db → Uuid → Bytes → Uuid → Attempt → Type 0
AddedIf db user asset network (made h) = Added db user asset network h
AddedIf db user asset network clashed = Unit

own_wallet :
    (id user : Uuid) (asset : Bytes) (network : Uuid) (address : Bytes)
    → is_held user asset network (new_wallet id user asset network address) ≡ true
own_wallet id user asset network address = rw (==_refl user, =ᵇ_refl asset, ==_refl network) refl

create_wallet-Post :
    (env : Env) (k : ℕ) (w : WalletAddress) (db : Db)
    → Post
        (λ x.
          (wallet_known w db.wallets ≡ false)
          × (x.wallets ≡ w ∷ db.wallets)
          × (x.ledger ≡ db.ledger)
          × (x.orders ≡ db.orders)
          × (x.idempotency_keys ≡ db.idempotency_keys))
        (create_wallet env k w db)
unfolding create_wallet ◌>>=◌ io guard Post
create_wallet-Post env k w db = ground arith

clash-Post :
    (db : Db) (user : Uuid) (asset : Bytes) (network : Uuid) (w : WalletAddress) (r : Result Db)
    → is_held user asset network w ≡ true
    → Post
        (λ x.
          (wallet_known w db.wallets ≡ false)
          × (x.wallets ≡ w ∷ db.wallets)
          × (x.ledger ≡ db.ledger)
          × (x.orders ≡ db.orders)
          × (x.idempotency_keys ≡ db.idempotency_keys))
        r
    → Post (AddedIf db user asset network) (clash w r)
unfolding Post
clash-Post db user asset network w (ok x) own h = record {
  fresh = h.0;
  own = own;
  stored = h.1;
  ledger_kept = h.2;
  orders_kept = h.3;
  keys_kept = h.4;
}
clash-Post db user asset network w (err conflict) own h = tt
clash-Post db user asset network w (err e) own h = tt

try_address-Post :
    (r : Random) (env : Env) (attempt : ℕ) (db : Db) (user : Uuid) (asset : Bytes) (network : Uuid)
    (name : Bytes)
    → Post (AddedIf db user asset network) (try_address r env attempt db user asset network name)
unfolding try_address
try_address-Post r env attempt db user asset network name = Post-bind _ _ _ (λ address _.
    Post-bind _ _ _ (λ id _. Post-bind _ _ _ (λ _ _. Post-bind _ _ _ (λ outcome o.
      Post-bind _ _ _ (λ _ _.
        let w = new_wallet id user asset network address in
        Post-ok (AddedIf db user asset network) outcome (
          Post-at (AddedIf db user asset network)
            (clash-Post db user asset network w _ (own_wallet id user asset network address)
              (create_wallet-Post env 0 w db))
            o))))))

pick-Post :
    (db : Db) (user : Uuid) (asset : Bytes) (network : Uuid) (outcome : Attempt)
    (next : Result Holding)
    → AddedIf db user asset network outcome
    → Post (Added db user asset network) next
    → Post (Added db user asset network) (elim outcome [ made h ↦ ok h | clashed ↦ next ])
unfolding Post
pick-Post db user asset network (made h) next a k = a
pick-Post db user asset network clashed next a k = k

try_addresses-Post :
    (left : ℕ) (r : Random) (rounds : ℕ → Env) (attempt : ℕ) (db : Db) (user : Uuid) (asset : Bytes)
    (network : Uuid) (name : Bytes)
    → Post
        (Added db user asset network)
        (try_addresses left r rounds attempt db user asset network name)
unfolding try_addresses Post
try_addresses-Post zero r rounds attempt db user asset network name = tt
try_addresses-Post (suc left) r rounds attempt db user asset network name =
    Post-bind (Added db user asset network)
      (try_address r (rounds attempt) attempt db user asset network name) _
      (λ outcome o.
        pick-Post db user asset network outcome _
          (Post-at (AddedIf db user asset network)
            (try_address-Post r (rounds attempt) attempt db user asset network name) o)
          (try_addresses-Post left r rounds (suc attempt) db user asset network name))

-- What is returned: the wallet that was seen, with nothing changed, or a new one.
abbrev pub Held : Db → Db → Uuid → Bytes → Uuid → Holding → Type 0
Held seen db user asset network h =
    ((find_held user asset network seen.wallets ≡ some h.wallet) × (h.db ≡ db))
    ⊎ ((find_held user asset network seen.wallets ≡ none) × Added db user asset network h)

as_validation-ok : {A : Type 0} (r : Result A) (a : A) → as_validation r ≡ ok a → r ≡ ok a
as_validation-ok (ok b) a e = e
as_validation-ok (err not_found) a e = cc
as_validation-ok (err e) a k = cc

abbrev HeldFor : Env → Catalog → Db → Db → Uuid → Bytes → Bytes → Holding → Type 0
HeldFor env catalog seen db user asset name h =
    (network : Uuid) × (network_id env 0 catalog asset name ≡ ok network)
    × Held seen db user asset network h

get_or_create_address-Post :
    (r : Random) (env : Env) (rounds : ℕ → Env) (catalog : Catalog) (seen db : Db) (user : Uuid)
    (asset name : Bytes)
    → Post
        (HeldFor env catalog seen db user asset name)
        (get_or_create_address r env rounds catalog seen db user asset name)
unfolding get_or_create_address
get_or_create_address-Post r env rounds catalog seen db user asset name =
    Post-bind _ _ _ (λ network n. Post-bind _ _ _ (λ _ _.
      let known = as_validation-ok (network_id env 0 catalog asset name) network n in
      elim (Option-cases (find_held user asset network seen.wallets)) [
        | inl e ↦ rw e (
            Post-bind _ _ _ (λ account _.
              Post-map (Added db user asset network) _ _ (λ h a. (network, known, inr (e, a)))
                (try_addresses-Post max_attempts r rounds 0 db user asset network name)))
        | inr (w, e) ↦ rw e (Post-ok _ _ (network, known, inl (e, refl)))
      ]))

-- `GetOrCreateAddress` returns only for a network that is known. It returns the wallet that was seen
-- of that user, asset and network, changing nothing; or, if none was seen, it stores a new one for them
-- under an address that no wallet has, keeps all other wallets, all orders and keys, and books nothing.
pub get_or_create_address-HeldFor :
    (r : Random) (env : Env) (rounds : ℕ → Env) (catalog : Catalog) (seen db : Db) (user : Uuid)
    (asset name : Bytes) (h : Holding)
    → get_or_create_address r env rounds catalog seen db user asset name ≡ ok h
    → (network : Uuid) × (network_id env 0 catalog asset name ≡ ok network)
      × Held seen db user asset network h
get_or_create_address-HeldFor r env rounds catalog seen db user asset name h e =
    Post-at (HeldFor env catalog seen db user asset name)
      (get_or_create_address-Post r env rounds catalog seen db user asset name) e

network_id_again :
    (env env' : Env) (k : ℕ) (catalog : Catalog) (asset name : Bytes) (network : Uuid)
    → network_id env k catalog asset name ≡ ok network
    → env'.fails (query k) ≡ false
    → network_id env' k catalog asset name ≡ ok network
unfolding network_id get_network ◌>>=◌ io guard
network_id_again env env' k catalog asset name network h f = ground (arith, h, f)

first_held :
    (user : Uuid) (asset : Bytes) (network : Uuid) (w : WalletAddress) (rest : List WalletAddress)
    → is_held user asset network w ≡ true
    → find_held user asset network (w ∷ rest) ≡ some w
unfolding find_held
first_held user asset network w rest h = rw h refl

Held-after :
    (db : Db) (user : Uuid) (asset : Bytes) (network : Uuid) (h : Holding)
    → Held db db user asset network h
    → find_held user asset network h.db.wallets ≡ some h.wallet
Held-after db user asset network h (inl (found, same)) =
    ap (λ (x : Db). find_held user asset network x.wallets) same ∙ found
Held-after db user asset network h (inr (none_seen, a)) =
    ap (find_held user asset network) a.stored
    ∙ first_held user asset network h.wallet db.wallets a.own

held_again :
    (r : Random) (env : Env) (rounds : ℕ → Env) (catalog : Catalog) (db : Db) (user : Uuid)
    (asset name : Bytes) (network : Uuid) (w : WalletAddress)
    → network_id env 0 catalog asset name ≡ ok network
    → env.fails (query 1) ≡ false
    → find_held user asset network db.wallets ≡ some w
    → get_or_create_address r env rounds catalog db db user asset name
      ≡ ok (record { wallet = w; db = db })
unfolding get_or_create_address ◌>>=◌ io guard
held_again r env rounds catalog db user asset name network w n f h = rw (n, f, h) refl

-- Asking again gives the same address: if no other request commits in between, then after
-- `GetOrCreateAddress` has returned a wallet, the same request against the database that it left
-- returns that wallet and changes nothing, whatever the random source gives, if its two look-ups of
-- the network and of the wallet succeed.
pub get_or_create_address-again :
    (r r' : Random) (env env' : Env) (rounds rounds' : ℕ → Env) (catalog : Catalog) (db : Db)
    (user : Uuid) (asset name : Bytes) (h : Holding)
    → get_or_create_address r env rounds catalog db db user asset name ≡ ok h
    → env'.fails (query 0) ≡ false
    → env'.fails (query 1) ≡ false
    → get_or_create_address r' env' rounds' catalog h.db h.db user asset name ≡ ok h
get_or_create_address-again r r' env env' rounds rounds' catalog db user asset name h e f0 f1 =
    let (network, n, held) =
      get_or_create_address-HeldFor r env rounds catalog db db user asset name h e in
    held_again r' env' rounds' catalog h.db user asset name network h.wallet
      (network_id_again env env' 0 catalog asset name network n f0) f1
      (Held-after db user asset network h held)
