-- ===== src/Asset.antt =====
-- The catalog of networks: internal/asset/service.go and internal/asset/store.go, and its adapter in
-- cmd/server/main.go. The rows are configuration that the program never writes, and whether an address
-- matches a pattern (none: the pattern does not compile) is Go's regexp, so both are a `Catalog`.
use mynance.Base.{
  ℕ, Bool, true, false, List, [], ◌∷◌, Option, none, some, Bytes, ◌=ᵇ◌, ◌==◌, ◌&&◌, ◌||◌, not, map,
  if◌then◌else◌, is_empty,
}
use mynance.Shared.{not_found, validation, internal, Result, ok, err, ◌>>=◌, ◌>>◌}
use mynance.Store.{Uuid, Env, io, query}

pub record Asset : Type 0 where
  pub symbol : Bytes
  pub enabled : Bool

pub record Network : Type 0 where
  pub id : Uuid
  pub asset_symbol : Bytes
  pub name : Bytes
  pub address_pattern : Bytes
  pub enabled : Bool

pub record Catalog : Type 0 where
  pub networks : List Network
  pub matches : Bytes → Bytes → Option Bool

unfoldable pub find_network : Bytes → Bytes → List Network → Option Network
find_network asset name [] = none
find_network asset name (n ∷ rest) =
    if (n.asset_symbol =ᵇ asset) && (n.name =ᵇ name) then some n else find_network asset name rest

unfoldable pub find_network_by_id : Uuid → List Network → Option Network
find_network_by_id id [] = none
find_network_by_id id (n ∷ rest) = if n.id == id then some n else find_network_by_id id rest

-- `GetNetwork`
unfoldable pub get_network : Env → ℕ → Catalog → Bytes → Bytes → Result Network
get_network env query_call catalog asset name = do
  io env (query query_call)
  elim (find_network asset name catalog.networks) [
    | none ↦ err not_found
    | some n ↦ if n.enabled then ok n else err not_found
  ]

-- `NetworkID` of the adapter
unfoldable pub network_id : Env → ℕ → Catalog → Bytes → Bytes → Result Uuid
network_id env query_call catalog asset name = do
  n ← get_network env query_call catalog asset name
  ok n.id

unfoldable pub match_address : Catalog → Bytes → Bytes → Result (Unit {0})
match_address catalog pattern address =
    if is_empty pattern then ok tt else (elim (catalog.matches pattern address) [
      | none ↦ err internal
      | some true ↦ ok tt
      | some false ↦ err validation
    ])

-- `ValidateAddress`
unfoldable pub validate_address : Env → ℕ → Catalog → Uuid → Bytes → Result (Unit {0})
validate_address env query_call catalog id address = do
  io env (query query_call)
  elim (find_network_by_id id catalog.networks) [
    | none ↦ err validation
    | some n ↦ match_address catalog n.address_pattern address
  ]

-- `ListAssets`; the table stands in the order of the symbols.
unfoldable pub list_assets : Bool → List Asset → List Asset
list_assets enabled_only [] = []
list_assets enabled_only (a ∷ rest) =
    if a.enabled || not enabled_only
    then a ∷ list_assets enabled_only rest
    else list_assets enabled_only rest

-- `EnabledSymbols`
unfoldable pub enabled_symbols : Env → ℕ → List Asset → Result (List Bytes)
enabled_symbols env query_call assets = do
  io env (query query_call)
  ok (map (λ (a : Asset). a.symbol) (list_assets true assets))
