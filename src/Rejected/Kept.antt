-- ===== src/Rejected/Kept.antt =====
-- `updateRejectedContracts`: which relations are active.
use mytonprovider_backend.Prelude.{
  ℕ, ℤ, ◌≡◌, String, Bool, false, not, ◌||◌, ◌&&◌, Option, none, some, List, [], ◌∷◌, Map, is_some,
  str_eq, if◌then◌else◌,
}
use mytonprovider_backend.Db.{ContractToProviderRelation}
use mytonprovider_backend.Rejected.{
  TonProvider, StorageContractProviders, hex_encode, is_removed_by_low_balance, ContractInfo,
  size_at, info_of,
}

-- The contract lists a provider with this public key whose balance is not too low.
abbrev pub lists : Map ℕ → ℤ → StorageContractProviders → String → List TonProvider → Bool
lists sizes now contract pubkey [] = false
lists sizes now contract pubkey (p ∷ ps) =
    let rest = lists sizes now contract pubkey ps in
    (str_eq (hex_encode p.key) pubkey
      && not (is_removed_by_low_balance (size_at sizes now contract.address) p contract now))
    || rest

-- The last answer of the chain for the address.
abbrev pub last_info : List StorageContractProviders → String → Option StorageContractProviders
last_info [] address = none
last_info (c ∷ cs) address =
    let rest = last_info cs address in
    if is_some rest then rest else if str_eq c.address address then some c else none

-- The relation is active: the chain answers for its contract, and could not be read or lists the
-- provider.
abbrev pub is_active : Map ℕ → ℤ → Option StorageContractProviders → String → Bool
is_active sizes now none pubkey = false
is_active sizes now (some c) pubkey = c.lite_server_error || lists sizes now c pubkey c.providers

abbrev pub keep :
    (ContractToProviderRelation → Bool)
    → List ContractToProviderRelation
    → List ContractToProviderRelation
keep test [] = []
keep test (sc ∷ scs) = let rest = keep test scs in if test sc then sc ∷ rest else rest

module _ (sizes : Map ℕ) (now : ℤ) where
  abbrev or_info : Option StorageContractProviders → Option ContractInfo → Option ContractInfo
  or_info none o = o
  or_info (some c) o = some (info_of sizes now c)

  abbrev pub relation_active : List StorageContractProviders → ContractToProviderRelation → Bool
  relation_active infos sc = is_active sizes now (last_info infos sc.address) sc.provider_public_key

-- The relations are split by whether they are active, and keep their order.
abbrev pub SplitsBy :
    (ContractToProviderRelation → Bool)
    → List ContractToProviderRelation
    → List ContractToProviderRelation × List ContractToProviderRelation
    → Type 0
SplitsBy test scs (active, closed) =
    (active ≡ keep test scs) × (closed ≡ keep (λ sc. not (test sc)) scs)
