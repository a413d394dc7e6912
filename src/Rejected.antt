-- ===== src/Rejected.antt =====
-- `updateRejectedContracts` of coordinator/internal/workers/providersMaster/worker.go, and
-- `isRemovedByLowBalance` of helpers.go beside it: which contracts are still active.
pub mod Kept
use Prim.Native.String.{slice, ◌++◌ as text_append}
use mytonprovider_backend.Prelude.{
  ℕ, ◌+◌, ◌*◌, ◌/◌, ◌%◌, ℤ, pos, ◌+ℤ◌, ltb_ℤ, is_positive, String, Bool, true, false, not, ◌||◌,
  ◌&&◌, Option, none, some, List, [], ◌∷◌, ◌++◌, Map, KeySet, lookup, insert, or_else, is_some,
  is_empty, ltb, if◌then◌else◌,
}
use mytonprovider_backend.Db.{ContractToProviderRelation}

-- `tonclient.Provider`; the key is its bytes, and the time is in seconds since the epoch.
pub record TonProvider : Type 0 where
  pub key : List ℕ
  pub last_proof_time : ℤ
  pub rate_per_mb_day : ℕ
  pub max_span : ℕ

pub record StorageContractProviders : Type 0 where
  pub address : String
  pub balance : ℕ
  pub providers : List TonProvider
  pub lite_server_error : Bool

-- `fmt.Sprintf("%x", key)`
pub hex_encode : List ℕ → String
hex_encode [] = ""
hex_encode (b ∷ bs) =
    text_append (slice "0123456789abcdef" (b / 16) (b / 16 + 1))
      (text_append (slice "0123456789abcdef" (b % 16) (b % 16 + 1)) (hex_encode bs))

-- What a proof costs, in nanotons, with the storage fee of 0.05 TON.
abbrev pub bounty : ℕ → TonProvider → ℕ
bounty bag_size p = p.rate_per_mb_day * bag_size * p.max_span / 90_596_966_400 + 50_000_000

pub is_removed_by_low_balance : ℕ → TonProvider → StorageContractProviders → ℤ → Bool
is_removed_by_low_balance bag_size p contract now =
    if ltb contract.balance (bounty bag_size p)
    then (if not (is_positive p.last_proof_time)
        then false
        else ltb_ℤ (p.last_proof_time +ℤ pos p.max_span +ℤ pos 3600) now)
    else false

pub record ContractInfo : Type 0 where
  pub providers : KeySet
  pub skip : Bool

-- `uniqueContractAddresses`
pub sizes_of : Map ℕ → List ContractToProviderRelation → Map ℕ
sizes_of sizes [] = sizes
sizes_of sizes (sc ∷ scs) = sizes_of (insert sizes sc.address sc.size) scs

pub keys_of : Map ℕ → List String
keys_of [] = []
keys_of ((k, _) ∷ m) = k ∷ keys_of m

module _ (sizes : Map ℕ) (now : ℤ) where
  abbrev pub size_at : String → ℕ
  size_at address = or_else 0 (lookup sizes address)

  -- The loop over the providers of a contract.
  pub provider_set : StorageContractProviders → KeySet → List TonProvider → KeySet
  provider_set contract set [] = set
  provider_set contract set (p ∷ ps) =
      provider_set contract
        (if is_removed_by_low_balance (size_at contract.address) p contract now
          then set
          else insert set (hex_encode p.key) tt)
        ps

  abbrev pub info_of : StorageContractProviders → ContractInfo
  info_of contract = record {
    providers = provider_set contract [] contract.providers;
    skip = contract.lite_server_error;
  }

  -- The loop over the contracts of the chain.
  pub relations : Map ContractInfo → List StorageContractProviders → Map ContractInfo
  relations m [] = m
  relations m (c ∷ cs) = relations (insert m c.address (info_of c)) cs

-- The branches of the last loop: whether the contract stays active.
pub stays_active : Option ContractInfo → String → Bool
stays_active none pubkey = false
stays_active (some info) pubkey = if info.skip then true else is_some (lookup info.providers pubkey)

pub split_loop :
    Map ContractInfo
    → List ContractToProviderRelation
    → List ContractToProviderRelation × List ContractToProviderRelation
    → List ContractToProviderRelation × List ContractToProviderRelation
split_loop m [] out = out
split_loop m (sc ∷ scs) (active, closed) = split_loop m scs (
    if stays_active (lookup m sc.address) sc.provider_public_key
    then (active ++ sc ∷ [], closed)
    else (active, closed ++ sc ∷ []))

-- What the function meets outside: the chain, the clock, and whether the write of the closed
-- contracts succeeds.
pub record Chain : Type 0 where
  pub get_providers_info : List String → Option (List StorageContractProviders)
  pub now : ℤ
  pub update_ok : Bool

-- The active and the closed contracts, once the chain has answered; `none` is an error.
pub with_info :
    Chain
    → List ContractToProviderRelation
    → Option (List StorageContractProviders)
    → Option (List ContractToProviderRelation × List ContractToProviderRelation)
with_info chain scs none = none
with_info chain scs (some infos) =
    if chain.update_ok
    then some (split_loop (relations (sizes_of [] scs) chain.now [] infos) scs ([], []))
    else none

pub update_rejected_contracts :
    Chain
    → List ContractToProviderRelation
    → Option (List ContractToProviderRelation × List ContractToProviderRelation)
update_rejected_contracts chain scs =
    if is_empty scs
    then some ([], [])
    else with_info chain scs (chain.get_providers_info (keys_of (sizes_of [] scs)))

-- The result of the function, which is the active contracts.
abbrev pub active_of :
    Option (List ContractToProviderRelation × List ContractToProviderRelation)
    → Option (List ContractToProviderRelation)
active_of none = none
active_of (some (active, closed)) = some active
