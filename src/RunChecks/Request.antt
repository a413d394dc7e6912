-- ===== src/RunChecks/Request.antt =====
-- `buildRunChecksRPCRequest`, and `hasValidResolvedStorageEndpoint` of endpoint_refresh.go.
pub mod Named
use mytonprovider_backend.Prelude.{
  ℕ, String, Bool, not, ◌&&◌, Option, none, some, List, [], ◌∷◌, ◌++◌, map, Map, KeySet, lookup,
  insert, or_else, length, ◌==◌, if◌then◌else◌, is_blank, is_positive,
}
use mytonprovider_backend.Db.{ContractToProviderRelation, ProviderIp}
use mytonprovider_backend.Shard.{ContractRef, ProviderBatch}
use mytonprovider_backend.StoreProof.Merge.{contract_relation_key}

pub record CheckTimeouts : Type 0 where
  pub ping_ms : ℕ
  pub rldp_ms : ℕ
  pub total_ms : ℕ

pub record RunChecksRequest : Type 0 where
  pub job_id : String
  pub providers : List (Option ProviderBatch)
  pub timeouts : Option CheckTimeouts

-- `ed25519.PublicKeySize`
abbrev pub public_key_size : ℕ
public_key_size = 32

unfoldable pub has_valid_resolved_storage_endpoint : ProviderIp → Bool
has_valid_resolved_storage_endpoint ip =
    not (is_blank ip.storage.ip)
    && is_positive ip.storage.port
    && length ip.storage.public_key == public_key_size

-- The loop that groups the contracts by provider.
pub group_by_provider :
    Map (List ContractToProviderRelation)
    → List ContractToProviderRelation
    → Map (List ContractToProviderRelation)
group_by_provider groups [] = groups
group_by_provider groups (sc ∷ scs) =
    let pubkey = sc.provider_public_key in
    group_by_provider (insert groups pubkey (or_else [] (lookup groups pubkey) ++ sc ∷ [])) scs

-- `checkedKeys[contractRelationKey(c)] = struct{}{}` for each contract of a group.
pub check_keys : KeySet → List ContractToProviderRelation → KeySet
check_keys checked [] = checked
check_keys checked (c ∷ cs) = check_keys (insert checked (contract_relation_key c) tt) cs

contract_ref : ContractToProviderRelation → Option ContractRef
contract_ref c = some (record { contract_address = c.address; bag_id = c.bag_id })

-- `contracts[0].ProviderAddress`; a group has at least one contract.
first_provider_address : List ContractToProviderRelation → String
first_provider_address [] = ""
first_provider_address (c ∷ cs) = c.provider_address

pub provider_batch : String → ProviderIp → List ContractToProviderRelation → ProviderBatch
unfolding contract_ref first_provider_address
provider_batch pubkey ip contracts = record {
  provider_pubkey = pubkey;
  provider_address = first_provider_address contracts;
  storage_endpoint =
      some (record {
        ip = ip.storage.ip;
        port = ip.storage.port;
        adnl_pubkey = ip.storage.public_key;
      });
  contracts = map contract_ref contracts;
}

-- The endpoint of a provider that can be checked.
pub usable : Option ProviderIp → Option ProviderIp
usable none = none
usable (some ip) = if has_valid_resolved_storage_endpoint ip then some ip else none

-- The loop over the groups, with `checkedKeys` and `providers`.
pub request_loop :
    Map ProviderIp
    → Map (List ContractToProviderRelation)
    → KeySet
    → List (Option ProviderBatch)
    → KeySet × List (Option ProviderBatch)
request_loop ips [] checked batches = (checked, batches)
request_loop ips ((pubkey, contracts) ∷ groups) checked batches =
    elim (usable (lookup ips pubkey)) [
      | none ↦ request_loop ips groups checked batches
      | some ip ↦
          request_loop ips groups (check_keys checked contracts)
            (batches ++ some (provider_batch pubkey ip contracts) ∷ [])
    ]

-- The request, the number of providers in it, and the keys of the contracts in it.
-- `fallback_job_id` is the identifier that the code makes from the clock.
pub build_run_checks_rpc_request :
    CheckTimeouts
    → String
    → String
    → List ContractToProviderRelation
    → Map ProviderIp
    → RunChecksRequest × ℕ × KeySet
build_run_checks_rpc_request timeouts fallback_job_id job_id storage_contracts ips =
    let (checked, batches) = request_loop ips (group_by_provider [] storage_contracts) [] [] in
    (
      record {
        job_id = if is_blank job_id then fallback_job_id else job_id;
        providers = batches;
        timeouts = some timeouts;
      },
      length batches,
      checked,
    )
