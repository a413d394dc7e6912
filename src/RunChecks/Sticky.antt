-- ===== src/RunChecks/Sticky.antt =====
-- `snapshotProviderAgentSuccess` and `updateProviderAgentSuccess`: for each provider the agent that
-- last reported a valid proof.
use mytonprovider_backend.Prelude.{
  String, Bool, false, not, ◌||◌, Option, none, some, List, [], ◌∷◌, Map, lookup, insert, or_else,
  str_eq, if◌then◌else◌, is_empty,
}
use mytonprovider_backend.Db.{ContractToProviderRelation}
use mytonprovider_backend.StoreProof.Merge.{MergedContractCheck, contract_relation_key, is_valid}

-- A copy of the map; the code hands out nil for an empty one.
pub snapshot_provider_agent_success : Map String → Map String
snapshot_provider_agent_success success = success

unfoldable pub row_is_valid : Option MergedContractCheck → Bool
row_is_valid none = false
row_is_valid (some row) = is_valid row.check.reason

-- The loop over the contracts.
pub update_loop :
    Map MergedContractCheck → Map String → List ContractToProviderRelation → Map String → Map String
update_loop results assignment [] success = success
update_loop results assignment (sc ∷ scs) success =
    let endpoint = or_else "" (lookup assignment sc.provider_public_key) in
    update_loop results assignment scs (
      if not (row_is_valid (lookup results (contract_relation_key sc))) || str_eq endpoint ""
      then success
      else insert success sc.provider_public_key endpoint)

pub update_provider_agent_success :
    List ContractToProviderRelation → Map MergedContractCheck → Map String → Map String → Map String
update_provider_agent_success storage_contracts results assignment success =
    if is_empty results || is_empty assignment
    then success
    else update_loop results assignment storage_contracts success
