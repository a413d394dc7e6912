-- ===== src/StoreProof/Commit.antt =====
-- coordinator/internal/workers/providersMaster/storeproof_commit.go: which results are written after
-- the first pass, and which wait for the retry. A map from keys to `struct{}` is a `KeySet`.
pub mod Built
pub mod Once
use mytonprovider_backend.Prelude.{
  String, Bool, true, false, ◌||◌, not, Option, none, some, List, [], ◌∷◌, ◌++◌, Map, KeySet,
  lookup, insert, if◌then◌else◌, is_empty, is_some,
}
use mytonprovider_backend.Reason.{ReasonCode}
use mytonprovider_backend.Db.{ContractToProviderRelation, ContractProofsCheck}
use mytonprovider_backend.StoreProof.Merge.{
  MergedContractCheck, contract_relation_key, is_valid, stage_no_result,
}

unfoldable pub is_retriable_reason : ReasonCode → Bool
is_retriable_reason ReasonCode.ip_not_found = true
is_retriable_reason ReasonCode.not_found = true
is_retriable_reason ReasonCode.unavailable_provider = true
is_retriable_reason ReasonCode.cant_create_peer = true
is_retriable_reason ReasonCode.unknown_peer = true
is_retriable_reason ReasonCode.ping_failed = true
is_retriable_reason ReasonCode.failed_initial_ping = true
is_retriable_reason ReasonCode.get_info_failed = true
is_retriable_reason ReasonCode.cant_get_piece = true
is_retriable_reason _ = false

abbrev pub stage_endpoint_unresolved : String
stage_endpoint_unresolved = "endpoint_unresolved"

-- A row of `buildBagCheckResults` for a contract that has no result of an agent.
missing_check : ContractToProviderRelation → ReasonCode → String → String → MergedContractCheck
missing_check sc reason details stage = record {
  check = record {
    contract_address = sc.address;
    provider_address = sc.provider_address;
    reason = reason;
  };
  details = details;
  stage = stage;
}

bag_check : ContractToProviderRelation → Bool → Option MergedContractCheck → MergedContractCheck
bag_check sc false row =
    missing_check sc ReasonCode.ip_not_found "storage endpoint not resolved for RunChecks"
      stage_endpoint_unresolved
bag_check sc true (some row) = row
bag_check sc true none =
    missing_check sc ReasonCode.not_found "agent did not return result for contract" stage_no_result

-- The loop of `buildBagCheckResults`, with `out`.
build_loop :
    KeySet
    → Map MergedContractCheck
    → List ContractToProviderRelation
    → Map MergedContractCheck
    → Map MergedContractCheck
build_loop checked merged [] out = out
build_loop checked merged (sc ∷ scs) out =
    let key = contract_relation_key sc in
    build_loop checked merged scs
      (insert out key (bag_check sc (is_some (lookup checked key)) (lookup merged key)))

pub build_bag_check_results :
    List ContractToProviderRelation → KeySet → Map MergedContractCheck → Map MergedContractCheck
build_bag_check_results storage_contracts checked merged =
    build_loop checked merged storage_contracts []

-- `row.Reason == ValidStorageProof || !isRetriableReason(row.Reason)`
abbrev pub is_final : MergedContractCheck → Bool
is_final row = is_valid row.check.reason || not (is_retriable_reason row.check.reason)

-- The loop of `selectMainProofsCommit`, with `toCommit` and `pendingKeys`.
main_loop :
    Map MergedContractCheck → List ContractProofsCheck → KeySet → List ContractProofsCheck × KeySet
main_loop [] to_commit pending = (to_commit, pending)
main_loop ((key, row) ∷ results) to_commit pending =
    main_loop results (if is_final row then to_commit ++ row.check ∷ [] else to_commit)
      (if is_final row then pending else insert pending key tt)

pub select_main_proofs_commit : Map MergedContractCheck → List ContractProofsCheck × KeySet
select_main_proofs_commit results = main_loop results [] []

-- `retryMerged[key]`; a nil map is `none`.
abbrev retry_row : Option (Map MergedContractCheck) → String → Option MergedContractCheck
retry_row none key = none
retry_row (some retry) key = lookup retry key

-- What the body of the loop of `selectFinalProofsCommit` appends for one pending key.
final_row : Option MergedContractCheck → Option MergedContractCheck → List ContractProofsCheck
final_row (some retried) main = retried.check ∷ []
final_row none (some row) = row.check ∷ []
final_row none none = []

final_loop :
    Map MergedContractCheck
    → KeySet
    → Option (Map MergedContractCheck)
    → List ContractProofsCheck
    → List ContractProofsCheck
final_loop main [] retry out = out
final_loop main ((key, _) ∷ pending) retry out =
    final_loop main pending retry (out ++ final_row (retry_row retry key) (lookup main key))

pub select_final_proofs_commit :
    Map MergedContractCheck → KeySet → Option (Map MergedContractCheck) → List ContractProofsCheck
select_final_proofs_commit main pending retry =
    if is_empty pending then [] else final_loop main pending retry []

pending_loop : KeySet → List ContractToProviderRelation → List ContractToProviderRelation
pending_loop pending [] = []
pending_loop pending (sc ∷ scs) =
    let rest = pending_loop pending scs in
    if is_some (lookup pending (contract_relation_key sc)) then sc ∷ rest else rest

pub pending_contracts : List ContractToProviderRelation → KeySet → List ContractToProviderRelation
pending_contracts storage_contracts pending =
    if is_empty pending then [] else pending_loop pending storage_contracts
