-- ===== src/StoreProof/Merge.antt =====
-- coordinator/internal/workers/providersMaster/worker.go: `mergeRunChecksResponses`, and
-- `ParseStageFromDetails` of coordinator/internal/pipelineevents.
pub mod Valid
use Prim.Native.String.{◌++◌ as text_append}
use mytonprovider_backend.Prelude.{
  ℕ, suc, String, Bool, true, false, not, Option, none, some, List, [], ◌∷◌, Map, lookup, insert,
  or_else, str_eq, if◌then◌else◌, trim_space, fields, strip_prefix,
}
use mytonprovider_backend.Reason.{ReasonCode, reason_from_proto}
use mytonprovider_backend.Db.{
  ContractToProviderRelation, ContractProofsCheck, ContractCheckResult, RunChecksResult,
}

abbrev pub stage_unknown : String
stage_unknown = "unknown"

abbrev pub stage_no_result : String
stage_no_result = "agent_runchecks_no_result"

-- The loop of `ParseStageFromDetails` over the fields.
stage_in : List String → String
stage_in [] = stage_unknown
stage_in (part ∷ parts) = elim (strip_prefix "stage=" part) [
  | none ↦ stage_in parts
  | some stage ↦ if str_eq stage "" then stage_in parts else stage
]

pub parse_stage_from_details : String → String
unfolding stage_in
parse_stage_from_details details =
    let trimmed = trim_space details in
    if str_eq trimmed "" then stage_unknown else stage_in (fields trimmed)

-- `code == constants.ValidStorageProof`
abbrev pub is_valid : ReasonCode → Bool
is_valid ReasonCode.valid_storage_proof = true
is_valid _ = false

pub record MergedContractCheck : Type 0 where
  pub check : ContractProofsCheck
  pub details : String
  pub stage : String

pub relation_key : String → String → String
relation_key provider_address contract_address =
    text_append provider_address (text_append "|" contract_address)

abbrev pub contract_relation_key : ContractToProviderRelation → String
contract_relation_key sc = relation_key sc.provider_address sc.address

abbrev pub row_key : ContractCheckResult → String
row_key row = relation_key row.provider_address row.contract_address

pub record SelectedResult : Type 0 where
  pub reason : ReasonCode
  pub has_value : Bool
  pub valid : Bool
  pub details : String
  pub stage : String

-- What `merged[key]` reads where the key is missing.
abbrev zero_selected : SelectedResult
zero_selected = record {
  reason = ReasonCode.valid_storage_proof;
  has_value = false;
  valid = false;
  details = "";
  stage = "";
}

abbrev pub row_reason : ContractCheckResult → ReasonCode
row_reason row = reason_from_proto row.reason_code

selected : ContractCheckResult → SelectedResult
selected row = record {
  reason = row_reason row;
  has_value = true;
  valid = is_valid (row_reason row);
  details = row.details;
  stage = parse_stage_from_details row.details;
}

-- The body of the loop over the rows of one answer.
merge_row : Map SelectedResult → Option ContractCheckResult → Map SelectedResult
merge_row merged none = merged
merge_row merged (some row) =
    let current = or_else zero_selected (lookup merged (row_key row)) in
    if not current.has_value
    then insert merged (row_key row) (selected row)
    else if current.valid
    then merged
    else if is_valid (row_reason row)
    then insert merged (row_key row) (selected row)
    else merged

merge_rows : Map SelectedResult → List (Option ContractCheckResult) → Map SelectedResult
merge_rows merged [] = merged
merge_rows merged (row ∷ rows) = merge_rows (merge_row merged row) rows

-- The loop over the answers; an answer that is nil has no rows.
merge_responses : Map SelectedResult → List RunChecksResult → Map SelectedResult
merge_responses merged [] = merged
merge_responses merged (r ∷ rs) = elim r.response [
  | none ↦ merge_responses merged rs
  | some response ↦ merge_responses (merge_rows merged response.results) rs
]

abbrev chosen_reason : Option SelectedResult → ReasonCode
chosen_reason none = ReasonCode.not_found
chosen_reason (some chosen) = if chosen.has_value then chosen.reason else ReasonCode.not_found

abbrev chosen_details : Option SelectedResult → String
chosen_details none = ""
chosen_details (some chosen) = if chosen.has_value then chosen.details else ""

abbrev chosen_stage : Option SelectedResult → String
chosen_stage none = stage_no_result
chosen_stage (some chosen) = if chosen.has_value then chosen.stage else stage_no_result

merged_check : ContractToProviderRelation → Option SelectedResult → MergedContractCheck
merged_check sc chosen = record {
  check = record {
    contract_address = sc.address;
    provider_address = sc.provider_address;
    reason = chosen_reason chosen;
  };
  details = chosen_details chosen;
  stage = chosen_stage chosen;
}

-- The loop over the contracts: `byKey` and `valid`.
by_key_loop :
    Map SelectedResult
    → List ContractToProviderRelation
    → Map MergedContractCheck
    → ℕ
    → Map MergedContractCheck × ℕ
by_key_loop merged [] by_key valid = (by_key, valid)
by_key_loop merged (sc ∷ scs) by_key valid =
    let key = contract_relation_key sc in
    let row = merged_check sc (lookup merged key) in
    by_key_loop merged scs (insert by_key key row)
      (if is_valid row.check.reason then suc valid else valid)

pub merge_run_checks_responses :
    List ContractToProviderRelation → List RunChecksResult → Map MergedContractCheck × ℕ
merge_run_checks_responses storage_contracts responses =
    by_key_loop (merge_responses [] responses) storage_contracts [] 0
