-- ===== src/Pipeline.antt =====
-- coordinator/internal/pipelineevents/recorder.go: the events of one run, kept in memory until they
-- are flushed. An absent pointer is `none`, and an error is its text.
pub mod Alternate
use Prim.Native.String.{slice}
use mytonprovider_backend.Prelude.{
  ℕ, ℤ, pos, String, len, Bool, true, false, not, ◌&&◌, Option, none, some, List, [], ◌∷◌, ◌++◌,
  Map, lookup, insert, or_else, str_eq, ltb, if◌then◌else◌, trim_space, is_blank, is_empty,
}
use mytonprovider_backend.Reason.{ReasonCode, reason_number}
use mytonprovider_backend.Db.{ContractToProviderRelation}
use mytonprovider_backend.StoreProof.Merge.{is_valid, stage_unknown}
use mytonprovider_backend.StoreProof.Commit.{stage_endpoint_unresolved}

-- `absent` is the empty text that a missing key of the status map reads as.
pub data EventStatus : Type 0 where
  error okay absent : EventStatus

pub record ProviderEvent : Type 0 where
  pub provider_pubkey : String
  pub status : EventStatus
  pub stage : String
  pub reason_code : ℕ
  pub error_message : Option String

pub record BagEvent : Type 0 where
  pub provider_pubkey : String
  pub contract_address : String
  pub bag_id : String
  pub status : EventStatus
  pub stage : String
  pub reason_code : ℕ
  pub error_message : Option String

-- The run and the worker, which each event repeats, are left out.
pub record Recorder : Type 0 where
  pub last_provider_status : Map EventStatus
  pub provider_events : List ProviderEvent
  pub bag_events : List BagEvent

abbrev pub new_recorder : Recorder
new_recorder = record { last_provider_status = []; provider_events = []; bag_events = [] }

abbrev pub stage_endpoint_resolve : String
stage_endpoint_resolve = "endpoint_resolve"

abbrev pub stage_recovered : String
stage_recovered = "recovered"

abbrev pub max_error_message_len : ℕ
max_error_message_len = 1024

pub truncate_message : Option String → Option String
truncate_message none = none
truncate_message (some msg) =
    let s = trim_space msg in
    if str_eq s ""
    then none
    else if ltb max_error_message_len (len s)
    then some (slice s 0 max_error_message_len)
    else some s

abbrev pub status_of : Recorder → String → EventStatus
status_of r pubkey = or_else absent (lookup r.last_provider_status pubkey)

abbrev pub is_error_status : EventStatus → Bool
is_error_status error = true
is_error_status _ = false

-- `LoadProviderStatuses`, with the answer of the repository; on an error nothing changes.
pub load_provider_statuses : Recorder → List String → Option (Map EventStatus) → Recorder
load_provider_statuses r [] statuses = r
load_provider_statuses r (pubkey ∷ pubkeys) none = r
load_provider_statuses r (pubkey ∷ pubkeys) (some statuses) = record r {
  last_provider_status = statuses;
}

append_provider_event : Recorder → ProviderEvent → Recorder
append_provider_event r event = record r {
  provider_events = r.provider_events ++ event ∷ [];
  last_provider_status = insert r.last_provider_status event.provider_pubkey event.status;
}

abbrev pub resolved_event : String → ProviderEvent
resolved_event pubkey = record {
  provider_pubkey = pubkey;
  status = okay;
  stage = stage_endpoint_resolve;
  reason_code = reason_number ReasonCode.valid_storage_proof;
  error_message = none;
}

abbrev pub unresolved_event : String → String → Option String → ProviderEvent
unresolved_event pubkey stage resolve_err = record {
  provider_pubkey = pubkey;
  status = error;
  stage = if str_eq stage "" then stage_endpoint_resolve else stage;
  reason_code = reason_number ReasonCode.ip_not_found;
  error_message = truncate_message resolve_err;
}

pub record_provider_resolve : Recorder → String → String → Bool → Option String → Recorder
record_provider_resolve r pubkey stage resolved resolve_err =
    if str_eq pubkey ""
    then r
    else if resolved
    then (if is_error_status (status_of r pubkey)
        then append_provider_event r (resolved_event pubkey)
        else r)
    else append_provider_event r (unresolved_event pubkey stage resolve_err)

abbrev pub is_error_reason : ReasonCode → Bool
is_error_reason code = not (is_valid code)

-- `reasonIsError`, on the number in the database.
abbrev pub reason_is_error : Option ℤ → Bool
reason_is_error none = false
reason_is_error (some (pos n)) = ltb 0 n
reason_is_error (some _) = true

append_bag_event : Recorder → BagEvent → Recorder
append_bag_event r event = record r { bag_events = r.bag_events ++ event ∷ [] }

bag_event :
    ContractToProviderRelation → EventStatus → String → ReasonCode → Option String → BagEvent
bag_event rel status stage reason message = record {
  provider_pubkey = rel.provider_public_key;
  contract_address = rel.address;
  bag_id = rel.bag_id;
  status = status;
  stage = stage;
  reason_code = reason_number reason;
  error_message = message;
}

pub record_bag_transition :
    Recorder → ContractToProviderRelation → ReasonCode → String → String → Recorder
unfolding append_bag_event bag_event
record_bag_transition r rel new_reason stage details =
    let prev_had_error = reason_is_error rel.reason in
    let new_has_error = is_error_reason new_reason in
    if not prev_had_error && not new_has_error
    then r
    else if prev_had_error && not new_has_error
    then append_bag_event r (
        bag_event rel okay (if str_eq stage "" then stage_recovered else stage)
          ReasonCode.valid_storage_proof none)
    else append_bag_event r (
        bag_event rel error (if str_eq stage "" then stage_unknown else stage) new_reason
          (if is_blank details then none else truncate_message (some details)))

pub record_bag_endpoint_unresolved : Recorder → ContractToProviderRelation → Recorder
record_bag_endpoint_unresolved r rel =
    record_bag_transition r rel ReasonCode.ip_not_found stage_endpoint_unresolved
      "storage endpoint not resolved for RunChecks"

-- `Flush`: the batches that are handed to the repository, whose errors are only logged.
pub flush : Recorder → Recorder × List (List ProviderEvent) × List (List BagEvent)
flush r = (
  record r { provider_events = []; bag_events = [] },
  if is_empty r.provider_events then [] else r.provider_events ∷ [],
  if is_empty r.bag_events then [] else r.bag_events ∷ [],
)
