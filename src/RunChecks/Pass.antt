-- ===== src/RunChecks/Pass.antt =====
-- `runStoreProofChecks` and `fanoutRunChecks`. The calls of the agents run at once and their answers
-- come in any order: `order` lists the agents in the order in which their calls end.
pub mod Complete
pub mod Sound
use mytonprovider_backend.Prelude.{
  String, Bool, true, false, Option, none, some, List, [], ◌∷◌, Map, KeySet, lookup, is_empty,
  is_some, ◌==◌, str_eq, if◌then◌else◌,
}
use mytonprovider_backend.Db.{
  ContractToProviderRelation, ProviderIp, RunChecksResponse, RunChecksResult,
}
use mytonprovider_backend.Shard.{ProviderBatch, ProviderAssignment, assign_providers_to_agents}
use mytonprovider_backend.StoreProof.Merge.{
  MergedContractCheck, contract_relation_key, merge_run_checks_responses,
}
use mytonprovider_backend.StoreProof.Commit.{build_bag_check_results}
use mytonprovider_backend.Pipeline.{Recorder, record_bag_transition, record_bag_endpoint_unresolved}
use mytonprovider_backend.RunChecks.Request.{
  CheckTimeouts, RunChecksRequest, build_run_checks_rpc_request,
}
use mytonprovider_backend.RunChecks.Sticky.{
  snapshot_provider_agent_success, update_provider_agent_success,
}

-- What a pass meets outside the coordinator: the configured agents, and what each of them answers to
-- a request (`none` is a failed call).
pub record Agents : Type 0 where
  pub endpoints : List String
  pub order : Map (List ProviderBatch) → Map (List ProviderBatch)
  pub answer : String → RunChecksRequest → Option RunChecksResponse

-- `agentByEndpoint` of coordinator/internal/clients/agentrpc.
pub agent_by_endpoint : List String → String → Bool
agent_by_endpoint [] endpoint = false
agent_by_endpoint (a ∷ agents) endpoint =
    if str_eq a endpoint then true else agent_by_endpoint agents endpoint

-- `Client.RunChecks` of coordinator/internal/clients/agentrpc.
pub client_run_checks : Agents → String → RunChecksRequest → Option RunChecksResult
client_run_checks agents endpoint req =
    if agent_by_endpoint agents.endpoints endpoint
    then (elim (agents.answer endpoint req) [
      | none ↦ none
      | some response ↦ some (record { endpoint = endpoint; response = some response })
    ])
    else none

unfoldable pub wrap_batches : List ProviderBatch → List (Option ProviderBatch)
wrap_batches [] = []
wrap_batches (b ∷ bs) = some b ∷ wrap_batches bs

-- One answer joins `results` or, without its text, the errors.
pub collect :
    Option RunChecksResult
    → String
    → List RunChecksResult × List String
    → List RunChecksResult × List String
collect none endpoint (results, errs) = (results, endpoint ∷ errs)
collect (some r) endpoint (results, errs) = (r ∷ results, errs)

pub fanout_loop :
    Agents → RunChecksRequest → Map (List ProviderBatch) → List RunChecksResult × List String
fanout_loop agents base [] = ([], [])
fanout_loop agents base ((endpoint, []) ∷ items) = fanout_loop agents base items
fanout_loop agents base ((endpoint, b ∷ bs) ∷ items) =
    collect (client_run_checks agents endpoint (record base { providers = wrap_batches (b ∷ bs) }))
      endpoint (fanout_loop agents base items)

pub fanout_run_checks :
    Agents → RunChecksRequest → Map (List ProviderBatch) → List RunChecksResult × List String
fanout_run_checks agents base by_endpoint = fanout_loop agents base (agents.order by_endpoint)

-- The events of contracts whose provider has no endpoint.
pub record_unresolved : KeySet → List ContractToProviderRelation → Recorder → Recorder
record_unresolved checked [] r = r
record_unresolved checked (sc ∷ scs) r = record_unresolved checked scs (
    if is_some (lookup checked (contract_relation_key sc))
    then r
    else record_bag_endpoint_unresolved r sc)

pub note_row : ContractToProviderRelation → Option MergedContractCheck → Recorder → Recorder
note_row sc none r = r
note_row sc (some row) r = record_bag_transition r sc row.check.reason row.stage row.details

pub record_transitions :
    Map MergedContractCheck → List ContractToProviderRelation → Recorder → Recorder
record_transitions results [] r = r
record_transitions results (sc ∷ scs) r =
    record_transitions results scs (note_row sc (lookup results (contract_relation_key sc)) r)

-- What the worker and the recorder remember.
pub record Memory : Type 0 where
  pub provider_agent_success : Map String
  pub recorder : Recorder

pub data PassResult : Type 0 where
  panic failed : PassResult
  done : Map MergedContractCheck → Map String → PassResult

-- The part of a pass that follows the answers of the agents.
pub conclude :
    List ContractToProviderRelation
    → KeySet
    → Map String
    → List RunChecksResult
    → Memory
    → PassResult × Memory
conclude contracts checked assignment [] m = (failed, m)
conclude contracts checked assignment (r ∷ rs) m =
    let (merged, valid) = merge_run_checks_responses contracts (r ∷ rs) in
    let results = build_bag_check_results contracts checked merged in
    (
      done results assignment,
      record {
        provider_agent_success =
            update_provider_agent_success contracts results assignment m.provider_agent_success;
        recorder = record_transitions results contracts m.recorder;
      },
    )

-- The part that follows the sharding; a panic of it is one of the pass.
pub ask_sharded :
    Agents
    → List ContractToProviderRelation
    → RunChecksRequest
    → KeySet
    → Option ProviderAssignment
    → Memory
    → PassResult × Memory
ask_sharded agents contracts req checked none m = (panic, m)
ask_sharded agents contracts req checked (some shard) m =
    conclude contracts checked shard.by_provider (fanout_run_checks agents req shard.by_endpoint).0
      m

pub ask_agents :
    Agents
    → List ContractToProviderRelation
    → RunChecksRequest
    → KeySet
    → Map String
    → Memory
    → PassResult × Memory
ask_agents agents contracts req checked exclude m =
    ask_sharded agents contracts req checked
      (assign_providers_to_agents req.providers agents.endpoints
        (snapshot_provider_agent_success m.provider_agent_success) exclude)
      m

pub run_store_proof_checks :
    Agents
    → CheckTimeouts
    → String
    → String
    → List ContractToProviderRelation
    → Map ProviderIp
    → Map String
    → Memory
    → PassResult × Memory
run_store_proof_checks agents timeouts fallback_job_id job_id contracts ips exclude m =
    let (req, provider_count, checked) =
      build_run_checks_rpc_request timeouts fallback_job_id job_id contracts ips in
    if is_empty agents.endpoints
    then (failed, m)
    else if is_empty contracts
    then (done [] [], m)
    else if provider_count == 0
    then (
      done (build_bag_check_results contracts checked []) [],
      record m { recorder = record_unresolved checked contracts m.recorder },
    )
    else ask_agents agents contracts req checked exclude m
