-- ===== src/RunChecks/Pass/Sound.antt =====
-- `runStoreProofChecks`: where the valid proofs among the results of a pass come from.
use mytonprovider_backend.Prelude.{
  ◌≡◌, ◌⊎◌, inl, inr, refl, String, Bool, true, false, Option, none, some, List, [], ◌∷◌, ◌++◌, Map,
  KeySet, lookup, is_empty, is_some, str_eq, ◌==◌, ◌&&◌, if◌then◌else◌, arith, Bool-cases,
  Option-cases,
}
use mytonprovider_backend.Db.{
  ContractToProviderRelation, ContractCheckResult, ProviderIp, RunChecksResponse, RunChecksResult,
}
use mytonprovider_backend.Shard.{ProviderBatch, ProviderAssignment}
use mytonprovider_backend.StoreProof.Merge.{
  MergedContractCheck, is_valid, row_key, row_reason, merge_run_checks_responses,
}
use mytonprovider_backend.StoreProof.Merge.Valid.{
  Outcome, has_key, outcome_of, outcome_of_row, first_row, first_valid, best_row, or_first, rows_of,
  merge-best,
}
use mytonprovider_backend.StoreProof.Commit.{build_bag_check_results}
use mytonprovider_backend.StoreProof.Commit.Built.{build-outcome, expected}
use mytonprovider_backend.RunChecks.Request.{
  CheckTimeouts, RunChecksRequest, build_run_checks_rpc_request,
}
use mytonprovider_backend.RunChecks.Sticky.{row_is_valid}
use mytonprovider_backend.RunChecks.Pass.{
  Agents, Memory, PassResult, panic, failed, done, agent_by_endpoint, client_run_checks,
  wrap_batches, collect, fanout_loop, fanout_run_checks, conclude, ask_sharded, ask_agents,
  record_unresolved, run_store_proof_checks,
}

-- A configured agent answered some request with a row that reports a valid proof of the contract
-- with the key `k`.
pub record Reported (agents : Agents) (k : String) : Type 0 where
  pub endpoint : String
  pub req : RunChecksRequest
  pub response : RunChecksResponse
  pub known : agent_by_endpoint agents.endpoints endpoint ≡ true
  pub answered : agents.answer endpoint req ≡ some response
  pub valid_row : is_some (first_valid k response.results) ≡ true

first_valid-append :
    (k : String) (xs ys : List (Option ContractCheckResult))
    → first_valid k (xs ++ ys) ≡ or_first (first_valid k xs) (first_valid k ys)
first_valid-append k [] ys = refl
first_valid-append k (none ∷ xs) ys = first_valid-append k xs ys
first_valid-append k (some r ∷ xs) ys =
    elim (Bool-cases (str_eq (row_key r) k && is_valid (row_reason r))) [
      | inl found ↦ rw found refl
      | inr other ↦ rw other (first_valid-append k xs ys)
    ]

-- A row that is valid and the first of its contract makes a valid row.
first_row-valid :
    (k : String) (rows : List (Option ContractCheckResult)) (r : ContractCheckResult)
    → first_row k rows ≡ some r
    → is_valid (row_reason r) ≡ true
    → is_some (first_valid k rows) ≡ true
first_row-valid k [] r h v = ground arith
first_row-valid k (none ∷ rows) r h v = first_row-valid k rows r h v
first_row-valid k (some q ∷ rows) r h v = ground (arith, first_row-valid k rows r)

best_row-valid :
    (k : String) (rows : List (Option ContractCheckResult))
    → is_valid (outcome_of_row (best_row k rows)).0 ≡ true
    → is_some (first_valid k rows) ≡ true
best_row-valid k rows v = elim (Option-cases (first_valid k rows)) [
  | inr (r, there) ↦ rw there refl
  | inl missing ↦ elim (Option-cases (first_row k rows)) [
    | inl no_row ↦ ground (arith, missing, no_row)
    | inr (r, there) ↦ first_row-valid k rows r there (ground (arith, missing, there))
  ]
]

-- What a call of `Client.RunChecks` returns.
ClientReturns : Agents → String → RunChecksRequest → Option RunChecksResult → Type 0
ClientReturns agents endpoint req none = Unit
ClientReturns agents endpoint req (some r) =
    (agent_by_endpoint agents.endpoints endpoint ≡ true)
    × (response : RunChecksResponse) × (agents.answer endpoint req ≡ some response)
    × (r.response ≡ some response)

client_lem :
    (agents : Agents) (endpoint : String) (req : RunChecksRequest)
    → ClientReturns agents endpoint req (client_run_checks agents endpoint req)
unfolding client_run_checks ClientReturns
client_lem agents endpoint req = elim (Bool-cases (agent_by_endpoint agents.endpoints endpoint)) [
  | inr unknown ↦ rw unknown tt
  | inl known ↦ elim (Option-cases (agents.answer endpoint req)) [
    | inl no_answer ↦ rw (known, no_answer) tt
    | inr (response, answer) ↦ rw (known, answer) (known, response, answer, refl)
  ]
]

module _ (agents : Agents) (k : String) where
  collect-Reported :
      (endpoint : String) (req : RunChecksRequest) (o : Option RunChecksResult)
      (rest : List RunChecksResult × List String)
      → ClientReturns agents endpoint req o
      → (is_some (first_valid k (rows_of rest.0)) ≡ true → Reported agents k)
      → is_some (first_valid k (rows_of (collect o endpoint rest).0)) ≡ true
      → Reported agents k
  unfolding collect ClientReturns
  collect-Reported endpoint req none rest c h v = h v
  collect-Reported endpoint req (some r) rest (known, response, answer, is_response) h v =
      let split = first_valid-append k response.results (rows_of rest.0) in
      elim (Bool-cases (is_some (first_valid k response.results))) [
        | inl here ↦ record {
          endpoint = endpoint;
          req = req;
          response = response;
          known = known;
          answered = answer;
          valid_row = here;
        }
        | inr elsewhere ↦ h (ground (arith, split, rw is_response at v, elsewhere))
      ]

  fanout-Reported :
      (base : RunChecksRequest) (items : Map (List ProviderBatch))
      → is_some (first_valid k (rows_of (fanout_loop agents base items).0)) ≡ true
      → Reported agents k
  unfolding fanout_loop
  fanout-Reported base [] v = ground arith
  fanout-Reported base ((endpoint, []) ∷ items) v = fanout-Reported base items v
  fanout-Reported base ((endpoint, b ∷ bs) ∷ items) v =
      let req = record base { providers = wrap_batches (b ∷ bs) } in
      collect-Reported endpoint req (client_run_checks agents endpoint req)
        (fanout_loop agents base items) (client_lem agents endpoint req)
        (fanout-Reported base items) v

abbrev outcome_valid : Option Outcome → Bool
outcome_valid none = false
outcome_valid (some o) = is_valid o.0

row_is_valid-outcome :
    (o : Option MergedContractCheck) → row_is_valid o ≡ outcome_valid (outcome_of o)
unfolding row_is_valid
row_is_valid-outcome none = refl
row_is_valid-outcome (some c) = refl

expected-valid :
    (sent : Bool) (row : Option MergedContractCheck)
    → is_valid (expected sent row).0 ≡ true
    → outcome_valid (outcome_of row) ≡ true
expected-valid false row v = ground arith
expected-valid true none v = ground arith
expected-valid true (some row) v = v

results-valid :
    (contracts : List ContractToProviderRelation) (checked : KeySet) (rs : List RunChecksResult)
    (k : String)
    → row_is_valid (
        lookup
          (build_bag_check_results contracts checked (merge_run_checks_responses contracts rs).0)
          k)
      ≡ true
    → is_some (first_valid k (rows_of rs)) ≡ true
results-valid contracts checked rs k v =
    let merged = (merge_run_checks_responses contracts rs).0 in
    let built = build-outcome checked merged k contracts in
    elim (Bool-cases (has_key contracts k)) [
      | inr unknown ↦ ground (
        arith,
        row_is_valid-outcome (lookup (build_bag_check_results contracts checked merged) k),
        built,
        unknown,
      )
      | inl known ↦ best_row-valid k (rows_of rs) (
          ground (
            arith,
            row_is_valid-outcome (lookup (build_bag_check_results contracts checked merged) k),
            built,
            known,
            expected-valid (is_some (lookup checked k)) (lookup merged k),
            merge-best contracts rs k known,
          ))
    ]

-- A contract that the pass takes for proved was reported so by an agent.
abbrev IsSound : Agents → PassResult → Type 0
IsSound agents panic = Unit
IsSound agents failed = Unit
IsSound agents (done results assignment) =
    (k : String) → row_is_valid (lookup results k) ≡ true → Reported agents k

conclude-IsSound :
    (agents : Agents) (contracts : List ContractToProviderRelation) (req : RunChecksRequest)
    (checked : KeySet) (assignment : Map String) (items : Map (List ProviderBatch))
    (rs : List RunChecksResult) (m : Memory)
    → (fanout_loop agents req items).0 ≡ rs
    → IsSound agents (conclude contracts checked assignment rs m).0
unfolding conclude
conclude-IsSound agents contracts req checked assignment items [] m eq = tt
conclude-IsSound agents contracts req checked assignment items (r ∷ rs) m eq =
    λ k v. fanout-Reported agents k req items (rw eq (results-valid contracts checked (r ∷ rs) k v))

ask_sharded-IsSound :
    (agents : Agents) (contracts : List ContractToProviderRelation) (req : RunChecksRequest)
    (checked : KeySet) (shard : Option ProviderAssignment) (m : Memory)
    → IsSound agents (ask_sharded agents contracts req checked shard m).0
unfolding ask_sharded fanout_run_checks
ask_sharded-IsSound agents contracts req checked none m = tt
ask_sharded-IsSound agents contracts req checked (some shard) m =
    conclude-IsSound agents contracts req checked shard.by_provider (agents.order shard.by_endpoint)
      _ m refl

unresolved-IsSound :
    (agents : Agents) (contracts : List ContractToProviderRelation) (checked : KeySet) (k : String)
    → row_is_valid (lookup (build_bag_check_results contracts checked []) k) ≡ true
    → Reported agents k
unfolding lookup
unresolved-IsSound agents contracts checked k v = ground (
  arith,
  row_is_valid-outcome (lookup (build_bag_check_results contracts checked []) k),
  build-outcome checked [] k contracts,
  expected-valid (is_some (lookup checked k)) none,
)

asked-IsSound :
    (agents : Agents) (contracts : List ContractToProviderRelation) (req : RunChecksRequest)
    (checked : KeySet) (exclude : Map String) (m : Memory) (none_to_ask : Bool)
    → IsSound agents
        (if is_empty contracts
          then (done [] [], m)
          else if none_to_ask
          then (
            done (build_bag_check_results contracts checked []) [],
            record m { recorder = record_unresolved checked contracts m.recorder },
          )
          else ask_agents agents contracts req checked exclude m).0
unfolding ask_agents
asked-IsSound agents [] req checked exclude m b = λ k v. unfold lookup row_is_valid in absurd (cc v)
asked-IsSound agents (sc ∷ scs) req checked exclude m true =
    λ k v. unresolved-IsSound agents (sc ∷ scs) checked k v
asked-IsSound agents (sc ∷ scs) req checked exclude m false =
    ask_sharded-IsSound agents (sc ∷ scs) req checked _ m

-- Every result of a pass is sound.
run_store_proof_checks-IsSound_lem :
    (agents : Agents) (timeouts : CheckTimeouts) (fallback_job_id job_id : String)
    (contracts : List ContractToProviderRelation) (ips : Map ProviderIp) (exclude : Map String)
    (m : Memory)
    → IsSound agents
        (run_store_proof_checks agents timeouts fallback_job_id job_id contracts ips exclude m).0
unfolding run_store_proof_checks
run_store_proof_checks-IsSound_lem agents timeouts fallback_job_id job_id contracts ips exclude m =
    let (req, count, checked) =
      build_run_checks_rpc_request timeouts fallback_job_id job_id contracts ips in
    elim (Bool-cases (is_empty agents.endpoints)) [
      | inl no_agents ↦ rw no_agents tt
      | inr agents_there ↦
          rw agents_there (asked-IsSound agents contracts req checked exclude m (count == 0))
    ]

-- The pass takes the contract with the key `k` for proved.
abbrev pub proves : PassResult → String → Bool
proves panic k = false
proves failed k = false
proves (done results assignment) k = row_is_valid (lookup results k)

proved-Reported :
    (agents : Agents) (pass : PassResult) (k : String)
    → IsSound agents pass
    → proves pass k ≡ true
    → Reported agents k
proved-Reported agents panic k h v = absurd (cc v)
proved-Reported agents failed k h v = absurd (cc v)
proved-Reported agents (done results assignment) k h v = h k v

-- Whatever the agents answer, and in whatever order: the result of a pass for a contract is no valid
-- proof, or a configured agent answers some request with a row that reports a valid proof of that
-- contract.
pub run_store_proof_checks_sound :
    (agents : Agents) (timeouts : CheckTimeouts) (fallback_job_id job_id : String)
    (contracts : List ContractToProviderRelation) (ips : Map ProviderIp) (exclude : Map String)
    (m : Memory) (k : String)
    → (proves
          (run_store_proof_checks agents timeouts fallback_job_id job_id contracts ips exclude m).0
          k
        ≡ false)
      ⊎ Reported agents k
run_store_proof_checks_sound agents timeouts fallback_job_id job_id contracts ips exclude m k =
    let pass =
      (run_store_proof_checks agents timeouts fallback_job_id job_id contracts ips exclude m).0 in
    elim (Bool-cases (proves pass k)) [
      | inr unproved ↦ inl unproved
      | inl proved ↦ inr (
          proved-Reported agents pass k
            (run_store_proof_checks-IsSound_lem agents timeouts fallback_job_id job_id contracts ips
              exclude m)
            proved)
    ]
