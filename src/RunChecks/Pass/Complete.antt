-- ===== src/RunChecks/Pass/Complete.antt =====
-- `runStoreProofChecks`: for which contracts a pass has a result.
use mytonprovider_backend.Prelude.{
  ◌≡◌, inl, inr, refl, sym, subst, String, Bool, true, false, Option, none, some, List, [], ◌∷◌,
  Map, KeySet, IsDistinct, lookup, is_empty, is_some, ◌==◌, if◌then◌else◌, Bool-cases,
}
use mytonprovider_backend.Db.{ContractToProviderRelation, ProviderIp, RunChecksResult}
use mytonprovider_backend.Shard.{ProviderAssignment}
use mytonprovider_backend.Shard.Cover.{assign-total}
use mytonprovider_backend.StoreProof.Merge.{MergedContractCheck}
use mytonprovider_backend.StoreProof.Merge.Valid.{Outcome, has_key, outcome_of}
use mytonprovider_backend.StoreProof.Commit.{build_bag_check_results}
use mytonprovider_backend.StoreProof.Commit.Built.{build-outcome, build-IsDistinct}
use mytonprovider_backend.RunChecks.Request.{
  CheckTimeouts, RunChecksRequest, build_run_checks_rpc_request,
}
use mytonprovider_backend.RunChecks.Sticky.{snapshot_provider_agent_success}
use mytonprovider_backend.RunChecks.Pass.{
  Agents, Memory, PassResult, panic, failed, done, conclude, ask_sharded, ask_agents,
  record_unresolved, run_store_proof_checks,
}

-- Exactly the contracts have a result, and each has one.
pub record IsComplete (contracts : List ContractToProviderRelation)
    (results : Map MergedContractCheck) : Type 0 where
  pub distinct : IsDistinct results
  pub present : (k : String) → is_some (lookup results k) ≡ has_key contracts k

-- What may be said of the result of a pass.
abbrev pub Completes : List ContractToProviderRelation → PassResult → Type 0
Completes contracts panic = ⊥
Completes contracts failed = Unit
Completes contracts (done results assignment) = IsComplete contracts results

is_some_outcome :
    (o : Option MergedContractCheck) (b : Bool) (x : Outcome)
    → outcome_of o ≡ (if b then some x else none)
    → is_some o ≡ b
is_some_outcome none true x h = cc
is_some_outcome none false x h = refl
is_some_outcome (some c) true x h = refl
is_some_outcome (some c) false x h = cc

build-IsComplete :
    (contracts : List ContractToProviderRelation) (checked : KeySet)
    (merged : Map MergedContractCheck)
    → IsComplete contracts (build_bag_check_results contracts checked merged)
build-IsComplete contracts checked merged = record {
  distinct = build-IsDistinct contracts checked merged;
  present = λ k.
      is_some_outcome (lookup (build_bag_check_results contracts checked merged) k)
        (has_key contracts k) _ (build-outcome checked merged k contracts);
}

conclude-Completes :
    (contracts : List ContractToProviderRelation) (checked : KeySet) (assignment : Map String)
    (rs : List RunChecksResult) (m : Memory)
    → Completes contracts (conclude contracts checked assignment rs m).0
unfolding conclude
conclude-Completes contracts checked assignment [] m = tt
conclude-Completes contracts checked assignment (r ∷ rs) m = build-IsComplete contracts checked _

ask_sharded-Completes :
    (agents : Agents) (contracts : List ContractToProviderRelation) (req : RunChecksRequest)
    (checked : KeySet) (shard : ProviderAssignment) (m : Memory)
    → Completes contracts (ask_sharded agents contracts req checked (some shard) m).0
unfolding ask_sharded
ask_sharded-Completes agents contracts req checked shard m =
    conclude-Completes contracts checked shard.by_provider _ m

ask_agents-Completes :
    (agents : Agents) (contracts : List ContractToProviderRelation) (req : RunChecksRequest)
    (checked : KeySet) (exclude : Map String) (m : Memory)
    → Completes contracts (ask_agents agents contracts req checked exclude m).0
unfolding ask_agents
ask_agents-Completes agents contracts req checked exclude m =
    let (out, eq) =
      assign-total req.providers agents.endpoints
        (snapshot_provider_agent_success m.provider_agent_success) exclude in
    subst (λ o. Completes contracts (ask_sharded agents contracts req checked o m).0) (sym eq)
      (ask_sharded-Completes agents contracts req checked out m)

asked-Completes :
    (agents : Agents) (contracts : List ContractToProviderRelation) (req : RunChecksRequest)
    (checked : KeySet) (exclude : Map String) (m : Memory) (none_to_ask : Bool)
    → Completes contracts
        (if is_empty contracts
          then (done [] [], m)
          else if none_to_ask
          then (
            done (build_bag_check_results contracts checked []) [],
            record m { recorder = record_unresolved checked contracts m.recorder },
          )
          else ask_agents agents contracts req checked exclude m).0
asked-Completes agents [] req checked exclude m b = record {
  distinct = tt;
  present = λ k. unfold lookup in refl;
}
asked-Completes agents (sc ∷ scs) req checked exclude m true =
    build-IsComplete (sc ∷ scs) checked []
asked-Completes agents (sc ∷ scs) req checked exclude m false =
    ask_agents-Completes agents (sc ∷ scs) req checked exclude m

-- Whatever the agents answer, and in whatever order, a pass does not panic; and if it does not fail,
-- it has a result for the key of each contract, one for each key, and for no other key.
pub run_store_proof_checks-Completes :
    (agents : Agents) (timeouts : CheckTimeouts) (fallback_job_id job_id : String)
    (contracts : List ContractToProviderRelation) (ips : Map ProviderIp) (exclude : Map String)
    (m : Memory)
    → Completes contracts
        (run_store_proof_checks agents timeouts fallback_job_id job_id contracts ips exclude m).0
unfolding run_store_proof_checks
run_store_proof_checks-Completes agents timeouts fallback_job_id job_id contracts ips exclude m =
    let (req, count, checked) =
      build_run_checks_rpc_request timeouts fallback_job_id job_id contracts ips in
    elim (Bool-cases (is_empty agents.endpoints)) [
      | inl no_agents ↦ rw no_agents tt
      | inr agents_there ↦
          rw agents_there (asked-Completes agents contracts req checked exclude m (count == 0))
    ]
