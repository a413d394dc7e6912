-- ===== src/Cycle/Written.antt =====
-- `StoreProof`: the rows that a cycle writes.
use mathlib.Core.List.{Perm, append-nil}
use mytonprovider_backend.Prelude.{
  ◌≡◌, arith, ◌⊎◌, refl, inl, inr, String, Bool, true, false, not, ◌&&◌, Option, none, some, List,
  [], ◌∷◌, ◌++◌, map, Map, is_empty, if◌then◌else◌,
}
use mytonprovider_backend.Db.{ContractToProviderRelation, ContractProofsCheck, ProviderIp}
use mytonprovider_backend.StoreProof.Commit.{select_main_proofs_commit}
use mytonprovider_backend.StoreProof.Commit.Once.{committed, commit-once}
use mytonprovider_backend.Rejected.{update_rejected_contracts, active_of}
use mytonprovider_backend.Pipeline.{Recorder, new_recorder}
use mytonprovider_backend.RunChecks.Pass.{
  Memory, PassResult, panic, failed, done, run_store_proof_checks,
}
use mytonprovider_backend.RunChecks.Pass.Complete.{
  IsComplete, Completes, run_store_proof_checks-Completes,
}
use mytonprovider_backend.Cycle.{
  Env, Write, proofs, statuses, events, CycleResult, commit_main, main_pass, with_active,
  with_contracts, store_proof, give_up, remain,
}
use mytonprovider_backend.Cycle.Rows.{IsLost, written}
use mytonprovider_backend.Cycle.Retried.{Results, retry_results, Ends, after_main-Ends}

module _ (env : Env) where
  -- The contracts that the cycle checks.
  pub record IsActive (contracts : List ContractToProviderRelation) : Type 0 where
    pub all : List ContractToProviderRelation
    pub read : env.get_storage_contracts ≡ some all
    pub active : active_of (update_rejected_contracts env.chain all) ≡ some contracts

  -- The first pass of a cycle that starts with these memories had these results.
  pub record IsMain (start : Memory) (contracts : List ContractToProviderRelation)
      (ips : Map ProviderIp) (main : Results) (assignment : Map String) (m : Memory) : Type 0 where
    pub are_active : IsActive contracts
    pub resolved : env.provider_ips contracts ≡ some ips
    pub first :
        run_store_proof_checks env.main_agents env.timeouts env.run_id env.run_id contracts ips []
          start
        ≡ (done main assignment, m)
    pub complete : IsComplete contracts main

  -- Each active contract has one row among the writes: that of the first pass, or that of the second
  -- pass where there was one; and the interval is the time that is left until the next cycle is due.
  pub record IsCommitted (start : Memory) (r : CycleResult) : Type 0 where
    pub contracts : List ContractToProviderRelation
    pub ips : Map ProviderIp
    pub main : Results
    pub assignment : Map String
    pub memory : Memory
    pub is_main : IsMain start contracts ips main assignment memory
    pub once : Perm (written r.writes) (
        map
          (committed
            (retry_results env contracts ips assignment (select_main_proofs_commit main).1 memory))
          main)
    pub on_time : r.interval ≡ remain env env.now_end

  -- Why a cycle returns an error: it has no contracts, cannot ask the chain about them, or finds no
  -- endpoints; the first pass has no results; or something is lost at a write or in the wait.
  pub data Fails (start : Memory) : Type 0 where
    no_contracts : env.get_storage_contracts ≡ none → Fails start
    no_chain :
        (all : List ContractToProviderRelation)
        → env.get_storage_contracts ≡ some all
        → active_of (update_rejected_contracts env.chain all) ≡ none
        → Fails start
    no_endpoints :
        (contracts : List ContractToProviderRelation)
        → IsActive contracts
        → env.provider_ips contracts ≡ none
        → Fails start
    no_results :
        (contracts : List ContractToProviderRelation) (ips : Map ProviderIp) (m : Memory)
        → IsActive contracts
        → env.provider_ips contracts ≡ some ips
        → run_store_proof_checks env.main_agents env.timeouts env.run_id env.run_id contracts ips []
            start
          ≡ (failed, m)
        → Fails start
    no_main_proofs : env.main_proofs_ok ≡ false → Fails start
    no_main_statuses : env.main_statuses_ok ≡ false → Fails start
    is_lost : IsLost env → Fails start

  -- The cycle has a result; that is an error only for one of these reasons, and otherwise everything
  -- is committed.
  abbrev pub Commits : Memory → Option CycleResult → Type 0
  Commits start none = ⊥
  Commits start (some r) = ((r.err ≡ true) × Fails start) ⊎ ((r.err ≡ false) × IsCommitted start r)

  written_main :
      (to_commit : List ContractProofsCheck) (recorder : Recorder)
      → written (
          (if is_empty to_commit then [] else proofs to_commit ∷ [])
          ++ statuses ∷ events recorder ∷ [])
        ≡ to_commit
  written_main [] recorder = refl
  written_main (row ∷ rows) recorder = append-nil (row ∷ rows)

  ended-Commits :
      (start : Memory) (contracts : List ContractToProviderRelation) (ips : Map ProviderIp)
      (main : Results) (assignment : Map String) (m : Memory) (writes : List Write)
      (x : Option CycleResult)
      → IsMain start contracts ips main assignment m
      → written writes ≡ (select_main_proofs_commit main).0
      → Ends env writes main
          (select_main_proofs_commit main).1
          (retry_results env contracts ips assignment (select_main_proofs_commit main).1 m)
          x
      → Commits start x
  ended-Commits start contracts ips main assignment m writes none a eq ends = ends
  ended-Commits start contracts ips main assignment m writes (some r) a eq (inl (bad, lost)) =
      inl (bad, is_lost lost)
  ended-Commits start contracts ips main assignment m writes (some r) a eq
        (inr (fine, wrote, timed)) =
      inr (
        fine,
        record {
          contracts = contracts;
          ips = ips;
          main = main;
          assignment = assignment;
          memory = m;
          is_main = a;
          once = rw (wrote, eq) (commit-once main _ a.complete.distinct);
          on_time = timed;
        },
      )

  unless-Commits :
      (start : Memory) (lost : Bool) (writes : List Write) (x : Option CycleResult)
      → (lost ≡ true → Fails start)
      → Commits start x
      → Commits start (if lost then some (give_up env writes) else x)
  unfolding give_up
  unless-Commits start true writes x why h = inl (refl, why refl)
  unless-Commits start false writes x why h = h

  commit_main-Commits :
      (start : Memory) (contracts : List ContractToProviderRelation) (ips : Map ProviderIp)
      (x : PassResult × Memory)
      → IsActive contracts
      → env.provider_ips contracts ≡ some ips
      → run_store_proof_checks env.main_agents env.timeouts env.run_id env.run_id contracts ips []
          start
        ≡ x
      → Completes contracts x.0
      → Commits start (commit_main env contracts ips x)
  unfolding commit_main give_up
  commit_main-Commits start contracts ips (panic, m) a ok ran c = c
  commit_main-Commits start contracts ips (failed, m) a ok ran c =
      inl (refl, no_results contracts ips m a ok ran)
  commit_main-Commits start contracts ips (done main assignment, m) a ok ran c =
      let (to_commit, pending) = select_main_proofs_commit main in
      let writes =
        (if is_empty to_commit then [] else proofs to_commit ∷ [])
        ++ statuses ∷ events m.recorder ∷ [] in
      unless-Commits start (not (is_empty to_commit) && not env.main_proofs_ok) _ _
        (λ lost. no_main_proofs (ground (arith, lost)))
        (unless-Commits start (not env.main_statuses_ok) _ _
          (λ lost. no_main_statuses (ground (arith, lost)))
          (ended-Commits start contracts ips main assignment m writes _
            (record { are_active = a; resolved = ok; first = ran; complete = c })
            (written_main to_commit m.recorder)
            (after_main-Ends env contracts ips writes main assignment pending m)))

  main_pass-Commits :
      (start : Memory) (contracts : List ContractToProviderRelation) (ips : Option (Map ProviderIp))
      → IsActive contracts
      → env.provider_ips contracts ≡ ips
      → Commits start (main_pass env contracts ips start)
  unfolding main_pass give_up
  main_pass-Commits start contracts none a ok = inl (refl, no_endpoints contracts a ok)
  main_pass-Commits start contracts (some ips) a ok =
      commit_main-Commits start contracts ips _ a ok refl (
        run_store_proof_checks-Completes env.main_agents env.timeouts env.run_id env.run_id
          contracts ips [] start)

  with_active-Commits :
      (start : Memory) (all : List ContractToProviderRelation)
      (active : Option (List ContractToProviderRelation))
      → env.get_storage_contracts ≡ some all
      → active_of (update_rejected_contracts env.chain all) ≡ active
      → Commits start (with_active env active start)
  unfolding with_active give_up
  with_active-Commits start all none read eq = inl (refl, no_chain all read eq)
  with_active-Commits start all (some contracts) read eq =
      main_pass-Commits start contracts _ (record { all = all; read = read; active = eq }) refl

  with_contracts-Commits :
      (start : Memory) (read : Option (List ContractToProviderRelation))
      → env.get_storage_contracts ≡ read
      → Commits start (with_contracts env read start)
  unfolding with_contracts give_up
  with_contracts-Commits start none eq = inl (refl, no_contracts eq)
  with_contracts-Commits start (some all) eq = with_active-Commits start all _ eq refl

-- What a cycle starts with: the agents that each provider succeeded with, and an empty recorder.
abbrev pub first_memory : Map String → Memory
first_memory provider_agent_success = record {
  provider_agent_success = provider_agent_success;
  recorder = new_recorder;
}

-- Whatever the clock, the database, and the agents of both passes do, a cycle does not panic. It
-- returns an error only if the contracts, the chain's answers or the endpoints are missing, the
-- first pass has no results, a write fails, or the wait is cancelled. Otherwise the rows that it
-- has written are a permutation of one row for each key of an active contract and for no other key:
-- the row of the second pass, if the result of the first pass is retriable and no valid proof, the
-- second pass was due and had results, and these have its key; and otherwise the row of the first
-- pass. The second pass is due if a key waits for it, a positive delay is configured, and the
-- deadline is not reached before or after the wait. The interval that the cycle then returns is
-- what `remain` computes at the cycle's end.
pub store_proof-Commits :
    (env : Env) (provider_agent_success : Map String)
    → Commits env (first_memory provider_agent_success) (store_proof env provider_agent_success)
unfolding store_proof
store_proof-Commits env provider_agent_success =
    with_contracts-Commits env (first_memory provider_agent_success) env.get_storage_contracts refl
