-- ===== src/Cycle.antt =====
-- coordinator/internal/workers/providersMaster/worker.go: `StoreProof`, one cycle of the
-- storage-proof worker, with `waitUntil`. The cycle runs a pass (`RunChecks`), writes what is
-- final, waits, runs a second pass for what may have failed by accident, and writes the rest. The
-- clock's readings, the context's end and the success of each write are arguments; `none` as a
-- result is a panic.
pub mod Rows
pub mod Retried
pub mod Written
pub mod Timing
use mytonprovider_backend.Prelude.{
  ℤ, pos, ◌+ℤ◌, ◌-ℤ◌, ltb_ℤ, is_positive, String, Bool, true, false, not, ◌&&◌, ◌||◌, Option, none,
  some, List, [], ◌∷◌, ◌++◌, Map, KeySet, insert, is_empty, if◌then◌else◌,
}
use mytonprovider_backend.Db.{ContractToProviderRelation, ContractProofsCheck, ProviderIp}
use mytonprovider_backend.StoreProof.Merge.{MergedContractCheck}
use mytonprovider_backend.StoreProof.Commit.{
  select_main_proofs_commit, select_final_proofs_commit, pending_contracts,
}
use mytonprovider_backend.Rejected.{Chain, update_rejected_contracts, active_of}
use mytonprovider_backend.Pipeline.{Recorder, new_recorder}
use mytonprovider_backend.RunChecks.Request.{CheckTimeouts}
use mytonprovider_backend.RunChecks.Pass.{
  Agents, Memory, PassResult, panic, failed, done, run_store_proof_checks,
}

-- Durations are in nanoseconds.
abbrev pub second : ℤ
second = pos 1_000_000_000

abbrev pub store_proof_failure_interval : ℤ
store_proof_failure_interval = pos 15_000_000_000

abbrev pub default_store_proof_interval : ℤ
default_store_proof_interval = pos 3_600_000_000_000

abbrev pub store_proof_retry_buffer : ℤ
store_proof_retry_buffer = pos 300_000_000_000

-- What the cycle meets outside: the configuration, the clock at each place that reads it, the
-- answers of the database and of the agents, and the results of the helper that looks up the
-- endpoints.
pub record Env : Type 0 where
  pub interval : ℤ
  pub retry_delay : ℤ
  pub started : ℤ
  pub now_decide : ℤ
  pub now_sleep : ℤ
  pub now_wait : ℤ
  pub now_woken : ℤ
  pub now_end : ℤ
  pub cancelled : Bool
  pub get_storage_contracts : Option (List ContractToProviderRelation)
  pub chain : Chain
  pub provider_ips : List ContractToProviderRelation → Option (Map ProviderIp)
  pub refresh : List ContractToProviderRelation → Map ProviderIp
  pub main_agents : Agents
  pub retry_agents : Agents
  pub timeouts : CheckTimeouts
  pub run_id : String
  pub retry_run_id : String
  pub main_proofs_ok : Bool
  pub main_statuses_ok : Bool
  pub final_proofs_ok : Bool
  pub final_statuses_ok : Bool

-- A write that the cycle attempts.
pub data Write : Type 0 where
  proofs : List ContractProofsCheck → Write
  statuses : Write
  events : Recorder → Write

pub record CycleResult : Type 0 where
  pub writes : List Write
  pub interval : ℤ
  pub err : Bool

module _ (env : Env) where
  pub cycle_interval : ℤ
  cycle_interval = if is_positive env.interval then env.interval else default_store_proof_interval

  pub next_full_at : ℤ
  next_full_at = env.started +ℤ cycle_interval

  pub retry_deadline : ℤ
  retry_deadline = next_full_at -ℤ store_proof_retry_buffer

  -- The closure `remain`, at a reading of the clock.
  pub remain : ℤ → ℤ
  remain now = let d = next_full_at -ℤ now in if ltb_ℤ d (pos 0) then pos 0 else d

  -- `waitUntil`: whether it returns without an error.
  pub wait_until : ℤ → Bool
  wait_until until = not (ltb_ℤ env.now_wait until) || not env.cancelled

  pub sleep_until : ℤ
  sleep_until =
      let t = env.now_sleep +ℤ env.retry_delay in
      if ltb_ℤ retry_deadline t then retry_deadline else t

  pub give_up : List Write → CycleResult
  give_up writes = record { writes = writes; interval = store_proof_failure_interval; err = true }

  pub finish : List Write → CycleResult
  finish writes = record { writes = writes; interval = remain env.now_end; err = false }

  -- The deferred rows are written, and the statuses after them, if there are any rows.
  pub commit_deferred : List Write → List ContractProofsCheck → CycleResult
  commit_deferred writes [] = finish writes
  commit_deferred writes (row ∷ rows) =
      if not env.final_proofs_ok
      then give_up (writes ++ proofs (row ∷ rows) ∷ [])
      else if not env.final_statuses_ok
      then give_up (writes ++ proofs (row ∷ rows) ∷ statuses ∷ [])
      else finish (writes ++ proofs (row ∷ rows) ∷ statuses ∷ [])

  -- The same after the context has ended: errors are only logged, and the cycle returns the
  -- context's error.
  pub cancelled_writes : List Write → List ContractProofsCheck → List Write
  cancelled_writes writes [] = writes
  cancelled_writes writes (row ∷ rows) =
      if env.final_proofs_ok
      then writes ++ proofs (row ∷ rows) ∷ statuses ∷ []
      else writes ++ proofs (row ∷ rows) ∷ []

  pub commit_cancelled : List Write → List ContractProofsCheck → CycleResult
  commit_cancelled writes rows = record {
    writes = cancelled_writes writes rows;
    interval = remain env.now_end;
    err = true;
  }

  -- The rows after the second pass; the statuses are written in any case.
  pub commit_retried : List Write → Recorder → List ContractProofsCheck → CycleResult
  commit_retried writes recorder rows =
      let written = if is_empty rows then writes else writes ++ proofs rows ∷ [] in
      if not (is_empty rows) && not env.final_proofs_ok
      then give_up (written ++ events recorder ∷ [])
      else if not env.final_statuses_ok
      then give_up (written ++ statuses ∷ events recorder ∷ [])
      else finish (written ++ statuses ∷ events recorder ∷ [])

  -- The part that follows the second pass.
  pub after_retry :
      List Write → Map MergedContractCheck → KeySet → PassResult × Memory → Option CycleResult
  after_retry writes main pending (panic, m) = none
  after_retry writes main pending (failed, m) =
      some (commit_retried writes m.recorder (select_final_proofs_commit main pending none))
  after_retry writes main pending (done retried assignment, m) =
      some
        (commit_retried writes m.recorder (select_final_proofs_commit main pending (some retried)))

-- `for pk, ip := range refreshed { availableProvidersIPs[pk] = ip }`
pub insert_all {ℓ} : {V : Type ℓ} → Map V → Map V → Map V
insert_all m [] = m
insert_all m ((k, v) ∷ new) = insert_all (insert m k v) new

module _ (env : Env) where
  -- The second pass, over the contracts that wait for it, away from the agents of the first pass.
  pub retry_pass :
      List ContractToProviderRelation
      → Map ProviderIp
      → Map String
      → KeySet
      → Memory
      → PassResult × Memory
  retry_pass contracts ips assignment pending m =
      let waiting = pending_contracts contracts pending in
      run_store_proof_checks env.retry_agents env.timeouts env.retry_run_id env.retry_run_id waiting
        (insert_all ips (env.refresh waiting)) assignment (record m { recorder = new_recorder })

  -- The wait and what follows it.
  pub wait_and_retry :
      List ContractToProviderRelation
      → Map ProviderIp
      → List Write
      → Map MergedContractCheck
      → Map String
      → KeySet
      → Memory
      → Option CycleResult
  wait_and_retry contracts ips writes main assignment pending m =
      let deferred = select_final_proofs_commit main pending none in
      if not (wait_until env (sleep_until env))
      then some (commit_cancelled env writes deferred)
      else if not (ltb_ℤ env.now_woken (retry_deadline env))
      then some (commit_deferred env writes deferred)
      else after_retry env writes main pending (retry_pass contracts ips assignment pending m)

  pub should_retry : KeySet → Bool
  should_retry pending =
      not (is_empty pending)
      && is_positive env.retry_delay
      && ltb_ℤ env.now_decide (retry_deadline env)

  -- The part that follows the writes of the first pass.
  pub after_main :
      List ContractToProviderRelation
      → Map ProviderIp
      → List Write
      → Map MergedContractCheck
      → Map String
      → KeySet
      → Memory
      → Option CycleResult
  after_main contracts ips writes main assignment pending m =
      if should_retry pending
      then wait_and_retry contracts ips writes main assignment pending m
      else some (commit_deferred env writes (select_final_proofs_commit main pending none))

  -- The writes of the first pass.
  pub commit_main :
      List ContractToProviderRelation → Map ProviderIp → PassResult × Memory → Option CycleResult
  commit_main contracts ips (panic, m) = none
  commit_main contracts ips (failed, m) = some (give_up env (events m.recorder ∷ []))
  commit_main contracts ips (done main assignment, m) =
      let (to_commit, pending) = select_main_proofs_commit main in
      let written = if is_empty to_commit then [] else proofs to_commit ∷ [] in
      if not (is_empty to_commit) && not env.main_proofs_ok
      then some (give_up env (written ++ events m.recorder ∷ []))
      else if not env.main_statuses_ok
      then some (give_up env (written ++ statuses ∷ events m.recorder ∷ []))
      else after_main contracts ips (written ++ statuses ∷ events m.recorder ∷ []) main assignment
          pending m

  pub main_pass :
      List ContractToProviderRelation → Option (Map ProviderIp) → Memory → Option CycleResult
  main_pass contracts none m = some (give_up env [])
  main_pass contracts (some ips) m =
      commit_main contracts ips (
        run_store_proof_checks env.main_agents env.timeouts env.run_id env.run_id contracts ips []
          m)

  pub with_active : Option (List ContractToProviderRelation) → Memory → Option CycleResult
  with_active none m = some (give_up env [])
  with_active (some contracts) m = main_pass contracts (env.provider_ips contracts) m

  pub with_contracts : Option (List ContractToProviderRelation) → Memory → Option CycleResult
  with_contracts none m = some (give_up env [])
  with_contracts (some contracts) m =
      with_active (active_of (update_rejected_contracts env.chain contracts)) m

  pub store_proof : Map String → Option CycleResult
  store_proof provider_agent_success =
      with_contracts env.get_storage_contracts
        (record { provider_agent_success = provider_agent_success; recorder = new_recorder })
