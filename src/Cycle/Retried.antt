-- ===== src/Cycle/Retried.antt =====
-- `StoreProof`: what follows the writes of the first pass, with the second pass or without it.
use mytonprovider_backend.Prelude.{
  ◌≡◌, ℤ, arith, refl, inl, inr, String, Bool, true, not, ◌&&◌, Option, none, some, List, ◌++◌, Map,
  KeySet, is_empty, if◌then◌else◌, Bool-cases, ltb_ℤ, is_positive,
}
use mytonprovider_backend.Db.{ContractToProviderRelation, ProviderIp}
use mytonprovider_backend.StoreProof.Merge.{MergedContractCheck}
use mytonprovider_backend.StoreProof.Commit.{select_final_proofs_commit, pending_contracts}
use mytonprovider_backend.Pipeline.{new_recorder}
use mytonprovider_backend.RunChecks.Pass.{
  Memory, PassResult, panic, failed, done, run_store_proof_checks,
}
use mytonprovider_backend.RunChecks.Pass.Complete.{Completes, run_store_proof_checks-Completes}
use mytonprovider_backend.Cycle.{
  Env, Write, CycleResult, commit_cancelled, after_retry, retry_pass, wait_and_retry, should_retry,
  after_main, wait_until, sleep_until, retry_deadline, insert_all,
}
use mytonprovider_backend.Cycle.Rows.{
  was_cancelled, written, Writes, commit_deferred-Writes, commit_retried-Writes,
}

abbrev pub Results : Type 0
Results = Map MergedContractCheck

module _ (env : Env) where
  -- The results of a pass that were merged, if there are any.
  abbrev pub results_of : PassResult → Option Results
  results_of panic = none
  results_of failed = none
  results_of (done results assignment) = some results

  -- Whether there is a second pass: a key waits for it, it is configured, and there is time for it
  -- before the wait and after.
  abbrev pub retries : KeySet → Bool
  retries pending =
      (not (is_empty pending)
        && is_positive env.retry_delay
        && ltb_ℤ env.now_decide (retry_deadline env))
      && ltb_ℤ env.now_woken (retry_deadline env)

  -- The second pass: over the contracts that wait for it, with the endpoints that were looked up
  -- again, and the assignment of the first pass to avoid.
  abbrev pub second_pass :
      List ContractToProviderRelation → Map ProviderIp → Map String → KeySet → Memory → PassResult
  second_pass contracts ips assignment pending m =
      let waiting = pending_contracts contracts pending in
      (run_store_proof_checks env.retry_agents env.timeouts env.retry_run_id env.retry_run_id
        waiting (insert_all ips (env.refresh waiting)) assignment
        (record m { recorder = new_recorder })).0

  abbrev pub retry_results :
      List ContractToProviderRelation
      → Map ProviderIp
      → Map String
      → KeySet
      → Memory
      → Option Results
  retry_results contracts ips assignment pending m =
      if retries pending then results_of (second_pass contracts ips assignment pending m) else none

  -- The cycle goes on to a result that has written the deferred rows too, with this retry.
  abbrev pub Ends : List Write → Results → KeySet → Option Results → Option CycleResult → Type 0
  Ends writes main pending retry none = ⊥
  Ends writes main pending retry (some r) =
      Writes env r (written writes ++ select_final_proofs_commit main pending retry)

  after_retry-Ends :
      (contracts : List ContractToProviderRelation) (writes : List Write) (main : Results)
      (pending : KeySet) (x : PassResult × Memory)
      → Completes contracts x.0
      → Ends writes main pending (results_of x.0) (after_retry env writes main pending x)
  unfolding after_retry
  after_retry-Ends contracts writes main pending (panic, m) c = c
  after_retry-Ends contracts writes main pending (failed, m) c =
      commit_retried-Writes env writes m.recorder _
  after_retry-Ends contracts writes main pending (done retried assignment, m) c =
      commit_retried-Writes env writes m.recorder _

  wait_until-cancelled : (until : ℤ) → not (wait_until env until) ≡ true → env.cancelled ≡ true
  unfolding wait_until
  wait_until-cancelled until h = ground (arith, h)

  wait_and_retry-Ends :
      (contracts : List ContractToProviderRelation) (ips : Map ProviderIp) (writes : List Write)
      (main : Results) (assignment : Map String) (pending : KeySet) (m : Memory)
      → should_retry env pending ≡ true
      → Ends writes main pending
          (retry_results contracts ips assignment pending m)
          (wait_and_retry env contracts ips writes main assignment pending m)
  unfolding wait_and_retry commit_cancelled retry_pass should_retry
  wait_and_retry-Ends contracts ips writes main assignment pending m again =
      elim (Bool-cases (not (wait_until env (sleep_until env)))) [
        | inl cancelled ↦
            rw cancelled (inl (refl, was_cancelled (wait_until-cancelled _ cancelled)))
        | inr woken ↦ elim (Bool-cases (ltb_ℤ env.now_woken (retry_deadline env))) [
          | inr late ↦ rw (woken, late, again) (commit_deferred-Writes env writes _)
          | inl early ↦
              rw (woken, early, again)
                (after_retry-Ends (pending_contracts contracts pending) writes main pending _ (
                  run_store_proof_checks-Completes env.retry_agents env.timeouts env.retry_run_id
                    env.retry_run_id (pending_contracts contracts pending) _ assignment _))
        ]
      ]

  pub after_main-Ends :
      (contracts : List ContractToProviderRelation) (ips : Map ProviderIp) (writes : List Write)
      (main : Results) (assignment : Map String) (pending : KeySet) (m : Memory)
      → Ends writes main pending
          (retry_results contracts ips assignment pending m)
          (after_main env contracts ips writes main assignment pending m)
  unfolding after_main should_retry
  after_main-Ends contracts ips writes main assignment pending m =
      elim (Bool-cases (should_retry env pending)) [
        | inl again ↦
            rw again (
              rw again at
                (wait_and_retry-Ends contracts ips writes main assignment pending m again))
        | inr over ↦ rw over (commit_deferred-Writes env writes _)
      ]
