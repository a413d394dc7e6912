-- ===== src/Tests/Cycle.antt =====
-- A cycle at a concrete configuration.
use mytonprovider_backend.Prelude.{arith, pos, true, false, some, [], ◌∷◌}
use mytonprovider_backend.Cycle.{Env, store_proof}
use mytonprovider_backend.Cycle.Written.{Commits, first_memory, store_proof-Commits}
use mytonprovider_backend.Cycle.Timing.{IsOnTime, store_proof-IsOnTime}
use mytonprovider_backend.Tests.Data.{chain, contract_a, contract_b, ips, timeouts, agents}

-- The clock of an hour's cycle with a retry after ten minutes, in nanoseconds.
abbrev env : Env
env = record {
  interval = pos 3_600_000_000_000;
  retry_delay = pos 600_000_000_000;
  started = pos 0;
  now_decide = pos 60_000_000_000;
  now_sleep = pos 60_000_000_000;
  now_wait = pos 60_000_000_000;
  now_woken = pos 660_000_000_000;
  now_end = pos 700_000_000_000;
  cancelled = false;
  get_storage_contracts = some (contract_a ∷ contract_b ∷ []);
  chain = chain;
  provider_ips = λ contracts. some ips;
  refresh = λ contracts. [];
  main_agents = agents;
  retry_agents = agents;
  timeouts = timeouts;
  run_id = "storeproof-0";
  retry_run_id = "storeproof-0-retry";
  main_proofs_ok = true;
  main_statuses_ok = true;
  final_proofs_ok = true;
  final_statuses_ok = true;
}

store_proof-Commits_example : Commits env (first_memory []) (store_proof env [])
store_proof-Commits_example = store_proof-Commits env []

store_proof-IsOnTime_example : IsOnTime env (store_proof env [])
store_proof-IsOnTime_example = store_proof-IsOnTime env [] (omega arith)
