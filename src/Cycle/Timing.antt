-- ===== src/Cycle/Timing.antt =====
-- `StoreProof`: when the next cycle starts.
use mytonprovider_backend.Prelude.{
  ◌≡◌, ◌⊎◌, Option, none, inl, inr, arith, String, true, some, Map, is_positive, if◌then◌else◌,
  Bool-cases, ℤ, pos, negsuc, ltb_ℤ, ◌≤ℤ◌, ◌+ℤ◌, ◌-ℤ◌, parts_add, parts_sub,
}
use mytonprovider_backend.Cycle.{
  Env, CycleResult, cycle_interval, next_full_at, remain, store_proof,
}
use mytonprovider_backend.RunChecks.Pass.{Memory}
use mytonprovider_backend.Cycle.Written.{Commits, store_proof-Commits}

-- `remain`, for the time at which the next cycle is due.
remain_at : ℤ → ℤ → ℤ
remain_at due now = let d = due -ℤ now in if ltb_ℤ d (pos 0) then pos 0 else d

remain_at_lem :
    (started interval now : ℤ)
    → pos 0 ≤ℤ interval
    → started ≤ℤ now
    → (pos 0 ≤ℤ remain_at (started +ℤ interval) now)
      × (remain_at (started +ℤ interval) now ≤ℤ interval)
      × (started +ℤ interval ≤ℤ now +ℤ remain_at (started +ℤ interval) now)
unfolding remain_at
remain_at_lem started interval now h le =
    let due = started +ℤ interval in
    elim (Bool-cases (ltb_ℤ (due -ℤ now) (pos 0))) [
      | inl over ↦
          rw over
            (ground (arith, parts_add started interval, parts_sub due now, parts_add now (pos 0)))
      | inr left ↦ rw left (
          ground (arith, parts_add started interval, parts_sub due now, parts_add now (due -ℤ now)))
    ]

positive_le : (d : ℤ) → is_positive d ≡ true → pos 0 ≤ℤ d
positive_le (pos n) h = omega arith
positive_le (negsuc n) h = absurd (cc h)

cycle_interval-pos : (env : Env) → pos 0 ≤ℤ cycle_interval env
unfolding cycle_interval
cycle_interval-pos env = elim (Bool-cases (is_positive env.interval)) [
  | inl given ↦ rw given (positive_le env.interval given)
  | inr missing ↦ rw missing (omega arith)
]

-- The cycle has a result: an error, or an interval that is not negative and no longer than the
-- cycle, and that ends no earlier than the next cycle is due.
abbrev pub IsOnTime : Env → Option CycleResult → Type 0
IsOnTime env none = ⊥
IsOnTime env (some r) =
    (r.err ≡ true)
    ⊎ ((pos 0 ≤ℤ r.interval)
        × (r.interval ≤ℤ cycle_interval env)
        × (next_full_at env ≤ℤ env.now_end +ℤ r.interval))

committed-IsOnTime :
    (env : Env) (start : Memory) (x : Option CycleResult)
    → env.started ≤ℤ env.now_end
    → Commits env start x
    → IsOnTime env x
unfolding remain next_full_at remain_at
committed-IsOnTime env start none le c = c
committed-IsOnTime env start (some r) le (inl (bad, why)) = inl bad
committed-IsOnTime env start (some r) le (inr (fine, c)) = inr (
    rw c.on_time
      (remain_at_lem env.started (cycle_interval env) env.now_end (cycle_interval-pos env) le))

-- A cycle that ends no earlier than it started does not panic, and returns with an error or asks for
-- the next cycle after an interval that is not negative, is no longer than the configured one (an
-- hour if that is not positive), and ends no earlier than this long after the start of the cycle.
pub store_proof-IsOnTime :
    (env : Env) (provider_agent_success : Map String)
    → env.started ≤ℤ env.now_end
    → IsOnTime env (store_proof env provider_agent_success)
store_proof-IsOnTime env provider_agent_success le =
    committed-IsOnTime env _ _ le (store_proof-Commits env provider_agent_success)
