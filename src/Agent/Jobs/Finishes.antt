-- ===== src/Agent/Jobs/Finishes.antt =====
-- The pool of `checkProviderFiles` (agent/internal/checker/checker.go) does not get stuck.
use mytonprovider_backend.Prelude.{ℕ, List}
use mytonprovider_backend.Agent.Tally.{FailureTally}
use mytonprovider_backend.Agent.Jobs.{Slot}
use mytonprovider_backend.Agent.Jobs.Answered.{left_of, left}

abbrev left_after : FailureTally × Slot → ℕ
left_after r = left_of r.1

abbrev all_left_after : FailureTally × List Slot → ℕ
all_left_after r = left r.1
