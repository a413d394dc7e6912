-- ===== src/Agent/Tally.antt =====
-- agent/internal/checker/checker.go: `failureTally`, which gives a provider up after too many
-- failures in a row, `peerPingState`, and the results of a provider that cannot be reached.
pub mod Streak
use mytonprovider_backend.Prelude.{
  ℕ, ◌+◌, ◌%◌, ◌^◌, ℤ, pos, ◌-ℤ◌, ltb_ℤ, String, Bool, true, false, not, Option, none, some, List,
  [], ◌∷◌, Map, lookup, insert, or_else, ltb, ◌==◌, if◌then◌else◌,
}
use mytonprovider_backend.Reason.{Code, to_proto, code_number}
use mytonprovider_backend.Db.{ContractCheckResult}
use mytonprovider_backend.Shard.{ContractRef, ProviderBatch}

-- `stats` counts by the number of the code.
pub record FailureTally : Type 0 where
  pub fails_in_a_row : ℕ
  pub threshold : ℕ
  pub stopped : Bool
  pub stats : ℕ → ℕ
  pub details : Map ℕ

abbrev pub new_tally : ℕ → FailureTally
new_tally threshold = record {
  fails_in_a_row = 0;
  threshold = threshold;
  stopped = false;
  stats = λ n. 0;
  details = [];
}

abbrev pub stopped_now : FailureTally → Bool
stopped_now t = t.stopped

-- `code != reason.ValidStorageProof`
abbrev pub is_failure : Code → Bool
is_failure code = not (code_number code == 0)

abbrev pub increment : Map ℕ → String → Map ℕ
increment m k = insert m k (or_else 0 (lookup m k) + 1)

-- `uint32` wraps.
abbrev pub next_streak : ℕ → ℕ
next_streak n = (n + 1) % 2 ^ 32

unfoldable pub count_code : FailureTally → Code → FailureTally
count_code t code = record t {
  stats = λ n. if n == code_number code then t.stats n + 1 else t.stats n;
}

unfoldable pub count_failure : FailureTally → String → FailureTally
count_failure t details =
    let fails = next_streak t.fails_in_a_row in
    record t {
      details = increment t.details details;
      fails_in_a_row = fails;
      stopped = if ltb t.threshold fails then true else t.stopped;
    }

-- `record`
unfoldable pub tally_record : FailureTally → Code → String → FailureTally
tally_record t code details =
    let counted = count_code t code in
    if is_failure code then count_failure counted details else record counted { fails_in_a_row = 0 }

unfoldable pub record_skip : FailureTally → String → FailureTally
record_skip t details = record t { details = increment t.details details }

-- `pingCacheTTL`, in nanoseconds.
abbrev pub ping_cache_ttl : ℤ
ping_cache_ttl = pos 2_000_000_000

-- `peerPingState`: the time of the last success, or `none` for the zero time.
abbrev pub should_probe : Option ℤ → ℤ → Bool
should_probe none now = true
should_probe (some last) now = not (ltb_ℤ (now -ℤ last) ping_cache_ttl)

abbrev pub mark_success : Option ℤ → ℤ → Option ℤ
mark_success s now = some now

abbrev pub invalidate : Option ℤ → Option ℤ
invalidate s = none

-- `makeResult`, for a contract that is not nil.
unfoldable pub make_result : ProviderBatch → ContractRef → Code → ℕ → String → ContractCheckResult
make_result provider contract code latency_ms details = record {
  provider_pubkey = provider.provider_pubkey;
  provider_address = provider.provider_address;
  contract_address = contract.contract_address;
  bag_id = contract.bag_id;
  reason_code = to_proto code;
  latency_ms = latency_ms;
  details = details;
}

unfoldable pub fill_provider_results :
    ProviderBatch → List (Option ContractRef) → Code → String → List ContractCheckResult
fill_provider_results provider [] code details = []
fill_provider_results provider (none ∷ contracts) code details =
    fill_provider_results provider contracts code details
fill_provider_results provider (some contract ∷ contracts) code details =
    make_result provider contract code 0 details
    ∷ fill_provider_results provider contracts code details
