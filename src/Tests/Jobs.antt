-- ===== src/Tests/Jobs.antt =====
-- The pool of one provider's checks at concrete inputs.
use mytonprovider_backend.Prelude.{◌≡◌, refl, arith, ℕ, String, some, none, List, [], ◌∷◌}
use mytonprovider_backend.Reason.{Code, code_number}
use mytonprovider_backend.Shard.{ContractRef, ProviderBatch}
use mytonprovider_backend.Agent.Tally.{tally_record, count_code, count_failure}
use mytonprovider_backend.Agent.Jobs.{
  Checked, Turn, loop_turn, worker_turn, connected, pending, busy, skip, work, work_at, loop_step,
  turn, turns, start, check_provider_files,
}
use mytonprovider_backend.Agent.Jobs.Answered.{
  left, present, answered_contracts, IsDone, check_provider_files-answers,
}

abbrev ref : String → ContractRef
ref address = record { contract_address = address; bag_id = "bag" }

abbrev provider : ProviderBatch
provider = record {
  provider_pubkey = "aa";
  provider_address = "P";
  storage_endpoint = none;
  contracts = some (ref "C1") ∷ none ∷ some (ref "C2") ∷ [];
}

abbrev digits : ℕ → String
digits n = "n"

abbrev failure : Checked
failure = record { code = Code.failed_initial_ping; details = "stage=ping"; latency_ms = 9 }

-- The first check fails, which stops the pool: the second contract is skipped.
abbrev es : List Turn
es = loop_turn ∷ loop_turn ∷ worker_turn 0 failure ∷ worker_turn 0 failure ∷ loop_turn ∷ []

es-IsDone : IsDone digits (λ cs. 0) provider 1 es
unfolding IsDone left turns turn loop_step work_at work skip busy pending start tally_record
    count_code count_failure code_number
es-IsDone = refl

check_provider_files-answers_example :
    answered_contracts (check_provider_files digits (λ cs. 0) provider (λ n. "5") 1 connected es)
    ≡ present provider.contracts
check_provider_files-answers_example =
    check_provider_files-answers digits (λ cs. 0) provider (λ n. "5") 1 connected es (omega arith)
      es-IsDone
