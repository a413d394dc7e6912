-- ===== src/Tests/RunChecks.antt =====
-- A pass at concrete inputs.
use mytonprovider_backend.Prelude.{◌≡◌, ◌⊎◌, false, [], ◌∷◌}
use mytonprovider_backend.StoreProof.Merge.{contract_relation_key}
use mytonprovider_backend.RunChecks.Pass.{run_store_proof_checks}
use mytonprovider_backend.RunChecks.Pass.Complete.{Completes, run_store_proof_checks-Completes}
use mytonprovider_backend.RunChecks.Pass.Sound.{proves, Reported, run_store_proof_checks_sound}
use mytonprovider_backend.Tests.Data.{contract_a, contract_b, ips, timeouts, agents, memory}

run_store_proof_checks-Completes_example :
    Completes
      (contract_a ∷ contract_b ∷ [])
      (run_store_proof_checks agents timeouts "job-1" "job"
        (contract_a ∷ contract_b ∷ [])
        ips
        []
        memory).0
run_store_proof_checks-Completes_example =
    run_store_proof_checks-Completes agents timeouts "job-1" "job" (contract_a ∷ contract_b ∷ [])
      ips [] memory

run_store_proof_checks_sound_example :
    (proves
        (run_store_proof_checks agents timeouts "job-1" "job"
          (contract_a ∷ contract_b ∷ [])
          ips
          []
          memory).0
        (contract_relation_key contract_a)
      ≡ false)
    ⊎ Reported agents (contract_relation_key contract_a)
run_store_proof_checks_sound_example =
    run_store_proof_checks_sound agents timeouts "job-1" "job" (contract_a ∷ contract_b ∷ []) ips []
      memory (contract_relation_key contract_a)
