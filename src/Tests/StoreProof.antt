-- ===== src/Tests/StoreProof.antt =====
-- The merge of the answers and the choice of what is written, at concrete inputs.
use mathlib.Core.List.{Perm}
use mytonprovider_backend.Prelude.{
  ◌≡◌, refl, true, ◌++◌, map, none, some, [], ◌∷◌, KeySet, IsDistinct, str_eq_refl, lookup, is_some,
  if◌then◌else◌,
}
use mytonprovider_backend.StoreProof.Merge.{contract_relation_key, merge_run_checks_responses}
use mytonprovider_backend.StoreProof.Merge.Valid.{
  outcome_of, outcome_of_row, best_row, rows_of, has_key, merge-best,
}
use mytonprovider_backend.StoreProof.Commit.{
  build_bag_check_results, select_main_proofs_commit, select_final_proofs_commit,
}
use mytonprovider_backend.StoreProof.Commit.Built.{expected, build-outcome}
use mytonprovider_backend.StoreProof.Commit.Once.{committed, commit-once}
use mytonprovider_backend.Tests.Data.{contract_a, contract_b, answers, first_results, retry_results}

key_known : has_key (contract_a ∷ []) (contract_relation_key contract_a) ≡ true
key_known = rw str_eq_refl refl

merge-best_example :
    outcome_of (
      lookup
        (merge_run_checks_responses (contract_a ∷ []) answers).0
        (contract_relation_key contract_a))
    ≡ some (outcome_of_row (best_row (contract_relation_key contract_a) (rows_of answers)))
merge-best_example =
    merge-best (contract_a ∷ []) answers (contract_relation_key contract_a) key_known

abbrev sent : KeySet
sent = ("P|C1", tt) ∷ []

build-outcome_example :
    outcome_of
      (lookup (build_bag_check_results (contract_a ∷ contract_b ∷ []) sent retry_results) "P|C2")
    ≡ (if has_key (contract_a ∷ contract_b ∷ []) "P|C2"
        then some (expected (is_some (lookup sent "P|C2")) (lookup retry_results "P|C2"))
        else none)
build-outcome_example = build-outcome sent retry_results "P|C2" (contract_a ∷ contract_b ∷ [])

first_results-IsDistinct : IsDistinct first_results
unfolding lookup
first_results-IsDistinct = (refl, (refl, tt))

commit-once_example :
    let (to_commit, pending) = select_main_proofs_commit first_results in
    Perm
      (to_commit ++ select_final_proofs_commit first_results pending (some retry_results))
      (map (committed (some retry_results)) first_results)
commit-once_example = commit-once first_results (some retry_results) first_results-IsDistinct
