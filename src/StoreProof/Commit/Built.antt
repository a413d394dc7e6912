-- ===== src/StoreProof/Commit/Built.antt =====
-- `buildBagCheckResults`: the entries of its result.
use mytonprovider_backend.Prelude.{
  ◌≡◌, inl, inr, refl, String, Bool, true, false, Option, none, some, List, [], ◌∷◌, Map, KeySet,
  IsDistinct, insert-IsDistinct, lookup, lookup-insert, insert, str_eq, eq_iff, if◌then◌else◌,
  is_some, arith, Bool-cases,
}
use mytonprovider_backend.Reason.{ReasonCode}
use mytonprovider_backend.Db.{ContractToProviderRelation}
use mytonprovider_backend.StoreProof.Merge.{
  MergedContractCheck, contract_relation_key, stage_no_result,
}
use mytonprovider_backend.StoreProof.Merge.Valid.{Outcome, outcome_of, has_key}
use mytonprovider_backend.StoreProof.Commit.{
  stage_endpoint_unresolved, missing_check, bag_check, build_loop, build_bag_check_results,
}

-- The outcome of a contract, from whether its provider was sent to an agent and from the merge.
abbrev pub expected : Bool → Option MergedContractCheck → Outcome
expected false row = (
  ReasonCode.ip_not_found, "storage endpoint not resolved for RunChecks", stage_endpoint_unresolved,
)
expected true none =
    (ReasonCode.not_found, "agent did not return result for contract", stage_no_result)
expected true (some row) = (row.check.reason, row.details, row.stage)

outcome-bag_check :
    (sc : ContractToProviderRelation) (sent : Bool) (row : Option MergedContractCheck)
    → outcome_of (some (bag_check sc sent row)) ≡ some (expected sent row)
unfolding bag_check missing_check
outcome-bag_check sc false row = refl
outcome-bag_check sc true none = refl
outcome-bag_check sc true (some row) = refl

module _ (checked : KeySet) (merged : Map MergedContractCheck) (k : String) where
  outcome_inserted :
      (sc : ContractToProviderRelation) (out : Map MergedContractCheck)
      → outcome_of (
          lookup
            (insert out (contract_relation_key sc) (
              bag_check sc
                (is_some (lookup checked (contract_relation_key sc)))
                (lookup merged (contract_relation_key sc))))
            k)
        ≡ (if str_eq (contract_relation_key sc) k
            then some (expected (is_some (lookup checked k)) (lookup merged k))
            else outcome_of (lookup out k))
  outcome_inserted sc out = elim (Bool-cases (str_eq (contract_relation_key sc) k)) [
    | inl same ↦
        let is_k : contract_relation_key sc ≡ k = (eq_iff (contract_relation_key sc) k).0 same in
        rw (lookup-insert, same, is_k)
          (outcome-bag_check sc (is_some (lookup checked k)) (lookup merged k))
    | inr other ↦ rw (lookup-insert, other) refl
  ]

  outcome-build_loop :
      (scs : List ContractToProviderRelation) (out : Map MergedContractCheck)
      → outcome_of (lookup (build_loop checked merged scs out) k) ≡ (
          if has_key scs k
          then some (expected (is_some (lookup checked k)) (lookup merged k))
          else outcome_of (lookup out k))
  unfolding build_loop
  outcome-build_loop [] out = refl
  outcome-build_loop (sc ∷ scs) out =
      let key = contract_relation_key sc in
      let row = bag_check sc (is_some (lookup checked key)) (lookup merged key) in
      ground (arith, outcome-build_loop scs (insert out key row), outcome_inserted sc out)

  -- The key of each contract, and no other key, has an entry. A contract whose provider was not sent
  -- to an agent has the reason "IP not found", one that the agents did not answer for "not found",
  -- and any other the reason, details and stage of the merge.
  pub build-outcome :
      (scs : List ContractToProviderRelation)
      → outcome_of (lookup (build_bag_check_results scs checked merged) k) ≡ (
          if has_key scs k
          then some (expected (is_some (lookup checked k)) (lookup merged k))
          else none)
  unfolding build_bag_check_results
  build-outcome scs = rw outcome-build_loop (unfold lookup in refl)

build_loop-IsDistinct :
    (checked : KeySet) (merged : Map MergedContractCheck) (scs : List ContractToProviderRelation)
    (out : Map MergedContractCheck)
    → IsDistinct out
    → IsDistinct (build_loop checked merged scs out)
unfolding build_loop
build_loop-IsDistinct checked merged [] out d = d
build_loop-IsDistinct checked merged (sc ∷ scs) out d =
    let key = contract_relation_key sc in
    let row = bag_check sc (is_some (lookup checked key)) (lookup merged key) in
    build_loop-IsDistinct checked merged scs (insert out key row) (insert-IsDistinct out key row d)

-- The results have distinct keys.
pub build-IsDistinct :
    (scs : List ContractToProviderRelation) (checked : KeySet) (merged : Map MergedContractCheck)
    → IsDistinct (build_bag_check_results scs checked merged)
unfolding build_bag_check_results
build-IsDistinct scs checked merged = build_loop-IsDistinct checked merged scs [] tt
