-- ===== src/StoreProof/Merge/Valid.antt =====
-- `mergeRunChecksResponses`: what is selected for each contract.
use mytonprovider_backend.Prelude.{
  ℕ, suc, ◌≡◌, ◌⊎◌, inl, inr, refl, String, Bool, true, false, ◌&&◌, ◌||◌, Option, none, some, List,
  [], ◌∷◌, ◌++◌, Map, lookup, insert, str_eq, if◌then◌else◌, arith, lookup-insert, eq_iff,
  Bool-cases, Option-cases, sym, ◌∙◌,
}
use mytonprovider_backend.Reason.{ReasonCode}
use mytonprovider_backend.Db.{ContractToProviderRelation, ContractCheckResult, RunChecksResult}
use mytonprovider_backend.StoreProof.Merge.{
  is_valid, row_key, row_reason, contract_relation_key, SelectedResult, selected, merge_row,
  merge_rows, merge_responses, by_key_loop, MergedContractCheck, merged_check,
  parse_stage_from_details, stage_no_result, merge_run_checks_responses,
}

-- The first row of the contract `k`.
abbrev pub first_row : String → List (Option ContractCheckResult) → Option ContractCheckResult
first_row k [] = none
first_row k (none ∷ rows) = first_row k rows
first_row k (some r ∷ rows) =
    let rest = first_row k rows in if str_eq (row_key r) k then some r else rest

-- The first row of the contract `k` that reports a valid proof.
abbrev pub first_valid : String → List (Option ContractCheckResult) → Option ContractCheckResult
first_valid k [] = none
first_valid k (none ∷ rows) = first_valid k rows
first_valid k (some r ∷ rows) =
    let rest = first_valid k rows in
    if str_eq (row_key r) k && is_valid (row_reason r) then some r else rest

abbrev pub or_first {ℓ} : {A : Type ℓ} → Option A → Option A → Option A
or_first (some a) o = some a
or_first none o = o

-- The rows of all answers, in the order in which the answers came in.
abbrev pub rows_of : List RunChecksResult → List (Option ContractCheckResult)
rows_of [] = []
rows_of (r ∷ rs) = elim r.response [
  | none ↦ rows_of rs
  | some response ↦ response.results ++ rows_of rs
]

-- A valid row of the contract if there is one, and otherwise its first row.
abbrev pub best_row : String → List (Option ContractCheckResult) → Option ContractCheckResult
best_row k rows = or_first (first_valid k rows) (first_row k rows)

abbrev selected_of : Option ContractCheckResult → Option SelectedResult
selected_of none = none
selected_of (some r) = some (selected r)

-- What `rows` make of a row that was selected before them.
abbrev after :
    String
    → Option ContractCheckResult
    → List (Option ContractCheckResult)
    → Option ContractCheckResult
after k none rows = best_row k rows
after k (some q) rows =
    if is_valid (row_reason q) then some q else or_first (first_valid k rows) (some q)

abbrev step : String → Option ContractCheckResult → ContractCheckResult → Option ContractCheckResult
step k acc r = after k acc (some r ∷ [])

lookup-merge_row :
    (m : Map SelectedResult) (r : ContractCheckResult) (k : String)
    (acc : Option ContractCheckResult)
    → lookup m k ≡ selected_of acc
    → lookup (merge_row m (some r)) k ≡ selected_of (step k acc r)
unfolding merge_row selected
lookup-merge_row m r k none h =
    ground (arith, eq_iff (row_key r) k, lookup-insert m (row_key r) k (selected r))
lookup-merge_row m r k (some q) h =
    ground (arith, eq_iff (row_key r) k, lookup-insert m (row_key r) k (selected r))

after-step :
    (k : String) (acc : Option ContractCheckResult) (r : ContractCheckResult)
    (rows : List (Option ContractCheckResult))
    → after k (step k acc r) rows ≡ after k acc (some r ∷ rows)
after-step k none r rows = ground arith
after-step k (some q) r rows = ground arith

lookup-merge_rows :
    (m : Map SelectedResult) (rows : List (Option ContractCheckResult)) (k : String)
    (acc : Option ContractCheckResult)
    → lookup m k ≡ selected_of acc
    → lookup (merge_rows m rows) k ≡ selected_of (after k acc rows)
unfolding merge_rows merge_row
lookup-merge_rows m [] k none h = h
lookup-merge_rows m [] k (some q) h = ground arith
lookup-merge_rows m (none ∷ rows) k none h = lookup-merge_rows m rows k none h
lookup-merge_rows m (none ∷ rows) k (some q) h = lookup-merge_rows m rows k (some q) h
lookup-merge_rows m (some r ∷ rows) k acc h =
    rw (← after-step k acc r rows) (
      lookup-merge_rows (merge_row m (some r)) rows k (step k acc r) (lookup-merge_row m r k acc h))

merge_rows-append :
    (m : Map SelectedResult) (xs ys : List (Option ContractCheckResult))
    → merge_rows m (xs ++ ys) ≡ merge_rows (merge_rows m xs) ys
unfolding merge_rows
merge_rows-append m [] ys = refl
merge_rows-append m (x ∷ xs) ys = merge_rows-append (merge_row m x) xs ys

-- The order of the answers is all that matters of them.
merge_responses-eq-merge_rows :
    (m : Map SelectedResult) (rs : List RunChecksResult)
    → merge_responses m rs ≡ merge_rows m (rows_of rs)
unfolding merge_responses merge_rows
merge_responses-eq-merge_rows m [] = refl
merge_responses-eq-merge_rows m (r ∷ rs) = elim (Option-cases r.response) [
  | inl missing ↦ rw missing (merge_responses-eq-merge_rows m rs)
  | inr (response, there) ↦ rw there (
      merge_responses-eq-merge_rows (merge_rows m response.results) rs
      ∙ sym (merge_rows-append m response.results (rows_of rs)))
]

-- What the coordinator records of a contract, beside its addresses.
abbrev pub Outcome : Type 0
Outcome = ReasonCode × String × String

abbrev pub outcome_of : Option MergedContractCheck → Option Outcome
outcome_of none = none
outcome_of (some c) = some (c.check.reason, c.details, c.stage)

-- The outcome that a row stands for; without a row the contract was not found.
abbrev pub outcome_of_row : Option ContractCheckResult → Outcome
outcome_of_row none = (ReasonCode.not_found, "", stage_no_result)
outcome_of_row (some r) = (row_reason r, r.details, parse_stage_from_details r.details)

-- One of the contracts has the key `k`.
abbrev pub has_key : List ContractToProviderRelation → String → Bool
has_key [] k = false
has_key (sc ∷ scs) k = str_eq (contract_relation_key sc) k || has_key scs k

merged_outcome :
    (sc : ContractToProviderRelation) (o : Option ContractCheckResult)
    → outcome_of (some (merged_check sc (selected_of o))) ≡ some (outcome_of_row o)
unfolding merged_check selected
merged_outcome sc none = refl
merged_outcome sc (some r) = refl

lookup-inserted :
    (merged : Map SelectedResult) (sc : ContractToProviderRelation) (acc : Map MergedContractCheck)
    (k : String) (o : Option ContractCheckResult)
    → lookup merged k ≡ selected_of o
    → str_eq (contract_relation_key sc) k ≡ true
    → outcome_of (
        lookup
          (insert acc
            (contract_relation_key sc)
            (merged_check sc (lookup merged (contract_relation_key sc))))
          k)
      ≡ some (outcome_of_row o)
lookup-inserted merged sc acc k o h same =
    let is_k : contract_relation_key sc ≡ k = (eq_iff (contract_relation_key sc) k).0 same in
    rw (lookup-insert, same, is_k, h) (merged_outcome sc o)

lookup-untouched :
    (sc : ContractToProviderRelation) (scs : List ContractToProviderRelation)
    (acc : Map MergedContractCheck) (row : MergedContractCheck) (k : String) {out : Outcome}
    → str_eq (contract_relation_key sc) k ≡ false
    → (has_key (sc ∷ scs) k ≡ true) ⊎ (outcome_of (lookup acc k) ≡ some out)
    → (has_key scs k ≡ true)
      ⊎ (outcome_of (lookup (insert acc (contract_relation_key sc) row) k) ≡ some out)
lookup-untouched sc scs acc row k other (inl there) = inl (ground arith)
lookup-untouched sc scs acc row k other (inr done) = inr (rw (lookup-insert, other) done)

lookup-by_key_loop :
    (merged : Map SelectedResult) (scs : List ContractToProviderRelation)
    (acc : Map MergedContractCheck) (n : ℕ) (k : String) (o : Option ContractCheckResult)
    → lookup merged k ≡ selected_of o
    → (has_key scs k ≡ true) ⊎ (outcome_of (lookup acc k) ≡ some (outcome_of_row o))
    → outcome_of (lookup (by_key_loop merged scs acc n).0 k) ≡ some (outcome_of_row o)
unfolding by_key_loop
lookup-by_key_loop merged [] acc n k o h (inl there) = cc
lookup-by_key_loop merged [] acc n k o h (inr done) = done
lookup-by_key_loop merged (sc ∷ scs) acc n k o h there =
    let key = contract_relation_key sc in
    let row = merged_check sc (lookup merged key) in
    lookup-by_key_loop merged scs (insert acc key row)
      (if is_valid row.check.reason then suc n else n) k o h
      (elim (Bool-cases (str_eq key k)) [
        | inl same ↦ inr (lookup-inserted merged sc acc k o h same)
        | inr other ↦ lookup-untouched sc scs acc row k other there
      ])

-- For each contract that was asked for, the merge has an entry. Its reason, details and stage are
-- those of the first row that reports a valid proof of the contract, whichever agent sent it; if no
-- row does, those of the contract's first row; and if there is no row for it, the reason is that
-- the contract was not found.
pub merge-best :
    (scs : List ContractToProviderRelation) (rs : List RunChecksResult) (k : String)
    → has_key scs k ≡ true
    → outcome_of (lookup (merge_run_checks_responses scs rs).0 k)
      ≡ some (outcome_of_row (best_row k (rows_of rs)))
unfolding merge_run_checks_responses
merge-best scs rs k there =
    lookup-by_key_loop (merge_responses [] rs) scs [] 0 k (best_row k (rows_of rs))
      (rw (merge_responses-eq-merge_rows [] rs)
        (lookup-merge_rows [] (rows_of rs) k none (unfold lookup in refl)))
      (inl there)
