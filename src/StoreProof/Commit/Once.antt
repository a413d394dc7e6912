-- ===== src/StoreProof/Commit/Once.antt =====
-- `selectMainProofsCommit` and `selectFinalProofsCommit`, one after the other.
use mathlib.Core.List.{Perm, append-nil, append_assoc, perm_middle}
use mathlib.Core.List.Perm
use mytonprovider_backend.Prelude.{
  ◌≡◌, refl, sym, ap, ◌∙◌, inl, inr, String, true, false, Option, none, some, List, [], ◌∷◌, ◌++◌,
  map, Map, KeySet, IsDistinct, lookup, insert, insert-fresh, lookup-insert, str_ne_sym, All,
  str_eq, if◌then◌else◌, or_else, is_empty, arith, Bool-cases, str_eq_refl,
}
use mytonprovider_backend.Db.{ContractProofsCheck}
use mytonprovider_backend.StoreProof.Merge.{MergedContractCheck}
use mytonprovider_backend.StoreProof.Commit.{
  is_final, main_loop, select_main_proofs_commit, retry_row, final_row, final_loop,
  select_final_proofs_commit,
}

abbrev Results : Type 0
Results = Map MergedContractCheck

-- What is written in the end for the result `row` of the key: the row of the retry, if the result
-- is not final and the retry has the key, and otherwise the row itself.
abbrev pub committed :
    Option (Map MergedContractCheck) → String × MergedContractCheck → ContractProofsCheck
committed retry (key, row) =
    if is_final row then row.check else (or_else row (retry_row retry key)).check

-- The rows that the first pass writes, the keys that it defers, and what is written for these.
abbrev finals : Results → List ContractProofsCheck
finals [] = []
finals ((key, row) ∷ m) = let rest = finals m in if is_final row then row.check ∷ rest else rest

abbrev deferred : Results → KeySet
deferred [] = []
deferred ((key, row) ∷ m) = let rest = deferred m in if is_final row then rest else (key, tt) ∷ rest

abbrev waiting : Option Results → Results → List ContractProofsCheck
waiting retry [] = []
waiting retry ((key, row) ∷ m) =
    let rest = waiting retry m in if is_final row then rest else committed retry (key, row) ∷ rest

split-perm :
    (retry : Option Results) (m : Results)
    → Perm (finals m ++ waiting retry m) (map (committed retry) m)
split-perm retry [] = Perm.refl _
split-perm retry ((key, row) ∷ m) = elim (Bool-cases (is_final row)) [
  | inl final ↦ rw final (Perm.cons row.check (split-perm retry m))
  | inr open_row ↦
      rw open_row
        (Perm.trans (perm_middle (finals m) (waiting retry m)) (Perm.cons _ (split-perm retry m)))
]

-- No key of `m` is the key `k`.
abbrev Without : String → Results → Type 0
Without k m = All (λ e. str_eq e.0 k ≡ false) m

Without-lookup : (k : String) (m : Results) → lookup m k ≡ none → Without k m
unfolding lookup
Without-lookup k [] h = tt
Without-lookup k ((j, v) ∷ m) h = elim (Bool-cases (str_eq j k)) [
  | inl same ↦ ground arith
  | inr other ↦ (other, Without-lookup k m (rw other at h))
]

-- No key of `m` is in the set.
abbrev Apart : KeySet → Results → Type 0
Apart pending m = All (λ e. lookup pending e.0 ≡ none) m

insert-Apart :
    (pending : KeySet) (k : String) (m : Results)
    → Without k m
    → Apart pending m
    → Apart (insert pending k tt) m
insert-Apart pending k [] w a = tt
insert-Apart pending k ((j, v) ∷ m) w a =
    (rw (lookup-insert, str_ne_sym j k w.0) a.0, insert-Apart pending k m w.1 a.1)

main_loop_lem :
    (m : Results) (to_commit : List ContractProofsCheck) (pending : KeySet)
    → IsDistinct m
    → Apart pending m
    → main_loop m to_commit pending ≡ (to_commit ++ finals m, pending ++ deferred m)
unfolding main_loop
main_loop_lem [] to_commit pending d a = rw (append-nil to_commit, append-nil pending) refl
main_loop_lem ((key, row) ∷ m) to_commit pending d a = elim (Bool-cases (is_final row)) [
  | inl final ↦ rw final (
      main_loop_lem m (to_commit ++ row.check ∷ []) pending d.1 a.1
      ∙ ap (λ l. (l, pending ++ deferred m)) (append_assoc to_commit (row.check ∷ []) (finals m)))
  | inr open_row ↦ rw open_row (
      main_loop_lem m to_commit (insert pending key tt) d.1
        (insert-Apart pending key m (Without-lookup key m d.0) a.1)
      ∙ ap (λ (s : KeySet). (to_commit ++ finals m, s ++ deferred m))
          (insert-fresh pending key tt a.0)
      ∙ ap (λ s. (to_commit ++ finals m, s)) (append_assoc pending ((key, tt) ∷ []) (deferred m)))
]

-- Each entry of `m` is found in `main`.
abbrev Within : Results → Results → Type 0
Within main m = All (λ e. lookup main e.0 ≡ some e.1) m

Within-cons :
    (k : String) (v : MergedContractCheck) (main m : Results)
    → Without k m
    → Within main m
    → Within ((k, v) ∷ main) m
unfolding lookup
Within-cons k v main [] w all = tt
Within-cons k v main ((j, x) ∷ m) w all =
    (rw (str_ne_sym j k w.0) all.0, Within-cons k v main m w.1 all.1)

Within-self : (m : Results) → IsDistinct m → Within m m
unfolding lookup
Within-self [] d = tt
Within-self ((k, v) ∷ m) d =
    (rw str_eq_refl refl, Within-cons k v m m (Without-lookup k m d.0) (Within-self m d.1))

final_row-some :
    (o : Option MergedContractCheck) (row : MergedContractCheck)
    → final_row o (some row) ≡ (or_else row o).check ∷ []
unfolding final_row
final_row-some none row = refl
final_row-some (some retried) row = refl

final_loop_lem :
    (main m : Results) (retry : Option Results) (out : List ContractProofsCheck)
    → Within main m
    → final_loop main (deferred m) retry out ≡ out ++ waiting retry m
unfolding final_loop
final_loop_lem main [] retry out all = rw append-nil refl
final_loop_lem main ((key, row) ∷ m) retry out all = elim (Bool-cases (is_final row)) [
  | inl final ↦ rw final (final_loop_lem main m retry out all.1)
  | inr open_row ↦ rw open_row (
      ap (λ l. final_loop main (deferred m) retry (out ++ l))
        (ap (final_row (retry_row retry key)) all.0 ∙ final_row-some (retry_row retry key) row)
      ∙ final_loop_lem main m retry (out ++ (or_else row (retry_row retry key)).check ∷ []) all.1
      ∙ append_assoc out ((or_else row (retry_row retry key)).check ∷ []) (waiting retry m))
]

Apart-empty : (m : Results) → Apart [] m
unfolding lookup
Apart-empty [] = tt
Apart-empty (e ∷ m) = (refl, Apart-empty m)

waiting-nil :
    (retry : Option Results) (m : Results) → is_empty (deferred m) ≡ true → waiting retry m ≡ []
waiting-nil retry [] h = refl
waiting-nil retry ((key, row) ∷ m) h = elim (Bool-cases (is_final row)) [
  | inl final ↦ rw final (waiting-nil retry m (rw final at h))
  | inr open_row ↦ ground arith
]

select_final_lem :
    (m : Results) (retry : Option Results)
    → IsDistinct m
    → select_final_proofs_commit m (deferred m) retry ≡ waiting retry m
unfolding select_final_proofs_commit
select_final_lem m retry d = elim (Bool-cases (is_empty (deferred m))) [
  | inl none_left ↦ rw none_left (sym (waiting-nil retry m none_left))
  | inr some_left ↦ rw some_left (final_loop_lem m m retry [] (Within-self m d))
]

select_main_lem :
    (m : Results) → IsDistinct m → select_main_proofs_commit m ≡ (finals m, deferred m)
unfolding select_main_proofs_commit
select_main_lem m d = main_loop_lem m [] [] d (Apart-empty m)

-- Let the results of the first pass have distinct keys, as in a Go map. What is written after the
-- first pass, and what is written for the deferred keys at the end, are together a permutation of
-- one row for each result: the row of the retry, if the result is retriable, is no valid proof, and
-- the retry has its key, and otherwise the row of the first pass.
pub commit-once :
    (results : Map MergedContractCheck) (retry : Option (Map MergedContractCheck))
    → IsDistinct results
    → let (to_commit, pending) = select_main_proofs_commit results in
      Perm
        (to_commit ++ select_final_proofs_commit results pending retry)
        (map (committed retry) results)
commit-once results retry d =
    rw (select_main_lem results d)
      (rw (select_final_lem results retry d) (split-perm retry results))
