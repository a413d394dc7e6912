-- ===== src/Cycle/Rows.antt =====
-- `StoreProof`: the rows that the writes at the end of a cycle add.
use mathlib.Core.List.{append-nil, append_assoc}
use mytonprovider_backend.Prelude.{
  ◌≡◌, ◌⊎◌, Bool, true, arith, refl, sym, ap, ◌∙◌, inl, inr, false, not, ◌&&◌, List, [], ◌∷◌, ◌++◌,
  is_empty, if◌then◌else◌,
}
use mytonprovider_backend.Db.{ContractProofsCheck}
use mytonprovider_backend.Pipeline.{Recorder}
use mytonprovider_backend.Cycle.{
  Env, Write, proofs, statuses, events, CycleResult, commit_deferred, commit_retried, finish,
  give_up, remain,
}

-- The rows of the writes, in order.
abbrev pub written : List Write → List ContractProofsCheck
written [] = []
written (proofs rows ∷ ws) = rows ++ written ws
written (statuses ∷ ws) = written ws
written (events r ∷ ws) = written ws

written-append : (xs ys : List Write) → written (xs ++ ys) ≡ written xs ++ written ys
written-append [] ys = refl
written-append (proofs rows ∷ xs) ys =
    ap (λ l. rows ++ l) (written-append xs ys) ∙ sym (append_assoc rows (written xs) (written ys))
written-append (statuses ∷ xs) ys = written-append xs ys
written-append (events r ∷ xs) ys = written-append xs ys

module _ (env : Env) where
  -- What can fail once the rows of the first pass are written.
  pub data IsLost : Type 0 where
    no_proofs : env.final_proofs_ok ≡ false → IsLost
    no_statuses : env.final_statuses_ok ≡ false → IsLost
    was_cancelled : env.cancelled ≡ true → IsLost

  -- The result is an error, for one of these reasons; or it is none, has written these rows, and asks
  -- for the next cycle when that is due.
  abbrev pub Writes : CycleResult → List ContractProofsCheck → Type 0
  Writes r rows =
      ((r.err ≡ true) × IsLost)
      ⊎ ((r.err ≡ false) × (written r.writes ≡ rows) × (r.interval ≡ remain env env.now_end))

  unless-Writes :
      (lost : Bool) (writes : List Write) (x : CycleResult) (rows : List ContractProofsCheck)
      → (lost ≡ true → IsLost)
      → Writes x rows
      → Writes (if lost then give_up env writes else x) rows
  unfolding give_up
  unless-Writes true writes x rows why wrote = inl (refl, why refl)
  unless-Writes false writes x rows why wrote = wrote

  pub commit_deferred-Writes :
      (writes : List Write) (rows : List ContractProofsCheck)
      → Writes (commit_deferred env writes rows) (written writes ++ rows)
  unfolding commit_deferred finish
  commit_deferred-Writes writes [] = inr (refl, sym (append-nil (written writes)), refl)
  commit_deferred-Writes writes (row ∷ rows) =
      unless-Writes (not env.final_proofs_ok) _ _ _ (λ lost. no_proofs (ground (arith, lost)))
        (unless-Writes (not env.final_statuses_ok) _ _ _
          (λ lost. no_statuses (ground (arith, lost)))
          (inr (
            refl,
            written-append writes _ ∙ ap (λ l. written writes ++ row ∷ l) (append-nil rows),
            refl,
          )))

  retried_rows :
      (writes : List Write) (recorder : Recorder) (rows : List ContractProofsCheck)
      → written (
          (if is_empty rows then writes else writes ++ proofs rows ∷ [])
          ++ statuses ∷ events recorder ∷ [])
        ≡ written writes ++ rows
  retried_rows writes recorder [] = written-append writes _
  retried_rows writes recorder (row ∷ rows) =
      written-append (writes ++ proofs (row ∷ rows) ∷ []) _
      ∙ append-nil _
      ∙ written-append writes _
      ∙ ap (λ l. written writes ++ row ∷ l) (append-nil rows)

  pub commit_retried-Writes :
      (writes : List Write) (recorder : Recorder) (rows : List ContractProofsCheck)
      → Writes (commit_retried env writes recorder rows) (written writes ++ rows)
  unfolding commit_retried finish
  commit_retried-Writes writes recorder rows =
      unless-Writes (not (is_empty rows) && not env.final_proofs_ok) _ _ _
        (λ lost. no_proofs (ground (arith, lost)))
        (unless-Writes (not env.final_statuses_ok) _ _ _
          (λ lost. no_statuses (ground (arith, lost)))
          (inr (refl, retried_rows writes recorder rows, refl)))
