-- ===== src/Agent/Tally/Streak.antt =====
-- `failureTally` of agent/internal/checker/checker.go: when `record` stops the tally.
use mytonprovider_backend.Prelude.{
  ℕ, zero, suc, ◌+◌, ◌<◌, ◌≤◌, ◌≡◌, refl, ◌∙◌, inl, inr, arith, String, Bool, true, false, ◌&&◌,
  ◌||◌, List, [], ◌∷◌, length, ltb, Bool-cases, if◌then◌else◌,
}
use mytonprovider_backend.Reason.{Code}
use mytonprovider_backend.Agent.Tally.{
  FailureTally, new_tally, is_failure, next_streak, count_code, count_failure, tally_record,
}

-- The calls of `record`, in the order of the lock.
abbrev pub record_all : FailureTally → List (Code × String) → FailureTally
record_all t [] = t
record_all t ((code, details) ∷ rs) = record_all (tally_record t code details) rs

-- The first `n` of the recorded codes are there and are failures.
abbrev pub starts_failing : ℕ → List (Code × String) → Bool
starts_failing zero rs = true
starts_failing (suc n) [] = false
starts_failing (suc n) ((code, details) ∷ rs) =
    let rest = starts_failing n rs in is_failure code && rest

-- Somewhere `n` failures stand in a row.
abbrev pub has_streak : ℕ → List (Code × String) → Bool
has_streak n [] = starts_failing n []
has_streak n ((code, details) ∷ rs) =
    let rest = has_streak n rs in starts_failing n ((code, details) ∷ rs) || rest

starts-has_streak :
    (n : ℕ) (rs : List (Code × String)) → starts_failing n rs || has_streak n rs ≡ has_streak n rs
starts-has_streak n [] = ground arith
starts-has_streak n (r ∷ rs) = ground arith

starts_failing_mono :
    (m n : ℕ) (rs : List (Code × String))
    → m ≤ n
    → starts_failing n rs ≡ true
    → starts_failing m rs ≡ true
starts_failing_mono zero n rs le h = refl
starts_failing_mono (suc m) zero rs le h = ground arith
starts_failing_mono (suc m) (suc n) [] le h = h
starts_failing_mono (suc m) (suc n) ((code, details) ∷ rs) le h =
    ground (arith, starts_failing_mono m n rs (omega (arith, le)))

stopped-record_all :
    (t : FailureTally) (rs : List (Code × String))
    → t.stopped ≡ true
    → (record_all t rs).stopped ≡ true
unfolding tally_record count_code count_failure
stopped-record_all t [] h = h
stopped-record_all t ((code, details) ∷ rs) h =
    stopped-record_all (tally_record t code details) rs (ground (arith, h))

-- One code that is recorded where it does not stop the tally.
record_success :
    (t : FailureTally) (code : Code) (details : String)
    → is_failure code ≡ false
    → ((tally_record t code details).stopped ≡ t.stopped)
      × ((tally_record t code details).fails_in_a_row ≡ 0)
      × ((tally_record t code details).threshold ≡ t.threshold)
unfolding tally_record count_code
record_success t code details fine = rw fine (refl, refl, refl)

record_failure :
    (t : FailureTally) (code : Code) (details : String)
    → is_failure code ≡ true
    → t.fails_in_a_row + 1 < 4_294_967_296
    → ((tally_record t code details).stopped
        ≡ (if ltb t.threshold (t.fails_in_a_row + 1) then true else t.stopped))
      × ((tally_record t code details).fails_in_a_row ≡ t.fails_in_a_row + 1)
      × ((tally_record t code details).threshold ≡ t.threshold)
unfolding tally_record count_code count_failure
record_failure t code details failed few =
    let no_wrap : next_streak t.fails_in_a_row ≡ t.fails_in_a_row + 1 = omega (arith, few) in
    rw (failed, no_wrap) (refl, refl, refl)

record_all-lem :
    (t : FailureTally) (most left : ℕ) (rs : List (Code × String))
    → t.threshold ≡ most
    → t.stopped ≡ false
    → t.fails_in_a_row + suc left ≡ suc most
    → t.fails_in_a_row + length rs < 4_294_967_296
    → (record_all t rs).stopped ≡ starts_failing (suc left) rs || has_streak (suc most) rs
record_all-lem t most left [] bound going count few = going
record_all-lem t most zero ((code, details) ∷ rs) bound going count few =
    elim (Bool-cases (is_failure code)) [
      | inr fine ↦
          let (s, f, th) = record_success t code details fine in
          ground (
            arith,
            fine,
            starts-has_streak (suc most) rs,
            record_all-lem (tally_record t code details) most most rs (th ∙ bound) (s ∙ going)
                (omega (arith, f)) (omega (arith, f, few)),
          )
      | inl failed ↦
          let (s, f, th) = record_failure t code details failed (omega (arith, few)) in
          ground (
            arith,
            failed,
            stopped-record_all (tally_record t code details) rs (ground (arith, s, bound, count)),
          )
    ]
record_all-lem t most (suc l) ((code, details) ∷ rs) bound going count few =
    elim (Bool-cases (is_failure code)) [
      | inr fine ↦
          let (s, f, th) = record_success t code details fine in
          ground (
            arith,
            fine,
            starts-has_streak (suc most) rs,
            record_all-lem (tally_record t code details) most most rs (th ∙ bound) (s ∙ going)
                (omega (arith, f)) (omega (arith, f, few)),
          )
      | inl failed ↦
          let (s, f, th) = record_failure t code details failed (omega (arith, few)) in
          ground (
            arith,
            failed,
            starts_failing_mono (suc l) most rs (omega (arith, count)),
            record_all-lem (tally_record t code details) most l rs (th ∙ bound)
                (ground (arith, s, going, bound, count)) (omega (arith, f, count))
                (omega (arith, f, few)),
          )
    ]

-- While fewer than 2 ^ 32 codes are recorded: a provider is given up exactly if somewhere among them
-- more failures than the threshold stand in a row.
pub record_all-stops :
    (threshold : ℕ) (rs : List (Code × String))
    → length rs < 4_294_967_296
    → (record_all (new_tally threshold) rs).stopped ≡ has_streak (suc threshold) rs
record_all-stops threshold rs few =
    record_all-lem (new_tally threshold) threshold threshold rs refl refl (omega arith)
      (omega (arith, few))
    ∙ starts-has_streak (suc threshold) rs
