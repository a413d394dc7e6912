-- ===== src/Agent/Jobs/Answered.antt =====
-- The results of `checkProviderFiles` (agent/internal/checker/checker.go) against the contracts that
-- the batch names.
use mytonprovider_backend.Prelude.{
  ℕ, ℤ, is_empty, zero, suc, ◌+◌, ◌≤◌, ◌<◌, ◌≡◌, refl, sym, ◌∙◌, ap, inl, inr, arith, String, Bool,
  true, false, Bool-cases, Option, none, some, List, [], ◌∷◌, ltb, ltb→lt, if◌then◌else◌,
}
use mytonprovider_backend.Reason.{Code}
use mytonprovider_backend.Db.{ContractCheckResult}
use mytonprovider_backend.Shard.{ContractRef, ProviderBatch}
use mytonprovider_backend.Agent.Tally.{
  FailureTally, stopped_now, make_result, fill_provider_results,
}
use mytonprovider_backend.Agent.Jobs.{
  Checked, Slot, absent, waiting, offered, taken, checking, answered, Pool, Turn, loop_turn,
  worker_turn, slots_of, pending, collect, skip, work, work_at, loop_step, turn, turns, start, Dial,
  start_failed, register_failed, ping_failed, connected, fewer, check_contracts,
  check_provider_files,
}

-- The contract that a result is about.
abbrev pub contract_of : ContractCheckResult → ContractRef
contract_of r = record { contract_address = r.contract_address; bag_id = r.bag_id }

unfoldable pub answered_contracts : List ContractCheckResult → List ContractRef
answered_contracts [] = []
answered_contracts (r ∷ rs) = contract_of r ∷ answered_contracts rs

-- The contracts that are not nil, in their order.
unfoldable pub present : List (Option ContractRef) → List ContractRef
present [] = []
present (none ∷ cs) = present cs
present (some c ∷ cs) = c ∷ present cs

-- How many turns a contract still takes.
abbrev pub left_of : Slot → ℕ
left_of absent = 0
left_of (waiting c) = 4
left_of (offered c) = 3
left_of (taken c) = 2
left_of (checking c) = 1
left_of (answered r) = 0

unfoldable pub left : List Slot → ℕ
left [] = 0
left (s ∷ ss) = left_of s + left ss

abbrev named : Slot → Option ContractRef
named absent = none
named (waiting c) = some c
named (offered c) = some c
named (taken c) = some c
named (checking c) = some c
named (answered r) = some (contract_of r)

abbrev all_named : List Slot → List (Option ContractRef)
all_named [] = []
all_named (s ∷ ss) = named s ∷ all_named ss

abbrev named_after : FailureTally × Slot → Option ContractRef
named_after r = named r.1

slots_of-named : (cs : List (Option ContractRef)) → all_named (slots_of cs) ≡ cs
slots_of-named [] = refl
slots_of-named (none ∷ cs) = ap (λ r. none ∷ r) (slots_of-named cs)
slots_of-named (some c ∷ cs) = ap (λ r. some c ∷ r) (slots_of-named cs)

module _ (written : ℕ → String) (provider : ProviderBatch) where
  if-named :
      (b : Bool) (x y : FailureTally × Slot) (c : Option ContractRef)
      → named x.1 ≡ c
      → named y.1 ≡ c
      → named_after (if b then x else y) ≡ c
  if-named true x y c p q = p
  if-named false x y c p q = q

  work-named :
      (done : Checked) (t : FailureTally) (s : Slot)
      → named ((work written provider done t s).1) ≡ named s
  unfolding work skip make_result
  work-named done t absent = refl
  work-named done t (waiting c) = refl
  work-named done t (offered c) = refl
  work-named done t (taken c) = if-named (stopped_now t) _ _ (some c) refl refl
  work-named done t (checking c) = refl
  work-named done t (answered r) = refl

  work_at-named :
      (i : ℕ) (done : Checked) (t : FailureTally) (ss : List Slot)
      → all_named ((work_at written provider i done t ss).1) ≡ all_named ss
  unfolding work_at
  work_at-named i done t [] = refl
  work_at-named zero done t (s ∷ ss) = ap (λ n. n ∷ all_named ss) (work-named done t s)
  work_at-named (suc i) done t (s ∷ ss) = ap (λ r. named s ∷ r) (work_at-named i done t ss)

  loop_step-named :
      (free : Bool) (t : FailureTally) (ss : List Slot)
      → all_named ((loop_step written provider free t ss).1) ≡ all_named ss
  unfolding loop_step skip make_result
  loop_step-named free t [] = refl
  loop_step-named free t (waiting c ∷ ss) =
      ap (λ n. n ∷ all_named ss) (if-named (stopped_now t) _ _ (some c) refl refl)
  loop_step-named true t (offered c ∷ ss) = refl
  loop_step-named false t (offered c ∷ ss) = refl
  loop_step-named free t (absent ∷ ss) = ap (λ r. none ∷ r) (loop_step-named free t ss)
  loop_step-named free t (taken c ∷ ss) = ap (λ r. some c ∷ r) (loop_step-named free t ss)
  loop_step-named free t (checking c ∷ ss) = ap (λ r. some c ∷ r) (loop_step-named free t ss)
  loop_step-named free t (answered a ∷ ss) =
      ap (λ r. some (contract_of a) ∷ r) (loop_step-named free t ss)

  pub turns-named :
      (workers : ℕ) (es : List Turn) (p : Pool)
      → all_named (turns written provider workers es p).slots ≡ all_named p.slots
  unfolding turns turn
  turns-named workers [] p = refl
  turns-named workers (loop_turn ∷ es) p =
      turns-named workers es (turn written provider workers loop_turn p)
      ∙ loop_step-named _ p.tally p.slots
  turns-named workers (worker_turn i done ∷ es) p =
      turns-named workers es (turn written provider workers (worker_turn i done) p)
      ∙ work_at-named i done p.tally p.slots

finished-collect :
    (ss : List Slot) → left ss ≡ 0 → answered_contracts (collect ss) ≡ present (all_named ss)
unfolding left collect answered_contracts present
finished-collect [] done = refl
finished-collect (absent ∷ ss) done = finished-collect ss (omega (arith, done))
finished-collect (waiting c ∷ ss) done = absurd (omega (arith, done))
finished-collect (offered c ∷ ss) done = absurd (omega (arith, done))
finished-collect (taken c ∷ ss) done = absurd (omega (arith, done))
finished-collect (checking c ∷ ss) done = absurd (omega (arith, done))
finished-collect (answered r ∷ ss) done =
    ap (λ cs. contract_of r ∷ cs) (finished-collect ss (omega (arith, done)))

fill_provider_results-answers :
    (provider : ProviderBatch) (cs : List (Option ContractRef)) (code : Code) (details : String)
    → answered_contracts (fill_provider_results provider cs code details) ≡ present cs
unfolding fill_provider_results make_result answered_contracts present
fill_provider_results-answers provider [] code details = refl
fill_provider_results-answers provider (none ∷ cs) code details =
    fill_provider_results-answers provider cs code details
fill_provider_results-answers provider (some c ∷ cs) code details =
    ap (λ r. c ∷ r) (fill_provider_results-answers provider cs code details)

pending-present : (cs : List (Option ContractRef)) → pending cs ≡ 0 → present cs ≡ []
unfolding pending present
pending-present [] none_left = refl
pending-present (none ∷ cs) none_left = pending-present cs none_left
pending-present (some c ∷ cs) none_left = absurd (omega (arith, none_left))

fewer-zero : (a b : ℕ) → 1 ≤ a → fewer a b < 1 → b ≡ 0
fewer-zero a b some_a few = ground (arith, some_a, few)

-- Whether the jobs of the pool are done after some turns; nothing is to be done without a peer.
unfoldable pub IsDone :
    (ℕ → String) → (List (Option ContractRef) → ℕ) → ProviderBatch → ℕ → List Turn → Type 0
IsDone written threshold provider max_bags es =
    let workers = fewer max_bags (pending provider.contracts) in
    left (turns written provider workers es (start written threshold provider.contracts)).slots ≡ 0

check_contracts-answers :
    (written : ℕ → String) (threshold : List (Option ContractRef) → ℕ) (provider : ProviderBatch)
    (addr : String) (max_bags : ℕ) (dial : Dial) (es : List Turn)
    → 1 ≤ max_bags
    → IsDone written threshold provider max_bags es
    → answered_contracts (check_contracts written threshold provider addr max_bags dial es)
      ≡ present provider.contracts
unfolding check_contracts IsDone start answered_contracts
check_contracts-answers written threshold provider addr max_bags (start_failed err) es some_bag
      done =
    fill_provider_results-answers provider provider.contracts _ _
check_contracts-answers written threshold provider addr max_bags (register_failed err) es some_bag
      done =
    fill_provider_results-answers provider provider.contracts _ _
check_contracts-answers written threshold provider addr max_bags (ping_failed err) es some_bag
      done =
    fill_provider_results-answers provider provider.contracts _ _
check_contracts-answers written threshold provider addr max_bags connected es some_bag done =
    let cs = provider.contracts in
    let workers = fewer max_bags (pending cs) in
    elim (Bool-cases (ltb workers 1)) [
      | inl few ↦
          rw few
            (sym (pending-present cs (fewer-zero max_bags (pending cs) some_bag (ltb→lt _ _ few))))
      | inr enough ↦ rw enough (
          finished-collect _ done
          ∙ ap present (
              turns-named written provider workers es (start written threshold cs)
              ∙ slots_of-named cs))
    ]

empty-present : (cs : List (Option ContractRef)) → is_empty cs ≡ true → present cs ≡ []
unfolding present
empty-present [] no_cs = refl
empty-present (c ∷ cs) no_cs = absurd (cc no_cs)

-- A check of a provider gives exactly one result for each contract of the batch that is not nil, in
-- the order of the contracts: where the peer cannot be reached, where a streak of failures stops the
-- checks, and in whatever order the loop and the workers take their turns until the jobs are done.
pub check_provider_files-answers :
    (written : ℕ → String) (threshold : List (Option ContractRef) → ℕ) (provider : ProviderBatch)
    (itoa : ℤ → String) (max_bags : ℕ) (dial : Dial) (es : List Turn)
    → 1 ≤ max_bags
    → IsDone written threshold provider max_bags es
    → answered_contracts (check_provider_files written threshold provider itoa max_bags dial es)
      ≡ present provider.contracts
unfolding check_provider_files answered_contracts
check_provider_files-answers written threshold provider itoa max_bags dial es some_bag done =
    elim (Bool-cases (is_empty provider.contracts)) [
      | inl no_cs ↦ rw no_cs (sym (empty-present provider.contracts no_cs))
      | inr some_cs ↦
          rw some_cs
            (check_contracts-answers written threshold provider _ max_bags dial es some_bag done)
    ]
