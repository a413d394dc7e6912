-- ===== src/Workers/NewProviders/Rescan.antt =====
-- `CollectNewProviders`: a second run over the transactions of the first.
use mytonprovider_backend.Prelude.{
  ℕ, ◌≤◌, ◌<◌, ◌≡◌, refl, ap, ◌∙◌, sym, subst, ◌⊎◌, inl, inr, String, true, false, ◌^◌, format_uint,
  parse-format, none, some, List, [], ◌∷◌, KeySet, All, is_empty, ltb, arith, Bool-cases,
}
use mytonprovider_backend.Workers.NewProviders.{
  Transaction, ProviderCreate, known_of, Scan, scan_tx, scan_loop, Env, parse_lt, register,
  scan_all, collect_new_providers,
}

biggest-grows :
    (last : ℕ) (known : KeySet) (s : Scan) (txs : List Transaction)
    → s.biggest ≤ (scan_loop last known s txs).biggest
unfolding scan_loop scan_tx
biggest-grows last known s [] = omega arith
biggest-grows last known s (tx ∷ txs) =
    ground (arith, biggest-grows last known (scan_tx last known s tx) txs)

-- No transaction has a logical time after the bound.
abbrev AreUpTo : ℕ → List Transaction → Type 0
AreUpTo n = All (λ tx. tx.lt ≤ n)

scan_tx-biggest :
    (last : ℕ) (known : KeySet) (s : Scan) (tx : Transaction)
    → last ≤ s.biggest
    → (tx.lt ≤ (scan_tx last known s tx).biggest) × (last ≤ (scan_tx last known s tx).biggest)
unfolding scan_tx
scan_tx-biggest last known s tx h = (ground (arith, h), ground (arith, h))

scanned-AreUpTo :
    (last : ℕ) (known : KeySet) (s : Scan) (txs : List Transaction)
    → last ≤ s.biggest
    → AreUpTo (scan_loop last known s txs).biggest txs
unfolding scan_loop
scanned-AreUpTo last known s [] h = tt
scanned-AreUpTo last known s (tx ∷ txs) h =
    let (reached, kept) = scan_tx-biggest last known s tx h in
    (
      omega (arith, reached, biggest-grows last known (scan_tx last known s tx) txs),
      scanned-AreUpTo last known (scan_tx last known s tx) txs kept,
    )

-- Where something was found, the bound has moved.
record Moved (last : ℕ) (s : Scan) : Type 0 where
  above : last ≤ s.biggest
  moved : (is_empty s.unique ≡ true) ⊎ (last < s.biggest)

scan_tx-Moved :
    (last : ℕ) (known : KeySet) (s : Scan) (tx : Transaction)
    → Moved last s
    → Moved last (scan_tx last known s tx)
unfolding scan_tx
scan_tx-Moved last known s tx m = elim (Bool-cases (ltb last tx.lt)) [
  | inl new ↦
      rw new
        (record { above = ground (arith, m.above); moved = inr (ground (arith, m.above, new)) })
  | inr old ↦ rw old m
]

scan_loop-Moved :
    (last : ℕ) (known : KeySet) (s : Scan) (txs : List Transaction)
    → Moved last s
    → Moved last (scan_loop last known s txs)
unfolding scan_loop
scan_loop-Moved last known s [] m = m
scan_loop-Moved last known s (tx ∷ txs) m =
    scan_loop-Moved last known (scan_tx last known s tx) txs (scan_tx-Moved last known s tx m)

rescan :
    (last : ℕ) (known : KeySet) (s : Scan) (txs : List Transaction)
    → AreUpTo last txs
    → scan_loop last known s txs ≡ s
unfolding scan_loop scan_tx
rescan last known s [] h = refl
rescan last known s (tx ∷ txs) (h, hs) = ground (arith, rescan last known s txs hs, h)

abbrev pub first_scan : ℕ → Scan
first_scan last = record { unique = []; biggest = last }

pub collect_lem :
    (env : Env) (lt : String) (pubkeys : List String) (txs : List Transaction)
    → env.get_param_ok ≡ true
    → env.all_pubkeys ≡ some pubkeys
    → env.get_transactions (parse_lt lt) ≡ some txs
    → collect_new_providers env lt
      ≡ register env lt
          (scan_loop (parse_lt lt) (known_of [] pubkeys) (first_scan (parse_lt lt)) txs)
unfolding collect_new_providers scan_all
collect_lem env lt pubkeys txs got listed scanned = ground (arith, got, listed, scanned)

register-stored :
    (env : Env) (lt : String) (s : Scan) (ps : List ProviderCreate)
    → Moved (parse_lt lt) s
    → env.set_param_ok ≡ true
    → (register env lt s).added ≡ some ps
    → (register env lt s).last_lt ≡ format_uint s.biggest
unfolding register
register-stored env lt s ps m set found = ground (arith, m.moved, set, found)

old-adds_nothing :
    (env : Env) (lt : String) (pubkeys : List String) (txs : List Transaction)
    → env.all_pubkeys ≡ some pubkeys
    → env.get_transactions (parse_lt lt) ≡ some txs
    → AreUpTo (parse_lt lt) txs
    → (collect_new_providers env lt).added ≡ none
unfolding collect_new_providers scan_all register
old-adds_nothing env lt pubkeys txs listed scanned old =
    let last = parse_lt lt in
    ground (arith, listed, scanned, rescan last (known_of [] pubkeys) (first_scan last) txs old)

-- Every transaction has a logical time below the bound.
abbrev pub AreBelow : ℕ → List Transaction → Type 0
AreBelow n = All (λ tx. tx.lt < n)

-- The bound is where it started, or below what all transactions are below.
scan_tx-below :
    (last top : ℕ) (known : KeySet) (s : Scan) (tx : Transaction)
    → tx.lt < top
    → (s.biggest ≡ last) ⊎ (s.biggest < top)
    → ((scan_tx last known s tx).biggest ≡ last) ⊎ ((scan_tx last known s tx).biggest < top)
unfolding scan_tx
scan_tx-below last top known s tx small below = ground (arith, small, below)

scan_loop-below :
    (last top : ℕ) (known : KeySet) (s : Scan) (txs : List Transaction)
    → AreBelow top txs
    → (s.biggest ≡ last) ⊎ (s.biggest < top)
    → ((scan_loop last known s txs).biggest ≡ last) ⊎ ((scan_loop last known s txs).biggest < top)
unfolding scan_loop
scan_loop-below last top known s [] small below = below
scan_loop-below last top known s (tx ∷ txs) (small, smaller) below =
    scan_loop-below last top known (scan_tx last known s tx) txs smaller
      (scan_tx-below last top known s tx small below)

-- A run that adds providers has found some.
register-found :
    (env : Env) (lt : String) (s : Scan) (ps : List ProviderCreate)
    → (register env lt s).added ≡ some ps
    → is_empty s.unique ≡ false
unfolding register
register-found env lt s ps found = ground (arith, found)

-- Where something was found, the bound is read back as it was stored.
read_back :
    (last : ℕ) (s : Scan)
    → Moved last s
    → is_empty s.unique ≡ false
    → (s.biggest ≡ last) ⊎ (s.biggest < 2 ^ 63)
    → parse_lt (format_uint s.biggest) ≡ s.biggest
unfolding parse_lt
read_back last s m found below = parse-format s.biggest (ground (arith, m.moved, found, below))

-- Let the logical times of the transactions be below 2 ^ 63, what `strconv.ParseInt` can read. Once
-- a run has found new providers and stored its bound, a run over the same transactions that starts
-- from the stored bound adds no provider, also where the first run failed to add the providers that
-- it had found.
pub rescan-adds_nothing :
    (env env' : Env) (lt : String) (pubkeys pubkeys' : List String) (txs : List Transaction)
    (ps : List ProviderCreate)
    → env.get_param_ok ≡ true
    → env.all_pubkeys ≡ some pubkeys
    → env.get_transactions (parse_lt lt) ≡ some txs
    → env.set_param_ok ≡ true
    → (collect_new_providers env lt).added ≡ some ps
    → AreBelow (2 ^ 63) txs
    → env'.all_pubkeys ≡ some pubkeys'
    → env'.get_transactions (parse_lt (collect_new_providers env lt).last_lt) ≡ some txs
    → (collect_new_providers env' (collect_new_providers env lt).last_lt).added ≡ none
rescan-adds_nothing env env' lt pubkeys pubkeys' txs ps got listed scanned set found small listed'
      scanned' =
    let last = parse_lt lt in
    let known = known_of [] pubkeys in
    let s = scan_loop last known (first_scan last) txs in
    let ran = collect_lem env lt pubkeys txs got listed scanned in
    let moved =
      scan_loop-Moved last known (first_scan last) txs
        (record { above = omega arith; moved = inl refl }) in
    let stored = register-stored env lt s ps moved set (sym (ap (λ o. o.added) ran) ∙ found) in
    let read : parse_lt (format_uint s.biggest) ≡ s.biggest =
      read_back last s moved (register-found env lt s ps (sym (ap (λ o. o.added) ran) ∙ found))
        (scan_loop-below last (2 ^ 63) known (first_scan last) txs small (inl refl)) in
    let bound : parse_lt (collect_new_providers env lt).last_lt ≡ s.biggest =
      ap parse_lt (ap (λ o. o.last_lt) ran ∙ stored) ∙ read in
    old-adds_nothing env' (collect_new_providers env lt).last_lt pubkeys' txs listed' scanned' (
      subst (λ n. AreUpTo n txs) (sym bound)
        (scanned-AreUpTo last known (first_scan last) txs (omega arith)))
