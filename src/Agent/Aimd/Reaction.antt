-- ===== src/Agent/Aimd/Reaction.antt =====
-- `observe` of agent/internal/checker/aimd.go: how a window of samples moves the cap.
use mytonprovider_backend.Prelude.{
  suc, ◌+◌, ◌*◌, ◌≤◌, ◌<◌, ℤ, ◌≡◌, refl, sym, subst, ◌∙◌, ap, arith, Bool, true, false, not, ◌||◌,
  ◌&&◌, List, [], ◌∷◌, ◌++◌, length, ltb, leb, if◌then◌else◌, length-append, ltb_ℤ, is_positive,
  pos, ◌==◌,
}
use mytonprovider_backend.Agent.Aimd.{
  Floats, PieceLimit, set_limit_locked, grow, adapt, observe, count_samples,
}

module _ (f : Floats) where
  -- A piece that counts, and was fast.
  abbrev pub is_fast_piece : ℤ × ℤ → Bool
  is_fast_piece (elapsed, budget) =
      is_positive budget && not (ltb_ℤ elapsed (pos 0)) && f.is_fast (f.quotient elapsed budget)

  abbrev pub all_fast : List (ℤ × ℤ) → Bool
  all_fast [] = true
  all_fast (piece ∷ pieces) = let rest = all_fast pieces in is_fast_piece piece && rest

  abbrev pub observe_all : PieceLimit f → List (ℤ × ℤ) → PieceLimit f
  observe_all p [] = p
  observe_all p ((elapsed, budget) ∷ pieces) = observe_all (observe f p elapsed budget) pieces

  count-append :
      (test : f.Ratio → Bool) (xs : List f.Ratio) (r : f.Ratio)
      → count_samples f test (xs ++ r ∷ [])
        ≡ (if test r then suc (count_samples f test xs) else count_samples f test xs)
  unfolding count_samples
  count-append test [] r = refl
  count-append test (x ∷ xs) r = ground (arith, count-append test xs r)

  observe-open :
      (p : PieceLimit f) (elapsed budget : ℤ)
      → is_fast_piece (elapsed, budget) ≡ true
      → length p.samples + 1 < p.window
      → observe f p elapsed budget
        ≡ record p { samples = p.samples ++ f.quotient elapsed budget ∷ [] }
  unfolding observe
  observe-open p elapsed budget fast few =
      let valid : (not (is_positive budget) || ltb_ℤ elapsed (pos 0)) ≡ false =
        ground (arith, fast) in
      let still : ltb (length (p.samples ++ f.quotient elapsed budget ∷ [])) p.window ≡ true =
        ground (arith, few, length-append p.samples (f.quotient elapsed budget ∷ [])) in
      rw (valid, still) refl

  grow_lem : (p : PieceLimit f) → p.limit < p.max → (grow f p).limit ≡ p.limit + 1
  unfolding grow set_limit_locked
  grow_lem p room = ground (arith, room)

  adapt-fast :
      (p : PieceLimit f) (samples : List f.Ratio)
      → count_samples f f.is_slow samples ≡ 0
      → count_samples f f.is_fast samples ≡ p.window
      → 1 ≤ p.window
      → adapt f p samples ≡ grow f p
  unfolding adapt
  adapt-fast p samples slow fast some_window =
      let not_slow : leb p.window (count_samples f f.is_slow samples * 2) ≡ false =
        ground (arith, slow, some_window) in
      let is_fast : (count_samples f f.is_fast samples == p.window) ≡ true = ground (arith, fast) in
      rw (not_slow, is_fast) refl

  observe-full :
      (p : PieceLimit f) (elapsed budget : ℤ)
      → is_fast_piece (elapsed, budget) ≡ true
      → length p.samples + 1 ≡ p.window
      → observe f p elapsed budget
        ≡ adapt f (record p { samples = [] }) (p.samples ++ f.quotient elapsed budget ∷ [])
  unfolding observe
  observe-full p elapsed budget fast full =
      let valid : (not (is_positive budget) || ltb_ℤ elapsed (pos 0)) ≡ false =
        ground (arith, fast) in
      let done : ltb (length (p.samples ++ f.quotient elapsed budget ∷ [])) p.window ≡ false =
        ground (arith, full, length-append p.samples (f.quotient elapsed budget ∷ [])) in
      rw (valid, done) refl

  -- No ratio is both fast and slow.
  abbrev pub Exclusive : Type 0
  Exclusive = (r : f.Ratio) → f.is_fast r ≡ true → f.is_slow r ≡ false

  -- All samples so far are fast.
  record AreFast (samples : List f.Ratio) : Type 0 where
    pub fast : count_samples f f.is_fast samples ≡ length samples
    pub slow : count_samples f f.is_slow samples ≡ 0

  AreFast-append :
      (samples : List f.Ratio) (elapsed budget : ℤ)
      → Exclusive
      → is_fast_piece (elapsed, budget) ≡ true
      → AreFast samples
      → AreFast (samples ++ f.quotient elapsed budget ∷ [])
  AreFast-append samples elapsed budget exclusive h a =
      let r = f.quotient elapsed budget in
      let r_fast : f.is_fast r ≡ true = ground (arith, h) in
      record {
        fast = ground (
          arith,
          r_fast,
          a.fast,
          count-append f.is_fast samples r,
          length-append samples (r ∷ []),
        );
        slow = ground (arith, exclusive r r_fast, a.slow, count-append f.is_slow samples r);
      }

  full_window :
      (p : PieceLimit f) (elapsed budget : ℤ)
      → Exclusive
      → AreFast p.samples
      → is_fast_piece (elapsed, budget) ≡ true
      → length p.samples + 1 ≡ p.window
      → p.limit < p.max
      → (observe f p elapsed budget).limit ≡ p.limit + 1
  full_window p elapsed budget exclusive a h full room =
      let samples = p.samples ++ f.quotient elapsed budget ∷ [] in
      let b = AreFast-append p.samples elapsed budget exclusive h a in
      let size = length-append p.samples (f.quotient elapsed budget ∷ []) in
      ap (λ q. q.limit)
        (observe-full p elapsed budget h full
          ∙ adapt-fast (record p { samples = [] }) samples b.slow
              (omega (arith, b.fast, size, full)) (omega (arith, full)))
      ∙ grow_lem (record p { samples = [] }) room

  fast_window_lem :
      (p : PieceLimit f) (piece : ℤ × ℤ) (pieces : List (ℤ × ℤ))
      → Exclusive
      → AreFast p.samples
      → all_fast (piece ∷ pieces) ≡ true
      → length p.samples + length (piece ∷ pieces) ≡ p.window
      → p.limit < p.max
      → (observe_all p (piece ∷ pieces)).limit ≡ p.limit + 1
  fast_window_lem p (elapsed, budget) [] exclusive a h full room =
      full_window p elapsed budget exclusive a (ground (arith, h)) full room
  fast_window_lem p (elapsed, budget) (q ∷ qs) exclusive a h full room =
      let first : is_fast_piece (elapsed, budget) ≡ true = ground (arith, h) in
      let next = record p { samples = p.samples ++ f.quotient elapsed budget ∷ [] } in
      let size = length-append p.samples (f.quotient elapsed budget ∷ []) in
      ap (λ s. (observe_all s (q ∷ qs)).limit)
        (observe-open p elapsed budget first (omega (arith, full)))
      ∙ fast_window_lem next q qs exclusive
          (AreFast-append p.samples elapsed budget exclusive first a) (ground (arith, h))
          (omega (arith, full, size)) room

-- If no ratio is both fast and slow, then a whole window of fast pieces, from a limit without
-- samples that is below its maximum, adds one slot.
pub fast_window :
    (f : Floats) (p : PieceLimit f) (piece : ℤ × ℤ) (pieces : List (ℤ × ℤ))
    → Exclusive f
    → p.samples ≡ []
    → all_fast f (piece ∷ pieces) ≡ true
    → length (piece ∷ pieces) ≡ p.window
    → p.limit < p.max
    → (observe_all f p (piece ∷ pieces)).limit ≡ p.limit + 1
unfolding count_samples
fast_window f p piece pieces exclusive empty h full room =
    fast_window_lem f p piece pieces exclusive
      (subst (AreFast f) (sym empty) (record { fast = refl; slow = refl })) h
      (ground (arith, full, ap length empty)) room
