-- ===== src/Agent/Aimd/Bounds.antt =====
-- `pieceLimit` of agent/internal/checker/aimd.go: its bounds under `acquire`, `release` and
-- `observe`.
use mytonprovider_backend.Prelude.{
  ℕ, ◌≤◌, ◌<◌, ℤ, ◌≡◌, refl, inl, inr, arith, Bool, true, false, not, ◌||◌, List, [], ◌∷◌, ◌++◌,
  length, Bool-cases, ltb, if◌then◌else◌, ltb_ℤ, is_positive, pos, ◌==◌, leb, ◌*◌, ◌+◌, ltb→lt,
}
use mytonprovider_backend.Agent.Aimd.{
  Floats, PieceLimit, new_piece_limit, set_limit_locked, shrink, grow, adapt, observe, acquire,
  release, Op, acquires, releases, observes, apply, apply_all, cancelled, waiting, taken,
  after_attempt, count_samples,
}

module _ (f : Floats) where
  pub record IsBounded (p : PieceLimit f) : Type 0 where
    pub low : 1 ≤ p.min
    pub above : p.min ≤ p.limit
    pub below : p.limit ≤ p.max
    pub room : p.inflight ≤ p.max
    pub window : length p.samples < p.window
    pub shown : p.gauge ≡ p.limit

  new-IsBounded :
      (min max initial window : ℤ) → IsBounded (new_piece_limit f min max initial window)
  unfolding new_piece_limit
  new-IsBounded min max initial window = record {
    low = ground arith;
    above = ground arith;
    below = ground arith;
    room = ground arith;
    window = ground arith;
    shown = refl;
  }

  set-IsBounded :
      (p : PieceLimit f) (next : ℕ)
      → IsBounded p
      → p.min ≤ next
      → next ≤ p.max
      → IsBounded (set_limit_locked f p next)
  unfolding set_limit_locked
  set-IsBounded p next b low high = elim (Bool-cases (next == p.limit)) [
    | inl same ↦ rw same b
    | inr other ↦ rw other (record {
      low = b.low;
      above = low;
      below = high;
      room = b.room;
      window = b.window;
      shown = refl;
    })
  ]

  shrink-IsBounded : (p : PieceLimit f) → IsBounded p → IsBounded (shrink f p)
  unfolding shrink
  shrink-IsBounded p b =
      set-IsBounded p _ b (ground (arith, b.low, b.above)) (ground (arith, b.above, b.below))

  grow-IsBounded : (p : PieceLimit f) → IsBounded p → IsBounded (grow f p)
  unfolding grow
  grow-IsBounded p b =
      set-IsBounded p _ b (ground (arith, b.above, b.below)) (ground (arith, b.above, b.below))

  adapt-IsBounded :
      (p : PieceLimit f) (samples : List f.Ratio) → IsBounded p → IsBounded (adapt f p samples)
  unfolding adapt
  adapt-IsBounded p samples b =
      elim (Bool-cases (leb p.window (count_samples f f.is_slow samples * 2))) [
        | inl slow ↦ rw slow (shrink-IsBounded p b)
        | inr not_slow ↦ elim (Bool-cases (count_samples f f.is_fast samples == p.window)) [
          | inl fast ↦ rw (not_slow, fast) (grow-IsBounded p b)
          | inr not_fast ↦ rw (not_slow, not_fast) b
        ]
      ]

  -- With other samples, fewer than the window.
  with_samples :
      (p : PieceLimit f) (samples : List f.Ratio)
      → IsBounded p
      → length samples < p.window
      → IsBounded (record p { samples = samples })
  with_samples p samples b few = record {
    low = b.low;
    above = b.above;
    below = b.below;
    room = b.room;
    window = few;
    shown = b.shown;
  }

  observe-IsBounded :
      (p : PieceLimit f) (elapsed budget : ℤ) → IsBounded p → IsBounded (observe f p elapsed budget)
  unfolding observe
  observe-IsBounded p elapsed budget b =
      let samples = p.samples ++ f.quotient elapsed budget ∷ [] in
      elim (Bool-cases (not (is_positive budget) || ltb_ℤ elapsed (pos 0))) [
        | inl no_sample ↦ rw no_sample b
        | inr sampled ↦ elim (Bool-cases (ltb (length samples) p.window)) [
          | inl open_window ↦
              rw (sampled, open_window) (with_samples p samples b (ltb→lt _ _ open_window))
          | inr full ↦
              rw (sampled, full)
                (adapt-IsBounded (record p { samples = [] }) samples
                  (with_samples p [] b (omega (arith, b.window))))
        ]
      ]

  with_inflight :
      (p : PieceLimit f) (n : ℕ) → IsBounded p → n ≤ p.max → IsBounded (record p { inflight = n })
  with_inflight p n b few = record {
    low = b.low;
    above = b.above;
    below = b.below;
    room = few;
    window = b.window;
    shown = b.shown;
  }

  acquire-IsBounded :
      (p : PieceLimit f) (is_cancelled : Bool)
      → IsBounded p
      → IsBounded (after_attempt f p (acquire f p is_cancelled))
  unfolding acquire
  acquire-IsBounded p c b = elim (Bool-cases (leb p.limit p.inflight)) [
    | inl full ↦ rw full (refused c)
    | inr free ↦ rw free (granted c (ground (arith, b.below, free)))
  ]
    where
      refused : (c : Bool) → IsBounded (after_attempt f p (if c then cancelled else waiting))
      refused true = b
      refused false = b

      granted :
          (c : Bool)
          → p.inflight + 1 ≤ p.max
          → IsBounded (
              after_attempt f p
                (if c then cancelled else taken (record p { inflight = p.inflight + 1 })))
      granted true few = b
      granted false few = with_inflight p (p.inflight + 1) b few

  release-IsBounded : (p : PieceLimit f) → IsBounded p → IsBounded (release f p)
  unfolding release
  release-IsBounded p b = with_inflight p _ b (ground (arith, b.room))

  apply-IsBounded : (p : PieceLimit f) (op : Op f) → IsBounded p → IsBounded (apply f p op)
  unfolding apply
  apply-IsBounded p (acquires c) b = acquire-IsBounded p c b
  apply-IsBounded p releases b = release-IsBounded p b
  apply-IsBounded p (observes elapsed budget) b = observe-IsBounded p elapsed budget b

  apply_all-IsBounded :
      (p : PieceLimit f) (ops : List (Op f)) → IsBounded p → IsBounded (apply_all f p ops)
  apply_all-IsBounded p [] b = b
  apply_all-IsBounded p (op ∷ ops) b =
      apply_all-IsBounded (apply f p op) ops (apply-IsBounded p op b)

-- From a new limit of any parameters, and through any calls in any order: the cap stays between the
-- lower and the upper bound, of which the lower is at least 1; no more pieces than the upper bound
-- are in flight; there are fewer samples than the window; and the gauge shows the cap.
pub run-IsBounded :
    (f : Floats) (min max initial window : ℤ) (ops : List (Op f))
    → IsBounded f (apply_all f (new_piece_limit f min max initial window) ops)
run-IsBounded f min max initial window ops =
    apply_all-IsBounded f _ ops (new-IsBounded f min max initial window)
