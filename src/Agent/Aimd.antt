-- ===== src/Agent/Aimd.antt =====
-- agent/internal/checker/aimd.go: the cap on the pieces that are fetched at once. A sample is a
-- `float64`, whose quotients and comparisons are a parameter. The lock makes each operation one
-- step; a call of `acquire` that has to wait is an attempt that leaves the state as it is.
pub mod Bounds
pub mod Reaction
use mytonprovider_backend.Prelude.{
  ℕ, suc, ◌+◌, ◌-◌, ◌*◌, ◌/◌, ℤ, pos, pos_part, ltb_ℤ, is_positive, Bool, true, false, not, ◌||◌,
  List, [], ◌∷◌, ◌++◌, length, ltb, leb, ◌==◌, if◌then◌else◌,
}

abbrev pub aimd_min_limit : ℕ
aimd_min_limit = 8

abbrev pub aimd_window : ℕ
aimd_window = 16

-- The `float64` quotient of two durations, and its comparison with `aimdSlowRatio` and
-- `aimdFastRatio`.
pub record Floats : Type 1 where
  pub Ratio : Type 0
  pub quotient : ℤ → ℤ → Ratio
  pub is_slow : Ratio → Bool
  pub is_fast : Ratio → Bool

-- `pieceLimit`. `gauge` is the last number that `onLimit` was called with.
pub record PieceLimit (f : Floats) : Type 0 where
  pub inflight : ℕ
  pub limit : ℕ
  pub min : ℕ
  pub max : ℕ
  pub window : ℕ
  pub samples : List f.Ratio
  pub gauge : ℕ

-- `if a < low { a = low }`, with `low` at least 0.
abbrev pub raise : ℤ → ℕ → ℕ
raise a low = if ltb_ℤ a (pos low) then low else pos_part a

abbrev pub clamped_window : ℤ → ℕ
clamped_window window = if ltb_ℤ window (pos 1) then aimd_window else pos_part window

abbrev pub clamped_initial : ℕ → ℕ → ℤ → ℕ
clamped_initial low high initial =
    let raised = raise initial low in if ltb high raised then high else raised

module _ (f : Floats) where
  pub new_piece_limit : ℤ → ℤ → ℤ → ℤ → PieceLimit f
  new_piece_limit min max initial window =
      let low = raise min 1 in
      let high = raise max low in
      record {
        inflight = 0;
        limit = clamped_initial low high initial;
        min = low;
        max = high;
        window = clamped_window window;
        samples = [];
        gauge = clamped_initial low high initial;
      }

  pub set_limit_locked : PieceLimit f → ℕ → PieceLimit f
  set_limit_locked p next = if next == p.limit then p else record p { limit = next; gauge = next }

  -- How many samples pass the test.
  pub count_samples : (f.Ratio → Bool) → List f.Ratio → ℕ
  count_samples test [] = 0
  count_samples test (r ∷ rs) =
      let rest = count_samples test rs in if test r then suc rest else rest

  pub shrink : PieceLimit f → PieceLimit f
  shrink p = let next = p.limit / 2 in set_limit_locked p (if ltb next p.min then p.min else next)

  pub grow : PieceLimit f → PieceLimit f
  grow p = let next = p.limit + 1 in set_limit_locked p (if ltb p.max next then p.max else next)

  -- The part of `observe` after a full window, whose samples are given up.
  pub adapt : PieceLimit f → List f.Ratio → PieceLimit f
  adapt p samples =
      let slow = count_samples f.is_slow samples in
      let fast = count_samples f.is_fast samples in
      if leb p.window (slow * 2) then shrink p else if fast == p.window then grow p else p

  pub observe : PieceLimit f → ℤ → ℤ → PieceLimit f
  observe p elapsed budget =
      let samples = p.samples ++ f.quotient elapsed budget ∷ [] in
      if not (is_positive budget) || ltb_ℤ elapsed (pos 0)
      then p
      else if ltb (length samples) p.window
      then record p { samples = samples }
      else adapt (record p { samples = [] }) samples

  -- What one look of `acquire` at the state comes to.
  pub data Attempt : Type 0 where
    cancelled waiting : Attempt
    taken : PieceLimit f → Attempt

  pub acquire : PieceLimit f → Bool → Attempt
  acquire p is_cancelled =
      if leb p.limit p.inflight
      then (if is_cancelled then cancelled else waiting)
      else if is_cancelled
      then cancelled
      else taken (record p { inflight = p.inflight + 1 })

  pub release : PieceLimit f → PieceLimit f
  release p = record p { inflight = if ltb 0 p.inflight then p.inflight - 1 else p.inflight }

  -- The calls of the checks that run at once, in the order of the lock.
  pub data Op : Type 0 where
    acquires : Bool → Op
    releases : Op
    observes : ℤ → ℤ → Op

  abbrev pub after_attempt : PieceLimit f → Attempt → PieceLimit f
  after_attempt p cancelled = p
  after_attempt p waiting = p
  after_attempt p (taken q) = q

  pub apply : PieceLimit f → Op → PieceLimit f
  apply p (acquires is_cancelled) = after_attempt p (acquire p is_cancelled)
  apply p releases = release p
  apply p (observes elapsed budget) = observe p elapsed budget

  abbrev pub apply_all : PieceLimit f → List Op → PieceLimit f
  apply_all p [] = p
  apply_all p (op ∷ ops) = apply_all (apply p op) ops
