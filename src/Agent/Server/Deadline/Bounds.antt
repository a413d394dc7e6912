-- ===== src/Agent/Server/Deadline/Bounds.antt =====
-- How late the deadline of `withTotalTimeout` (agent/internal/grpcserver/server.go) can be.
use mytonprovider_backend.Prelude.{
  ◌*◌, ◌+◌, ◌≡◌, ◌⊎◌, inl, inr, ℤ, pos, negsuc, pos_part, neg_part, ◌+ℤ◌, ◌-ℤ◌, ◌≤ℤ◌, ltb_ℤ,
  is_positive, false, Option, none, some, ◌==◌, parts_add, parts_sub, Bool-cases, arith,
}
use mytonprovider_backend.RunChecks.Request.{CheckTimeouts}
use mytonprovider_backend.Agent.Server.Deadline.{
  shorter, with_timeout, with_duration, with_total_ms, with_total_timeout,
}

-- The first deadline is there and not after the second, if there is a second.
abbrev pub NotLater : Option ℤ → Option ℤ → Type 0
NotLater d none = Unit
NotLater none (some e) = ⊥
NotLater (some d) (some e) = d ≤ℤ e

add-le : (t d e : ℤ) → d ≤ℤ e → (t +ℤ d) ≤ℤ (t +ℤ e)
add-le t d e h = omega (arith, h, parts_add t d, parts_add t e)

shorter-le : (r d : ℤ) → shorter r d ≤ℤ d
unfolding shorter
shorter-le r d = ground arith

with_timeout-le :
    (ctx : Option ℤ) (later d : ℤ)
    → NotLater (some (with_timeout ctx later d)) ctx × (with_timeout ctx later d ≤ℤ (later +ℤ d))
unfolding with_timeout
with_timeout-le none later d = (tt, omega arith)
with_timeout-le (some deadline) later d = elim (Bool-cases (ltb_ℤ deadline (later +ℤ d))) [
  | inl before ↦ rw before (omega arith, ground (arith, before))
  | inr after ↦ rw after (ground (arith, after), omega arith)
]

-- The context's deadline has passed.
abbrev pub IsExpired : Option ℤ → ℤ → Type 0
IsExpired none now = ⊥
IsExpired (some deadline) now = deadline ≤ℤ now

not_positive-le : (a b : ℤ) → is_positive (a -ℤ b) ≡ false → a ≤ℤ b
not_positive-le a b h = le (a -ℤ b) h (parts_sub a b)
  where
    le :
        (r : ℤ)
        → is_positive r ≡ false
        → pos_part r + (neg_part a + pos_part b) ≡ neg_part r + (pos_part a + neg_part b)
        → a ≤ℤ b
    le (pos n) h parts = ground (arith, h, parts)
    le (negsuc n) h parts = omega (arith, parts)

with_duration_bounds :
    (ctx : Option ℤ) (now later d : ℤ)
    → NotLater (some (with_duration ctx now later d)) ctx
      × (IsExpired ctx now ⊎ (with_duration ctx now later d ≤ℤ (later +ℤ d)))
unfolding with_duration
with_duration_bounds none now later d =
    let (kept, bounded) = with_timeout-le none later d in (kept, inr bounded)
with_duration_bounds (some deadline) now later d =
    elim (Bool-cases (is_positive (deadline -ℤ now))) [
      | inl live ↦ rw live (
          let r = shorter (deadline -ℤ now) d in
          let (kept, bounded) = with_timeout-le (some deadline) later r in
          (kept, inr (omega (arith, bounded, add-le later r d (shorter-le (deadline -ℤ now) d)))))
      | inr expired ↦ rw expired (omega arith, inl (not_positive-le deadline now expired))
    ]

-- The deadline of a call of `RunChecks` is never after the one that the call came with, and where a
-- total timeout is asked for and the call is still alive, it is at most the timeout away.
pub with_total_timeout_bounds :
    (ctx : Option ℤ) (now later : ℤ) (timeouts : CheckTimeouts)
    → NotLater (with_total_timeout ctx now later (some timeouts)) ctx
      × ((timeouts.total_ms ≡ 0)
          ⊎ IsExpired ctx now
          ⊎ NotLater
              (with_total_timeout ctx now later (some timeouts))
              (some (later +ℤ pos (timeouts.total_ms * 1_000_000))))
unfolding with_total_timeout with_total_ms
with_total_timeout_bounds ctx now later timeouts = elim (Bool-cases (timeouts.total_ms == 0)) [
  | inl zero_ms ↦ rw zero_ms (same ctx, inl (ground (arith, zero_ms)))
  | inr asked ↦ rw asked (
      let (kept, bounded) =
        with_duration_bounds ctx now later (pos (timeouts.total_ms * 1_000_000)) in
      (kept, inr bounded))
]
  where
    same : (c : Option ℤ) → NotLater c c
    same none = tt
    same (some d) = omega arith
