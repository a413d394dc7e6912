-- ===== src/Agent/Gate/Idle.antt =====
-- `peerGate` of agent/internal/checker/session.go: runs of checks that begin and end.
use mytonprovider_backend.Prelude.{ℕ, suc, ◌≤◌, ◌≡◌, ◌⊎◌, Bool, false, ◌||◌, ◌==◌, if◌then◌else◌}
use mytonprovider_backend.Agent.Gate.{PeerGate, new_peer_gate, begin, end}

-- A run of the gate: each check begins once, and ends once after that. The indices are the gate, the
-- number of checks that run, and how many connections were closed since the peer was last rebuilt.
pub data Run : PeerGate → ℕ → Bool → Type 0 where
  fresh : Run new_peer_gate 0 false
  begun : (g : PeerGate) (n : ℕ) (closed : Bool) → Run g n closed → Run (begin g) (suc n) closed
  ended :
      (g : PeerGate) (n : ℕ) (closed conn_closed : Bool)
      → Run g (suc n) closed
      → Run (end g conn_closed) n (if n == 0 then false else conn_closed || closed)

-- What a run keeps.
pub record IsKept (g : PeerGate) (n : ℕ) (closed : Bool) : Type 0 where
  pub counted : g.inflight ≡ n
  pub noted : g.dirty ≡ closed
  pub busy : (closed ≡ false) ⊎ (1 ≤ n)
