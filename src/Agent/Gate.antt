-- ===== src/Agent/Gate.antt =====
-- agent/internal/checker/session.go: the gate that keeps `Reinit` off a peer in use. `reinits`
-- counts the calls of `reinit`, which is not nil.
pub mod Idle
use mytonprovider_backend.Prelude.{
  ℕ, ◌+◌, ◌-◌, Bool, true, false, ◌&&◌, ◌||◌, List, [], ◌∷◌, ltb, ◌==◌, if◌then◌else◌,
}

pub record PeerGate : Type 0 where
  pub inflight : ℕ
  pub dirty : Bool
  pub reinits : ℕ

abbrev pub new_peer_gate : PeerGate
new_peer_gate = record { inflight = 0; dirty = false; reinits = 0 }

-- `if g.dirty && g.inflight == 0 { g.reinit(); g.dirty = false }`
pub rebuild : PeerGate → PeerGate
rebuild g =
    if g.dirty && g.inflight == 0 then record g { dirty = false; reinits = g.reinits + 1 } else g

pub begin : PeerGate → PeerGate
begin g = let h = rebuild g in record h { inflight = h.inflight + 1 }

pub end : PeerGate → Bool → PeerGate
end g conn_closed = rebuild (record g {
  dirty = conn_closed || g.dirty;
  inflight = if ltb 0 g.inflight then g.inflight - 1 else g.inflight;
})
