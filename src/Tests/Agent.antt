-- ===== src/Tests/Agent.antt =====
-- The agent's checks at concrete inputs.
use mytonprovider_backend.Prelude.{
  ◌+◌, ℕ, ◌≡◌, ◌⊎◌, refl, arith, pos, true, false, String, none, some, List, [], ◌∷◌, ltb, pos_part,
  ◌*◌, leb,
}
use mytonprovider_backend.Reason.{Code}
use mytonprovider_backend.Agent.Aimd.{
  PieceLimit, Floats, new_piece_limit, Op, acquires, releases, observes, apply_all,
}
use mytonprovider_backend.Agent.Aimd.Bounds.{IsBounded, run-IsBounded}
use mytonprovider_backend.Agent.Aimd.Reaction.{Exclusive, observe_all, fast_window}
use mytonprovider_backend.Agent.Gate.{PeerGate, new_peer_gate, begin, end}
use mytonprovider_backend.Agent.Tally.{new_tally}
use mytonprovider_backend.Agent.Tally.Streak.{record_all, has_streak, record_all-stops}
use mytonprovider_backend.Agent.Piece.{TorrentInfo, Ton, data_of, Peer, pieces_count, check_piece}
use mytonprovider_backend.Agent.Piece.Proved.{is_proof, Evidence, check_piece-Evidence}
use mytonprovider_backend.Agent.Piece.Balanced.{nothing, holds_after_all, check_piece_gives_back}
use mytonprovider_backend.Agent.Piece.Count.{CountsRight, pieces_count_lem}

-- Exact fractions in place of floats.
abbrev fractions : Floats
fractions = record {
  Ratio = ℕ × ℕ;
  quotient = λ elapsed budget. (pos_part elapsed, pos_part budget);
  is_slow = λ r. ltb (r.1 * 8) (r.0 * 10);
  is_fast = λ r. leb (r.0 * 2) r.1;
}

abbrev ops : List (Op fractions)
ops = acquires false ∷ observes (pos 9) (pos 10) ∷ observes (pos 9) (pos 10) ∷ releases ∷ []

run-IsBounded_example :
    IsBounded fractions
      (apply_all fractions (new_piece_limit fractions (pos 8) (pos 160) (pos 40) (pos 2)) ops)
run-IsBounded_example = run-IsBounded fractions (pos 8) (pos 160) (pos 40) (pos 2) ops

fractions-Exclusive : Exclusive fractions
fractions-Exclusive r fast = ground (arith, fast)

abbrev limit : PieceLimit fractions
limit = record {
  inflight = 0;
  limit = 40;
  min = 8;
  max = 160;
  window = 2;
  samples = [];
  gauge = 40;
}

fast_window_example :
    (observe_all fractions limit ((pos 1, pos 10) ∷ (pos 5, pos 10) ∷ [])).limit ≡ limit.limit + 1
fast_window_example =
    fast_window fractions limit (pos 1, pos 10) ((pos 5, pos 10) ∷ []) fractions-Exclusive refl refl
      refl (omega arith)

-- Two checks run at once, and the connection is closed under the first one that ends.
abbrev gate : PeerGate
gate = end (begin (begin new_peer_gate)) true

abbrev codes : List (Code × String)
codes =
    (Code.ping_failed, "stage=piece_ping")
    ∷ (Code.valid_storage_proof, "")
    ∷ (Code.cant_get_piece, "stage=get_piece")
    ∷ (Code.cant_get_piece, "stage=get_piece")
    ∷ []

record_all-stops_example : (record_all (new_tally 1) codes).stopped ≡ has_streak 2 codes
record_all-stops_example = record_all-stops 1 codes (omega arith)

abbrev info : TorrentInfo
info = record { piece_size = 4; file_size = 10; root_hash = 1 ∷ [] }

pieces_count_test : pieces_count info ≡ some 3
unfolding pieces_count
pieces_count_test = refl

pieces_count_lem_example : CountsRight info (pieces_count info)
pieces_count_lem_example = pieces_count_lem info

-- A cell is its bytes, and is its own hash.
abbrev ton : Ton
ton = record {
  Cell = List ℕ;
  overlay_hash = λ bag. some bag;
  from_boc = λ bytes. some bytes;
  hash = λ cell. cell;
  parse_info = λ cell. some info;
  check_proof = λ cell root. true;
}

abbrev peer : Peer
peer = record {
  is_adnl_peer = true;
  probe_due = true;
  ping = none;
  get_torrent_info = λ over. data_of over;
  int31n = λ n. 0;
  slot = true;
  get_piece = λ over id. data_of over;
  job_alive = true;
}

check_piece-Evidence_example :
    (is_proof (check_piece ton peer "0aff").code ≡ false) ⊎ Evidence ton peer "0aff"
check_piece-Evidence_example = check_piece-Evidence ton peer "0aff"

check_piece_gives_back_example :
    holds_after_all nothing (check_piece ton peer "0aff").effects ≡ nothing
check_piece_gives_back_example = check_piece_gives_back ton peer "0aff"
