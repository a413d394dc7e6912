-- ===== src/Agent/Piece.antt =====
-- agent/internal/checker/checker.go: `checkPiece` and `piecesCount`. One check of a bag gives a
-- code, the stage that stands in its details, and what it did to the state that the checks of a
-- peer share; other checks may run between its steps. The rest of the details is left out.
pub mod Proved
pub mod Balanced
pub mod Count
use mytonprovider_backend.Prelude.{
  ℕ, ◌+◌, ◌-◌, ◌/◌, ◌%◌, ◌^◌, String, Bool, true, false, ◌&&◌, ◌||◌, Option, none, some, List, [],
  ◌∷◌, ◌++◌, ltb, ◌==◌, if◌then◌else◌, hex_decode,
}
use mytonprovider_backend.Reason.{Code}

-- `tonstorage.TorrentInfo`, as far as the check reads it.
pub record TorrentInfo : Type 0 where
  pub piece_size : ℕ
  pub file_size : ℕ
  pub root_hash : List ℕ

-- What `errors.Is` tells of an error: whether it is `adnl.ErrPeerConnClosed`, and whether it is
-- `context.DeadlineExceeded`.
pub record CallError : Type 0 where
  pub closed : Bool
  pub deadline : Bool

-- The functions of tonutils-go on cells and keys.
pub record Ton : Type 1 where
  pub Cell : Type 0
  pub overlay_hash : List ℕ → Option (List ℕ)
  pub from_boc : List ℕ → Option Cell
  pub hash : Cell → List ℕ
  pub parse_info : Cell → Option TorrentInfo
  pub check_proof : Cell → List ℕ → Bool

-- The answer to a query.
pub data Reply : Type 0 where
  failed : CallError → Reply
  data_of : List ℕ → Reply

-- What one check meets: the peer's answers, the random piece out of a number of pieces, whether the
-- ping is due, whether it gets a slot, and whether the job goes on after the piece was fetched.
-- `get_piece` answers with the proof of the piece.
pub record Peer : Type 0 where
  pub is_adnl_peer : Bool
  pub probe_due : Bool
  pub ping : Option CallError
  pub get_torrent_info : List ℕ → Reply
  pub int31n : ℕ → ℕ
  pub slot : Bool
  pub get_piece : List ℕ → ℕ → Reply
  pub job_alive : Bool

-- What a check does to the gate, the state of the pings and the limit of pieces.
pub data Effect : Type 0 where
  begins : Effect
  ends : Bool → Effect
  marks_success invalidates : Effect
  takes_slot gives_slot_back observes_piece : Effect

pub record Outcome : Type 0 where
  pub code : Code
  pub stage : String
  pub effects : List Effect

abbrev pub outcome : Code → String → List Effect → Outcome
outcome code stage effects = record { code = code; stage = stage; effects = effects }

-- The effects come before those of the outcome.
abbrev pub after : List Effect → Outcome → Outcome
after effects o = outcome o.code o.stage (effects ++ o.effects)

-- `math.MaxInt32`
abbrev pub max_int32 : ℕ
max_int32 = 2_147_483_647

abbrev pub count_of : ℕ → ℕ → ℕ
count_of file_size piece_size =
    let count = file_size / piece_size in if file_size % piece_size == 0 then count else count + 1

unfoldable pub pieces_count : TorrentInfo → Option ℕ
pieces_count info =
    let count = count_of info.file_size info.piece_size in
    if info.piece_size == 0 || info.file_size == 0
    then none
    else if ltb max_int32 count
    then none
    else some count

-- `bytes.Equal`
pub bytes_equal : List ℕ → List ℕ → Bool
bytes_equal [] [] = true
bytes_equal (x ∷ xs) (y ∷ ys) = let rest = bytes_equal xs ys in x == y && rest
bytes_equal _ _ = false

module _ (ton : Ton) (peer : Peer) where
  -- The check of the piece's proof.
  pub verify_proof : TorrentInfo → Option ton.Cell → Outcome
  verify_proof info none =
      outcome Code.cant_parse_boc "parse_piece_proof_boc" (gives_slot_back ∷ ends false ∷ [])
  verify_proof info (some proof) =
      if ton.check_proof proof info.root_hash
      then outcome Code.valid_storage_proof "" (marks_success ∷ gives_slot_back ∷ ends false ∷ [])
      else outcome Code.proof_check_failed "check_proof" (gives_slot_back ∷ ends false ∷ [])

  -- Whether the fetch of a piece counts for the limit.
  abbrev pub observed : Bool → List Effect
  observed counts = if peer.job_alive && counts then observes_piece ∷ [] else []

  pub with_piece : TorrentInfo → Reply → Outcome
  with_piece info (failed err) = after (observed err.deadline) (
      outcome Code.cant_get_piece "get_piece"
        (invalidates ∷ gives_slot_back ∷ ends err.closed ∷ []))
  with_piece info (data_of proof) = after (observed true) (verify_proof info (ton.from_boc proof))

  pub with_count : List ℕ → TorrentInfo → Option ℕ → Outcome
  with_count over info none = outcome Code.invalid_header "validate_torrent_info" (ends false ∷ [])
  with_count over info (some count) =
      if peer.slot
      then after (takes_slot ∷ []) (with_piece info (peer.get_piece over (peer.int31n count)))
      else outcome Code.cant_get_piece "get_piece_slot" (ends false ∷ [])

  pub with_info : List ℕ → Option TorrentInfo → Outcome
  with_info over none = outcome Code.invalid_header "load_torrent_info_cell" (ends false ∷ [])
  with_info over (some info) = with_count over info (pieces_count info)

  pub with_cell : List ℕ → List ℕ → Option ton.Cell → Outcome
  with_cell bag over none = outcome Code.invalid_header "parse_torrent_info_boc" (ends false ∷ [])
  with_cell bag over (some cl) =
      if bytes_equal (ton.hash cl) bag
      then with_info over (ton.parse_info cl)
      else outcome Code.invalid_header "validate_torrent_info_hash" (ends false ∷ [])

  pub with_reply : List ℕ → List ℕ → Reply → Outcome
  with_reply bag over (failed err) =
      outcome Code.get_info_failed "get_torrent_info" (invalidates ∷ ends err.closed ∷ [])
  with_reply bag over (data_of res) = with_cell bag over (ton.from_boc res)

  pub with_overlay : List ℕ → Option (List ℕ) → Outcome
  with_overlay bag none = outcome Code.invalid_bag_id "hash_overlay" (ends false ∷ [])
  with_overlay bag (some over) = with_reply bag over (peer.get_torrent_info over)

  pub with_bag : Option (List ℕ) → Outcome
  with_bag none = outcome Code.invalid_bag_id "decode_bag_id" (ends false ∷ [])
  with_bag (some bag) = with_overlay bag (ton.overlay_hash bag)

  -- After the ping, if one was due.
  pub with_ping : Option CallError → String → Outcome
  with_ping none bag_id = after (marks_success ∷ []) (with_bag (hex_decode bag_id))
  with_ping (some err) bag_id =
      outcome Code.ping_failed "piece_ping" (invalidates ∷ ends err.closed ∷ [])

  pub check_piece : String → Outcome
  check_piece bag_id =
      if peer.is_adnl_peer
      then after (begins ∷ [])
          (if peer.probe_due then with_ping peer.ping bag_id else with_bag (hex_decode bag_id))
      else outcome Code.unknown_peer "get_adnl_peer" (invalidates ∷ [])
