-- ===== src/Agent/Piece/Balanced.antt =====
-- `checkPiece` of agent/internal/checker/checker.go: what a check takes and gives back.
use mytonprovider_backend.Prelude.{
  ℕ, ◌≡◌, refl, String, Bool, true, false, Option, none, some, List, [], ◌∷◌, ◌++◌, if◌then◌else◌,
  hex_decode, ◌&&◌,
}
use mytonprovider_backend.Agent.Piece.{
  TorrentInfo, CallError, Ton, Reply, failed, data_of, Peer, Outcome, Effect, begins, ends,
  marks_success, invalidates, takes_slot, gives_slot_back, observes_piece, pieces_count,
  bytes_equal, verify_proof, observed, with_piece, with_count, with_info, with_cell, with_reply,
  with_overlay, with_bag, with_ping, check_piece,
}

-- What a check holds: its place in the gate, and a slot.
pub data Held : Type 0 where
  nothing place place_and_slot misuse : Held

-- What a check holds after an effect. It takes a slot only in the gate, gives back only what it
-- holds, and leaves the gate without a slot.
abbrev pub holds_after : Held → Effect → Held
holds_after nothing begins = place
holds_after place takes_slot = place_and_slot
holds_after place_and_slot gives_slot_back = place
holds_after place (ends closed) = nothing
holds_after h marks_success = h
holds_after h invalidates = h
holds_after h observes_piece = h
holds_after _ _ = misuse

abbrev pub holds_after_all : Held → List Effect → Held
holds_after_all h [] = h
holds_after_all h (e ∷ es) = holds_after_all (holds_after h e) es

module _ (ton : Ton) (peer : Peer) where
  -- From `h`, the outcome gives everything back.
  abbrev GivesBack : Held → Outcome → Type 0
  GivesBack h o = holds_after_all h o.effects ≡ nothing

  GivesBack-if :
      (h : Held) (b : Bool) (x y : Outcome)
      → GivesBack h x
      → GivesBack h y
      → GivesBack h (if b then x else y)
  GivesBack-if h true x y hx hy = hx
  GivesBack-if h false x y hx hy = hy

  verify_proof-GivesBack :
      (info : TorrentInfo) (o : Option ton.Cell)
      → GivesBack place_and_slot (verify_proof ton peer info o)
  unfolding verify_proof
  verify_proof-GivesBack info none = refl
  verify_proof-GivesBack info (some proof) =
      GivesBack-if place_and_slot (ton.check_proof proof info.root_hash) _ _ refl refl

  observed_gives_back :
      (counts : Bool) (es : List Effect)
      → holds_after_all place_and_slot es ≡ nothing
      → holds_after_all place_and_slot (observed ton peer counts ++ es) ≡ nothing
  observed_gives_back counts es h = counted (peer.job_alive && counts)
    where
      counted :
          (b : Bool)
          → holds_after_all place_and_slot ((if b then observes_piece ∷ [] else []) ++ es) ≡ nothing
      counted true = h
      counted false = h

  with_piece-GivesBack :
      (info : TorrentInfo) (reply : Reply)
      → GivesBack place_and_slot (with_piece ton peer info reply)
  unfolding with_piece
  with_piece-GivesBack info (failed err) =
      observed_gives_back err.deadline (invalidates ∷ gives_slot_back ∷ ends err.closed ∷ []) refl
  with_piece-GivesBack info (data_of answer) =
      observed_gives_back true (verify_proof ton peer info (ton.from_boc answer)).effects
        (verify_proof-GivesBack info (ton.from_boc answer))

  with_count-GivesBack :
      (over : List ℕ) (info : TorrentInfo) (o : Option ℕ)
      → GivesBack place (with_count ton peer over info o)
  unfolding with_count
  with_count-GivesBack over info none = refl
  with_count-GivesBack over info (some n) =
      GivesBack-if place peer.slot _ _
        (with_piece-GivesBack info (peer.get_piece over (peer.int31n n))) refl

  with_info-GivesBack :
      (over : List ℕ) (o : Option TorrentInfo) → GivesBack place (with_info ton peer over o)
  unfolding with_info
  with_info-GivesBack over none = refl
  with_info-GivesBack over (some info) = with_count-GivesBack over info (pieces_count info)

  with_cell-GivesBack :
      (bag over : List ℕ) (o : Option ton.Cell) → GivesBack place (with_cell ton peer bag over o)
  unfolding with_cell
  with_cell-GivesBack bag over none = refl
  with_cell-GivesBack bag over (some cl) =
      GivesBack-if place (bytes_equal (ton.hash cl) bag) _ _
        (with_info-GivesBack over (ton.parse_info cl)) refl

  with_reply-GivesBack :
      (bag over : List ℕ) (reply : Reply) → GivesBack place (with_reply ton peer bag over reply)
  unfolding with_reply
  with_reply-GivesBack bag over (failed err) = refl
  with_reply-GivesBack bag over (data_of res) = with_cell-GivesBack bag over (ton.from_boc res)

  with_overlay-GivesBack :
      (bag : List ℕ) (o : Option (List ℕ)) → GivesBack place (with_overlay ton peer bag o)
  unfolding with_overlay
  with_overlay-GivesBack bag none = refl
  with_overlay-GivesBack bag (some over) =
      with_reply-GivesBack bag over (peer.get_torrent_info over)

  with_bag-GivesBack : (o : Option (List ℕ)) → GivesBack place (with_bag ton peer o)
  unfolding with_bag
  with_bag-GivesBack none = refl
  with_bag-GivesBack (some bag) = with_overlay-GivesBack bag (ton.overlay_hash bag)

  with_ping-GivesBack :
      (o : Option CallError) (bag_id : String) → GivesBack place (with_ping ton peer o bag_id)
  unfolding with_ping
  with_ping-GivesBack none bag_id = with_bag-GivesBack (hex_decode bag_id)
  with_ping-GivesBack (some err) bag_id = refl

-- Whatever the peer answers: a check of a bag enters the gate before it takes a slot, gives back
-- each slot that it takes, leaves the gate after that, and in the end holds neither.
pub check_piece_gives_back :
    (ton : Ton) (peer : Peer) (bag_id : String)
    → holds_after_all nothing (check_piece ton peer bag_id).effects ≡ nothing
unfolding check_piece
check_piece_gives_back ton peer bag_id =
    GivesBack-if ton peer nothing peer.is_adnl_peer _ _
      (GivesBack-if ton peer place peer.probe_due (with_ping ton peer peer.ping bag_id)
        (with_bag ton peer (hex_decode bag_id)) (with_ping-GivesBack ton peer peer.ping bag_id)
        (with_bag-GivesBack ton peer (hex_decode bag_id)))
      refl
