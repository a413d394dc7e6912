-- ===== src/Agent/Piece/Proved.antt =====
-- `checkPiece` of agent/internal/checker/checker.go: what a check saw.
use mytonprovider_backend.Prelude.{
  ℕ, ◌≡◌, ◌⊎◌, refl, inl, inr, arith, String, Bool, true, false, Option, none, some, List, [], ◌∷◌,
  if◌then◌else◌, Bool-cases, hex_decode,
}
use mytonprovider_backend.Reason.{Code}
use mytonprovider_backend.Agent.Piece.{
  TorrentInfo, CallError, Ton, Reply, failed, data_of, Peer, Outcome, pieces_count, bytes_equal,
  verify_proof, with_piece, with_count, with_info, with_cell, with_reply, with_overlay, with_bag,
  with_ping, check_piece,
}

bytes_equal-eq : (xs ys : List ℕ) → bytes_equal xs ys ≡ true → xs ≡ ys
unfolding bytes_equal
bytes_equal-eq [] [] h = refl
bytes_equal-eq [] (y ∷ ys) h = absurd (cc h)
bytes_equal-eq (x ∷ xs) [] h = absurd (cc h)
bytes_equal-eq (x ∷ xs) (y ∷ ys) h =
    let same_head : x ≡ y = ground (arith, h) in
    let same_tail : xs ≡ ys = bytes_equal-eq xs ys (ground (arith, h)) in cc (same_head, same_tail)

-- The code of a valid proof.
abbrev pub is_proof : Code → Bool
is_proof Code.valid_storage_proof = true
is_proof _ = false

-- The outcome is no valid proof, or `P` holds.
abbrev FailsOr : Outcome → Type 0 → Type 0
FailsOr o P = (is_proof o.code ≡ false) ⊎ P

FailsOr-map : (o : Outcome) {P Q : Type 0} → (P → Q) → FailsOr o P → FailsOr o Q
FailsOr-map o f (inl h) = inl h
FailsOr-map o f (inr p) = inr (f p)

FailsOr-if :
    (b : Bool) (x y : Outcome) {P : Type 0}
    → FailsOr x P
    → FailsOr y P
    → FailsOr (if b then x else y) P
FailsOr-if true x y hx hy = hx
FailsOr-if false x y hx hy = hy

module _ (ton : Ton) (peer : Peer) (bag_id : String) where
  -- What a check of the bag saw: a reply with a torrent info whose hash is the bag, and for the
  -- piece drawn out of the number of its pieces an answer with a proof against the root hash of
  -- that info.
  pub record Evidence : Type 0 where
    pub bag : List ℕ
    pub decoded : hex_decode bag_id ≡ some bag
    pub over : List ℕ
    pub overlaid : ton.overlay_hash bag ≡ some over
    pub told : List ℕ
    pub replied : peer.get_torrent_info over ≡ data_of told
    pub cl : ton.Cell
    pub encoded : ton.from_boc told ≡ some cl
    pub hashed : ton.hash cl ≡ bag
    pub info : TorrentInfo
    pub parsed : ton.parse_info cl ≡ some info
    pub count : ℕ
    pub counted : pieces_count info ≡ some count
    pub answer : List ℕ
    pub answered : peer.get_piece over (peer.int31n count) ≡ data_of answer
    pub proof : ton.Cell
    pub read : ton.from_boc answer ≡ some proof
    pub checked : ton.check_proof proof info.root_hash ≡ true

  -- The answer `reply` holds a proof of a piece of `info`.
  record Got (info : TorrentInfo) (reply : Reply) : Type 0 where
    pub answer : List ℕ
    pub answered : reply ≡ data_of answer
    pub proof : ton.Cell
    pub read : ton.from_boc answer ≡ some proof
    pub checked : ton.check_proof proof info.root_hash ≡ true

  record Counted (over : List ℕ) (info : TorrentInfo) : Type 0 where
    pub count : ℕ
    pub counted : pieces_count info ≡ some count
    pub got : Got info (peer.get_piece over (peer.int31n count))

  -- The bytes encode a torrent info of the bag, and a piece of it was proved.
  record Parsed (bag over told : List ℕ) : Type 0 where
    pub cl : ton.Cell
    pub encoded : ton.from_boc told ≡ some cl
    pub hashed : ton.hash cl ≡ bag
    pub info : TorrentInfo
    pub parsed : ton.parse_info cl ≡ some info
    pub pieces : Counted over info

  verified :
      (info : TorrentInfo) (answer : List ℕ) (o : Option ton.Cell)
      → ton.from_boc answer ≡ o
      → FailsOr (verify_proof ton peer info o) (Got info (data_of answer))
  unfolding verify_proof
  verified info answer none eq = inl refl
  verified info answer (some proof) eq = elim (Bool-cases (ton.check_proof proof info.root_hash)) [
    | inl good ↦
        inr (record { answer = answer; answered = refl; proof = proof; read = eq; checked = good })
    | inr bad ↦ rw bad (inl refl)
  ]

  answered_piece :
      (info : TorrentInfo) (reply : Reply)
      → FailsOr (with_piece ton peer info reply) (Got info reply)
  unfolding with_piece
  answered_piece info (failed err) = inl refl
  answered_piece info (data_of answer) = verified info answer (ton.from_boc answer) refl

  got_count :
      (over : List ℕ) (info : TorrentInfo) (o : Option ℕ)
      → pieces_count info ≡ o
      → FailsOr (with_count ton peer over info o) (Counted over info)
  unfolding with_count
  got_count over info none eq = inl refl
  got_count over info (some n) eq =
      FailsOr-if peer.slot _ _
        (FailsOr-map (with_piece ton peer info (peer.get_piece over (peer.int31n n)))
          (λ g. record { count = n; counted = eq; got = g })
          (answered_piece info (peer.get_piece over (peer.int31n n))))
        (inl refl)

  got_info :
      (bag over told : List ℕ) (cl : ton.Cell) (o : Option TorrentInfo)
      → ton.from_boc told ≡ some cl
      → ton.hash cl ≡ bag
      → ton.parse_info cl ≡ o
      → FailsOr (with_info ton peer over o) (Parsed bag over told)
  unfolding with_info
  got_info bag over told cl none e h eq = inl refl
  got_info bag over told cl (some info) e h eq =
      FailsOr-map (with_count ton peer over info (pieces_count info))
        (λ c. record { cl = cl; encoded = e; hashed = h; info = info; parsed = eq; pieces = c })
        (got_count over info (pieces_count info) refl)

  got_cell :
      (bag over told : List ℕ) (o : Option ton.Cell)
      → ton.from_boc told ≡ o
      → FailsOr (with_cell ton peer bag over o) (Parsed bag over told)
  unfolding with_cell
  got_cell bag over told none e = inl refl
  got_cell bag over told (some cl) e = elim (Bool-cases (bytes_equal (ton.hash cl) bag)) [
    | inr other ↦ rw other (inl refl)
    | inl same ↦ rw same (
        got_info bag over told cl (ton.parse_info cl) e (bytes_equal-eq (ton.hash cl) bag same)
          refl)
  ]

  -- The reply to the query for the torrent info.
  record Replied (bag over : List ℕ) (reply : Reply) : Type 0 where
    pub told : List ℕ
    pub replied : reply ≡ data_of told
    pub seen : Parsed bag over told

  got_reply :
      (bag over : List ℕ) (reply : Reply)
      → FailsOr (with_reply ton peer bag over reply) (Replied bag over reply)
  unfolding with_reply
  got_reply bag over (failed err) = inl refl
  got_reply bag over (data_of res) =
      FailsOr-map (with_cell ton peer bag over (ton.from_boc res))
        (λ p. record { told = res; replied = refl; seen = p })
        (got_cell bag over res (ton.from_boc res) refl)

  got_overlay :
      (bag : List ℕ) (o : Option (List ℕ))
      → hex_decode bag_id ≡ some bag
      → ton.overlay_hash bag ≡ o
      → FailsOr (with_overlay ton peer bag o) Evidence
  unfolding with_overlay
  got_overlay bag none decoded eq = inl refl
  got_overlay bag (some over) decoded eq =
      FailsOr-map (with_reply ton peer bag over (peer.get_torrent_info over))
        (λ p. record {
          bag = bag;
          decoded = decoded;
          over = over;
          overlaid = eq;
          told = p.told;
          replied = p.replied;
          encoded = p.seen.encoded;
          cl = p.seen.cl;
          hashed = p.seen.hashed;
          info = p.seen.info;
          parsed = p.seen.parsed;
          count = p.seen.pieces.count;
          counted = p.seen.pieces.counted;
          answer = p.seen.pieces.got.answer;
          answered = p.seen.pieces.got.answered;
          proof = p.seen.pieces.got.proof;
          read = p.seen.pieces.got.read;
          checked = p.seen.pieces.got.checked;
        })
        (got_reply bag over (peer.get_torrent_info over))

  got_bag : (o : Option (List ℕ)) → hex_decode bag_id ≡ o → FailsOr (with_bag ton peer o) Evidence
  unfolding with_bag
  got_bag none eq = inl refl
  got_bag (some bag) eq = got_overlay bag (ton.overlay_hash bag) eq refl

  got_ping : (o : Option CallError) → FailsOr (with_ping ton peer o bag_id) Evidence
  unfolding with_ping
  got_ping none = got_bag (hex_decode bag_id) refl
  got_ping (some err) = inl refl

-- Whatever the peer answers: a check of a bag reports no valid proof, or the peer replied with a
-- torrent info whose hash is the decoded identifier of the bag, and for the piece that it drew out
-- of the number of pieces of this info it got a proof that checks against the root hash of the
-- info.
pub check_piece-Evidence :
    (ton : Ton) (peer : Peer) (bag_id : String)
    → (is_proof (check_piece ton peer bag_id).code ≡ false) ⊎ Evidence ton peer bag_id
unfolding check_piece
check_piece-Evidence ton peer bag_id =
    FailsOr-if peer.is_adnl_peer _ _
      (FailsOr-if peer.probe_due (with_ping ton peer peer.ping bag_id)
        (with_bag ton peer (hex_decode bag_id)) (got_ping ton peer bag_id peer.ping)
        (got_bag ton peer bag_id (hex_decode bag_id) refl))
      (inl refl)
