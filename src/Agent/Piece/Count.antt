-- ===== src/Agent/Piece/Count.antt =====
-- `piecesCount` of agent/internal/checker/checker.go.
use native.Mathlib.Omega.{div_any}
use native.Mathlib.Nat.{mod-lt, mul-add, mul-suc}
use mytonprovider_backend.Prelude.{
  ℕ, zero, suc, ◌+◌, ◌*◌, ◌-◌, ◌/◌, ◌%◌, ◌≤◌, ◌<◌, ◌≡◌, ◌⊎◌, ap, ◌∙◌, inl, inr, arith, Option, none,
  some, ◌==◌, ==_iff, ltb, ltb→lt, Bool-cases,
}
use mytonprovider_backend.Agent.Piece.{TorrentInfo, max_int32, count_of, pieces_count}

distrib : (p q : ℕ) → p * (q + 1) ≡ p * q + p
distrib p q = grind arith

count_of_lem :
    (file_size piece_size : ℕ)
    → 0 < piece_size
    → (file_size ≤ piece_size * count_of file_size piece_size)
      × (piece_size * count_of file_size piece_size < file_size + piece_size)
count_of_lem f p h = elim (Bool-cases (f % p == 0)) [
  | inl even ↦ rw even (
    omega (arith, div_any f p, mod-lt f h, (==_iff (f % p) 0).0 even),
    omega (arith, div_any f p, mod-lt f h, h),
  )
  | inr odd ↦ rw odd (
    ground (arith, div_any f p, mod-lt f h, odd, ==_iff (f % p) 0, distrib p (f / p)),
    ground (arith, div_any f p, mod-lt f h, odd, ==_iff (f % p) 0, distrib p (f / p)),
  )
]

-- What a number of pieces says of the file: it is positive and fits an `int32`, the pieces reach to
-- the end of the file, and the last one starts before that.
pub record Covers (info : TorrentInfo) (n : ℕ) : Type 0 where
  pub positive : 0 < n
  pub addressable : n ≤ max_int32
  pub reaches : info.file_size ≤ info.piece_size * n
  pub needed : info.piece_size * n < info.file_size + info.piece_size

abbrev pub CountsRight : TorrentInfo → Option ℕ → Type 0
CountsRight info none =
    (info.piece_size ≡ 0) ⊎ ((info.file_size ≡ 0) ⊎ (info.piece_size * max_int32 < info.file_size))
CountsRight info (some n) = Covers info n

too_many : (p f most count : ℕ) → p * count < f + p → most < count → p * most < f
too_many p f most count low more =
    let split : p * count ≡ p * most + p * (count - most) =
      ap (λ n. p * n) (omega (arith, more)) ∙ mul-add p most (count - most) in
    let rest : p * (count - most) ≡ p * (count - most - 1) + p =
      ap (λ n. p * n) (omega (arith, more)) ∙ mul-suc p (count - most - 1) in
    omega (arith, low, split, rest)

some_piece : (p f count : ℕ) → 0 < f → f ≤ p * count → 0 < count
some_piece p f zero some_file reach = omega (arith, some_file, reach)
some_piece p f (suc n) some_file reach = omega arith

-- The number of pieces of a torrent info, if there is one, is positive and at most 2 ^ 31 - 1, and
-- so many pieces of the info's size reach to the end of the file, and one piece less does not; and
-- there is none only if the piece size or the file size is zero, or 2 ^ 31 - 1 pieces of the info's
-- size do not reach to the end of the file.
pub pieces_count_lem : (info : TorrentInfo) → CountsRight info (pieces_count info)
unfolding pieces_count
pieces_count_lem info = elim (Bool-cases (info.piece_size == 0)) [
  | inl no_piece ↦ rw no_piece (inl ((==_iff info.piece_size 0).0 no_piece))
  | inr pieces ↦ elim (Bool-cases (info.file_size == 0)) [
    | inl no_file ↦ rw (pieces, no_file) (inr (inl ((==_iff info.file_size 0).0 no_file)))
    | inr file ↦
        let (reach, need) = count_of_lem info.file_size info.piece_size (ground (arith, pieces)) in
        elim (Bool-cases (ltb max_int32 (count_of info.file_size info.piece_size))) [
          | inl over ↦
              rw (pieces, file, over)
                (inr (
                  inr (
                    too_many info.piece_size info.file_size max_int32
                      (count_of info.file_size info.piece_size) need (ltb→lt _ _ over))))
          | inr fits ↦
              rw (pieces, file, fits)
                (record {
                  positive =
                      some_piece info.piece_size info.file_size
                        (count_of info.file_size info.piece_size) (ground (arith, file)) reach;
                  addressable = ground (arith, fits);
                  reaches = reach;
                  needed = need;
                })
        ]
  ]
]
