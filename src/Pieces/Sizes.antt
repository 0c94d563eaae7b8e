-- ===== src/Pieces/Sizes.antt =====
-- The sizes of pieces and blocks add up.
use rustorrent.Common.{
  ℕ, zero, suc, ◌+◌, ◌-◌, ◌*◌, ◌/◌, ◌%◌, ◌^◌, ◌≤◌, ◌<◌, ◌≡◌, ◌≢◌, List, arith, some, ap, min,
  wrapping_add, wrapping_sub,
}
use native.Mathlib.Nat.{div-add-mod', div-eq_of_lt-le, div-eq_of_lt, mod-lt}
use native.Mathlib.Decide.{ℕ_discrete}
use rustorrent.Torrent.{Torrent, files_total_size, sha_pieces}
use rustorrent.Pieces.{Pieces, or_whole, sizes, pieces_from, nblock_in_piece, piece_size_of}

-- What holds of the sizes of a torrent with files: the pieces but the last and the last make up the
-- files, and the blocks but the last and the last make up a piece.
pub record IsCut (p : Pieces) : Type 0 where
  pub some_pieces : 0 < p.num_pieces
  pub pieces_add_up : (p.num_pieces - 1) * p.piece_length + p.last_piece_length ≡ p.files_size
  pub last_pos : 0 < p.last_piece_length
  pub last_le : p.last_piece_length ≤ p.piece_length
  pub some_blocks : 0 < p.nblocks_piece
  pub blocks_add_up : (p.nblocks_piece - 1) * p.block_size + p.last_block_size ≡ p.piece_length
  pub last_block_pos : 0 < p.last_block_size
  pub last_block_le : p.last_block_size ≤ p.block_size
  pub block_le : p.block_size ≤ 0x4000
  pub small : p.piece_length < 2 ^ 31

pub block_size_pos : {p : Pieces} → IsCut p → 0 < p.block_size
block_size_pos v = omega arith

factor_pos : (q d n : ℕ) → q * d ≡ n → 0 < n → 0 < q
factor_pos zero d n e h = absurd (omega arith)
factor_pos (suc q) d n e h = omega arith

pred-mul : (q d : ℕ) → 0 < q → (q - 1) * d + d ≡ q * d
pred-mul zero d h = absurd (omega arith)
pred-mul (suc k) d h = let e : suc k - 1 ≡ k = omega arith in rw e (omega arith)

ceiling_even : (n d : ℕ) → 0 < d → n % d ≡ 0 → (n + d - 1) / d ≡ n / d
ceiling_even n d h e =
    div-eq_of_lt-le d (omega (arith, div-add-mod' n d)) (omega (arith, div-add-mod' n d))

ceiling_odd : (n d : ℕ) → 0 < d → n % d ≢ 0 → (n + d - 1) / d ≡ n / d + 1
ceiling_odd n d h e =
    div-eq_of_lt-le d (omega (arith, div-add-mod' n d))
      (omega (arith, div-add-mod' n d, mod-lt n h))

-- Cutting `n` into parts of `d`: the number of parts, rounded up, and the last part, a whole one
-- where the division leaves nothing.
parts :
    (n d : ℕ)
    → 0 < d
    → 0 < n
    → (0 < (n + d - 1) / d)
      × (((n + d - 1) / d - 1) * d + or_whole (n % d) d ≡ n)
      × (0 < or_whole (n % d) d)
      × (or_whole (n % d) d ≤ d)
parts n d h k = elim (ℕ_discrete (n % d) 0) [
  | yes e ↦
      let whole : n / d * d ≡ n = omega (arith, div-add-mod' n d) in
      let pos : 0 < n / d = factor_pos (n / d) d n whole k in
      ground (arith, e, ceiling_even n d h e, pred-mul (n / d) d, div-add-mod' n d)
  | no e ↦ ground (arith, e, ceiling_odd n d h e, div-add-mod' n d, mod-lt n h)
]

unwrapped :
    (n d : ℕ)
    → 0 < d
    → n < 2 ^ 62
    → d < 2 ^ 31
    → wrapping_sub 64 (wrapping_add 64 n d) 1 ≡ n + d - 1
unwrapped n d h k l = omega arith

sizes-IsCut :
    (hash : List ℕ) (shas : List (List ℕ)) (files_size piece_length : ℕ)
    → 0 < files_size
    → files_size < 2 ^ 62
    → 0 < piece_length
    → piece_length < 2 ^ 31
    → IsCut (sizes hash shas files_size piece_length)
unfolding sizes
sizes-IsCut hash shas fs pl h₁ h₂ h₃ h₄ =
    let whole = parts fs pl h₃ h₁ in
    let piece = parts pl (min pl 0x4000) (omega arith) h₃ in
    let as_u32 : pl % 2 ^ 32 ≡ pl = omega arith in
    let bs_as_u32 : min pl 0x4000 % 2 ^ 32 ≡ min pl 0x4000 = omega arith in
    rw
      (
        as_u32,
        bs_as_u32,
        unwrapped fs pl h₃ h₂ h₄,
        unwrapped pl (min pl 0x4000) (omega arith) (omega arith) (omega arith),
      )
      (record {
        some_pieces = whole.0;
        pieces_add_up = whole.1;
        last_pos = whole.2;
        last_le = whole.3;
        some_blocks = piece.0;
        blocks_add_up = piece.1;
        last_block_pos = piece.2;
        last_block_le = piece.3;
        block_le = omega arith;
        small = h₄;
      })

pieces_from-some :
    (t : Torrent) {p : Pieces}
    → pieces_from t ≡ some p
    → (0 < t.meta.info.piece_length)
      × (p ≡ sizes t.info_hash (sha_pieces t) (files_total_size t) t.meta.info.piece_length)
unfolding pieces_from
pieces_from-some t e = (ground arith, ground arith)

-- The sizes that a torrent is given add up, if it has files, of less than 2 ^ 62 bytes in all, its
-- piece length is not 0 and below 2 ^ 31, and it has one hash for each piece: the pieces make up the
-- files, the last one between 1 byte and a whole piece, and the blocks make up a piece in the same
-- way, none longer than 16 KiB.
pub pieces_from-IsCut :
    (t : Torrent) {p : Pieces}
    → pieces_from t ≡ some p
    → 0 < files_total_size t
    → files_total_size t < 2 ^ 62
    → t.meta.info.piece_length < 2 ^ 31
    → IsCut p × (p.files_size ≡ files_total_size t) × (p.piece_length ≡ t.meta.info.piece_length)
unfolding sizes
pieces_from-IsCut t {p} e h₁ h₂ h₃ =
    let (pos, same) = pieces_from-some t e in
    (
      rw same (sizes-IsCut _ _ _ _ h₁ h₂ pos h₃),
      ap (λ (q : Pieces). q.files_size) same,
      ap (λ (q : Pieces). q.piece_length) same,
    )

no_wrap :
    (block : ℕ)
    → 0 < block
    → block ≤ 0x4000
    → wrapping_sub 64 (wrapping_add 64 0 block) 1 ≡ block - 1
no_wrap block h l = omega (arith, h, l)

sizes-even :
    (hash : List ℕ) (shas : List (List ℕ)) (files_size piece_length : ℕ)
    → 0 < piece_length
    → files_size % piece_length ≡ 0
    → ((sizes hash shas files_size piece_length).nblocks_last_piece ≡ 0)
      × ((sizes hash shas files_size piece_length).last_piece_length ≡ piece_length)
unfolding sizes
sizes-even hash shas fs pl h even = (
  rw (even, no_wrap (min pl 0x4000) (omega (arith, h)) (omega arith))
      (div-eq_of_lt {n = min pl 0x4000 - 1} {m = min pl 0x4000} (omega (arith, h))),
  rw even,
)

-- Where `Pieces::from` succeeds for files of some bytes, fewer than 2^62, and a piece length below
-- 2^31 that divides them evenly, the last piece has as many bytes as any other, which is not 0, and is
-- said to have 0 blocks.
pub nblock_in_piece-last :
    (t : Torrent) {p : Pieces}
    → pieces_from t ≡ some p
    → 0 < files_total_size t
    → files_total_size t < 2 ^ 62
    → t.meta.info.piece_length < 2 ^ 31
    → files_total_size t % t.meta.info.piece_length ≡ 0
    → (nblock_in_piece p (p.num_pieces - 1) ≡ some 0)
      × (piece_size_of p (p.num_pieces - 1) ≡ some p.piece_length)
      × (0 < p.piece_length)
unfolding sizes nblock_in_piece piece_size_of
nblock_in_piece-last t {p} e h₁ h₂ h₃ even =
    let (pos, same) = pieces_from-some t e in
    let cut = (pieces_from-IsCut t e h₁ h₂ h₃).0 in
    let last = sizes-even t.info_hash (sha_pieces t) (files_total_size t) _ pos even in
    let none_left : p.nblocks_last_piece ≡ 0 = rw same last.0 in
    let whole : p.last_piece_length ≡ p.piece_length = rw same last.1 in
    (ground (arith, none_left), ground (arith, whole), omega arith)
