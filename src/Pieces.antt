-- ===== src/Pieces.antt =====
-- src/pieces.rs: how a torrent is cut into pieces and blocks, and the iterator over the blocks of a
-- download task. `usize` is 64 bits wide; in a release build its arithmetic, and that of `u32`, wraps.
pub mod Sizes
pub mod Steps
pub mod Tiling
pub mod Tasks
mod Tests
use rustorrent.Common.{
  ℕ, zero, suc, ◌+◌, ◌-◌, ◌*◌, ◌/◌, ◌%◌, ◌^◌, min, Bool, true, false, ◌&&◌, Option, none, some,
  List, ltb, leb, ◌==◌, if◌then◌else◌, length, wrapping_add, wrapping_sub,
}
use rustorrent.Common.Checked.{◌>>=◌}
use rustorrent.Torrent.{Torrent, files_total_size, sha_pieces}

-- `PieceIndex` and `BlockIndex` of src/piece_picker.rs, newtypes of u32
abbrev pub PieceIndex : Type 0
PieceIndex = ℕ

abbrev pub BlockIndex : Type 0
BlockIndex = ℕ

-- `PieceIndex::next_piece`; `none` is the panic at the last index.
unfoldable pub next_piece : PieceIndex → Option PieceIndex
next_piece p = if p + 1 == 2 ^ 32 then none else some (p + 1)

pub record Pieces : Type 0 where
  pub info_hash : List ℕ
  pub num_pieces : ℕ
  pub sha1_pieces : List (List ℕ)
  pub block_size : ℕ
  pub last_block_size : ℕ
  pub nblocks_piece : ℕ
  pub nblocks_last_piece : ℕ
  pub piece_length : ℕ
  pub last_piece_length : ℕ
  pub files_size : ℕ

abbrev or_whole : ℕ → ℕ → ℕ
or_whole n whole = if n == 0 then whole else n

-- the sizes that `From<&Torrent>` computes, for a piece length that is not 0
pub sizes : List ℕ → List (List ℕ) → ℕ → ℕ → Pieces
sizes info_hash sha1_pieces files_size piece_length =
    let block_size = min piece_length 0x4000 in
    record {
      info_hash = info_hash;
      num_pieces = wrapping_sub 64 (wrapping_add 64 files_size piece_length) 1 / piece_length;
      sha1_pieces = sha1_pieces;
      block_size = block_size % 2 ^ 32;
      last_block_size =
          or_whole (piece_length % 2 ^ 32 % (block_size % 2 ^ 32)) (block_size % 2 ^ 32);
      nblocks_piece = wrapping_sub 64 (wrapping_add 64 piece_length block_size) 1 / block_size;
      nblocks_last_piece =
          wrapping_sub 64 (wrapping_add 64 (files_size % piece_length) block_size) 1 / block_size;
      piece_length = piece_length;
      last_piece_length = or_whole (files_size % piece_length) piece_length;
      files_size = files_size;
    }

-- `impl From<&Torrent> for Pieces`. `none` is a panic: of the remainder by a piece length 0, or that
-- there is not one hash for each piece.
pub pieces_from : Torrent → Option Pieces
pieces_from torrent =
    let p =
      sizes torrent.info_hash (sha_pieces torrent) (files_total_size torrent)
        torrent.meta.info.piece_length in
    if torrent.meta.info.piece_length == 0
    then none
    else if length (sha_pieces torrent) == p.num_pieces
    then some p
    else none

-- `none` in these is a failed assertion.
unfoldable pub is_last_piece : Pieces → PieceIndex → Option Bool
is_last_piece p piece = if ltb piece p.num_pieces then some (piece == p.num_pieces - 1) else none

pub nblock_in_piece : Pieces → PieceIndex → Option ℕ
unfolding is_last_piece
nblock_in_piece p piece =
    is_last_piece p piece >>= λ last. some (if last then p.nblocks_last_piece else p.nblocks_piece)

unfoldable pub piece_size_of : Pieces → PieceIndex → Option ℕ
unfolding is_last_piece
piece_size_of p piece = is_last_piece p piece >>= λ last.
    some (if last then p.last_piece_length % 2 ^ 32 else p.piece_length % 2 ^ 32)

-- `block_length_of` once the size of the piece is known
pub block_length_in : Pieces → ℕ → BlockIndex → Option ℕ
block_length_in p size block =
    if leb block size
    then some (wrapping_sub 32 (min (wrapping_add 32 block p.block_size) size) block)
    else none

pub block_length_of : Pieces → PieceIndex → BlockIndex → Option ℕ
unfolding block_length_in
block_length_of p piece block = piece_size_of p piece >>= λ size. block_length_in p size block

pub data TaskDownload : Type 0 where
  piece_task : PieceIndex → TaskDownload
  pieces_range : (start end : PieceIndex) → TaskDownload
  block_range : PieceIndex → (start end : BlockIndex) → TaskDownload

pub record BlockToDownload : Type 0 where
  pub piece : PieceIndex
  pub start : BlockIndex
  pub length : ℕ

pub record IterTaskDownload : Type 0 where
  pub task : TaskDownload
  pub current_piece : PieceIndex
  pub current_block : BlockIndex

abbrev pub iter_by_block : TaskDownload → IterTaskDownload
iter_by_block (piece_task p) = record { task = piece_task p; current_piece = p; current_block = 0 }
iter_by_block (pieces_range start end) = record {
  task = pieces_range start end;
  current_piece = start;
  current_block = 0;
}
iter_by_block (block_range p start end) = record {
  task = block_range p start end;
  current_piece = p;
  current_block = start;
}

-- `none` is a panic of what it calls.
pub is_empty : Pieces → IterTaskDownload → Option Bool
is_empty p it = empty_at it.task
  where
    empty_at : TaskDownload → Option Bool
    empty_at (piece_task piece) = piece_size_of p piece >>= λ size. some (size == it.current_block)
    empty_at (pieces_range start end) = next_piece it.current_piece >>= λ next.
        if next == end
        then (piece_size_of p it.current_piece >>= λ size. some (size == it.current_block))
        else some false
    empty_at (block_range piece start end) = some (end == it.current_block)

-- What `Iterator::next` comes to. `out_of_fuel` has no counterpart in the code.
pub data Next : Type 0 where
  item : BlockToDownload → IterTaskDownload → Next
  finished : IterTaskDownload → Next
  panicked out_of_fuel : Next

abbrev block_at : PieceIndex → BlockIndex → ℕ → BlockToDownload
block_at piece start length = record { piece = piece; start = start; length = length }

-- the arm of one piece
pub next_of_piece : Pieces → PieceIndex → IterTaskDownload → Next
next_of_piece p piece it = elim (block_length_of p piece it.current_block) [
  | none ↦ panicked
  | some length ↦
      let moved = record it { current_block = wrapping_add 32 it.current_block length } in
      if length == 0 then finished moved else item (block_at piece it.current_block length) moved
]

-- the arm of a range of pieces, a `loop` over the pieces
pub next_of_range : ℕ → Pieces → PieceIndex → IterTaskDownload → Next
next_of_range zero p end it = out_of_fuel
next_of_range (suc fuel) p end it = elim (block_length_of p it.current_piece it.current_block) [
  | none ↦ panicked
  | some length ↦
      let moved = record it { current_block = wrapping_add 32 it.current_block length } in
      elim (length == 0) [
        | false ↦ item (block_at it.current_piece it.current_block length) moved
        | true ↦ elim (next_piece it.current_piece) [
          | none ↦ panicked
          | some piece ↦ elim (piece == end) [
            | true ↦ finished moved
            | false ↦
                next_of_range fuel p end (record it { current_piece = piece; current_block = 0 })
          ]
        ]
      ]
]

-- the arm of a range of blocks; the iterator's end is cut down to that of the block.
pub next_of_blocks : Pieces → PieceIndex → BlockIndex → IterTaskDownload → Next
next_of_blocks p piece end it = elim (block_length_of p piece it.current_block) [
  | none ↦ panicked
  | some length ↦
      let stop : ℕ = min (wrapping_add 32 it.current_block length) end in
      let moved = record it { current_block = stop } in
      if it.current_block == stop
      then finished moved
      else item (block_at piece it.current_block (wrapping_sub 32 stop it.current_block)) moved
]

abbrev next_of : ℕ → Pieces → IterTaskDownload → TaskDownload → Next
next_of fuel p it (piece_task piece) = next_of_piece p piece it
next_of fuel p it (pieces_range start end) = next_of_range fuel p end it
next_of fuel p it (block_range piece start end) = next_of_blocks p piece end it

pub next : ℕ → Pieces → IterTaskDownload → Next
next fuel p it = next_of fuel p it it.task
