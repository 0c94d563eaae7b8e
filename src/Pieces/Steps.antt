-- ===== src/Pieces/Steps.antt =====
-- One call of the iterator over blocks, for sizes that add up.

use rustorrent.Common.{ℕ, suc, ◌+◌, ◌-◌, ◌^◌, min, ◌≤◌, ◌<◌, ◌≡◌, some, arith, ◌==◌, if◌then◌else◌}
use rustorrent.Pieces.{
  Pieces, PieceIndex, BlockIndex, IterTaskDownload, TaskDownload, item, finished, next_of_piece,
  next_of_range, next_of_blocks, next_piece, piece_size_of, block_length_in, block_length_of,
  block_at,
}
use rustorrent.Pieces.Sizes.{IsCut}

abbrev pub size : Pieces → PieceIndex → ℕ
size p piece = if piece == p.num_pieces - 1 then p.last_piece_length else p.piece_length

-- an iterator in the middle of its task
abbrev pub at : TaskDownload → PieceIndex → BlockIndex → IterTaskDownload
at task piece block = record { task = task; current_piece = piece; current_block = block }

module _ {p : Pieces} (v : IsCut p) where
  pub size-bounds : (piece : PieceIndex) → (0 < size p piece) × (size p piece ≤ p.piece_length)
  size-bounds piece = ground (arith, v)

  piece_size_of-size :
      (piece : PieceIndex) → piece < p.num_pieces → piece_size_of p piece ≡ some (size p piece)
  unfolding piece_size_of
  piece_size_of-size piece h = ground (arith, v)

  block_length_in-lem :
      (piece : PieceIndex) (block : BlockIndex)
      → block ≤ size p piece
      → block_length_in p (size p piece) block ≡ some (min p.block_size (size p piece - block))
  unfolding block_length_in
  block_length_in-lem piece block k = length_at (size p piece) (size-bounds piece).1 k
    where
      length_at :
          (s : ℕ)
          → s ≤ p.piece_length
          → block ≤ s
          → block_length_in p s block ≡ some (min p.block_size (s - block))
      length_at s h k = ground (arith, v)

  -- the length of the block at an offset inside a piece, and at its end
  block_length_of-lem :
      (piece : PieceIndex) (block : BlockIndex)
      → piece < p.num_pieces
      → block ≤ size p piece
      → block_length_of p piece block ≡ some (min p.block_size (size p piece - block))
  unfolding block_length_of
  block_length_of-lem piece block h k =
      rw (piece_size_of-size piece h) (block_length_in-lem piece block k)

  -- the three steps of the iterator, within a piece, at its end, and at the end of the last one
  pub next_of_range-inside :
      (rounds : ℕ) (task : TaskDownload) (end piece : PieceIndex) (block : BlockIndex)
      → piece < p.num_pieces
      → block < size p piece
      → let n = min p.block_size (size p piece - block) in
        next_of_range (suc rounds) p end (at task piece block)
        ≡ item (block_at piece block n) (at task piece (block + n))
  unfolding next_of_range
  next_of_range-inside rounds task end piece block h k =
      ground (arith, v, size-bounds piece, block_length_of-lem piece block h)

  pub next_of_range-next :
      (rounds : ℕ) (task : TaskDownload) (end piece : PieceIndex)
      → piece + 1 < end
      → end ≤ p.num_pieces
      → p.num_pieces < 2 ^ 32
      → next_of_range (suc rounds) p end (at task piece (size p piece))
        ≡ next_of_range rounds p end (at task (piece + 1) 0)
  unfolding next_of_range next_piece
  next_of_range-next rounds task end piece h k l =
      ground (arith, v, size-bounds piece, block_length_of-lem piece (size p piece))

  pub next_of_range-end :
      (rounds : ℕ) (task : TaskDownload) (end piece : PieceIndex)
      → piece + 1 ≡ end
      → end ≤ p.num_pieces
      → p.num_pieces < 2 ^ 32
      → next_of_range (suc rounds) p end (at task piece (size p piece))
        ≡ finished (at task piece (size p piece))
  unfolding next_of_range next_piece
  next_of_range-end rounds task end piece h k l =
      ground (arith, v, size-bounds piece, block_length_of-lem piece (size p piece))

  pub next_of_piece-inside :
      (task : TaskDownload) (piece current : PieceIndex) (block : BlockIndex)
      → piece < p.num_pieces
      → block < size p piece
      → let n = min p.block_size (size p piece - block) in
        next_of_piece p piece (at task current block)
        ≡ item (block_at piece block n) (at task current (block + n))
  unfolding next_of_piece
  next_of_piece-inside task piece current block h k =
      ground (arith, v, size-bounds piece, block_length_of-lem piece block h)

  pub next_of_piece-end :
      (task : TaskDownload) (piece current : PieceIndex)
      → piece < p.num_pieces
      → next_of_piece p piece (at task current (size p piece))
        ≡ finished (at task current (size p piece))
  unfolding next_of_piece
  next_of_piece-end task piece current h =
      ground (arith, v, size-bounds piece, block_length_of-lem piece (size p piece))

  pub next_of_blocks-inside :
      (task : TaskDownload) (piece current : PieceIndex) (block end : BlockIndex)
      → piece < p.num_pieces
      → block < min end (size p piece)
      → let n = min p.block_size (min end (size p piece) - block) in
        next_of_blocks p piece end (at task current block)
        ≡ item (block_at piece block n) (at task current (block + n))
  unfolding next_of_blocks
  next_of_blocks-inside task piece current block end h k =
      ground (arith, v, size-bounds piece, block_length_of-lem piece block h)

  pub next_of_blocks-end :
      (task : TaskDownload) (piece current : PieceIndex) (end : BlockIndex)
      → piece < p.num_pieces
      → let stop = min end (size p piece) in
        next_of_blocks p piece end (at task current stop) ≡ finished (at task current stop)
  unfolding next_of_blocks
  next_of_blocks-end task piece current end h =
      ground (arith, v, size-bounds piece, block_length_of-lem piece (min end (size p piece)) h)
