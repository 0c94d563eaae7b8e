-- ===== src/Pieces/Tasks.antt =====
-- The blocks of each kind of task.
use rustorrent.Common.{ℕ, suc, ◌+◌, ◌*◌, ◌^◌, min, ◌≤◌, ◌<◌, ◌≡◌, refl, some, List, ◌++◌, arith}
use rustorrent.Pieces.{
  Pieces, PieceIndex, BlockIndex, BlockToDownload, piece_task, pieces_range, block_range,
  iter_by_block,
}
use rustorrent.Pieces.Sizes.{IsCut}
use rustorrent.Pieces.Steps.{size, size-bounds}
use rustorrent.Pieces.Tiling.{
  collect, Tiles, TilesPieces, collect-piece, collect-blocks, collect-range,
}

module _ {p : Pieces} (v : IsCut p) (rounds calls : ℕ) where
  -- For sizes that add up, a task of one piece gives, within one call more than the piece has bytes,
  -- the blocks of the whole piece in order.
  pub collect-piece_task :
      (piece : PieceIndex)
      → piece < p.num_pieces
      → size p piece < calls
      → (bs : List BlockToDownload) × (collect calls rounds p (iter_by_block (piece_task piece))
          ≡ some bs)
        × Tiles p.block_size piece 0 (size p piece) bs
  collect-piece_task piece h k = collect-piece v rounds calls piece 0 h (omega arith) (omega arith)

  -- A range of blocks that starts in the piece, not behind its own end, gives the blocks from there
  -- to the end of the range or of the piece, whichever comes first.
  pub collect-block_range :
      (piece : PieceIndex) (start end : BlockIndex)
      → piece < p.num_pieces
      → start ≤ min end (size p piece)
      → size p piece < calls
      → (bs : List BlockToDownload) × (collect calls rounds p
            (iter_by_block (block_range piece start end))
          ≡ some bs)
        × Tiles p.block_size piece start (min end (size p piece)) bs
  collect-block_range piece start end h k l =
      collect-blocks v rounds calls piece start end start h k (omega arith)

first_piece :
    (p : Pieces) (n : ℕ) (piece : PieceIndex) (ys zs : List BlockToDownload)
    → Tiles p.block_size piece 0 (size p piece) ys
    → TilesPieces p n (piece + 1) zs
    → TilesPieces p (suc n) piece (ys ++ zs)
first_piece p n piece ys zs t r = (ys, zs, refl, t, r)

-- A range of one or more pieces of the torrent gives, with two rounds or more in each call, the
-- blocks of each of them, one piece after another, the last of the range not among them.
pub collect-pieces_range :
    {p : Pieces} (v : IsCut p) (rounds calls n : ℕ) (start : PieceIndex)
    → p.num_pieces < 2 ^ 32
    → start + n + 1 ≤ p.num_pieces
    → (n + 1) * p.piece_length < calls
    → (bs : List BlockToDownload) × (collect calls
          (suc (suc rounds))
          p
          (iter_by_block (pieces_range start (start + n + 1)))
        ≡ some bs)
      × TilesPieces p (suc n) start bs
collect-pieces_range {p} v rounds calls n start small h k =
    let (ys, zs, found, tiles, rest) =
      collect-range v small rounds calls n start (start + n + 1) start 0 refl h (omega arith)
        (omega (arith, size-bounds v start)) in
    (ys ++ zs, found, first_piece p n start ys zs tiles rest)
