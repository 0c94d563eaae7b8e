-- ===== src/Pieces/Tests.antt =====
-- Runs of the block iterator of src/pieces.rs, and its theorems at concrete inputs.
use rustorrent.Common.{ℕ, ◌<◌, ◌≡◌, refl, none, some, List, [], ◌∷◌, arith, replicate, true}
use rustorrent.Torrent.{Torrent, single, chunks_exact, sha_pieces, files_total_size}
use rustorrent.Pieces.{
  Pieces, BlockToDownload, piece_task, pieces_range, block_range, iter_by_block, pieces_from, sizes,
  nblock_in_piece, piece_size_of, is_last_piece, block_length_of, next, next_of_piece, is_empty,
}
use rustorrent.Pieces.Sizes.{IsCut, pieces_from-IsCut, nblock_in_piece-last}
use rustorrent.Pieces.Steps.{size}
use rustorrent.Pieces.Tiling.{collect, Tiles, TilesPieces}
use rustorrent.Pieces.Tasks.{collect-piece_task, collect-block_range, collect-pieces_range}

-- one file, with as many hashes as are given
abbrev torrent : ℕ → ℕ → ℕ → Torrent
torrent size piece_length hashes = record {
  meta = record {
    announce = none;
    info = record {
      pieces = replicate hashes 7;
      piece_length = piece_length;
      private = none;
      files = single [] size none;
    };
    announce_list = none;
    creation_date = none;
    comment = none;
    created_by = none;
    encoding = none;
    url_list = none;
  };
  info_hash = [];
}

abbrev hash : List ℕ
hash = replicate 20 7

-- two pieces of 20000 bytes and one of 5000
abbrev cut : Pieces
cut = record {
  info_hash = [];
  num_pieces = 3;
  sha1_pieces = hash ∷ hash ∷ hash ∷ [];
  block_size = 0x4000;
  last_block_size = 3616;
  nblocks_piece = 2;
  nblocks_last_piece = 1;
  piece_length = 20000;
  last_piece_length = 5000;
  files_size = 45000;
}

cut_from : pieces_from (torrent 45000 20000 60) ≡ some cut
unfolding pieces_from sizes sha_pieces chunks_exact files_total_size
cut_from = refl

cut-IsCut : IsCut cut
cut-IsCut = omega arith

-- two whole pieces
abbrev even : Pieces
even = record {
  info_hash = [];
  num_pieces = 2;
  sha1_pieces = hash ∷ hash ∷ [];
  block_size = 0x4000;
  last_block_size = 3616;
  nblocks_piece = 2;
  nblocks_last_piece = 0;
  piece_length = 20000;
  last_piece_length = 20000;
  files_size = 40000;
}

even_from : pieces_from (torrent 40000 20000 40) ≡ some even
unfolding pieces_from sizes sha_pieces chunks_exact files_total_size
even_from = refl

no_piece_length : pieces_from (torrent 10 0 20) ≡ none
unfolding pieces_from
no_piece_length = refl

missing_hash : pieces_from (torrent 45000 20000 40) ≡ none
unfolding pieces_from sizes sha_pieces chunks_exact files_total_size
missing_hash = refl

blocks_of_piece :
    collect 5 1 cut (iter_by_block (piece_task 1))
    ≡ some (
        record { piece = 1; start = 0; length = 0x4000 }
        ∷ record { piece = 1; start = 0x4000; length = 3616 }
        ∷ [])
unfolding collect next next_of_piece block_length_of piece_size_of is_last_piece
blocks_of_piece = refl

nothing_left :
    is_empty cut (record { task = piece_task 2; current_piece = 2; current_block = 5000 })
    ≡ some true
unfolding is_empty piece_size_of is_last_piece
nothing_left = refl

pieces_from-IsCut_example : IsCut cut × (cut.files_size ≡ 45000) × (cut.piece_length ≡ 20000)
unfolding files_total_size
pieces_from-IsCut_example =
    pieces_from-IsCut (torrent 45000 20000 60) cut_from (omega arith) (omega arith) (omega arith)

collect-piece_task_example :
    (bs : List BlockToDownload) × (collect 20001 1 cut (iter_by_block (piece_task 1)) ≡ some bs)
    × Tiles 0x4000 1 0 20000 bs
collect-piece_task_example = collect-piece_task cut-IsCut 1 20001 1 (omega arith) (omega arith)

-- the end of the range is behind that of the last piece
collect-block_range_example :
    (bs : List BlockToDownload) × (collect 5001 1 cut (iter_by_block (block_range 2 100 7000))
      ≡ some bs)
    × Tiles 0x4000 2 100 5000 bs
collect-block_range_example =
    collect-block_range cut-IsCut 1 5001 2 100 7000 (omega arith) (omega arith) (omega arith)

collect-pieces_range_example :
    (bs : List BlockToDownload) × (collect 40001 2 cut (iter_by_block (pieces_range 1 3)) ≡ some bs)
    × TilesPieces cut 2 1 bs
collect-pieces_range_example =
    collect-pieces_range cut-IsCut 0 40001 1 1 (omega arith) (omega arith) (omega arith)

nblock_in_piece-last_example :
    (nblock_in_piece even 1 ≡ some 0) × (piece_size_of even 1 ≡ some 20000) × (0 < 20000)
unfolding files_total_size
nblock_in_piece-last_example =
    nblock_in_piece-last (torrent 40000 20000 40) even_from (omega arith) (omega arith)
      (omega arith) refl
