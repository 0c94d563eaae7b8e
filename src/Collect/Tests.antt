-- ===== src/Collect/Tests.antt =====
-- Ranges of a piece of 100 bytes, and a torrent of two pieces in cells of two bytes.
use rustorrent.Common.{
  ℕ, zero, suc, ◌/◌, ◌<◌, ◌≡◌, refl, ap, Bool, true, not, inl, inr, Option, none, some, List, [],
  ◌∷◌, get_elem?, arith,
}
use rustorrent.Common.Checked.{◌>>=◌}
use rustorrent.Pieces.{PieceIndex, Pieces, piece_size_of, is_last_piece}
use rustorrent.Collect.{
  PieceRanges, Range, insert, binary_search_by, cmp_block, cmp_ranges, widen, place, search, absorb,
  join_before, drop_inside, is_completed,
}
use rustorrent.Collect.Ranges.{covered}
use rustorrent.Collect.Arms.{Inserted}
use rustorrent.Collect.Insert.{insert-Inserted}
use rustorrent.Collect.Metadata.{
  Block, PieceCollector, collector_new, copy_at, add_to_piece, add_slice, metadata_new, add_block,
  as_collector,
}
use rustorrent.Collect.Holds.{IsPart}
use rustorrent.Collect.Deliver.{IsCollector, IsBlock, Delivers, has_byte, add_block-Delivers}
use rustorrent.Collect.Iterate.{iter_empty_ranges-covered}

abbrev two : PieceRanges
two = record { piece_length = 100; ranges = (10, 20) ∷ (50, 60) ∷ [] }

-- A block that touches no range on its left and the second on its right swallows the first, which stays
-- where it is.
insert-unsorted :
    insert two (5, 55) ≡ some (record { piece_length = 100; ranges = (10, 20) ∷ (5, 60) ∷ [] })
unfolding insert binary_search_by search cmp_block cmp_ranges widen place absorb join_before
    drop_inside
insert-unsorted = refl

insert-both : insert two (20, 50) ≡ some (record { piece_length = 100; ranges = (10, 60) ∷ [] })
unfolding insert binary_search_by search cmp_block cmp_ranges widen place absorb join_before
    drop_inside
insert-both = refl

insert-Inserted_example :
    (xs' : List Range) × (insert two (20, 50) ≡ some (record two { ranges = xs' }))
    × Inserted 0 100 ((10, 20) ∷ (50, 60) ∷ []) (20, 50) xs'
insert-Inserted_example =
    insert-Inserted two (20, 50)
      (omega arith, omega arith, omega arith, (omega arith, omega arith, omega arith, tt))
      (omega arith) (omega arith) (inl (omega arith), (inr (inl (omega arith)), tt))

abbrev infos : Pieces
infos = record {
  info_hash = [];
  num_pieces = 2;
  sha1_pieces = [];
  block_size = 2;
  last_block_size = 2;
  nblocks_piece = 2;
  nblocks_last_piece = 1;
  piece_length = 4;
  last_piece_length = 2;
  files_size = 6;
}

abbrev bytes_of : PieceIndex → List ℕ
bytes_of zero = 1 ∷ 2 ∷ 3 ∷ 4 ∷ []
bytes_of (suc i) = 5 ∷ 6 ∷ []

abbrev half : ℕ → ℕ
half j = j / 2

abbrev last_block : Block
last_block = record { piece_index = 1; index = 0; block = 5 ∷ 6 ∷ [] }

-- The last piece is one block. Its bytes are in, but it is not returned.
abbrev kept : Option (List ℕ) × PieceCollector → Option (List ℕ) × Bool × Bool
kept (o, c) = (o, has_byte (c.pieces 1) 0, has_byte (c.pieces 1) 1)

add_block-keeps :
    (add_block (collector_new infos) last_block >>= λ r. some (kept r)) ≡ some (none, true, true)
unfolding add_block metadata_new add_to_piece add_slice copy_at insert binary_search_by search
    cmp_block cmp_ranges widen place absorb join_before drop_inside is_completed piece_size_of
    is_last_piece
add_block-keeps = refl

last_block-IsPart : IsPart (bytes_of 1) last_block
last_block-IsPart = record {
  some_bytes = omega arith;
  inside = omega arith;
  same = λ i k e l. ap (get_elem? (5 ∷ 6 ∷ [])) (omega (arith, e));
}

last_block-IsBlock : IsBlock bytes_of half infos last_block
unfolding piece_size_of is_last_piece
last_block-IsBlock = (refl, omega arith, last_block-IsPart, (0, λ j l. ground (arith, l)))

collector_new-IsCollector : IsCollector bytes_of half infos (collector_new infos)
collector_new-IsCollector = record {
  same_infos = refl;
  parts = λ j m e. absurd (ground (arith, e));
}

add_block-Delivers_example :
    (o : Option (List ℕ)) × (c' : PieceCollector) × (add_block (collector_new infos) last_block
      ≡ some (o, c'))
    × Delivers bytes_of half infos (collector_new infos) last_block (o, c')
add_block-Delivers_example =
    add_block-Delivers bytes_of half infos (collector_new infos) last_block
      collector_new-IsCollector last_block-IsBlock

size_1 : piece_size_of infos 1 ≡ some 2
unfolding piece_size_of is_last_piece
size_1 = refl

iter_empty_ranges-covered_example :
    (gaps : List Range) × ((as_collector 3 (collector_new infos)).iter_empty_ranges 1 ≡ some gaps)
    × ((j : ℕ) → j < 2 → covered gaps j ≡ not (has_byte none j))
iter_empty_ranges-covered_example =
    iter_empty_ranges-covered bytes_of half infos (collector_new infos) 1 collector_new-IsCollector
      size_1 (omega arith)
