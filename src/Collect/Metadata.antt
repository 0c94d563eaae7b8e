-- ===== src/Collect/Metadata.antt =====
-- The pieces in src/piece_collector.rs: a buffer for the bytes of a piece with the ranges that are in,
-- the iterator of the ranges that are not, and the map of pieces as a function. `none` is a panic.
use rustorrent.Common.{
  ℕ, zero, suc, ◌-◌, ◌%◌, ◌^◌, Bool, true, false, ◌&&◌, Option, none, some, List, [], ◌∷◌, leb, ltb,
  ◌==◌, if◌then◌else◌, length, replicate, wrapping_add,
}
use rustorrent.Common.Checked.{◌>>=◌}
use rustorrent.Pieces.{PieceIndex, Pieces, piece_size_of}
use rustorrent.Picker.{Collector}
use rustorrent.Collect.{Range, PieceRanges, ranges_new, insert, is_completed, next_empty_range}

pub record Block : Type 0 where
  pub piece_index : PieceIndex
  pub index : ℕ
  pub block : List ℕ

-- `Range::from(&Block)`
abbrev pub block_bounds : Block → Range
block_bounds b = (b.index, wrapping_add 32 b.index (length b.block % 2 ^ 32))

pub record PieceMetadata : Type 0 where
  pub piece : List ℕ
  pub blocks_completed : PieceRanges

-- `piece[start..].copy_from_slice(block)`, in bounds
unfoldable pub copy_at : ℕ → List ℕ → List ℕ → List ℕ
copy_at start block [] = []
copy_at zero [] (x ∷ xs) = x ∷ xs
copy_at zero (b ∷ block) (x ∷ xs) = b ∷ copy_at zero block xs
copy_at (suc start) block (x ∷ xs) = x ∷ copy_at start block xs

-- `piece.get_mut(range)`, and that the slice is as long as the block
abbrev pub has_slot : List ℕ → List ℕ → Range → Bool
has_slot piece block (start, end) =
    leb start end && leb end (length piece) && (end - start == length block)

-- `PieceMetadata::add_block`, with whether the piece is completed
unfoldable pub add_slice : PieceMetadata → Block → Range → Option (Bool × PieceMetadata)
add_slice m b range =
    if has_slot m.piece b.block range
    then (insert m.blocks_completed range >>= λ ranges. some (
      is_completed ranges,
      record { piece = copy_at b.index b.block m.piece; blocks_completed = ranges },
    ))
    else none

unfoldable pub add_to_piece : PieceMetadata → Block → Option (Bool × PieceMetadata)
unfolding add_slice
add_to_piece m b = add_slice m b (block_bounds b)

-- `PieceMetadata::new`
unfoldable pub metadata_new : ℕ → Block → Option PieceMetadata
unfolding add_to_piece
metadata_new piece_length b =
    add_to_piece
      (record { piece = replicate piece_length 0; blocks_completed = ranges_new piece_length }) b
    >>= λ (completed, m). some m

pub record IterEmptyRanges : Type 0 where
  pub start_at : ℕ
  pub piece_length : ℕ
  pub piece_metadata : Option PieceMetadata

-- `match self.piece_metadata`
unfoldable pub next_empty : IterEmptyRanges → Option (Option Range)
next_empty it = elim it.piece_metadata [
  | some m ↦ next_empty_range m.blocks_completed it.start_at
  | none ↦
      some (if it.piece_length == it.start_at then none else some (it.start_at, it.piece_length))
]

-- the items from here on, up to the end; `none` is a panic, or that the rounds do not reach the end
unfoldable pub collect : ℕ → IterEmptyRanges → Option (List Range)
unfolding next_empty
collect zero it = none
collect (suc n) it = next_empty it >>= λ o. elim o [
  | none ↦ some []
  | some r ↦ (collect n (record it { start_at = r.1 }) >>= λ rest. some (r ∷ rest))
]

pub record PieceCollector : Type 0 where
  pub pieces : PieceIndex → Option PieceMetadata
  pub pieces_infos : Pieces

-- `PieceCollector::new`
abbrev pub collector_new : Pieces → PieceCollector
collector_new infos = record { pieces = λ j. none; pieces_infos = infos }

abbrev pub has_no_range : List Range → Bool
has_no_range [] = true
has_no_range (_ ∷ _) = false

-- `PieceCollector::is_empty`
abbrev pub piece_is_empty : PieceCollector → PieceIndex → Bool
piece_is_empty c index = elim (c.pieces index) [
  | some m ↦ has_no_range m.blocks_completed.ranges
  | none ↦ true
]

-- `PieceCollector::iter_empty_ranges`
unfoldable pub iter_empty_ranges : PieceCollector → PieceIndex → Option IterEmptyRanges
iter_empty_ranges c index =
    if ltb index c.pieces_infos.num_pieces
    then (piece_size_of c.pieces_infos index >>= λ n.
        some (record { start_at = 0; piece_length = n; piece_metadata = c.pieces index }))
    else none

-- the map with an entry, or without
abbrev pub stored :
    (PieceIndex → Option PieceMetadata)
    → PieceIndex
    → Option PieceMetadata
    → PieceIndex
    → Option PieceMetadata
stored pieces index o j = if j == index then o else pieces j

-- `entry(..).and_modify(..)`, and the end of `add_block`
abbrev pub modified :
    PieceCollector → PieceIndex → Bool × PieceMetadata → Option (List ℕ) × PieceCollector
modified c index (true, m) = (some m.piece, record c { pieces = stored c.pieces index none })
modified c index (false, m) = (none, record c { pieces = stored c.pieces index (some m) })

-- `PieceCollector::add_block`, with the piece if it is completed
unfoldable pub add_block : PieceCollector → Block → Option (Option (List ℕ) × PieceCollector)
unfolding add_to_piece metadata_new
add_block c b = piece_size_of c.pieces_infos b.piece_index >>= λ n. elim (c.pieces b.piece_index) [
  | some m ↦ (add_to_piece m b >>= λ r. some (modified c b.piece_index r))
  | none ↦
      (metadata_new n b >>= λ m.
      some (none, record c { pieces = stored c.pieces b.piece_index (some m) }))
]

-- What the picker uses of a collector
abbrev pub as_collector : ℕ → PieceCollector → Collector
as_collector rounds c = record {
  is_empty = piece_is_empty c;
  iter_empty_ranges = λ index. iter_empty_ranges c index >>= collect rounds;
}
