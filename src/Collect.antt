-- ===== src/Collect.antt =====
-- src/piece_collector.rs: the blocks of a piece that have come in. A range is the pair of its start and
-- its end, and `none` is a panic.
pub mod Search
pub mod Ranges
pub mod Arms
pub mod Insert
pub mod Gaps
pub mod Missing
pub mod Metadata
pub mod Buffer
pub mod Whole
pub mod Holds
pub mod Cells
pub mod Deliver
pub mod Iterate
mod Tests
use Prim.Native.Nat.{compare, Ordering}
use rustorrent.Common.{
  ℕ, zero, suc, ◌+◌, ◌-◌, ◌/◌, Bool, true, false, ◌&&◌, ◌||◌, Option, none, some, List, [], ◌∷◌,
  ◌++◌, leb, ltb, ◌==◌, if◌then◌else◌, length, get_elem?, take, drop, min, max, replicate,
  wrapping_add,
}
use rustorrent.Common.Checked.{◌>>=◌}
use rustorrent.Pieces.{PieceIndex, Pieces, piece_size_of}

abbrev pub Range : Type 0
Range = ℕ × ℕ

pub record PieceRanges : Type 0 where
  pub piece_length : ℕ
  pub ranges : List Range

-- `Result<usize, usize>` of a binary search
pub data Found : Type 0 where
  ok_at err_at : ℕ → Found

-- `binary_search_by` between `left` and `right`. Every round but the last leaves less than it had, so
-- that as many rounds as elements are enough.
unfoldable pub search : (Range → Ordering) → List Range → ℕ → ℕ → ℕ → Found
search cmp xs zero left right = err_at left
search cmp xs (suc n) left right = elim (ltb left right) [
  | false ↦ err_at left
  | true ↦ elim (get_elem? xs (left + (right - left) / 2)) [
    | none ↦ err_at left
    | some r ↦ elim (cmp r) [
      | Ordering.lt ↦ search cmp xs n (left + (right - left) / 2 + 1) right
      | Ordering.gt ↦ search cmp xs n left (left + (right - left) / 2)
      | Ordering.eq ↦ ok_at (left + (right - left) / 2)
    ]
  ]
]

unfoldable pub binary_search_by : (Range → Ordering) → List Range → Found
unfolding search
binary_search_by cmp xs = search cmp xs (length xs) 0 (length xs)

-- `Range::contains`
abbrev pub contains : Range → ℕ → Bool
contains (start, end) x = leb start x && ltb x end

-- `Iterator::cmp` of two ranges: the first numbers that differ, or the one that ends first
unfoldable pub cmp_ranges : Range → Range → Ordering
cmp_ranges (start, end) (start', end') =
    if leb end start
    then (if leb end' start' then Ordering.eq else Ordering.lt)
    else (if leb end' start'
        then Ordering.gt
        else (if start == start' then compare end end' else compare start start'))

-- `PieceRanges::new`
abbrev pub ranges_new : ℕ → PieceRanges
ranges_new piece_length = record { piece_length = piece_length; ranges = [] }

abbrev pub is_whole : ℕ → List Range → Bool
is_whole piece_length [] = false
is_whole piece_length ((start, end) ∷ []) = start == 0 && end == piece_length
is_whole piece_length (_ ∷ _ ∷ _) = false

unfoldable pub is_completed : PieceRanges → Bool
is_completed p = is_whole p.piece_length p.ranges

-- the comparison of `next_empty_range`
unfoldable pub cmp_at : ℕ → Range → Ordering
unfolding cmp_ranges
cmp_at at r = if contains r at then Ordering.eq else cmp_ranges r (at, at + 1)

-- behind the range at `index`; `none` is a panic
abbrev pub behind : PieceRanges → ℕ → Option (Option Range)
behind p index = get_elem? p.ranges index >>= λ current.
    some (elim (get_elem? p.ranges (index + 1)) [
      | some next ↦ some (current.1, next.0)
      | none ↦ if current.1 == p.piece_length then none else some (current.1, p.piece_length)
    ])

abbrev pub before_first : PieceRanges → Option (Option Range)
before_first p = elim (get_elem? p.ranges 0) [
  | some next ↦ some (some (0, next.0))
  | none ↦ some (some (0, p.piece_length))
]

-- the arm of an index that is not the first, with that index less one
abbrev pub between : PieceRanges → ℕ → Option (Option Range)
between p index = elim (get_elem? p.ranges index) [
  | none ↦ none
  | some before ↦ elim (get_elem? p.ranges (index + 1)) [
    | some after ↦ some (some (before.1, after.0))
    | none ↦ some (some (before.1, p.piece_length))
  ]
]

abbrev pub empty_range_at : PieceRanges → Found → Option (Option Range)
empty_range_at p (ok_at index) = behind p index
empty_range_at p (err_at zero) = before_first p
empty_range_at p (err_at (suc index)) = between p index

unfoldable pub next_empty_range : PieceRanges → ℕ → Option (Option Range)
unfolding binary_search_by cmp_at
next_empty_range p at =
    if leb p.piece_length at
    then some none
    else empty_range_at p (binary_search_by (cmp_at at) p.ranges)

-- the comparison of `insert`
unfoldable pub cmp_block : Range → Range → Ordering
unfolding cmp_ranges
cmp_block range r =
    if contains r (range.0 - 1) || contains r range.1 then Ordering.eq else cmp_ranges r range

-- The second loop: the range at `index` takes in those behind it that start by `end`.
unfoldable pub absorb : ℕ → Range → List Range → Range × List Range
absorb end current [] = (current, [])
absorb end current (r ∷ rest) =
    let more = absorb end (current.0, max end r.1) rest in
    if leb r.0 end then more else (current, r ∷ rest)

-- the first loop of a range that is new
unfoldable pub drop_inside : ℕ → List Range → List Range
drop_inside end [] = []
drop_inside end (r ∷ rest) =
    let rest' = drop_inside end rest in if ltb r.1 end then rest' else r ∷ rest

-- The range at `index` behind those before it, or the one before it, up to `end`, if it ends at `start`
unfoldable pub join_before : List Range → ℕ → ℕ → Range → List Range
join_before [] start end current = current ∷ []
join_before (r ∷ []) start end current = if r.1 == start then (r.0, end) ∷ [] else r ∷ current ∷ []
join_before (r ∷ r' ∷ rest) start end current = r ∷ join_before (r' ∷ rest) start end current

-- The two arms of `insert`, with the ranges before the index, the one at it, and those behind it.
unfoldable pub widen : List Range → Range → List Range → Range → List Range
unfolding absorb join_before
widen before r after range =
    let start = min r.0 range.0 in
    let end = max r.1 range.1 in
    let merged = absorb end (start, end) after in join_before before start end merged.0 ++ merged.1

unfoldable pub place : List Range → List Range → Range → List Range
unfolding absorb drop_inside
place before after range =
    let merged = absorb range.1 range (drop_inside range.1 after) in before ++ merged.0 ∷ merged.1

abbrev pub insert_at : List Range → Range → Found → Option (List Range)
insert_at xs range (ok_at index) =
    get_elem? xs index >>= λ r. some (widen (take index xs) r (drop (suc index) xs) range)
insert_at xs range (err_at index) = some (place (take index xs) (drop index xs) range)

unfoldable pub insert : PieceRanges → Range → Option PieceRanges
unfolding binary_search_by cmp_block widen place
insert p range =
    if leb range.1 p.piece_length
    then (insert_at p.ranges range (binary_search_by (cmp_block range) p.ranges) >>= λ xs.
        some (record p { ranges = xs }))
    else none
