-- ===== src/Collect/Insert.antt =====
-- `PieceRanges::insert` of src/piece_collector.rs, on blocks that no range has a part of.
use Prim.Native.Nat.{Ordering}
use rustorrent.Common.{
  ℕ, suc, ◌≤◌, ◌<◌, ◌≡◌, refl, sym, true, some, List, [], ◌∷◌, ◌++◌, leb, All, arith, take, drop,
  take-append-drop,
}
use mathlib.Core.Path.{subst}
use rustorrent.Collect.{
  Range, PieceRanges, Found, ok_at, err_at, binary_search_by, cmp_block, widen, place, insert,
  insert_at,
}
use rustorrent.Collect.Search.{
  LastIs, HeadIs, IsFound, binary_search_by-IsFound, take-LastIs, drop-HeadIs, take-drop_at,
}
use rustorrent.Collect.Ranges.{
  IsRanges, next_lo, IsClean, IsRanges-before, IsRanges-after, IsRanges-All, next_lo-LastIs,
  LastIs-All, cmp_block-less, cmp_block-greater, cmp_block-equal,
}
use rustorrent.Collect.Arms.{Inserted, All-after, All-before, place-Inserted, widen-Inserted}

LastIs-less :
    (range : Range) (xs : List Range)
    → range.0 < range.1
    → All (λ r. r.0 < r.1) xs
    → All (IsClean range) xs
    → LastIs (λ r. cmp_block range r ≡ Ordering.lt) xs
    → LastIs (λ r. r.1 < range.0) xs
LastIs-less range xs a full clean h =
    LastIs-All (IsClean range) (λ r. (r.0 < r.1) × (cmp_block range r ≡ Ordering.lt))
      (λ r. r.1 < range.0) xs (λ r c g. cmp_block-less range r a g.0 c g.1) clean
      (LastIs-All (λ r. r.0 < r.1) (λ r. cmp_block range r ≡ Ordering.lt)
        (λ r. (r.0 < r.1) × (cmp_block range r ≡ Ordering.lt)) xs (λ r g g'. (g, g')) full h)

HeadIs-greater :
    (range : Range) (xs : List Range)
    → range.0 < range.1
    → All (λ r. r.0 < r.1) xs
    → All (IsClean range) xs
    → HeadIs (λ r. cmp_block range r ≡ Ordering.gt) xs
    → HeadIs (λ r. range.1 < r.0) xs
HeadIs-greater range [] a full clean h = tt
HeadIs-greater range (r ∷ xs) a full clean h = cmp_block-greater range r a full.0 clean.0 h

insert_at-Inserted :
    (xs : List Range) (range : Range) (hi : ℕ) (f : Found)
    → IsFound (cmp_block range) xs f
    → IsRanges 0 hi xs
    → range.0 < range.1
    → range.1 ≤ hi
    → All (IsClean range) xs
    → (xs' : List Range) × (insert_at xs range f ≡ some xs') × Inserted 0 hi xs range xs'
insert_at-Inserted xs range hi (ok_at i) (r, at, c) h a b clean =
    let e = take-drop_at xs i r at in
    let before = take i xs in
    let after = drop (suc i) xs in
    let h' : IsRanges 0 hi (before ++ r ∷ after) = subst (λ ys. IsRanges 0 hi ys) (sym e) h in
    let clean' : All (IsClean range) (before ++ r ∷ after) =
      subst (λ ys. All (IsClean range) ys) (sym e) clean in
    let (clean_r, _) = All-after (IsClean range) before (r ∷ after) clean' in
    let k = IsRanges-after 0 hi before (r ∷ after) h' in
    let (_, full_r, _, _) = k in
    let w =
      widen-Inserted 0 hi before r after range (omega arith)
        (IsRanges-before 0 hi before (r ∷ after) h') k a b clean'
        (cmp_block-equal range r a full_r clean_r c) in
    (
      widen before r after range,
      rw at refl,
      subst (λ ys. Inserted 0 hi ys range (widen before r after range)) e w,
    )
insert_at-Inserted xs range hi (err_at i) (l, less, greater) h a b clean =
    let e = take-append-drop i xs in
    let before = take i xs in
    let after = drop i xs in
    let h' : IsRanges 0 hi (before ++ after) = subst (λ ys. IsRanges 0 hi ys) (sym e) h in
    let clean' : All (IsClean range) (before ++ after) =
      subst (λ ys. All (IsClean range) ys) (sym e) clean in
    let hb = IsRanges-before 0 hi before after h' in
    let ha = IsRanges-after 0 hi before after h' in
    let last =
      LastIs-less range before a (IsRanges-All 0 hi before hb)
        (All-before (IsClean range) before after clean')
        (take-LastIs (λ r. cmp_block range r ≡ Ordering.lt) xs i l less) in
    let head =
      HeadIs-greater range after a (IsRanges-All (next_lo 0 before) hi after ha)
        (All-after (IsClean range) before after clean')
        (drop-HeadIs (λ r. cmp_block range r ≡ Ordering.gt) xs i greater) in
    (
      place before after range,
      refl,
      subst (λ ys. Inserted 0 hi ys range (place before after range)) e
          (place-Inserted 0 hi before after range hb ha
            (next_lo-LastIs 0 range.0 before (omega arith) last) a b head),
    )

-- In well-formed ranges of which each has a block that is not empty whole or not at all, `insert` of
-- the block, in the bounds of the piece, does not panic. The ranges are then well-formed, and have the bytes that they had
-- and those of the block.
pub insert-Inserted :
    (p : PieceRanges) (range : Range)
    → IsRanges 0 p.piece_length p.ranges
    → range.0 < range.1
    → range.1 ≤ p.piece_length
    → All (IsClean range) p.ranges
    → (xs' : List Range) × (insert p range ≡ some (record p { ranges = xs' }))
      × Inserted 0 p.piece_length p.ranges range xs'
unfolding insert
insert-Inserted p range h a b clean =
    let (xs', e, inserted) =
      insert_at-Inserted p.ranges range p.piece_length (binary_search_by (cmp_block range) p.ranges)
        (binary_search_by-IsFound (cmp_block range) p.ranges) h a b clean in
    let inside : leb range.1 p.piece_length ≡ true = ground (arith, b) in
    (xs', rw (inside, e) refl, inserted)
