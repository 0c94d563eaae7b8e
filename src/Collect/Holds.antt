-- ===== src/Collect/Holds.antt =====
-- What the metadata of a piece holds of the piece's bytes, for `PieceMetadata::add_block` of
-- src/piece_collector.rs.
use rustorrent.Common.{
  ℕ, ◌+◌, ◌-◌, ◌^◌, ◌≤◌, ◌<◌, ◌≡◌, refl, sym, ap, ◌∙◌, ◌↔◌, inl, inr, Bool, true, Bool-cases, ◌||◌,
  some, List, length, get_elem?, All, arith,
}
use rustorrent.Collect.{Range, PieceRanges, contains, is_completed, insert}
use rustorrent.Collect.Ranges.{IsRanges, IsClean, covered}
use rustorrent.Collect.Insert.{insert-Inserted}
use rustorrent.Collect.Metadata.{
  Block, PieceMetadata, block_bounds, copy_at, has_slot, add_slice, add_to_piece,
}
use rustorrent.Collect.Buffer.{
  length-copy_at, get_elem?-copy_at_in, get_elem?-copy_at_out, list_ext,
}
use rustorrent.Collect.Whole.{is_completed-covered}

-- The bytes that are in are those of the piece.
pub record HoldsPart (bytes : List ℕ) (m : PieceMetadata) : Type 0 where
  pub size : length m.piece ≡ length bytes
  pub ranges_size : m.blocks_completed.piece_length ≡ length bytes
  pub ranges : IsRanges 0 (length bytes) m.blocks_completed.ranges
  pub same :
      (j : ℕ) → covered m.blocks_completed.ranges j ≡ true → get_elem? m.piece j ≡ get_elem? bytes j

-- a block of the piece, not empty
pub record IsPart (bytes : List ℕ) (b : Block) : Type 0 where
  pub some_bytes : 0 < length b.block
  pub inside : b.index + length b.block ≤ length bytes
  pub same :
      (i k : ℕ) → b.index + i ≡ k → i < length b.block → get_elem? b.block i ≡ get_elem? bytes k

-- the bytes of a block
abbrev pub bounds : Block → Range
bounds b = (b.index, b.index + length b.block)

pub block_bounds-bounds :
    (b : Block) → b.index + length b.block < 2 ^ 32 → block_bounds b ≡ bounds b
block_bounds-bounds b h = ap (λ e. (b.index, e)) (omega (arith, h))

slice-some :
    (m : PieceMetadata) (b : Block) (range : Range) (p : PieceRanges)
    → block_bounds b ≡ range
    → has_slot m.piece b.block range ≡ true
    → insert m.blocks_completed range ≡ some p
    → add_to_piece m b
      ≡ some
          (is_completed p, record { piece = copy_at b.index b.block m.piece; blocks_completed = p })
unfolding add_to_piece add_slice
slice-some m b range p bounded slot e = ap (add_slice m b) bounded ∙ (rw (slot, e) refl)

copied :
    (bytes piece : List ℕ) (xs xs' : List Range) (b : Block)
    → length piece ≡ length bytes
    → IsPart bytes b
    → ((j : ℕ) → covered xs j ≡ true → get_elem? piece j ≡ get_elem? bytes j)
    → (j : ℕ) → covered xs' j ≡ (covered xs j || contains (bounds b) j)
    → covered xs' j ≡ true
    → get_elem? (copy_at b.index b.block piece) j ≡ get_elem? bytes j
copied bytes piece xs xs' b n part same j v c = elim (Bool-cases (contains (bounds b) j)) [
  | inl e ↦
      let i : ℕ = j - b.index in
      let ej : b.index + i ≡ j = ground (arith, e) in
      let l : i < length b.block = ground (arith, e) in
      get_elem?-copy_at_in b.index b.block piece i j ej (omega (arith, part.inside, n)) l
      ∙ part.same i j ej l
  | inr e ↦
      get_elem?-copy_at_out b.index b.block piece j (ground (arith, e))
      ∙ same j (ground (arith, e, v, c))
]

-- For metadata that hold a part of a piece of fewer than 2^32 bytes, and a block of it that is not empty
-- and that each range has whole or not at all, `add_block` does not panic. The metadata then hold the
-- bytes of before and those of the block, and it says that the piece is completed exactly if
-- these are all, and the buffer is then the piece.
pub add_to_piece-HoldsPart :
    (bytes : List ℕ) (m : PieceMetadata) (b : Block)
    → length bytes < 2 ^ 32
    → HoldsPart bytes m
    → IsPart bytes b
    → All (IsClean (bounds b)) m.blocks_completed.ranges
    → (completed : Bool) × (m' : PieceMetadata) × (add_to_piece m b ≡ some (completed, m'))
      × HoldsPart bytes m'
      × ((j : ℕ)
          → covered m'.blocks_completed.ranges j
            ≡ (covered m.blocks_completed.ranges j || contains (bounds b) j))
      × ((completed ≡ true)
          ↔ ((j : ℕ) → j < length bytes → covered m'.blocks_completed.ranges j ≡ true))
      × (completed ≡ true → m'.piece ≡ bytes)
add_to_piece-HoldsPart bytes m b small h part clean =
    let fits : b.index + length b.block < 2 ^ 32 = omega (arith, part.inside, small) in
    let slot : has_slot m.piece b.block (bounds b) ≡ true = ground (arith, part.inside, h.size) in
    let p = m.blocks_completed in
    let wf : IsRanges 0 p.piece_length p.ranges = rw h.ranges_size h.ranges in
    let (xs', e, (wf', v)) =
      insert-Inserted p (bounds b) wf (omega (arith, part.some_bytes))
        (rw h.ranges_size part.inside) clean in
    let p' = record p { ranges = xs' } in
    let m' : PieceMetadata = record {
      piece = copy_at b.index b.block m.piece;
      blocks_completed = p';
    } in
    let h' : HoldsPart bytes m' = record {
      size = length-copy_at b.index b.block m.piece ∙ h.size;
      ranges_size = h.ranges_size;
      ranges = rw (sym h.ranges_size) wf';
      same = λ j. copied bytes m.piece p.ranges xs' b h.size part h.same j (v j);
    } in
    let whole : (is_completed p' ≡ true) ↔ ((j : ℕ) → j < length bytes → covered xs' j ≡ true) =
      rw (sym h.ranges_size) (
        is_completed-covered p' (rw h.ranges_size (omega (arith, part.some_bytes, part.inside)))
          wf') in
    (
      is_completed p',
      m',
      slice-some m b (bounds b) p' (block_bounds-bounds b fits) slot e,
      h',
      v,
      whole,
      λ c.
          list_ext (copy_at b.index b.block m.piece) bytes h'.size
            (λ i l. h'.same i (whole.0 c i (rw (sym h'.size) l))),
    )
