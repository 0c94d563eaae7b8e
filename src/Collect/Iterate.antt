-- ===== src/Collect/Iterate.antt =====
-- `PieceCollector::iter_empty_ranges` of src/piece_collector.rs, as the picker uses it.
use rustorrent.Common.{
  ℕ, zero, suc, ◌<◌, ◌≡◌, refl, sym, ap, ◌∙◌, inl, inr, true, false, Bool-cases, Option-cases, not,
  none, some, List, [], ◌∷◌, ltb, ◌==◌, length, arith,
}
use rustorrent.Pieces.{PieceIndex, Pieces, piece_size_of, is_last_piece}
use rustorrent.Collect.{Range}
use rustorrent.Collect.Ranges.{covered}
use rustorrent.Collect.Metadata.{
  PieceCollector, next_empty, collect, iter_empty_ranges, as_collector,
}
use rustorrent.Collect.Missing.{collect_from}
use rustorrent.Collect.Deliver.{IsCollector, has_byte}

size-lt :
    (infos : Pieces) (index : PieceIndex) (n : ℕ)
    → piece_size_of infos index ≡ some n
    → ltb index infos.num_pieces ≡ true
unfolding piece_size_of is_last_piece
size-lt infos index n e = elim (Bool-cases (ltb index infos.num_pieces)) [
  | inl l ↦ l
  | inr l ↦ absurd (ground (arith, e, l))
]

-- a piece without metadata
untouched :
    (n : ℕ)
    → 0 < n
    → collect (suc n) (record { start_at = 0; piece_length = n; piece_metadata = none })
      ≡ some ((0, n) ∷ [])
unfolding collect next_empty
untouched zero l = absurd (omega (arith, l))
untouched (suc k) l =
    let e : (suc k == 0) ≡ false = ground arith in
    let e' : (suc k == suc k) ≡ true = ground arith in rw (e, e') refl

-- For a collector whose metadata hold whole cells of their pieces, the items of `iter_empty_ranges` of a
-- piece that is not empty end within one round more than the piece has bytes, and are ranges of exactly
-- the bytes of the piece that are not in.
pub iter_empty_ranges-covered :
    (bytes_of : PieceIndex → List ℕ) (cell : ℕ → ℕ) (infos : Pieces) (c : PieceCollector)
    (index : PieceIndex)
    → IsCollector bytes_of cell infos c
    → piece_size_of infos index ≡ some (length (bytes_of index))
    → 0 < length (bytes_of index)
    → (gaps : List Range) × ((as_collector (suc (length (bytes_of index))) c).iter_empty_ranges
          index
        ≡ some gaps)
      × ((j : ℕ) → j < length (bytes_of index) → covered gaps j ≡ not (has_byte (c.pieces index) j))
unfolding iter_empty_ranges
iter_empty_ranges-covered bytes_of cell infos c index ok size pos =
    let n = length (bytes_of index) in
    let size' : piece_size_of c.pieces_infos index ≡ some n =
      ap (λ i. piece_size_of i index) ok.same_infos ∙ size in
    let l = size-lt c.pieces_infos index n size' in
    elim (Option-cases (c.pieces index)) [
      | inl e ↦ ((0, n) ∷ [], rw (l, size', e) (untouched n pos), λ j a. rw e (ground (arith, a)))
      | inr (m, e) ↦
          let (h, _) = ok.parts index m e in
          let (gaps, e', v) =
            collect_from (suc n) m 0 n (sym h.ranges_size) (omega arith) h.ranges (inl refl) in
          (
            gaps,
            rw (l, size', e)
                (ap
                    (λ k.
                      collect (suc n)
                        (record { start_at = 0; piece_length = k; piece_metadata = some m }))
                    (sym h.ranges_size)
                  ∙ e'),
            λ j a. let w = v j a in rw e (ground (arith, w)),
          )
    ]
