-- ===== src/Collect/Deliver.antt =====
-- `PieceCollector::add_block` of src/piece_collector.rs, on blocks of any pieces in any order.
use rustorrent.Common.{
  ℕ, ◌^◌, ◌<◌, ◌≡◌, refl, sym, ap, ◌∙◌, ◌↔◌, inl, inr, Bool, true, false, Bool-cases, Option-cases,
  ◌||◌, Option, none, some, some-injective, List, ◌==◌, if◌then◌else◌, length, replicate,
  length-replicate, arith,
}
use mathlib.Core.Path.{subst}
use rustorrent.Pieces.{PieceIndex, Pieces, piece_size_of}
use rustorrent.Collect.{contains, ranges_new}
use rustorrent.Collect.Ranges.{covered}
use rustorrent.Collect.Metadata.{
  Block, PieceMetadata, PieceCollector, add_to_piece, metadata_new, stored, modified, add_block,
}
use rustorrent.Collect.Holds.{HoldsPart, IsPart, bounds, add_to_piece-HoldsPart}
use rustorrent.Collect.Cells.{IsCell, IsUniform, IsUniform-more, cells-IsClean}

-- Metadata of a piece with some of its cells
abbrev pub HoldsCells : (ℕ → ℕ) → List ℕ → PieceMetadata → Type 0
HoldsCells cell bytes m =
    HoldsPart bytes m × IsUniform cell (length bytes) m.blocks_completed.ranges

abbrev pub is_known : Option PieceMetadata → Bool
is_known none = false
is_known (some m) = true

abbrev pub has_byte : Option PieceMetadata → ℕ → Bool
has_byte none j = false
has_byte (some m) j = covered m.blocks_completed.ranges j

pub fresh : ℕ → PieceMetadata
fresh n = record { piece = replicate n 0; blocks_completed = ranges_new n }

stored-All :
    (P : PieceIndex → PieceMetadata → Type 0) (pieces : PieceIndex → Option PieceMetadata)
    (index : PieceIndex) (o : Option PieceMetadata)
    → ((j : PieceIndex) (m : PieceMetadata) → pieces j ≡ some m → P j m)
    → ((m : PieceMetadata) → o ≡ some m → P index m)
    → (j : PieceIndex) (m : PieceMetadata) → stored pieces index o j ≡ some m
    → P j m
stored-All P pieces index o h k j m e = elim (Bool-cases (j == index)) [
  | inl same ↦
      let s : index ≡ j = ground (arith, same) in
      subst (λ i. P i m) s (k m (ap (λ b. if b then o else pieces j) (sym same) ∙ e))
  | inr differ ↦ h j m (ap (λ b. if b then o else pieces j) (sym differ) ∙ e)
]

stored_self :
    (pieces : PieceIndex → Option PieceMetadata) (index : PieceIndex) (o : Option PieceMetadata)
    → stored pieces index o index ≡ o
stored_self pieces index o = let e : (index == index) ≡ true = ground arith in rw e refl

stored_other :
    (pieces : PieceIndex → Option PieceMetadata) (index : PieceIndex) (o : Option PieceMetadata)
    (i : PieceIndex)
    → (i == index) ≡ false
    → stored pieces index o i ≡ pieces i
stored_other pieces index o i e = rw e refl

module _ (bytes_of : PieceIndex → List ℕ) (cell : ℕ → ℕ) (infos : Pieces) where
  -- The pieces have their sizes, and the metadata hold whole cells of them.
  pub record IsCollector (c : PieceCollector) : Type 0 where
    pub same_infos : c.pieces_infos ≡ infos
    pub parts :
        (j : PieceIndex) (m : PieceMetadata) → c.pieces j ≡ some m → HoldsCells cell (bytes_of j) m

  -- a block that is a cell of its piece
  abbrev pub IsBlock : Block → Type 0
  IsBlock b =
      (piece_size_of infos b.piece_index ≡ some (length (bytes_of b.piece_index)))
      × (length (bytes_of b.piece_index) < 2 ^ 32)
      × IsPart (bytes_of b.piece_index) b
      × IsCell cell (length (bytes_of b.piece_index)) (bounds b)

  add_to_piece-HoldsCells :
      (m : PieceMetadata) (b : Block)
      → IsBlock b
      → HoldsCells cell (bytes_of b.piece_index) m
      → (completed : Bool) × (m' : PieceMetadata) × (add_to_piece m b ≡ some (completed, m'))
        × HoldsCells cell (bytes_of b.piece_index) m'
        × ((j : ℕ)
            → covered m'.blocks_completed.ranges j
              ≡ (covered m.blocks_completed.ranges j || contains (bounds b) j))
        × ((completed ≡ true) ↔ (
            (j : ℕ)
            → j < length (bytes_of b.piece_index)
            → (covered m.blocks_completed.ranges j || contains (bounds b) j) ≡ true))
        × (completed ≡ true → m'.piece ≡ bytes_of b.piece_index)
  add_to_piece-HoldsCells m b (size, small, part, c) (h, u) =
      let bytes = bytes_of b.piece_index in
      let xs = m.blocks_completed.ranges in
      let clean = cells-IsClean cell (length bytes) (bounds b) xs c u part.inside h.ranges in
      let (completed, m', e, h', v, whole, done) =
        add_to_piece-HoldsPart bytes m b small h part clean in
      let u' = IsUniform-more cell (length bytes) (bounds b) xs m'.blocks_completed.ranges c u v in
      (
        completed,
        m',
        e,
        (h', u'),
        v,
        ((λ t j l. sym (v j) ∙ whole.0 t j l), (λ f. whole.1 (λ j l. v j ∙ f j l))),
        done,
      )

  -- Behind a piece that is returned nothing of it is left; else its bytes are those before and the
  -- block's.
  abbrev pub Leaves : PieceCollector → Block → Option (List ℕ) → PieceCollector → Type 0
  Leaves c b (some bytes) c' = c'.pieces b.piece_index ≡ none
  Leaves c b none c' =
      (is_known (c'.pieces b.piece_index) ≡ true)
      × ((j : ℕ)
          → has_byte (c'.pieces b.piece_index) j
            ≡ (has_byte (c.pieces b.piece_index) j || contains (bounds b) j))

  -- What `add_block` returns and leaves
  unfoldable pub Delivers : PieceCollector → Block → Option (List ℕ) × PieceCollector → Type 0
  Delivers c b (o, c') =
      IsCollector c'
      × Leaves c b o c'
      × ((i : PieceIndex) → (i == b.piece_index) ≡ false → c'.pieces i ≡ c.pieces i)
      × ((bytes : List ℕ) → o ≡ some bytes → bytes ≡ bytes_of b.piece_index)
      × ((o ≡ some (bytes_of b.piece_index)) ↔ (
          (is_known (c.pieces b.piece_index) ≡ true)
          × ((j : ℕ)
              → j < length (bytes_of b.piece_index)
              → (has_byte (c.pieces b.piece_index) j || contains (bounds b) j) ≡ true)))

  modified-Delivers :
      (c : PieceCollector) (b : Block) (m m' : PieceMetadata) (completed : Bool)
      → IsCollector c
      → c.pieces b.piece_index ≡ some m
      → HoldsCells cell (bytes_of b.piece_index) m'
      → ((j : ℕ)
          → covered m'.blocks_completed.ranges j
            ≡ (covered m.blocks_completed.ranges j || contains (bounds b) j))
      → ((completed ≡ true) ↔ (
          (j : ℕ)
          → j < length (bytes_of b.piece_index)
          → (covered m.blocks_completed.ranges j || contains (bounds b) j) ≡ true))
      → (completed ≡ true → m'.piece ≡ bytes_of b.piece_index)
      → Delivers c b (modified c b.piece_index (completed, m'))
  unfolding Delivers
  modified-Delivers c b m m' true ok at h v whole done = (
    record {
      same_infos = ok.same_infos;
      parts =
          stored-All (λ j. HoldsCells cell (bytes_of j)) c.pieces b.piece_index none ok.parts
            (λ m'' e. absurd (ground (arith, e)));
    },
    stored_self c.pieces b.piece_index none,
    stored_other c.pieces b.piece_index none,
    (λ bytes e. sym (some-injective _ _ e) ∙ done refl),
    ((λ e. rw at (refl, whole.0 refl)), λ f. ap some (done refl)),
  )
  modified-Delivers c b m m' false ok at h v whole done = (
    record {
      same_infos = ok.same_infos;
      parts =
          stored-All (λ j. HoldsCells cell (bytes_of j)) c.pieces b.piece_index (some m') ok.parts
            (λ m'' e. subst (HoldsCells cell (bytes_of b.piece_index)) (some-injective _ _ e) h);
    },
    (
      ap is_known (stored_self c.pieces b.piece_index (some m')),
      λ j.
          ap (λ o. has_byte o j) (stored_self c.pieces b.piece_index (some m'))
          ∙ v j
          ∙ ap (λ o. has_byte o j || contains (bounds b) j) (sym at),
    ),
    stored_other c.pieces b.piece_index (some m'),
    (λ bytes e. absurd (ground (arith, e))),
    (
      (λ e. absurd (ground (arith, e))),
      λ f.
          let t =
            whole.1 (λ j l. ap (λ o. has_byte o j || contains (bounds b) j) (sym at) ∙ f.1 j l) in
          absurd (ground (arith, t)),
    ),
  )

  known :
      (c : PieceCollector) (b : Block) (m : PieceMetadata) (r : Bool × PieceMetadata)
      → IsCollector c
      → IsBlock b
      → c.pieces b.piece_index ≡ some m
      → add_to_piece m b ≡ some r
      → add_block c b ≡ some (modified c b.piece_index r)
  unfolding add_block
  known c b m r ok block at e =
      let size = ap (λ i. piece_size_of i b.piece_index) ok.same_infos ∙ block.0 in
      rw (size, at, e) refl

  unknown :
      (c : PieceCollector) (b : Block) (completed : Bool) (m : PieceMetadata)
      → IsCollector c
      → IsBlock b
      → c.pieces b.piece_index ≡ none
      → add_to_piece (fresh (length (bytes_of b.piece_index))) b ≡ some (completed, m)
      → add_block c b ≡ some (none, record c { pieces = stored c.pieces b.piece_index (some m) })
  unfolding add_block metadata_new fresh
  unknown c b completed m ok block at e =
      let size = ap (λ i. piece_size_of i b.piece_index) ok.same_infos ∙ block.0 in
      rw (size, at, e) refl

  fresh-HoldsCells : (bytes : List ℕ) → HoldsCells cell bytes (fresh (length bytes))
  unfolding fresh
  fresh-HoldsCells bytes = (
    record {
      size = length-replicate (length bytes) 0;
      ranges_size = refl;
      ranges = tt;
      same = λ j e. absurd (ground (arith, e));
    },
    λ i j a b e. refl,
  )

  -- For a collector whose metadata hold whole cells of their pieces, and a block that is a cell of
  -- its piece, of fewer than 2^32 bytes, `add_block` does not panic, and leaves such a collector,
  -- with the other pieces as they were. What it returns is the piece, and it returns it exactly if
  -- the piece had a block before and now has every byte; then nothing of the piece is left, and
  -- otherwise the bytes of the piece that are in are those before and the block's.
  pub add_block-Delivers :
      (c : PieceCollector) (b : Block)
      → IsCollector c
      → IsBlock b
      → (o : Option (List ℕ)) × (c' : PieceCollector) × (add_block c b ≡ some (o, c'))
        × Delivers c b (o, c')
  unfolding add_block Delivers fresh
  add_block-Delivers c b ok block = elim (Option-cases (c.pieces b.piece_index)) [
    | inr (m, at) ↦
        let (completed, m', e, h, v, whole, done) =
          add_to_piece-HoldsCells m b block (ok.parts b.piece_index m at) in
        let (o, c') = modified c b.piece_index (completed, m') in
        (
          o,
          c',
          known c b m (completed, m') ok block at e,
          modified-Delivers c b m m' completed ok at h v whole done,
        )
    | inl at ↦
        let n = length (bytes_of b.piece_index) in
        let (completed, m', e, h, v, whole, done) =
          add_to_piece-HoldsCells (fresh n) b block (fresh-HoldsCells (bytes_of b.piece_index)) in
        (
          none,
          record c { pieces = stored c.pieces b.piece_index (some m') },
          unknown c b completed m' ok block at e,
          (
            record {
              same_infos = ok.same_infos;
              parts =
                  stored-All (λ j. HoldsCells cell (bytes_of j)) c.pieces b.piece_index (some m')
                    ok.parts
                    (λ m'' e'.
                      subst (HoldsCells cell (bytes_of b.piece_index)) (some-injective _ _ e') h);
            },
            (
              ap is_known (stored_self c.pieces b.piece_index (some m')),
              λ j.
                  ap (λ o. has_byte o j) (stored_self c.pieces b.piece_index (some m'))
                  ∙ v j
                  ∙ ap (λ o. has_byte o j || contains (bounds b) j) (sym at),
            ),
            stored_other c.pieces b.piece_index (some m'),
            (λ bytes e'. absurd (ground (arith, e'))),
            ((λ e'. absurd (ground (arith, e'))), λ f. absurd (ground (arith, f, at))),
          ),
        )
  ]
