-- ===== src/Pieces/Tiling.antt =====
-- The blocks that the iterator gives for a task, put side by side, are the task: no byte is left out
-- and none is asked for twice.
use native.Mathlib.Decide.{dec_lt}
use mathlib.Core.Option
use rustorrent.Common.{
  ℕ, zero, suc, ◌+◌, ◌-◌, ◌*◌, ◌^◌, min, ◌≤◌, ◌<◌, ◌≡◌, refl, ◌∙◌, Option, none, some, List, [],
  ◌∷◌, ◌++◌, arith,
}
use rustorrent.Pieces.{
  Pieces, PieceIndex, BlockIndex, BlockToDownload, IterTaskDownload, piece_task, pieces_range,
  block_range, item, finished, panicked, out_of_fuel, next, block_at,
}
use rustorrent.Pieces.Sizes.{IsCut, block_size_pos}
use rustorrent.Pieces.Steps.{
  size, at, size-bounds, next_of_range-inside, next_of_range-next, next_of_range-end,
  next_of_piece-inside, next_of_piece-end, next_of_blocks-inside, next_of_blocks-end,
}

-- What `iter.collect()` gives within so many calls of `next`; `none` if one of them panics, or the
-- calls or the rounds within one run out.
unfoldable pub collect : ℕ → ℕ → Pieces → IterTaskDownload → Option (List BlockToDownload)
collect zero rounds p it = none
collect (suc calls) rounds p it = elim (next rounds p it) [
  | item b it' ↦ Option.map (λ bs. b ∷ bs) (collect calls rounds p it')
  | finished it' ↦ some []
  | panicked ↦ none
  | out_of_fuel ↦ none
]

collect-item :
    (calls rounds : ℕ) (p : Pieces) (it it' : IterTaskDownload) (b : BlockToDownload)
    {bs : List BlockToDownload}
    → next rounds p it ≡ item b it'
    → collect calls rounds p it' ≡ some bs
    → collect (suc calls) rounds p it ≡ some (b ∷ bs)
unfolding collect
collect-item calls rounds p it it' b e h = rw (e, collect) (rw h)

collect-finished :
    (calls rounds : ℕ) (p : Pieces) (it it' : IterTaskDownload)
    → next rounds p it ≡ finished it'
    → collect (suc calls) rounds p it ≡ some []
unfolding collect
collect-finished calls rounds p it it' e = rw (e, collect)

-- `bs` are the blocks of a piece from `cur` to `stop`, in order, with nothing between them, each as
-- long as a block may be or as what is left.
abbrev pub Tiles : ℕ → PieceIndex → ℕ → ℕ → List BlockToDownload → Type 0
Tiles block_size piece cur stop [] = cur ≡ stop
Tiles block_size piece cur stop (b ∷ bs) =
    (b.piece ≡ piece)
    × (b.start ≡ cur)
    × (b.length ≡ min block_size (stop - cur))
    × (0 < b.length)
    × Tiles block_size piece (cur + b.length) stop bs

-- the blocks of `n` pieces from `piece` on, one after another
abbrev pub TilesPieces : Pieces → ℕ → PieceIndex → List BlockToDownload → Type 0
TilesPieces p zero piece bs = bs ≡ []
TilesPieces p (suc n) piece bs =
    (ys zs : List BlockToDownload) × (bs ≡ ys ++ zs)
    × Tiles p.block_size piece 0 (size p piece) ys
    × TilesPieces p n (piece + 1) zs

module _ {p : Pieces} (v : IsCut p) (rounds : ℕ) where
  pub collect-piece :
      (calls : ℕ) (piece : PieceIndex) (cur : BlockIndex)
      → piece < p.num_pieces
      → cur ≤ size p piece
      → size p piece - cur < calls
      → (bs : List BlockToDownload) × (collect calls rounds p (at (piece_task piece) piece cur)
          ≡ some bs)
        × Tiles p.block_size piece cur (size p piece) bs
  unfolding next
  collect-piece zero piece cur h k l = absurd (omega arith)
  collect-piece (suc calls) piece cur h k l = elim (dec_lt cur (size p piece)) [
    | yes inside ↦
        let n : ℕ = min p.block_size (size p piece - cur) in
        let pos : 0 < n = omega (arith, block_size_pos v) in
        let (bs, found, tiles) =
          collect-piece calls piece (cur + n) h (omega arith) (omega arith) in
        (
          block_at piece cur n ∷ bs,
          collect-item calls rounds p _ _ _ (next_of_piece-inside v _ piece piece cur h inside)
              found,
          (refl, refl, refl, pos, tiles),
        )
    | no outside ↦
        let done : cur ≡ size p piece = omega arith in
        (
          [],
          collect-finished calls rounds p _ (at (piece_task piece) piece cur)
              (rw done (next_of_piece-end v _ piece piece h)),
          done,
        )
  ]

  pub collect-blocks :
      (calls : ℕ) (piece : PieceIndex) (start end cur : BlockIndex)
      → piece < p.num_pieces
      → cur ≤ min end (size p piece)
      → min end (size p piece) - cur < calls
      → (bs : List BlockToDownload) × (collect calls rounds p
            (at (block_range piece start end) piece cur)
          ≡ some bs)
        × Tiles p.block_size piece cur (min end (size p piece)) bs
  unfolding next
  collect-blocks zero piece start end cur h k l = absurd (omega arith)
  collect-blocks (suc calls) piece start end cur h k l =
      elim (dec_lt cur (min end (size p piece))) [
        | yes inside ↦
            let n : ℕ = min p.block_size (min end (size p piece) - cur) in
            let pos : 0 < n = omega (arith, block_size_pos v) in
            let (bs, found, tiles) =
              collect-blocks calls piece start end (cur + n) h (omega arith) (omega arith) in
            (
              block_at piece cur n ∷ bs,
              collect-item calls rounds p _ _ _
                  (next_of_blocks-inside v _ piece piece cur end h inside) found,
              (refl, refl, refl, pos, tiles),
            )
        | no outside ↦
            let done : cur ≡ min end (size p piece) = omega arith in
            (
              [],
              collect-finished calls rounds p _ (at (block_range piece start end) piece cur)
                  (rw done (next_of_blocks-end v _ piece piece end h)),
              done,
            )
      ]

-- A range of `n` + 1 pieces from `piece` on, of which the iterator has given `cur` bytes.
module _ {p : Pieces} (v : IsCut p) (small : p.num_pieces < 2 ^ 32) (rounds : ℕ) where
  -- one more block of the piece in front of what the rest gives
  inside_step :
      (calls n : ℕ) (start end piece : PieceIndex) (cur : BlockIndex)
      → piece + n + 1 ≡ end
      → end ≤ p.num_pieces
      → cur < size p piece
      → ((ys zs : List BlockToDownload) × (collect calls
              (suc (suc rounds))
              p
              (at (pieces_range start end) piece (cur + min p.block_size (size p piece - cur)))
            ≡ some (ys ++ zs))
          × Tiles p.block_size piece (cur + min p.block_size (size p piece - cur)) (size p piece) ys
          × TilesPieces p n (piece + 1) zs)
      → (ys zs : List BlockToDownload) × (collect
            (suc calls)
            (suc (suc rounds))
            p
            (at (pieces_range start end) piece cur)
          ≡ some (ys ++ zs))
        × Tiles p.block_size piece cur (size p piece) ys
        × TilesPieces p n (piece + 1) zs
  unfolding next
  inside_step calls n start end piece cur e h inside (ys, zs, found, tiles, rest) = (
    block_at piece cur (min p.block_size (size p piece - cur)) ∷ ys,
    zs,
    collect-item calls (suc (suc rounds)) p _ _ _
        (next_of_range-inside v (suc rounds) _ end piece cur (omega arith) inside) found,
    (refl, refl, refl, omega (arith, block_size_pos v), tiles),
    rest,
  )

  pub collect-range :
      (calls n : ℕ) (start end piece : PieceIndex) (cur : BlockIndex)
      → piece + n + 1 ≡ end
      → end ≤ p.num_pieces
      → cur ≤ size p piece
      → size p piece - cur + n * p.piece_length < calls
      → (ys zs : List BlockToDownload) × (collect calls
            (suc (suc rounds))
            p
            (at (pieces_range start end) piece cur)
          ≡ some (ys ++ zs))
        × Tiles p.block_size piece cur (size p piece) ys
        × TilesPieces p n (piece + 1) zs
  unfolding next
  collect-range zero n start end piece cur e h k l = absurd (omega arith)
  collect-range (suc calls) zero start end piece cur e h k l = elim (dec_lt cur (size p piece)) [
    | yes inside ↦ inside_step calls zero start end piece cur e h inside (
        collect-range calls zero start end piece _ e h (omega arith)
          (omega (arith, block_size_pos v)))
    | no outside ↦
        let done : cur ≡ size p piece = omega arith in
        (
          [],
          [],
          collect-finished calls (suc (suc rounds)) p _ (at (pieces_range start end) piece cur)
              (rw done (next_of_range-end v (suc rounds) _ end piece (omega arith) h small)),
          done,
          refl,
        )
  ]
  collect-range (suc calls) (suc n) start end piece cur e h k l = elim (dec_lt cur (size p piece)) [
    | yes inside ↦ inside_step calls (suc n) start end piece cur e h inside (
        collect-range calls (suc n) start end piece _ e h (omega arith)
          (omega (arith, block_size_pos v)))
    | no outside ↦
        let done : cur ≡ size p piece = omega arith in
        let b : ℕ = min p.block_size (size p (piece + 1) - 0) in
        let pos : 0 < b = omega (arith, block_size_pos v, size-bounds v (piece + 1)) in
        let (ys, zs, found, tiles, rest) =
          collect-range calls n start end (piece + 1) (0 + b) (omega arith) h (omega arith)
            (omega (arith, size-bounds v (piece + 1))) in
        (
          [],
          block_at (piece + 1) 0 b ∷ (ys ++ zs),
          collect-item calls (suc (suc rounds)) p _ _ _
              (rw done (
                next_of_range-next v (suc rounds) _ end piece (omega arith) h small
                ∙ next_of_range-inside v rounds _ end (piece + 1) 0 (omega arith) (omega arith)))
              found,
          done,
          (block_at (piece + 1) 0 b ∷ ys, zs, refl, (refl, refl, refl, pos, tiles), rest),
        )
  ]
