-- ===== src/Collect/Cells.antt =====
-- Blocks of a piece that is cut into cells, in any order and more than once, for
-- `PieceMetadata::add_block` of src/piece_collector.rs.
use rustorrent.Common.{
  ℕ, suc, ◌-◌, ◌≤◌, ◌<◌, ◌≡◌, refl, sym, ◌∙◌, inl, inr, true, false, Bool-cases, ◌||◌, List, [],
  ◌∷◌, leb, ◌==◌, All, arith,
}
use rustorrent.Collect.{Range, contains}
use rustorrent.Collect.Ranges.{IsRanges, IsClean, covered, covered-below}

-- A range has the bytes of one cell of the piece.
abbrev pub IsCell : (ℕ → ℕ) → ℕ → Range → Type 0
IsCell cell n range = (t : ℕ) × ((j : ℕ) → j < n → contains range j ≡ (cell j == t))

-- Every cell is in whole or not at all.
abbrev pub IsUniform : (ℕ → ℕ) → ℕ → List Range → Type 0
IsUniform cell n xs = (i j : ℕ) → i < n → j < n → cell i ≡ cell j → covered xs i ≡ covered xs j

-- bytes of one cell, if they are in a range that has the bytes of one cell
same_cell :
    (cell : ℕ → ℕ) (n : ℕ) (range : Range) (i j : ℕ)
    → IsCell cell n range
    → i < n
    → j < n
    → contains range i ≡ true
    → contains range j ≡ true
    → cell i ≡ cell j
same_cell cell n range i j (t, h) a b e e' =
    let x = h i a in let y = h j b in ground (arith, x, y, e, e')

covered-IsClean :
    (cell : ℕ → ℕ) (n : ℕ) (range r : Range) (xs : List Range)
    → IsCell cell n range
    → IsUniform cell n xs
    → range.1 ≤ n
    → r.0 < r.1
    → r.1 ≤ n
    → ((j : ℕ) → contains r j ≡ true → covered xs j ≡ true)
    → ((j : ℕ) → suc j ≡ r.0 → covered xs j ≡ false)
    → covered xs r.1 ≡ false
    → IsClean range r
covered-IsClean cell n range r xs c u a full b within before behind =
    elim (Bool-cases (leb r.1 range.0)) [
      | inl e ↦ inl (ground (arith, e))
      | inr e ↦ elim (Bool-cases (leb range.1 r.0)) [
        | inl e' ↦ inr (inl (ground (arith, e')))
        | inr e' ↦ inr (inr (left e e', right e e'))
      ]
    ]
  where
    left : leb r.1 range.0 ≡ false → leb range.1 r.0 ≡ false → r.0 ≤ range.0
    left e e' = elim (Bool-cases (leb r.0 range.0)) [
      | inl l ↦ ground (arith, l)
      | inr l ↦
          let k : ℕ = r.0 - 1 in
          let k_in : contains range k ≡ true = ground (arith, l, e') in
          let r_in : contains range r.0 ≡ true = ground (arith, l, e') in
          let s =
            same_cell cell n range k r.0 c (omega (arith, full, b)) (omega (arith, full, b)) k_in
              r_in in
          let v = u k r.0 (omega (arith, full, b)) (omega (arith, full, b)) s in
          let w = before k (ground (arith, l)) in
          let w' = within r.0 (ground (arith, full)) in absurd (ground (arith, v, w, w'))
    ]

    right : leb r.1 range.0 ≡ false → leb range.1 r.0 ≡ false → range.1 ≤ r.1
    right e e' = elim (Bool-cases (leb range.1 r.1)) [
      | inl l ↦ ground (arith, l)
      | inr l ↦
          let k : ℕ = r.1 - 1 in
          let k_in : contains range k ≡ true = ground (arith, l, e, e', full) in
          let r_in : contains range r.1 ≡ true = ground (arith, l, e) in
          let s =
            same_cell cell n range k r.1 c (omega (arith, full, b)) (ground (arith, l, a)) k_in
              r_in in
          let v = u k r.1 (omega (arith, full, b)) (ground (arith, l, a)) s in
          let w' = within k (ground (arith, full)) in absurd (ground (arith, v, behind, w'))
    ]

-- the ranges one by one, with those before as a test
IsClean-All :
    (cell : ℕ → ℕ) (n lo : ℕ) (range : Range) (xs ys : List Range)
    → IsCell cell n range
    → IsUniform cell n xs
    → range.1 ≤ n
    → IsRanges lo n ys
    → ((j : ℕ) → lo ≤ suc j → covered xs j ≡ covered ys j)
    → All (IsClean range) ys
IsClean-All cell n lo range xs [] c u a h s = tt
IsClean-All cell n lo range xs (r ∷ ys) c u a (x, y, z, h) s = (
  covered-IsClean cell n range r xs c u a y z
      (λ j e. let v = s j (ground (arith, e, x)) in ground (arith, e, v))
      (λ j e.
        let v = s j (omega (arith, e, x)) in
        let w = covered-below (suc r.1) n ys j h (omega (arith, e, y)) in ground (arith, e, v, w))
      (let v = s r.1 (omega (arith, x, y)) in
        let w = covered-below (suc r.1) n ys r.1 h (omega arith) in ground (arith, v, w)),
  IsClean-All cell n (suc r.1) range xs ys c u a h
      (λ j e. let v = s j (omega (arith, e, x, y)) in ground (arith, v, e)),
)

pub cells-IsClean :
    (cell : ℕ → ℕ) (n : ℕ) (range : Range) (xs : List Range)
    → IsCell cell n range
    → IsUniform cell n xs
    → range.1 ≤ n
    → IsRanges 0 n xs
    → All (IsClean range) xs
cells-IsClean cell n range xs c u a h = IsClean-All cell n 0 range xs xs c u a h (λ j e. refl)

pub IsUniform-more :
    (cell : ℕ → ℕ) (n : ℕ) (range : Range) (xs xs' : List Range)
    → IsCell cell n range
    → IsUniform cell n xs
    → ((j : ℕ) → covered xs' j ≡ (covered xs j || contains range j))
    → IsUniform cell n xs'
IsUniform-more cell n range xs xs' (t, c) u v i j a b e =
    let x = c i a in let y = c j b in let w = u i j a b e in v i ∙ rw (x, y, w, e) refl ∙ sym (v j)
