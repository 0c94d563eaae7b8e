-- ===== src/Collect/Gaps.antt =====
-- `PieceRanges::next_empty_range` of src/piece_collector.rs, from the start of the piece or of a range.

use rustorrent.Common.{
  ℕ, zero, suc, ◌+◌, ◌≤◌, ◌<◌, ◌≡◌, refl, ap, ◌∙◌, ◌⊎◌, inl, inr, true, false, Bool-cases, ◌||◌,
  Option, none, some, List, [], ◌∷◌, ◌++◌, ◌==◌, if◌then◌else◌, get_elem?, drop, arith,
}
use rustorrent.Collect.{Range, PieceRanges, contains, behind}
use rustorrent.Collect.Ranges.{
  IsRanges, covered, next_lo, covered-append, covered-below, covered-above,
}

-- What is missing next, from `at` on: nothing, or a range behind bytes that are in, up to one that is
-- in or the end
abbrev pub Missing : ℕ → List Range → ℕ → Option Range → Type 0
Missing n xs at none = (j : ℕ) → at ≤ j → j < n → covered xs j ≡ true
Missing n xs at (some (start, end)) =
    (at ≤ start)
    × (at < end)
    × (end ≤ n)
    × ((j : ℕ) → at ≤ j → j < start → covered xs j ≡ true)
    × ((j : ℕ) → start ≤ j → j < end → covered xs j ≡ false)
    × ((end ≡ n) ⊎ (covered xs end ≡ true))

get_elem?-drop : (xs : List Range) (i : ℕ) → get_elem? xs i ≡ get_elem? (drop i xs) 0
get_elem?-drop [] zero = refl
get_elem?-drop [] (suc i) = refl
get_elem?-drop (x ∷ xs) zero = refl
get_elem?-drop (x ∷ xs) (suc i) = get_elem?-drop xs i

-- behind a range that has the byte
pub behind_range : ℕ → Range → List Range → Option Range
behind_range n r [] = if r.1 == n then none else some (r.1, n)
behind_range n r (next ∷ rest) = some (r.1, next.0)

pub behind-eq :
    (p : PieceRanges) (i : ℕ) (r : Range)
    → get_elem? p.ranges i ≡ some r
    → behind p i ≡ some (behind_range p.piece_length r (drop (suc i) p.ranges))
unfolding behind_range
behind-eq p i r e =
    let s : i + 1 ≡ suc i = omega arith in
    let f : get_elem? p.ranges (i + 1) ≡ get_elem? (drop (suc i) p.ranges) 0 =
      ap (get_elem? p.ranges) s ∙ get_elem?-drop p.ranges (suc i) in
    rw (e, f) (ap some (next (drop (suc i) p.ranges)))
  where
    next :
        (after : List Range)
        → (elim (get_elem? after 0) [
          | some next ↦ some (r.1, next.0)
          | none ↦ if r.1 == p.piece_length then none else some (r.1, p.piece_length)
        ])
          ≡ behind_range p.piece_length r after
    next [] = refl
    next (h ∷ after) = refl

covered_behind :
    (n : ℕ) (before : List Range) (r : Range) (after : List Range) (j : ℕ)
    → IsRanges 0 n before
    → IsRanges (next_lo 0 before) n (r ∷ after)
    → r.0 ≤ j
    → covered (before ++ r ∷ after) j ≡ (contains r j || covered after j)
covered_behind n before r after j h (x, y, z, k) l =
    rw (covered-append before (r ∷ after) j, covered-above 0 n before j h (omega (arith, x, l)))
      refl

pub behind_range-Missing :
    (n : ℕ) (before : List Range) (r : Range) (after : List Range) (at : ℕ)
    → IsRanges 0 n before
    → IsRanges (next_lo 0 before) n (r ∷ after)
    → contains r at ≡ true
    → at < n
    → Missing n (before ++ r ∷ after) at (behind_range n r after)
unfolding behind_range
behind_range-Missing n before r [] at h k c l =
    let (x, y, z, t) = k in
    let start : r.0 ≤ at = ground (arith, c) in
    let end : at < r.1 = ground (arith, c) in
    elim (Bool-cases (r.1 == n)) [
      | inl e ↦ rw e (λ j a b.
          covered_behind n before r [] j h k (omega (arith, a, start))
          ∙ ground (arith, e, a, b, start))
      | inr e ↦ rw e (
        omega (arith, end),
        l,
        omega arith,
        (λ j a b.
            covered_behind n before r [] j h k (omega (arith, a, start))
            ∙ ground (arith, a, b, start)),
        (λ j a b.
            covered_behind n before r [] j h k (omega (arith, a, start, end))
            ∙ ground (arith, a, b, start)),
        inl refl,
      )
    ]
behind_range-Missing n before r (next ∷ after) at h k c l =
    let (x, y, z, (x', y', z', t)) = k in
    let start : r.0 ≤ at = ground (arith, c) in
    let end : at < r.1 = ground (arith, c) in
    (
      omega (arith, end),
      omega (arith, end, x'),
      omega (arith, y', z'),
      (λ j a b.
          covered_behind n before r (next ∷ after) j h k (omega (arith, a, start))
          ∙ ground (arith, a, b, start)),
      (λ j a b.
          let e = covered-below next.0 n (next ∷ after) j (omega arith, y', z', t) b in
          covered_behind n before r (next ∷ after) j h k (omega (arith, a, start, end))
          ∙ ground (arith, a, b, e)),
      inr (
          covered_behind n before r (next ∷ after) next.0 h k (omega (arith, x', y))
          ∙ ground (arith, y')),
    )
