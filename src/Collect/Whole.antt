-- ===== src/Collect/Whole.antt =====
-- `PieceRanges::is_completed` of src/piece_collector.rs: every byte of the piece is in.
use rustorrent.Common.{ℕ, suc, ◌-◌, ◌<◌, ◌≡◌, ◌↔◌, true, List, [], ◌∷◌, arith}
use rustorrent.Collect.{Range, PieceRanges, is_whole, is_completed}
use rustorrent.Collect.Ranges.{IsRanges, covered, covered-below}

whole-covered :
    (n : ℕ) (xs : List Range) → is_whole n xs ≡ true → (j : ℕ) → j < n → covered xs j ≡ true
whole-covered n [] h j l = absurd (ground (arith, h))
whole-covered n (r ∷ []) h j l = ground (arith, h, l)
whole-covered n (r ∷ r' ∷ xs) h j l = absurd (ground (arith, h))

covered-whole :
    (n : ℕ) (xs : List Range)
    → 0 < n
    → IsRanges 0 n xs
    → ((j : ℕ) → j < n → covered xs j ≡ true)
    → is_whole n xs ≡ true
covered-whole n [] p h c = absurd (let e = c 0 p in ground (arith, e))
covered-whole n (r ∷ []) p (x, y, z, k) c =
    let first = c 0 p in
    let last = c (n - 1) (omega (arith, p)) in ground (arith, first, last, p, x, y, z)
covered-whole n (r ∷ r' ∷ xs) p (x, y, z, (x', y', z', k)) c =
    let gap = c r.1 (omega (arith, x', y', z')) in
    let none_behind = covered-below (suc r.1) n (r' ∷ xs) r.1 (x', y', z', k) (omega arith) in
    absurd (ground (arith, gap, none_behind, y))

-- With well-formed ranges of a piece that is not empty, `is_completed` says whether every byte of the
-- piece is in one of them.
pub is_completed-covered :
    (p : PieceRanges)
    → 0 < p.piece_length
    → IsRanges 0 p.piece_length p.ranges
    → (is_completed p ≡ true) ↔ ((j : ℕ) → j < p.piece_length → covered p.ranges j ≡ true)
unfolding is_completed
is_completed-covered p pos h =
    (whole-covered p.piece_length p.ranges, covered-whole p.piece_length p.ranges pos h)
