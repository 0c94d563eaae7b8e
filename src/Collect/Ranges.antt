-- ===== src/Collect/Ranges.antt =====
-- Well-formed lists of ranges for src/piece_collector.rs: in order, none empty, no two that touch.
use Prim.Native.Nat.{Ordering}
use rustorrent.Common.{
  ℕ, suc, ◌≤◌, ◌<◌, ◌≡◌, refl, ◌⊎◌, Bool, true, false, ◌||◌, List, [], ◌∷◌, ◌++◌, All, arith,
}
use rustorrent.Collect.{Range, contains, cmp_block, cmp_ranges, cmp_at}
use rustorrent.Collect.Search.{LastIs}

abbrev pub IsRanges : ℕ → ℕ → List Range → Type 0
IsRanges lo hi [] = Unit
IsRanges lo hi (r ∷ rest) = (lo ≤ r.0) × (r.0 < r.1) × (r.1 ≤ hi) × IsRanges (suc r.1) hi rest

-- whether a byte is in one of the ranges
abbrev pub covered : List Range → ℕ → Bool
covered [] j = false
covered (r ∷ rest) j = contains r j || covered rest j

-- where a range behind these may start
abbrev pub next_lo : ℕ → List Range → ℕ
next_lo lo [] = lo
next_lo lo (r ∷ rest) = next_lo (suc r.1) rest

-- A block that a range has whole or not at all
abbrev pub IsClean : Range → Range → Type 0
IsClean range r = (r.1 ≤ range.0) ⊎ (range.1 ≤ r.0) ⊎ ((r.0 ≤ range.0) × (range.1 ≤ r.1))

pub IsRanges-append :
    (lo hi : ℕ) (xs ys : List Range)
    → IsRanges lo hi xs
    → IsRanges (next_lo lo xs) hi ys
    → IsRanges lo hi (xs ++ ys)
IsRanges-append lo hi [] ys h k = k
IsRanges-append lo hi (r ∷ xs) ys (a, b, c, h) k = (a, b, c, IsRanges-append (suc r.1) hi xs ys h k)

pub IsRanges-before :
    (lo hi : ℕ) (xs ys : List Range) → IsRanges lo hi (xs ++ ys) → IsRanges lo hi xs
IsRanges-before lo hi [] ys h = tt
IsRanges-before lo hi (r ∷ xs) ys (a, b, c, h) = (a, b, c, IsRanges-before (suc r.1) hi xs ys h)

pub IsRanges-after :
    (lo hi : ℕ) (xs ys : List Range) → IsRanges lo hi (xs ++ ys) → IsRanges (next_lo lo xs) hi ys
IsRanges-after lo hi [] ys h = h
IsRanges-after lo hi (r ∷ xs) ys (a, b, c, h) = IsRanges-after (suc r.1) hi xs ys h

pub IsRanges-raise :
    (lo lo' hi : ℕ) (xs : List Range)
    → All (λ r. lo' ≤ r.0) xs
    → IsRanges lo hi xs
    → IsRanges lo' hi xs
IsRanges-raise lo lo' hi [] g h = tt
IsRanges-raise lo lo' hi (r ∷ xs) g (a, b, c, h) = (g.0, b, c, h)

pub IsRanges-All : (lo hi : ℕ) (xs : List Range) → IsRanges lo hi xs → All (λ r. r.0 < r.1) xs
IsRanges-All lo hi [] h = tt
IsRanges-All lo hi (r ∷ xs) (a, b, c, h) = (b, IsRanges-All (suc r.1) hi xs h)

pub covered-append :
    (xs ys : List Range) (j : ℕ) → covered (xs ++ ys) j ≡ (covered xs j || covered ys j)
covered-append [] ys j = refl
covered-append (r ∷ xs) ys j = let e = covered-append xs ys j in ground (arith, e)

pub covered-below :
    (lo hi : ℕ) (xs : List Range) (j : ℕ) → IsRanges lo hi xs → j < lo → covered xs j ≡ false
covered-below lo hi [] j h l = refl
covered-below lo hi (r ∷ xs) j (a, b, c, h) l =
    let e = covered-below (suc r.1) hi xs j h (omega (arith, l, a, b)) in ground (arith, e, l, a, b)

pub next_lo-LastIs :
    (lo s : ℕ) (xs : List Range) → lo ≤ s → LastIs (λ r. r.1 < s) xs → next_lo lo xs ≤ s
next_lo-LastIs lo s [] l h = l
next_lo-LastIs lo s (r ∷ []) l h = omega (arith, h)
next_lo-LastIs lo s (r ∷ r' ∷ xs) l h = next_lo-LastIs s s (r' ∷ xs) (omega arith) h

pub LastIs-next_lo : (lo s : ℕ) (xs : List Range) → next_lo lo xs ≤ s → LastIs (λ r. r.1 < s) xs
LastIs-next_lo lo s [] h = tt
LastIs-next_lo lo s (r ∷ []) h = omega (arith, h)
LastIs-next_lo lo s (r ∷ r' ∷ xs) h = LastIs-next_lo (suc r.1) s (r' ∷ xs) h

pub LastIs-All :
    (P Q R : Range → Type 0) (xs : List Range)
    → ((r : Range) → P r → Q r → R r)
    → All P xs
    → LastIs Q xs
    → LastIs R xs
LastIs-All P Q R [] f h k = tt
LastIs-All P Q R (r ∷ []) f h k = f r h.0 k
LastIs-All P Q R (r ∷ r' ∷ xs) f h k = LastIs-All P Q R (r' ∷ xs) f h.1 k

-- the comparison of `insert`, for a block that is clean
pub cmp_block-less :
    (range r : Range)
    → range.0 < range.1
    → r.0 < r.1
    → IsClean range r
    → cmp_block range r ≡ Ordering.lt
    → r.1 < range.0
unfolding cmp_block cmp_ranges
cmp_block-less (s, e) (a, b) l n c h = ground (arith, l, n, c, h)

pub cmp_block-greater :
    (range r : Range)
    → range.0 < range.1
    → r.0 < r.1
    → IsClean range r
    → cmp_block range r ≡ Ordering.gt
    → range.1 < r.0
unfolding cmp_block cmp_ranges
cmp_block-greater (s, e) (a, b) l n c h = ground (arith, l, n, c, h)

pub cmp_block-equal :
    (range r : Range)
    → range.0 < range.1
    → r.0 < r.1
    → IsClean range r
    → cmp_block range r ≡ Ordering.eq
    → (r.1 ≡ range.0) ⊎ (r.0 ≡ range.1) ⊎ ((r.0 ≤ range.0) × (range.1 ≤ r.1))
unfolding cmp_block cmp_ranges
cmp_block-equal (s, e) (a, b) l n c h = ground (arith, l, n, c, h)

pub lo-le-next_lo : (lo hi : ℕ) (xs : List Range) → IsRanges lo hi xs → lo ≤ next_lo lo xs
lo-le-next_lo lo hi [] h = omega arith
lo-le-next_lo lo hi (r ∷ xs) (a, b, c, h) =
    let l = lo-le-next_lo (suc r.1) hi xs h in omega (arith, l, a, b)

pub covered-above :
    (lo hi : ℕ) (xs : List Range) (j : ℕ)
    → IsRanges lo hi xs
    → next_lo lo xs ≤ suc j
    → covered xs j ≡ false
covered-above lo hi [] j h l = refl
covered-above lo hi (r ∷ xs) j (a, b, c, h) l =
    let e = covered-above (suc r.1) hi xs j h l in
    let k = lo-le-next_lo (suc r.1) hi xs h in ground (arith, e, k, l)

-- the comparison of `next_empty_range`
pub cmp_at-less : (at : ℕ) (r : Range) → r.0 < r.1 → cmp_at at r ≡ Ordering.lt → r.1 ≤ at
unfolding cmp_at cmp_ranges
cmp_at-less at (a, b) n h = ground (arith, n, h)

pub cmp_at-greater : (at : ℕ) (r : Range) → r.0 < r.1 → cmp_at at r ≡ Ordering.gt → at < r.0
unfolding cmp_at cmp_ranges
cmp_at-greater at (a, b) n h = ground (arith, n, h)

pub cmp_at-equal :
    (at : ℕ) (r : Range) → r.0 < r.1 → cmp_at at r ≡ Ordering.eq → contains r at ≡ true
unfolding cmp_at cmp_ranges
cmp_at-equal at (a, b) n h = ground (arith, n, h)
