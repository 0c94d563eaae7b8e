-- ===== src/Collect/Arms.antt =====
-- The two arms of `PieceRanges::insert` of src/piece_collector.rs, between the ranges before and behind.

use rustorrent.Common.{
  ℕ, suc, ◌≤◌, ◌<◌, ◌≡◌, refl, ap, ◌⊎◌, Bool, true, false, Bool-cases, ◌||◌, inl, inr, List, [],
  ◌∷◌, ◌++◌, append_assoc, leb, ltb, ◌==◌, All, arith, min, max,
}
use rustorrent.Collect.{Range, contains, absorb, drop_inside, join_before, widen, place}
use rustorrent.Collect.Search.{LastIs, HeadIs}
use rustorrent.Collect.Ranges.{
  IsRanges, covered, next_lo, IsClean, IsRanges-append, IsRanges-All, covered-append,
  LastIs-next_lo, LastIs-All,
}

-- The ranges are well-formed, and have the bytes that they had and those of the block.
abbrev pub Inserted : ℕ → ℕ → List Range → Range → List Range → Type 0
Inserted lo hi xs range xs' =
    IsRanges lo hi xs' × ((j : ℕ) → covered xs' j ≡ (covered xs j || contains range j))

assoc : (x y z : Bool) → (x || (y || z)) ≡ ((x || y) || z)
assoc true y z = refl
assoc false y z = refl

swap : (x y : Bool) → (x || y) ≡ (y || x)
swap true true = refl
swap true false = refl
swap false true = refl
swap false false = refl

absorb-none :
    (end : ℕ) (current : Range) (xs : List Range)
    → HeadIs (λ r. end < r.0) xs
    → absorb end current xs ≡ (current, xs)
unfolding absorb
absorb-none end current [] h = refl
absorb-none end current (r ∷ xs) h = let e : leb r.0 end ≡ false = ground (arith, h) in rw e refl

drop_inside-none :
    (end lo hi : ℕ) (xs : List Range)
    → IsRanges lo hi xs
    → HeadIs (λ r. end < r.0) xs
    → drop_inside end xs ≡ xs
unfolding drop_inside
drop_inside-none end lo hi [] h k = refl
drop_inside-none end lo hi (r ∷ xs) (a, b, c, h) k =
    let e : ltb r.1 end ≡ false = ground (arith, b, k) in rw e refl

join_before-none :
    (xs : List Range) (start end : ℕ) (current : Range)
    → LastIs (λ r. r.1 < start) xs
    → join_before xs start end current ≡ xs ++ current ∷ []
unfolding join_before
join_before-none [] start end current h = refl
join_before-none (r ∷ []) start end current h =
    let e : (r.1 == start) ≡ false = ground (arith, h) in rw e refl
join_before-none (r ∷ r' ∷ xs) start end current h =
    ap (λ ys. r ∷ ys) (join_before-none (r' ∷ xs) start end current h)

-- a range between those before and those behind it
between-Inserted :
    (lo hi : ℕ) (before after : List Range) (range current : Range) (rest : List Range)
    → IsRanges lo hi before
    → next_lo lo before ≤ current.0
    → current.0 < current.1
    → current.1 ≤ hi
    → IsRanges (suc current.1) hi rest
    → ((j : ℕ) → (contains current j || covered rest j) ≡ (covered after j || contains range j))
    → Inserted lo hi (before ++ after) range (before ++ current ∷ rest)
between-Inserted lo hi before after range current rest h a b c k v = (
  IsRanges-append lo hi before (current ∷ rest) h (a, b, c, k),
  λ j.
      let e = v j in
      rw (covered-append before (current ∷ rest) j, covered-append before after j, e)
        (assoc (covered before j) (covered after j) (contains range j)),
)

pub place-Inserted :
    (lo hi : ℕ) (before after : List Range) (range : Range)
    → IsRanges lo hi before
    → IsRanges (next_lo lo before) hi after
    → next_lo lo before ≤ range.0
    → range.0 < range.1
    → range.1 ≤ hi
    → HeadIs (λ r. range.1 < r.0) after
    → Inserted lo hi (before ++ after) range (place before after range)
unfolding place
place-Inserted lo hi before after range h k a b c g =
    rw
      (drop_inside-none range.1 (next_lo lo before) hi after k g, absorb-none range.1 range after g)
      (between-Inserted lo hi before after range range after h a b c (higher after k g)
        (λ j. swap (contains range j) (covered after j)))
  where
    higher :
        (after : List Range)
        → IsRanges (next_lo lo before) hi after
        → HeadIs (λ r. range.1 < r.0) after
        → IsRanges (suc range.1) hi after
    higher [] k g = tt
    higher (r ∷ after) (x, y, z, k) g = (omega (arith, g), y, z, k)

lower-LastIs :
    (lo hi : ℕ) (r : Range) (xs : List Range) (s : ℕ)
    → IsRanges lo hi (r ∷ xs)
    → LastIs (λ r'. r'.1 ≤ s) (r ∷ xs)
    → lo ≤ s
lower-LastIs lo hi r [] s (x, y, z, h) k = omega (arith, x, y, k)
lower-LastIs lo hi r (r' ∷ xs) s (x, y, z, h) k =
    let l = lower-LastIs (suc r.1) hi r' xs s h k in omega (arith, l, x, y)

-- the join with the range before, of which `end` is the new end
join_before-IsRanges :
    (lo hi : ℕ) (xs : List Range) (current : Range) (rest : List Range)
    → IsRanges lo hi xs
    → LastIs (λ r. r.1 ≤ current.0) xs
    → lo ≤ current.0
    → current.0 < current.1
    → current.1 ≤ hi
    → IsRanges (suc current.1) hi rest
    → IsRanges lo hi (join_before xs current.0 current.1 current ++ rest)
      × ((j : ℕ)
          → covered (join_before xs current.0 current.1 current ++ rest) j
            ≡ (covered xs j || (contains current j || covered rest j)))
unfolding join_before
join_before-IsRanges lo hi [] current rest h k l a b g = ((l, a, b, g), λ j. refl)
join_before-IsRanges lo hi (r ∷ []) current rest (x, y, z, h) k l a b g =
    elim (Bool-cases (r.1 == current.0)) [
      | inl e ↦ rw e ((x, ground (arith, e, y, a), b, g), λ j. ground (arith, e, y, a))
      | inr e ↦ rw e (
        (x, y, z, (ground (arith, e, k), a, b, g)),
        λ j. assoc (contains r j) false (contains current j || covered rest j),
      )
    ]
join_before-IsRanges lo hi (r ∷ r' ∷ xs) current rest (x, y, z, h) k l a b g =
    let l' = lower-LastIs (suc r.1) hi r' xs current.0 h k in
    let (h', v) = join_before-IsRanges (suc r.1) hi (r' ∷ xs) current rest h k l' a b g in
    (
      (x, y, z, h'),
      λ j.
          rw (v j)
            (assoc (contains r j) (covered (r' ∷ xs) j) (contains current j || covered rest j)),
    )

pub All-after : (P : Range → Type 0) (xs ys : List Range) → All P (xs ++ ys) → All P ys
All-after P [] ys h = h
All-after P (x ∷ xs) ys h = All-after P xs ys h.1

pub All-before : (P : Range → Type 0) (xs ys : List Range) → All P (xs ++ ys) → All P xs
All-before P [] ys h = tt
All-before P (x ∷ xs) ys h = (h.0, All-before P xs ys h.1)

higher :
    (lo hi end : ℕ) (xs : List Range) → IsRanges lo hi xs → end < lo → HeadIs (λ r. end < r.0) xs
higher lo hi end [] h l = tt
higher lo hi end (r ∷ xs) h l = omega (arith, l, h.0)

-- without a join
widen-apart :
    (start end : ℕ) (before : List Range) (r : Range) (after : List Range) (range current : Range)
    (rest : List Range)
    → min r.0 range.0 ≡ start
    → max r.1 range.1 ≡ end
    → absorb end (start, end) after ≡ (current, rest)
    → LastIs (λ p. p.1 < start) before
    → widen before r after range ≡ before ++ current ∷ rest
unfolding widen
widen-apart start end before r after range current rest s e m l =
    rw
      (
        s,
        e,
        m,
        join_before-none before start end current l,
        append_assoc before (current ∷ []) rest,
      )
      refl

widen-joined :
    (before : List Range) (r : Range) (after : List Range) (range : Range)
    → min r.0 range.0 ≡ range.0
    → max r.1 range.1 ≡ r.1
    → absorb r.1 (range.0, r.1) after ≡ ((range.0, r.1), after)
    → widen before r after range ≡ join_before before range.0 r.1 (range.0, r.1) ++ after
unfolding widen
widen-joined before r after range s e m = rw (s, e, m) refl

either : (x u y z : Bool) → u ≡ (y || z) → (x || u) ≡ ((x || y) || z)
either x u y z e = rw e (assoc x y z)

-- The arm of a range that the block touches or that has the block
pub widen-Inserted :
    (lo hi : ℕ) (before : List Range) (r : Range) (after : List Range) (range : Range)
    → lo ≤ range.0
    → IsRanges lo hi before
    → IsRanges (next_lo lo before) hi (r ∷ after)
    → range.0 < range.1
    → range.1 ≤ hi
    → All (IsClean range) (before ++ r ∷ after)
    → (r.1 ≡ range.0) ⊎ (r.0 ≡ range.1) ⊎ ((r.0 ≤ range.0) × (range.1 ≤ r.1))
    → Inserted lo hi (before ++ r ∷ after) range (widen before r after range)
unfolding absorb
widen-Inserted lo hi before r [] range l h (x, y, z, k) a b c (inl e) =
    rw
      (widen-apart r.0 range.1 before r [] range (r.0, range.1) [] (omega (arith, e, a, y))
        (omega (arith, e, a)) refl (LastIs-next_lo lo r.0 before x))
      (between-Inserted lo hi before (r ∷ []) range (r.0, range.1) [] h x (omega (arith, e, a, y)) b
        tt (λ j. ground (arith, e, a, y)))
widen-Inserted lo hi before r (r' ∷ after) range l h (x, y, z, k) a b c (inl e) =
    let (_, (clean, _)) = All-after (IsClean range) before (r ∷ r' ∷ after) c in
    let (k0, k1, k2, k3) = k in
    elim (Bool-cases (leb r'.0 range.1)) [
      | inl t ↦
          let touch : r'.0 ≡ range.1 = ground (arith, t, clean, k0, k1, e, a) in
          let more : max range.1 r'.1 ≡ r'.1 = ground (arith, touch, k1) in
          let rest =
            absorb-none range.1 (r.0, r'.1) after
              (higher (suc r'.1) hi range.1 after k3 (ground (arith, touch, k1))) in
          rw
            (widen-apart r.0 range.1 before r (r' ∷ after) range (r.0, r'.1) after
              (omega (arith, e, a, y)) (omega (arith, e, a)) (rw (t, more) rest)
              (LastIs-next_lo lo r.0 before x))
            (between-Inserted lo hi before (r ∷ r' ∷ after) range (r.0, r'.1) after h x
              (omega (arith, y, k0, k1)) k2 k3 (λ j. ground (arith, e, touch, a, y, k0, k1)))
      | inr t ↦
          rw
            (widen-apart r.0 range.1 before r (r' ∷ after) range (r.0, range.1) (r' ∷ after)
              (omega (arith, e, a, y)) (omega (arith, e, a))
              (absorb-none range.1 (r.0, range.1) (r' ∷ after) (ground (arith, t)))
              (LastIs-next_lo lo r.0 before x))
            (between-Inserted lo hi before (r ∷ r' ∷ after) range (r.0, range.1) (r' ∷ after) h x
              (omega (arith, e, a, y)) b (ground (arith, t), k1, k2, k3)
              (λ j. ground (arith, e, a, y)))
    ]
widen-Inserted lo hi before r after range l h (x, y, z, k) a b c (inr (inl e)) =
    let before_clean = All-before (IsClean range) before (r ∷ after) c in
    let full = IsRanges-All lo hi before h in
    let last =
      LastIs-All (λ p. p.0 < p.1) (λ p. p.1 < r.0) (λ p. (p.0 < p.1) × (p.1 < r.0)) before
        (λ p g g'. (g, g')) full (LastIs-next_lo lo r.0 before x) in
    let last' =
      LastIs-All (IsClean range) (λ p. (p.0 < p.1) × (p.1 < r.0)) (λ p. p.1 ≤ range.0) before
        (λ p g g'. ground (arith, g, g', e)) before_clean last in
    let (h', v) =
      join_before-IsRanges lo hi before (range.0, r.1) after h last' l (omega (arith, a, e, y)) z
        k in
    rw
      (widen-joined before r after range (omega (arith, e, a)) (omega (arith, e, y))
        (absorb-none r.1 (range.0, r.1) after (higher (suc r.1) hi r.1 after k (omega arith))))
      (
        h',
        λ j.
            rw (v j, covered-append before (r ∷ after) j)
              (either (covered before j) (contains (range.0, r.1) j || covered after j)
                (covered (r ∷ after) j) (contains range j) (ground (arith, e, a, y))),
      )
widen-Inserted lo hi before r after range l h (x, y, z, k) a b c (inr (inr (e, e'))) =
    rw
      (widen-apart r.0 r.1 before r after range r after (omega (arith, e)) (omega (arith, e'))
        (absorb-none r.1 r after (higher (suc r.1) hi r.1 after k (omega arith)))
        (LastIs-next_lo lo r.0 before x))
      (between-Inserted lo hi before (r ∷ after) range r after h x y z k
        (λ j. ground (arith, e, e', a)))
