-- ===== src/Collect/Missing.antt =====
-- `PieceRanges::next_empty_range` and `IterEmptyRanges` of src/piece_collector.rs: what is missing of a
-- piece.
use Prim.Native.Nat.{Ordering}
use rustorrent.Common.{
  ℕ, zero, suc, ◌+◌, ◌<◌, ◌≡◌, refl, sym, ap, ◌∙◌, ◌⊎◌, inl, inr, true, false, Bool-cases, ◌&&◌,
  not, Option, none, some, some-injective, List, [], ◌∷◌, ◌++◌, leb, ltb, get_elem?, take, drop,
  take-append-drop, All, arith,
}
use mathlib.Core.Path.{subst}
use rustorrent.Collect.{
  Range, PieceRanges, Found, ok_at, err_at, binary_search_by, cmp_at, before_first, empty_range_at,
  next_empty_range,
}
use rustorrent.Collect.Search.{
  HeadIs, IsFound, binary_search_by-IsFound, take-LastIs, drop-HeadIs, take-drop_at, get_elem?-some,
}
use rustorrent.Collect.Ranges.{
  IsRanges, covered, next_lo, IsRanges-before, IsRanges-after, IsRanges-All, covered-append,
  covered-below, covered-above, next_lo-LastIs, LastIs-All, cmp_at-less, cmp_at-greater,
  cmp_at-equal,
}
use rustorrent.Collect.Gaps.{Missing, behind_range, behind-eq, behind_range-Missing}
use rustorrent.Collect.Metadata.{PieceMetadata, IterEmptyRanges, next_empty, collect}

head-covered :
    (lo n at : ℕ) (xs : List Range)
    → IsRanges lo n xs
    → HeadIs (λ r. cmp_at at r ≡ Ordering.gt) xs
    → covered xs at ≡ false
head-covered lo n at [] h k = refl
head-covered lo n at (r ∷ xs) (x, y, z, h) k =
    let l = cmp_at-greater at r y k in covered-below r.0 n (r ∷ xs) at (omega arith, y, z, h) l

-- Where nothing is found, the byte is not in.
err-covered :
    (xs : List Range) (n at i : ℕ)
    → IsFound (cmp_at at) xs (err_at i)
    → IsRanges 0 n xs
    → covered xs at ≡ false
err-covered xs n at i (l, less, greater) h =
    let e = take-append-drop i xs in
    let before = take i xs in
    let after = drop i xs in
    let h' : IsRanges 0 n (before ++ after) = subst (λ ys. IsRanges 0 n ys) (sym e) h in
    let hb = IsRanges-before 0 n before after h' in
    let ha = IsRanges-after 0 n before after h' in
    let last =
      LastIs-All (λ r. r.0 < r.1) (λ r. cmp_at at r ≡ Ordering.lt) (λ r. r.1 < suc at) before
        (λ r g g'. let k = cmp_at-less at r g g' in omega (arith, k)) (IsRanges-All 0 n before hb)
        (take-LastIs (λ r. cmp_at at r ≡ Ordering.lt) xs i l less) in
    let above =
      covered-above 0 n before at hb (next_lo-LastIs 0 (suc at) before (omega arith) last) in
    let below =
      head-covered (next_lo 0 before) n at after ha
        (drop-HeadIs (λ r. cmp_at at r ≡ Ordering.gt) xs i greater) in
    ap (λ ys. covered ys at) (sym e) ∙ rw (covered-append before after at, above, below) refl

-- the first range that is missing
before_first-Missing :
    (n : ℕ) (xs : List Range)
    → IsRanges 0 n xs
    → 0 < n
    → covered xs 0 ≡ false
    → (o : Option Range) × (before_first (record { piece_length = n; ranges = xs }) ≡ some o)
      × Missing n xs 0 o
before_first-Missing n [] h l c = (
  some (0, n),
  refl,
  (omega arith, l, omega arith, (λ j a b. absurd (omega (arith, b))), (λ j a b. refl), inl refl),
)
before_first-Missing n (r ∷ rest) (x, y, z, h) l c = (
  some (0, r.0),
  refl,
  (
    omega arith,
    ground (arith, c, y),
    omega (arith, y, z),
    (λ j a b. absurd (omega (arith, b))),
    (λ j a b. covered-below r.0 n (r ∷ rest) j (omega arith, y, z, h) b),
    inr (ground (arith, y)),
  ),
)

found-Missing :
    (p : PieceRanges) (at : ℕ) (f : Found)
    → IsFound (cmp_at at) p.ranges f
    → IsRanges 0 p.piece_length p.ranges
    → at < p.piece_length
    → (at ≡ 0) ⊎ (covered p.ranges at ≡ true)
    → (o : Option Range) × (empty_range_at p f ≡ some o) × Missing p.piece_length p.ranges at o
found-Missing p at (ok_at i) (r, e, c) h l start =
    let t = take-drop_at p.ranges i r e in
    let before = take i p.ranges in
    let after = drop (suc i) p.ranges in
    let h' : IsRanges 0 p.piece_length (before ++ r ∷ after) =
      subst (λ ys. IsRanges 0 p.piece_length ys) (sym t) h in
    let k = IsRanges-after 0 p.piece_length before (r ∷ after) h' in
    let (_, full, _, _) = k in
    let o = behind_range p.piece_length r after in
    (
      o,
      behind-eq p i r e,
      subst (λ ys. Missing p.piece_length ys at o) t
          (behind_range-Missing p.piece_length before r after at
            (IsRanges-before 0 p.piece_length before (r ∷ after) h') k (cmp_at-equal at r full c)
            l),
    )
found-Missing p at (err_at i) found h l (inr c) =
    let no = err-covered p.ranges p.piece_length at i found h in absurd (ground (arith, no, c))
found-Missing p at (err_at zero) found h l (inl z) =
    let no : covered p.ranges 0 ≡ false =
      ap (covered p.ranges) (sym z) ∙ err-covered p.ranges p.piece_length at 0 found h in
    let (o, e, m) = before_first-Missing p.piece_length p.ranges h (omega (arith, l)) no in
    (o, e, subst (λ a. Missing p.piece_length p.ranges a o) (sym z) m)
found-Missing p at (err_at (suc i)) (l', less, greater) h l (inl z) =
    let (r, e) = get_elem?-some p.ranges i (omega (arith, l')) in
    let full = get-All p.ranges i r (IsRanges-All 0 p.piece_length p.ranges h) e in
    let k = cmp_at-less at r full (less i r refl e) in absurd (omega (arith, k, full, z))
  where
    get-All :
        (xs : List Range) (i : ℕ) (r : Range)
        → All (λ r. r.0 < r.1) xs
        → get_elem? xs i ≡ some r
        → r.0 < r.1
    get-All [] i r h e = absurd (ground (arith, e))
    get-All (x ∷ xs) zero r h e = subst (λ y. y.0 < y.1) (some-injective _ _ e) h.0
    get-All (x ∷ xs) (suc i) r h e = get-All xs i r h.1 e

-- In well-formed ranges, from the start of the piece or a byte that is in, `next_empty_range` does not
-- panic, and gives what is missing next.
pub next_empty_range-Missing :
    (p : PieceRanges) (at : ℕ)
    → IsRanges 0 p.piece_length p.ranges
    → (at ≡ 0) ⊎ (at ≡ p.piece_length) ⊎ (covered p.ranges at ≡ true)
    → (o : Option Range) × (next_empty_range p at ≡ some o) × Missing p.piece_length p.ranges at o
unfolding next_empty_range
next_empty_range-Missing p at h start = elim (Bool-cases (leb p.piece_length at)) [
  | inl e ↦ (none, rw e refl, λ j a b. absurd (ground (arith, e, a, b)))
  | inr e ↦
      let (o, e', m) =
        found-Missing p at (binary_search_by (cmp_at at) p.ranges)
          (binary_search_by-IsFound (cmp_at at) p.ranges) h (ground (arith, e))
          (ground (arith, e, start)) in
      (o, rw (e, e') refl, m)
]

covered-inside :
    (lo hi : ℕ) (xs : List Range) (j : ℕ) → IsRanges lo hi xs → covered xs j ≡ true → j < hi
covered-inside lo hi [] j h e = absurd (ground (arith, e))
covered-inside lo hi (r ∷ xs) j (a, b, c, h) e = elim (Bool-cases (covered xs j)) [
  | inl later ↦ covered-inside (suc r.1) hi xs j h later
  | inr later ↦ ground (arith, e, later, c)
]

-- the iterator on a piece with metadata
abbrev pub iter_at : PieceMetadata → ℕ → IterEmptyRanges
iter_at m at = record {
  start_at = at;
  piece_length = m.blocks_completed.piece_length;
  piece_metadata = some m;
}

pub collect_from :
    (rounds : ℕ) (m : PieceMetadata) (at : ℕ)
    → (n : ℕ) → n ≡ m.blocks_completed.piece_length
    → n < at + rounds
    → IsRanges 0 n m.blocks_completed.ranges
    → (at ≡ 0) ⊎ (at ≡ n) ⊎ (covered m.blocks_completed.ranges at ≡ true)
    → (gaps : List Range) × (collect rounds (iter_at m at) ≡ some gaps)
      × ((j : ℕ) → j < n → covered gaps j ≡ (leb at j && not (covered m.blocks_completed.ranges j)))
unfolding collect next_empty
collect_from zero m at n s l h (inl z) = absurd (omega (arith, l, z))
collect_from zero m at n s l h (inr (inl z)) = absurd (omega (arith, l, z))
collect_from zero m at n s l h (inr (inr c)) =
    let b = covered-inside 0 n m.blocks_completed.ranges at h c in absurd (omega (arith, l, b))
collect_from (suc rounds) m at n s l h start =
    let p = m.blocks_completed in
    let (o, e, missing) = next_empty_range-Missing p at (rw (sym s) h) (rw (sym s) start) in
    go o e (rw s missing) (λ at' l' start'. collect_from rounds m at' n s l' h start')
  where
    Rest : ℕ → ℕ → Type 0
    Rest k at =
        (gaps : List Range) × (collect k (iter_at m at) ≡ some gaps)
        × ((j : ℕ)
            → j < n
            → covered gaps j ≡ (leb at j && not (covered m.blocks_completed.ranges j)))

    go :
        (o : Option Range)
        → next_empty_range m.blocks_completed at ≡ some o
        → Missing n m.blocks_completed.ranges at o
        → ((at' : ℕ)
            → n < at' + rounds
            → (at' ≡ 0) ⊎ (at' ≡ n) ⊎ (covered m.blocks_completed.ranges at' ≡ true)
            → Rest rounds at')
        → Rest (suc rounds) at
    go none e missing rec = (
      [],
      rw e refl,
      λ j a. elim (Bool-cases (leb at j)) [
        | inl b ↦ let c = missing j (ground (arith, b)) a in rw (b, c) refl
        | inr b ↦ rw b refl
      ],
    )
    go (some r) e (a, b, c, before, gap, end) rec =
        let (gaps, e', v) = rec r.1 (omega (arith, l, b)) (inr end) in
        (
          r ∷ gaps,
          rw (e, e') refl,
          λ j k.
              let w = v j k in
              elim (Bool-cases (ltb j r.0)) [
                | inl d ↦ elim (Bool-cases (leb at j)) [
                  | inl f ↦
                      let x = before j (ground (arith, f)) (ground (arith, d)) in
                      ground (arith, w, x, d, f, a, b)
                  | inr f ↦ ground (arith, w, d, f, a, b)
                ]
                | inr d ↦ elim (Bool-cases (ltb j r.1)) [
                  | inl f ↦
                      let x = gap j (ground (arith, d)) (ground (arith, f)) in
                      ground (arith, w, x, d, f, a, b)
                  | inr f ↦ ground (arith, w, d, f, a, b)
                ]
              ],
        )
