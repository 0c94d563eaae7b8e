-- ===== src/Collect/Search.antt =====
-- `binary_search_by` of src/piece_collector.rs, for any comparison: what it finds compares as equal, and
-- where it finds nothing the element before compares as less and the one behind as greater.
use Prim.Native.Nat.{Ordering}
use rustorrent.Common.{
  ℕ, zero, suc, ◌+◌, ◌-◌, ◌/◌, ◌≤◌, ◌<◌, ◌≡◌, refl, sym, ap, ◌∙◌, get_elem?-eq-none, true,
  Bool-cases, inl, inr, some, some-injective, List, [], ◌∷◌, ◌++◌, ltb, length, get_elem?, take,
  drop, arith, ◌⊎◌, ltb→lt,
}
use rustorrent.Collect.{Range, Found, ok_at, err_at, search, binary_search_by}

abbrev pub IsFound : (Range → Ordering) → List Range → Found → Type 0
IsFound cmp xs (ok_at i) = (r : Range) × (get_elem? xs i ≡ some r) × (cmp r ≡ Ordering.eq)
IsFound cmp xs (err_at i) =
    (i ≤ length xs)
    × ((k : ℕ) (r : Range) → suc k ≡ i → get_elem? xs k ≡ some r → cmp r ≡ Ordering.lt)
    × ((r : Range) → get_elem? xs i ≡ some r → cmp r ≡ Ordering.gt)

Ordering-cases : (o : Ordering) → (o ≡ Ordering.lt) ⊎ (o ≡ Ordering.gt) ⊎ (o ≡ Ordering.eq)
Ordering-cases Ordering.lt = inl refl
Ordering-cases Ordering.gt = inr (inl refl)
Ordering-cases Ordering.eq = inr (inr refl)

pub get_elem?-some :
    (xs : List Range) (i : ℕ) → i < length xs → (r : Range) × (get_elem? xs i ≡ some r)
get_elem?-some [] i h = absurd (omega (arith, h))
get_elem?-some (x ∷ xs) zero h = (x, refl)
get_elem?-some (x ∷ xs) (suc i) h = get_elem?-some xs i (omega (arith, h))

search-step :
    (cmp : Range → Ordering) (xs : List Range) (n left right : ℕ) (r : Range)
    → ltb left right ≡ true
    → get_elem? xs (left + (right - left) / 2) ≡ some r
    → search cmp xs (suc n) left right ≡ elim (cmp r) [
      | Ordering.lt ↦ search cmp xs n (left + (right - left) / 2 + 1) right
      | Ordering.gt ↦ search cmp xs n left (left + (right - left) / 2)
      | Ordering.eq ↦ ok_at (left + (right - left) / 2)
    ]
unfolding search
search-step cmp xs n left right r e at = rw (search, e, at) refl

search-IsFound :
    (cmp : Range → Ordering) (xs : List Range) (n left right : ℕ)
    → right ≤ left + n
    → left ≤ right
    → right ≤ length xs
    → ((k : ℕ) (r : Range) → suc k ≡ left → get_elem? xs k ≡ some r → cmp r ≡ Ordering.lt)
    → ((r : Range) → get_elem? xs right ≡ some r → cmp r ≡ Ordering.gt)
    → IsFound cmp xs (search cmp xs n left right)
unfolding search
search-IsFound cmp xs zero left right fuel ordered inside less greater =
    let e : left ≡ right = omega (arith, fuel, ordered) in
    (omega (arith, ordered, inside), less, λ r h. greater r (rw (sym e) h))
search-IsFound cmp xs (suc n) left right fuel ordered inside less greater =
    elim (Bool-cases (ltb left right)) [
      | inr e ↦
          let e' : left ≡ right = ground (arith, ordered, e) in
          rw (IsFound, search, e)
            (omega (arith, ordered, inside), less, λ r h. greater r (rw (sym e') h))
      | inl e ↦
          let h = ltb→lt left right e in
          let mid : ℕ = left + (right - left) / 2 in
          let (r, at) = get_elem?-some xs mid (omega (arith, h, inside)) in
          elim (Ordering-cases (cmp r)) [
            | inl c ↦
                rw (IsFound, search-step cmp xs n left right r e at, c)
                  (search-IsFound cmp xs n (mid + 1) right (omega (arith, fuel, h))
                    (omega (arith, h)) inside
                    (λ k r' s at'.
                      ap cmp
                        (some-injective _ _ (sym at' ∙ ap (get_elem? xs) (omega (arith, s)) ∙ at))
                      ∙ c)
                    greater)
            | inr (inl c) ↦
                rw (IsFound, search-step cmp xs n left right r e at, c)
                  (search-IsFound cmp xs n left mid (omega (arith, fuel, h)) (omega (arith, h))
                    (omega (arith, h, inside)) less
                    (λ r' at'. ap cmp (some-injective _ _ (sym at' ∙ at)) ∙ c))
            | inr (inr c) ↦ rw (IsFound, search-step cmp xs n left right r e at, c) (r, at, c)
          ]
    ]

pub binary_search_by-IsFound :
    (cmp : Range → Ordering) (xs : List Range) → IsFound cmp xs (binary_search_by cmp xs)
unfolding binary_search_by
binary_search_by-IsFound cmp xs =
    search-IsFound cmp xs (length xs) 0 (length xs) (omega arith) (omega arith) (omega arith)
      (λ k r h at. absurd (omega (arith, h)))
      (λ r at. absurd (ground (arith, at, get_elem?-eq-none xs (length xs))))

-- the elements around an index
abbrev pub LastIs : (Range → Type 0) → List Range → Type 0
LastIs P [] = Unit
LastIs P (r ∷ []) = P r
LastIs P (r ∷ r' ∷ rest) = LastIs P (r' ∷ rest)

abbrev pub HeadIs : (Range → Type 0) → List Range → Type 0
HeadIs P [] = Unit
HeadIs P (r ∷ rest) = P r

pub take-LastIs :
    (P : Range → Type 0) (xs : List Range) (i : ℕ)
    → i ≤ length xs
    → ((k : ℕ) (r : Range) → suc k ≡ i → get_elem? xs k ≡ some r → P r)
    → LastIs P (take i xs)
take-LastIs P [] zero l h = tt
take-LastIs P [] (suc i) l h = tt
take-LastIs P (x ∷ xs) zero l h = tt
take-LastIs P (x ∷ xs) (suc zero) l h = h 0 x refl refl
take-LastIs P (x ∷ []) (suc (suc i)) l h = absurd (omega (arith, l))
take-LastIs P (x ∷ y ∷ xs) (suc (suc i)) l h =
    take-LastIs P (y ∷ xs) (suc i) (omega (arith, l)) (λ k r s at. h (suc k) r (ap suc s) at)

pub drop-HeadIs :
    (P : Range → Type 0) (xs : List Range) (i : ℕ)
    → ((r : Range) → get_elem? xs i ≡ some r → P r)
    → HeadIs P (drop i xs)
drop-HeadIs P [] zero h = tt
drop-HeadIs P [] (suc i) h = tt
drop-HeadIs P (x ∷ xs) zero h = h x refl
drop-HeadIs P (x ∷ xs) (suc i) h = drop-HeadIs P xs i h

pub take-drop_at :
    (xs : List Range) (i : ℕ) (r : Range)
    → get_elem? xs i ≡ some r
    → take i xs ++ r ∷ drop (suc i) xs ≡ xs
take-drop_at [] i r e = absurd (ground (arith, e))
take-drop_at (x ∷ xs) zero r e = ap (λ y. y ∷ xs) (sym (some-injective _ _ e))
take-drop_at (x ∷ xs) (suc i) r e = ap (λ ys. x ∷ ys) (take-drop_at xs i r e)
