-- ===== src/Collect/Buffer.antt =====
-- `copy_from_slice` into the buffer of a piece, for src/piece_collector.rs.
use rustorrent.Common.{
  ℕ, zero, suc, ◌+◌, ◌≤◌, ◌<◌, ◌≡◌, refl, ap, ◌⊎◌, some-injective, List, [], ◌∷◌, length, get_elem?,
  arith,
}
use rustorrent.Collect.Metadata.{copy_at}

pub length-copy_at : (start : ℕ) (block xs : List ℕ) → length (copy_at start block xs) ≡ length xs
unfolding copy_at
length-copy_at start block [] = refl
length-copy_at zero [] (x ∷ xs) = refl
length-copy_at zero (b ∷ block) (x ∷ xs) = ap suc (length-copy_at zero block xs)
length-copy_at (suc start) block (x ∷ xs) = ap suc (length-copy_at start block xs)

pub get_elem?-copy_at_in :
    (start : ℕ) (block xs : List ℕ) (i k : ℕ)
    → start + i ≡ k
    → start + length block ≤ length xs
    → i < length block
    → get_elem? (copy_at start block xs) k ≡ get_elem? block i
unfolding copy_at
get_elem?-copy_at_in start [] xs i k e h l = absurd (omega (arith, l))
get_elem?-copy_at_in start (b ∷ block) [] i k e h l = absurd (omega (arith, h))
get_elem?-copy_at_in zero (b ∷ block) (x ∷ xs) zero zero e h l = refl
get_elem?-copy_at_in zero (b ∷ block) (x ∷ xs) zero (suc k) e h l = absurd (omega (arith, e))
get_elem?-copy_at_in zero (b ∷ block) (x ∷ xs) (suc i) zero e h l = absurd (omega (arith, e))
get_elem?-copy_at_in zero (b ∷ block) (x ∷ xs) (suc i) (suc k) e h l =
    get_elem?-copy_at_in zero block xs i k (omega (arith, e)) (omega (arith, h)) (omega (arith, l))
get_elem?-copy_at_in (suc start) (b ∷ block) (x ∷ xs) i zero e h l = absurd (omega (arith, e))
get_elem?-copy_at_in (suc start) (b ∷ block) (x ∷ xs) i (suc k) e h l =
    get_elem?-copy_at_in start (b ∷ block) xs i k (omega (arith, e)) (omega (arith, h)) l

pub get_elem?-copy_at_out :
    (start : ℕ) (block xs : List ℕ) (i : ℕ)
    → (i < start) ⊎ (start + length block ≤ i)
    → get_elem? (copy_at start block xs) i ≡ get_elem? xs i
unfolding copy_at
get_elem?-copy_at_out start block [] i h = refl
get_elem?-copy_at_out zero [] (x ∷ xs) i h = refl
get_elem?-copy_at_out zero (b ∷ block) (x ∷ xs) zero h = absurd (ground (arith, h))
get_elem?-copy_at_out zero (b ∷ block) (x ∷ xs) (suc i) h =
    get_elem?-copy_at_out zero block xs i (ground (arith, h))
get_elem?-copy_at_out (suc start) block (x ∷ xs) zero h = refl
get_elem?-copy_at_out (suc start) block (x ∷ xs) (suc i) h =
    get_elem?-copy_at_out start block xs i (ground (arith, h))

pub list_ext :
    (xs ys : List ℕ)
    → length xs ≡ length ys
    → ((i : ℕ) → i < length xs → get_elem? xs i ≡ get_elem? ys i)
    → xs ≡ ys
list_ext [] [] e h = refl
list_ext [] (y ∷ ys) e h = absurd (omega (arith, e))
list_ext (x ∷ xs) [] e h = absurd (omega (arith, e))
list_ext (x ∷ xs) (y ∷ ys) e h =
    let head : x ≡ y = some-injective _ _ (h 0 (omega arith)) in
    rw head
      (ap (λ r. y ∷ r) (list_ext xs ys (omega (arith, e)) (λ i l. h (suc i) (omega (arith, l)))))
