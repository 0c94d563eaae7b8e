-- ===== src/Utp/Sack/Chain.antt =====
-- The loop over a packet's extensions: what it finds, and when it ends.
use rustorrent.Common.{
  ℕ, zero, suc, ◌≤◌, ◌<◌, ◌≡◌, ◌≢◌, refl, some, List, [], ◌∷◌, ◌++◌, arith, length, drop,
  length-append, take-append, drop-append, All, true, get_elem?, get_or, Option-cases,
  get_elem?-cases, inl, inr,
}
use rustorrent.Utp.Seq.{SequenceNumber}
use rustorrent.Utp.Sack.{
  selective_ack, unknown, extension_type_of, ExtensionIterator, yields, out_of_fuel, take_sack,
  skip_unknown, next_sack,
}

-- A well-formed selective ack is found at once: its bitfield, and the iterator at what follows it.
pub next_sack-sack :
    (next_type : ℕ) (bits rest : List ℕ) (ack : SequenceNumber) (fuel : ℕ)
    → next_sack (suc fuel) (record {
      current_type = selective_ack;
      slice = next_type ∷ length bits ∷ (bits ++ rest);
      ack_number = ack;
    })
      ≡ yields
          (record {
            bitfield = bits;
            byte_index = 0;
            bit_index = 0;
            ack_number = ack;
            first = true;
          })
          (record { current_type = extension_type_of next_type; slice = rest; ack_number = ack })
unfolding next_sack take_sack
next_sack-sack next_type bits rest ack fuel =
    ground (arith, length-append {0} bits rest, take-append bits rest, drop-append bits rest)

-- An unknown extension whose header says that it holds no bytes and names an unknown type again
-- stops the iterator from ever moving: no number of rounds ends the loop.
pub next_sack-spins :
    (fuel next_type : ℕ) (rest : List ℕ) (ack : SequenceNumber)
    → 2 ≤ next_type
    → next_sack fuel
        (record { current_type = unknown; slice = next_type ∷ 0 ∷ rest; ack_number = ack })
      ≡ out_of_fuel
unfolding next_sack skip_unknown
next_sack-spins zero next_type rest ack h = refl
next_sack-spins (suc fuel) next_type rest ack h =
    ground (arith, next_sack-spins fuel next_type rest ack h)

All-drop : (n : ℕ) (xs : List ℕ) → All (λ b. 0 < b) xs → All (λ b. 0 < b) (drop n xs)
All-drop zero xs h = h
All-drop (suc n) [] h = h
All-drop (suc n) (x ∷ xs) h = All-drop n xs h.1

length-drop-lt : (n : ℕ) (xs : List ℕ) → 0 < n → 0 < length xs → length (drop n xs) < length xs
length-drop-lt zero xs h k = absurd (omega arith)
length-drop-lt (suc zero) (x ∷ xs) h k = omega arith
length-drop-lt (suc n) [] h k = absurd (omega arith)
length-drop-lt (suc (suc n)) (x ∷ []) h k = omega arith
length-drop-lt (suc (suc n)) (x ∷ y ∷ xs) h k =
    omega (arith, length-drop-lt (suc n) (y ∷ xs) (omega arith) (omega arith))

-- where an unknown extension is skipped, and to what
skip_unknown-some :
    (s t : ExtensionIterator)
    → (skip_unknown s).0 ≡ some t
    → (len : ℕ) × (get_elem? s.slice 1 ≡ some len)
      × (len ≤ length s.slice)
      × (t.slice ≡ drop len s.slice)
unfolding skip_unknown
skip_unknown-some s t e =
    let c = get_elem?-cases s.slice 1 0 in
    (get_or s.slice 1 0, ground (arith, c), ground (arith, c), ground (arith, c))

All-get_elem? : (xs : List ℕ) (i a : ℕ) → All (λ b. 0 < b) xs → get_elem? xs i ≡ some a → 0 < a
All-get_elem? [] i a h e = cc
All-get_elem? (x ∷ xs) zero a h e = ground (arith, e, h.0)
All-get_elem? (x ∷ xs) (suc i) a h e = All-get_elem? xs i a h.1 e

skip_unknown-shrinks :
    (s t : ExtensionIterator)
    → All (λ b. 0 < b) s.slice
    → (skip_unknown s).0 ≡ some t
    → All (λ b. 0 < b) t.slice × (length t.slice < length s.slice)
unfolding skip_unknown
skip_unknown-shrinks s t h e =
    let (len, at_one, fits, rest) = skip_unknown-some s t e in
    let pos : 0 < len = All-get_elem? s.slice 1 len h at_one in
    (rw rest (All-drop len s.slice h), rw rest (length-drop-lt len s.slice pos (omega arith)))

take_sack-ne : (s : ExtensionIterator) → take_sack s ≢ out_of_fuel
unfolding take_sack
take_sack-ne s = ground arith

-- Where no byte of the payload is zero, the loop ends, within as many rounds as there are bytes and
-- one more.
pub next_sack_total :
    (fuel : ℕ) (s : ExtensionIterator)
    → length s.slice < fuel
    → All (λ b. 0 < b) s.slice
    → next_sack fuel s ≢ out_of_fuel
unfolding next_sack
next_sack_total zero s h k = absurd (omega arith)
next_sack_total (suc fuel) s h k = elim (Option-cases (skip_unknown s).0) [
  | inl stop ↦ ground (arith, take_sack-ne s, stop)
  | inr (t, go) ↦
      let (bytes, shorter) = skip_unknown-shrinks s t k go in
      ground (arith, take_sack-ne s, go, next_sack_total fuel t (omega arith) bytes)
]
