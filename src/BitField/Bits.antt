-- ===== src/BitField/Bits.antt =====
-- What `get_bit` reads after `set_bit`.
use rustorrent.Common.{
  ℕ, zero, suc, ◌+◌, ◌-◌, ◌*◌, ◌/◌, ◌%◌, ◌≤◌, ◌<◌, ◌≡◌, ◌≢◌, refl, sym, ◌∙◌, ap, Bool, true, false,
  some, List, arith, ◌==◌, ltb, ◌&&◌, if◌then◌else◌, length, get_or, set, length-set,
  get_or-set_self, get_or-set_ne, get_elem?-eq-get_or, length-replicate,
}
use native.Mathlib.Decide.{dec_lt, ℕ_discrete}
use rustorrent.Common.Outcome.{ok}
use rustorrent.BitField.{BitField, try_from, bit_field_new, and_bit, or_bit, get_bit, set_bit}

and_bit-or_bit_self : (byte k : ℕ) → and_bit (or_bit byte k) k ≡ true
unfolding and_bit or_bit
and_bit-or_bit_self byte zero = ground arith
and_bit-or_bit_self byte (suc k) =
    let half : (or_bit (byte / 2) k * 2 + byte % 2) / 2 ≡ or_bit (byte / 2) k = omega arith in
    rw half (and_bit-or_bit_self (byte / 2) k)

and_bit-or_bit_ne : (byte k l : ℕ) → k ≢ l → and_bit (or_bit byte k) l ≡ and_bit byte l
unfolding and_bit or_bit
and_bit-or_bit_ne byte zero zero ne = absurd (ne refl)
and_bit-or_bit_ne byte zero (suc l) ne =
    let half : (byte / 2 * 2 + 1) / 2 ≡ byte / 2 = omega arith in rw half refl
and_bit-or_bit_ne byte (suc k) zero ne =
    let parity : (or_bit (byte / 2) k * 2 + byte % 2) % 2 ≡ byte % 2 = omega arith in rw parity refl
and_bit-or_bit_ne byte (suc k) (suc l) ne =
    let half : (or_bit (byte / 2) k * 2 + byte % 2) / 2 ≡ or_bit (byte / 2) k = omega arith in
    rw half (and_bit-or_bit_ne (byte / 2) k l (λ e. ne (ap suc e)))

-- There is a byte for every bit.
abbrev pub IsBacked : BitField → Type 0
IsBacked b = b.nbits ≤ length b.inner * 8

pub try_from-IsBacked :
    (bitfield : List ℕ) (nbits : ℕ) (b : BitField) → try_from bitfield nbits ≡ ok b → IsBacked b
unfolding try_from
try_from-IsBacked bitfield nbits b e = ground (arith, e)

pub bit_field_new-IsBacked : (nbits : ℕ) → IsBacked (bit_field_new nbits)
unfolding bit_field_new
bit_field_new-IsBacked nbits = omega (arith, length-replicate {A = ℕ} (nbits / 8 + 1) 0)

get_bit-in :
    (b : BitField) (i : ℕ)
    → IsBacked b
    → i < b.nbits
    → get_bit b i ≡ some (and_bit (get_or b.inner (i / 8) 0) (7 - i % 8))
unfolding get_bit
get_bit-in b i h lt =
    let within : ltb i b.nbits ≡ true = ground (arith, lt) in
    rw (within, get_elem?-eq-get_or b.inner (i / 8) 0 (omega (arith, h, lt))) refl

get_bit-out : (b : BitField) (i : ℕ) → b.nbits ≤ i → get_bit b i ≡ some false
unfolding get_bit
get_bit-out b i h = ground arith

-- the field with the bit `i` set
abbrev with_bit : BitField → ℕ → BitField
with_bit b i = record b {
  inner = set b.inner (i / 8) (or_bit (get_or b.inner (i / 8) 0) (7 - i % 8));
}

with_bit-IsBacked : (b : BitField) (i : ℕ) → IsBacked b → IsBacked (with_bit b i)
with_bit-IsBacked b i h =
    omega (arith, h, length-set b.inner (i / 8) (or_bit (get_or b.inner (i / 8) 0) (7 - i % 8)))

with_bit-byte :
    (b : BitField) (i j : ℕ)
    → IsBacked b
    → i < b.nbits
    → i ≢ j
    → and_bit (get_or (with_bit b i).inner (j / 8) 0) (7 - j % 8)
      ≡ and_bit (get_or b.inner (j / 8) 0) (7 - j % 8)
with_bit-byte b i j h lt ne = elim (ℕ_discrete (i / 8) (j / 8)) [
  | yes same ↦
      let byte = get_or b.inner (i / 8) 0 in
      let other : 7 - i % 8 ≢ 7 - j % 8 = λ e. ne (omega (arith, same, e)) in
      rw
        (
          sym same,
          get_or-set_self b.inner (i / 8) (or_bit byte (7 - i % 8)) 0 (omega (arith, h, lt)),
        )
        (and_bit-or_bit_ne byte (7 - i % 8) (7 - j % 8) other)
  | no differ ↦
      ap (λ byte. and_bit byte (7 - j % 8))
        (get_or-set_ne b.inner (i / 8) (j / 8) (or_bit (get_or b.inner (i / 8) 0) (7 - i % 8)) 0
          differ)
]

get_bit-with_bit_self :
    (b : BitField) (i : ℕ) → IsBacked b → i < b.nbits → get_bit (with_bit b i) i ≡ some true
get_bit-with_bit_self b i h lt =
    let byte = get_or b.inner (i / 8) 0 in
    get_bit-in (with_bit b i) i (with_bit-IsBacked b i h) lt
    ∙ rw
        (
          get_or-set_self b.inner (i / 8) (or_bit byte (7 - i % 8)) 0 (omega (arith, h, lt)),
          and_bit-or_bit_self byte (7 - i % 8),
        )
        refl

get_bit-with_bit_ne :
    (b : BitField) (i j : ℕ)
    → IsBacked b
    → i < b.nbits
    → i ≢ j
    → get_bit (with_bit b i) j ≡ get_bit b j
get_bit-with_bit_ne b i j h lt ne = elim (dec_lt j b.nbits) [
  | yes in_range ↦
      get_bit-in (with_bit b i) j (with_bit-IsBacked b i h) in_range
      ∙ ap some (with_bit-byte b i j h lt ne)
      ∙ sym (get_bit-in b j h in_range)
  | no out ↦
      get_bit-out (with_bit b i) j (omega (arith, out)) ∙ sym (get_bit-out b j (omega (arith, out)))
]

get_bit-with_bit :
    (b : BitField) (i j : ℕ)
    → IsBacked b
    → i < b.nbits
    → get_bit (with_bit b i) j ≡ (if j == i && ltb i b.nbits then some true else get_bit b j)
get_bit-with_bit b i j h lt = elim (ℕ_discrete i j) [
  | yes same ↦
      let hit : (j == i && ltb i b.nbits) ≡ true = ground (arith, same, lt) in
      rw hit (rw (sym same) (get_bit-with_bit_self b i h lt))
  | no ne ↦
      let miss : (j == i && ltb i b.nbits) ≡ false = ground (arith, ne) in
      rw miss (get_bit-with_bit_ne b i j h lt ne)
]

-- On a field with a byte for every bit, `set_bit` does not panic and keeps that and the number of bits;
-- afterwards `get_bit` is true at the index, if that is one of the bits, and as before at any other.
pub get_bit-set_bit :
    (b : BitField) (i : ℕ)
    → IsBacked b
    → (b' : BitField) × (set_bit b i ≡ some b')
      × IsBacked b'
      × (b'.nbits ≡ b.nbits)
      × ((j : ℕ) → get_bit b' j ≡ (if j == i && ltb i b.nbits then some true else get_bit b j))
unfolding set_bit
get_bit-set_bit b i h = elim (dec_lt i b.nbits) [
  | no out ↦
      let outside : ltb i b.nbits ≡ false = ground (arith, out) in
      (b, rw outside refl, h, refl, λ j. ground (arith, outside))
  | yes lt ↦
      let inside : ltb i b.nbits ≡ true = ground (arith, lt) in
      (
        with_bit b i,
        rw (inside, get_elem?-eq-get_or b.inner (i / 8) 0 (omega (arith, h, lt))) refl,
        with_bit-IsBacked b i h,
        refl,
        λ j. get_bit-with_bit b i j h lt,
      )
]

-- the read of a field with a byte for every bit does not panic
pub get_bit-total : (b : BitField) (i : ℕ) → IsBacked b → (v : Bool) × (get_bit b i ≡ some v)
get_bit-total b i h = elim (dec_lt i b.nbits) [
  | yes lt ↦ (and_bit (get_or b.inner (i / 8) 0) (7 - i % 8), get_bit-in b i h lt)
  | no ge ↦ (false, get_bit-out b i (omega (arith, ge)))
]
