-- ===== src/Bencode/Ser/Decimal.antt =====
-- A number printed is the number read.
use rustorrent.Common.{
  ℕ, zero, suc, ◌+◌, ◌-◌, ◌*◌, ◌/◌, ◌%◌, ◌^◌, ◌≤◌, ◌<◌, ◌≡◌, refl, ◌∙◌, ap, true, false, List, [],
  ◌∷◌, ◌++◌, append_assoc, arith, ltb, tests, Bool-cases, inl, inr, ==_iff, ◌==◌,
}
use native.Mathlib.Decide.{dec_lt}
use rustorrent.Bencode.Reader.{ok, negate, read_integer, read_signed, push_digit, is_digit}
use rustorrent.Bencode.Ser.{decimal, to_string, signed_to_string}

read_integer_digit :
    (stop n d : ℕ) (r : List ℕ)
    → d < 10
    → read_integer stop n ((b'0' + d) ∷ r) ≡ read_integer stop ((n * 10 + d) % 2 ^ 64) r
unfolding read_integer
read_integer_digit stop n d r h =
    let digit : is_digit (b'0' + d) ≡ true = ground arith in
    let value : push_digit n (b'0' + d) ≡ (n * 10 + d) % 2 ^ 64 = omega arith in rw (digit, value)

decimal-small : (f n : ℕ) → n < 10 → decimal (suc f) n ≡ (b'0' + n) ∷ []
unfolding decimal
decimal-small f n h = ground arith

decimal-large : (f n : ℕ) → 10 ≤ n → decimal (suc f) n ≡ decimal f (n / 10) ++ (b'0' + n % 10) ∷ []
unfolding decimal
decimal-large f n h = ground arith

read_integer-decimal :
    (stop f n : ℕ) (r : List ℕ)
    → n < f
    → n < 2 ^ 64
    → read_integer stop 0 (decimal f n ++ r) ≡ read_integer stop n r
read_integer-decimal stop zero n r h k = absurd (omega arith)
read_integer-decimal stop (suc f) n r h k = elim (Bool-cases (ltb n 10)) [
  | inl small ↦
      let lt : n < 10 = omega tests in
      let same : (0 * 10 + n) % 2 ^ 64 ≡ n = omega arith in
      rw (decimal-small f n lt)
        (read_integer_digit stop 0 n r lt ∙ ap (λ m. read_integer stop m r) same)
  | inr large ↦
      let ge : 10 ≤ n = ground (arith, large) in
      let same : (n / 10 * 10 + n % 10) % 2 ^ 64 ≡ n = omega arith in
      rw (decimal-large f n ge, append_assoc)
        (read_integer-decimal stop f (n / 10) ((b'0' + n % 10) ∷ r) (omega arith) (omega arith)
          ∙ read_integer_digit stop (n / 10) (n % 10) r (omega arith)
          ∙ ap (λ m. read_integer stop m r) same)
]

-- A printed number is read up to the stop behind it, which is no digit.
pub read_integer-to_string :
    (stop n : ℕ) (r : List ℕ)
    → n < 2 ^ 64
    → is_digit stop ≡ false
    → read_integer stop 0 (to_string n ++ stop ∷ r) ≡ ok (n, r)
unfolding read_integer
read_integer-to_string stop n r h k =
    read_integer-decimal stop (suc n) n (stop ∷ r) (omega arith) h
    ∙ rw (k, (==_iff stop stop).1 refl)

-- the first byte of a printed number is a digit
pub decimal-head :
    (f n : ℕ) → (c : ℕ) × (r : List ℕ) × (decimal (suc f) n ≡ c ∷ r) × (is_digit c ≡ true)
unfolding decimal
decimal-head zero n = elim (dec_lt n 10) [
  | yes h ↦ (b'0' + n, [], decimal-small 0 n h, ground arith)
  | no h ↦ (b'0' + n % 10, [], decimal-large 0 n (omega arith) ∙ refl, ground arith)
]
decimal-head (suc f) n = elim (dec_lt n 10) [
  | yes h ↦ (b'0' + n, [], decimal-small (suc f) n h, ground arith)
  | no h ↦
      let (c, r, e, digit) = decimal-head f (n / 10) in
      (
        c,
        r ++ (b'0' + n % 10) ∷ [],
        decimal-large (suc f) n (omega arith) ∙ ap (λ xs. xs ++ (b'0' + n % 10) ∷ []) e,
        digit,
      )
]

read_signed-digit :
    (c : ℕ) (xs r ys : List ℕ)
    → xs ≡ c ∷ ys
    → is_digit c ≡ true
    → read_signed (xs ++ r) ≡ read_integer b'e' 0 (xs ++ r)
unfolding read_signed
read_signed-digit c xs r ys e digit =
    let other : (c == b'-') ≡ false = ground (arith, digit) in rw e (rw other)

-- A signed number printed is read as its pattern.
pub read_signed-signed_to_string :
    (n : ℕ) (r : List ℕ) → n < 2 ^ 64 → read_signed (signed_to_string n ++ b'e' ∷ r) ≡ ok (n, r)
unfolding read_signed
read_signed-signed_to_string n r h = elim (Bool-cases (ltb n (2 ^ 63))) [
  | inl small ↦
      let (c, ys, e, digit) = decimal-head n n in
      rw small (
        read_signed-digit c (to_string n) (b'e' ∷ r) ys e digit
        ∙ read_integer-to_string b'e' n r h refl)
  | inr large ↦
      let back : negate (2 ^ 64 - n) ≡ n = ground (arith, large) in
      rw large (
        rw (read_integer-to_string b'e' (2 ^ 64 - n) r (ground (arith, large)) refl)
          (ap (λ m. ok (m, r)) back))
]
