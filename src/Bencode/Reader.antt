-- ===== src/Bencode/Reader.antt =====
-- src/bencode/de.rs, `Deserializer` and what it reads without recursion. A pointer into the input is
-- the input from there on, and null is `none`; a release build's arithmetic on `i64` wraps.
use rustorrent.Common.{
  ℕ, zero, suc, ◌+◌, ◌-◌, ◌*◌, ◌%◌, ◌^◌, Bool, true, false, ◌&&◌, Option, none, some, List, [], ◌∷◌,
  leb, ◌==◌, if◌then◌else◌, length, take, drop,
}
use rustorrent.Common.Int.{ℤ, pos, negsuc, suc_ℤ, pred_ℤ}

pub data DeserializeError : Type 0 where
  unexpected_eof : DeserializeError
  wrong_character : ℕ → DeserializeError
  end_error info_hash_missing too_deep no_file empty_file unaligned_pieces : DeserializeError
  message : List ℕ → DeserializeError

-- `Result`; `out_of_fuel` has no counterpart in the code.
pub data Run {ℓ} (A : Type ℓ) : Type ℓ where
  ok : A → Run A
  err : DeserializeError → Run A
  out_of_fuel : Run A

module _ {ℓ κ} {A : Type ℓ} {B : Type κ} where
  infixl 5 ◌>>=◌
  abbrev pub ◌>>=◌ : Run A → (A → Run B) → Run B
  ok a >>= f = f a
  err e >>= f = err e
  out_of_fuel >>= f = out_of_fuel

pub record Deserializer : Type 0 where
  pub input : List ℕ
  pub start_info : Option (List ℕ)
  pub end_info : Option (List ℕ)
  pub info_depth : ℤ
  pub depth : ℕ

abbrev pub deserializer_new : List ℕ → Deserializer
deserializer_new input = record {
  input = input;
  start_info = none;
  end_info = none;
  info_depth = pos 0;
  depth = 0;
}

abbrev pub peek_input : List ℕ → Option ℕ
peek_input [] = none
peek_input (c ∷ r) = some c

abbrev pub consume_input : List ℕ → Run (List ℕ)
consume_input [] = err unexpected_eof
consume_input (c ∷ r) = ok r

abbrev pub is_digit : ℕ → Bool
is_digit c = leb b'0' c && leb c b'9'

-- one digit more: `n = (n * 10) + (c - b'0') as i64`
abbrev pub push_digit : ℕ → ℕ → ℕ
push_digit n c = (n * 10 + (c - b'0')) % 2 ^ 64

-- `read_integer` from the number read so far, with the input behind the stop
unfoldable pub read_integer : ℕ → ℕ → List ℕ → Run (ℕ × List ℕ)
read_integer stop n [] = err unexpected_eof
read_integer stop n (c ∷ r) =
    let more = read_integer stop (push_digit n c) r in
    if is_digit c then more else if c == stop then ok (n, r) else err (wrong_character c)

-- `-n` on an `i64`
abbrev pub negate : ℕ → ℕ
negate n = (2 ^ 64 - n) % 2 ^ 64

-- `read_number` behind the `i`, with its optional minus sign
unfoldable pub read_signed : List ℕ → Run (ℕ × List ℕ)
unfolding read_integer
read_signed [] = read_integer b'e' 0 []
read_signed (c ∷ r) =
    if c == b'-'
    then (read_integer b'e' 0 r >>= λ (n, rest). ok (negate n, rest))
    else read_integer b'e' 0 (c ∷ r)

unfoldable pub read_number : List ℕ → Run (ℕ × List ℕ)
unfolding read_signed
read_number input = consume_input input >>= read_signed

-- `b"info"`
abbrev pub is_info : List ℕ → Bool
is_info (a ∷ b ∷ c ∷ d ∷ []) = a == b'i' && b == b'n' && c == b'f' && d == b'o'
is_info _ = false

-- the length, the slice of that length, and what is behind it
unfoldable pub read_slice : List ℕ → Run (List ℕ × List ℕ)
unfolding read_integer
read_slice input = read_integer b':' 0 input >>= λ (len, r).
    if leb len (length r) then ok (take len r, drop len r) else err unexpected_eof

-- `read_string`: a string `info` marks where its value starts.
abbrev pub mark_info : List ℕ → List ℕ → Deserializer → Deserializer
mark_info s rest d =
    if is_info s
    then record d { input = rest; start_info = some rest; info_depth = pos 1 }
    else record d { input = rest }

unfoldable pub read_string : Deserializer → Run (List ℕ × Deserializer)
unfolding read_slice
read_string d = read_slice d.input >>= λ (s, rest). ok (s, mark_info s rest d)

abbrev pub at_least_one : ℤ → Bool
at_least_one (pos zero) = false
at_least_one (pos (suc n)) = true
at_least_one (negsuc n) = false

abbrev pub is_one : ℤ → Bool
is_one (pos n) = n == 1
is_one (negsuc n) = false

-- `BencAccess::new`
abbrev pub access_new : Deserializer → Deserializer
access_new d = if at_least_one d.info_depth then record d { info_depth = suc_ℤ d.info_depth } else d

-- the end of a list in `next_element_seed`, at the input behind the `e`
abbrev pub leave_list : List ℕ → Deserializer → Deserializer
leave_list rest d =
    if at_least_one d.info_depth
    then record d { input = rest; info_depth = pred_ℤ d.info_depth }
    else record d { input = rest }

-- the end of a dictionary in `next_key_seed`
abbrev pub leave_dict : List ℕ → Deserializer → Deserializer
leave_dict rest d =
    if is_one (pred_ℤ d.info_depth)
    then record d { input = rest; info_depth = pred_ℤ d.info_depth; end_info = some rest }
    else record d { input = rest; info_depth = pred_ℤ d.info_depth }
