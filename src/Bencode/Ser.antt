-- ===== src/Bencode/Ser.antt =====
-- src/bencode/ser.rs: `Serializer`, whose state is the output so far. The methods that return
-- `Ok(())` give the new output; `serialize_value` makes the calls of `Serialize` for a value.
pub mod Decimal
pub mod Encoding
use rustorrent.Common.{
  ℕ, zero, suc, ◌+◌, ◌-◌, ◌*◌, ◌/◌, ◌%◌, ◌^◌, ◌≡◌, Bool, true, false, Option, none, some, List, [],
  ◌∷◌, ◌++◌, ltb, if◌then◌else◌, length,
}
use rustorrent.Bencode.Value.{Value, Values, Entries, int, bytes, list, dict, nil, cons, end, entry}

-- `u64::to_string`, with a unit of fuel for each digit
unfoldable pub decimal : ℕ → ℕ → List ℕ
decimal zero n = []
decimal (suc f) n = elim (ltb n 10) [
  | true ↦ (b'0' + n) ∷ []
  | false ↦ decimal f (n / 10) ++ (b'0' + n % 10) ∷ []
]

abbrev pub to_string : ℕ → List ℕ
to_string n = decimal (suc n) n

-- `i64::to_string`, of the pattern
abbrev pub signed_to_string : ℕ → List ℕ
signed_to_string n = if ltb n (2 ^ 63) then to_string n else b'-' ∷ to_string (2 ^ 64 - n)

unfoldable pub append : List ℕ → List ℕ → List ℕ
append output s = output ++ s

pub serialize_bool : List ℕ → Bool → List ℕ
unfolding append
serialize_bool output v =
    append output (if v then b'i' ∷ b'1' ∷ b'e' ∷ [] else b'i' ∷ b'0' ∷ b'e' ∷ [])

unfoldable pub serialize_i64 : List ℕ → ℕ → List ℕ
unfolding append
serialize_i64 output v =
    append (append (append output (b'i' ∷ [])) (signed_to_string v)) (b'e' ∷ [])

unfoldable pub serialize_u64 : List ℕ → ℕ → List ℕ
unfolding append
serialize_u64 output v = append (append (append output (b'i' ∷ [])) (to_string v)) (b'e' ∷ [])

-- `serialize_f64` is the error `InvalidInput`.
pub serialize_f64 : List ℕ → ℕ → Option (List ℕ)
serialize_f64 output v = none

-- `serialize_char`: the character's UTF-8 bytes behind a length of 1
unfoldable pub serialize_char : List ℕ → List ℕ → List ℕ
unfolding append
serialize_char output utf8 = append (append output (b'1' ∷ b':' ∷ [])) utf8

-- `serialize_bytes`, and `serialize_str` of a text's bytes
unfoldable pub serialize_bytes : List ℕ → List ℕ → List ℕ
unfolding append
serialize_bytes output v = append (append (append output (to_string (length v))) (b':' ∷ [])) v

-- `serialize_none`, `serialize_unit` and `serialize_unit_struct`
pub serialize_none : List ℕ → List ℕ
serialize_none output = output

-- `serialize_seq`, for tuples too; `serialize_map`, for structs too; their `end`
unfoldable pub serialize_seq : List ℕ → List ℕ
unfolding append
serialize_seq output = append output (b'l' ∷ [])

unfoldable pub serialize_map : List ℕ → List ℕ
unfolding append
serialize_map output = append output (b'd' ∷ [])

unfoldable pub serialize_end : List ℕ → List ℕ
unfolding append
serialize_end output = append output (b'e' ∷ [])

-- `serialize_newtype_variant`: a dictionary of one entry; `value` is what serializes the value.
pub serialize_newtype_variant : List ℕ → List ℕ → (List ℕ → List ℕ) → List ℕ
unfolding serialize_map serialize_bytes serialize_end
serialize_newtype_variant output variant value =
    serialize_end (value (serialize_bytes (serialize_map output) variant))

-- `serialize_tuple_variant` and `serialize_struct_variant`, with their `end`
pub serialize_tuple_variant : List ℕ → List ℕ → List ℕ
unfolding serialize_map serialize_bytes serialize_seq
serialize_tuple_variant output variant =
    serialize_seq (serialize_bytes (serialize_map output) variant)

pub serialize_struct_variant : List ℕ → List ℕ → List ℕ
unfolding serialize_map serialize_bytes
serialize_struct_variant output variant =
    serialize_map (serialize_bytes (serialize_map output) variant)

pub end_variant : List ℕ → List ℕ
unfolding append
end_variant output = append output (b'e' ∷ b'e' ∷ [])

unfoldable mutual
  unfolding serialize_i64 serialize_bytes serialize_seq serialize_map serialize_end

  pub serialize_value : Value → List ℕ → List ℕ
  serialize_value (int n) output = serialize_i64 output n
  serialize_value (bytes s) output = serialize_bytes output s
  serialize_value (list vs) output = serialize_end (serialize_elements vs (serialize_seq output))
  serialize_value (dict es) output = serialize_end (serialize_entries es (serialize_map output))

  pub serialize_elements : Values → List ℕ → List ℕ
  serialize_elements nil output = output
  serialize_elements (cons v vs) output = serialize_elements vs (serialize_value v output)

  pub serialize_entries : Entries → List ℕ → List ℕ
  serialize_entries end output = output
  serialize_entries (entry k v es) output =
      serialize_entries es (serialize_value v (serialize_value k output))

unfoldable pub to_bytes : Value → List ℕ
unfolding serialize_value
to_bytes v = serialize_value v []
