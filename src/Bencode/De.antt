-- ===== src/Bencode/De.antt =====
-- src/bencode/de.rs: `deserialize_any` and the accesses to lists and dictionaries, for the visitor
-- that keeps every value it is given, as a derived `Deserialize` reads the fields that it ignores.
-- Each call costs a unit of fuel.
use rustorrent.Common.{
  ℕ, zero, suc, ◌+◌, ◌-◌, true, false, Option, none, some, List, [], ◌∷◌, ltb, ◌==◌, if◌then◌else◌,
  length, take,
}
use rustorrent.Bencode.Value.{Value, Values, Entries, int, bytes, list, dict, nil, cons, end, entry}
use rustorrent.Bencode.Reader.{
  Run, ok, err, out_of_fuel, ◌>>=◌, unexpected_eof, wrong_character, too_deep, info_hash_missing,
  Deserializer, deserializer_new, is_digit, read_number, read_string, access_new, leave_list,
  leave_dict,
}

-- what the first byte of a value announces
pub data Start : Type 0 where
  number_start list_start dict_start string_start other_start : Start

unfoldable pub start_of : ℕ → Start
start_of c =
    if c == b'i'
    then number_start
    else if c == b'l'
    then list_start
    else if c == b'd'
    then dict_start
    else if is_digit c
    then string_start
    else other_start

abbrev pub run_number : Deserializer → Run (Value × Deserializer)
run_number d = read_number d.input >>= λ (n, rest). ok (int n, record d { input = rest })

abbrev pub run_string : Deserializer → Run (Value × Deserializer)
run_string d = read_string d >>= λ (s, d'). ok (bytes s, d')

-- a list or a dictionary behind its first byte: `BencAccess::new`, and for a dictionary the count
-- of those met so far
abbrev pub enter_list : List ℕ → Deserializer → Deserializer
enter_list rest d = access_new (record d { input = rest })

abbrev pub enter_dict : List ℕ → Deserializer → Deserializer
enter_dict rest d = access_new (record d { input = rest; depth = d.depth + 1 })

-- `peek() == Some(b'e')`, and the input behind it
abbrev pub at_end : List ℕ → Option (List ℕ)
at_end [] = none
at_end (c ∷ r) = if c == b'e' then some r else none

-- The list is the input of the deserializer: every call gives `d.input`.
unfoldable mutual
  unfolding start_of

  pub deserialize_any : ℕ → List ℕ → Deserializer → Run (Value × Deserializer)
  deserialize_any zero input d = out_of_fuel
  deserialize_any (suc f) [] d = err unexpected_eof
  deserialize_any (suc f) (c ∷ r) d = elim (start_of c) [
    | number_start ↦ run_number d
    | list_start ↦ visit_seq f r (enter_list r d) >>= λ (vs, d'). ok (list vs, d')
    | dict_start ↦ elim (ltb 100 d.depth) [
      | true ↦ err too_deep
      | false ↦ visit_map f r (enter_dict r d) >>= λ (es, d'). ok (dict es, d')
    ]
    | string_start ↦ run_string d
    | other_start ↦ err (wrong_character c)
  ]

  pub visit_seq : ℕ → List ℕ → Deserializer → Run (Values × Deserializer)
  visit_seq zero input d = out_of_fuel
  visit_seq (suc f) input d = elim (at_end input) [
    | some rest ↦ ok (nil, leave_list rest d)
    | none ↦ deserialize_any f input d >>= λ (v, d₁).
        visit_seq f d₁.input d₁ >>= λ (vs, d₂). ok (cons v vs, d₂)
  ]

  pub visit_map : ℕ → List ℕ → Deserializer → Run (Entries × Deserializer)
  visit_map zero input d = out_of_fuel
  visit_map (suc f) input d = elim (at_end input) [
    | some rest ↦ ok (end, leave_dict rest d)
    | none ↦ deserialize_any f input d >>= λ (k, d₁). deserialize_any f d₁.input d₁ >>= λ (v, d₂).
        visit_map f d₂.input d₂ >>= λ (es, d₃). ok (entry k v es, d₃)
  ]

unfoldable pub from_bytes : ℕ → List ℕ → Run (Value × Deserializer)
unfolding deserialize_any
from_bytes fuel s = deserialize_any fuel s (deserializer_new s)

-- the bytes between two pointers, where the second is not null and is behind the first
unfoldable pub info_slice : Option (List ℕ) → Option (List ℕ) → Option (List ℕ)
info_slice none e = none
info_slice (some s) none = none
info_slice (some s) (some e) =
    if ltb (length e) (length s) then some (take (length s - length e) s) else none

-- `from_bytes_with_hash`; `sha1` is the digest of the crate sha1.
abbrev pub hash_slice : (List ℕ → List ℕ) → Value → Option (List ℕ) → Run (Value × List ℕ)
hash_slice sha1 v none = err info_hash_missing
hash_slice sha1 v (some slice) = ok (v, sha1 slice)

unfoldable pub from_bytes_with_hash : (List ℕ → List ℕ) → ℕ → List ℕ → Run (Value × List ℕ)
from_bytes_with_hash sha1 fuel s =
    from_bytes fuel s >>= λ (v, d). hash_slice sha1 v (info_slice d.start_info d.end_info)
