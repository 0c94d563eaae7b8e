-- ===== src/Bencode/Ser/Encoding.antt =====
-- The bencoding of a value, by its structure, and that the serializer appends it.
use rustorrent.Common.{ℕ, ◌≡◌, List, [], ◌∷◌, ◌++◌, append_assoc, append-nil, length}
use rustorrent.Bencode.Value.{Value, Values, Entries, int, bytes, list, dict, nil, cons, end, entry}
use rustorrent.Bencode.Ser.{
  to_string, signed_to_string, append, serialize_value, serialize_elements, serialize_entries,
  to_bytes,
}

-- BEP 3: `i<number>e`, `<length>:<bytes>`, `l<values>e`, `d<keys and values>e`
unfoldable mutual
  pub encoding : Value → List ℕ
  encoding (int n) = b'i' ∷ (signed_to_string n ++ b'e' ∷ [])
  encoding (bytes s) = to_string (length s) ++ b':' ∷ s
  encoding (list vs) = b'l' ∷ (encoding_values vs ++ b'e' ∷ [])
  encoding (dict es) = b'd' ∷ (encoding_entries es ++ b'e' ∷ [])

  pub encoding_values : Values → List ℕ
  encoding_values nil = []
  encoding_values (cons v vs) = encoding v ++ encoding_values vs

  pub encoding_entries : Entries → List ℕ
  encoding_entries end = []
  encoding_entries (entry k v es) = encoding k ++ (encoding v ++ encoding_entries es)

mutual
  unfolding encoding serialize_value append

  serialize-encoding :
      (v : Value) (output : List ℕ) → serialize_value v output ≡ output ++ encoding v
  serialize-encoding (int n) output = simp append_assoc
  serialize-encoding (bytes s) output = simp append_assoc
  serialize-encoding (list vs) output = simp (elements-encoding vs, append_assoc)
  serialize-encoding (dict es) output = simp (entries-encoding es, append_assoc)

  elements-encoding :
      (vs : Values) (output : List ℕ) → serialize_elements vs output ≡ output ++ encoding_values vs
  elements-encoding nil output = simp append-nil
  elements-encoding (cons v vs) output =
      simp (serialize-encoding v, elements-encoding vs, append_assoc)

  entries-encoding :
      (es : Entries) (output : List ℕ) → serialize_entries es output ≡ output ++ encoding_entries es
  entries-encoding end output = simp append-nil
  entries-encoding (entry k v es) output =
      simp (serialize-encoding k, serialize-encoding v, entries-encoding es, append_assoc)

-- What the serializer writes of a value is its bencoding.
pub to_bytes-encoding : (v : Value) → to_bytes v ≡ encoding v
unfolding to_bytes
to_bytes-encoding v = serialize-encoding v []
