-- ===== src/Bencode/Work.antt =====
-- How many calls of the reader in src/bencode/de.rs a value costs.
use rustorrent.Common.{ℕ, suc, ◌+◌, ◌*◌, ◌≤◌, ◌<◌, [], ◌∷◌, ◌++◌, arith, length, length-append}
use rustorrent.Bencode.Value.{Value, Values, Entries, int, bytes, list, dict, nil, cons, end, entry}
use rustorrent.Bencode.Ser.{to_string, signed_to_string}
use rustorrent.Bencode.Ser.Encoding.{encoding, encoding_values, encoding_entries}

-- the calls that a value costs
unfoldable mutual
  pub work : Value → ℕ
  work (int n) = 1
  work (bytes s) = 1
  work (list vs) = suc (work_values vs)
  work (dict es) = suc (work_entries es)

  pub work_values : Values → ℕ
  work_values nil = 1
  work_values (cons v vs) = suc (work v + work_values vs)

  pub work_entries : Entries → ℕ
  work_entries end = 1
  work_entries (entry k v es) = suc (work k + work v + work_entries es)

pub work-positive : (v : Value) → 0 < work v
unfolding work
work-positive (int n) = omega arith
work-positive (bytes s) = omega arith
work-positive (list vs) = omega arith
work-positive (dict es) = omega arith

mutual
  unfolding work encoding

  pub work-encoding : (v : Value) → suc (work v) ≤ 2 * length (encoding v)
  work-encoding (int n) = omega (arith, length-append {0} (signed_to_string n) (b'e' ∷ []))
  work-encoding (bytes s) = omega (arith, length-append {0} (to_string (length s)) (b':' ∷ s))
  work-encoding (list vs) =
      omega (arith, length-append {0} (encoding_values vs) (b'e' ∷ []), work_values-encoding vs)
  work-encoding (dict es) =
      omega (arith, length-append {0} (encoding_entries es) (b'e' ∷ []), work_entries-encoding es)

  work_values-encoding : (vs : Values) → work_values vs ≤ suc (2 * length (encoding_values vs))
  work_values-encoding nil = omega arith
  work_values-encoding (cons v vs) = omega (
    arith,
    length-append {0} (encoding v) (encoding_values vs),
    work-encoding v,
    work_values-encoding vs,
  )

  work_entries-encoding : (es : Entries) → work_entries es ≤ suc (2 * length (encoding_entries es))
  work_entries-encoding end = omega arith
  work_entries-encoding (entry k v es) = omega (
    arith,
    length-append {0} (encoding k) (encoding v ++ encoding_entries es),
    length-append {0} (encoding v) (encoding_entries es),
    work-encoding k,
    work-encoding v,
    work_entries-encoding es,
  )
