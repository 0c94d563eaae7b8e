-- ===== src/Bencode/After.antt =====
-- src/bencode/de.rs: the state that the reader has behind a value, by the structure of the value.
use rustorrent.Common.{ℕ, suc, ◌+◌, ◌^◌, ◌<◌, ◌≡◌, refl, ◌∙◌, ap, List, ◌∷◌, ◌++◌, arith, length}
use rustorrent.Bencode.Value.{Value, Values, Entries, int, bytes, list, dict, nil, cons, end, entry}
use rustorrent.Bencode.Reader.{Deserializer, mark_info, leave_list, leave_dict}
use rustorrent.Bencode.De.{enter_list, enter_dict}
use rustorrent.Bencode.Ser.Encoding.{encoding, encoding_values, encoding_entries}

-- the dictionaries in a value
unfoldable mutual
  pub dicts : Value → ℕ
  dicts (int n) = 0
  dicts (bytes s) = 0
  dicts (list vs) = dicts_values vs
  dicts (dict es) = suc (dicts_entries es)

  pub dicts_values : Values → ℕ
  dicts_values nil = 0
  dicts_values (cons v vs) = dicts v + dicts_values vs

  pub dicts_entries : Entries → ℕ
  dicts_entries end = 0
  dicts_entries (entry k v es) = dicts k + dicts v + dicts_entries es

-- Integers and the lengths of strings fit 64 bits.
unfoldable mutual
  pub IsPrintable : Value → Type 0
  IsPrintable (int n) = n < 2 ^ 64
  IsPrintable (bytes s) = length s < 2 ^ 64
  IsPrintable (list vs) = ArePrintable vs
  IsPrintable (dict es) = EntriesArePrintable es

  pub ArePrintable : Values → Type 0
  ArePrintable nil = Unit
  ArePrintable (cons v vs) = IsPrintable v × ArePrintable vs

  pub EntriesArePrintable : Entries → Type 0
  EntriesArePrintable end = Unit
  EntriesArePrintable (entry k v es) = IsPrintable k × IsPrintable v × EntriesArePrintable es

-- the deserializer behind a value whose bencoding `rest` follows
unfoldable mutual
  unfolding encoding

  pub after : Value → List ℕ → Deserializer → Deserializer
  after (int n) rest d = record d { input = rest }
  after (bytes s) rest d = mark_info s rest d
  after (list vs) rest d =
      let tail = b'e' ∷ rest in
      leave_list rest (after_values vs tail (enter_list (encoding_values vs ++ tail) d))
  after (dict es) rest d =
      let tail = b'e' ∷ rest in
      leave_dict rest (after_entries es tail (enter_dict (encoding_entries es ++ tail) d))

  pub after_values : Values → List ℕ → Deserializer → Deserializer
  after_values nil rest d = d
  after_values (cons v vs) rest d = after_values vs rest (after v (encoding_values vs ++ rest) d)

  pub after_entries : Entries → List ℕ → Deserializer → Deserializer
  after_entries end rest d = d
  after_entries (entry k v es) rest d =
      let rest_v = encoding_entries es ++ rest in
      after_entries es rest (after v rest_v (after k (encoding v ++ rest_v) d))

mark_info-frame :
    (s rest : List ℕ) (d : Deserializer)
    → ((mark_info s rest d).depth ≡ d.depth) × ((mark_info s rest d).input ≡ rest)
mark_info-frame s rest d = ground arith

leave_list-frame :
    (rest : List ℕ) (d : Deserializer)
    → ((leave_list rest d).depth ≡ d.depth) × ((leave_list rest d).input ≡ rest)
leave_list-frame rest d = ground arith

leave_dict-frame :
    (rest : List ℕ) (d : Deserializer)
    → ((leave_dict rest d).depth ≡ d.depth) × ((leave_dict rest d).input ≡ rest)
leave_dict-frame rest d = ground arith

pub enter_list-depth : (rest : List ℕ) (d : Deserializer) → (enter_list rest d).depth ≡ d.depth
enter_list-depth rest d = ground arith

pub enter_dict-depth : (rest : List ℕ) (d : Deserializer) → (enter_dict rest d).depth ≡ d.depth + 1
enter_dict-depth rest d = ground arith

pub enter_list-input : (rest : List ℕ) (d : Deserializer) → (enter_list rest d).input ≡ rest
enter_list-input rest d = ground arith

pub enter_dict-input : (rest : List ℕ) (d : Deserializer) → (enter_dict rest d).input ≡ rest
enter_dict-input rest d = ground arith

pub after-input : (v : Value) (rest : List ℕ) (d : Deserializer) → (after v rest d).input ≡ rest
unfolding after
after-input (int n) rest d = refl
after-input (bytes s) rest d = (mark_info-frame s rest d).1
after-input (list vs) rest d =
    let tail = b'e' ∷ rest in
    (leave_list-frame rest (after_values vs tail (enter_list (encoding_values vs ++ tail) d))).1
after-input (dict es) rest d =
    let tail = b'e' ∷ rest in
    (leave_dict-frame rest (after_entries es tail (enter_dict (encoding_entries es ++ tail) d))).1

mutual
  unfolding after dicts

  pub after-depth :
      (v : Value) (rest : List ℕ) (d : Deserializer) → (after v rest d).depth ≡ d.depth + dicts v
  after-depth (int n) rest d = omega arith
  after-depth (bytes s) rest d = (mark_info-frame s rest d).0 ∙ omega arith
  after-depth (list vs) rest d =
      let entered = enter_list (encoding_values vs ++ b'e' ∷ rest) d in
      let e = after_values-depth vs (b'e' ∷ rest) entered in
      let h = enter_list-depth (encoding_values vs ++ b'e' ∷ rest) d in
      (leave_list-frame rest (after_values vs (b'e' ∷ rest) entered)).0
      ∙ e
      ∙ ap (λ n. n + dicts_values vs) h
  after-depth (dict es) rest d =
      let entered = enter_dict (encoding_entries es ++ b'e' ∷ rest) d in
      let e = after_entries-depth es (b'e' ∷ rest) entered in
      let h = enter_dict-depth (encoding_entries es ++ b'e' ∷ rest) d in
      (leave_dict-frame rest (after_entries es (b'e' ∷ rest) entered)).0
      ∙ e
      ∙ ap (λ n. n + dicts_entries es) h
      ∙ omega arith

  after_values-depth :
      (vs : Values) (rest : List ℕ) (d : Deserializer)
      → (after_values vs rest d).depth ≡ d.depth + dicts_values vs
  after_values-depth nil rest d = omega arith
  after_values-depth (cons v vs) rest d =
      after_values-depth vs rest (after v (encoding_values vs ++ rest) d)
      ∙ ap (λ n. n + dicts_values vs) (after-depth v (encoding_values vs ++ rest) d)
      ∙ omega arith

  after_entries-depth :
      (es : Entries) (rest : List ℕ) (d : Deserializer)
      → (after_entries es rest d).depth ≡ d.depth + dicts_entries es
  after_entries-depth end rest d = omega arith
  after_entries-depth (entry k v es) rest d =
      let rest_v = encoding_entries es ++ rest in
      let after_k = after k (encoding v ++ rest_v) d in
      after_entries-depth es rest (after v rest_v after_k)
      ∙ ap (λ n. n + dicts_entries es) (after-depth v rest_v after_k)
      ∙ ap (λ n. n + dicts v + dicts_entries es) (after-depth k (encoding v ++ rest_v) d)
      ∙ omega arith
