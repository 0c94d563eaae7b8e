-- ===== src/Bencode/Quiet.antt =====
-- src/bencode/de.rs: which values leave the reader's marks of the info dictionary as they are.
use rustorrent.Common.{
  ℕ, suc, ◌+◌, ◌≡◌, refl, ◌∙◌, ap, false, Option, some, List, ◌∷◌, ◌++◌, append_assoc, arith,
}
use rustorrent.Common.Int.{pos}
use rustorrent.Bencode.Value.{Value, Values, Entries, int, bytes, list, dict, nil, cons, end, entry}
use rustorrent.Bencode.Reader.{Deserializer, is_info, mark_info, leave_dict}
use rustorrent.Bencode.Ser.Encoding.{encoding, encoding_values, encoding_entries}
use rustorrent.Bencode.After.{
  dicts, dicts_values, dicts_entries, after, after_values, after_entries,
}

-- No string of the value is `info`.
unfoldable mutual
  pub IsQuiet : Value → Type 0
  IsQuiet (int n) = Unit
  IsQuiet (bytes s) = is_info s ≡ false
  IsQuiet (list vs) = AreQuiet vs
  IsQuiet (dict es) = EntriesAreQuiet es

  pub AreQuiet : Values → Type 0
  AreQuiet nil = Unit
  AreQuiet (cons v vs) = IsQuiet v × AreQuiet vs

  pub EntriesAreQuiet : Entries → Type 0
  EntriesAreQuiet end = Unit
  EntriesAreQuiet (entry k v es) = IsQuiet k × IsQuiet v × EntriesAreQuiet es

abbrev pub state : List ℕ → Option (List ℕ) → Option (List ℕ) → ℕ → ℕ → Deserializer
state i s e n k = record { input = i; start_info = s; end_info = e; info_depth = pos n; depth = k }

mark_info-quiet :
    (s rest : List ℕ) (d : Deserializer)
    → is_info s ≡ false
    → mark_info s rest d ≡ record d { input = rest }
mark_info-quiet s rest d h = rw h refl

leave_dict-inner :
    (i rest : List ℕ) (s e : Option (List ℕ)) (n k : ℕ)
    → leave_dict rest (state i s e (suc (suc (suc n))) k) ≡ state rest s e (suc (suc n)) k
leave_dict-inner i rest s e n k = ground arith

-- Inside `info`'s dictionary a quiet value leaves the marks as they are.
mutual
  unfolding after dicts IsQuiet encoding

  after-quiet :
      (v : Value) (i rest : List ℕ) (s e : Option (List ℕ)) (n k : ℕ)
      → IsQuiet v
      → after v rest (state i s e (suc (suc n)) k) ≡ state rest s e (suc (suc n)) (k + dicts v)
  after-quiet (int m) i rest s e n k q = ap (λ k'. state rest s e (suc (suc n)) k') (omega arith)
  after-quiet (bytes b) i rest s e n k q =
      mark_info-quiet b rest (state i s e (suc (suc n)) k) q
      ∙ ap (λ k'. state rest s e (suc (suc n)) k') (omega arith)
  after-quiet (list vs) i rest s e n k q =
      rw (after_values-quiet vs (b'e' ∷ rest) s e (suc n) k q) refl
  after-quiet (dict es) i rest s e n k q =
      rw
        (
          after_entries-quiet es (b'e' ∷ rest) s e (suc n) (k + 1) q,
          leave_dict-inner (b'e' ∷ rest) rest s e n (k + 1 + dicts_entries es),
        )
        (ap (λ k'. state rest s e (suc (suc n)) k') (omega arith))

  after_values-quiet :
      (vs : Values) (rest : List ℕ) (s e : Option (List ℕ)) (n k : ℕ)
      → AreQuiet vs
      → after_values vs rest (state (encoding_values vs ++ rest) s e (suc (suc n)) k)
        ≡ state rest s e (suc (suc n)) (k + dicts_values vs)
  after_values-quiet nil rest s e n k q = ap (λ k'. state rest s e (suc (suc n)) k') (omega arith)
  after_values-quiet (cons v vs) rest s e n k q =
      rw
        (after-quiet v (encoding_values (cons v vs) ++ rest) (encoding_values vs ++ rest) s e n k
          q.0)
        (after_values-quiet vs rest s e n (k + dicts v) q.1
          ∙ ap (λ k'. state rest s e (suc (suc n)) k') (omega arith))

  after_entries-quiet :
      (es : Entries) (rest : List ℕ) (s e : Option (List ℕ)) (n k : ℕ)
      → EntriesAreQuiet es
      → after_entries es rest (state (encoding_entries es ++ rest) s e (suc (suc n)) k)
        ≡ state rest s e (suc (suc n)) (k + dicts_entries es)
  after_entries-quiet end rest s e n k q = ap (λ k'. state rest s e (suc (suc n)) k') (omega arith)
  after_entries-quiet (entry key v es) rest s e n k q =
      let r₂ = encoding_entries es ++ rest in
      let r₁ = encoding v ++ r₂ in
      rw
        (
          after-quiet key (encoding_entries (entry key v es) ++ rest) r₁ s e n k q.0,
          after-quiet v r₁ r₂ s e n (k + dicts key) q.1,
        )
        (after_entries-quiet es rest s e n (k + dicts key + dicts v) q.2
          ∙ ap (λ k'. state rest s e (suc (suc n)) k') (omega arith))

-- At the level of the key `info` a dictionary's end is marked.
pub after-counted :
    (es : Entries) (i rest : List ℕ) (s e : Option (List ℕ)) (k : ℕ)
    → EntriesAreQuiet es
    → after (dict es) rest (state i s e 1 k) ≡ state rest s (some rest) 1 (k + dicts (dict es))
unfolding after dicts encoding
after-counted es i rest s e k q =
    rw (after_entries-quiet es (b'e' ∷ rest) s e 0 (k + 1) q)
      (ap (λ k'. state rest s (some rest) 1 k') (omega arith))

-- Another value, a list of dictionaries too, leaves the marks as they are.
unfoldable pub IsPlain : Value → Type 0
unfolding IsQuiet
IsPlain (int n) = Unit
IsPlain (bytes s) = is_info s ≡ false
IsPlain (list vs) = AreQuiet vs
IsPlain (dict es) = ⊥

pub after-plain :
    (v : Value) (i rest : List ℕ) (s e : Option (List ℕ)) (k : ℕ)
    → IsPlain v
    → after v rest (state i s e 1 k) ≡ state rest s e 1 (k + dicts v)
unfolding after dicts IsPlain encoding
after-plain (int m) i rest s e k q = ap (λ k'. state rest s e 1 k') (omega arith)
after-plain (bytes b) i rest s e k q =
    mark_info-quiet b rest (state i s e 1 k) q ∙ ap (λ k'. state rest s e 1 k') (omega arith)
after-plain (list vs) i rest s e k q = rw (after_values-quiet vs (b'e' ∷ rest) s e 0 k q) refl
after-plain (dict es) i rest s e k q = absurd q

unfoldable pub ArePlain : Entries → Type 0
unfolding IsPlain
ArePlain end = Unit
ArePlain (entry k v es) = IsPlain k × IsPlain v × ArePlain es

pub after_entries-plain :
    (es : Entries) (rest : List ℕ) (s e : Option (List ℕ)) (k : ℕ)
    → ArePlain es
    → after_entries es rest (state (encoding_entries es ++ rest) s e 1 k)
      ≡ state rest s e 1 (k + dicts_entries es)
unfolding after dicts ArePlain encoding
after_entries-plain end rest s e k q = ap (λ k'. state rest s e 1 k') (omega arith)
after_entries-plain (entry key v es) rest s e k q =
    let r₂ = encoding_entries es ++ rest in
    let r₁ = encoding v ++ r₂ in
    rw
      (
        after-plain key (encoding_entries (entry key v es) ++ rest) r₁ s e k q.0,
        after-plain v r₁ r₂ s e (k + dicts key) q.1,
      )
      (after_entries-plain es rest s e (k + dicts key + dicts v) q.2
        ∙ ap (λ k'. state rest s e 1 k') (omega arith))

unfoldable pub chain : Entries → Entries → Entries
chain end es' = es'
chain (entry k v es) es' = entry k v (chain es es')

pub encoding_entries-chain :
    (es es' : Entries)
    → encoding_entries (chain es es') ≡ encoding_entries es ++ encoding_entries es'
unfolding chain encoding
encoding_entries-chain end es' = refl
encoding_entries-chain (entry k v es) es' = simp (encoding_entries-chain es es', append_assoc)

pub after_entries-chain :
    (es es' : Entries) (rest : List ℕ) (d : Deserializer)
    → after_entries (chain es es') rest d
      ≡ after_entries es' rest (after_entries es (encoding_entries es' ++ rest) d)
unfolding after chain encoding
after_entries-chain end es' rest d = refl
after_entries-chain (entry k v es) es' rest d =
    rw
      (
        encoding_entries-chain es es',
        append_assoc (encoding_entries es) (encoding_entries es') rest,
      )
      (after_entries-chain es es' rest _)
