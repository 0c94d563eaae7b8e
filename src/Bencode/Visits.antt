-- ===== src/Bencode/Visits.antt =====
-- src/bencode/de.rs: each call of the reader on what the serializer wrote.
use rustorrent.Common.{
  ℕ, zero, suc, ◌^◌, ◌≤◌, ◌<◌, ◌≡◌, refl, ◌∙◌, true, false, none, List, ◌∷◌, ◌++◌, arith,
  Bool-cases, inl, inr, ltb, leb, leb→le, if◌then◌else◌, length, length-append, take-append,
  drop-append,
}
use rustorrent.Bencode.Value.{Value, Values, Entries, int, bytes, list, dict, cons, entry}
use rustorrent.Bencode.Reader.{
  Run, ok, err, ◌>>=◌, too_deep, Deserializer, is_digit, read_slice, read_string, mark_info,
}
use rustorrent.Bencode.De.{
  string_start, start_of, run_string, enter_dict, at_end, deserialize_any, visit_seq, visit_map,
}
use rustorrent.Bencode.Ser.{to_string}
use rustorrent.Bencode.Ser.Decimal.{read_integer-to_string, decimal-head}
use rustorrent.Bencode.Ser.Encoding.{encoding}

pub start-digit : (c : ℕ) → is_digit c ≡ true → start_of c ≡ string_start
unfolding start_of
start-digit c h = ground (arith, h)

at_end-digit : (c : ℕ) (r : List ℕ) → is_digit c ≡ true → at_end (c ∷ r) ≡ none
at_end-digit c r h = ground (arith, h)

pub at_end-encoding : (v : Value) (rest : List ℕ) → at_end (encoding v ++ rest) ≡ none
unfolding encoding
at_end-encoding (int n) rest = refl
at_end-encoding (bytes s) rest =
    let (c, ys, e, digit) = decimal-head (length s) (length s) in rw e (at_end-digit c _ digit)
at_end-encoding (list vs) rest = refl
at_end-encoding (dict es) rest = refl

-- What `deserialize_any` gives for a value whose bencoding `rest` follows: the value, or the error for
-- the hundred and second dictionary.
unfoldable pub finish {ℓ} : {A : Type ℓ} → ℕ → A → Deserializer → Run (A × Deserializer)
finish count v d = if leb count 101 then ok (v, d) else err too_deep

pub read_string-encoding :
    (s rest : List ℕ) (d : Deserializer)
    → length s < 2 ^ 64
    → d.input ≡ to_string (length s) ++ b':' ∷ (s ++ rest)
    → read_string d ≡ ok (s, mark_info s rest d)
unfolding read_string read_slice
read_string-encoding s rest d h e =
    let enough : leb (length s) (length (s ++ rest)) ≡ true =
      ground (arith, length-append {0} s rest) in
    rw
      (
        e,
        read_integer-to_string b':' (length s) (s ++ rest) h refl,
        enough,
        take-append,
        drop-append,
      )
      refl

module _ {ℓ κ} {A : Type ℓ} {B : Type κ} where
  finish-bind :
      (a b : ℕ) (v : A) (d₁ : Deserializer) (k : A × Deserializer → Run (B × Deserializer)) (w : B)
      (d₂ : Deserializer)
      → a ≤ b
      → (a ≤ 101 → k (v, d₁) ≡ finish b w d₂)
      → (finish a v d₁ >>= k) ≡ finish b w d₂
  unfolding finish
  finish-bind a b v d₁ k w d₂ h next = elim (Bool-cases (leb a 101)) [
    | inl fits ↦ rw fits (next (leb→le a 101 fits))
    | inr deep ↦ let deeper : leb b 101 ≡ false = ground (arith, deep, h) in rw (deep, deeper) refl
  ]

  pub finish-map :
      (a : ℕ) (v : A) (g : A → B) (d : Deserializer)
      → (finish a v d >>= λ (x, d'). ok (g x, d')) ≡ finish a (g v) d
  unfolding finish
  finish-map a v g d = elim (Bool-cases (leb a 101)) [
    | inl fits ↦ rw fits refl
    | inr deep ↦ rw deep refl
  ]

visit_seq-none :
    (f : ℕ) (i : List ℕ) (d : Deserializer)
    → at_end i ≡ none
    → visit_seq (suc f) i d ≡ (
        deserialize_any f i d >>= λ (v, d₁).
        visit_seq f d₁.input d₁ >>= λ (vs, d₂). ok (cons v vs, d₂))
unfolding visit_seq
visit_seq-none f i d h = rw (h, visit_seq) refl

visit_map-none :
    (f : ℕ) (i : List ℕ) (d : Deserializer)
    → at_end i ≡ none
    → visit_map (suc f) i d ≡ (
        deserialize_any f i d >>= λ (k, d₁). deserialize_any f d₁.input d₁ >>= λ (v, d₂).
        visit_map f d₂.input d₂ >>= λ (es, d₃). ok (entry k v es, d₃))
unfolding visit_map
visit_map-none f i d h = rw (h, visit_map) refl

pub deserialize_any-string :
    (f : ℕ) (c : ℕ) (r i : List ℕ) (d : Deserializer)
    → i ≡ c ∷ r
    → is_digit c ≡ true
    → deserialize_any (suc f) i d ≡ run_string d
unfolding deserialize_any
deserialize_any-string f c r i d e digit = rw (e, start-digit c digit) refl

pub visit_seq-step :
    (v : Value) (vs : Values) (f : ℕ) (i : List ℕ) (d d₁ d₂ : Deserializer) (a b : ℕ)
    → at_end i ≡ none
    → deserialize_any f i d ≡ finish a v d₁
    → a ≤ b
    → (a ≤ 101 → visit_seq f d₁.input d₁ ≡ finish b vs d₂)
    → visit_seq (suc f) i d ≡ finish b (cons v vs) d₂
visit_seq-step v vs f i d d₁ d₂ a b more first h others =
    visit_seq-none f i d more
    ∙ rw first (
        finish-bind a b v d₁ _ (cons v vs) d₂ h
          λ fits. rw (others fits) (finish-map b vs (cons v) d₂))

pub visit_map-step :
    (k v : Value) (es : Entries) (f : ℕ) (i : List ℕ) (d d₁ d₂ d₃ : Deserializer) (a b c : ℕ)
    → at_end i ≡ none
    → deserialize_any f i d ≡ finish a k d₁
    → a ≤ b
    → b ≤ c
    → (a ≤ 101 → deserialize_any f d₁.input d₁ ≡ finish b v d₂)
    → (b ≤ 101 → visit_map f d₂.input d₂ ≡ finish c es d₃)
    → visit_map (suc f) i d ≡ finish c (entry k v es) d₃
visit_map-step k v es f i d d₁ d₂ d₃ a b c more first h h' second others =
    visit_map-none f i d more
    ∙ rw first (
        finish-bind a c k d₁ _ (entry k v es) d₃ (omega (arith, h, h')) λ fits. rw (second fits) (
          finish-bind b c v d₂ _ (entry k v es) d₃ h'
            λ fits'. rw (others fits') (finish-map c es (entry k v) d₃)))

pub deserialize_any-deep :
    (f : ℕ) (r : List ℕ) (d : Deserializer)
    → ltb 100 d.depth ≡ true
    → deserialize_any (suc f) (b'd' ∷ r) d ≡ err too_deep
unfolding deserialize_any
deserialize_any-deep f r d h = rw (h, deserialize_any) refl

pub deserialize_any-dict :
    (f : ℕ) (r : List ℕ) (d : Deserializer)
    → ltb 100 d.depth ≡ false
    → deserialize_any (suc f) (b'd' ∷ r) d
      ≡ (visit_map f r (enter_dict r d) >>= λ (es, d'). ok (dict es, d'))
unfolding deserialize_any
deserialize_any-dict f r d h = rw (h, deserialize_any) refl

pub fuel-suc : (f : ℕ) → 1 ≤ f → (g : ℕ) × (f ≡ suc g)
fuel-suc zero h = absurd (omega arith)
fuel-suc (suc g) h = (g, refl)
