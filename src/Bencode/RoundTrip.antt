-- ===== src/Bencode/RoundTrip.antt =====
-- src/bencode/de.rs on what src/bencode/ser.rs writes.
use rustorrent.Common.{
  ℕ, suc, ◌+◌, ◌*◌, ◌≤◌, ◌≡◌, refl, ◌∙◌, ap, sym, true, false, List, [], ◌∷◌, ◌++◌, append_assoc,
  append-nil, arith, Bool-cases, inl, inr, ltb, leb, if◌then◌else◌, length,
}
use rustorrent.Bencode.Value.{Value, Values, Entries, int, bytes, list, dict, nil, cons, end, entry}
use rustorrent.Bencode.Reader.{
  ok, err, too_deep, Deserializer, deserializer_new, read_number, leave_list, leave_dict,
}
use rustorrent.Bencode.De.{
  enter_list, enter_dict, deserialize_any, visit_seq, visit_map, from_bytes,
}
use rustorrent.Bencode.After.{
  dicts, dicts_values, dicts_entries, IsPrintable, ArePrintable, EntriesArePrintable, after,
  after_values, after_entries, after-input, after-depth, enter_list-depth, enter_dict-depth,
  enter_list-input, enter_dict-input,
}
use rustorrent.Bencode.Ser.{to_string, to_bytes}
use rustorrent.Bencode.Ser.Decimal.{read_signed-signed_to_string, decimal-head}
use rustorrent.Bencode.Ser.Encoding.{encoding, encoding_values, encoding_entries, to_bytes-encoding}
use rustorrent.Bencode.Work.{work, work_values, work_entries, work-encoding}
use rustorrent.Bencode.Visits.{
  finish, finish-map, at_end-encoding, read_string-encoding, deserialize_any-string, visit_seq-step,
  visit_map-step, deserialize_any-deep, deserialize_any-dict, fuel-suc,
}

mutual
  unfolding encoding after work dicts IsPrintable finish deserialize_any read_number

  pub run-encoding :
      (v : Value) (f : ℕ) (rest : List ℕ) (d : Deserializer)
      → IsPrintable v
      → work v ≤ f
      → d.depth ≤ 101
      → d.input ≡ encoding v ++ rest
      → deserialize_any f (encoding v ++ rest) d ≡ finish (d.depth + dicts v) v (after v rest d)
  run-encoding (int n) f rest d p w h e =
      let (g, fuel) = fuel-suc f w in
      let fits : leb (d.depth + 0) 101 ≡ true = ground (arith, h) in
      rw (fuel, e, append_assoc) (rw (read_signed-signed_to_string n rest p, fits) refl)
  run-encoding (bytes s) f rest d p w h e =
      let (g, fuel) = fuel-suc f w in
      let (c, ys, begin, digit) = decimal-head (length s) (length s) in
      let fits : leb (d.depth + 0) 101 ≡ true = ground (arith, h) in
      let split : encoding (bytes s) ++ rest ≡ to_string (length s) ++ b':' ∷ (s ++ rest) =
        append_assoc (to_string (length s)) (b':' ∷ s) rest in
      let head : encoding (bytes s) ++ rest ≡ c ∷ (ys ++ b':' ∷ (s ++ rest)) =
        split ∙ ap (λ xs. xs ++ b':' ∷ (s ++ rest)) begin in
      rw
        (
          fuel,
          deserialize_any-string g c (ys ++ b':' ∷ (s ++ rest)) (encoding (bytes s) ++ rest) d head
              digit,
          read_string-encoding s rest d p (e ∙ split),
          fits,
        )
        refl
  run-encoding (list vs) f rest d p w h e =
      let (g, fuel) = fuel-suc f (omega (arith, w)) in
      rw (fuel, append_assoc (encoding_values vs) (b'e' ∷ []) rest)
        (rw
          (
            visit_seq-encoding vs g rest (enter_list (encoding_values vs ++ b'e' ∷ rest) d) p
                (omega (arith, w, fuel))
                (omega (arith, h, enter_list-depth (encoding_values vs ++ b'e' ∷ rest) d))
                (enter_list-input (encoding_values vs ++ b'e' ∷ rest) d),
            enter_list-depth (encoding_values vs ++ b'e' ∷ rest) d,
          )
          (finish-map (d.depth + dicts_values vs) vs list _))
  run-encoding (dict es) f rest d p w h e =
      let (g, fuel) = fuel-suc f (omega (arith, w)) in
      rw (fuel, append_assoc (encoding_entries es) (b'e' ∷ []) rest)
        (elim (Bool-cases (ltb 100 d.depth)) [
          | inl deep ↦
              let deeper : leb (d.depth + suc (dicts_entries es)) 101 ≡ false =
                ground (arith, deep) in
              rw (deserialize_any-deep g (encoding_entries es ++ b'e' ∷ rest) d deep, deeper) refl
          | inr within ↦
              let entered = enter_dict (encoding_entries es ++ b'e' ∷ rest) d in
              let depth : entered.depth ≡ d.depth + 1 =
                enter_dict-depth (encoding_entries es ++ b'e' ∷ rest) d in
              let count : entered.depth + dicts_entries es ≡ d.depth + suc (dicts_entries es) =
                omega (arith, depth) in
              rw
                (
                  deserialize_any-dict g (encoding_entries es ++ b'e' ∷ rest) d within,
                  visit_map-encoding es g rest entered p (omega (arith, w, fuel))
                      (ground (arith, depth, within))
                      (enter_dict-input (encoding_entries es ++ b'e' ∷ rest) d),
                  count,
                )
                (finish-map (d.depth + suc (dicts_entries es)) es dict _)
        ])

  visit_seq-encoding :
      (vs : Values) (f : ℕ) (rest : List ℕ) (d : Deserializer)
      → ArePrintable vs
      → work_values vs ≤ f
      → d.depth ≤ 101
      → d.input ≡ encoding_values vs ++ b'e' ∷ rest
      → visit_seq f (encoding_values vs ++ b'e' ∷ rest) d
        ≡ finish (d.depth + dicts_values vs) vs (leave_list rest (after_values vs (b'e' ∷ rest) d))
  visit_seq-encoding nil f rest d p w h e =
      let (g, fuel) = fuel-suc f w in
      let fits : leb (d.depth + 0) 101 ≡ true = ground (arith, h) in rw (fuel, fits) refl
  visit_seq-encoding (cons v vs) f rest d p w h e =
      let (g, fuel) = fuel-suc f (omega (arith, w)) in
      let r₁ = encoding_values vs ++ b'e' ∷ rest in
      let d₁ = after v r₁ d in
      let depth : d₁.depth ≡ d.depth + dicts v = after-depth v r₁ d in
      let count : d₁.depth + dicts_values vs ≡ d.depth + (dicts v + dicts_values vs) =
        omega (arith, depth) in
      rw (fuel, append_assoc (encoding v) (encoding_values vs) (b'e' ∷ rest))
        (visit_seq-step v vs g (encoding v ++ r₁) d d₁
          (leave_list rest (after_values vs (b'e' ∷ rest) d₁)) (d.depth + dicts v)
          (d.depth + (dicts v + dicts_values vs)) (at_end-encoding v r₁)
          (run-encoding v g r₁ d p.0 (omega (arith, w, fuel)) h
            (e ∙ append_assoc (encoding v) (encoding_values vs) (b'e' ∷ rest)))
          (omega arith)
          λ fits.
            let others =
              visit_seq-encoding vs g rest d₁ p.1 (omega (arith, w, fuel))
                (omega (arith, fits, depth)) (after-input v r₁ d) in
            rw (after-input v r₁ d) (
              others
              ∙ ap (λ n. finish n vs (leave_list rest (after_values vs (b'e' ∷ rest) d₁))) count))

  visit_map-encoding :
      (es : Entries) (f : ℕ) (rest : List ℕ) (d : Deserializer)
      → EntriesArePrintable es
      → work_entries es ≤ f
      → d.depth ≤ 101
      → d.input ≡ encoding_entries es ++ b'e' ∷ rest
      → visit_map f (encoding_entries es ++ b'e' ∷ rest) d
        ≡ finish
            (d.depth + dicts_entries es)
            es
            (leave_dict rest (after_entries es (b'e' ∷ rest) d))
  visit_map-encoding end f rest d p w h e =
      let (g, fuel) = fuel-suc f w in
      let fits : leb (d.depth + 0) 101 ≡ true = ground (arith, h) in rw (fuel, fits) refl
  visit_map-encoding (entry k v es) f rest d p w h e =
      let (g, fuel) = fuel-suc f (omega (arith, w)) in
      let tail = b'e' ∷ rest in
      let r₂ = encoding_entries es ++ tail in
      let r₁ = encoding v ++ r₂ in
      let d₁ = after k r₁ d in
      let d₂ = after v r₂ d₁ in
      let d₃ = leave_dict rest (after_entries es tail d₂) in
      let depth₁ : d₁.depth ≡ d.depth + dicts k = after-depth k r₁ d in
      let depth₂ : d₂.depth ≡ d₁.depth + dicts v = after-depth v r₂ d₁ in
      let a = d.depth + dicts k in
      let b = d.depth + (dicts k + dicts v) in
      let c = d.depth + (dicts k + dicts v + dicts_entries es) in
      let count₁ : d₁.depth + dicts v ≡ b = omega (arith, depth₁) in
      let count₂ : d₂.depth + dicts_entries es ≡ c = omega (arith, depth₁, depth₂) in
      rw
        (
          fuel,
          append_assoc (encoding k) (encoding v ++ encoding_entries es) tail,
          append_assoc (encoding v) (encoding_entries es) tail,
        )
        (visit_map-step k v es g (encoding k ++ r₁) d d₁ d₂ d₃ a b c (at_end-encoding k r₁)
          (run-encoding k g r₁ d p.0 (omega (arith, w, fuel)) h (
            e
            ∙ append_assoc (encoding k) (encoding v ++ encoding_entries es) tail
            ∙ ap (λ xs. encoding k ++ xs) (append_assoc (encoding v) (encoding_entries es) tail)))
          (omega arith) (omega arith)
          (λ fits. rw (after-input k r₁ d) (
            run-encoding v g r₂ d₁ p.1 (omega (arith, w, fuel)) (omega (arith, fits, depth₁))
              (after-input k r₁ d)
            ∙ ap (λ n. finish n v d₂) count₁))
          (λ fits. rw (after-input v r₂ d₁) (
            visit_map-encoding es g rest d₂ p.2 (omega (arith, w, fuel))
              (omega (arith, fits, depth₁, depth₂)) (after-input v r₂ d₁)
            ∙ ap (λ n. finish n es d₃) count₂)))

-- Two units of fuel for each byte are enough, and `from_bytes` gives back every value of at most 101
-- dictionaries, counted at any depth and side by side, that `to_bytes` wrote. With more dictionaries
-- than that it gives the error TooDeep. Numbers and lengths fit 64 bits.
pub from_bytes-to_bytes :
    (v : Value) (fuel : ℕ)
    → IsPrintable v
    → 2 * length (to_bytes v) ≤ fuel
    → from_bytes fuel (to_bytes v) ≡ (
        if leb (dicts v) 101
        then ok (v, after v [] (deserializer_new (to_bytes v)))
        else err too_deep)
unfolding from_bytes finish
from_bytes-to_bytes v fuel p h =
    let e = to_bytes-encoding v in
    let whole = append-nil (encoding v) in
    let steps : work v ≤ fuel = omega (arith, work-encoding v, h, ap (λ xs. length xs) e) in
    let start = deserializer_new (encoding v) in
    let count : 0 + dicts v ≡ dicts v = omega arith in
    rw e (
      ap (λ s. deserialize_any fuel s start) (sym whole)
      ∙ run-encoding v fuel [] start p steps (omega arith) (sym whole)
      ∙ ap (λ n. finish n v (after v [] start)) count)
