-- ===== src/Utp/Stream/Under.antt =====
-- Which packets the map of src/utp/stream.rs loses while a read goes on: none that is still to be read.
use rustorrent.Common.{
  ℕ, suc, ◌+◌, ◌^◌, ◌≤◌, ◌<◌, ◌≡◌, refl, sym, ap, ◌∙◌, true, Bool-cases, inl, inr, none, some, [],
  ◌∷◌, ltb, ◌==◌, if◌then◌else◌, All, arith,
}
use rustorrent.Utp.Seq.{SequenceNumber, add, cmp_greater}
use rustorrent.Utp.Seq.Order.{cmp_window}
use rustorrent.Utp.Datagram.{Packet}
use rustorrent.Utp.Stream.{PacketMap, lookup, retain_greater}

module _ (base : SequenceNumber) where
  -- Every number is one of a packet before packet `top`, and less than half the numbers before packet `i`.
  abbrev pub IsUnder : ℕ → ℕ → PacketMap → Type 0
  IsUnder top i map =
      All
        (λ (e : SequenceNumber × Packet).
          (j : ℕ) × (e.0 ≡ add base j) × (j < top) × (i < j + 2 ^ 15))
        map

  pub retain-IsUnder :
      (top i : ℕ) (map : PacketMap)
      → top ≤ i + 2 ^ 15
      → IsUnder top i map
      → IsUnder top (suc i) (retain_greater (add base i) map)
  unfolding retain_greater
  retain-IsUnder top i [] t m = tt
  retain-IsUnder top i ((k, p) ∷ map) t ((j, s, a, b), m) =
      elim (Bool-cases (cmp_greater k (add base i))) [
        | inl e ↦
            let (_, _, w) = cmp_window base j i (omega (arith, t, a)) b in
            let l : ltb i j ≡ true = sym w ∙ ap (λ x. cmp_greater x (add base i)) (sym s) ∙ e in
            rw e ((j, s, a, ground (arith, l)), retain-IsUnder top i map t m)
        | inr e ↦ rw e (retain-IsUnder top i map t m)
      ]

  pub lookup-IsUnder :
      (top i : ℕ) (map : PacketMap) (p : Packet)
      → top ≤ i + 2 ^ 15
      → IsUnder top i map
      → lookup (add base i) map ≡ some p
      → i < top
  lookup-IsUnder top i [] p t m e = absurd (ground (arith, e))
  lookup-IsUnder top i ((k, p') ∷ map) p t ((j, s, a, b), m) e =
      elim (Bool-cases (add base i == k)) [
        | inl same ↦ let ij : j ≡ i = ground (arith, same, s, a, b, t) in omega (arith, ij, a)
        | inr other ↦
            lookup-IsUnder top i map p t m
              (ap (λ c. if c then some p' else lookup (add base i) map) (sym other) ∙ e)
      ]

  -- A packet behind packet `i` that is not there once packet `i` is read was not there before.
  pub retain-absent :
      (top i next : ℕ) (map : PacketMap)
      → top ≤ i + 2 ^ 15
      → IsUnder top i map
      → i < next
      → next ≤ top
      → lookup (add base next) (retain_greater (add base i) map) ≡ none
      → lookup (add base next) map ≡ none
  unfolding retain_greater
  retain-absent top i next [] t m l l' e = e
  retain-absent top i next ((k, p) ∷ map) t ((j, s, a, b), m) l l' e =
      let rest = retain_greater (add base i) map in
      elim (Bool-cases (add base next == k)) [
        | inl same ↦
            let jn : j ≡ next = ground (arith, same, s, a, b, t, l, l') in
            let (_, _, w) = cmp_window base j i (omega (arith, t, a)) b in
            let g : cmp_greater k (add base i) ≡ true =
              ap (λ x. cmp_greater x (add base i)) s ∙ w ∙ ground (arith, jn, l) in
            let found : lookup (add base next)
                  (if cmp_greater k (add base i) then (k, p) ∷ rest else rest)
                ≡ some p =
              rw (g, same) refl in
            absurd (ground (arith, found, e))
        | inr other ↦ elim (Bool-cases (cmp_greater k (add base i))) [
          | inl g ↦
              let e' : lookup (add base next) ((k, p) ∷ rest) ≡ none =
                sym (ap (λ c. lookup (add base next) (if c then (k, p) ∷ rest else rest)) g) ∙ e in
              rw other (
                retain-absent top i next map t m l l'
                  (ap (λ c. if c then some p else lookup (add base next) rest) (sym other) ∙ e'))
          | inr g ↦ rw other (
              retain-absent top i next map t m l l'
                (sym (ap (λ c. lookup (add base next) (if c then (k, p) ∷ rest else rest)) g) ∙ e))
        ]
      ]
