-- ===== src/Picker/Rule.antt =====
-- A rule for `pick_piece_inner`: what its closure keeps, the loop keeps, and the loop does not panic.
use rustorrent.Common.{
  ℕ, ◌≤◌, length-drop, All-append, All-drop, ◌<◌, ◌≡◌, refl, ◌∙◌, ap, Bool, true, false, ◌||◌,
  Option, none, some, List, [], ◌∷◌, ◌++◌, All, arith, Bool-cases, inl, inr, ◌==◌, length,
  get_elem?, get_elem?-eq-get_or, get_or, drop,
}
use rustorrent.Common.Checked.{◌>>=◌}
use rustorrent.Pieces.{PieceIndex}
use rustorrent.BitField.{BitField, get_bit}
use rustorrent.Picker.{
  PeersPerPiece, PieceState, PiecePicker, Picked, PickMode, continue, stop, Collector, contains,
}
use rustorrent.Picker.Pick.{
  picked, and_then, visit_haves, flush_haves, next_npeers, flush_some, clear_haves, visit_piece,
  visit_pieces, visit_from, pick_piece_inner, no_worker,
}

or_false : (a b : Bool) → (a || b) ≡ false → a ≡ false
or_false false b e = refl
or_false true b e = absurd (ground (arith, e))

module _ {S : Type 0} (shuffle : List PieceIndex → List PieceIndex) (c : Collector)
    (fun : S × PiecePicker → Picked → Option (PickMode × (S × PiecePicker)))
    (Inv : S × PiecePicker → Type 0) (Wanted : PieceIndex → Type 0) where
  -- the invariant, and that every piece saved for later is wanted
  abbrev pub Ready : S × PiecePicker → Type 0
  Ready s = Inv s × All Wanted s.1.haves

  -- The run ends without a panic, and ready.
  abbrev pub Good : Option (PickMode × (S × PiecePicker)) → Type 0
  Good none = ⊥
  Good (some (m, s)) = Ready s

  Good-and_then :
      (r : Option (PickMode × (S × PiecePicker)))
      (k : S × PiecePicker → Option (PickMode × (S × PiecePicker)))
      → Good r
      → ((s : S × PiecePicker) → Ready s → Good (k s))
      → Good (and_then r k)
  Good-and_then none k h h' = h
  Good-and_then (some (stop, s)) k h h' = h
  Good-and_then (some (continue, s)) k h h' = h' s h

  pub Good-bind :
      {A : Type 0} (o : Option A) (a : A) (k : A → Option (PickMode × (S × PiecePicker)))
      → o ≡ some a
      → Good (k a)
      → Good (o >>= k)
  Good-bind o a k e h = rw e h

  Good-skip :
      (b : Bool) (x y : Option (PickMode × (S × PiecePicker)))
      → Good x
      → (b ≡ false → Good y)
      → Good (elim b [ true ↦ x | false ↦ y ])
  Good-skip true x y h h' = h
  Good-skip false x y h h' = h' refl

  module _
      (keeps : (s : S × PiecePicker) (j : PieceIndex)
        → Ready s
        → Wanted j
        → Good (fun s (picked c j)))
      (saves : (s : S) (p : PiecePicker) (haves : List PieceIndex)
        → Inv (s, p)
        → Inv (s, record p { haves = haves }))
      (shuffles : (haves : List PieceIndex) → All Wanted haves → All Wanted (shuffle haves)) where
    visit_haves-Good :
        (haves : List PieceIndex) (s : S × PiecePicker)
        → All Wanted haves
        → Ready s
        → Good (visit_haves shuffle c fun haves s)
    unfolding visit_haves
    visit_haves-Good [] s h r = r
    visit_haves-Good (j ∷ js) s h r =
        Good-and_then (fun s (picked c j)) (visit_haves shuffle c fun js) (keeps s j r h.0)
          (λ s' r'. visit_haves-Good js s' h.1 r')

    flush_some-Good :
        (haves : List PieceIndex) (s : S × PiecePicker)
        → Ready s
        → Good (flush_some shuffle c fun haves s)
    unfolding flush_some flush_haves
    flush_some-Good [] s r = r
    flush_some-Good (j ∷ js) (s, p) r =
        let h = shuffles p.haves r.1 in
        visit_haves-Good (shuffle p.haves) (s, record p { haves = shuffle p.haves }) h
          (saves s p (shuffle p.haves) r.0, h)

    next_npeers-Good :
        (same : Bool) (s : S × PiecePicker) → Ready s → Good (next_npeers shuffle c fun same s)
    unfolding next_npeers
    next_npeers-Good true s r = r
    next_npeers-Good false s r =
        Good-and_then (flush_some shuffle c fun s.1.haves s) (clear_haves shuffle c fun)
          (flush_some-Good s.1.haves s r) (λ s' r'. (saves s'.0 s'.1 [] r'.0, tt))

    visit_piece-Good :
        (have empty : Bool) (j : PieceIndex) (s : S × PiecePicker)
        → (have ≡ true → Wanted j)
        → Ready s
        → Good (visit_piece shuffle c fun have empty j s)
    unfolding visit_piece
    visit_piece-Good false empty j s h r = r
    visit_piece-Good true true j s h r = keeps s j r (h refl)
    visit_piece-Good true false j (s, p) h r =
        let haves = p.haves ++ j ∷ [] in
        (saves s p haves r.0, All-append Wanted p.haves j r.1 (h refl))

    module _ (peer : ℕ) (bitfield : BitField) (n : ℕ)
        (backed : (j : PieceIndex) → (b : Bool) × (get_bit bitfield j ≡ some b))
        (states : (s : S × PiecePicker) → Inv s → length s.1.states ≡ n)
        (wants : (s : S × PiecePicker) (j : PieceIndex) (state : PieceState)
          → Inv s
          → get_elem? s.1.states j ≡ some state
          → state.downloaded ≡ false
          → get_bit bitfield j ≡ some true
          → Wanted j) where
      pub visit_pieces-Good :
          (pieces : List PeersPerPiece) (current : ℕ) (s : S × PiecePicker)
          → All (λ a. a.piece_index < n) pieces
          → Ready s
          → Good (visit_pieces shuffle c fun peer bitfield pieces current s)
      unfolding visit_pieces
      visit_pieces-Good [] current s h r = flush_some-Good s.1.haves s r
      visit_pieces-Good (a ∷ rest) current s h r =
          let j = a.piece_index in
          let state : PieceState =
            get_or s.1.states j (record { downloaded = false; workers = [] }) in
          let e : get_elem? s.1.states j ≡ some state =
            get_elem?-eq-get_or s.1.states j (record { downloaded = false; workers = [] })
              (omega (arith, h.0, states s r.0)) in
          let (have, bit) = backed j in
          Good-bind (get_elem? s.1.states j) state _ e (
            Good-skip (state.downloaded || contains state.workers peer) _ _
              (visit_pieces-Good rest current s h.1 r)
              (λ open_piece.
                Good-and_then (next_npeers shuffle c fun (a.npeers == current) s) _
                  (next_npeers-Good (a.npeers == current) s r)
                  (λ s₁ r₁. Good-bind (get_bit bitfield j) have _ bit (
                    Good-and_then (visit_piece shuffle c fun have (no_worker state.workers) j s₁) _
                      (visit_piece-Good have (no_worker state.workers) j s₁
                        (λ true_bit.
                          wants s j state r.0 e
                            (or_false state.downloaded (contains state.workers peer) open_piece)
                            (bit ∙ ap some true_bit))
                        r₁)
                      (λ s₂ r₂. visit_pieces-Good rest a.npeers s₂ h.1 r₂)))))

      visit_from-Good :
          (pieces : List PeersPerPiece) (s : S × PiecePicker)
          → 0 < length pieces
          → All (λ a. a.piece_index < n) pieces
          → Ready s
          → Good (visit_from shuffle c fun peer bitfield pieces s)
      visit_from-Good [] s l h r = absurd (omega (arith, l))
      visit_from-Good (a ∷ rest) s l h r = visit_pieces-Good (a ∷ rest) a.npeers s h r

      -- From a start inside the sorted pieces, whose states all exist, the whole loop ends ready.
      pub pick_piece_inner-Good :
          (s : S × PiecePicker)
          → s.1.start_at ≤ length s.1.sorted_index
          → All (λ a. a.piece_index < n) s.1.sorted_index
          → Ready s
          → Good (pick_piece_inner shuffle c fun peer bitfield s)
      unfolding pick_piece_inner
      pick_piece_inner-Good (s, p) l h r = elim (Bool-cases (p.start_at == length p.sorted_index)) [
        | inl done ↦ rw done r
        | inr more ↦ rw more (
            visit_from-Good (drop p.start_at p.sorted_index) (s, p)
              (ground (arith, length-drop p.start_at p.sorted_index, l, more))
              (All-drop (λ a. a.piece_index < n) p.start_at p.sorted_index h) r)
      ]
