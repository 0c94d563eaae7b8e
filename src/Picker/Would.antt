-- ===== src/Picker/Would.antt =====
-- `would_pick_piece`: whether there is a piece to ask the peer for.
use mathlib.Core.Path.{fun_ext}
use rustorrent.Common.{
  ℕ, ◌<◌, ◌≡◌, refl, ◌∙◌, ap, Bool, true, false, ◌&&◌, ◌||◌, not, Option, none, some, List, [], ◌∷◌,
  ◌++◌, All, All-drop, arith, Bool-cases, inl, inr, ◌==◌, length, length-drop, get_elem?, get_or,
  get_elem?-eq-get_or, drop,
}
use rustorrent.Common.Checked.{◌>>=◌, bind-some}
use rustorrent.Pieces.{PieceIndex}
use rustorrent.BitField.{BitField, get_bit}
use rustorrent.BitField.Bits.{IsBacked, get_bit-total}
use rustorrent.Picker.{PeersPerPiece, PieceState, PiecePicker, PickMode, stop, Collector, contains}
use rustorrent.Picker.Pick.{
  and_then, visit_haves, flush_some, flush_haves, next_npeers, clear_haves, visit_piece,
  visit_pieces, visit_from, pick_piece_inner, no_worker, find_one, would_pick_piece,
}
use rustorrent.Picker.Workers.{no_state, All-map}
use rustorrent.Picker.Usable.{IsUsable}

-- The piece is not downloaded, the peer is not a worker on it, and has it.
abbrev pub is_wanted : ℕ → BitField → List PieceState → PeersPerPiece → Bool
is_wanted peer bitfield states a =
    let s = get_or states a.piece_index no_state in
    not (s.downloaded || contains s.workers peer) && has_piece (get_bit bitfield a.piece_index)
  where
    has_piece : Option Bool → Bool
    has_piece none = false
    has_piece (some b) = b

abbrev pub any : (PeersPerPiece → Bool) → List PeersPerPiece → Bool
any P [] = false
any P (a ∷ rest) = P a || any P rest

abbrev is_some_piece : List PieceIndex → Bool
is_some_piece [] = false
is_some_piece (j ∷ js) = true

-- what the loop answers, without the rest of its state
abbrev answer : Option (PickMode × (Bool × PiecePicker)) → Option Bool
answer none = none
answer (some (mode, (found, p))) = some found

length-zero : (xs : List PeersPerPiece) → length xs ≡ 0 → xs ≡ []
length-zero [] h = refl
length-zero (x ∷ xs) h = absurd (omega (arith, h))

pick-true : {A : Type 0} (b : Bool) (x y : A) → b ≡ true → (elim b [ true ↦ x | false ↦ y ]) ≡ x
pick-true b x y e = rw e refl

pick-false : {A : Type 0} (b : Bool) (x y : A) → b ≡ false → (elim b [ true ↦ x | false ↦ y ]) ≡ y
pick-false b x y e = rw e refl

module _ (c : Collector) (shuffle : List PieceIndex → List PieceIndex)
    (shuffles : (xs : List PieceIndex) (x : PieceIndex)
      → contains (shuffle xs) x ≡ contains xs x) where
  visit_haves-answer :
      (xs : List PieceIndex) (j : PieceIndex) (p : PiecePicker)
      → contains xs j ≡ true
      → visit_haves shuffle c find_one xs (false, p) ≡ some (stop, (true, p))
  unfolding visit_haves
  visit_haves-answer [] j p h = absurd (ground (arith, h))
  visit_haves-answer (x ∷ xs) j p h = refl

  flush_some-answer :
      (j : PieceIndex) (js : List PieceIndex) (p : PiecePicker)
      → flush_some shuffle c find_one (j ∷ js) (false, record p { haves = j ∷ js })
        ≡ some (stop, (true, record p { haves = shuffle (j ∷ js) }))
  unfolding flush_some flush_haves
  flush_some-answer j js p =
      visit_haves-answer (shuffle (j ∷ js)) j (record p { haves = shuffle (j ∷ js) })
        (shuffles (j ∷ js) j ∙ ground arith)

  module _ (peer : ℕ) (bitfield : BitField) where
    visit_pieces-skip :
        (a : PeersPerPiece) (rest : List PeersPerPiece) (current : ℕ) (s : Bool × PiecePicker)
        (state : PieceState)
        → get_elem? s.1.states a.piece_index ≡ some state
        → (state.downloaded || contains state.workers peer) ≡ true
        → visit_pieces shuffle c find_one peer bitfield (a ∷ rest) current s
          ≡ visit_pieces shuffle c find_one peer bitfield rest current s
    unfolding visit_pieces
    visit_pieces-skip a rest current s state e h =
        bind-some (get_elem? s.1.states a.piece_index) state _ e
        ∙ pick-true (state.downloaded || contains state.workers peer) _ _ h

    visit_pieces-visit :
        (a : PeersPerPiece) (rest : List PeersPerPiece) (current : ℕ) (s : Bool × PiecePicker)
        (state : PieceState) (have : Bool)
        → get_elem? s.1.states a.piece_index ≡ some state
        → (state.downloaded || contains state.workers peer) ≡ false
        → get_bit bitfield a.piece_index ≡ some have
        → visit_pieces shuffle c find_one peer bitfield (a ∷ rest) current s
          ≡ and_then (next_npeers shuffle c find_one (a.npeers == current) s) (λ s₁.
            and_then
              (visit_piece shuffle c find_one have (no_worker state.workers) a.piece_index s₁)
              (visit_pieces shuffle c find_one peer bitfield rest a.npeers))
    unfolding visit_pieces
    visit_pieces-visit a rest current s state have e h bit =
        bind-some (get_elem? s.1.states a.piece_index) state _ e
        ∙ pick-false (state.downloaded || contains state.workers peer) _ _ h
        ∙ ap (and_then (next_npeers shuffle c find_one (a.npeers == current) s))
            (fun_ext λ s₁. bind-some (get_bit bitfield a.piece_index) have _ bit)

    with_haves : PiecePicker → List PieceIndex → Bool × PiecePicker
    with_haves p haves = (false, record p { haves = haves })

    visited :
        Bool
        → Bool
        → PieceIndex
        → List PeersPerPiece
        → ℕ
        → Bool × PiecePicker
        → Option (PickMode × (Bool × PiecePicker))
    visited have empty j rest npeers s =
        and_then (visit_piece shuffle c find_one have empty j s)
          (visit_pieces shuffle c find_one peer bitfield rest npeers)

    -- one piece that the peer is not a worker on, when the rest is known
    visited-answer :
        (have empty : Bool) (j npeers : ℕ) (rest : List PeersPerPiece) (found : Bool)
        (p : PiecePicker) (haves : List PieceIndex)
        → ((haves : List PieceIndex)
            → answer
                (visit_pieces shuffle c find_one peer bitfield rest npeers (with_haves p haves))
              ≡ some (is_some_piece haves || found))
        → answer (visited have empty j rest npeers (with_haves p haves))
          ≡ some (is_some_piece haves || (have || found))
    unfolding visited visit_piece with_haves
    visited-answer false empty j npeers rest found p haves h = h haves
    visited-answer true true j npeers rest found p [] h = refl
    visited-answer true true j npeers rest found p (x ∷ xs) h = refl
    visited-answer true false j npeers rest found p [] h = h (j ∷ [])
    visited-answer true false j npeers rest found p (x ∷ xs) h = h (x ∷ (xs ++ j ∷ []))

    next_npeers-answer :
        (same have empty : Bool) (j npeers : ℕ) (rest : List PeersPerPiece) (found : Bool)
        (p : PiecePicker) (haves : List PieceIndex)
        → ((haves : List PieceIndex)
            → answer
                (visit_pieces shuffle c find_one peer bitfield rest npeers (with_haves p haves))
              ≡ some (is_some_piece haves || found))
        → answer (
            and_then
              (next_npeers shuffle c find_one same (with_haves p haves))
              (visited have empty j rest npeers))
          ≡ some (is_some_piece haves || (have || found))
    unfolding next_npeers with_haves flush_some
    next_npeers-answer true have empty j npeers rest found p haves h =
        visited-answer have empty j npeers rest found p haves h
    next_npeers-answer false have empty j npeers rest found p [] h =
        visited-answer have empty j npeers rest found p [] h
    next_npeers-answer false have empty j npeers rest found p (x ∷ xs) h =
        ap
          (λ o. answer (
            and_then (and_then o (clear_haves shuffle c find_one))
              (visited have empty j rest npeers)))
          (flush_some-answer x xs p)

    visit_pieces-answer :
        (pieces : List PeersPerPiece) (current : ℕ) (p : PiecePicker) (haves : List PieceIndex)
        → IsBacked bitfield
        → All (λ a. a.piece_index < length p.states) pieces
        → answer (visit_pieces shuffle c find_one peer bitfield pieces current (with_haves p haves))
          ≡ some (is_some_piece haves || any (is_wanted peer bitfield p.states) pieces)
    unfolding visit_pieces with_haves flush_some visited
    visit_pieces-answer [] current p [] b h = refl
    visit_pieces-answer [] current p (j ∷ js) b h = ap answer (flush_some-answer j js p)
    visit_pieces-answer (a ∷ rest) current p haves b h =
        let s : PieceState = get_or p.states a.piece_index no_state in
        let e = get_elem?-eq-get_or p.states a.piece_index no_state h.0 in
        let (have, bit) = get_bit-total bitfield a.piece_index b in
        elim (Bool-cases (s.downloaded || contains s.workers peer)) [
          | inl skip ↦
              ap answer (visit_pieces-skip a rest current (with_haves p haves) s e skip)
              ∙ rw skip (visit_pieces-answer rest current p haves b h.1)
          | inr visit ↦
              ap answer (visit_pieces-visit a rest current (with_haves p haves) s have e visit bit)
              ∙ rw (visit, bit)
                  (next_npeers-answer (a.npeers == current) have (no_worker s.workers) a.piece_index
                    a.npeers rest (any (is_wanted peer bitfield p.states) rest) p haves
                    (λ haves'. visit_pieces-answer rest a.npeers p haves' b h.1))
        ]

    visit_from-answer :
        (pieces : List PeersPerPiece) (p : PiecePicker)
        → 0 < length pieces
        → IsBacked bitfield
        → All (λ a. a.piece_index < length p.states) pieces
        → answer (visit_from shuffle c find_one peer bitfield pieces (with_haves p []))
          ≡ some (any (is_wanted peer bitfield p.states) pieces)
    visit_from-answer [] p l b h = absurd (omega (arith, l))
    visit_from-answer (a ∷ rest) p l b h = visit_pieces-answer (a ∷ rest) a.npeers p [] b h

  answered :
      (o : Option (PickMode × (Bool × PiecePicker))) (found : Bool)
      → answer o ≡ some found
      → (p' : PiecePicker) × ((o >>= λ (mode, s). some s) ≡ some (found, p'))
  answered none found e = absurd (ground (arith, e))
  answered (some (mode, (b, p))) found e = (p, ground (arith, e))

  -- `would_pick_piece` does not panic, and it answers whether one of the sorted pieces from the
  -- start on is not downloaded, without the peer as a worker, and one that the peer has. The
  -- picker's invariant holds, and the bit field has a byte for every bit.
  pub would_pick_piece-any :
      (peer : ℕ) (bitfield : BitField) (p : PiecePicker)
      → IsUsable p
      → IsBacked bitfield
      → (p' : PiecePicker) × (would_pick_piece shuffle c peer bitfield p
          ≡ some (any (is_wanted peer bitfield p.states) (drop p.start_at p.sorted_index), p'))
  unfolding would_pick_piece pick_piece_inner with_haves
  would_pick_piece-any peer bitfield p u b =
      elim (Bool-cases (p.start_at == length p.sorted_index)) [
        | inl done ↦
            let none_left : drop p.start_at p.sorted_index ≡ [] =
              length-zero (drop p.start_at p.sorted_index)
                (ground (arith, length-drop p.start_at p.sorted_index, done)) in
            (record p { haves = [] }, rw (done, none_left) refl)
        | inr more ↦ rw more (
            answered
              (visit_from shuffle c find_one peer bitfield (drop p.start_at p.sorted_index)
                (with_haves peer bitfield p []))
              (any (is_wanted peer bitfield p.states) (drop p.start_at p.sorted_index))
              (visit_from-answer peer bitfield (drop p.start_at p.sorted_index) p
                (ground (arith, length-drop p.start_at p.sorted_index, u.start, more)) b
                (All-drop (λ a. a.piece_index < length p.states) p.start_at p.sorted_index
                  (All-map (λ a. a.piece_index < p.pieces_infos.num_pieces)
                    (λ a. a.piece_index < length p.states) p.sorted_index
                    (λ a l. omega (arith, l, u.states)) u.pieces))))
      ]
