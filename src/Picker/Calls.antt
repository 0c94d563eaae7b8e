-- ===== src/Picker/Calls.antt =====
-- Every call of a picker keeps its invariant, after any history.
use rustorrent.Common.{
  ℕ, zero, suc, ◌+◌, ◌^◌, ◌≤◌, ◌<◌, ◌≡◌, refl, ◌∙◌, ap, sym, Bool, true, false, Option, none, some,
  List, [], ◌∷◌, map, All, arith, Bool-cases, inl, inr, ◌==◌, if◌then◌else◌, length, get_or, set,
  wrapping_add, length-set, length-replicate, get_elem?-eq-get_or,
}
use rustorrent.Common.Checked.{◌>>=◌}
use rustorrent.Pieces.{PieceIndex, Pieces}
use rustorrent.BitField.{BitField, BitFieldUpdate, bit_field, piece}
use rustorrent.BitField.Bits.{IsBacked, get_bit-total}
use rustorrent.Picker.{
  PeersPerPiece, PieceState, PickMode, PiecePicker, Collector, contains, picker_new, fresh_piece,
  indices, set_as_downloaded, differs, remove_peer, without_worker, count_bits, count_piece, update,
}
use rustorrent.Picker.Pick.{pick_piece, would_pick_piece, pick_piece_inner, find_one}
use rustorrent.Picker.Rule.{Good, pick_piece_inner-Good}
use rustorrent.Picker.Workers.{no_state}
use rustorrent.Picker.Usable.{IsUsable}
use rustorrent.Picker.Order.{sort_indexed-IsUsable}
use rustorrent.Picker.Safe.{pick_piece-AsksOnly}

indices-All :
    (k n m : ℕ) → k + n ≤ m → All (λ a. a.piece_index < m) (map (λ i. fresh_piece i) (indices k n))
indices-All k zero m h = tt
indices-All k (suc n) m h = (omega (arith, h), indices-All (suc k) n m (omega (arith, h)))

picker_new-IsUsable : (infos : Pieces) → infos.num_pieces + 2 < 2 ^ 32 → IsUsable (picker_new infos)
unfolding picker_new
picker_new-IsUsable infos h = record {
  start = omega arith;
  pieces = indices-All 0 infos.num_pieces infos.num_pieces (omega arith);
  states = length-replicate infos.num_pieces no_state;
  small = h;
}

length-map-without_worker :
    (peer : ℕ) (states : List PieceState)
    → length (map (without_worker peer) states) ≡ length states
length-map-without_worker peer [] = refl
length-map-without_worker peer (s ∷ states) = ap suc (length-map-without_worker peer states)

remove_peer-IsUsable : (p : PiecePicker) (peer : ℕ) → IsUsable p → IsUsable (remove_peer p peer)
unfolding remove_peer
remove_peer-IsUsable p peer u = record {
  start = u.start;
  pieces = u.pieces;
  states = length-map-without_worker peer p.states ∙ u.states;
  small = u.small;
}

count_bits-All :
    (bitfield : BitField) (n : ℕ) (pieces : List PeersPerPiece)
    → IsBacked bitfield
    → All (λ a. a.piece_index < n) pieces
    → (pieces' : List PeersPerPiece) × (count_bits bitfield pieces ≡ some pieces')
      × All (λ a. a.piece_index < n) pieces'
unfolding count_bits
count_bits-All bitfield n [] b h = ([], refl, tt)
count_bits-All bitfield n (a ∷ rest) b h =
    let (bit, e) = get_bit-total bitfield a.piece_index b in
    let (rest', e', h') = count_bits-All bitfield n rest b h.1 in
    let a' = if bit then record a { npeers = wrapping_add 32 a.npeers 1 } else a in
    (a' ∷ rest', rw (e, e') refl, (counted bit, h'))
  where
    counted :
        (bit : Bool)
        → (if bit then record a { npeers = wrapping_add 32 a.npeers 1 } else a).piece_index < n
    counted true = h.0
    counted false = h.0

count_piece-All :
    (index n : ℕ) (pieces : List PeersPerPiece)
    → All (λ a. a.piece_index < n) pieces
    → All (λ a. a.piece_index < n) (count_piece index pieces)
unfolding count_piece
count_piece-All index n [] h = tt
count_piece-All index n (a ∷ rest) h = elim (Bool-cases (a.piece_index == index)) [
  | inl e ↦ rw e (h.0, h.1)
  | inr e ↦ rw e (h.0, count_piece-All index n rest h.1)
]

module _ (c : Collector) (shuffle : List PieceIndex → List PieceIndex) (p : PiecePicker) where
  -- What a test of `would_pick_piece` leaves: only the pieces saved for later may differ.
  record Tested (s : Bool × PiecePicker) : Type 0 where
    same_infos : s.1.pieces_infos ≡ p.pieces_infos
    same_order : s.1.sorted_index ≡ p.sorted_index
    same_start : s.1.start_at ≡ p.start_at
    same_states : s.1.states ≡ p.states

  abbrev Anything : PieceIndex → Type 0
  Anything j = Unit

  All-Anything : (xs : List PieceIndex) → All Anything xs
  All-Anything [] = tt
  All-Anything (x ∷ xs) = (tt, All-Anything xs)

  would_pick_piece-IsUsable :
      (peer : ℕ) (bitfield : BitField)
      → IsUsable p
      → IsBacked bitfield
      → (found : Bool) × (p' : PiecePicker) × (would_pick_piece shuffle c peer bitfield p
          ≡ some (found, p'))
        × IsUsable p'
        × (p'.pieces_infos ≡ p.pieces_infos)
  unfolding would_pick_piece
  would_pick_piece-IsUsable peer bitfield u backed = finish _ loop
    where
      cleared : PiecePicker
      cleared = record p { haves = [] }

      loop :
          Good shuffle c find_one Tested Anything
            (pick_piece_inner shuffle c find_one peer bitfield (false, record p { haves = [] }))
      loop =
          pick_piece_inner-Good shuffle c find_one Tested Anything
            (λ s j r w. (
              record {
                same_infos = r.0.same_infos;
                same_order = r.0.same_order;
                same_start = r.0.same_start;
                same_states = r.0.same_states;
              },
              r.1,
            ))
            (λ found q haves v. record {
              same_infos = v.same_infos;
              same_order = v.same_order;
              same_start = v.same_start;
              same_states = v.same_states;
            })
            (λ xs h. All-Anything (shuffle xs)) peer bitfield p.pieces_infos.num_pieces
            (λ j. get_bit-total bitfield j backed) (λ s v. ap length v.same_states ∙ u.states)
            (λ s j state v e down bit. tt) (false, record p { haves = [] }) u.start u.pieces
            (
              record {
                same_infos = refl;
                same_order = refl;
                same_start = refl;
                same_states = refl;
              },
              tt,
            )

      finish :
          (o : Option (PickMode × (Bool × PiecePicker)))
          → Good shuffle c find_one Tested Anything o
          → (found : Bool) × (p' : PiecePicker) × ((o >>= λ (mode, s). some s) ≡ some (found, p'))
            × IsUsable p'
            × (p'.pieces_infos ≡ p.pieces_infos)
      finish none h = absurd h
      finish (some (mode, (found, q))) h = (
        found,
        q,
        refl,
        record {
          start = rw (h.0.same_start, h.0.same_order) u.start;
          pieces = rw (h.0.same_infos, h.0.same_order) u.pieces;
          states = rw (h.0.same_infos, h.0.same_states) u.states;
          small = rw h.0.same_infos u.small;
        },
        h.0.same_infos,
      )

-- The calls that the supervisor of a torrent makes. What the random numbers of one call make of a list
-- is the call's own.
pub data Call : Type 0 where
  sets : (index : PieceIndex) → (valid : Bool) → Call
  updates : BitFieldUpdate → Call
  removes : (peer : ℕ) → Call
  picks :
      (shuffle : List PieceIndex → List PieceIndex)
      → Collector
      → (peer tasks_nbytes available : ℕ) → BitField
      → Call
  tests : (shuffle : List PieceIndex → List PieceIndex) → Collector → (peer : ℕ) → BitField → Call

unfoldable pub step : Call → PiecePicker → Option PiecePicker
step (sets index valid) p = set_as_downloaded p index valid
step (updates u) p = update p u
step (removes peer) p = some (remove_peer p peer)
step (picks shuffle c peer tasks_nbytes available bitfield) p =
    pick_piece shuffle c peer tasks_nbytes available bitfield p >>= λ (nbytes, p'). some p'
step (tests shuffle c peer bitfield) p =
    would_pick_piece shuffle c peer bitfield p >>= λ (found, p'). some p'

unfoldable pub run : List Call → PiecePicker → Option PiecePicker
unfolding step
run [] p = some p
run (call ∷ calls) p = step call p >>= run calls

-- Which pieces are in a list stays as it is.
abbrev pub IsShuffle : (List PieceIndex → List PieceIndex) → Type 0
IsShuffle shuffle =
    (xs : List PieceIndex) (x : PieceIndex) → contains (shuffle xs) x ≡ contains xs x

-- The piece is one of the torrent's, a bit field has a byte for every bit, a collector gives the
-- ranges of every piece, and what a call makes of a list is a shuffle.
abbrev pub IsValid : Pieces → Call → Type 0
IsValid infos (sets index valid) = index < infos.num_pieces
IsValid infos (updates (bit_field bitfield)) = IsBacked bitfield
IsValid infos (updates (piece index)) = Unit
IsValid infos (removes peer) = Unit
IsValid infos (tests shuffle c peer bitfield) = IsBacked bitfield
IsValid infos (picks shuffle c peer tasks_nbytes available bitfield) =
    IsShuffle shuffle
    × IsBacked bitfield
    × ((j : PieceIndex)
        → j < infos.num_pieces
        → (rs : List (ℕ × ℕ)) × (c.iter_empty_ranges j ≡ some rs))

-- a picker of the same pieces, usable
abbrev pub IsPicker : Pieces → Option PiecePicker → Type 0
IsPicker infos none = ⊥
IsPicker infos (some p) = IsUsable p × (p.pieces_infos ≡ infos)

IsPicker-bind :
    (infos : Pieces) (o : Option PiecePicker) (f : PiecePicker → Option PiecePicker)
    → IsPicker infos o
    → ((p : PiecePicker) → IsUsable p → p.pieces_infos ≡ infos → IsPicker infos (f p))
    → IsPicker infos (o >>= f)
IsPicker-bind infos none f h k = h
IsPicker-bind infos (some p) f h k = k p h.0 h.1

step-IsPicker :
    (call : Call) (p : PiecePicker)
    → IsUsable p
    → IsValid p.pieces_infos call
    → IsPicker p.pieces_infos (step call p)
unfolding step set_as_downloaded update remove_peer
step-IsPicker (sets index valid) p u v =
    let state = get_or p.states index no_state in
    let states' = set p.states index (record state { downloaded = valid }) in
    let e = get_elem?-eq-get_or p.states index no_state (omega (arith, v, u.states)) in
    rw e (elim (Bool-cases (differs valid state.downloaded)) [
      | inl changed ↦
          let (p', e', u', same) =
            sort_indexed-IsUsable (record p { states = states' }) u.pieces
              (length-set p.states index _ ∙ u.states) u.small in
          rw (changed, e') (u', same)
      | inr unchanged ↦ rw unchanged (u, refl)
    ])
step-IsPicker (updates (bit_field bitfield)) p u v =
    let (pieces', e, h) =
      count_bits-All bitfield p.pieces_infos.num_pieces p.sorted_index v u.pieces in
    let (p', e', u', same) =
      sort_indexed-IsUsable (record p { sorted_index = pieces' }) h u.states u.small in
    rw (e, e') (u', same)
step-IsPicker (updates (piece index)) p u v =
    let (p', e', u', same) =
      sort_indexed-IsUsable (record p { sorted_index = count_piece index p.sorted_index })
        (count_piece-All index p.pieces_infos.num_pieces p.sorted_index u.pieces) u.states
        u.small in
    rw e' (u', same)
step-IsPicker (removes peer) p u v = (remove_peer-IsUsable p peer u, refl)
step-IsPicker (picks shuffle c peer tasks_nbytes available bitfield) p u v =
    let (nbytes, p', e, u', same, room, asks) =
      pick_piece-AsksOnly c shuffle peer tasks_nbytes available bitfield p u v.1 v.2 v.0 in
    rw e (u', same)
step-IsPicker (tests shuffle c peer bitfield) p u v =
    let (found, p', e, u', same) = would_pick_piece-IsUsable c shuffle p peer bitfield u v in
    rw e (u', same)

run-IsPicker :
    (calls : List Call) (p : PiecePicker) (infos : Pieces)
    → IsUsable p
    → p.pieces_infos ≡ infos
    → All (IsValid infos) calls
    → IsPicker infos (run calls p)
unfolding run
run-IsPicker [] p infos u e v = (u, e)
run-IsPicker (call ∷ calls) p infos u e v =
    IsPicker-bind infos (step call p) (run calls) (rw (sym e) (step-IsPicker call p u (rw e v.0)))
      (λ p' u' e'. run-IsPicker calls p' infos u' e' v.1)

-- A new picker of fewer than 2^32 - 2 pieces goes through any history of calls on its pieces, of
-- all the kinds that a supervisor makes, without a panic, and keeps its invariant. The bit fields
-- have a byte for every bit, the collectors of `picks` give the ranges of every piece, and the
-- shuffle of each of those keeps which pieces are in a list.
pub run-picker_new :
    (infos : Pieces) (calls : List Call)
    → infos.num_pieces + 2 < 2 ^ 32
    → All (IsValid infos) calls
    → IsPicker infos (run calls (picker_new infos))
unfolding picker_new
run-picker_new infos calls small v =
    run-IsPicker calls (picker_new infos) infos (picker_new-IsUsable infos small) refl v
