-- ===== src/Picker/Order.antt =====
-- `sort_indexed`: the rarest pieces first, and where the search for a piece starts.
use mathlib.Core.List.{Perm}
use mathlib.Core.List.Perm
use rustorrent.Common.{
  ℕ, suc, ◌+◌, ◌^◌, ◌≤◌, ◌<◌, ◌≡◌, refl, ap, true, false, some, List, [], ◌∷◌, All, arith,
  Bool-cases, inl, inr, length, get_or, get_elem?-eq-get_or, take, drop,
}
use rustorrent.Picker.{
  PeersPerPiece, PieceState, PiecePicker, le_peers, insert_sorted, sort_unstable, position,
  sort_indexed,
}
use rustorrent.Picker.Workers.{downloaded_at, no_state, All-map}
use rustorrent.Picker.Usable.{IsUsable}

-- Every piece comes before those behind it, by the number of peers and then by the index.
abbrev pub IsSorted : List PeersPerPiece → Type 0
IsSorted [] = Unit
IsSorted (a ∷ rest) = All (λ b. le_peers a b ≡ true) rest × IsSorted rest

le_peers-flip : (a b : PeersPerPiece) → le_peers a b ≡ false → le_peers b a ≡ true
le_peers-flip a b h = ground arith

le_peers_trans :
    (a b c : PeersPerPiece) → le_peers a b ≡ true → le_peers b c ≡ true → le_peers a c ≡ true
le_peers_trans a b c h h' = ground arith

insert_sorted-All :
    (P : PeersPerPiece → Type 0) (a : PeersPerPiece) (bs : List PeersPerPiece)
    → P a
    → All P bs
    → All P (insert_sorted a bs)
unfolding insert_sorted
insert_sorted-All P a [] p h = (p, tt)
insert_sorted-All P a (b ∷ bs) p h = elim (Bool-cases (le_peers a b)) [
  | inl e ↦ rw e (p, h)
  | inr e ↦ rw e (h.0, insert_sorted-All P a bs p h.1)
]

insert_sorted-IsSorted :
    (a : PeersPerPiece) (bs : List PeersPerPiece) → IsSorted bs → IsSorted (insert_sorted a bs)
unfolding insert_sorted
insert_sorted-IsSorted a [] h = (tt, tt)
insert_sorted-IsSorted a (b ∷ bs) h = elim (Bool-cases (le_peers a b)) [
  | inl e ↦ rw e (
    (
      e,
      All-map (λ c. le_peers b c ≡ true) (λ c. le_peers a c ≡ true) bs (λ c. le_peers_trans a b c e)
          h.0,
    ),
    h,
  )
  | inr e ↦ rw e (
    insert_sorted-All (λ c. le_peers b c ≡ true) a bs (le_peers-flip a b e) h.0,
    insert_sorted-IsSorted a bs h.1,
  )
]

insert_sorted-Perm :
    (a : PeersPerPiece) (bs : List PeersPerPiece) → Perm (insert_sorted a bs) (a ∷ bs)
unfolding insert_sorted
insert_sorted-Perm a [] = Perm.refl (a ∷ [])
insert_sorted-Perm a (b ∷ bs) = elim (Bool-cases (le_peers a b)) [
  | inl e ↦ rw e (Perm.refl (a ∷ b ∷ bs))
  | inr e ↦ rw e (Perm.trans (Perm.cons b (insert_sorted-Perm a bs)) (Perm.swap a b bs))
]

pub sort_unstable-All :
    (P : PeersPerPiece → Type 0) (bs : List PeersPerPiece) → All P bs → All P (sort_unstable bs)
unfolding sort_unstable
sort_unstable-All P [] h = tt
sort_unstable-All P (b ∷ bs) h =
    insert_sorted-All P b (sort_unstable bs) h.0 (sort_unstable-All P bs h.1)

sort_unstable-IsSorted : (bs : List PeersPerPiece) → IsSorted (sort_unstable bs)
unfolding sort_unstable
sort_unstable-IsSorted [] = tt
sort_unstable-IsSorted (b ∷ bs) =
    insert_sorted-IsSorted b (sort_unstable bs) (sort_unstable-IsSorted bs)

sort_unstable-Perm : (bs : List PeersPerPiece) → Perm (sort_unstable bs) bs
unfolding sort_unstable
sort_unstable-Perm [] = Perm.refl []
sort_unstable-Perm (b ∷ bs) =
    Perm.trans (insert_sorted-Perm b (sort_unstable bs)) (Perm.cons b (sort_unstable-Perm bs))

-- the property of the first element, if there is one
abbrev pub First : (PeersPerPiece → Type 0) → List PeersPerPiece → Type 0
First P [] = Unit
First P (a ∷ rest) = P a

-- The first `n` pieces are downloaded, and the next one, if there is one, is not.
abbrev pub StartsAt : List PieceState → List PeersPerPiece → ℕ → Type 0
StartsAt states pieces n =
    (n ≤ length pieces)
    × All (λ a. downloaded_at states a.piece_index ≡ some true) (take n pieces)
    × First (λ a. downloaded_at states a.piece_index ≡ some false) (drop n pieces)

position-StartsAt :
    (states : List PieceState) (pieces : List PeersPerPiece)
    → All (λ a. a.piece_index < length states) pieces
    → (n : ℕ) × (position states pieces ≡ some n) × StartsAt states pieces n
unfolding position
position-StartsAt states [] h = (0, refl, (omega arith, tt, tt))
position-StartsAt states (a ∷ rest) h =
    let state = get_or states a.piece_index no_state in
    let e = get_elem?-eq-get_or states a.piece_index no_state h.0 in
    let (n, pos, (le, all, next)) = position-StartsAt states rest h.1 in
    elim (Bool-cases state.downloaded) [
      | inl down ↦
          (suc n, rw e (rw (down, pos) refl), (omega (arith, le), (rw e (ap some down), all), next))
      | inr fresh ↦ (0, rw e (rw fresh refl), (omega arith, tt, rw e (ap some fresh)))
    ]

-- If there is a state for every piece, `sort_indexed` does not panic. The pieces are then the same,
-- sorted by the number of peers and then by the index, and the start is behind pieces that are
-- downloaded and at one that is not, or at the end.
pub sort_indexed-StartsAt :
    (p : PiecePicker)
    → All (λ a. a.piece_index < p.pieces_infos.num_pieces) p.sorted_index
    → length p.states ≡ p.pieces_infos.num_pieces
    → (p' : PiecePicker) × (sort_indexed p ≡ some p')
      × Perm p'.sorted_index p.sorted_index
      × IsSorted p'.sorted_index
      × StartsAt p.states p'.sorted_index p'.start_at
unfolding sort_indexed
sort_indexed-StartsAt p pieces states =
    let sorted = sort_unstable p.sorted_index in
    let all =
      sort_unstable-All (λ a. a.piece_index < p.pieces_infos.num_pieces) p.sorted_index pieces in
    let inside =
      All-map (λ a. a.piece_index < p.pieces_infos.num_pieces)
        (λ a. a.piece_index < length p.states) sorted (λ a l. omega (arith, l, states)) all in
    let (n, e, starts) = position-StartsAt p.states sorted inside in
    (
      record p { sorted_index = sorted; start_at = n },
      rw e refl,
      sort_unstable-Perm p.sorted_index,
      sort_unstable-IsSorted p.sorted_index,
      starts,
    )

pub sort_indexed-IsUsable :
    (p : PiecePicker)
    → All (λ a. a.piece_index < p.pieces_infos.num_pieces) p.sorted_index
    → length p.states ≡ p.pieces_infos.num_pieces
    → p.pieces_infos.num_pieces + 2 < 2 ^ 32
    → (p' : PiecePicker) × (sort_indexed p ≡ some p')
      × IsUsable p'
      × (p'.pieces_infos ≡ p.pieces_infos)
unfolding sort_indexed
sort_indexed-IsUsable p pieces states small =
    let sorted = sort_unstable p.sorted_index in
    let all =
      sort_unstable-All (λ a. a.piece_index < p.pieces_infos.num_pieces) p.sorted_index pieces in
    let inside =
      All-map (λ a. a.piece_index < p.pieces_infos.num_pieces)
        (λ a. a.piece_index < length p.states) sorted (λ a l. omega (arith, l, states)) all in
    let (n, e, starts) = position-StartsAt p.states sorted inside in
    (
      record p { sorted_index = sorted; start_at = n },
      rw e refl,
      record { start = starts.0; pieces = all; states = states; small = small },
      refl,
    )
