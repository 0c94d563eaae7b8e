-- ===== src/Picker/Pick.antt =====
-- src/piece_picker.rs, `pick_piece_inner` with the closures of `pick_piece` and `would_pick_piece`.
-- The state of a closure, such as `nbytes`, goes through the loop beside the picker.
use rustorrent.Common.{
  ℕ, ◌-◌, Bool, true, false, ◌&&◌, ◌||◌, Option, none, some, List, [], ◌∷◌, ◌++◌, leb, ltb, ◌==◌,
  if◌then◌else◌, length, get_elem?, set, drop, wrapping_add, wrapping_sub,
}
use rustorrent.Common.Checked.{◌>>=◌}
use rustorrent.Pieces.{PieceIndex, TaskDownload, block_range, piece_size_of}
use rustorrent.BitField.{BitField, get_bit}
use rustorrent.Picker.{
  PeersPerPiece, PiecePicker, Picked, full, partial, PickMode, continue, stop, Collector, contains,
  insert_worker, add_piece_to_download,
}

-- `fun(self, Picked::Full(piece))` or `Picked::Partial`
abbrev pub picked : Collector → PieceIndex → Picked
picked c index = if c.is_empty index then full index else partial index

-- `state.workers.is_empty()`
abbrev pub no_worker : List ℕ → Bool
no_worker [] = true
no_worker (x ∷ xs) = false

-- a part of the loop, and what follows unless it returned
abbrev pub and_then :
    {T : Type 0} → Option (PickMode × T) → (T → Option (PickMode × T)) → Option (PickMode × T)
and_then none k = none
and_then (some (stop, s)) k = some (stop, s)
and_then (some (continue, s)) k = k s

module _ {S : Type 0} (shuffle : List PieceIndex → List PieceIndex) (c : Collector)
    (fun : S × PiecePicker → Picked → Option (PickMode × (S × PiecePicker))) where
  -- the loop over `haves`
  unfoldable pub visit_haves :
      List PieceIndex → S × PiecePicker → Option (PickMode × (S × PiecePicker))
  visit_haves [] s = some (continue, s)
  visit_haves (index ∷ haves) s = and_then (fun s (picked c index)) (visit_haves haves)

  -- the shuffle, and the loop
  unfoldable pub flush_haves : S × PiecePicker → Option (PickMode × (S × PiecePicker))
  flush_haves (s, p) =
      let haves = shuffle p.haves in visit_haves haves (s, record p { haves = haves })

  -- `if !self.haves.is_empty()`, at the end and, with the clearing, between two numbers of peers
  unfoldable pub flush_some :
      List PieceIndex → S × PiecePicker → Option (PickMode × (S × PiecePicker))
  flush_some [] s = some (continue, s)
  flush_some (_ ∷ _) s = flush_haves s

  abbrev pub clear_haves : S × PiecePicker → Option (PickMode × (S × PiecePicker))
  clear_haves (s, p) = some (continue, (s, record p { haves = [] }))

  unfoldable pub next_npeers : Bool → S × PiecePicker → Option (PickMode × (S × PiecePicker))
  unfolding flush_some
  next_npeers true s = some (continue, s)
  next_npeers false s = and_then (flush_some s.1.haves s) clear_haves

  -- the body of the loop behind the tests on the state, with `have` and `is_empty`
  unfoldable pub visit_piece :
      Bool → Bool → PieceIndex → S × PiecePicker → Option (PickMode × (S × PiecePicker))
  visit_piece false is_empty index s = some (continue, s)
  visit_piece true true index s = fun s (picked c index)
  visit_piece true false index (s, p) =
      some (continue, (s, record p { haves = p.haves ++ index ∷ [] }))

  -- the loop over the rest of `sorted_index`, from the number of peers reached
  unfoldable pub visit_pieces :
      ℕ
      → BitField
      → List PeersPerPiece
      → ℕ
      → S × PiecePicker
      → Option (PickMode × (S × PiecePicker))
  visit_pieces peer bitfield [] current s = flush_some s.1.haves s
  visit_pieces peer bitfield (a ∷ rest) current s = get_elem? s.1.states a.piece_index >>= λ state.
      elim (state.downloaded || contains state.workers peer) [
        | true ↦ visit_pieces peer bitfield rest current s
        | false ↦ and_then (next_npeers (a.npeers == current) s) (λ s₁.
            get_bit bitfield a.piece_index >>= λ have.
            and_then (visit_piece have (no_worker state.workers) a.piece_index s₁)
              (visit_pieces peer bitfield rest a.npeers))
      ]

  -- from `start_at`, which is an index of `sorted_index` or a panic
  abbrev pub visit_from :
      ℕ → BitField → List PeersPerPiece → S × PiecePicker → Option (PickMode × (S × PiecePicker))
  visit_from peer bitfield [] s = none
  visit_from peer bitfield (a ∷ rest) s = visit_pieces peer bitfield (a ∷ rest) a.npeers s

  -- `pick_piece_inner`
  unfoldable pub pick_piece_inner :
      ℕ → BitField → S × PiecePicker → Option (PickMode × (S × PiecePicker))
  pick_piece_inner peer bitfield (s, p) =
      if p.start_at == length p.sorted_index
      then some (continue, (s, p))
      else visit_from peer bitfield (drop p.start_at p.sorted_index) (s, p)

-- `states[piece].workers.insert(peer)`
unfoldable pub add_worker : ℕ → PieceIndex → PiecePicker → Option PiecePicker
add_worker peer index p = get_elem? p.states index >>= λ state. some (record p {
  states = set p.states index (record state { workers = insert_worker peer state.workers });
})

-- `tasks_nbytes.saturating_sub(nbytes) > 0`
abbrev pub more_bytes : ℕ → ℕ → PickMode
more_bytes tasks_nbytes nbytes = if ltb 0 (tasks_nbytes - nbytes) then continue else stop

-- the closure of `pick_piece` on `Picked::Full`
unfoldable pub pick_full :
    ℕ → ℕ → ℕ → PieceIndex → ℕ × PiecePicker → Option (PickMode × (ℕ × PiecePicker))
pick_full peer tasks_nbytes available index (nbytes, p) = add_worker peer index p >>= λ p₁.
    piece_size_of p.pieces_infos index >>= λ piece_length.
    let nbytes' : ℕ = wrapping_add 64 nbytes piece_length in
    let no_push = length p₁.to_download == available in
    add_piece_to_download p₁.to_download index no_push >>= λ (tasks, would_push).
    let s' : ℕ × PiecePicker = (nbytes', record p₁ { to_download = tasks }) in
    some (if no_push && would_push then stop else more_bytes tasks_nbytes nbytes', s')

-- the loop over the empty ranges, with its `break`
unfoldable pub push_ranges :
    ℕ → PieceIndex → List (ℕ × ℕ) → ℕ × List TaskDownload → ℕ × List TaskDownload
push_ranges available index [] s = s
push_ranges available index ((start, end) ∷ ranges) (nbytes, tasks) =
    let nbytes' : ℕ = wrapping_add 64 nbytes (wrapping_sub 32 end start) in
    let tasks' = tasks ++ block_range index start end ∷ [] in
    let rest = push_ranges available index ranges (nbytes', tasks') in
    if length tasks' == available then (nbytes', tasks') else rest

-- `if found` a worker
abbrev pub found_worker : List (ℕ × ℕ) → ℕ → PieceIndex → PiecePicker → Option PiecePicker
found_worker [] peer index p = some p
found_worker (_ ∷ _) peer index p = add_worker peer index p

-- the closure of `pick_piece` on `Picked::Partial`, from the loop on
unfoldable pub finish_partial :
    ℕ → ℕ → ℕ → PieceIndex → List (ℕ × ℕ) → ℕ × PiecePicker → Option (PickMode × (ℕ × PiecePicker))
finish_partial peer tasks_nbytes available index ranges (nbytes, p) =
    let r = push_ranges available index ranges (nbytes, p.to_download) in
    found_worker ranges peer index (record p { to_download = r.1 }) >>= λ p'.
    some (if length r.1 == available then stop else more_bytes tasks_nbytes r.0, (r.0, p'))

unfoldable pub pick_partial :
    Collector → ℕ → ℕ → ℕ → PieceIndex → ℕ × PiecePicker → Option (PickMode × (ℕ × PiecePicker))
pick_partial c peer tasks_nbytes available index (nbytes, p) =
    if length p.to_download == available
    then some (stop, (nbytes, p))
    else (c.iter_empty_ranges index >>= λ ranges.
        finish_partial peer tasks_nbytes available index ranges (nbytes, p))

abbrev pub pick_one :
    Collector → ℕ → ℕ → ℕ → ℕ × PiecePicker → Picked → Option (PickMode × (ℕ × PiecePicker))
pick_one c peer tasks_nbytes available s (full index) =
    pick_full peer tasks_nbytes available index s
pick_one c peer tasks_nbytes available s (partial index) =
    pick_partial c peer tasks_nbytes available index s

-- the failed assertion, and the result: the number of bytes, and the tasks are in the picker
abbrev pub picked_tasks : ℕ → ℕ × PiecePicker → Option (Option ℕ × PiecePicker)
picked_tasks available (nbytes, p) =
    if leb (length p.to_download) available
    then some (elim p.to_download [ [] ↦ none | _ ∷ _ ↦ some nbytes ], p)
    else none

-- `pick_piece`; of `Some((nbytes, tasks))` the tasks are the picker's `to_download`.
unfoldable pub pick_piece :
    (List PieceIndex → List PieceIndex)
    → Collector
    → ℕ
    → ℕ
    → ℕ
    → BitField
    → PiecePicker
    → Option (Option ℕ × PiecePicker)
pick_piece shuffle c peer tasks_nbytes available bitfield p =
    let cleared = record p { to_download = []; haves = [] } in
    if available == 0
    then some (none, cleared)
    else (pick_piece_inner shuffle c (pick_one c peer tasks_nbytes available) peer bitfield
          (0, cleared)
        >>= λ (mode, s). picked_tasks available s)

abbrev pub find_one : Bool × PiecePicker → Picked → Option (PickMode × (Bool × PiecePicker))
find_one (found, p) q = some (stop, (true, p))

unfoldable pub would_pick_piece :
    (List PieceIndex → List PieceIndex)
    → Collector
    → ℕ
    → BitField
    → PiecePicker
    → Option (Bool × PiecePicker)
would_pick_piece shuffle c peer bitfield p =
    pick_piece_inner shuffle c find_one peer bitfield (false, record p { haves = [] })
    >>= λ (mode, s). some s
