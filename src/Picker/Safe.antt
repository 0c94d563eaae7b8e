-- ===== src/Picker/Safe.antt =====
-- `pick_piece`: what it asks of a peer.
use rustorrent.Common.{
  ℕ, suc, ◌+◌, ◌-◌, ◌%◌, ◌^◌, ◌≤◌, ◌<◌, ◌≡◌, refl, ◌∙◌, ap, sym, Bool, true, false, ◌&&◌, Option,
  none, some, List, [], ◌∷◌, ◌++◌, All, All-append, arith, Bool-cases, inl, inr, ◌==◌, ltb, leb,
  if◌then◌else◌, length, length-append, length-set, wrapping_add, get_elem?,
}
use rustorrent.Common.Checked.{◌>>=◌}
use rustorrent.Pieces.{PieceIndex, Pieces, TaskDownload, block_range, is_last_piece, piece_size_of}
use rustorrent.BitField.{BitField, get_bit}
use rustorrent.BitField.Bits.{IsBacked, get_bit-total}
use rustorrent.Picker.{
  PeersPerPiece, PieceState, PiecePicker, PickMode, stop, Collector, contains,
  add_piece_to_download,
}
use rustorrent.Picker.Tasks.{AsksOnly, Added, add_piece_to_download-Q}
use rustorrent.Picker.Pick.{
  add_worker, more_bytes, pick_full, push_ranges, finish_partial, pick_partial, pick_one, picked,
  picked_tasks, pick_piece, pick_piece_inner,
}
use rustorrent.Picker.Rule.{Ready, Good, Good-bind, pick_piece_inner-Good}
use rustorrent.Picker.Usable.{IsUsable}
use rustorrent.Picker.Workers.{
  downloaded_at, worker_at, with_worker, index-lt, add_worker-lt, with_worker-downloaded,
  with_worker_self, with_worker-keeps, All-map, All-contains, contains-All,
}

piece_size_of-some :
    (infos : Pieces) (j : PieceIndex)
    → j < infos.num_pieces
    → (size : ℕ) × (piece_size_of infos j ≡ some size)
unfolding piece_size_of is_last_piece
piece_size_of-some infos j h =
    let inside : ltb j infos.num_pieces ≡ true = ground (arith, h) in
    rw inside (
      if j == infos.num_pieces - 1
          then infos.last_piece_length % 2 ^ 32
          else infos.piece_length % 2 ^ 32,
      refl,
    )

-- the ranges pushed ask for the one piece, and no more tasks than there is room for
push_ranges-Q :
    (Q : PieceIndex → Type 0) (available : ℕ) (index : PieceIndex) (ranges : List (ℕ × ℕ))
    (nbytes : ℕ) (tasks : List TaskDownload)
    → Q index
    → length tasks < available
    → All (AsksOnly Q) tasks
    → let r = push_ranges available index ranges (nbytes, tasks) in
      (length r.1 ≤ available) × All (AsksOnly Q) r.1
unfolding push_ranges
push_ranges-Q Q available index [] nbytes tasks q l h = (omega (arith, l), h)
push_ranges-Q Q available index ((start, end) ∷ ranges) nbytes tasks q l h =
    let tasks' = tasks ++ block_range index start end ∷ [] in
    let h' : All (AsksOnly Q) tasks' =
      All-append (AsksOnly Q) tasks (block_range index start end) h (λ j e. rw e q) in
    let size = length-append {0} tasks (block_range index start end ∷ []) in
    elim (Bool-cases (length tasks' == available)) [
      | inl whole ↦ rw whole (ground (arith, whole), h')
      | inr more ↦
          rw more
            (push_ranges-Q Q available index ranges _ tasks' q (ground (arith, size, more, l)) h')
    ]

module _ (c : Collector) (shuffle : List PieceIndex → List PieceIndex)
    (peer tasks_nbytes available : ℕ) (bitfield : BitField) (infos : Pieces)
    (initial : List PieceState) (order : List PeersPerPiece) (begin : ℕ)
    (few_pieces : infos.num_pieces + 2 < 2 ^ 32)
    (ranges : (j : PieceIndex)
      → j < infos.num_pieces
      → (rs : List (ℕ × ℕ)) × (c.iter_empty_ranges j ≡ some rs))
    (count : length initial ≡ infos.num_pieces) where
  -- The peer has the piece, which is not downloaded.
  unfoldable Wanted : PieceIndex → Type 0
  Wanted j = (get_bit bitfield j ≡ some true) × (downloaded_at initial j ≡ some false)

  unfoldable Asked : List PieceState → PieceIndex → Type 0
  Asked states j = Wanted j × (worker_at peer states j ≡ some true)

  record Inv (s : ℕ × PiecePicker) : Type 0 where
    same_infos : s.1.pieces_infos ≡ infos
    same_order : s.1.sorted_index ≡ order
    same_start : s.1.start_at ≡ begin
    states : length s.1.states ≡ infos.num_pieces
    flags : (j : PieceIndex) → downloaded_at s.1.states j ≡ downloaded_at initial j
    room : length s.1.to_download ≤ available
    tasks : All (AsksOnly (Asked s.1.states)) s.1.to_download

  Wanted-lt : (j : PieceIndex) → Wanted j → j < infos.num_pieces
  unfolding Wanted
  Wanted-lt j w = omega (arith, index-lt initial j false w.1, count)

  small_Asked : (states : List PieceState) (j : PieceIndex) → Asked states j → j + 2 < 2 ^ 32
  unfolding Asked
  small_Asked states j a = omega (arith, Wanted-lt j a.0, few_pieces)

  -- the tasks, when one more piece has the worker
  tasks-with_worker :
      (states : List PieceState) (j : PieceIndex) (tasks : List TaskDownload)
      → j < length states
      → All (AsksOnly (Asked states)) tasks
      → All (AsksOnly (Asked (with_worker peer j states))) tasks
  unfolding Asked
  tasks-with_worker states j tasks h =
      All-map (AsksOnly (Asked states)) (AsksOnly (Asked (with_worker peer j states))) tasks
        (λ t asks k cover. ((asks k cover).0, with_worker-keeps peer j k states h (asks k cover).1))

  with_worker-Inv :
      (nbytes nbytes' : ℕ) (p : PiecePicker) (j : PieceIndex) (tasks : List TaskDownload)
      → Inv (nbytes, p)
      → j < length p.states
      → length tasks ≤ available
      → All (AsksOnly (Asked (with_worker peer j p.states))) tasks
      → Inv (nbytes', record p { states = with_worker peer j p.states; to_download = tasks })
  with_worker-Inv nbytes nbytes' p j tasks v h l a = record {
    same_infos = v.same_infos;
    same_order = v.same_order;
    same_start = v.same_start;
    states = length-set p.states j _ ∙ v.states;
    flags = λ k. with_worker-downloaded peer j k p.states h ∙ v.flags k;
    room = l;
    tasks = a;
  }

  abbrev IsReady : ℕ × PiecePicker → Type 0
  IsReady = Ready shuffle c (pick_one c peer tasks_nbytes available) Inv Wanted

  abbrev IsGood : Option (PickMode × (ℕ × PiecePicker)) → Type 0
  IsGood = Good shuffle c (pick_one c peer tasks_nbytes available) Inv Wanted

  -- the result of `add_piece_to_download`, put into the picker
  Added-Good :
      (o : Option (List TaskDownload × Bool)) (nbytes nbytes' : ℕ) (p : PiecePicker)
      (j : PieceIndex) (no_push : Bool) (mode : Bool → PickMode)
      → IsReady (nbytes, p)
      → j < length p.states
      → no_push ≡ (length p.to_download == available)
      → Added
          (Asked (with_worker peer j p.states))
          (small_Asked (with_worker peer j p.states))
          (length p.to_download)
          no_push
          o
      → IsGood (
          o >>= λ (tasks, would_push). some (
            mode would_push,
            (nbytes', record p { states = with_worker peer j p.states; to_download = tasks }),
          ))
  unfolding Added
  Added-Good none nbytes nbytes' p j no_push mode r h e a = a
  Added-Good (some (tasks, would_push)) nbytes nbytes' p j no_push mode r h e a =
      (with_worker-Inv nbytes nbytes' p j tasks r.0 h (fits no_push e a.0) a.1, r.1)
    where
      fits :
          (b : Bool)
          → b ≡ (length p.to_download == available)
          → length tasks ≤ (if b then length p.to_download else suc (length p.to_download))
          → length tasks ≤ available
      fits true e l = omega (arith, l, r.0.room)
      fits false e l = ground (arith, e, l, r.0.room)

  pick_full-Good :
      (nbytes : ℕ) (p : PiecePicker) (j : PieceIndex)
      → IsReady (nbytes, p)
      → Wanted j
      → IsGood (pick_full peer tasks_nbytes available j (nbytes, p))
  unfolding pick_full Asked
  pick_full-Good nbytes p j r w =
      let inside = Wanted-lt j w in
      let h : j < length p.states = omega (arith, inside, r.0.states) in
      let states' = with_worker peer j p.states in
      let no_push = length p.to_download == available in
      let asked : Asked states' j = (w, with_worker_self peer j p.states h) in
      let (size, e) = piece_size_of-some infos j inside in
      Good-bind shuffle c (pick_one c peer tasks_nbytes available) Inv Wanted (add_worker peer j p)
        (record p { states = states' }) _ (add_worker-lt peer j p h)
        (Good-bind shuffle c (pick_one c peer tasks_nbytes available) Inv Wanted
          (piece_size_of p.pieces_infos j) size _ (ap (λ i. piece_size_of i j) r.0.same_infos ∙ e)
          (Added-Good (add_piece_to_download p.to_download j no_push) nbytes
            (wrapping_add 64 nbytes size) p j no_push
            (λ would_push.
              if no_push && would_push
              then stop
              else more_bytes tasks_nbytes (wrapping_add 64 nbytes size))
            r h refl
            (add_piece_to_download-Q (Asked states') (small_Asked states') p.to_download j no_push
              (tasks-with_worker p.states j p.to_download h r.0.tasks) asked)))

  finish_partial-Good :
      (rs : List (ℕ × ℕ)) (nbytes : ℕ) (p : PiecePicker) (j : PieceIndex)
      → IsReady (nbytes, p)
      → j < length p.states
      → Asked (with_worker peer j p.states) j
      → length p.to_download < available
      → IsGood (finish_partial peer tasks_nbytes available j rs (nbytes, p))
  unfolding finish_partial push_ranges
  finish_partial-Good [] nbytes p j r h asked l = r
  finish_partial-Good (range ∷ rs) nbytes p j r h asked l =
      let states' = with_worker peer j p.states in
      let pushed = push_ranges available j (range ∷ rs) (nbytes, p.to_download) in
      let (room, all) =
        push_ranges-Q (Asked states') available j (range ∷ rs) nbytes p.to_download asked l
          (tasks-with_worker p.states j p.to_download h r.0.tasks) in
      Good-bind shuffle c (pick_one c peer tasks_nbytes available) Inv Wanted
        (add_worker peer j (record p { to_download = pushed.1 }))
        (record p { states = states'; to_download = pushed.1 }) _
        (add_worker-lt peer j (record p { to_download = pushed.1 }) h)
        (with_worker-Inv nbytes pushed.0 p j pushed.1 r.0 h room all, r.1)

  pick_partial-Good :
      (nbytes : ℕ) (p : PiecePicker) (j : PieceIndex)
      → IsReady (nbytes, p)
      → Wanted j
      → IsGood (pick_partial c peer tasks_nbytes available j (nbytes, p))
  unfolding pick_partial Asked
  pick_partial-Good nbytes p j r w = elim (Bool-cases (length p.to_download == available)) [
    | inl whole ↦ rw whole r
    | inr free ↦
        let inside = Wanted-lt j w in
        let h : j < length p.states = omega (arith, inside, r.0.states) in
        let (rs, e) = ranges j inside in
        rw (free, e)
          (finish_partial-Good rs nbytes p j r h (w, with_worker_self peer j p.states h)
            (ground (arith, free, r.0.room)))
  ]

  pick_one-Good :
      (s : ℕ × PiecePicker) (j : PieceIndex)
      → IsReady s
      → Wanted j
      → IsGood (pick_one c peer tasks_nbytes available s (picked c j))
  pick_one-Good (nbytes, p) j r w = elim (Bool-cases (c.is_empty j)) [
    | inl fresh ↦ rw fresh (pick_full-Good nbytes p j r w)
    | inr begun ↦ rw begun (pick_partial-Good nbytes p j r w)
  ]

  save_haves-Inv :
      (nbytes : ℕ) (p : PiecePicker) (haves : List PieceIndex)
      → Inv (nbytes, p)
      → Inv (nbytes, record p { haves = haves })
  save_haves-Inv nbytes p haves v = record {
    same_infos = v.same_infos;
    same_order = v.same_order;
    same_start = v.same_start;
    states = v.states;
    flags = v.flags;
    room = v.room;
    tasks = v.tasks;
  }

  state-Wanted :
      (s : ℕ × PiecePicker) (j : PieceIndex) (state : PieceState)
      → Inv s
      → get_elem? s.1.states j ≡ some state
      → state.downloaded ≡ false
      → get_bit bitfield j ≡ some true
      → Wanted j
  unfolding Wanted
  state-Wanted s j state v e down bit =
      (bit, sym (v.flags j) ∙ ap (λ o. o >>= λ x. some x.downloaded) e ∙ ap some down)

-- `pick_piece` does not panic, its assertion holds, and each of its tasks asks only for pieces that the
-- peer has and that are not downloaded, and the peer is then a worker on them. The picker's invariant
-- holds before and after, the bit field has a byte for every bit, the collector gives the ranges of every piece, and
-- the shuffle keeps which pieces are in a list.
pub pick_piece-AsksOnly :
    (c : Collector) (shuffle : List PieceIndex → List PieceIndex) (peer tasks_nbytes available : ℕ)
    (bitfield : BitField) (p : PiecePicker)
    → IsUsable p
    → IsBacked bitfield
    → ((j : PieceIndex)
        → j < p.pieces_infos.num_pieces
        → (rs : List (ℕ × ℕ)) × (c.iter_empty_ranges j ≡ some rs))
    → ((xs : List PieceIndex) (x : PieceIndex) → contains (shuffle xs) x ≡ contains xs x)
    → (nbytes : Option ℕ) × (p' : PiecePicker) × (pick_piece shuffle c peer tasks_nbytes available
          bitfield p
        ≡ some (nbytes, p'))
      × IsUsable p'
      × (p'.pieces_infos ≡ p.pieces_infos)
      × (length p'.to_download ≤ available)
      × All
          (AsksOnly (λ j.
            ((get_bit bitfield j ≡ some true) × (downloaded_at p.states j ≡ some false))
            × (worker_at peer p'.states j ≡ some true)))
          p'.to_download
unfolding pick_piece Asked Wanted
pick_piece-AsksOnly c shuffle peer tasks_nbytes available bitfield p u backed ranges shuffles =
    elim (Bool-cases (available == 0)) [
      | inl nothing ↦ (
        none,
        record p { to_download = []; haves = [] },
        rw nothing refl,
        record { start = u.start; pieces = u.pieces; states = u.states; small = u.small },
        refl,
        omega arith,
        tt,
      )
      | inr something ↦ rw something (
          finish
            (pick_piece_inner shuffle c (pick_one c peer tasks_nbytes available) peer bitfield
              (0, cleared))
            loop)
    ]
  where
    cleared : PiecePicker
    cleared = record p { to_download = []; haves = [] }

    IsRun : Option (PickMode × (ℕ × PiecePicker)) → Type 0
    IsRun =
        Good shuffle c (pick_one c peer tasks_nbytes available)
          (Inv c shuffle peer tasks_nbytes available bitfield p.pieces_infos p.states p.sorted_index
            p.start_at u.small ranges u.states)
          (Wanted c shuffle peer tasks_nbytes available bitfield p.pieces_infos p.states
            p.sorted_index p.start_at u.small ranges u.states)

    loop : IsRun (
        pick_piece_inner shuffle c
          (pick_one c peer tasks_nbytes available)
          peer
          bitfield
          (0, cleared))
    loop =
        pick_piece_inner-Good shuffle c (pick_one c peer tasks_nbytes available) _ _
          (λ s j r w.
            pick_one-Good c shuffle peer tasks_nbytes available bitfield p.pieces_infos p.states
              p.sorted_index p.start_at u.small ranges u.states s j r w)
          (λ nbytes q haves v.
            save_haves-Inv c shuffle peer tasks_nbytes available bitfield p.pieces_infos p.states
              p.sorted_index p.start_at u.small ranges u.states nbytes q haves v)
          (λ xs all.
            contains-All _ (shuffle xs) (λ x e. All-contains _ xs all x (sym (shuffles xs x) ∙ e)))
          peer bitfield p.pieces_infos.num_pieces (λ j. get_bit-total bitfield j backed)
          (λ s v. v.states)
          (λ s j state v e down bit.
            state-Wanted c shuffle peer tasks_nbytes available bitfield p.pieces_infos p.states
              p.sorted_index p.start_at u.small ranges u.states s j state v e down bit)
          (0, cleared) u.start u.pieces
          (
            record {
              same_infos = refl;
              same_order = refl;
              same_start = refl;
              states = u.states;
              flags = λ j. refl;
              room = omega arith;
              tasks = tt;
            },
            tt,
          )

    finish :
        (o : Option (PickMode × (ℕ × PiecePicker)))
        → IsRun o
        → (nbytes : Option ℕ) × (p' : PiecePicker) × ((o >>= λ (mode, s). picked_tasks available s)
            ≡ some (nbytes, p'))
          × IsUsable p'
          × (p'.pieces_infos ≡ p.pieces_infos)
          × (length p'.to_download ≤ available)
          × All
              (AsksOnly (λ j.
                ((get_bit bitfield j ≡ some true) × (downloaded_at p.states j ≡ some false))
                × (worker_at peer p'.states j ≡ some true)))
              p'.to_download
    finish none h = absurd h
    finish (some (mode, (nbytes, p'))) h =
        let fits : leb (length p'.to_download) available ≡ true = ground (arith, h.0.room) in
        (
          elim p'.to_download [ [] ↦ none | _ ∷ _ ↦ some nbytes ],
          p',
          rw fits refl,
          record {
            start = rw (h.0.same_start, h.0.same_order) u.start;
            pieces = rw (h.0.same_infos, h.0.same_order) u.pieces;
            states = rw h.0.same_infos h.0.states;
            small = rw h.0.same_infos u.small;
          },
          h.0.same_infos,
          h.0.room,
          h.0.tasks,
        )
