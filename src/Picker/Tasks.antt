-- ===== src/Picker/Tasks.antt =====
-- What `add_piece_to_download` does to the pieces that the tasks ask for.
use rustorrent.Common.{
  ℕ, zero, suc, ◌+◌, ◌-◌, ◌^◌, ◌≤◌, ◌<◌, ◌≡◌, refl, ◌∙◌, ap, sym, Bool, true, false, ◌&&◌, Option,
  none, some, List, [], ◌∷◌, ◌++◌, append_assoc, append-nil, All, All-append, arith, Bool-cases,
  inl, inr, ◌==◌, if◌then◌else◌, length, length-append,
}
use native.Mathlib.Decide.{dec_lt, ℕ_discrete}
use rustorrent.Common.Checked.{◌>>=◌}
use rustorrent.Pieces.{PieceIndex, TaskDownload, piece_task, pieces_range, block_range, next_piece}
use rustorrent.Picker.{extend_task, extend_last, pushed, add_piece_to_download, indices}

-- the task asks for bytes of the piece
abbrev pub Covers : TaskDownload → PieceIndex → Type 0
Covers (piece_task p) j = j ≡ p
Covers (pieces_range start end) j = (start ≤ j) × (j < end)
Covers (block_range p start end) j = j ≡ p

-- It asks only for pieces with the property.
abbrev pub AsksOnly : (PieceIndex → Type 0) → TaskDownload → Type 0
AsksOnly Q t = (j : PieceIndex) → Covers t j → Q j

pub next_piece-some : (p : PieceIndex) → p + 1 < 2 ^ 32 → next_piece p ≡ some (p + 1)
unfolding next_piece
next_piece-some p h = ground arith

module _ (Q : PieceIndex → Type 0) (small : (j : PieceIndex) → Q j → j + 2 < 2 ^ 32) where
  -- no panic, and if a task was extended there are as many, which ask only for such pieces
  unfoldable Extended : ℕ → Option (Option (List TaskDownload)) → Type 0
  Extended n none = ⊥
  Extended n (some none) = Unit
  Extended n (some (some tasks)) = (length tasks ≡ n) × All (AsksOnly Q) tasks

  unfoldable ExtendedTask : Option (Option TaskDownload) → Type 0
  ExtendedTask none = ⊥
  ExtendedTask (some none) = Unit
  ExtendedTask (some (some t)) = AsksOnly Q t

  extend_task-Q :
      (t : TaskDownload) (index : PieceIndex)
      → AsksOnly Q t
      → Q index
      → ExtendedTask (extend_task t index)
  unfolding extend_task ExtendedTask
  extend_task-Q (piece_task p) index h q =
      rw (next_piece-some p (omega (arith, small p (h p refl))))
        (elim (Bool-cases (p + 1 == index)) [
          | inl same ↦
              rw (same, next_piece-some index (omega (arith, small index q)))
                (λ j (le, lt). elim (ℕ_discrete j p) [
                  | yes e ↦ h j e
                  | no ne ↦ let e : j ≡ index = ground (arith, same, le, lt, ne) in rw e q
                ])
          | inr other ↦ rw other tt
        ])
  extend_task-Q (pieces_range start end) index h q = elim (Bool-cases (end == index)) [
    | inl same ↦
        rw (same, next_piece-some index (omega (arith, small index q)))
          (λ j (le, lt). elim (dec_lt j end) [
            | yes l ↦ h j (le, l)
            | no ge ↦ let e : j ≡ index = ground (arith, same, lt, ge) in rw e q
          ])
    | inr other ↦ rw other tt
  ]
  extend_task-Q (block_range p start end) index h q = tt

  wrap-Extended :
      (t : TaskDownload) (n : ℕ) (o : Option (Option (List TaskDownload)))
      → AsksOnly Q t
      → Extended n o
      → Extended (suc n) (o >>= λ r. some (elim r [ none ↦ none | some ts ↦ some (t ∷ ts) ]))
  unfolding Extended
  wrap-Extended t n none h e = e
  wrap-Extended t n (some none) h e = tt
  wrap-Extended t n (some (some ts)) h (len, all) = (ap suc len, (h, all))

  one-Extended :
      (o : Option (Option TaskDownload))
      → ExtendedTask o
      → Extended 1 (o >>= λ r. some (elim r [ none ↦ none | some t ↦ some (t ∷ []) ]))
  unfolding Extended ExtendedTask
  one-Extended none e = e
  one-Extended (some none) e = tt
  one-Extended (some (some t)) e = (refl, (e, tt))

  extend_last-Q :
      (tasks : List TaskDownload) (index : PieceIndex)
      → All (AsksOnly Q) tasks
      → Q index
      → Extended (length tasks) (extend_last tasks index)
  unfolding extend_last Extended
  extend_last-Q [] index h q = tt
  extend_last-Q (t ∷ []) index h q =
      one-Extended (extend_task t index) (extend_task-Q t index h.0 q)
  extend_last-Q (t ∷ t' ∷ ts) index h q =
      wrap-Extended t (suc (length ts)) (extend_last (t' ∷ ts) index) h.0
        (extend_last-Q (t' ∷ ts) index h.1 q)

  -- `add_piece_to_download` does not panic, and its tasks ask only for such pieces. There is one more
  -- only if it pushes.
  unfoldable pub Added : ℕ → Bool → Option (List TaskDownload × Bool) → Type 0
  Added n no_push none = ⊥
  Added n no_push (some (tasks, would_push)) =
      (length tasks ≤ (if no_push then n else suc n)) × All (AsksOnly Q) tasks

  pub add_piece_to_download-Q :
      (tasks : List TaskDownload) (index : PieceIndex) (no_push : Bool)
      → All (AsksOnly Q) tasks
      → Q index
      → Added (length tasks) no_push (add_piece_to_download tasks index no_push)
  unfolding add_piece_to_download Added Extended
  add_piece_to_download-Q tasks index no_push h q =
      go (extend_last tasks index) (extend_last-Q tasks index h q) no_push
    where
      go :
          (o : Option (Option (List TaskDownload)))
          → Extended (length tasks) o
          → (no_push : Bool)
          → Added (length tasks) no_push (o >>= λ r. some (pushed tasks index no_push r))
      go none e b = e
      go (some none) e true = (omega arith, h)
      go (some none) e false = (
        omega (arith, length-append {0} tasks (piece_task index ∷ [])),
        All-append (AsksOnly Q) tasks (piece_task index) h (λ j e'. rw e' q),
      )
      go (some (some ts)) e true = (omega (arith, e.0), e.1)
      go (some (some ts)) e false = (omega (arith, e.0), e.1)

-- the pieces that a task asks for, in order
unfoldable pub pieces_of : TaskDownload → List PieceIndex
pieces_of (piece_task p) = p ∷ []
pieces_of (pieces_range start end) = indices start (end - start)
pieces_of (block_range p start end) = p ∷ []

unfoldable pub all_pieces : List TaskDownload → List PieceIndex
unfolding pieces_of
all_pieces [] = []
all_pieces (t ∷ ts) = pieces_of t ++ all_pieces ts

-- A range does not end before it starts, and a single piece is not the last index of 32 bits.
abbrev pub IsOrdered : TaskDownload → Type 0
IsOrdered (piece_task p) = p + 1 < 2 ^ 32
IsOrdered (pieces_range start end) = start ≤ end
IsOrdered (block_range p start end) = Unit

indices-append : (k n : ℕ) → indices k (suc n) ≡ indices k n ++ (k + n) ∷ []
indices-append k zero = let e : k ≡ k + 0 = omega arith in ap (λ x. x ∷ []) e
indices-append k (suc n) =
    let e : suc k + n ≡ k + suc n = omega arith in
    ap (λ xs. k ∷ xs) (indices-append (suc k) n ∙ ap (λ x. indices (suc k) n ++ x ∷ []) e)

module _ (index : PieceIndex) (small : index + 1 < 2 ^ 32) where
  unfoldable GainsTask : List PieceIndex → Option (Option TaskDownload) → Type 0
  GainsTask ps none = ⊥
  GainsTask ps (some none) = Unit
  GainsTask ps (some (some t)) = pieces_of t ≡ ps ++ index ∷ []

  unfoldable Gains : List PieceIndex → Option (Option (List TaskDownload)) → Type 0
  Gains ps none = ⊥
  Gains ps (some none) = Unit
  Gains ps (some (some ts)) = all_pieces ts ≡ ps ++ index ∷ []

  extend_task-Gains :
      (t : TaskDownload) → IsOrdered t → GainsTask (pieces_of t) (extend_task t index)
  unfolding extend_task GainsTask pieces_of
  extend_task-Gains (piece_task p) h =
      rw (next_piece-some p h) (elim (Bool-cases (p + 1 == index)) [
        | inl same ↦
            let two : index + 1 - p ≡ 2 = ground (arith, same) in
            let e : suc p ≡ index = ground (arith, same) in
            rw (same, next_piece-some index small, two) (ap (λ k. p ∷ k ∷ []) e)
        | inr other ↦ rw other tt
      ])
  extend_task-Gains (pieces_range start end) h = elim (Bool-cases (end == index)) [
    | inl same ↦
        let more : index + 1 - start ≡ suc (end - start) = ground (arith, same, h) in
        let last : start + (end - start) ≡ index = ground (arith, same, h) in
        rw (same, next_piece-some index small, more)
          (indices-append start (end - start)
            ∙ ap (λ k. indices start (end - start) ++ k ∷ []) last)
    | inr other ↦ rw other tt
  ]
  extend_task-Gains (block_range p start end) h = tt

  one-Gains :
      (t : TaskDownload) (o : Option (Option TaskDownload))
      → GainsTask (pieces_of t) o
      → Gains
          (all_pieces (t ∷ []))
          (o >>= λ r. some (elim r [ none ↦ none | some t ↦ some (t ∷ []) ]))
  unfolding Gains GainsTask all_pieces
  one-Gains t none e = e
  one-Gains t (some none) e = tt
  one-Gains t (some (some t')) e = rw (append-nil (pieces_of t), append-nil (pieces_of t')) e

  wrap-Gains :
      (t : TaskDownload) (ps : List PieceIndex) (o : Option (Option (List TaskDownload)))
      → Gains ps o
      → Gains
          (pieces_of t ++ ps)
          (o >>= λ r. some (elim r [ none ↦ none | some ts ↦ some (t ∷ ts) ]))
  unfolding Gains all_pieces
  wrap-Gains t ps none e = e
  wrap-Gains t ps (some none) e = tt
  wrap-Gains t ps (some (some ts)) e =
      ap (λ xs. pieces_of t ++ xs) e ∙ sym (append_assoc (pieces_of t) ps (index ∷ []))

  extend_last-Gains :
      (tasks : List TaskDownload)
      → All IsOrdered tasks
      → Gains (all_pieces tasks) (extend_last tasks index)
  unfolding extend_last Gains all_pieces
  extend_last-Gains [] h = tt
  extend_last-Gains (t ∷ []) h = one-Gains t (extend_task t index) (extend_task-Gains t h.0)
  extend_last-Gains (t ∷ t' ∷ ts) h =
      wrap-Gains t (all_pieces (t' ∷ ts)) (extend_last (t' ∷ ts) index)
        (extend_last-Gains (t' ∷ ts) h.1)

all_pieces-append :
    (ts : List TaskDownload) (index : PieceIndex)
    → all_pieces (ts ++ piece_task index ∷ []) ≡ all_pieces ts ++ index ∷ []
unfolding all_pieces pieces_of
all_pieces-append [] index = refl
all_pieces-append (t ∷ ts) index =
    ap (λ xs. pieces_of t ++ xs) (all_pieces-append ts index)
    ∙ sym (append_assoc (pieces_of t) (all_pieces ts) (index ∷ []))

-- For tasks whose ranges do not end before they start and an index that has a next one,
-- `add_piece_to_download` does not panic, and the tasks then ask for the piece behind those that they
-- asked for, in that order. Only if it may not push and would have, they ask for what they did.
pub add_piece_to_download-pieces :
    (tasks : List TaskDownload) (index : PieceIndex) (no_push : Bool)
    → All IsOrdered tasks
    → index + 1 < 2 ^ 32
    → (tasks' : List TaskDownload) × (would_push : Bool) × (add_piece_to_download tasks index
          no_push
        ≡ some (tasks', would_push))
      × (all_pieces tasks' ≡ all_pieces tasks ++ (if no_push && would_push then [] else index ∷ []))
unfolding add_piece_to_download Gains
add_piece_to_download-pieces tasks index no_push h small =
    go (extend_last tasks index) (extend_last-Gains index small tasks h) no_push
  where
    go :
        (o : Option (Option (List TaskDownload)))
        → Gains index small (all_pieces tasks) o
        → (no_push : Bool)
        → (tasks' : List TaskDownload) × (would_push : Bool) × ((o >>= λ r.
              some (pushed tasks index no_push r))
            ≡ some (tasks', would_push))
          × (all_pieces tasks'
              ≡ all_pieces tasks ++ (if no_push && would_push then [] else index ∷ []))
    go none e b = absurd e
    go (some none) e true = (tasks, true, refl, sym (append-nil (all_pieces tasks)))
    go (some none) e false =
        (tasks ++ piece_task index ∷ [], true, refl, all_pieces-append tasks index)
    go (some (some ts)) e true = (ts, false, refl, e)
    go (some (some ts)) e false = (ts, false, refl, e)
