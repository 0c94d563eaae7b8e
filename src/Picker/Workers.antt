-- ===== src/Picker/Workers.antt =====
-- The workers of a piece, and lists of pieces.
use rustorrent.Common.{
  ℕ, zero, suc, ◌<◌, ◌≡◌, refl, ap, sym, Bool, true, false, Option, some, List, [], ◌∷◌, All, arith,
  Bool-cases, inl, inr, length, get_elem?, get_or, set, get_elem?-eq-get_or, get_elem?-set_self,
  get_elem?-set_ne,
}
use native.Mathlib.Decide.{ℕ_discrete}
use rustorrent.Common.Checked.{◌>>=◌}
use rustorrent.Pieces.{PieceIndex}
use rustorrent.Picker.{PieceState, PiecePicker, contains, insert_worker}
use rustorrent.Picker.Pick.{add_worker}

abbrev pub downloaded_at : List PieceState → PieceIndex → Option Bool
downloaded_at states j = get_elem? states j >>= λ s. some s.downloaded

abbrev pub worker_at : ℕ → List PieceState → PieceIndex → Option Bool
worker_at peer states j = get_elem? states j >>= λ s. some (contains s.workers peer)

abbrev pub no_state : PieceState
no_state = record { downloaded = false; workers = [] }

pub index-lt :
    (states : List PieceState) (j : PieceIndex) (b : Bool)
    → downloaded_at states j ≡ some b
    → j < length states
index-lt [] j b e = absurd (ground (arith, e))
index-lt (s ∷ states) zero b e = omega arith
index-lt (s ∷ states) (suc j) b e = omega (arith, index-lt states j b e)

insert_worker-contains :
    (peer : ℕ) (workers : List ℕ) → contains (insert_worker peer workers) peer ≡ true
insert_worker-contains peer workers = elim (Bool-cases (contains workers peer)) [
  | inl e ↦ rw (e) e
  | inr e ↦ rw e (ground arith)
]

-- the states with the worker added
abbrev pub with_worker : ℕ → PieceIndex → List PieceState → List PieceState
with_worker peer j states =
    let s = get_or states j no_state in
    set states j (record s { workers = insert_worker peer s.workers })

pub add_worker-lt :
    (peer : ℕ) (j : PieceIndex) (p : PiecePicker)
    → j < length p.states
    → add_worker peer j p ≡ some (record p { states = with_worker peer j p.states })
unfolding add_worker
add_worker-lt peer j p h = rw (get_elem?-eq-get_or p.states j no_state h) refl

pub with_worker-downloaded :
    (peer : ℕ) (j k : PieceIndex) (states : List PieceState)
    → j < length states
    → downloaded_at (with_worker peer j states) k ≡ downloaded_at states k
with_worker-downloaded peer j k states h = elim (ℕ_discrete j k) [
  | yes same ↦
      rw
        (
          sym same,
          get_elem?-set_self states j
              (record (get_or states j no_state) {
                workers = insert_worker peer (get_or states j no_state).workers;
              })
              h,
          get_elem?-eq-get_or states j no_state h,
        )
        refl
  | no ne ↦
      rw
        (get_elem?-set_ne states j k
          (record (get_or states j no_state) {
            workers = insert_worker peer (get_or states j no_state).workers;
          })
          ne)
        refl
]

pub with_worker_self :
    (peer : ℕ) (j : PieceIndex) (states : List PieceState)
    → j < length states
    → worker_at peer (with_worker peer j states) j ≡ some true
with_worker_self peer j states h =
    rw
      (get_elem?-set_self states j
        (record (get_or states j no_state) {
          workers = insert_worker peer (get_or states j no_state).workers;
        })
        h)
      (ap some (insert_worker-contains peer (get_or states j no_state).workers))

pub with_worker-keeps :
    (peer : ℕ) (j k : PieceIndex) (states : List PieceState)
    → j < length states
    → worker_at peer states k ≡ some true
    → worker_at peer (with_worker peer j states) k ≡ some true
with_worker-keeps peer j k states h w = elim (ℕ_discrete j k) [
  | yes same ↦ rw (sym same) (with_worker_self peer j states h)
  | no ne ↦
      rw
        (get_elem?-set_ne states j k
          (record (get_or states j no_state) {
            workers = insert_worker peer (get_or states j no_state).workers;
          })
          ne)
        w
]

pub All-map {ℓ κ κ'} :
    {A : Type ℓ} (P : A → Type κ) (Q : A → Type κ') (xs : List A)
    → ((x : A) → P x → Q x)
    → All P xs
    → All Q xs
All-map P Q [] f h = tt
All-map P Q (x ∷ xs) f h = (f x h.0, All-map P Q xs f h.1)

pub All-contains : (P : ℕ → Type 0) (xs : List ℕ) → All P xs → (x : ℕ) → contains xs x ≡ true → P x
All-contains P [] h x e = absurd (ground (arith, e))
All-contains P (y ∷ ys) h x e = elim (ℕ_discrete x y) [
  | yes same ↦ rw same h.0
  | no ne ↦ All-contains P ys h.1 x (ground (arith, e, ne))
]

pub contains-All :
    (P : ℕ → Type 0) (xs : List ℕ) → ((x : ℕ) → contains xs x ≡ true → P x) → All P xs
contains-All P [] f = tt
contains-All P (y ∷ ys) f = (f y (ground arith), contains-All P ys (λ x e. f x (ground (arith, e))))
