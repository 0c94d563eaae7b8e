-- ===== src/Picker.antt =====
-- src/piece_picker.rs: which pieces are asked of a peer. The hash set of workers is a list that holds
-- each worker once, and `none` is a panic. `Collector` is what the picker uses of `PieceCollector`:
-- whether a piece has no block yet, and the ranges of bytes that its iterator gives.
pub mod Order
pub mod Tasks
pub mod Pick
pub mod Usable
pub mod Rule
pub mod Workers
pub mod Safe
pub mod Would
pub mod Calls
mod Tests
use rustorrent.Common.{
  ℕ, zero, suc, ◌+◌, ◌%◌, ◌^◌, ◌-◌, Bool, true, false, ◌&&◌, ◌||◌, not, Option, none, some, List,
  [], ◌∷◌, ◌++◌, map, ltb, leb, ◌==◌, if◌then◌else◌, length, get_elem?, set, drop, replicate,
  wrapping_add, wrapping_sub,
}
use rustorrent.Common.Checked.{◌>>=◌}
use rustorrent.Pieces.{
  PieceIndex, Pieces, TaskDownload, piece_task, pieces_range, block_range, next_piece,
  piece_size_of,
}
use rustorrent.BitField.{BitField, BitFieldUpdate, bit_field, piece, get_bit}

pub record PeersPerPiece : Type 0 where
  pub npeers : ℕ
  pub piece_index : PieceIndex

pub record PieceState : Type 0 where
  pub downloaded : Bool
  pub workers : List ℕ

pub record PiecePicker : Type 0 where
  pub pieces_infos : Pieces
  pub start_at : ℕ
  pub sorted_index : List PeersPerPiece
  pub states : List PieceState
  pub to_download : List TaskDownload
  pub haves : List PieceIndex

pub data Picked : Type 0 where
  full partial : PieceIndex → Picked

pub data PickMode : Type 0 where
  continue stop : PickMode

pub record Collector : Type 0 where
  pub is_empty : PieceIndex → Bool
  pub iter_empty_ranges : PieceIndex → Option (List (ℕ × ℕ))

-- `0..n`, from `k`
abbrev pub indices : ℕ → ℕ → List ℕ
indices k zero = []
indices k (suc n) = k ∷ indices (suc k) n

-- `PeersPerPiece::new`
abbrev pub fresh_piece : PieceIndex → PeersPerPiece
fresh_piece i = record { npeers = 0; piece_index = i % 2 ^ 32 }

-- `PiecePicker::new`
unfoldable pub picker_new : Pieces → PiecePicker
picker_new p = record {
  pieces_infos = p;
  start_at = 0;
  sorted_index = map fresh_piece (indices 0 p.num_pieces);
  states = replicate p.num_pieces (record { downloaded = false; workers = [] });
  to_download = [];
  haves = [];
}

-- `Ord for PeersPerPiece`, as the test that `b` does not come before `a`
abbrev pub le_peers : PeersPerPiece → PeersPerPiece → Bool
le_peers a b =
    if a.npeers == b.npeers then leb a.piece_index b.piece_index else ltb a.npeers b.npeers

-- `sort_unstable`: the order is total, so that there is one sorted array.
unfoldable pub insert_sorted : PeersPerPiece → List PeersPerPiece → List PeersPerPiece
insert_sorted a [] = a ∷ []
insert_sorted a (b ∷ bs) = if le_peers a b then a ∷ b ∷ bs else b ∷ insert_sorted a bs

unfoldable pub sort_unstable : List PeersPerPiece → List PeersPerPiece
unfolding insert_sorted
sort_unstable [] = []
sort_unstable (a ∷ rest) = insert_sorted a (sort_unstable rest)

-- the position of the first piece that is not downloaded, or the length
unfoldable pub position : List PieceState → List PeersPerPiece → Option ℕ
position states [] = some 0
position states (a ∷ rest) = get_elem? states a.piece_index >>= λ state.
    if state.downloaded then (position states rest >>= λ n. some (suc n)) else some 0

unfoldable pub sort_indexed : PiecePicker → Option PiecePicker
unfolding sort_unstable position
sort_indexed p =
    let sorted = sort_unstable p.sorted_index in
    position p.states sorted >>= λ n. some (record p { sorted_index = sorted; start_at = n })

-- `valid != downloaded`
abbrev pub differs : Bool → Bool → Bool
differs true b = not b
differs false b = b

unfoldable pub set_as_downloaded : PiecePicker → PieceIndex → Bool → Option PiecePicker
unfolding sort_indexed
set_as_downloaded p index valid = get_elem? p.states index >>= λ state.
    if differs valid state.downloaded
    then sort_indexed
        (record p { states = set p.states index (record state { downloaded = valid }) })
    else some p

-- `*to_download = ...` on the last task, if it can take the piece in
unfoldable pub extend_task : TaskDownload → PieceIndex → Option (Option TaskDownload)
extend_task (piece_task p) index = next_piece p >>= λ next.
    if next == index
    then (next_piece index >>= λ end. some (some (pieces_range p end)))
    else some none
extend_task (pieces_range start end) index =
    if end == index
    then (next_piece index >>= λ end'. some (some (pieces_range start end')))
    else some none
extend_task (block_range p start end) index = some none

-- `if let Some(..) = last_mut()`: the tasks with the last one extended
unfoldable pub extend_last : List TaskDownload → PieceIndex → Option (Option (List TaskDownload))
unfolding extend_task
extend_last [] index = some none
extend_last (t ∷ []) index =
    extend_task t index >>= λ o. some (elim o [ none ↦ none | some t' ↦ some (t' ∷ []) ])
extend_last (t ∷ t' ∷ ts) index =
    extend_last (t' ∷ ts) index >>= λ o. some (elim o [ none ↦ none | some ts' ↦ some (t ∷ ts') ])

-- the tasks, and whether one was pushed or would have been
abbrev pub pushed :
    List TaskDownload → PieceIndex → Bool → Option (List TaskDownload) → List TaskDownload × Bool
pushed tasks index no_push (some tasks') = (tasks', false)
pushed tasks index true none = (tasks, true)
pushed tasks index false none = (tasks ++ piece_task index ∷ [], true)

unfoldable pub add_piece_to_download :
    List TaskDownload → PieceIndex → Bool → Option (List TaskDownload × Bool)
unfolding extend_last
add_piece_to_download tasks index no_push =
    extend_last tasks index >>= λ o. some (pushed tasks index no_push o)

-- `Set::contains`, `insert` and `remove`
abbrev pub contains : List ℕ → ℕ → Bool
contains [] x = false
contains (y ∷ ys) x = x == y || contains ys x

abbrev pub insert_worker : ℕ → List ℕ → List ℕ
insert_worker x ys = if contains ys x then ys else x ∷ ys

abbrev pub remove_worker : ℕ → List ℕ → List ℕ
remove_worker x [] = []
remove_worker x (y ∷ ys) = if x == y then remove_worker x ys else y ∷ remove_worker x ys

abbrev pub without_worker : ℕ → PieceState → PieceState
without_worker peer s = record s { workers = remove_worker peer s.workers }

unfoldable pub remove_peer : PiecePicker → ℕ → PiecePicker
remove_peer p peer = record p { states = map (without_worker peer) p.states }

-- the increments of `update` with a whole bit field
unfoldable pub count_bits : BitField → List PeersPerPiece → Option (List PeersPerPiece)
count_bits bitfield [] = some []
count_bits bitfield (a ∷ rest) = get_bit bitfield a.piece_index >>= λ bit.
    count_bits bitfield rest >>= λ rest'.
    some ((if bit then record a { npeers = wrapping_add 32 a.npeers 1 } else a) ∷ rest')

-- `iter_mut().find(..)` and its increment
unfoldable pub count_piece : PieceIndex → List PeersPerPiece → List PeersPerPiece
count_piece index [] = []
count_piece index (a ∷ rest) =
    if a.piece_index == index
    then record a { npeers = wrapping_add 32 a.npeers 1 } ∷ rest
    else a ∷ count_piece index rest

unfoldable pub update : PiecePicker → BitFieldUpdate → Option PiecePicker
unfolding sort_indexed count_bits count_piece
update p (bit_field bitfield) = count_bits bitfield p.sorted_index >>= λ sorted.
    sort_indexed (record p { sorted_index = sorted })
update p (piece index) = sort_indexed (record p { sorted_index = count_piece index p.sorted_index })
