-- ===== src/Picker/Tests.antt =====
-- A picker of three pieces, and a peer that has the first and the last.
use mathlib.Core.List.{Perm}
use rustorrent.Common.{
  ℕ, ◌≤◌, ◌≡◌, refl, Bool, true, false, ◌&&◌, Option, some, List, [], ◌∷◌, ◌++◌, All, arith,
  if◌then◌else◌, length, drop,
}
use rustorrent.Common.Checked.{◌>>=◌}
use rustorrent.Pieces.{
  PieceIndex, Pieces, TaskDownload, piece_task, next_piece, piece_size_of, is_last_piece,
}
use rustorrent.BitField.{BitField, bit_field, piece, get_bit, and_bit}
use rustorrent.Picker.{
  PiecePicker, Collector, picker_new, sort_indexed, add_piece_to_download, extend_last, extend_task,
}
use rustorrent.Picker.Pick.{
  pick_piece, would_pick_piece, pick_piece_inner, visit_pieces, visit_piece, next_npeers,
  flush_some, flush_haves, visit_haves, pick_full, add_worker,
}
use rustorrent.Picker.Tasks.{AsksOnly, all_pieces, add_piece_to_download-pieces}
use rustorrent.Picker.Workers.{downloaded_at, worker_at}
use rustorrent.Picker.Usable.{IsUsable}
use rustorrent.Picker.Order.{IsSorted, StartsAt, sort_indexed-StartsAt}
use rustorrent.Picker.Safe.{pick_piece-AsksOnly}
use rustorrent.Picker.Would.{any, is_wanted, would_pick_piece-any}
use rustorrent.Picker.Calls.{
  Call, updates, picks, removes, tests, sets, IsPicker, run, run-picker_new,
}

abbrev infos : Pieces
infos = record {
  info_hash = [];
  num_pieces = 3;
  sha1_pieces = [];
  block_size = 100;
  last_block_size = 50;
  nblocks_piece = 3;
  nblocks_last_piece = 1;
  piece_length = 250;
  last_piece_length = 20;
  files_size = 520;
}

abbrev ends : BitField
ends = record { inner = 0xA0 ∷ []; nbits = 3 }

abbrev nothing_yet : Collector
nothing_yet = record { is_empty = λ j. true; iter_empty_ranges = λ j. some ((0, 250) ∷ []) }

abbrev as_is : List PieceIndex → List PieceIndex
as_is xs = xs

abbrev start : PiecePicker
start = record {
  pieces_infos = infos;
  start_at = 0;
  sorted_index =
      record { npeers = 0; piece_index = 0 }
      ∷ record { npeers = 0; piece_index = 1 }
      ∷ record { npeers = 0; piece_index = 2 }
      ∷ [];
  states =
      record { downloaded = false; workers = [] }
      ∷ record { downloaded = false; workers = [] }
      ∷ record { downloaded = false; workers = [] }
      ∷ [];
  to_download = [];
  haves = [];
}

start-IsUsable : IsUsable start
start-IsUsable = record {
  start = omega arith;
  pieces = (omega arith, (omega arith, (omega arith, tt)));
  states = refl;
  small = omega arith;
}

-- With room for one task, the peer is asked for the first piece, and is a worker on the last one too,
-- which nobody asks it for from then on.
asked_once : Option (List TaskDownload × Bool)
asked_once = pick_piece as_is nothing_yet 7 1000 1 ends start >>= λ (nbytes, p).
    would_pick_piece as_is nothing_yet 7 ends p >>= λ (found, p'). some (p.to_download, found)

pick_piece-loses : asked_once ≡ some (piece_task 0 ∷ [], false)
unfolding asked_once pick_piece would_pick_piece pick_piece_inner visit_pieces visit_piece
    next_npeers flush_some flush_haves visit_haves pick_full add_worker add_piece_to_download
    extend_last extend_task next_piece piece_size_of is_last_piece get_bit and_bit
pick_piece-loses = refl

pick_piece-AsksOnly_example :
    (nbytes : Option ℕ) × (p' : PiecePicker) × (pick_piece as_is nothing_yet 7 1000 2 ends start
      ≡ some (nbytes, p'))
    × IsUsable p'
    × (p'.pieces_infos ≡ infos)
    × (length p'.to_download ≤ 2)
    × All
        (AsksOnly (λ j.
          ((get_bit ends j ≡ some true) × (downloaded_at start.states j ≡ some false))
          × (worker_at 7 p'.states j ≡ some true)))
        p'.to_download
pick_piece-AsksOnly_example =
    pick_piece-AsksOnly nothing_yet as_is 7 1000 2 ends start start-IsUsable (omega arith)
      (λ j h. ((0, 250) ∷ [], refl)) (λ xs x. refl)

would_pick_piece-any_example :
    (p' : PiecePicker) × (would_pick_piece as_is nothing_yet 7 ends start
      ≡ some (any (is_wanted 7 ends start.states) (drop 0 start.sorted_index), p'))
would_pick_piece-any_example =
    would_pick_piece-any nothing_yet as_is (λ xs x. refl) 7 ends start start-IsUsable (omega arith)

sort_indexed-StartsAt_example :
    (p' : PiecePicker) × (sort_indexed start ≡ some p')
    × Perm p'.sorted_index start.sorted_index
    × IsSorted p'.sorted_index
    × StartsAt start.states p'.sorted_index p'.start_at
sort_indexed-StartsAt_example =
    sort_indexed-StartsAt start (omega arith, (omega arith, (omega arith, tt))) refl

add_piece_to_download-pieces_example :
    (tasks' : List TaskDownload) × (would_push : Bool) × (add_piece_to_download
        (piece_task 1 ∷ [])
        2
        true
      ≡ some (tasks', would_push))
    × (all_pieces tasks'
        ≡ all_pieces (piece_task 1 ∷ []) ++ (if true && would_push then [] else 2 ∷ []))
add_piece_to_download-pieces_example =
    add_piece_to_download-pieces (piece_task 1 ∷ []) 2 true (omega arith, tt) (omega arith)

abbrev calls : List Call
calls =
    updates (bit_field ends)
    ∷ picks as_is nothing_yet 7 1000 2 ends
    ∷ tests as_is nothing_yet 7 ends
    ∷ sets 2 true
    ∷ removes 7
    ∷ updates (piece 1)
    ∷ []

run-picker_new_example : IsPicker infos (run calls (picker_new infos))
run-picker_new_example = run-picker_new infos calls (omega arith) (
  omega arith,
  (
    ((λ xs x. refl), omega arith, (λ j h. ((0, 250) ∷ [], refl))),
    (omega arith, (omega arith, (tt, (tt, tt)))),
  ),
)
