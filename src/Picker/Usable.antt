-- ===== src/Picker/Usable.antt =====
-- The invariant of a picker.
use rustorrent.Common.{◌+◌, ◌^◌, ◌≤◌, ◌<◌, ◌≡◌, All, length}
use rustorrent.Picker.{PiecePicker}

-- There is a state for every piece, the sorted pieces are among them, and the start is inside. The
-- indices of pieces, and two more, fit 32 bits.
pub record IsUsable (p : PiecePicker) : Type 0 where
  pub start : p.start_at ≤ length p.sorted_index
  pub pieces : All (λ a. a.piece_index < p.pieces_infos.num_pieces) p.sorted_index
  pub states : length p.states ≡ p.pieces_infos.num_pieces
  pub small : p.pieces_infos.num_pieces + 2 < 2 ^ 32
