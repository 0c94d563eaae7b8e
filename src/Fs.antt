-- ===== src/Fs.antt =====
-- src/fs/mod.rs and src/fs/standard_fs.rs: where the bytes of a piece are in the files of a torrent.
-- A path is a number, the disk a function of paths, and `none` is a panic. A file that is not there yet
-- is opened empty. `pread` and `pwrite` are those of the system: a read past the end fails, and a write
-- past it fills the hole with zeros. The disk does not fail: the panic of `unwrap` on an I/O error of a
-- write is left out.
pub mod Skip
pub mod Write
pub mod Read
pub mod RoundTrip
mod Tests
use rustorrent.Common.{
  ℕ, zero, suc, ◌+◌, ◌-◌, ◌*◌, ◌%◌, ◌^◌, Bool, true, false, ◌||◌, not, Option, none, some, List, [],
  ◌∷◌, ◌++◌, leb, ltb, ◌==◌, if◌then◌else◌, length, take, drop, min, wrapping_add,
}
use rustorrent.Common.Checked.{◌>>=◌}
use rustorrent.Pieces.{PieceIndex}

pub record TorrentFile : Type 0 where
  pub path : ℕ
  pub file_length : ℕ

abbrev pub Disk : Type 0
Disk = ℕ → List ℕ

pub record TorrentCache : Type 0 where
  pub piece_length : ℕ
  pub files : List TorrentFile
  pub disk : Disk

-- the loop of `file_offset_at`
unfoldable pub offset_in : List TorrentFile → ℕ → ℕ → Option (ℕ × ℕ)
offset_in [] index offset = none
offset_in (f ∷ files) index offset =
    let rest = offset_in files (suc index) (offset - f.file_length) in
    if ltb offset f.file_length then some (index, offset) else rest

abbrev pub offset_of : TorrentCache → PieceIndex → ℕ → ℕ
offset_of c piece block = wrapping_add 64 (piece * c.piece_length % 2 ^ 64) block

unfoldable pub file_offset_at : TorrentCache → PieceIndex → ℕ → Option (ℕ × ℕ)
unfolding offset_in
file_offset_at c piece block = offset_in c.files 0 (offset_of c piece block)

-- `fun(file, offset, max)`, with the state of the closure, and whether it goes on
abbrev pub Visitor : Type 0 → Type 0
Visitor S = ℕ → ℕ → ℕ → S → Option (Bool × S)

module _ {S : Type 0} (fun : Visitor S) where
  unfoldable pub visit_files : List TorrentFile → ℕ → S → Option S
  visit_files [] offset s = some s
  visit_files (f ∷ files) offset s = fun f.path offset (f.file_length - offset) s >>= λ r.
      elim r.0 [ true ↦ visit_files files 0 r.1 | false ↦ some r.1 ]

  unfoldable pub iter_files_on_piece : TorrentCache → PieceIndex → ℕ → S → Option S
  iter_files_on_piece c piece block s =
      file_offset_at c piece block >>= λ at. visit_files (drop at.0 c.files) at.1 s

-- `write_all_at` with pwrite, on a disk that does not fail
unfoldable pub write_all_at : ℕ → List ℕ → List ℕ → List ℕ
write_all_at offset [] xs = xs
write_all_at zero (b ∷ buf) [] = b ∷ write_all_at zero buf []
write_all_at zero (b ∷ buf) (x ∷ xs) = b ∷ write_all_at zero buf xs
write_all_at (suc offset) (b ∷ buf) [] = 0 ∷ write_all_at offset (b ∷ buf) []
write_all_at (suc offset) (b ∷ buf) (x ∷ xs) = x ∷ write_all_at offset (b ∷ buf) xs

-- `read_exact_at` with pread
unfoldable pub read_exact_at : ℕ → ℕ → List ℕ → Option (List ℕ)
read_exact_at offset n xs =
    if n == 0 || leb (offset + n) (length xs) then some (take n (drop offset xs)) else none

abbrev pub is_nil : List ℕ → Bool
is_nil [] = true
is_nil (_ ∷ _) = false

abbrev pub stored_at : Disk → ℕ → List ℕ → Disk
stored_at disk path xs p = if p == path then xs else disk p

-- the closure of `write`, with what is left of the data
unfoldable pub write_chunk : Visitor (Disk × List ℕ)
unfolding write_all_at
write_chunk path offset max s =
    let n = min max (length s.1) in
    let rest = drop n s.1 in
    some
      (not (is_nil rest), (stored_at s.0 path (write_all_at offset (take n s.1) (s.0 path)), rest))

-- `write`, with the failed assertion
unfoldable pub write : TorrentCache → PieceIndex → List ℕ → Option TorrentCache
unfolding iter_files_on_piece write_chunk
write c piece bytes = iter_files_on_piece write_chunk c piece 0 (c.disk, bytes) >>= λ s.
    if is_nil s.1 then some (record c { disk = s.0 }) else none

-- the closure of `read`, with the buffer up to the cursor
unfoldable pub read_chunk : Disk → ℕ → Visitor (List ℕ)
unfolding read_exact_at
read_chunk disk len path offset max got =
    read_exact_at offset (min (len - length got) max) (disk path) >>= λ bytes.
    some (ltb (length (got ++ bytes)) len, got ++ bytes)

unfoldable pub read : TorrentCache → PieceIndex → ℕ → ℕ → Option (List ℕ)
unfolding iter_files_on_piece read_chunk
read c piece block len = iter_files_on_piece (read_chunk c.disk len) c piece block [] >>= λ got.
    if length got == len then some got else none
