-- ===== src/Fs/RoundTrip.antt =====
-- A piece written to the files and a block read back, for src/fs/standard_fs.rs.
use rustorrent.Common.{
  ℕ, zero, suc, ◌+◌, ◌*◌, ◌^◌, ◌≤◌, ◌<◌, ◌≡◌, refl, sym, ap, ◌∙◌, ◌⊎◌, true, some, List, [], ◌∷◌,
  ◌==◌, length, get_elem?, take, drop, length-drop, length-take, arith,
}
use rustorrent.Fs.{
  TorrentCache, Disk, offset_of, iter_files_on_piece, write_chunk, write, read_chunk, read,
}
use rustorrent.Fs.Skip.{total, byte_at, visit_from, iter_files_on_piece-visit_from}
use rustorrent.Fs.Write.{Distinct, visit_from-Written, get_elem?-take, get_elem?-drop}
use rustorrent.Fs.Read.{visit_from-read}
use rustorrent.Collect.Buffer.{list_ext}

get_elem?-some : (xs : List ℕ) (i : ℕ) → i < length xs → (x : ℕ) × (get_elem? xs i ≡ some x)
get_elem?-some [] i h = absurd (omega (arith, h))
get_elem?-some (x ∷ xs) zero h = (x, refl)
get_elem?-some (x ∷ xs) (suc i) h = get_elem?-some xs i (omega (arith, h))

-- the byte of the torrent that a block starts at
abbrev pub start_of : TorrentCache → ℕ → ℕ → ℕ
start_of c piece block = piece * c.piece_length + block

offset_of-start_of :
    (c : TorrentCache) (piece block : ℕ)
    → start_of c piece block < 2 ^ 64
    → offset_of c piece block ≡ start_of c piece block
offset_of-start_of c piece block h = ground (arith, h)

-- In files of different paths and fewer than 2^64 bytes, `write` of a piece that is not empty and
-- lies in them does not panic. The bytes of the piece are then those written, and every other byte
-- of the torrent that was on the disk is as it was.
pub write-byte_at :
    (c : TorrentCache) (piece : ℕ) (bytes : List ℕ)
    → Distinct c.files
    → 0 < length bytes
    → start_of c piece 0 + length bytes ≤ total c.files
    → total c.files < 2 ^ 64
    → (disk' : Disk) × (write c piece bytes ≡ some (record c { disk = disk' }))
      × ((i k : ℕ)
          → start_of c piece 0 + i ≡ k
          → i < length bytes
          → byte_at c.files disk' k ≡ get_elem? bytes i)
      × ((k x : ℕ)
          → (k < start_of c piece 0) ⊎ (start_of c piece 0 + length bytes ≤ k)
          → byte_at c.files c.disk k ≡ some x
          → byte_at c.files disk' k ≡ some x)
unfolding write
write-byte_at c piece bytes d full inside small =
    let o = start_of c piece 0 in
    let s = offset_of-start_of c piece 0 (omega (arith, full, inside, small)) in
    let (disk', e, new, old, other) =
      visit_from-Written c.files o c.disk bytes d (omega (arith, full, inside)) inside in
    let e' : iter_files_on_piece write_chunk c piece 0 (c.disk, bytes) ≡ some (disk', []) =
      iter_files_on_piece-visit_from write_chunk c piece 0 (c.disk, bytes)
      ∙ ap (λ a. visit_from write_chunk c.files a (c.disk, bytes)) s
      ∙ e in
    (disk', rw e' refl, new, old)

-- `read` of a block that is not empty, lies in the files and is on the disk does not panic, and
-- gives the bytes of the torrent from the start of the block on.
pub read-byte_at :
    (c : TorrentCache) (piece block len : ℕ)
    → 0 < len
    → start_of c piece block + len ≤ total c.files
    → total c.files < 2 ^ 64
    → ((i k : ℕ)
        → start_of c piece block + i ≡ k
        → i < len
        → (x : ℕ) × (byte_at c.files c.disk k ≡ some x))
    → (bytes : List ℕ) × (read c piece block len ≡ some bytes)
      × (length bytes ≡ len)
      × ((i k : ℕ)
          → start_of c piece block + i ≡ k
          → i < len
          → get_elem? bytes i ≡ byte_at c.files c.disk k)
unfolding read
read-byte_at c piece block len full inside small there =
    let o = start_of c piece block in
    let s = offset_of-start_of c piece block (omega (arith, full, inside, small)) in
    let (bytes, e, size, same) =
      visit_from-read c.disk len c.files o (omega (arith, full, inside)) inside there in
    let e' : iter_files_on_piece (read_chunk c.disk len) c piece block [] ≡ some bytes =
      iter_files_on_piece-visit_from (read_chunk c.disk len) c piece block []
      ∙ ap (λ a. visit_from (read_chunk c.disk len) c.files a []) s
      ∙ e in
    let whole : (length bytes == len) ≡ true = ground (arith, size) in
    (bytes, rw (e', whole) refl, size, same)

-- In files of different paths, after `write` of a piece that lies in them, `read` of a block of the
-- piece, not empty, gives the bytes of the block. Neither panics.
pub read-write :
    (c : TorrentCache) (piece block len : ℕ) (bytes : List ℕ)
    → Distinct c.files
    → 0 < len
    → block + len ≤ length bytes
    → start_of c piece 0 + length bytes ≤ total c.files
    → total c.files < 2 ^ 64
    → (c' : TorrentCache) × (write c piece bytes ≡ some c')
      × (read c' piece block len ≡ some (take len (drop block bytes)))
read-write c piece block len bytes d full part inside small =
    let (disk', e, new, old) =
      write-byte_at c piece bytes d (omega (arith, full, part)) inside small in
    let c' = record c { disk = disk' } in
    let (got, e', size, same) =
      read-byte_at c' piece block len full (omega (arith, part, inside)) small (λ i k s t.
        let (x, g) = get_elem?-some bytes (block + i) (omega (arith, t, part)) in
        (x, new (block + i) k (omega (arith, s)) (omega (arith, t, part)) ∙ g)) in
    let n = length-take len (drop block bytes) in
    let n' = length-drop block bytes in
    (
      c',
      e,
      e'
          ∙ ap some (
              list_ext got (take len (drop block bytes)) (ground (arith, size, n, n', part)) (λ i t.
                let i_len : i < len = omega (arith, t, size) in
                let k : ℕ = start_of c piece block + i in
                same i k refl i_len
                ∙ new (block + i) k (omega arith) (omega (arith, i_len, part))
                ∙ sym (
                    get_elem?-take len (drop block bytes) i i_len
                    ∙ get_elem?-drop block bytes i (block + i) refl))),
    )
