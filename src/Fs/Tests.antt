-- ===== src/Fs/Tests.antt =====
-- Two files of three and four bytes, in pieces of five, none of them there yet.
use rustorrent.Common.{
  ℕ, ◌+◌, ◌<◌, ◌≤◌, ◌≡◌, ◌⊎◌, refl, some, List, [], ◌∷◌, get_elem?, take, drop, arith,
}
use rustorrent.Fs.{TorrentCache, Disk, file_offset_at, offset_in, write, read}
use rustorrent.Fs.Skip.{byte_at}
use rustorrent.Fs.RoundTrip.{start_of, write-byte_at, read-write}

abbrev cache : TorrentCache
cache = record {
  piece_length = 5;
  files = record { path = 0; file_length = 3 } ∷ record { path = 1; file_length = 4 } ∷ [];
  disk = λ p. [];
}

abbrev piece_0 : List ℕ
piece_0 = 10 ∷ 11 ∷ 12 ∷ 13 ∷ 14 ∷ []

offsets : file_offset_at cache 0 4 ≡ some (1, 1)
unfolding file_offset_at offset_in
offsets = refl

write-byte_at_example :
    (disk' : Disk) × (write cache 0 piece_0 ≡ some (record cache { disk = disk' }))
    × ((i k : ℕ)
        → start_of cache 0 0 + i ≡ k
        → i < 5
        → byte_at cache.files disk' k ≡ get_elem? piece_0 i)
    × ((k x : ℕ)
        → (k < start_of cache 0 0) ⊎ (start_of cache 0 0 + 5 ≤ k)
        → byte_at cache.files cache.disk k ≡ some x
        → byte_at cache.files disk' k ≡ some x)
write-byte_at_example =
    write-byte_at cache 0 piece_0 ((refl, tt), (tt, tt)) (omega arith) (omega arith) (omega arith)

read-write_example :
    (c' : TorrentCache) × (write cache 0 piece_0 ≡ some c')
    × (read c' 0 2 3 ≡ some (take 3 (drop 2 piece_0)))
read-write_example =
    read-write cache 0 2 3 piece_0 ((refl, tt), (tt, tt)) (omega arith) (omega arith) (omega arith)
      (omega arith)
