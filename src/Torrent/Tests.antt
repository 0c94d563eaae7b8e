-- ===== src/Torrent/Tests.antt =====
-- Runs on a small torrent, and the theorem on its hashes.
use rustorrent.Common.{◌*◌, ◌≡◌, refl, none, [], ◌∷◌, All, length, replicate}
use rustorrent.Common.Outcome.{ok, err}
use rustorrent.Torrent.{
  MetaInfo, MetaTorrent, Torrent, multiple, single, sha_pieces, files_total_size, sum_lengths,
  nfiles, checked_meta, unaligned_pieces, no_file, empty_file,
}
use rustorrent.Torrent.Layout.{joined, sha_pieces-checked_meta}

abbrev info : MetaInfo
info = record {
  pieces = replicate 40 7;
  piece_length = 1000;
  private = none;
  files = multiple [] (
      record { length = 900; md5sum = none; path = [] }
      ∷ record { length = 600; md5sum = none; path = [] }
      ∷ []);
}

abbrev meta : MetaTorrent
meta = record {
  announce = none;
  info = info;
  announce_list = none;
  creation_date = none;
  comment = none;
  created_by = none;
  encoding = none;
  url_list = none;
}

abbrev sample : Torrent
sample = record { meta = meta; info_hash = 1 ∷ [] }

total : files_total_size sample ≡ 1500
unfolding files_total_size sum_lengths
total = refl

count : nfiles sample ≡ 2
unfolding nfiles
count = refl

accepted : checked_meta meta (1 ∷ []) ≡ ok sample
unfolding checked_meta
accepted = refl

unaligned :
    checked_meta (record meta { info = record info { pieces = replicate 41 7 } }) []
    ≡ err unaligned_pieces
unfolding checked_meta
unaligned = refl

without_files :
    checked_meta (record meta { info = record info { files = multiple [] [] } }) [] ≡ err no_file
unfolding checked_meta
without_files = refl

empty :
    checked_meta (record meta { info = record info { files = single [] 0 none } }) []
    ≡ err empty_file
unfolding checked_meta
empty = refl

sha_pieces-checked_meta_example :
    (joined (sha_pieces sample) ≡ replicate 40 7)
    × All (λ c. length c ≡ 20) (sha_pieces sample)
    × (20 * length (sha_pieces sample) ≡ 40)
sha_pieces-checked_meta_example = sha_pieces-checked_meta meta (1 ∷ []) accepted
