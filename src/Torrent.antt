-- ===== src/Torrent.antt =====
-- src/metadata.rs: what a .torrent file says, and what is computed from it; and the checks of
-- `read_meta` in src/bencode/de.rs. A `String` is the list of its bytes, an
-- `i64` its 64-bit pattern.
pub mod Layout
mod Tests
use rustorrent.Common.{
  ℕ, zero, suc, ◌+◌, ◌%◌, ◌^◌, Bool, true, false, Option, none, some, List, [], ◌∷◌, ◌++◌, map,
  ◌==◌, if◌then◌else◌, length, take, drop, ltb, not,
}
use rustorrent.Common.Outcome.{Outcome, ok, err}

abbrev pub Text : Type 0
Text = List ℕ

pub record MetaFile : Type 0 where
  pub length : ℕ
  pub md5sum : Option Text
  pub path : List Text

pub data InfoFile : Type 0 where
  single : (name : Text) (length : ℕ) (md5sum : Option Text) → InfoFile
  multiple : (name : Text) (files : List MetaFile) → InfoFile

pub record MetaInfo : Type 0 where
  pub pieces : List ℕ
  pub piece_length : ℕ
  pub private : Option ℕ
  pub files : InfoFile

pub data UrlList : Type 0 where
  single_url : Text → UrlList
  multiple_urls : List Text → UrlList
  ignore : List (List Text) → UrlList
  ignore2 : List ℕ → UrlList

pub record MetaTorrent : Type 0 where
  pub announce : Option Text
  pub info : MetaInfo
  pub announce_list : Option (List (List Text))
  pub creation_date : Option ℕ
  pub comment : Option Text
  pub created_by : Option Text
  pub encoding : Option Text
  pub url_list : Option UrlList

pub record Torrent : Type 0 where
  pub meta : MetaTorrent
  pub info_hash : List ℕ

-- `iter().map(|f| f.length as usize).sum()`
pub sum_lengths : List MetaFile → ℕ
sum_lengths [] = 0
sum_lengths (f ∷ fs) = (f.length + sum_lengths fs) % 2 ^ 64

abbrev size_of_files : InfoFile → ℕ
size_of_files (single name len md5sum) = len
size_of_files (multiple name fs) = sum_lengths fs

unfoldable pub files_total_size : Torrent → ℕ
files_total_size t = size_of_files t.meta.info.files

-- `chunks_exact(20)`, within so many chunks: what is left at the end is dropped.
unfoldable pub chunks_exact : ℕ → ℕ → List ℕ → List (List ℕ)
chunks_exact zero n bytes = []
chunks_exact (suc fuel) n bytes =
    let more = take n bytes ∷ chunks_exact fuel n (drop n bytes) in
    if ltb (length bytes) n then [] else more

unfoldable pub sha_pieces : Torrent → List (List ℕ)
unfolding chunks_exact
sha_pieces t = let pieces = t.meta.info.pieces in chunks_exact (length pieces) 20 pieces

abbrev files_count : InfoFile → ℕ
files_count (single name len md5sum) = 1
files_count (multiple name fs) = length fs

pub nfiles : Torrent → ℕ
nfiles t = files_count t.meta.info.files

pub data MetaError : Type 0 where
  unaligned_pieces no_file empty_file : MetaError

abbrev check_files : InfoFile → Option MetaError
check_files (single name len md5sum) = if len == 0 then some empty_file else none
check_files (multiple name []) = some no_file
check_files (multiple name (f ∷ fs)) = none

-- `read_meta` behind `from_bytes_with_hash`, which gives `meta` and `info_hash`
pub checked_meta : MetaTorrent → List ℕ → Outcome MetaError Torrent
checked_meta meta info_hash =
    if length meta.info.pieces % 20 == 0
    then elim (check_files meta.info.files) [
      | some e ↦ err e
      | none ↦ ok (record { meta = meta; info_hash = info_hash })
    ]
    else err unaligned_pieces
