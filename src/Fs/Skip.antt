-- ===== src/Fs/Skip.antt =====
-- `iter_files_on_piece` of src/fs/mod.rs as one walk over the files, and the bytes of a torrent on disk.
use rustorrent.Common.{
  ℕ, suc, ◌+◌, ◌-◌, ◌≡◌, refl, ◌∙◌, true, false, Bool-cases, inl, inr, Option, none, some, List, [],
  ◌∷◌, ltb, if◌then◌else◌, get_elem?, drop,
}
use rustorrent.Common.Checked.{◌>>=◌}
use rustorrent.Fs.{
  TorrentFile, TorrentCache, Disk, Visitor, offset_in, file_offset_at, offset_of, visit_files,
  iter_files_on_piece,
}

-- how long the files are together
abbrev pub total : List TorrentFile → ℕ
total [] = 0
total (f ∷ files) = f.file_length + total files

-- the byte of the torrent at an offset
abbrev pub byte_at : List TorrentFile → Disk → ℕ → Option ℕ
byte_at [] disk k = none
byte_at (f ∷ files) disk k =
    if ltb k f.file_length
    then get_elem? (disk f.path) k
    else byte_at files disk (k - f.file_length)

shifted : Option (ℕ × ℕ) → Option (ℕ × ℕ)
shifted none = none
shifted (some (i, o)) = some (suc i, o)

offset_in-suc :
    (files : List TorrentFile) (i o : ℕ) → offset_in files (suc i) o ≡ shifted (offset_in files i o)
unfolding offset_in shifted
offset_in-suc [] i o = refl
offset_in-suc (f ∷ files) i o = elim (Bool-cases (ltb o f.file_length)) [
  | inl e ↦ rw e refl
  | inr e ↦ rw e (offset_in-suc files (suc i) (o - f.file_length))
]

module _ {S : Type 0} (fun : Visitor S) where
  -- the files before the offset passed over
  unfoldable pub visit_from : List TorrentFile → ℕ → S → Option S
  visit_from [] o s = none
  visit_from (f ∷ files) o s = elim (ltb o f.file_length) [
    | true ↦ visit_files fun (f ∷ files) o s
    | false ↦ visit_from files (o - f.file_length) s
  ]

  visit_shifted :
      (f : TorrentFile) (files : List TorrentFile) (s : S) (at : Option (ℕ × ℕ))
      → (shifted at >>= λ at. visit_files fun (drop at.0 (f ∷ files)) at.1 s)
        ≡ (at >>= λ at. visit_files fun (drop at.0 files) at.1 s)
  unfolding shifted
  visit_shifted f files s none = refl
  visit_shifted f files s (some (i, o)) = refl

  visit-offset_in :
      (files : List TorrentFile) (o : ℕ) (s : S)
      → (offset_in files 0 o >>= λ at. visit_files fun (drop at.0 files) at.1 s)
        ≡ visit_from files o s
  unfolding offset_in visit_from
  visit-offset_in [] o s = refl
  visit-offset_in (f ∷ files) o s = elim (Bool-cases (ltb o f.file_length)) [
    | inl e ↦ rw (visit_from, e) refl
    | inr e ↦
        rw (visit_from, e, offset_in-suc files 0 (o - f.file_length))
          (visit_shifted f files s (offset_in files 0 (o - f.file_length))
            ∙ visit-offset_in files (o - f.file_length) s)
  ]

  pub iter_files_on_piece-visit_from :
      (c : TorrentCache) (piece block : ℕ) (s : S)
      → iter_files_on_piece fun c piece block s ≡ visit_from c.files (offset_of c piece block) s
  unfolding iter_files_on_piece file_offset_at
  iter_files_on_piece-visit_from c piece block s =
      visit-offset_in c.files (offset_of c piece block) s
