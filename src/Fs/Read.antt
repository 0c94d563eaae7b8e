-- ===== src/Fs/Read.antt =====
-- `read` of src/fs/standard_fs.rs: where the bytes of a block come from.
use rustorrent.Common.{
  ℕ, zero, suc, ◌+◌, ◌-◌, ◌≤◌, ◌<◌, ◌≡◌, refl, sym, ap, ◌∙◌, ◌⊎◌, true, false, ◌||◌, Bool-cases,
  inl, inr, some, List, [], ◌∷◌, ◌++◌, append-nil, append_assoc, ltb, leb, ◌==◌, length,
  length-append, get_elem?, get_elem?-eq-none, take, drop, min, length-drop, length-take, arith,
}
use rustorrent.Fs.{TorrentFile, Disk, visit_files, read_exact_at, read_chunk}
use rustorrent.Fs.Skip.{total, byte_at, visit_from}
use rustorrent.Fs.Write.{
  StartsIn, starts_at_0, byte_at-here, byte_at-there, get_elem?-take, get_elem?-drop,
}

get_elem?-lt : (xs : List ℕ) (i x : ℕ) → get_elem? xs i ≡ some x → i < length xs
get_elem?-lt xs i x e = elim (Bool-cases (ltb i (length xs))) [
  | inl l ↦ ground (arith, l)
  | inr l ↦ let n = get_elem?-eq-none xs i (ground (arith, l)) in absurd (ground (arith, n, e))
]

get_elem?-append_left :
    (xs ys : List ℕ) (i : ℕ) → i < length xs → get_elem? (xs ++ ys) i ≡ get_elem? xs i
get_elem?-append_left [] ys i h = absurd (omega (arith, h))
get_elem?-append_left (x ∷ xs) ys zero h = refl
get_elem?-append_left (x ∷ xs) ys (suc i) h = get_elem?-append_left xs ys i (omega (arith, h))

get_elem?-append_right :
    (xs ys : List ℕ) (i k : ℕ) → length xs + i ≡ k → get_elem? (xs ++ ys) k ≡ get_elem? ys i
get_elem?-append_right [] ys i k e = ap (get_elem? ys) (omega (arith, e))
get_elem?-append_right (x ∷ xs) ys i zero e = absurd (omega (arith, e))
get_elem?-append_right (x ∷ xs) ys i (suc k) e = get_elem?-append_right xs ys i k (omega (arith, e))

-- `n` bytes of a file, all there
exact :
    (o n : ℕ) (xs : List ℕ)
    → (n ≡ 0) ⊎ (o + n ≤ length xs)
    → (bytes : List ℕ) × (read_exact_at o n xs ≡ some bytes)
      × (length bytes ≡ n)
      × ((i k : ℕ) → o + i ≡ k → i < n → get_elem? bytes i ≡ get_elem? xs k)
unfolding read_exact_at
exact o n xs h =
    let fits : (n == 0 || leb (o + n) (length xs)) ≡ true = ground (arith, h) in
    let a = length-take n (drop o xs) in
    let b = length-drop o xs in
    (
      take n (drop o xs),
      rw fits refl,
      ground (arith, a, b, h),
      λ i k e l. get_elem?-take n (drop o xs) i l ∙ get_elem?-drop o xs i k e,
    )

byte_at-behind :
    (f : TorrentFile) (files : List TorrentFile) (disk : Disk) (k k' : ℕ)
    → k + f.file_length ≡ k'
    → byte_at (f ∷ files) disk k' ≡ byte_at files disk k
byte_at-behind f files disk k k' e =
    byte_at-there f files disk k' (ground (arith, e)) ∙ ap (byte_at files disk) (omega (arith, e))

file-fits :
    (f : TorrentFile) (files : List TorrentFile) (disk : Disk) (o n r : ℕ)
    → n ≤ r
    → o + n ≤ f.file_length
    → ((i k : ℕ) → o + i ≡ k → i < r → (x : ℕ) × (byte_at (f ∷ files) disk k ≡ some x))
    → (n ≡ 0) ⊎ (o + n ≤ length (disk f.path))
file-fits f files disk o zero r n_r n_f there = inl refl
file-fits f files disk o (suc n) r n_r n_f there =
    let (x, e) = there n (o + n) refl n_r in
    let l =
      get_elem?-lt (disk f.path) (o + n) x
        (sym (byte_at-here f files disk (o + n) (ground (arith, n_f))) ∙ e) in
    inr (omega (arith, l))

both_files :
    (f : TorrentFile) (files : List TorrentFile) (disk : Disk) (o n r : ℕ) (bytes rest : List ℕ)
    → o + n ≡ f.file_length
    → length bytes ≡ n
    → o + n ≤ f.file_length
    → ((i k : ℕ) → o + i ≡ k → i < n → get_elem? bytes i ≡ get_elem? (disk f.path) k)
    → ((i k : ℕ) → 0 + i ≡ k → i < r - n → get_elem? rest i ≡ byte_at files disk k)
    → (i k : ℕ) → o + i ≡ k
    → i < r
    → get_elem? (bytes ++ rest) i ≡ byte_at (f ∷ files) disk k
both_files f files disk o n r bytes rest n_is size n_f same same' i k h t =
    elim (Bool-cases (ltb i n)) [
      | inl b ↦
          let i_n : i < n = ground (arith, b) in
          get_elem?-append_left bytes rest i (omega (arith, i_n, size))
          ∙ same i k h i_n
          ∙ sym (byte_at-here f files disk k (ground (arith, h, i_n, n_f)))
      | inr b ↦
          let n_i : n ≤ i = ground (arith, b) in
          get_elem?-append_right bytes rest (i - n) i (omega (arith, size, n_i))
          ∙ same' (i - n) (i - n) (omega arith) (omega (arith, t, n_i))
          ∙ sym (byte_at-behind f files disk (i - n) k (omega (arith, h, n_is, n_i)))
    ]

-- what is there in the files behind
there_behind :
    (f : TorrentFile) (files : List TorrentFile) (disk : Disk) (o n r : ℕ)
    → o + n ≡ f.file_length
    → n < r
    → ((i k : ℕ) → o + i ≡ k → i < r → (x : ℕ) × (byte_at (f ∷ files) disk k ≡ some x))
    → (i k : ℕ) → 0 + i ≡ k
    → i < r - n
    → (x : ℕ) × (byte_at files disk k ≡ some x)
there_behind f files disk o n r n_is n_lt there i k h t =
    let (x, g) =
      there (n + i) (k + f.file_length) (omega (arith, h, n_is)) (omega (arith, t, n_lt)) in
    (x, sym (byte_at-behind f files disk k (k + f.file_length) refl) ∙ g)

module _ (disk : Disk) (len : ℕ) where
  read-more :
      (f : TorrentFile) (files : List TorrentFile) (o n : ℕ) (got bytes s : List ℕ)
      → min (len - length got) (f.file_length - o) ≡ n
      → read_exact_at o n (disk f.path) ≡ some bytes
      → ltb (length (got ++ bytes)) len ≡ true
      → visit_files (read_chunk disk len) files 0 (got ++ bytes) ≡ some s
      → visit_files (read_chunk disk len) (f ∷ files) o got ≡ some s
  unfolding visit_files read_chunk
  read-more f files o n got bytes s m e more rest = rw (m, e, more, rest) refl

  read-stop :
      (f : TorrentFile) (files : List TorrentFile) (o n : ℕ) (got bytes : List ℕ)
      → min (len - length got) (f.file_length - o) ≡ n
      → read_exact_at o n (disk f.path) ≡ some bytes
      → ltb (length (got ++ bytes)) len ≡ false
      → visit_files (read_chunk disk len) (f ∷ files) o got ≡ some (got ++ bytes)
  unfolding visit_files read_chunk
  read-stop f files o n got bytes m e more = rw (m, e, more) refl

  pub visit_files-read :
      (files : List TorrentFile) (o r : ℕ) (got : List ℕ)
      → StartsIn files o
      → length got + r ≡ len
      → o + r ≤ total files
      → ((i k : ℕ) → o + i ≡ k → i < r → (x : ℕ) × (byte_at files disk k ≡ some x))
      → (bytes : List ℕ) × (visit_files (read_chunk disk len) files o got ≡ some (got ++ bytes))
        × (length bytes ≡ r)
        × ((i k : ℕ) → o + i ≡ k → i < r → get_elem? bytes i ≡ byte_at files disk k)
  unfolding visit_files
  visit_files-read [] o r got a s l there = (
    [],
    ap some (sym (append-nil got)),
    omega (arith, l),
    λ i k e h. absurd (omega (arith, h, l)),
  )
  visit_files-read (f ∷ files) o r got a s l there =
      let n : ℕ = min (len - length got) (f.file_length - o) in
      let n_r : n ≤ r = ground (arith, s) in
      let n_f : o + n ≤ f.file_length = ground (arith, a) in
      let (bytes, e, size, same) =
        exact o n (disk f.path) (file-fits f files disk o n r n_r n_f there) in
      let z = length-append got bytes in
      elim (Bool-cases (ltb (length (got ++ bytes)) len)) [
        | inl more ↦
            let n_lt : n < r = ground (arith, more, z, size, s) in
            let n_is : o + n ≡ f.file_length = ground (arith, n_lt, a, s) in
            let (rest, e', size', same') =
              visit_files-read files 0 (r - n) (got ++ bytes) (starts_at_0 files)
                (omega (arith, z, size, s, n_lt)) (omega (arith, l, n_is, n_lt))
                (there_behind f files disk o n r n_is n_lt there) in
            (
              bytes ++ rest,
              read-more f files o n got bytes ((got ++ bytes) ++ rest) refl e more e'
                  ∙ ap some (append_assoc got bytes rest),
              length-append bytes rest ∙ omega (arith, size, size', n_lt),
              both_files f files disk o n r bytes rest n_is size n_f same same',
            )
        | inr stop ↦
            let n_is : n ≡ r = ground (arith, stop, z, size, s, n_r) in
            (
              bytes,
              read-stop f files o n got bytes refl e stop,
              size ∙ n_is,
              λ i k h t.
                  same i k h (ground (arith, t, n_is))
                  ∙ sym (byte_at-here f files disk k (ground (arith, h, t, n_is, n_f))),
            )
      ]

  pub visit_from-read :
      (files : List TorrentFile) (o : ℕ)
      → o < total files
      → o + len ≤ total files
      → ((i k : ℕ) → o + i ≡ k → i < len → (x : ℕ) × (byte_at files disk k ≡ some x))
      → (bytes : List ℕ) × (visit_from (read_chunk disk len) files o [] ≡ some bytes)
        × (length bytes ≡ len)
        × ((i k : ℕ) → o + i ≡ k → i < len → get_elem? bytes i ≡ byte_at files disk k)
  unfolding visit_from
  visit_from-read [] o h l there = absurd (omega (arith, h))
  visit_from-read (f ∷ files) o h l there = elim (Bool-cases (ltb o f.file_length)) [
    | inl e ↦
        let (bytes, e', size, same) =
          visit_files-read (f ∷ files) o len [] (ground (arith, e)) (omega arith) l there in
        (bytes, rw (visit_from, e) e', size, same)
    | inr e ↦
        let o_f : f.file_length ≤ o = ground (arith, e) in
        let (bytes, e', size, same) =
          visit_from-read files (o - f.file_length) (omega (arith, h, o_f)) (omega (arith, l, o_f))
            (λ i k s t.
              let (x, g) = there i (k + f.file_length) (omega (arith, s, o_f)) t in
              (x, sym (byte_at-behind f files disk k (k + f.file_length) refl) ∙ g)) in
        (
          bytes,
          rw (visit_from, e) e',
          size,
          λ i k s t.
              same i (k - f.file_length) (omega (arith, s, o_f)) t
              ∙ sym (byte_at-behind f files disk (k - f.file_length) k (omega (arith, s, o_f))),
        )
  ]
