-- ===== src/Fs/Write.antt =====
-- `write` of src/fs/standard_fs.rs: where the bytes of a piece go.
use rustorrent.Common.{
  ℕ, zero, suc, ◌+◌, ◌-◌, ◌≤◌, ◌<◌, ◌≡◌, refl, sym, ap, ◌∙◌, ◌⊎◌, true, false, Bool-cases, inl, inr,
  some, List, [], ◌∷◌, ltb, leb, ◌==◌, length, get_elem?, take, drop, min, length-drop, length-take,
  All, arith,
}
use rustorrent.Fs.{TorrentFile, Disk, visit_files, write_all_at, write_chunk, is_nil, stored_at}
use rustorrent.Fs.Skip.{total, byte_at, visit_from}

pub get_elem?-write_in :
    (o : ℕ) (buf xs : List ℕ) (i k : ℕ)
    → o + i ≡ k
    → i < length buf
    → get_elem? (write_all_at o buf xs) k ≡ get_elem? buf i
unfolding write_all_at
get_elem?-write_in o [] xs i k e l = absurd (omega (arith, l))
get_elem?-write_in zero (b ∷ buf) [] zero zero e l = refl
get_elem?-write_in zero (b ∷ buf) [] zero (suc k) e l = absurd (omega (arith, e))
get_elem?-write_in zero (b ∷ buf) [] (suc i) zero e l = absurd (omega (arith, e))
get_elem?-write_in zero (b ∷ buf) [] (suc i) (suc k) e l =
    get_elem?-write_in zero buf [] i k (omega (arith, e)) (omega (arith, l))
get_elem?-write_in zero (b ∷ buf) (x ∷ xs) zero zero e l = refl
get_elem?-write_in zero (b ∷ buf) (x ∷ xs) zero (suc k) e l = absurd (omega (arith, e))
get_elem?-write_in zero (b ∷ buf) (x ∷ xs) (suc i) zero e l = absurd (omega (arith, e))
get_elem?-write_in zero (b ∷ buf) (x ∷ xs) (suc i) (suc k) e l =
    get_elem?-write_in zero buf xs i k (omega (arith, e)) (omega (arith, l))
get_elem?-write_in (suc o) (b ∷ buf) [] i zero e l = absurd (omega (arith, e))
get_elem?-write_in (suc o) (b ∷ buf) [] i (suc k) e l =
    get_elem?-write_in o (b ∷ buf) [] i k (omega (arith, e)) l
get_elem?-write_in (suc o) (b ∷ buf) (x ∷ xs) i zero e l = absurd (omega (arith, e))
get_elem?-write_in (suc o) (b ∷ buf) (x ∷ xs) i (suc k) e l =
    get_elem?-write_in o (b ∷ buf) xs i k (omega (arith, e)) l

pub get_elem?-write_out :
    (o : ℕ) (buf xs : List ℕ) (k x : ℕ)
    → (k < o) ⊎ (o + length buf ≤ k)
    → get_elem? xs k ≡ some x
    → get_elem? (write_all_at o buf xs) k ≡ some x
unfolding write_all_at
get_elem?-write_out o [] xs k x h e = e
get_elem?-write_out o (b ∷ buf) [] k x h e = absurd (ground (arith, e))
get_elem?-write_out zero (b ∷ buf) (y ∷ xs) zero x h e = absurd (ground (arith, h))
get_elem?-write_out zero (b ∷ buf) (y ∷ xs) (suc k) x h e =
    get_elem?-write_out zero buf xs k x (ground (arith, h)) e
get_elem?-write_out (suc o) (b ∷ buf) (y ∷ xs) zero x h e = e
get_elem?-write_out (suc o) (b ∷ buf) (y ∷ xs) (suc k) x h e =
    get_elem?-write_out o (b ∷ buf) xs k x (ground (arith, h)) e

pub get_elem?-take :
    (n : ℕ) (xs : List ℕ) (i : ℕ) → i < n → get_elem? (take n xs) i ≡ get_elem? xs i
get_elem?-take zero xs i h = absurd (omega (arith, h))
get_elem?-take (suc n) [] i h = refl
get_elem?-take (suc n) (x ∷ xs) zero h = refl
get_elem?-take (suc n) (x ∷ xs) (suc i) h = get_elem?-take n xs i (omega (arith, h))

pub get_elem?-drop :
    (n : ℕ) (xs : List ℕ) (i k : ℕ) → n + i ≡ k → get_elem? (drop n xs) i ≡ get_elem? xs k
get_elem?-drop zero xs i k e = ap (get_elem? xs) (omega (arith, e))
get_elem?-drop (suc n) [] i k e = refl
get_elem?-drop (suc n) (x ∷ xs) i zero e = absurd (omega (arith, e))
get_elem?-drop (suc n) (x ∷ xs) i (suc k) e = get_elem?-drop n xs i k (omega (arith, e))

-- No two files have one path.
abbrev pub Distinct : List TorrentFile → Type 0
Distinct [] = Unit
Distinct (f ∷ files) = All (λ g. (g.path == f.path) ≡ false) files × Distinct files

-- The bytes from `o` on are the new ones, and those elsewhere are as they were.
pub record Written (files : List TorrentFile) (o : ℕ) (bytes : List ℕ) (disk disk' : Disk)
    : Type 0 where
  pub new : (i k : ℕ) → o + i ≡ k → i < length bytes → byte_at files disk' k ≡ get_elem? bytes i
  pub old :
      (k x : ℕ)
      → (k < o) ⊎ (o + length bytes ≤ k)
      → byte_at files disk k ≡ some x
      → byte_at files disk' k ≡ some x
  pub other : (p : ℕ) → All (λ f. (f.path == p) ≡ false) files → disk' p ≡ disk p

byte_at-stored :
    (files : List TorrentFile) (disk : Disk) (path : ℕ) (xs : List ℕ) (k : ℕ)
    → All (λ g. (g.path == path) ≡ false) files
    → byte_at files (stored_at disk path xs) k ≡ byte_at files disk k
byte_at-stored [] disk path xs k h = refl
byte_at-stored (f ∷ files) disk path xs k h =
    rw (h.0, byte_at-stored files disk path xs (k - f.file_length) h.1) refl

stored_self : (disk : Disk) (p : ℕ) (xs : List ℕ) → stored_at disk p xs p ≡ xs
stored_self disk p xs = let e : (p == p) ≡ true = ground arith in rw e refl

stored_other :
    (disk : Disk) (path p : ℕ) (xs : List ℕ)
    → (path == p) ≡ false
    → stored_at disk path xs p ≡ disk p
stored_other disk path p xs h = let e : (p == path) ≡ false = ground (arith, h) in rw e refl

pub byte_at-here :
    (f : TorrentFile) (files : List TorrentFile) (disk : Disk) (k : ℕ)
    → ltb k f.file_length ≡ true
    → byte_at (f ∷ files) disk k ≡ get_elem? (disk f.path) k
byte_at-here f files disk k e = rw e refl

pub byte_at-there :
    (f : TorrentFile) (files : List TorrentFile) (disk : Disk) (k : ℕ)
    → ltb k f.file_length ≡ false
    → byte_at (f ∷ files) disk k ≡ byte_at files disk (k - f.file_length)
byte_at-there f files disk k e = rw e refl

-- all of the bytes in one file
one_file :
    (f : TorrentFile) (files : List TorrentFile) (o : ℕ) (bytes : List ℕ) (disk : Disk)
    → Distinct (f ∷ files)
    → o + length bytes ≤ f.file_length
    → Written (f ∷ files) o bytes disk (stored_at disk f.path (write_all_at o bytes (disk f.path)))
one_file f files o bytes disk d l =
    let xs = write_all_at o bytes (disk f.path) in
    let disk' = stored_at disk f.path xs in
    record {
      new = λ i k e h.
          byte_at-here f files disk' k (ground (arith, e, h, l))
          ∙ ap (λ ys. get_elem? ys k) (stored_self disk f.path xs)
          ∙ get_elem?-write_in o bytes (disk f.path) i k e h;
      old = λ k x h e. elim (Bool-cases (ltb k f.file_length)) [
        | inl b ↦
            byte_at-here f files disk' k b
            ∙ ap (λ ys. get_elem? ys k) (stored_self disk f.path xs)
            ∙ get_elem?-write_out o bytes (disk f.path) k x h
                (sym (byte_at-here f files disk k b) ∙ e)
        | inr b ↦
            byte_at-there f files disk' k b
            ∙ byte_at-stored files disk f.path xs (k - f.file_length) d.0
            ∙ sym (byte_at-there f files disk k b)
            ∙ e
      ];
      other = λ p h. stored_other disk f.path p xs h.0;
    }

-- the end of this file, and the rest in those behind it
more_files :
    (f : TorrentFile) (files : List TorrentFile) (o : ℕ) (bytes : List ℕ) (disk disk' : Disk)
    (m : ℕ)
    → Distinct (f ∷ files)
    → o + m ≡ f.file_length
    → m < length bytes
    → Written files 0
        (drop m bytes)
        (stored_at disk f.path (write_all_at o (take m bytes) (disk f.path)))
        disk'
    → Written (f ∷ files) o bytes disk disk'
more_files f files o bytes disk disk' m d s l w =
    let xs = write_all_at o (take m bytes) (disk f.path) in
    let disk1 = stored_at disk f.path xs in
    let n = length-take m bytes in
    let n' = length-drop m bytes in
    let here : disk' f.path ≡ xs = w.other f.path d.0 ∙ stored_self disk f.path xs in
    record {
      new = λ i k e h. elim (Bool-cases (ltb k f.file_length)) [
        | inl b ↦
            let i_m : i < m = ground (arith, b, e, s) in
            byte_at-here f files disk' k b
            ∙ ap (λ ys. get_elem? ys k) here
            ∙ get_elem?-write_in o (take m bytes) (disk f.path) i k e (ground (arith, n, i_m, l))
            ∙ get_elem?-take m bytes i i_m
        | inr b ↦
            let m_i : m ≤ i = ground (arith, b, e, s) in
            byte_at-there f files disk' k b
            ∙ w.new (i - m) (k - f.file_length) (omega (arith, e, s, m_i))
                (omega (arith, n', h, m_i))
            ∙ get_elem?-drop m bytes (i - m) i (omega (arith, m_i))
      ];
      old = λ k x h e. elim (Bool-cases (ltb k f.file_length)) [
        | inl b ↦
            byte_at-here f files disk' k b
            ∙ ap (λ ys. get_elem? ys k) here
            ∙ get_elem?-write_out o (take m bytes) (disk f.path) k x
                (inl (ground (arith, b, h, s, l))) (sym (byte_at-here f files disk k b) ∙ e)
        | inr b ↦
            byte_at-there f files disk' k b
            ∙ w.old (k - f.file_length) x (inr (ground (arith, b, h, s, l, n'))) (
                byte_at-stored files disk f.path xs (k - f.file_length) d.0
                ∙ sym (byte_at-there f files disk k b)
                ∙ e)
      ];
      other = λ p h. w.other p h.1 ∙ stored_other disk f.path p xs h.0;
    }

-- the walk from a file on
abbrev pub StartsIn : List TorrentFile → ℕ → Type 0
StartsIn [] o = Unit
StartsIn (f ∷ files) o = o ≤ f.file_length

pub starts_at_0 : (files : List TorrentFile) → StartsIn files 0
starts_at_0 [] = tt
starts_at_0 (f ∷ files) = omega arith

take_all : (xs : List ℕ) → take (length xs) xs ≡ xs
take_all [] = refl
take_all (x ∷ xs) = ap (λ ys. x ∷ ys) (take_all xs)

drop_all : (xs : List ℕ) → drop (length xs) xs ≡ []
drop_all [] = refl
drop_all (x ∷ xs) = drop_all xs

is_nil-drop : (n : ℕ) (xs : List ℕ) → n < length xs → is_nil (drop n xs) ≡ false
is_nil-drop n [] h = absurd (omega (arith, h))
is_nil-drop zero (x ∷ xs) h = refl
is_nil-drop (suc n) (x ∷ xs) h = is_nil-drop n xs (omega (arith, h))

visit-more :
    (f : TorrentFile) (files : List TorrentFile) (o m : ℕ) (bytes : List ℕ) (disk : Disk)
    (s : Disk × List ℕ)
    → min (f.file_length - o) (length bytes) ≡ m
    → m < length bytes
    → visit_files write_chunk files 0
        (stored_at disk f.path (write_all_at o (take m bytes) (disk f.path)), drop m bytes)
      ≡ some s
    → visit_files write_chunk (f ∷ files) o (disk, bytes) ≡ some s
unfolding visit_files write_chunk
visit-more f files o m bytes disk s n l e = rw (n, is_nil-drop m bytes l, e) refl

pub visit_files-Written :
    (files : List TorrentFile) (o : ℕ) (disk : Disk) (bytes : List ℕ)
    → Distinct files
    → StartsIn files o
    → o + length bytes ≤ total files
    → (disk' : Disk) × (visit_files write_chunk files o (disk, bytes) ≡ some (disk', []))
      × Written files o bytes disk disk'
unfolding visit_files write_chunk
visit_files-Written [] o disk [] d a l = (
  disk,
  refl,
  record { new = λ i k e h. absurd (omega (arith, h)); old = λ k x h e. e; other = λ p h. refl },
)
visit_files-Written [] o disk (b ∷ bytes) d a l = absurd (omega (arith, l))
visit_files-Written (f ∷ files) o disk bytes d a l =
    elim (Bool-cases (leb (length bytes) (f.file_length - o))) [
      | inl e ↦
          let n : min (f.file_length - o) (length bytes) ≡ length bytes = ground (arith, e) in
          (
            stored_at disk f.path (write_all_at o bytes (disk f.path)),
            rw (n, take_all bytes, drop_all bytes) refl,
            one_file f files o bytes disk d (ground (arith, e, a)),
          )
      | inr e ↦
          let m : ℕ = f.file_length - o in
          let l' : m < length bytes = ground (arith, e) in
          let n : min (f.file_length - o) (length bytes) ≡ f.file_length - o = ground (arith, e) in
          let n' = length-drop m bytes in
          let disk1 = stored_at disk f.path (write_all_at o (take m bytes) (disk f.path)) in
          let (disk', e', w) =
            visit_files-Written files 0 disk1 (drop m bytes) d.1 (starts_at_0 files)
              (omega (arith, n', l, a)) in
          (
            disk',
            visit-more f files o m bytes disk (disk', []) n l' e',
            more_files f files o bytes disk disk' m d (omega (arith, a)) l' w,
          )
    ]

pub visit_from-Written :
    (files : List TorrentFile) (o : ℕ) (disk : Disk) (bytes : List ℕ)
    → Distinct files
    → o < total files
    → o + length bytes ≤ total files
    → (disk' : Disk) × (visit_from write_chunk files o (disk, bytes) ≡ some (disk', []))
      × ((i k : ℕ) → o + i ≡ k → i < length bytes → byte_at files disk' k ≡ get_elem? bytes i)
      × ((k x : ℕ)
          → (k < o) ⊎ (o + length bytes ≤ k)
          → byte_at files disk k ≡ some x
          → byte_at files disk' k ≡ some x)
      × ((p : ℕ) → All (λ f. (f.path == p) ≡ false) files → disk' p ≡ disk p)
unfolding visit_from
visit_from-Written [] o disk bytes d h l = absurd (omega (arith, h))
visit_from-Written (f ∷ files) o disk bytes d h l = elim (Bool-cases (ltb o f.file_length)) [
  | inl e ↦
      let (disk', e', w) = visit_files-Written (f ∷ files) o disk bytes d (ground (arith, e)) l in
      (disk', rw (visit_from, e) e', w.new, w.old, w.other)
  | inr e ↦
      let o_f : f.file_length ≤ o = ground (arith, e) in
      let (disk', e', new, old, other) =
        visit_from-Written files (o - f.file_length) disk bytes d.1 (omega (arith, h, o_f))
          (omega (arith, l, o_f)) in
      (
        disk',
        rw (visit_from, e) e',
        (λ i k s b.
            byte_at-there f files disk' k (ground (arith, s, o_f))
            ∙ new i (k - f.file_length) (omega (arith, s, o_f)) b),
        (λ k x g b. elim (Bool-cases (ltb k f.file_length)) [
          | inl t ↦
              byte_at-here f files disk' k t
              ∙ ap (λ ys. get_elem? ys k) (other f.path d.0)
              ∙ sym (byte_at-here f files disk k t)
              ∙ b
          | inr t ↦
              byte_at-there f files disk' k t
              ∙ old (k - f.file_length) x (ground (arith, g, t, o_f))
                  (sym (byte_at-there f files disk k t) ∙ b)
        ]),
        (λ p g. other p g.1),
      )
]
