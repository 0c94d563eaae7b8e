-- ===== src/Bencode/InfoHash.antt =====
-- src/bencode/de.rs: the part of the input that `from_bytes_with_hash` hashes.
use rustorrent.Common.{
  ℕ, ◌+◌, ◌-◌, ◌*◌, ◌≤◌, ◌<◌, ◌≡◌, refl, ◌∙◌, ap, true, Option, some, List, [], ◌∷◌, ◌++◌,
  append_assoc, append-nil, arith, ltb, leb, length, length-append, take-append,
}
use rustorrent.Bencode.Value.{Value, Entries, bytes, dict, end, entry}
use rustorrent.Bencode.Reader.{ok, Deserializer, deserializer_new}
use rustorrent.Bencode.De.{from_bytes, info_slice, from_bytes_with_hash, hash_slice, enter_dict}
use rustorrent.Bencode.Ser.{to_bytes}
use rustorrent.Bencode.Ser.Encoding.{encoding, encoding_entries}
use rustorrent.Bencode.After.{dicts, dicts_entries, IsPrintable, after, after_entries}
use rustorrent.Bencode.RoundTrip.{from_bytes-to_bytes}
use rustorrent.Bencode.Quiet.{
  EntriesAreQuiet, IsPlain, ArePlain, state, chain, after-counted, after-plain, after_entries-plain,
  after_entries-chain,
}

-- a torrent: the dictionary `es` under the key `info`, with entries before it and behind it
abbrev pub info_key : Value
info_key = bytes (b'i' ∷ b'n' ∷ b'f' ∷ b'o' ∷ [])

abbrev pub torrent : Entries → Entries → Entries → Value
torrent before es later = dict (chain before (entry info_key (dict es) later))

after_entries-info :
    (es later : Entries) (rest : List ℕ) (d : Deserializer)
    → EntriesAreQuiet es
    → let r = encoding_entries later ++ rest in
      let start = some (encoding (dict es) ++ r) in
      after_entries (entry info_key (dict es) later) rest d
      ≡ after_entries later rest (state r start (some r) 1 (d.depth + dicts (dict es)))
unfolding after encoding
after_entries-info es later rest d q =
    let r = encoding_entries later ++ rest in
    let s = encoding (dict es) ++ r in
    ap (λ d'. after_entries later rest d') (after-counted es s r (some s) d.end_info d.depth q)

info_slice-append :
    (xs ys : List ℕ) → 0 < length xs → info_slice (some (xs ++ ys)) (some ys) ≡ some xs
unfolding info_slice
info_slice-append xs ys h =
    let long : ltb (length ys) (length (xs ++ ys)) ≡ true =
      ground (arith, length-append {0} xs ys) in
    let gap : length (xs ++ ys) - length ys ≡ length xs = omega (arith, length-append {0} xs ys) in
    rw (long, gap, take-append) refl

with_hash-slice :
    (sha1 : List ℕ → List ℕ) (fuel : ℕ) (s xs : List ℕ) (v : Value) (d : Deserializer)
    → from_bytes fuel s ≡ ok (v, d)
    → info_slice d.start_info d.end_info ≡ some xs
    → from_bytes_with_hash sha1 fuel s ≡ ok (v, sha1 xs)
unfolding from_bytes_with_hash
with_hash-slice sha1 fuel s xs v d e h = rw e (ap (λ o. hash_slice sha1 v o) h)

later_dict-marks :
    (key : Value) (es : Entries) (i rest : List ℕ) (s e : Option (List ℕ)) (k : ℕ)
    → IsPlain key
    → EntriesAreQuiet es
    → after_entries (entry key (dict es) end) rest (state i s e 1 k)
      ≡ state rest s (some rest) 1 (k + dicts key + dicts (dict es))
unfolding after encoding
later_dict-marks key es i rest s e k plain q =
    let r = encoding (dict es) ++ rest in
    ap (λ d. after (dict es) rest d) (after-plain key i r s e k plain)
    ∙ after-counted es r rest s e (k + dicts key) q

-- The bytes from `info`'s value to the mark `last` are hashed, if the later entries leave that mark.
torrent-marks :
    (before es later : Entries) (xs last : List ℕ) (sha1 : List ℕ → List ℕ) (fuel : ℕ)
    → let v = torrent before es later in
      let r = encoding_entries later ++ b'e' ∷ [] in
      EntriesAreQuiet es
      → IsPrintable v
      → dicts v ≤ 101
      → 2 * length (to_bytes v) ≤ fuel
      → 0 < length xs
      → encoding (dict es) ++ r ≡ xs ++ last
      → ((k : ℕ)
          → (k' : ℕ) × (after_entries later (b'e' ∷ []) (state r (some (xs ++ last)) (some r) 1 k)
              ≡ state (b'e' ∷ []) (some (xs ++ last)) (some last) 1 k'))
      → from_bytes_with_hash sha1 fuel (to_bytes v) ≡ ok (v, sha1 xs)
unfolding after encoding
torrent-marks before es later xs last sha1 fuel q p few enough long split marks =
    let v = torrent before es later in
    let info = entry info_key (dict es) later in
    let fits : leb (dicts v) 101 ≡ true = ground (arith, few) in
    let begin =
      enter_dict (encoding_entries (chain before info) ++ b'e' ∷ [])
        (deserializer_new (to_bytes v)) in
    let d = after_entries before (encoding_entries info ++ b'e' ∷ []) begin in
    let (k', e) = marks (d.depth + dicts (dict es)) in
    with_hash-slice sha1 fuel (to_bytes v) xs v (after v [] (deserializer_new (to_bytes v)))
      (from_bytes-to_bytes v fuel p enough ∙ rw fits refl)
      (rw
        (
          after_entries-chain before info (b'e' ∷ []) begin,
          after_entries-info es later (b'e' ∷ []) d q,
          split,
          e,
        )
        (info_slice-append xs last long))

-- The hash of a torrent that `to_bytes` wrote is that of its info dictionary's bencoding, where no
-- string inside that dictionary is `info`, and what follows it in the torrent's dictionary is
-- numbers, strings other than `info` and lists without that string. The entries before may be any.
-- The torrent has at most 101 dictionaries, its numbers and lengths fit 64 bits, and the fuel is two
-- units a byte.
pub from_bytes_with_hash-torrent :
    (before es later : Entries) (sha1 : List ℕ → List ℕ) (fuel : ℕ)
    → EntriesAreQuiet es
    → ArePlain later
    → IsPrintable (torrent before es later)
    → dicts (torrent before es later) ≤ 101
    → 2 * length (to_bytes (torrent before es later)) ≤ fuel
    → from_bytes_with_hash sha1 fuel (to_bytes (torrent before es later))
      ≡ ok (torrent before es later, sha1 (encoding (dict es)))
unfolding encoding
from_bytes_with_hash-torrent before es later sha1 fuel q plain p few enough =
    torrent-marks before es later (encoding (dict es)) (encoding_entries later ++ b'e' ∷ []) sha1
      fuel q p few enough (omega arith) refl
      (λ k.
        let s = some (encoding (dict es) ++ (encoding_entries later ++ b'e' ∷ [])) in
        let e = some (encoding_entries later ++ b'e' ∷ []) in
        (k + dicts_entries later, after_entries-plain later (b'e' ∷ []) s e k plain))

-- If the one entry behind `info` is a dictionary without the string `info`, under a key that is
-- neither `info` nor a dictionary, the hash is taken of the info dictionary with that entry behind it, under the same
-- conditions on the torrent.
pub from_bytes_with_hash-later_dict :
    (before es es' : Entries) (key : Value) (sha1 : List ℕ → List ℕ) (fuel : ℕ)
    → let v = torrent before es (entry key (dict es') end) in
      EntriesAreQuiet es
      → IsPlain key
      → EntriesAreQuiet es'
      → IsPrintable v
      → dicts v ≤ 101
      → 2 * length (to_bytes v) ≤ fuel
      → from_bytes_with_hash sha1 fuel (to_bytes v)
        ≡ ok (v, sha1 (encoding (dict es) ++ (encoding key ++ encoding (dict es'))))
unfolding encoding
from_bytes_with_hash-later_dict before es es' key sha1 fuel q plain q' p few enough =
    let xs = encoding (dict es) ++ (encoding key ++ encoding (dict es')) in
    let later = entry key (dict es') end in
    let r = encoding_entries later ++ b'e' ∷ [] in
    torrent-marks before es later xs (b'e' ∷ []) sha1 fuel q p few enough (omega arith)
      (simp (append_assoc, append-nil))
      (λ k. (
        k + dicts key + dicts (dict es'),
        later_dict-marks key es' r (b'e' ∷ []) (some (xs ++ b'e' ∷ [])) (some r) k plain q',
      ))
