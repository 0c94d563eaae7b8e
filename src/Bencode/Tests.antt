-- ===== src/Bencode/Tests.antt =====
-- The bencoding on concrete values.
use rustorrent.Common.{
  ◌-◌, ◌*◌, ◌^◌, ◌≤◌, ◌≡◌, refl, [], ◌∷◌, ◌++◌, arith, if◌then◌else◌, leb, length,
}
use rustorrent.Bencode.Value.{Value, Entries, int, bytes, list, dict, nil, cons, end, entry}
use rustorrent.Bencode.Reader.{ok, err, too_deep, deserializer_new}
use rustorrent.Bencode.De.{from_bytes, from_bytes_with_hash}
use rustorrent.Bencode.Ser.{serialize_char, to_bytes, decimal}
use rustorrent.Bencode.Ser.Encoding.{encoding, to_bytes-encoding}
use rustorrent.Bencode.After.{dicts, IsPrintable, after}
use rustorrent.Bencode.RoundTrip.{from_bytes-to_bytes}
use rustorrent.Bencode.Quiet.{EntriesAreQuiet, IsPlain, ArePlain, chain}
use rustorrent.Bencode.InfoHash.{
  torrent, from_bytes_with_hash-torrent, from_bytes_with_hash-later_dict,
}

-- `{length: 12, name: "x"}` under `info`
abbrev info_entries : Entries
info_entries =
    entry (bytes (b'l' ∷ [])) (int 12) (entry (bytes (b'n' ∷ [])) (bytes (b'x' ∷ [])) end)

abbrev announce : Entries
announce = entry (bytes (b'a' ∷ [])) (bytes (b'u' ∷ [])) end

abbrev sources : Entries
sources = entry (bytes (b's' ∷ [])) (list (cons (int (2 ^ 64 - 5)) nil)) end

abbrev sample : Value
sample = torrent announce info_entries sources

abbrev layered : Value
layered = torrent announce info_entries (entry (bytes (b'p' ∷ [])) (dict end) end)

to_bytes-sample :
    to_bytes (list (cons (int 12) (cons (bytes (b'a' ∷ b'b' ∷ [])) nil)))
    ≡ b'l' ∷ b'i' ∷ b'1' ∷ b'2' ∷ b'e' ∷ b'2' ∷ b':' ∷ b'a' ∷ b'b' ∷ b'e' ∷ []
unfolding to_bytes decimal
to_bytes-sample = refl

-- A character of two bytes of UTF-8 is written behind the length 1.
serialize_char-wide : serialize_char [] (195 ∷ 169 ∷ []) ≡ b'1' ∷ b':' ∷ 195 ∷ 169 ∷ []
unfolding serialize_char
serialize_char-wide = refl

to_bytes-encoding_example : to_bytes sample ≡ encoding sample
to_bytes-encoding_example = to_bytes-encoding sample

sample-IsPrintable : IsPrintable sample
unfolding IsPrintable chain
sample-IsPrintable = (
  omega arith,
  omega arith,
  (
    omega arith,
    (omega arith, omega arith, (omega arith, omega arith, tt)),
    (omega arith, (omega arith, tt), tt),
  ),
)

layered-IsPrintable : IsPrintable layered
unfolding IsPrintable chain
layered-IsPrintable = (
  omega arith,
  omega arith,
  (omega arith, (omega arith, omega arith, (omega arith, omega arith, tt)), (omega arith, tt, tt)),
)

sample-size : 2 * length (to_bytes sample) ≤ 200
unfolding to_bytes chain decimal
sample-size = omega arith

layered-size : 2 * length (to_bytes layered) ≤ 200
unfolding to_bytes chain decimal
layered-size = omega arith

info_entries-EntriesAreQuiet : EntriesAreQuiet info_entries
unfolding EntriesAreQuiet
info_entries-EntriesAreQuiet = (refl, tt, (refl, refl, tt))

from_bytes-to_bytes_example : from_bytes 200 (to_bytes sample) ≡ (
    if leb (dicts sample) 101
    then ok (sample, after sample [] (deserializer_new (to_bytes sample)))
    else err too_deep)
from_bytes-to_bytes_example = from_bytes-to_bytes sample 200 sample-IsPrintable sample-size

sources-ArePlain : ArePlain sources
unfolding ArePlain EntriesAreQuiet
sources-ArePlain = (refl, (tt, tt), tt)

sample-dicts : dicts sample ≤ 101
unfolding dicts chain
sample-dicts = omega arith

layered-dicts : dicts layered ≤ 101
unfolding dicts chain
layered-dicts = omega arith

from_bytes_with_hash-torrent_example :
    from_bytes_with_hash (λ s. s) 200 (to_bytes sample) ≡ ok (sample, encoding (dict info_entries))
from_bytes_with_hash-torrent_example =
    from_bytes_with_hash-torrent announce info_entries sources (λ s. s) 200
      info_entries-EntriesAreQuiet sources-ArePlain sample-IsPrintable sample-dicts sample-size

layer_key-IsPlain : IsPlain (bytes (b'p' ∷ []))
unfolding IsPlain
layer_key-IsPlain = refl

no_entries-EntriesAreQuiet : EntriesAreQuiet end
unfolding EntriesAreQuiet
no_entries-EntriesAreQuiet = tt

from_bytes_with_hash-later_dict_example :
    from_bytes_with_hash (λ s. s) 200 (to_bytes layered)
    ≡ ok (
      layered,
      encoding (dict info_entries) ++ (encoding (bytes (b'p' ∷ [])) ++ encoding (dict end)),
    )
from_bytes_with_hash-later_dict_example =
    from_bytes_with_hash-later_dict announce info_entries end (bytes (b'p' ∷ [])) (λ s. s) 200
      info_entries-EntriesAreQuiet layer_key-IsPlain no_entries-EntriesAreQuiet layered-IsPrintable
      layered-dicts layered-size
