-- ===== src/Utp/Ack.antt =====
-- src/utp/ack_bitfield.rs, `AckedBitfield`: which packets have come in, as the last one of those in
-- order and bits for those behind it. `none` is a panic. A byte is a number below 256, of which
-- `byte >> n` and `prev << (8 - n)` have no digit in common when `prev` has `n` digits.
mod Tests
use rustorrent.Common.{
  ℕ, zero, suc, ◌+◌, ◌-◌, ◌*◌, ◌/◌, ◌%◌, ◌^◌, Bool, true, false, Option, none, some, List, [], ◌∷◌,
  ◌++◌, ltb, leb, ◌==◌, if◌then◌else◌, length, get_or, set, take, drop, replicate, max,
}
use rustorrent.Common.Checked.{◌>>=◌}
use rustorrent.Utp.Seq.{SequenceNumber, add, sub, cmp_greater}
use rustorrent.BitField.{or_bit}

abbrev pub bitfield_length : ℕ
bitfield_length = 170

pub record AckedBitfield : Type 0 where
  pub first : Option SequenceNumber
  pub last : SequenceNumber
  pub bitfield : List ℕ

abbrev pub acked_default : AckedBitfield
acked_default = record { first = none; last = 0; bitfield = replicate bitfield_length 0 }

-- `u8::trailing_ones`, of so many bits
unfoldable pub trailing_ones : ℕ → ℕ → ℕ
trailing_ones zero byte = 0
trailing_ones (suc n) byte =
    let more = trailing_ones n (byte / 2) in if byte % 2 == 1 then suc more else 0

-- `find_shift_number`, from the byte at `index` on
unfoldable pub find_shift_number : ℕ → List ℕ → Option ℕ
unfolding trailing_ones
find_shift_number index [] = none
find_shift_number index (byte ∷ bytes) =
    let next = find_shift_number (suc index) bytes in
    if byte == 255 then next else some (index * 8 + trailing_ones 8 byte + 1)

-- the loop of `shift`, from the last byte to the first, with `prev`
unfoldable pub shift_bytes : ℕ → List ℕ → List ℕ × ℕ
shift_bytes n [] = ([], 0)
shift_bytes n (byte ∷ bytes) =
    let rest = shift_bytes n bytes in ((byte / 2 ^ n + rest.1 * 2 ^ (8 - n)) ∷ rest.0, byte % 2 ^ n)

-- `copy_within`, and zeros behind
abbrev pub move_bytes : ℕ → List ℕ → List ℕ
move_bytes n bytes = drop n bytes ++ replicate n 0

-- the part of `shift` behind the move, on `bitfield[..=last_index]`
unfoldable pub shift_bits : ℕ → ℕ → List ℕ → Option (List ℕ)
unfolding shift_bytes
shift_bits n last_index bytes =
    if n == 0
    then some bytes
    else if ltb last_index (length bytes)
    then some ((shift_bytes n (take (suc last_index) bytes)).0 ++ drop (suc last_index) bytes)
    else none

unfoldable pub shift : AckedBitfield → ℕ → SequenceNumber → Option AckedBitfield
unfolding shift_bits
shift s n prev_first =
    let moved = if leb 8 n then move_bytes (n / 8) s.bitfield else s.bitfield in
    let last_index = (max (sub s.last prev_first) 2 - 2) / 8 in
    shift_bits (n % 8) last_index moved >>= λ bytes. some (record s { bitfield = bytes })

-- the packet behind the first one
unfoldable pub advance : AckedBitfield → SequenceNumber → SequenceNumber → Option AckedBitfield
unfolding find_shift_number shift
advance s prev_first num = find_shift_number 0 s.bitfield >>= λ n.
    if ltb 0 n
    then shift (record s { first = some (sub (add num n) 1) }) n prev_first
    else some (record s { first = some num })

-- `get_mut` out of range gives nothing to write to, as `set` does.
unfoldable pub mark : AckedBitfield → SequenceNumber → SequenceNumber → AckedBitfield
mark s first num =
    let distance = sub (sub num first) 2 in
    let index = distance / 8 in
    record s { bitfield = set s.bitfield index (or_bit (get_or s.bitfield index 0) (distance % 8)) }

abbrev pub greatest : SequenceNumber → SequenceNumber → SequenceNumber
greatest num last = if cmp_greater num last then num else last

-- `match self.first`
unfoldable pub ack_from : AckedBitfield → SequenceNumber → SequenceNumber → Option AckedBitfield
unfolding advance mark
ack_from s first num =
    if num == add first 1
    then advance s first num
    else if cmp_greater num first
    then some (mark s first num)
    else some s

unfoldable pub ack : AckedBitfield → SequenceNumber → Option AckedBitfield
unfolding ack_from
ack s num =
    let seen = record s { last = greatest num s.last } in
    elim s.first [
      | none ↦ some (record seen { first = some num })
      | some first ↦ ack_from seen first num
    ]

unfoldable pub init : AckedBitfield → SequenceNumber → Option AckedBitfield
init s num = elim s.first [
  | none ↦ some (record s { first = some num; last = num })
  | some _ ↦ none
]

-- the slice `bitfield[..=last_index]`, or nothing to send
unfoldable pub bytes_for_packet : AckedBitfield → Option (Option (List ℕ))
bytes_for_packet s = s.first >>= λ first.
    let last_index = sub (sub s.last first) 2 / 8 in
    if first == s.last
    then some none
    else if ltb last_index (length s.bitfield)
    then some (some (take (suc last_index) s.bitfield))
    else none

abbrev pub current : AckedBitfield → Option SequenceNumber
current s = s.first
