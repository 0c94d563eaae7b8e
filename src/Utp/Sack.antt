-- ===== src/Utp/Sack.antt =====
-- src/utp/mod.rs: `SelectiveAck`, the bits of one selective-ack extension, and `ExtensionIterator`,
-- the chain of a packet's extensions.
pub mod Bits
pub mod Chain
mod Tests
use rustorrent.Common.{
  ℕ, zero, suc, ◌+◌, ◌*◌, ◌/◌, ◌%◌, ◌^◌, Bool, true, false, not, ◌||◌, Option, none, some, List, [],
  ◌∷◌, leb, ◌==◌, if◌then◌else◌, length, get_elem?, get_or, take, drop,
}
use rustorrent.Utp.Seq.{SequenceNumber, add}
use rustorrent.Utp.Packet.{get_ack_number, header_size}
use rustorrent.Utp.Datagram.{Packet, size}

pub data ExtensionType : Type 0 where
  selective_ack no_extension unknown : ExtensionType

-- `impl From<u8> for ExtensionType`
abbrev pub extension_type_of : ℕ → ExtensionType
extension_type_of byte =
    if byte == 0 then no_extension else if byte == 1 then selective_ack else unknown

pub record SelectiveAck : Type 0 where
  pub bitfield : List ℕ
  pub byte_index : ℕ
  pub bit_index : ℕ
  pub ack_number : SequenceNumber
  pub first : Bool

pub data SelectiveAckBit : Type 0 where
  acked missing : SequenceNumber → SelectiveAckBit

-- `byte & (1 << i) != 0`
abbrev pub bit_set : ℕ → ℕ → Bool
bit_set byte i = byte / 2 ^ i % 2 == 1

-- the ones of a byte's low `n` bits: `count_ones` at 8
abbrev pub count_ones : ℕ → ℕ → ℕ
count_ones zero byte = 0
count_ones (suc n) byte = (if bit_set byte n then 1 else 0) + count_ones n byte

-- `count_zeros() > 0` is that not all eight bits are ones.
unfoldable pub has_missing_ack : List ℕ → Bool
has_missing_ack [] = false
has_missing_ack (b ∷ bs) = not (count_ones 8 b == 8) || has_missing_ack bs

unfoldable pub nackeds : List ℕ → ℕ
nackeds [] = 0
nackeds (b ∷ bs) = count_ones 8 b + nackeds bs

-- the bit that `next` reports of a byte, at the iterator's place
abbrev pub report : SelectiveAck → ℕ → SelectiveAckBit
report s byte =
    let n = add (add (add s.ack_number (s.byte_index % 2 ^ 16 * 8 % 2 ^ 16)) s.bit_index) 2 in
    if bit_set byte s.bit_index then acked n else missing n

abbrev pub advance : SelectiveAck → SelectiveAck
advance s =
    if s.bit_index == 7
    then record s { byte_index = s.byte_index + 1; bit_index = 0 }
    else record s { bit_index = s.bit_index + 1 }

-- `Iterator::next`; the `?` on a missing byte is the end.
unfoldable pub next_bit : SelectiveAck → Option SelectiveAckBit × SelectiveAck
next_bit s =
    if s.first
    then (some (missing (add s.ack_number 1)), record s { first = false })
    else elim (get_elem? s.bitfield s.byte_index) [
      | none ↦ (none, s)
      | some byte ↦ (some (report s byte), advance s)
    ]

-- What a `for` loop over the iterator sees, within so many calls of `next`.
unfoldable pub collect : ℕ → SelectiveAck → List SelectiveAckBit
collect zero s = []
collect (suc fuel) s =
    let (o, s') = next_bit s in elim o [ none ↦ [] | some bit ↦ bit ∷ collect fuel s' ]

pub record ExtensionIterator : Type 0 where
  pub current_type : ExtensionType
  pub slice : List ℕ
  pub ack_number : SequenceNumber

-- `ExtensionIterator::new`
abbrev pub iter_sacks : Packet → ExtensionIterator
iter_sacks p = record {
  current_type = extension_type_of p.header.extension;
  slice = take p.payload.len p.payload.bytes;
  ack_number = get_ack_number p.header;
}

-- `out_of_fuel` has no counterpart in the code: the loop still runs.
pub data Found : Type 0 where
  yields : SelectiveAck → ExtensionIterator → Found
  ends : ExtensionIterator → Found
  out_of_fuel : Found

-- `slice.get(a..b)` and `slice.get(a..)`
abbrev pub get_range : ℕ → ℕ → List ℕ → Option (List ℕ)
get_range start n slice =
    if leb (start + n) (length slice) then some (take n (drop start slice)) else none

abbrev pub get_from : ℕ → List ℕ → Option (List ℕ)
get_from start slice = if leb start (length slice) then some (drop start slice) else none

-- the arm of a selective ack; each `?` ends the iteration before the state changes, but for the
-- last, which cannot fail after the second.
unfoldable pub take_sack : ExtensionIterator → Found
take_sack s = elim (get_elem? s.slice 1) [
  | none ↦ ends s
  | some len ↦ elim (get_range 2 len s.slice) [
    | none ↦ ends s
    | some bitfield ↦
        yields
          (record {
            bitfield = bitfield;
            byte_index = 0;
            bit_index = 0;
            ack_number = s.ack_number;
            first = true;
          })
          (record s {
            current_type = extension_type_of (get_or s.slice 0 0);
            slice = drop (2 + len) s.slice;
          })
  ]
]

-- the arm of any other extension: the next type, and the slice behind `len` bytes. The type is
-- already set when a `?` ends the iteration.
unfoldable pub skip_unknown : ExtensionIterator → Option ExtensionIterator × ExtensionIterator
skip_unknown s = elim (get_elem? s.slice 0) [
  | none ↦ (none, s)
  | some ty ↦
      let typed = record s { current_type = extension_type_of ty } in
      elim (get_elem? s.slice 1) [
        | none ↦ (none, typed)
        | some len ↦ elim (get_from len s.slice) [
          | none ↦ (none, typed)
          | some rest ↦ (some (record typed { slice = rest }), typed)
        ]
      ]
]

-- `Iterator::next`, a `loop` on the current type
unfoldable pub next_sack : ℕ → ExtensionIterator → Found
next_sack zero s = out_of_fuel
next_sack (suc fuel) s = elim s.current_type [
  | no_extension ↦ ends s
  | selective_ack ↦ take_sack s
  | unknown ↦ let (o, t) = skip_unknown s in elim o [ some s' ↦ next_sack fuel s' | none ↦ ends t ]
]
