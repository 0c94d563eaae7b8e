-- ===== src/BitField.antt =====
-- src/bitfield.rs: which pieces a peer has. `none` is a panic of an index out of the boxed slice.
pub mod Bits
mod Tests
use rustorrent.Common.{
  ℕ, zero, suc, ◌+◌, ◌-◌, ◌*◌, ◌/◌, ◌%◌, Bool, true, false, Option, none, some, List, ◌==◌, ltb,
  leb, if◌then◌else◌, length, get_elem?, set, replicate,
}
use rustorrent.Common.Checked.{◌>>=◌}
use rustorrent.Common.Outcome.{Outcome, ok, err, panic}

pub record BitField : Type 0 where
  pub inner : List ℕ
  pub nbits : ℕ

pub data BitFieldUpdate : Type 0 where
  bit_field : BitField → BitFieldUpdate
  piece : ℕ → BitFieldUpdate

-- `TorrentError::InvalidInput`
pub data BitFieldError : Type 0 where
  invalid_input : BitFieldError

-- `TryFrom<(&[u8], usize)>`
unfoldable pub try_from : List ℕ → ℕ → Outcome BitFieldError BitField
try_from bitfield nbits =
    if leb nbits (length bitfield * 8)
    then ok (record { inner = bitfield; nbits = nbits })
    else err invalid_input

-- `BitField::new`
unfoldable pub bit_field_new : ℕ → BitField
bit_field_new nbits = record { inner = replicate (nbits / 8 + 1) 0; nbits = nbits }

-- `byte & (1 << k) != 0`, and `byte | (1 << k)`, by the binary digits of the byte
unfoldable pub and_bit : ℕ → ℕ → Bool
and_bit byte zero = byte % 2 == 1
and_bit byte (suc k) = and_bit (byte / 2) k

unfoldable pub or_bit : ℕ → ℕ → ℕ
or_bit byte zero = byte / 2 * 2 + 1
or_bit byte (suc k) = or_bit (byte / 2) k * 2 + byte % 2

unfoldable pub get_bit : BitField → ℕ → Option Bool
get_bit b index =
    if ltb index b.nbits
    then (get_elem? b.inner (index / 8) >>= λ byte. some (and_bit byte (7 - index % 8)))
    else some false

unfoldable pub set_bit : BitField → ℕ → Option BitField
set_bit b index =
    if ltb index b.nbits
    then (get_elem? b.inner (index / 8) >>= λ byte.
        some (record b { inner = set b.inner (index / 8) (or_bit byte (7 - index % 8)) }))
    else some b

unfoldable pub update : BitField → BitFieldUpdate → Option BitField
update b (bit_field bitfield) = some bitfield
update b (piece index) = set_bit b index
