-- ===== src/Utp/Packet.antt =====
-- src/utp/mod.rs: packet types, the packet header in network byte order, the payload and the packet.
-- The target is little-endian, as the code's x86_64 parts are: `to_be` and `from_be` swap bytes, and
-- a field lies in memory with its low byte first.
pub mod Bytes
mod Tests
use rustorrent.Common.{
  ℕ, ◌+◌, ◌-◌, ◌*◌, ◌/◌, ◌%◌, ◌^◌, ◌≡◌, Bool, true, false, not, ◌&&◌, ◌||◌, Option, none, some,
  List, [], ◌∷◌, ◌++◌, ltb, leb, ◌==◌, if◌then◌else◌, length, take, drop, replicate,
}
use rustorrent.Common.Checked.{◌>>=◌}
use rustorrent.Common.Outcome.{Outcome, ok, err, panic}
use rustorrent.Utp.Seq.{SequenceNumber, cmp_less_equal}
use rustorrent.Utp.Delay.{elapsed_millis}

-- `std::io::ErrorKind`, as far as the code tells its values apart
pub data ErrorKind : Type 0 where
  timed_out would_block other : ErrorKind

pub data UtpError : Type 0 where
  malformed unknown_packet_type wrong_version familly_mismatch packet_lost : UtpError
  must_close packet_not_sent recv_error recv_closed send_would_block : UtpError
  io : ErrorKind → UtpError

pub should_continue : UtpError → Bool
should_continue (io timed_out) = true
should_continue (io would_block) = true
should_continue _ = false

-- `PacketType`; the constructors are the source's Data, Fin, State, Reset and Syn.
pub data PacketType : Type 0 where
  data_packet fin state reset syn : PacketType

-- `impl TryFrom<u8> for PacketType`: the high four bits
unfoldable pub packet_type_of : ℕ → Outcome UtpError PacketType
packet_type_of type_version =
    let n : ℕ = type_version / 2 ^ 4 in
    if n == 0
    then ok data_packet
    else if n == 1
    then ok fin
    else if n == 2
    then ok state
    else if n == 3
    then ok reset
    else if n == 4
    then ok syn
    else err unknown_packet_type

abbrev pub packet_type_to_u8 : PacketType → ℕ
packet_type_to_u8 data_packet = 0
packet_type_to_u8 fin = 1
packet_type_to_u8 state = 2
packet_type_to_u8 reset = 3
packet_type_to_u8 syn = 4

-- `u16::to_be` and `u16::from_be`, `u32::to_be` and `u32::from_be`
abbrev pub swap16 : ℕ → ℕ
swap16 n = n % 256 * 256 + n / 256 % 256

abbrev pub swap32 : ℕ → ℕ
swap32 n = n % 256 * 2 ^ 24 + n / 2 ^ 8 % 256 * 2 ^ 16 + n / 2 ^ 16 % 256 * 2 ^ 8 + n / 2 ^ 24 % 256

abbrev pub header_size : ℕ
header_size = 20

pub record Header : Type 0 where
  pub type_version : ℕ
  pub extension : ℕ
  pub connection_id : ℕ
  pub timestamp_micro : ℕ
  pub timestamp_difference_micro : ℕ
  pub window_size : ℕ
  pub seq_nr : ℕ
  pub ack_nr : ℕ

unfoldable pub check_version : Header → Outcome UtpError (Unit {0})
check_version h = if h.type_version % 16 == 1 then ok tt else err wrong_version

unfoldable pub get_type : Header → Outcome UtpError PacketType
get_type h = elim (check_version h) [
  | ok _ ↦ packet_type_of h.type_version
  | err e ↦ err e
  | panic ↦ panic
]

abbrev pub get_version : Header → ℕ
get_version h = h.type_version % 16

abbrev pub get_connection_id : Header → ℕ
get_connection_id h = swap16 h.connection_id

abbrev pub get_timestamp : Header → ℕ
get_timestamp h = swap32 h.timestamp_micro

abbrev pub get_timestamp_diff : Header → ℕ
get_timestamp_diff h = swap32 h.timestamp_difference_micro

abbrev pub get_window_size : Header → ℕ
get_window_size h = swap32 h.window_size

abbrev pub get_seq_number : Header → SequenceNumber
get_seq_number h = swap16 h.seq_nr

abbrev pub get_ack_number : Header → SequenceNumber
get_ack_number h = swap16 h.ack_nr

unfoldable pub has_extension : Header → Bool
has_extension h = not (h.extension == 0)

abbrev pub set_connection_id : Header → ℕ → Header
set_connection_id h id = record h { connection_id = swap16 id }

abbrev pub set_timestamp : Header → ℕ → Header
set_timestamp h t = record h { timestamp_micro = swap32 t }

abbrev pub set_timestamp_diff : Header → ℕ → Header
set_timestamp_diff h d = record h { timestamp_difference_micro = swap32 d }

abbrev pub set_window_size : Header → ℕ → Header
set_window_size h w = record h { window_size = swap32 w }

abbrev pub set_seq_number : Header → SequenceNumber → Header
set_seq_number h n = record h { seq_nr = swap16 n }

abbrev pub set_ack_number : Header → SequenceNumber → Header
set_ack_number h n = record h { ack_nr = swap16 n }

-- `Header::new`, and `Default` for `PacketType::Data`
abbrev pub header_new : PacketType → Header
header_new ty = record {
  type_version = packet_type_to_u8 ty * 2 ^ 4 + 1;
  extension = 0;
  connection_id = 0;
  timestamp_micro = 0;
  timestamp_difference_micro = 0;
  window_size = 0;
  seq_nr = 0;
  ack_nr = 0;
}

-- two and four bytes of memory, the low one first
abbrev pub le16 : ℕ → List ℕ
le16 n = (n % 256) ∷ (n / 2 ^ 8 % 256) ∷ []

abbrev pub le32 : ℕ → List ℕ
le32 n = (n % 256) ∷ (n / 2 ^ 8 % 256) ∷ (n / 2 ^ 16 % 256) ∷ (n / 2 ^ 24 % 256) ∷ []

-- `Header::as_bytes`, the header's memory
pub header_as_bytes : Header → List ℕ
header_as_bytes h =
    h.type_version
    ∷ h.extension
    ∷ (le16 h.connection_id
        ++ (le32 h.timestamp_micro
            ++ (le32 h.timestamp_difference_micro
                ++ (le32 h.window_size ++ (le16 h.seq_nr ++ le16 h.ack_nr)))))

abbrev pub load8 : List ℕ → Option (ℕ × List ℕ)
load8 (a ∷ r) = some (a, r)
load8 _ = none

abbrev pub load16 : List ℕ → Option (ℕ × List ℕ)
load16 (a ∷ b ∷ r) = some (a + b * 2 ^ 8, r)
load16 _ = none

abbrev pub load32 : List ℕ → Option (ℕ × List ℕ)
load32 (a ∷ b ∷ c ∷ d ∷ r) = some (a + b * 2 ^ 8 + c * 2 ^ 16 + d * 2 ^ 24, r)
load32 _ = none

-- the header that bytes copied over a packet's memory make, and the bytes behind it
pub header_of_bytes : List ℕ → Option (Header × List ℕ)
header_of_bytes bytes = do
  (type_version, r) ← load8 bytes
  (extension, r) ← load8 r
  (connection_id, r) ← load16 r
  (timestamp_micro, r) ← load32 r
  (timestamp_difference_micro, r) ← load32 r
  (window_size, r) ← load32 r
  (seq_nr, r) ← load16 r
  (ack_nr, r) ← load16 r
  some (
    record {
      type_version = type_version;
      extension = extension;
      connection_id = connection_id;
      timestamp_micro = timestamp_micro;
      timestamp_difference_micro = timestamp_difference_micro;
      window_size = window_size;
      seq_nr = seq_nr;
      ack_nr = ack_nr;
    },
    r,
  )
