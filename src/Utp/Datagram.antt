-- ===== src/Utp/Datagram.antt =====
-- src/utp/mod.rs: `Payload` and `Packet`, the header with its payload and the sender's bookkeeping.
pub mod Transfer
mod Tests
use rustorrent.Common.{
  ℕ, suc, ◌+◌, ◌-◌, ◌<◌, Bool, true, false, ◌&&◌, Option, none, some, List, [], ◌∷◌, ◌++◌, ltb, leb,
  if◌then◌else◌, length, take, drop, replicate, write_u16,
}
use rustorrent.Common.Checked.{◌>>=◌}
use rustorrent.Utp.Seq.{SequenceNumber, cmp_less_equal}
use rustorrent.Utp.Delay.{elapsed_millis}
use rustorrent.Utp.Packet.{
  Header, PacketType, data_packet, syn, header_new, header_size, header_as_bytes, header_of_bytes,
  get_seq_number, set_seq_number, set_timestamp,
}

abbrev pub payload_size : ℕ
payload_size = 1500

abbrev pub packet_max_size : ℕ
packet_max_size = header_size + payload_size

-- `data` is the array of 1500 bytes, of which the first `len` count.
pub record Payload : Type 0 where
  pub bytes : List ℕ
  pub len : ℕ

-- `array[..data.len()].copy_from_slice(data)`; `none` is the panic of a slice out of range.
abbrev pub copy_front : List ℕ → List ℕ → Option (List ℕ)
copy_front array src =
    if leb (length src) (length array) then some (src ++ drop (length src) array) else none

-- `Payload::new`, and `new_in_place` over what the memory held
unfoldable pub payload_over : List ℕ → List ℕ → Option Payload
payload_over array src =
    copy_front array src >>= λ bytes. some (record { bytes = bytes; len = length src })

abbrev pub payload_new : List ℕ → Option Payload
payload_new src = payload_over (replicate payload_size 0) src

-- `Payload::append`, with its assertion that there is something to append
unfoldable pub append : Payload → List ℕ → Option Payload
append p src =
    if ltb 0 (length src)
    then (copy_front p.bytes src >>= λ bytes.
        some (record { bytes = bytes; len = p.len + length src }))
    else none

pub record Packet : Type 0 where
  pub header : Header
  pub payload : Payload
  pub seq_number : SequenceNumber
  pub resent : Bool
  pub last_sent : ℕ
  pub lost : Bool
  pub received_at : Option ℕ

abbrev pub packet_with : Header → Payload → Packet
packet_with h p = record {
  header = h;
  payload = p;
  seq_number = 0;
  resent = false;
  last_sent = 0;
  lost = false;
  received_at = none;
}

-- `Packet::new_in_place`; `Packet::new` is it over zeros.
unfoldable pub packet_new_in_place : List ℕ → List ℕ → Option Packet
packet_new_in_place array src =
    payload_over array src >>= λ p. some (packet_with (header_new data_packet) p)

abbrev pub packet_new : List ℕ → Option Packet
packet_new src = packet_new_in_place (replicate payload_size 0) src

-- `Packet::new_type`, and `Packet::syn` at `PacketType::Syn`
unfoldable pub new_type : PacketType → Option Packet
new_type ty = payload_new [] >>= λ p. some (packet_with (header_new ty) p)

-- what bytes copied over a packet's header and payload make of it; `array` is what the payload's
-- memory held
pub received_packet : List ℕ → List ℕ → ℕ → Option Packet
received_packet array received timestamp = do
  (h, rest) ← header_of_bytes received
  some (record {
    header = h;
    payload = record {
      bytes = rest ++ drop (length rest) array;
      len = length received - header_size;
    };
    seq_number = get_seq_number h;
    resent = false;
    last_sent = 0;
    lost = false;
    received_at = some timestamp;
  })

-- `Packet::from_incoming_in_place`; `none` is the failed assertion on the length.
pub from_incoming_in_place : List ℕ → List ℕ → ℕ → Option Packet
unfolding received_packet
from_incoming_in_place array received timestamp =
    if leb header_size (length received) && ltb (length received) packet_max_size
    then received_packet array received timestamp
    else none

-- `bytes.len().try_into().unwrap()` panics above 255.
unfoldable pub add_selective_acks : Packet → List ℕ → Option Packet
unfolding append
add_selective_acks p bytes = if ltb 255 (length bytes) then none else extended
  where
    extended : Option Packet
    extended = do
      sized ← append p.payload (0 ∷ length bytes ∷ [])
      acked ← append sized bytes
      some (record p { header = record p.header { extension = 1 }; payload = acked })

-- `Packet::update_timestamp`, at the time `now`
unfoldable pub update_timestamp : Packet → ℕ → Packet
update_timestamp p now = record p { header = set_timestamp p.header now; last_sent = now }

pub millis_since_sent : Packet → ℕ → ℕ
millis_since_sent p now = elapsed_millis p.last_sent now

unfoldable pub set_packet_seq_number : Packet → SequenceNumber → Packet
set_packet_seq_number p n = record p { header = set_seq_number p.header n; seq_number = n }

unfoldable pub is_seq_less_equal : Packet → SequenceNumber → Bool
is_seq_less_equal p n = cmp_less_equal p.seq_number n

abbrev pub size : Packet → ℕ
size p = p.payload.len + header_size

-- `Packet::get_data`; `none` is the panic of `len` past the array.
unfoldable pub get_data : Packet → Option (List ℕ)
get_data p =
    if leb p.payload.len (length p.payload.bytes)
    then some (take p.payload.len p.payload.bytes)
    else none

-- `Packet::as_bytes`: the packet's memory up to the end of the payload. `none` is a length past the
-- payload's array.
pub packet_as_bytes : Packet → Option (List ℕ)
unfolding get_data
packet_as_bytes p = get_data p >>= λ payload. some (header_as_bytes p.header ++ payload)
