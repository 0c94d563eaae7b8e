-- ===== src/Utp/State.antt =====
-- src/utp/stream.rs, `State`, with `UtpState` of src/utp/mod.rs: what a connection keeps of its numbers
-- and of the packets in flight. An atomic is its value; the map of packets is an association list, in
-- the order that the map has.
pub mod Flight
use rustorrent.Common.{
  ℕ, ◌+◌, ◌*◌, ◌%◌, ◌^◌, Bool, true, false, Option, none, some, List, [], ◌∷◌, ◌==◌, if◌then◌else◌,
  wrapping_add, wrapping_sub,
}
use rustorrent.Utp.Seq.{SequenceNumber, add}
use rustorrent.Utp.Datagram.{Packet, size, is_seq_less_equal}
use rustorrent.Utp.Stream.{PacketMap, lookup, insert}

-- the constructors are the source's None, SynReceived, SynSent, Connected, FinSent and MustConnect.
pub data UtpState : Type 0 where
  not_connected syn_received syn_sent connected fin_sent must_connect : UtpState

abbrev pub utp_state_to_u8 : UtpState → ℕ
utp_state_to_u8 not_connected = 0
utp_state_to_u8 syn_received = 1
utp_state_to_u8 syn_sent = 2
utp_state_to_u8 connected = 3
utp_state_to_u8 fin_sent = 4
utp_state_to_u8 must_connect = 5

pub record State : Type 0 where
  pub utp_state : UtpState
  pub recv_id : ℕ
  pub send_id : ℕ
  pub seq_number : SequenceNumber
  pub remote_window : ℕ
  pub cwnd : ℕ
  pub in_flight : ℕ
  pub inflight_packets : PacketMap

abbrev pub init_cwnd : ℕ
init_cwnd = 2

abbrev pub min_cwnd : ℕ
min_cwnd = 2

abbrev pub mss : ℕ
mss = 1400

-- `with_utp_state` over `Default`, with the ids that `make_ids` gives and a random number
abbrev pub with_utp_state : UtpState → ℕ → ℕ → SequenceNumber → State
with_utp_state utp_state recv_id send_id random = record {
  utp_state = utp_state;
  recv_id = recv_id;
  send_id = send_id;
  seq_number = random;
  remote_window = init_cwnd * mss;
  cwnd = init_cwnd * mss;
  in_flight = 0;
  inflight_packets = [];
}

-- `fetch_add` and `fetch_sub` wrap.
abbrev pub fly : State → ℕ → State
fly s size = record s { in_flight = wrapping_add 32 s.in_flight (size % 2 ^ 32) }

abbrev pub land : State → ℕ → State
land s size = record s { in_flight = wrapping_sub 32 s.in_flight (size % 2 ^ 32) }

unfoldable pub add_packet_inflight : State → SequenceNumber → Packet → State
add_packet_inflight s seq_num packet =
    fly (record s { inflight_packets = insert seq_num packet s.inflight_packets }) (size packet)

-- the packets that `retain` keeps, those of which the number is not less or equal
unfoldable pub retain_unacked : SequenceNumber → PacketMap → PacketMap
retain_unacked ack_number [] = []
retain_unacked ack_number ((k, p) ∷ map) =
    let rest = retain_unacked ack_number map in
    if is_seq_less_equal p ack_number then rest else (k, p) ∷ rest

-- the sizes of those that it takes out
unfoldable pub acked_size : SequenceNumber → PacketMap → ℕ
acked_size ack_number [] = 0
acked_size ack_number ((k, p) ∷ map) =
    let rest = acked_size ack_number map in
    if is_seq_less_equal p ack_number then size p + rest else rest

unfoldable pub remove_packets : State → SequenceNumber → ℕ × State
unfolding retain_unacked acked_size
remove_packets s ack_number =
    let n = acked_size ack_number s.inflight_packets in
    (n, land (record s { inflight_packets = retain_unacked ack_number s.inflight_packets }) n)

-- `Map::remove`, and the size of what it gives
unfoldable pub remove : SequenceNumber → PacketMap → PacketMap
remove k [] = []
remove k ((k', p) ∷ map) = let rest = remove k map in if k == k' then map else (k', p) ∷ rest

abbrev pub size_of : Option Packet → ℕ
size_of none = 0
size_of (some p) = size p

unfoldable pub remove_packet : State → SequenceNumber → ℕ × State
unfolding remove
remove_packet s ack_number =
    let n = size_of (lookup ack_number s.inflight_packets) in
    (n, land (record s { inflight_packets = remove ack_number s.inflight_packets }) n)

-- `increment_seq`, with the previous value
abbrev pub increment_seq : State → SequenceNumber × State
increment_seq s = (s.seq_number, record s { seq_number = add s.seq_number 1 })
