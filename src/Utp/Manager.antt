-- ===== src/Utp/Manager.antt =====
-- src/utp/manager.rs, `UtpManager`: one end of a uTP connection, its state and what it sends. The fields
-- `socket`, `wire`, `messages`, `receiver_open` and `on_connected` stand for what is around it: the
-- answers that the socket will give (it would block behind them), the packets that it has taken, the
-- messages in the channel to the stream, whether that channel is open, and whether somebody waits for
-- the connection and is still there. The clock stands still while an event is handled. `none` is a panic.
pub mod Resend
pub mod Receive
pub mod Dispatch
pub mod Flight
pub mod Events
pub mod Steady
pub mod Timeout
pub mod Window
pub mod Send
pub mod Queue
pub mod Handshake
mod Tests
use rustorrent.Common.{
  ℕ, zero, suc, ◌+◌, ◌-◌, ◌*◌, Bool, true, false, ◌&&◌, ◌||◌, not, Option, none, some, List, [],
  ◌∷◌, ◌++◌, leb, ltb, if◌then◌else◌, length, take, drop, replicate,
}
use rustorrent.Common.Checked.{◌>>=◌}
use rustorrent.Common.Outcome.{ok, err, panic}
use rustorrent.Utp.Seq.{SequenceNumber}
use rustorrent.Utp.Delay.{DelayHistory}
use rustorrent.Utp.Packet.{
  ErrorKind, UtpError, send_would_block, io, must_close, PacketType, data_packet, fin, state, reset,
  syn, get_type, set_connection_id, set_window_size, set_ack_number, header_size,
}
use rustorrent.Utp.Datagram.{
  Packet, packet_new_in_place, payload_size, new_type, update_timestamp, set_packet_seq_number,
  size,
}
use rustorrent.Utp.Ack.{AckedBitfield, acked_default, bytes_for_packet, current}
use rustorrent.Utp.Stream.{ReceivedData, PacketMap}
use rustorrent.Utp.State.{
  State, syn_sent, must_connect, UtpState, utp_state_to_u8, add_packet_inflight, increment_seq,
}
use rustorrent.Utp.Datagram.{add_selective_acks}

-- `NeedToSend`, the bits RESEND, RESEND_ONLY_LOST and SEND_STATE of its byte
pub record NeedToSend : Type 0 where
  pub resend : Bool
  pub resend_only_lost : Bool
  pub send_state_bit : Bool

pub data Answer : Type 0 where
  taken blocked : Answer
  failed : ErrorKind → Answer

pub record Time : Type 0 where
  pub instant : ℕ
  pub timestamp : ℕ

pub record UtpManager : Type 0 where
  pub utp : State
  pub is_ipv4 : Bool
  pub ack_bitfield : AckedBitfield
  pub to_send : List Packet
  pub need_send : NeedToSend
  pub timeout : ℕ
  pub ntimeout : ℕ
  pub on_receive_recv : Bool
  pub on_connected : Option Bool
  pub ack_duplicate : ℕ
  pub last_ack : SequenceNumber
  pub delay_history : DelayHistory
  pub tmp_packet_losts : List SequenceNumber
  pub nlost : ℕ
  pub slow_start : Bool
  pub next_cwnd_decrease : ℕ
  pub rtt : ℕ
  pub rtt_var : ℕ
  pub rto : ℕ
  pub received : ℕ
  pub socket : List Answer
  pub wire : List Packet
  pub messages : List ReceivedData
  pub receiver_open : Bool

-- What a method with `Result<()>` comes to: a panic, or its error, if any, and the manager.
abbrev pub Step : Type 0
Step = Option (Option UtpError × UtpManager)

-- `?` between two steps
infixl 5 ◌and_then◌
abbrev pub ◌and_then◌ : Step → (UtpManager → Step) → Step
none and_then k = none
some (some e, m) and_then k = some (some e, m)
some (none, m) and_then k = k m

abbrev pub millisecond : ℕ
millisecond = 1_000_000

abbrev pub set_need : UtpManager → NeedToSend → UtpManager
set_need m n = record m { need_send = n }

abbrev pub set_utp : UtpManager → State → UtpManager
set_utp m s = record m { utp = s }

abbrev pub answered : Answer → UtpManager → Packet → Option UtpError × UtpManager
answered taken m packet = (none, record m { wire = m.wire ++ packet ∷ [] })
answered blocked m packet = (some send_would_block, m)
answered (failed kind) m packet = (some (io kind), m)

-- `try_send_to`
unfoldable pub try_send_to : UtpManager → Packet → Option UtpError × UtpManager
try_send_to m packet = elim m.socket [
  | [] ↦ (some send_would_block, m)
  | a ∷ rest ↦ answered a (record m { socket = rest }) packet
]

-- `UDP_IPV4_MTU - HEADER_SIZE`, and of IPv6
unfoldable pub packet_size : UtpManager → ℕ
packet_size m =
    if m.is_ipv4
    then 1500 - 20 - 8 - 24 - 8 - 2 - 36 - header_size
    else 1500 - 40 - 8 - 24 - 8 - 2 - 36 - header_size

unfoldable pub is_window_large_enough : UtpManager → ℕ → Bool
is_window_large_enough m n = leb (n + m.utp.in_flight) m.utp.cwnd

-- the header's fields that every packet is given
abbrev pub addressed : UtpManager → SequenceNumber → ℕ → Packet → Packet
addressed m ack_number timestamp p =
    let acked = record p { header = set_ack_number p.header ack_number } in
    let numbered = set_packet_seq_number acked m.utp.seq_number in
    let sized = record numbered {
      header = set_window_size (set_connection_id numbered.header m.utp.send_id) 1_048_576;
    } in
    update_timestamp sized timestamp

pub data SendPush : Type 0 where
  front back : SendPush

abbrev pub pushed : SendPush → Packet → List Packet → List Packet
pushed back p packets = packets ++ p ∷ []
pushed front p packets = p ∷ packets

abbrev pub is_state : PacketType → Bool
is_state state = true
is_state _ = false

-- a packet that the socket has taken
abbrev pub after_sent : UtpManager → Packet → PacketType → UtpManager
after_sent m p ty =
    let flown = if is_state ty then m.utp else add_packet_inflight m.utp m.utp.seq_number p in
    set_utp m (increment_seq flown).1

abbrev pub after_try : SendPush → Packet → Option UtpError × UtpManager → Step
after_try place p (some e, m) = some (some e, record m { to_send = pushed place p m.to_send })
after_try place p (none, m) = elim (get_type p.header) [
  | ok ty ↦ some (none, after_sent m p ty)
  | err e ↦ some (some e, m)
  | panic ↦ none
]

unfoldable pub send_packet_inner : Time → UtpManager → Packet → SendPush → Step
unfolding try_send_to add_packet_inflight
send_packet_inner t m packet place = current m.ack_bitfield >>= λ ack_number.
    let p = addressed m ack_number t.timestamp packet in after_try place p (try_send_to m p)

-- `data.chunks(n)`, of at most so many bytes
unfoldable pub chunks : ℕ → ℕ → List ℕ → List (List ℕ)
chunks zero n xs = []
chunks (suc fuel) n [] = []
chunks (suc fuel) n (x ∷ xs) = take n (x ∷ xs) ∷ chunks fuel n (drop n (x ∷ xs))

abbrev pub packets_of : List (List ℕ) → Option (List Packet)
packets_of [] = some []
packets_of (c ∷ cs) =
    packet_new_in_place (replicate payload_size 0) c >>= λ p. packets_of cs >>= λ ps. some (p ∷ ps)

-- the loop of `send`, and the packets that it leaves
unfoldable pub send_loop : Time → UtpManager → List Packet → Option UtpManager
unfolding send_packet_inner is_window_large_enough
send_loop t m [] = some m
send_loop t m (p ∷ ps) = elim (is_window_large_enough m (size p)) [
  | false ↦ some (record m { to_send = m.to_send ++ p ∷ ps })
  | true ↦ send_packet_inner t m p back >>= λ r. elim r.0 [
    | some _ ↦ let m' = r.1 in some (record m' { to_send = m'.to_send ++ ps })
    | none ↦ send_loop t r.1 ps
  ]
]

unfoldable pub send : Time → UtpManager → List ℕ → Option UtpManager
unfolding send_loop chunks packet_size
send t m bytes = packets_of (chunks (length bytes) (packet_size m) bytes) >>= send_loop t m

-- `send_state`
abbrev pub state_packet : UtpManager → Time → Option Packet
state_packet m t = current m.ack_bitfield >>= λ ack_number.
    new_type state >>= λ p. some (addressed m ack_number t.timestamp p)

abbrev pub with_acks : Packet → Option (List ℕ) → Option Packet
with_acks p none = some p
with_acks p (some bytes) = add_selective_acks p bytes

abbrev pub need_state : UtpManager → Bool → UtpManager
need_state m bit = set_need m (record (m.need_send) { send_state_bit = bit })

abbrev pub after_state : Time → Option UtpError × UtpManager → UtpManager
after_state t (none, m) = record (need_state m false) { timeout = t.instant + 500 * millisecond }
after_state t (some _, m) = m

unfoldable pub send_state : Time → UtpManager → Option UtpManager
unfolding try_send_to bytes_for_packet
send_state t m =
    let needed = need_state m true in
    state_packet needed t >>= λ p. bytes_for_packet m.ack_bitfield >>= λ bytes.
    with_acks p bytes >>= λ p'. some (after_state t (try_send_to needed p'))

-- `send_syn`
abbrev pub syn_packet : UtpManager → Time → Option Packet
syn_packet m t = new_type syn >>= λ p.
    let id = record p { header = set_connection_id p.header m.utp.recv_id } in
    let numbered = set_packet_seq_number id m.utp.seq_number in
    let sized = record numbered { header = set_window_size numbered.header 1_048_576 } in
    some (update_timestamp sized t.timestamp)

abbrev pub after_syn : SequenceNumber → Packet → Option UtpError × UtpManager → Step
after_syn seq p (some e, m) = some (some e, record m { to_send = m.to_send ++ p ∷ [] })
after_syn seq p (none, m) =
    let sent = record (m.utp) { utp_state = syn_sent } in
    some (none, set_utp m (add_packet_inflight sent seq p))

unfoldable pub send_syn : Time → UtpManager → Step
unfolding try_send_to add_packet_inflight
send_syn t m = syn_packet m t >>= λ p.
    after_syn m.utp.seq_number p (try_send_to (set_utp m (increment_seq m.utp).1) p)

-- `ensure_connected`, with the `unwrap` of `send_packet`
abbrev pub unwrapped : Step → Option UtpManager
unwrapped none = none
unwrapped (some (none, m)) = some m
unwrapped (some (some e, m)) = none

unfoldable pub ensure_connected : Time → UtpManager → Option UtpManager
unfolding send_syn
ensure_connected t m = elim m.utp.utp_state [ must_connect ↦ unwrapped (send_syn t m) | _ ↦ some m ]

-- `send_fin`, as the manager is dropped
unfoldable pub send_fin : Time → UtpManager → Option UtpManager
unfolding try_send_to
send_fin t m = current m.ack_bitfield >>= λ ack_number.
    new_type fin >>= λ p. some (try_send_to m (addressed m ack_number t.timestamp p)).1
