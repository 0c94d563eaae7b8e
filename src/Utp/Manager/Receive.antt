-- ===== src/Utp/Manager/Receive.antt =====
-- src/utp/manager.rs, `UtpManager`: what it does with an event. `none` is a panic, or the loop over an
-- extension of no bytes that does not end. `gain`, of the bytes newly acked, those in flight and the
-- lowest relative delay, is what the crate `fixed` computes in `apply_congestion_control`, as the bits
-- of its i32, or its panic. Sums of fixed width wrap, as in a release build.
use rustorrent.Common.{
  ℕ, zero, suc, ◌+◌, ◌-◌, ◌*◌, ◌/◌, ◌%◌, ◌^◌, Bool, true, false, ◌||◌, Option, none, some, List, [],
  ◌∷◌, ◌++◌, leb, ltb, ◌==◌, if◌then◌else◌, length, min, max, wrapping_add,
}
use rustorrent.Common.Checked.{◌>>=◌}
use rustorrent.Utp.Seq.{SequenceNumber, add}
use rustorrent.Utp.Delay.{elapsed_millis, add_delay, lowest_relative, new}
use rustorrent.Utp.Packet.{
  packet_lost, get_timestamp, get_timestamp_diff, get_ack_number, has_extension,
}
use rustorrent.Utp.Datagram.{Packet, size, is_seq_less_equal}
use rustorrent.Utp.Sack.{
  SelectiveAckBit, acked, missing, ExtensionIterator, iter_sacks, yields, ends, out_of_fuel,
  next_sack, has_missing_ack, collect,
}
use rustorrent.Utp.Ack.{acked_default}
use rustorrent.Utp.Stream.{ReceivedData, PacketMap, lookup}
use rustorrent.Utp.State.{State, land, remove, remove_packets, min_cwnd, mss}
use rustorrent.Utp.Manager.{
  UtpManager, NeedToSend, Answer, Time, Step, millisecond, set_utp, packet_size,
}

pub data UtpEvent : Type 0 where
  incoming_packet : Packet → UtpEvent
  timeout_event writable : UtpEvent
  user_write : List ℕ → UtpEvent

-- `NeedToSend::new`
abbrev pub need_to_send_new : NeedToSend
need_to_send_new = record { resend = false; resend_only_lost = false; send_state_bit = false }

-- `new_with_state`, with what is around the manager
abbrev pub new_with_state : ℕ → State → Bool → Option Bool → List Answer → UtpManager
new_with_state now s is_ipv4 on_connected socket = record {
  utp = s;
  is_ipv4 = is_ipv4;
  ack_bitfield = acked_default;
  to_send = [];
  need_send = need_to_send_new;
  timeout = now + 3000 * millisecond;
  ntimeout = 0;
  on_receive_recv = true;
  on_connected = on_connected;
  ack_duplicate = 0;
  last_ack = 0;
  delay_history = new now;
  tmp_packet_losts = [];
  nlost = 0;
  slow_start = true;
  next_cwnd_decrease = now;
  rtt = 0;
  rtt_var = 0;
  rto = 0;
  received = 0;
  socket = socket;
  wire = [];
  messages = [];
  receiver_open = true;
}

-- `rtt_var + (|delta| - rtt_var) / 4`, where `/` drops the fraction on both sides of zero
abbrev pub smoothed : ℕ → ℕ → ℕ
smoothed rtt_var delta =
    if leb rtt_var delta then rtt_var + (delta - rtt_var) / 4 else rtt_var - (rtt_var - delta) / 4

abbrev pub update_rtt_by : ℕ → ℕ × ℕ → ℕ × ℕ
update_rtt_by rtt_packet (rtt, rtt_var) = if rtt == 0 then (rtt_packet, rtt_packet / 2) else (
  rtt - rtt / 8 + rtt_packet / 8,
  smoothed rtt_var (max rtt rtt_packet - min rtt rtt_packet),
)

unfoldable pub update_rtt : Packet → ℕ → ℕ × ℕ → ℕ × ℕ
unfolding elapsed_millis
update_rtt packet ack_received_at rtts =
    if packet.resent
    then rtts
    else update_rtt_by (elapsed_millis (get_timestamp packet.header) ack_received_at) rtts

-- the round trips that `retain` measures on its way
unfoldable pub update_rtts : SequenceNumber → ℕ → PacketMap → ℕ × ℕ → ℕ × ℕ
unfolding update_rtt
update_rtts ack_number at_time [] rtts = rtts
update_rtts ack_number at_time ((k, p) ∷ map) rtts =
    update_rtts ack_number at_time map
      (if is_seq_less_equal p ack_number then update_rtt p at_time rtts else rtts)

abbrev pub set_rtts : UtpManager → ℕ × ℕ → UtpManager
set_rtts m rtts = record m { rtt = rtts.0; rtt_var = rtts.1 }

unfoldable pub ack_packets : SequenceNumber → ℕ → UtpManager → ℕ × UtpManager
unfolding update_rtts remove_packets
ack_packets ack_number at_time m =
    let rtts = update_rtts ack_number at_time m.utp.inflight_packets (m.rtt, m.rtt_var) in
    let (n, s) = remove_packets m.utp ack_number in (n, set_utp (set_rtts m rtts) s)

unfoldable pub ack_one_packet : SequenceNumber → ℕ → UtpManager → ℕ × UtpManager
unfolding update_rtt remove
ack_one_packet ack_number at_time m = elim (lookup ack_number m.utp.inflight_packets) [
  | none ↦ (0, m)
  | some p ↦ (
    size p,
    set_utp (set_rtts m (update_rtt p at_time (m.rtt, m.rtt_var))) (
        land (record (m.utp) { inflight_packets = remove ack_number m.utp.inflight_packets })
          (size p)),
  )
]

-- `get_mut` on the map, and `lost` set
unfoldable pub lose : SequenceNumber → PacketMap → PacketMap
lose seq [] = []
lose seq ((k, p) ∷ map) =
    if seq == k then (k, record p { lost = true }) ∷ map else (k, p) ∷ lose seq map

unfoldable pub lose_all : List SequenceNumber → PacketMap → PacketMap
unfolding lose
lose_all [] map = map
lose_all (seq ∷ seqs) map = lose_all seqs (lose seq map)

unfoldable pub mark_packets_as_lost : UtpManager → UtpManager
unfolding lose_all
mark_packets_as_lost m = record m {
  utp = record (m.utp) { inflight_packets = lose_all m.tmp_packet_losts m.utp.inflight_packets };
  tmp_packet_losts = [];
}

-- `(cwnd as i32 + gain).max(0) as u32`
abbrev pub gained : ℕ → ℕ → ℕ
gained cwnd gain = let sum = wrapping_add 32 cwnd gain in if ltb sum (2 ^ 31) then sum else 0

abbrev pub set_cwnd : UtpManager → ℕ → UtpManager
set_cwnd m cwnd = set_utp m (record (m.utp) { cwnd = cwnd })

abbrev pub push_message : ReceivedData → UtpManager → Option UtpManager
push_message msg m =
    if m.receiver_open then some (record m { messages = m.messages ++ msg ∷ [] }) else none

module _ (gain : ℕ → ℕ → ℕ → Option ℕ) where
  abbrev pub new_cwnd : UtpManager → ℕ → ℕ → Option ℕ
  new_cwnd m newly in_flight =
      if m.slow_start
      then some ((m.utp.cwnd + newly) % 2 ^ 32)
      else (gain newly in_flight (lowest_relative m.delay_history) >>= λ g.
          some (gained m.utp.cwnd g))

  unfoldable pub apply_congestion_control : UtpManager → ℕ → ℕ → Option UtpManager
  unfolding lowest_relative packet_size
  apply_congestion_control m newly in_flight =
      if ltb m.utp.cwnd (in_flight + newly + packet_size m)
      then (new_cwnd m newly in_flight >>= λ cwnd. some (set_cwnd m (min m.utp.remote_window cwnd)))
      else some m

-- the bits of a selective ack, with the bytes newly acked
abbrev pub handle_bit : ℕ → SelectiveAckBit → ℕ × UtpManager → ℕ × UtpManager
handle_bit at_time (missing seq) (n, m) =
    (n, record m { tmp_packet_losts = m.tmp_packet_losts ++ seq ∷ [] })
handle_bit at_time (acked seq) (n, m) = let (k, m') = ack_one_packet seq at_time m in (n + k, m')

unfoldable pub handle_bits : ℕ → List SelectiveAckBit → ℕ × UtpManager → ℕ × UtpManager
unfolding ack_one_packet
handle_bits at_time [] acc = acc
handle_bits at_time (bit ∷ bits) acc = handle_bits at_time bits (handle_bit at_time bit acc)

-- The loop over a packet's selective acks, with whether a packet is lost. An ack takes two bytes of the
-- slice or more, and so does any extension but one of no bytes.
unfoldable pub handle_sacks :
    ℕ → ℕ → ExtensionIterator → Bool × ℕ × UtpManager → Option (Bool × ℕ × UtpManager)
unfolding handle_bits next_sack has_missing_ack collect
handle_sacks zero at_time it acc = none
handle_sacks (suc fuel) at_time it (lost, n, m) =
    elim (next_sack (suc (suc (length it.slice))) it) [
      | out_of_fuel ↦ none
      | ends _ ↦ some (lost, n, m)
      | yields sack it' ↦
          let (n', m') = handle_bits at_time (collect (length sack.bitfield * 8 + 2) sack) (n, m) in
          handle_sacks fuel at_time it' (has_missing_ack sack.bitfield || lost, n', m')
    ]

unfoldable pub handle_extensions :
    ℕ → Packet → Bool × ℕ × UtpManager → Option (Bool × ℕ × UtpManager)
unfolding handle_sacks has_extension
handle_extensions at_time packet acc =
    if has_extension packet.header
    then handle_sacks (suc (packet.payload.len)) at_time (iter_sacks packet) acc
    else some acc

-- whether the ack is the third of the same number or a later one, and the manager
unfoldable pub count_duplicate : SequenceNumber → UtpManager → Bool × UtpManager
count_duplicate ack_number m =
    if m.last_ack == ack_number
    then (let n = min (m.ack_duplicate + 1) 255 in
        let counted = record m { ack_duplicate = n } in
        if leb 3 n
        then (
          true,
          record counted { tmp_packet_losts = m.tmp_packet_losts ++ add ack_number 1 ∷ [] },
        )
        else (false, counted))
    else (false, record m { ack_duplicate = 0; last_ack = ack_number })

-- `if lost { … }`, but for its error
unfoldable pub after_loss : Time → UtpManager → UtpManager
unfolding mark_packets_as_lost
after_loss t m =
    let calmed =
      if ltb m.next_cwnd_decrease t.instant
      then record (set_cwnd m (min m.utp.cwnd (max (m.utp.cwnd / 2) (min_cwnd * mss)))) {
        next_cwnd_decrease = t.instant + 100 * millisecond;
      }
      else m in
    mark_packets_as_lost
      (record calmed { slow_start = false; nlost = m.nlost + length m.tmp_packet_losts })

module _ (gain : ℕ → ℕ → ℕ → Option ℕ) where
  -- the part on the packet's `get_timestamp_diff`
  unfoldable pub handle_delay : Time → ℕ → Bool → ℕ → ℕ → UtpManager → Option UtpManager
  unfolding apply_congestion_control add_delay
  handle_delay t delay lost newly in_flight m =
      if delay == 0
      then some m
      else (let told = record m {
        delay_history = add_delay m.delay_history delay t.instant t.instant;
      } in
          if lost then some told else apply_congestion_control gain told newly in_flight)

  unfoldable pub handle_state : Time → ℕ → Packet → UtpManager → Step
  unfolding ack_packets count_duplicate handle_extensions handle_delay after_loss
  handle_state t at_time packet m =
      let ack_number = get_ack_number packet.header in
      let (n, m₁) = ack_packets ack_number at_time m in
      let (duplicate, m₂) = count_duplicate ack_number m₁ in
      handle_extensions at_time packet (duplicate, n, m₂) >>= λ (lost, newly, m₃).
      handle_delay t (get_timestamp_diff packet.header) lost newly m.utp.in_flight m₃ >>= λ m₄.
      some (
        if lost
        then (some packet_lost, after_loss t m₄)
        else (none, record m₄ { rto = max 500 (m₄.rtt + m₄.rtt_var * 4) }))
