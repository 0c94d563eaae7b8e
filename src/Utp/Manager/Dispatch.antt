-- ===== src/Utp/Manager/Dispatch.antt =====
-- src/utp/manager.rs, `dispatch`, `on_timeout`, `process_incoming` and the loop of `start`: the manager on
-- an event. `none` is a panic, or an endless loop over an extension of no bytes. The random number and
-- `gain` are arguments.
use rustorrent.Common.{
  ℕ, ◌+◌, ◌*◌, Bool, true, false, not, ◌&&◌, ◌||◌, Option, none, some, List, [], ◌∷◌, leb, ltb,
  ◌==◌, if◌then◌else◌, length, wrapping_add,
}
use rustorrent.Common.Checked.{◌>>=◌}
use rustorrent.Common.Outcome.{ok, err, panic}
use rustorrent.Utp.Seq.{SequenceNumber, sub}
use rustorrent.Utp.Packet.{
  UtpError, packet_lost, must_close, send_would_block, io, timed_out, PacketType, data_packet, fin,
  state, reset, syn, get_type, get_window_size, get_ack_number, get_seq_number, get_connection_id,
}
use rustorrent.Utp.Datagram.{Packet, size, get_data}
use rustorrent.Utp.Ack.{ack, init, AckedBitfield}
use rustorrent.Utp.Stream.{data_of, first_sequence, done}
use rustorrent.Utp.State.{
  UtpState, not_connected, syn_received, syn_sent, connected, remove_packets,
}
use rustorrent.Utp.Manager.{
  UtpManager, Time, Step, ◌and_then◌, millisecond, set_utp, send_state, send,
  is_window_large_enough, send_packet_inner, front, ensure_connected, send_fin,
}
use rustorrent.Utp.Manager.Resend.{resend_packets}
use rustorrent.Utp.Manager.Receive.{
  UtpEvent, incoming_packet, timeout_event, writable, user_write, push_message, handle_state,
}

abbrev pub is_sending : UtpState → Bool
is_sending syn_sent = true
is_sending connected = true
is_sending _ = false

abbrev pub is_syn_sent : UtpState → Bool
is_syn_sent syn_sent = true
is_syn_sent _ = false

-- `notify_finish`; the channel has no bound.
abbrev pub notify_finish : UtpManager → Step
notify_finish m = elim (push_message done m) [
  | none ↦ some (some must_close, m)
  | some m' ↦ some (none, m')
]

-- `Instant::now() + Duration::from_millis(self.rto)`
abbrev pub set_timeout : Time → UtpManager → UtpManager
set_timeout t m = record m { timeout = t.instant + m.rto * millisecond }

abbrev pub count_timeout : UtpManager → Step
count_timeout m =
    if ltb 0 m.utp.in_flight
    then some (none, record m { ntimeout = m.ntimeout + 1 })
    else if length m.to_send == 0
    then notify_finish m
    else some (none, m)

unfoldable pub on_timeout : Time → UtpManager → Step
unfolding resend_packets
on_timeout t m =
    if is_syn_sent m.utp.utp_state && leb 3 m.ntimeout || leb 7 m.ntimeout
    then some (some (io timed_out), m)
    else (if is_sending m.utp.utp_state && ltb 0 m.utp.in_flight
        then resend_packets t m false
        else some (none, m))
      and_then count_timeout
      and_then λ m'. some (none, set_timeout t m')

-- `if let Some(notify) = self.on_connected.take()`, and what follows: the stream is taken, and the one
-- who waits is told
unfoldable pub notify_connected : UtpManager → Option UtpManager
notify_connected m = elim m.on_connected [
  | none ↦ some m
  | some there ↦
      if m.on_receive_recv && there
      then some (record m { on_connected = none; on_receive_recv = false })
      else none
]

-- the arm of Data that is first told of: the connection is made, and the stream's first number sent
unfoldable pub notify_first : SequenceNumber → UtpManager → Option UtpManager
unfolding notify_connected
notify_first seq m = elim m.on_connected [
  | none ↦ some m
  | some _ ↦
      notify_connected (set_utp m (record (m.utp) { utp_state = connected }))
      >>= push_message (first_sequence seq)
]

abbrev pub with_ack : UtpManager → AckedBitfield → UtpManager
with_ack m b = record m { ack_bitfield = b }

abbrev pub went_well : Option UtpManager → Step
went_well o = o >>= λ m. some (none, m)

-- the arm (Syn, None)
abbrev pub accepting : SequenceNumber → Packet → UtpManager → UtpManager
accepting random packet m =
    let id = get_connection_id packet.header in
    set_utp m (record (m.utp) {
      utp_state = syn_received;
      recv_id = wrapping_add 16 id 1;
      send_id = id;
      seq_number = random;
      remote_window = get_window_size packet.header;
    })

unfoldable pub on_syn : Time → SequenceNumber → Packet → UtpManager → Option UtpManager
unfolding init send_state
on_syn t random packet m = init m.ack_bitfield (get_seq_number packet.header) >>= λ b.
    send_state t (with_ack (accepting random packet m) b)

-- the arm (State, SynSent)
unfoldable pub on_connect : Packet → UtpManager → Option UtpManager
unfolding ack notify_connected remove_packets
on_connect packet m =
    let s = record (m.utp) {
      utp_state = connected;
      remote_window = get_window_size packet.header;
    } in
    ack m.ack_bitfield (sub (get_seq_number packet.header) 1) >>= λ b.
    notify_connected (with_ack (set_utp m s) b) >>= λ m'.
    some (set_utp m' (remove_packets m'.utp (get_ack_number packet.header)).1)

-- the arm (Data, _)
unfoldable pub on_data : Time → Packet → UtpManager → Option UtpManager
unfolding ack notify_first get_data send_state
on_data t packet m =
    let seq = get_seq_number packet.header in
    notify_first seq m >>= λ m₁. ack m₁.ack_bitfield seq >>= λ b. get_data packet >>= λ bytes.
    push_message (data_of packet) (record (with_ack m₁ b) { received = m₁.received + length bytes })
    >>= send_state t

module _ (gain : ℕ → ℕ → ℕ → Option ℕ) where
  -- the arm (State, Connected), with the panic on a window that changes
  unfoldable pub on_state : Time → ℕ → Packet → UtpManager → Step
  unfolding handle_state
  on_state t at_time packet m =
      if m.utp.remote_window == get_window_size packet.header
      then handle_state gain t at_time packet m
      else none

  unfoldable pub dispatch_type :
      Time → SequenceNumber → ℕ → Packet → UtpManager → PacketType → UtpState → Step
  unfolding on_syn on_connect on_data on_state
  dispatch_type t random at_time packet m syn not_connected = went_well (on_syn t random packet m)
  dispatch_type t random at_time packet m syn _ = some (none, m)
  dispatch_type t random at_time packet m state syn_sent = went_well (on_connect packet m)
  dispatch_type t random at_time packet m state connected = on_state t at_time packet m
  dispatch_type t random at_time packet m state _ = some (none, m)
  dispatch_type t random at_time packet m data_packet _ = went_well (on_data t packet m)
  dispatch_type t random at_time packet m fin _ = some (some must_close, m)
  dispatch_type t random at_time packet m reset _ = some (some must_close, m)

  unfoldable pub dispatch : Time → SequenceNumber → Packet → UtpManager → Step
  unfolding dispatch_type get_type
  dispatch t random packet m = elim (get_type packet.header) [
    | panic ↦ none
    | err e ↦ some (some e, m)
    | ok ty ↦ packet.received_at >>= λ at_time.
        dispatch_type t random at_time packet (set_timeout t (record m { ntimeout = 0 })) ty
          m.utp.utp_state
  ]

-- the loop of `Writable` over the queue
unfoldable pub drain : Time → List Packet → UtpManager → Step
unfolding is_window_large_enough send_packet_inner
drain t [] m = some (none, record m { to_send = [] })
drain t (p ∷ ps) m = elim (is_window_large_enough m (size p)) [
  | false ↦ some (none, record m { to_send = p ∷ ps })
  | true ↦ send_packet_inner t (record m { to_send = ps }) p front >>= λ r. elim r.0 [
    | some _ ↦ some r
    | none ↦ drain t ps r.1
  ]
]

abbrev pub resend_needed : Time → UtpManager → Step
resend_needed t m =
    if m.need_send.resend || m.need_send.resend_only_lost
    then resend_packets t m m.need_send.resend_only_lost
    else some (none, m)

-- the arm of Writable
unfoldable pub on_writable : Time → UtpManager → Step
unfolding send_state resend_packets drain
on_writable t m = (if m.need_send.send_state_bit then send_state t m else some m) >>= λ m₁.
    resend_needed t m₁ and_then λ m₂. drain t m₂.to_send m₂

abbrev pub or_resend : Time → Option UtpError × UtpManager → Step
or_resend t (some packet_lost, m) = resend_packets t m true
or_resend t r = some r

abbrev pub Event : Type 0
Event = Time × SequenceNumber × UtpEvent

-- whether `receive_timeout` lets an event come: the socket is asked only when there is something to
-- send.
abbrev pub need_to_send : UtpManager → Bool
need_to_send m =
    (m.need_send.resend || m.need_send.resend_only_lost || m.need_send.send_state_bit)
    || not (length m.to_send == 0)

abbrev pub receive_timeout : UtpEvent → UtpManager → Bool
receive_timeout writable m = need_to_send m
receive_timeout _ m = true

module _ (gain : ℕ → ℕ → ℕ → Option ℕ) where
  unfoldable pub process_incoming : Event → UtpManager → Step
  unfolding dispatch on_timeout on_writable send resend_packets
  process_incoming (t, random, incoming_packet packet) m =
      dispatch gain t random packet m >>= or_resend t
  process_incoming (t, random, timeout_event) m =
      if ltb m.timeout t.instant then on_timeout t m else some (none, m)
  process_incoming (t, random, writable) m = on_writable t m
  process_incoming (t, random, user_write bytes) m = went_well (send t m bytes)

  -- The loop of `start` on the events that come before its channel is closed. A socket that would block
  -- is no error.
  unfoldable pub run : List Event → UtpManager → Step
  unfolding process_incoming
  run [] m = some (none, m)
  run ((t, random, event) ∷ events) m = elim (receive_timeout event m) [
    | false ↦ run events m
    | true ↦ process_incoming (t, random, event) m >>= λ r. elim r.0 [
      | none ↦ run events r.1
      | some send_would_block ↦ run events r.1
      | some e ↦ some (some e, r.1)
    ]
  ]

  -- `start`, with the packet of Fin that `drop` sends
  unfoldable pub start : Time → List Event → Time → UtpManager → Step
  unfolding ensure_connected run send_fin
  start t events last m = ensure_connected t m >>= λ m₁.
      run events m₁ >>= λ r. send_fin last r.1 >>= λ m₂. some (r.0, m₂)
