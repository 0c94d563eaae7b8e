-- ===== src/Utp/Manager/Steady.antt =====
-- src/utp/manager.rs, `process_incoming`: the bytes in flight and the packets in flight, over an event
-- from the other end or from the clock.
use rustorrent.Common.{
  ℕ, ◌+◌, ◌≡◌, Bool, true, false, ◌&&◌, ◌||◌, Option, none, some, [], ◌∷◌, if◌then◌else◌, leb, ◌++◌,
  arith, ltb, ◌==◌, length,
}
use rustorrent.Common.Checked.{◌>>=◌, Ensures, bind-Ensures, if-Ensures, trivial-Ensures}
use rustorrent.Common.Outcome.{ok, err, panic}
use rustorrent.Utp.Seq.{SequenceNumber, sub}
use rustorrent.Utp.Packet.{
  UtpError, PacketType, data_packet, fin, state, reset, syn, get_type, get_ack_number,
  get_seq_number, get_window_size, packet_lost, must_close, io, timed_out,
}
use rustorrent.Utp.Datagram.{Packet, get_data}
use rustorrent.Utp.Ack.{ack, init}
use rustorrent.Utp.Stream.{ReceivedData, data_of, first_sequence, done}
use rustorrent.Utp.State.{UtpState, not_connected, syn_sent, connected}
use rustorrent.Utp.State.Flight.{remove_packets-IsFlight}
use rustorrent.Utp.Manager.{UtpManager, Time, Step, ◌and_then◌, set_utp, send_state}
use rustorrent.Utp.Manager.Resend.{resend_packets}
use rustorrent.Utp.Manager.Receive.{
  handle_state, UtpEvent, incoming_packet, timeout_event, writable, user_write, push_message,
}
use rustorrent.Utp.Manager.Dispatch.{
  on_timeout, count_timeout, set_timeout, is_syn_sent, is_sending, notify_finish, notify_connected,
  notify_first, on_syn, on_connect, on_data, on_state, dispatch_type, dispatch, or_resend,
  went_well, process_incoming, with_ack, accepting,
}
use rustorrent.Utp.Manager.Flight.{InFlight, StepInFlight, handle_state-InFlight}
use rustorrent.Utp.Manager.Events.{send_state-InFlight, resend_packets-InFlight}

and_then-InFlight :
    (s : Step) (k : UtpManager → Step)
    → StepInFlight s
    → ((m : UtpManager) → InFlight m → StepInFlight (k m))
    → StepInFlight (s and_then k)
and_then-InFlight none k h f = tt
and_then-InFlight (some (some e, m)) k h f = h
and_then-InFlight (some (none, m)) k h f = f m h

went_well-InFlight : (o : Option UtpManager) → Ensures InFlight o → StepInFlight (went_well o)
went_well-InFlight none h = tt
went_well-InFlight (some m) h = h

push_message-InFlight :
    (msg : ReceivedData) (m : UtpManager) → InFlight m → Ensures InFlight (push_message msg m)
push_message-InFlight msg m h =
    if-Ensures InFlight m.receiver_open (some (record m { messages = m.messages ++ msg ∷ [] })) none
      h tt

notify_finish-InFlight : (m : UtpManager) → InFlight m → StepInFlight (notify_finish m)
notify_finish-InFlight m h =
    elim m.receiver_open
      as (λ b.
        StepInFlight
          (elim (if b then some (record m { messages = m.messages ++ done ∷ [] }) else none)
            as (λ _. Step) [ none ↦ some (some must_close, m) | some m' ↦ some (none, m') ])) [
              | true ↦ h
              | false ↦ h
            ]

count_timeout-InFlight : (m : UtpManager) → InFlight m → StepInFlight (count_timeout m)
count_timeout-InFlight m h =
    if-Ensures (λ r. InFlight r.1) (ltb 0 m.utp.in_flight)
      (some (none, record m { ntimeout = m.ntimeout + 1 })) _ h
      (if-Ensures (λ r. InFlight r.1) (length m.to_send == 0) (notify_finish m) (some (none, m))
        (notify_finish-InFlight m h) h)

on_timeout-InFlight : (t : Time) (m : UtpManager) → InFlight m → StepInFlight (on_timeout t m)
unfolding on_timeout
on_timeout-InFlight t m h =
    let resent =
      if is_sending m.utp.utp_state && ltb 0 m.utp.in_flight
      then resend_packets t m false
      else some (none, m) in
    if-Ensures (λ r. InFlight r.1)
      (is_syn_sent m.utp.utp_state && leb 3 m.ntimeout || leb 7 m.ntimeout)
      (some (some (io timed_out), m))
      (resent and_then count_timeout and_then λ m'. some (none, set_timeout t m')) h
      (and_then-InFlight (resent and_then count_timeout) (λ m'. some (none, set_timeout t m'))
        (and_then-InFlight resent count_timeout
          (if-Ensures (λ r. InFlight r.1) (is_sending m.utp.utp_state && ltb 0 m.utp.in_flight)
            (resend_packets t m false) (some (none, m)) (resend_packets-InFlight t m false h) h)
          count_timeout-InFlight)
        (λ m' h'. h'))

notify_connected-InFlight : (m : UtpManager) → InFlight m → Ensures InFlight (notify_connected m)
unfolding notify_connected
notify_connected-InFlight m h =
    elim m.on_connected
      as (λ o. Ensures InFlight (elim o as (λ _. Option UtpManager) [
        | none ↦ some m
        | some there ↦
            if m.on_receive_recv && there
            then some (record m { on_connected = none; on_receive_recv = false })
            else none
      ])) [
        | none ↦ h
        | some there ↦
            if-Ensures InFlight (m.on_receive_recv && there)
              (some (record m { on_connected = none; on_receive_recv = false })) none h tt
      ]

notify_first-InFlight :
    (seq : SequenceNumber) (m : UtpManager) → InFlight m → Ensures InFlight (notify_first seq m)
unfolding notify_first
notify_first-InFlight seq m h =
    let s = set_utp m (record (m.utp) { utp_state = connected }) in
    elim m.on_connected
      as (λ o. Ensures InFlight (elim o as (λ _. Option UtpManager) [
        | none ↦ some m
        | some _ ↦ notify_connected s >>= push_message (first_sequence seq)
      ])) [
        | none ↦ h
        | some _ ↦
            bind-Ensures InFlight InFlight (notify_connected s) (push_message (first_sequence seq))
              (notify_connected-InFlight s h) (push_message-InFlight (first_sequence seq))
      ]

on_syn-InFlight :
    (t : Time) (random : SequenceNumber) (packet : Packet) (m : UtpManager)
    → InFlight m
    → Ensures InFlight (on_syn t random packet m)
unfolding on_syn
on_syn-InFlight t random packet m h =
    let o = init m.ack_bitfield (get_seq_number packet.header) in
    bind-Ensures (λ _. Unit) InFlight o _ (trivial-Ensures o)
      (λ b _. send_state-InFlight t (with_ack (accepting random packet m) b) h)

on_connect-InFlight :
    (packet : Packet) (m : UtpManager) → InFlight m → Ensures InFlight (on_connect packet m)
unfolding on_connect
on_connect-InFlight packet m h =
    let o = ack m.ack_bitfield (sub (get_seq_number packet.header) 1) in
    bind-Ensures (λ _. Unit) InFlight o _ (trivial-Ensures o)
      (λ b _.
        let s = record (m.utp) {
          utp_state = connected;
          remote_window = get_window_size packet.header;
        } in
        let known = with_ack (set_utp m s) b in
        bind-Ensures InFlight InFlight (notify_connected known) _
          (notify_connected-InFlight known h)
          (λ m' h'. remove_packets-IsFlight m'.utp (get_ack_number packet.header) h'))

on_data-InFlight :
    (t : Time) (packet : Packet) (m : UtpManager)
    → InFlight m
    → Ensures InFlight (on_data t packet m)
unfolding on_data
on_data-InFlight t packet m h =
    let seq = get_seq_number packet.header in
    bind-Ensures InFlight InFlight (notify_first seq m) _ (notify_first-InFlight seq m h) (λ m₁ h₁.
      let o = ack m₁.ack_bitfield seq in
      bind-Ensures (λ _. Unit) InFlight o _ (trivial-Ensures o)
        (λ b _.
          bind-Ensures (λ _. Unit) InFlight (get_data packet) _ (trivial-Ensures (get_data packet))
            (λ bytes _.
              let got = record (with_ack m₁ b) { received = m₁.received + length bytes } in
              bind-Ensures InFlight InFlight (push_message (data_of packet) got) (send_state t)
                (push_message-InFlight (data_of packet) got h₁) (send_state-InFlight t))))

or_resend-InFlight :
    (t : Time) (e : Option UtpError) (m : UtpManager)
    → InFlight m
    → StepInFlight (or_resend t (e, m))
or_resend-InFlight t (some packet_lost) m h = resend_packets-InFlight t m true h
or_resend-InFlight t e m h = h

-- whether an event comes from the other end or from the clock
abbrev pub is_received : UtpEvent → Bool
is_received (incoming_packet packet) = true
is_received timeout_event = true
is_received _ = false

module _ (gain : ℕ → ℕ → ℕ → Option ℕ) where
  dispatch_type-InFlight :
      (t : Time) (random : SequenceNumber) (at_time : ℕ) (packet : Packet) (m : UtpManager)
      (ty : PacketType) (s : UtpState)
      → InFlight m
      → StepInFlight (dispatch_type gain t random at_time packet m ty s)
  unfolding dispatch_type on_state
  dispatch_type-InFlight t random at_time packet m syn not_connected h =
      went_well-InFlight (on_syn t random packet m) (on_syn-InFlight t random packet m h)
  dispatch_type-InFlight t random at_time packet m syn _ h = h
  dispatch_type-InFlight t random at_time packet m state syn_sent h =
      went_well-InFlight (on_connect packet m) (on_connect-InFlight packet m h)
  dispatch_type-InFlight t random at_time packet m state connected h =
      if-Ensures (λ r. InFlight r.1) (m.utp.remote_window == get_window_size packet.header)
        (handle_state gain t at_time packet m) none
        (handle_state-InFlight gain t at_time packet m h) tt
  dispatch_type-InFlight t random at_time packet m state _ h = h
  dispatch_type-InFlight t random at_time packet m data_packet _ h =
      went_well-InFlight (on_data t packet m) (on_data-InFlight t packet m h)
  dispatch_type-InFlight t random at_time packet m fin _ h = h
  dispatch_type-InFlight t random at_time packet m reset _ h = h

  dispatch-InFlight :
      (t : Time) (random : SequenceNumber) (packet : Packet) (m : UtpManager)
      → InFlight m
      → StepInFlight (dispatch gain t random packet m)
  unfolding dispatch
  dispatch-InFlight t random packet m h =
      let ready = set_timeout t (record m { ntimeout = 0 }) in
      elim (get_type packet.header)
        as (λ o. StepInFlight (elim o as (λ _. Step) [
          | panic ↦ none
          | err e ↦ some (some e, m)
          | ok ty ↦ packet.received_at >>= λ at_time.
              dispatch_type gain t random at_time packet ready ty m.utp.utp_state
        ])) [
          | panic ↦ tt
          | err e ↦ h
          | ok ty ↦
              bind-Ensures (λ _. Unit) (λ r. InFlight r.1) packet.received_at _
                (trivial-Ensures packet.received_at)
                (λ at_time _.
                  dispatch_type-InFlight t random at_time packet ready ty m.utp.utp_state h)
        ]

  -- When the bytes in flight are the sizes of the packets in flight, they are after any packet that comes
  -- in, or any tick of the clock, whether it ends well or in an error.
  pub process_incoming-InFlight :
      (t : Time) (random : SequenceNumber) (event : UtpEvent) (m : UtpManager)
      → is_received event ≡ true
      → InFlight m
      → StepInFlight (process_incoming gain (t, random, event) m)
  unfolding process_incoming
  process_incoming-InFlight t random (incoming_packet packet) m r h =
      bind-Ensures (λ r. InFlight r.1) (λ r. InFlight r.1) (dispatch gain t random packet m)
        (or_resend t) (dispatch-InFlight t random packet m h)
        (λ (e, m') h'. or_resend-InFlight t e m' h')
  process_incoming-InFlight t random timeout_event m r h =
      if-Ensures (λ r. InFlight r.1) (ltb m.timeout t.instant) (on_timeout t m) (some (none, m))
        (on_timeout-InFlight t m h) h
  process_incoming-InFlight t random writable m r h = absurd (ground (arith, r))
  process_incoming-InFlight t random (user_write bytes) m r h = absurd (ground (arith, r))
