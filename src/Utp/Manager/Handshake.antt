-- ===== src/Utp/Manager/Handshake.antt =====
-- src/utp/manager.rs, the handshake: `ensure_connected` on one side, the arms (Syn, None) and (State,
-- SynSent) of `dispatch`.
use rustorrent.Common.{
  ℕ, suc, ◌+◌, ◌-◌, ◌%◌, ◌^◌, ◌<◌, ◌≡◌, refl, ap, ◌∙◌, true, false, Option, none, some, List, [],
  ◌∷◌, arith, replicate, ◌++◌, ◌==◌,
}
use rustorrent.Utp.Seq.{SequenceNumber, add, sub, cmp_less_equal}
use rustorrent.Utp.Packet.{
  syn, state, get_type, check_version, packet_type_of, get_window_size, get_seq_number, header_new,
  swap16, swap32,
}
use rustorrent.Utp.Datagram.{
  Packet, Payload, packet_with, payload_size, size, new_type, payload_over, update_timestamp,
  set_packet_seq_number, is_seq_less_equal,
}
use rustorrent.Utp.Ack.{AckedBitfield, init, bytes_for_packet}
use rustorrent.Utp.State.{
  State, with_utp_state, not_connected, syn_received, syn_sent, connected, must_connect,
  add_packet_inflight, remove_packets, retain_unacked, acked_size,
}
use rustorrent.Utp.Manager.{
  UtpManager, Time, Answer, taken, try_send_to, ensure_connected, send_state, addressed,
  after_state, need_state,
}
use rustorrent.Utp.Manager.Receive.{new_with_state}
use rustorrent.Utp.Manager.Dispatch.{dispatch, set_timeout, with_ack, accepting, went_well}

-- the manager that connects, with its number and ids, and the one that waits
abbrev pub client : ℕ → ℕ → SequenceNumber → List Answer → UtpManager
client now id seq answers =
    new_with_state now (with_utp_state must_connect id (suc id) seq) true (some true)
      (taken ∷ answers)

abbrev pub server : ℕ → List Answer → UtpManager
server now answers =
    new_with_state now (with_utp_state not_connected 0 0 0) true (some true) (taken ∷ answers)

-- a packet as it comes in at the other end, at a time
abbrev pub delivered : ℕ → Packet → Packet
delivered at_time p = record p {
  seq_number = get_seq_number p.header;
  resent = false;
  last_sent = 0;
  lost = false;
  received_at = some at_time;
}

-- the packet that a connection begins with
abbrev syn_of : Time → ℕ → SequenceNumber → Packet
syn_of t id seq = record {
  header = record (header_new syn) {
    connection_id = swap16 id;
    seq_nr = swap16 seq;
    window_size = swap32 1_048_576;
    timestamp_micro = swap32 t.timestamp;
  };
  payload = record { bytes = replicate payload_size 0; len = 0 };
  seq_number = seq;
  resent = false;
  last_sent = t.timestamp;
  lost = false;
  received_at = none;
}

abbrev connecting : Time → ℕ → ℕ → SequenceNumber → List Answer → UtpManager
connecting t now id seq answers =
    let m = client now id seq answers in
    let p = syn_of t id seq in
    record m {
      utp =
          add_packet_inflight (record (m.utp) { utp_state = syn_sent; seq_number = add seq 1 }) seq
            p;
      socket = answers;
      wire = p ∷ [];
    }

ensure_connected-client :
    (t : Time) (now id : ℕ) (seq : SequenceNumber) (answers : List Answer)
    → ensure_connected t (client now id seq answers) ≡ some (connecting t now id seq answers)
unfolding ensure_connected new_type payload_over update_timestamp set_packet_seq_number
ensure_connected-client t now id seq answers = refl

abbrev state_of : Time → UtpManager → SequenceNumber → Packet
state_of t m a =
    let payload : Payload = record { bytes = replicate payload_size 0; len = 0 } in
    addressed m a t.timestamp (packet_with (header_new state) payload)

-- An answer to a first packet
send_state_first :
    (t : Time) (b : UtpManager) (a : SequenceNumber) (bits : List ℕ) (rest : List Answer)
    → let ack_bitfield : AckedBitfield = record { first = some a; last = a; bitfield = bits } in
      let m = record b { ack_bitfield = ack_bitfield; socket = taken ∷ rest } in
      send_state t m
      ≡ some (
          after_state t (
            none,
            record (need_state m true) { socket = rest; wire = m.wire ++ state_of t m a ∷ [] },
          ))
unfolding send_state try_send_to new_type payload_over update_timestamp set_packet_seq_number
    bytes_for_packet
send_state_first t m a bits rest =
    let same : (a == a) ≡ true = ground arith in rw (send_state, bytes_for_packet, same) refl

-- the other manager behind the first packet
abbrev acquainted : Time → SequenceNumber → Packet → ℕ → List Answer → UtpManager
acquainted t random p now answers =
    let a = get_seq_number p.header in
    let acked : AckedBitfield = record { first = some a; last = a; bitfield = replicate 170 0 } in
    with_ack (accepting random p (set_timeout t (server now answers))) acked

abbrev accepted : Time → SequenceNumber → Packet → ℕ → List Answer → UtpManager
accepted t random p now answers =
    let known = acquainted t random p now answers in
    let q = state_of t known (get_seq_number p.header) in
    after_state t (none, record (need_state known true) { socket = answers; wire = q ∷ [] })

-- The only packet in flight is acked.
remove_packets_one :
    (s : State) (k : SequenceNumber) (p : Packet) (ack_number : SequenceNumber)
    → p.seq_number ≡ ack_number
    → let flown = record s { inflight_packets = (k, p) ∷ []; in_flight = size p } in
      (size p < 2 ^ 32)
      → (remove_packets flown ack_number).1 ≡ record s { inflight_packets = []; in_flight = 0 }
unfolding remove_packets retain_unacked acked_size is_seq_less_equal cmp_less_equal
remove_packets_one s k p ack_number e small =
    let less : is_seq_less_equal p ack_number ≡ true = ground (arith, e) in
    let none_left : (size p + 2 ^ 32 - size p) % 2 ^ 32 ≡ 0 = omega arith in
    rw (remove_packets, retain_unacked, acked_size, less)
      (ap (λ n. record s { inflight_packets = []; in_flight = n }) (omega arith))

module _ (gain : ℕ → ℕ → ℕ → Option ℕ) where
  dispatch-server :
      (t t' : Time) (random : SequenceNumber) (id : ℕ) (seq : SequenceNumber) (at_time now : ℕ)
      (answers : List Answer)
      → let p = delivered at_time (syn_of t id seq) in
        dispatch gain t' random p (server now answers)
        ≡ some (none, accepted t' random p now answers)
  unfolding dispatch get_type check_version packet_type_of init
  dispatch-server t t' random id seq at_time now answers =
      let p = delivered at_time (syn_of t id seq) in
      let m = accepting random p (set_timeout t' (server now answers)) in
      ap (λ o. went_well o)
        (send_state_first t' m (get_seq_number p.header) (replicate 170 0) answers)

  -- The answer comes in: it acks the first packet.
  dispatch-client :
      (t t' t₂ : Time) (id : ℕ) (seq a : SequenceNumber) (m₂ : UtpManager) (at_time now : ℕ)
      (answers : List Answer)
      → seq ≡ swap16 (swap16 a)
      → let q = delivered at_time (state_of t₂ m₂ a) in
        (m : UtpManager) × (dispatch gain t' 0 q (connecting t now id seq answers) ≡ some (none, m))
        × (m.utp.utp_state ≡ connected)
        × (m.utp.in_flight ≡ 0)
        × (m.utp.inflight_packets ≡ [])
        × (m.on_connected ≡ none)
        × (m.utp.send_id ≡ suc id)
        × (m.utp.recv_id ≡ id)
        × (m.utp.seq_number ≡ add seq 1)
        × (m.ack_bitfield.first ≡ some (sub (get_seq_number q.header) 1))
  unfolding dispatch add_packet_inflight get_type check_version packet_type_of set_packet_seq_number
      update_timestamp
  dispatch-client t t' t₂ id seq a m₂ at_time now answers acks =
      let q = delivered at_time (state_of t₂ m₂ a) in
      let s = record ((connecting t now id seq answers).utp) {
        utp_state = connected;
        remote_window = get_window_size q.header;
      } in
      let e = remove_packets_one s seq (syn_of t id seq) (swap16 (swap16 a)) acks (omega arith) in
      (
        _,
        refl,
        ap (λ (x : State). x.utp_state) e,
        ap (λ (x : State). x.in_flight) e,
        ap (λ (x : State). x.inflight_packets) e,
        refl,
        ap (λ (x : State). x.send_id) e,
        ap (λ (x : State). x.recv_id) e,
        ap (λ (x : State). x.seq_number) e,
        refl,
      )

  -- A manager that must connect, the socket of which takes a packet, sends one; one that waits, with
  -- such a socket, takes it and sends an answer, which connects the first and tells its user. What each
  -- then sends bears the id that the other receives on, each knows the other's next number, and nothing
  -- is in flight.
  pub dispatch-ensure_connected :
      (t₁ t₂ t₃ : Time) (id : ℕ) (seq random : SequenceNumber) (now now' at_time at_time' : ℕ)
      (answers answers' : List Answer)
      → suc id < 2 ^ 16
      → seq < 2 ^ 16
      → random < 2 ^ 16
      → (c s m : UtpManager) × (p q : Packet) × (ensure_connected t₁ (client now id seq answers)
          ≡ some c)
        × (c.wire ≡ p ∷ [])
        × (dispatch gain t₂ random (delivered at_time p) (server now' answers') ≡ some (none, s))
        × (s.wire ≡ q ∷ [])
        × (dispatch gain t₃ 0 (delivered at_time' q) c ≡ some (none, m))
        × ((s.utp.utp_state ≡ syn_received)
            × (s.utp.send_id ≡ m.utp.recv_id)
            × (s.utp.recv_id ≡ m.utp.send_id)
            × (s.ack_bitfield.first ≡ some (sub m.utp.seq_number 1)))
        × ((m.utp.utp_state ≡ connected)
            × (m.on_connected ≡ none)
            × (m.ack_bitfield.first ≡ some (sub s.utp.seq_number 1))
            × (m.utp.in_flight ≡ 0)
            × (m.utp.inflight_packets ≡ []))
  unfolding set_packet_seq_number update_timestamp
  dispatch-ensure_connected t₁ t₂ t₃ id seq random now now' at_time at_time' answers answers' h h'
        h'' =
      let p = syn_of t₁ id seq in
      let p' = delivered at_time p in
      let a = get_seq_number p'.header in
      let s = accepted t₂ random p' now' answers' in
      let known = acquainted t₂ random p' now' answers' in
      let twice : seq ≡ swap16 (swap16 a) = omega arith in
      let (m, e, state_is, flown, map, told, send_id, recv_id, number, acks) =
        dispatch-client t₁ t₃ t₂ id seq a known at_time' now answers twice in
      (
        connecting t₁ now id seq answers,
        s,
        m,
        p,
        state_of t₂ known a,
        ensure_connected-client t₁ now id seq answers,
        refl,
        dispatch-server t₁ t₂ random id seq at_time now' answers',
        refl,
        e,
        (refl, omega (arith, recv_id), omega (arith, send_id), ap some (omega (arith, number))),
        (state_is, told, acks ∙ ap some (omega arith), flown, map),
      )
