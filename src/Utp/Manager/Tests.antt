-- ===== src/Utp/Manager/Tests.antt =====
-- A manager in the middle of a connection, and two that make one.
use rustorrent.Common.{
  ℕ, ◌*◌, ◌≡◌, refl, true, Option, none, some, List, [], ◌∷◌, ◌++◌, length, replicate, arith, ◌==◌,
  if◌then◌else◌,
}
use rustorrent.Common.Checked.{◌>>=◌}
use rustorrent.Utp.Seq.{sub}
use rustorrent.Utp.Packet.{
  get_type, check_version, packet_type_of, header_new, data_packet, state, swap16, swap32, io,
  timed_out,
}
use rustorrent.Utp.Datagram.{
  Packet, Payload, packet_with, new_type, payload_over, update_timestamp, packet_new_in_place,
  set_packet_seq_number,
}
use rustorrent.Utp.State.{with_utp_state, connected, syn_received}
use rustorrent.Utp.Manager.{UtpManager, Time, taken, ensure_connected, send}
use rustorrent.Utp.Manager.Receive.{new_with_state, incoming_packet}
use rustorrent.Utp.Manager.Dispatch.{run, drain, dispatch, process_incoming}
use rustorrent.Utp.Manager.Send.{SendsAll, send-SendsAll}
use rustorrent.Utp.Manager.Queue.{Drains, drain-Drains}
use rustorrent.Utp.Manager.Flight.{StepInFlight}
use rustorrent.Utp.Manager.Steady.{process_incoming-InFlight}
use rustorrent.Utp.Manager.Timeout.{Spaced, Waits, wire_numbers, repeat, ticks, run-timed_out}
use rustorrent.Utp.Manager.Handshake.{client, server, delivered, dispatch-ensure_connected}

abbrev no_gain : ℕ → ℕ → ℕ → Option ℕ
no_gain newly in_flight lowest = if in_flight == 0 then none else some 0

abbrev at : ℕ → Time
at n = record { instant = n * 1_000_000; timestamp = n }

-- two packets of data, of which one is in flight
abbrev data_of : List ℕ → ℕ → Packet
data_of bytes seq =
    let payload : Payload = record { bytes = bytes ++ replicate 10 0; len = length bytes } in
    record (packet_with (record (header_new data_packet) { seq_nr = swap16 seq }) payload) {
      seq_number = seq;
      received_at = some 9;
    }

abbrev flying : UtpManager
flying =
    let m = new_with_state 0 (with_utp_state connected 8 9 500) true none (replicate 12 taken) in
    record m {
      utp = record (m.utp) {
        inflight_packets = (499, data_of (1 ∷ 2 ∷ []) 499) ∷ [];
        in_flight = 22;
      };
      ack_bitfield = record (m.ack_bitfield) { first = some 40; last = 40 };
      timeout = 0;
    }

send-SendsAll_example : SendsAll flying (replicate 3000 7) (send (at 1) flying (replicate 3000 7))
send-SendsAll_example =
    send-SendsAll (at 1) flying (replicate 3000 7) refl (omega arith) (omega arith)

abbrev queue : List Packet
queue = data_of (3 ∷ []) 0 ∷ data_of (4 ∷ 5 ∷ []) 0 ∷ []

drain-Drains_example : Drains flying queue (drain (at 1) queue flying)
drain-Drains_example =
    drain-Drains (at 1) queue flying refl (omega arith) (omega arith) (refl, (refl, tt))

-- an ack of the packet in flight, with the window that the other end began with
abbrev acking : Packet
acking =
    let payload : Payload = record { bytes = []; len = 0 } in
    record (packet_with
      (record (header_new state) { ack_nr = swap16 499; window_size = swap32 2800 }) payload) {
        received_at = some 9;
      }

process_incoming-InFlight_example :
    StepInFlight (process_incoming no_gain (at 1, 0, incoming_packet acking) flying)
process_incoming-InFlight_example =
    process_incoming-InFlight no_gain (at 1) 0 (incoming_packet acking) flying refl refl

abbrev eight : List Time
eight = at 1 ∷ at 2 ∷ at 3 ∷ at 4 ∷ at 5 ∷ at 6 ∷ at 7 ∷ at 8 ∷ []

spaced : Spaced flying.timeout flying.rto eight
spaced = search (arith)

run-timed_out_example :
    (m : UtpManager) × (run no_gain (ticks eight) flying ≡ some (some (io timed_out), m))
    × Waits 1 (499 ∷ []) 40 m
    × (m.ntimeout ≡ 7)
    × (wire_numbers m.wire ≡ [] ++ repeat 7 (499 ∷ []))
run-timed_out_example =
    run-timed_out no_gain 7 eight flying 1 (499 ∷ []) {a = 40} (refl, refl, omega arith, refl, refl)
      tt (omega arith) (omega arith) spaced

abbrev Handshake : Type 0
Handshake =
    (c s m : UtpManager) × (p q : Packet) × (ensure_connected (at 1) (client 0 8 500 []) ≡ some c)
    × (c.wire ≡ p ∷ [])
    × (dispatch no_gain (at 2) 70 (delivered 2 p) (server 1 []) ≡ some (none, s))
    × (s.wire ≡ q ∷ [])
    × (dispatch no_gain (at 3) 0 (delivered 3 q) c ≡ some (none, m))
    × ((s.utp.utp_state ≡ syn_received)
        × (s.utp.send_id ≡ m.utp.recv_id)
        × (s.utp.recv_id ≡ m.utp.send_id)
        × (s.ack_bitfield.first ≡ some (sub m.utp.seq_number 1)))
    × ((m.utp.utp_state ≡ connected)
        × (m.on_connected ≡ none)
        × (m.ack_bitfield.first ≡ some (sub s.utp.seq_number 1))
        × (m.utp.in_flight ≡ 0)
        × (m.utp.inflight_packets ≡ []))

dispatch-ensure_connected_example : Handshake
dispatch-ensure_connected_example =
    dispatch-ensure_connected no_gain (at 1) (at 2) (at 3) 8 500 70 0 1 2 3 [] [] (omega arith)
      (omega arith) (omega arith)

-- The first packet of a connection, not answered, is not sent again: the manager panics.
lost_syn :
    (ensure_connected (at 1) (client 0 8 500 (replicate 9 taken))
      >>= run no_gain (ticks (at 3002 ∷ [])))
    ≡ none
unfolding ensure_connected run new_type payload_over update_timestamp set_packet_seq_number
lost_syn = refl

-- A write while others wait in the queue goes out before them.
payloads : List Packet → List ℕ
payloads [] = []
payloads (p ∷ ps) = p.payload.len ∷ payloads ps

sent_and_waiting : Option UtpManager → List (List ℕ)
sent_and_waiting none = []
sent_and_waiting (some m) = payloads m.wire ∷ payloads m.to_send ∷ []

overtaken :
    sent_and_waiting (send (at 1) (record flying { to_send = queue }) (9 ∷ 9 ∷ 9 ∷ []))
    ≡ (3 ∷ []) ∷ (1 ∷ 2 ∷ []) ∷ []
unfolding send packet_new_in_place payload_over update_timestamp set_packet_seq_number get_type
    check_version packet_type_of payloads sent_and_waiting
overtaken = refl
