-- ===== src/Utp/Manager/Flight.antt =====
-- src/utp/manager.rs: the bytes in flight and the packets in flight, over every event that comes from
-- the other end or from the clock.
use rustorrent.Common.{
  ℕ, zero, suc, max, ◌+◌, ◌*◌, ◌≡◌, refl, ap, ◌∙◌, Bool, true, false, ◌||◌, Option, none, some,
  List, [], ◌∷◌, ◌++◌, ◌==◌, ltb, length, if◌then◌else◌, Bool-cases, Option-cases, inl, inr, arith,
}
use rustorrent.Common.Checked.{Ensures, bind-Ensures, if-Ensures, trivial-Ensures}
use rustorrent.Utp.Seq.{SequenceNumber}
use rustorrent.Utp.Packet.{get_ack_number, get_timestamp_diff, packet_lost, has_extension}
use rustorrent.Utp.Datagram.{Packet, size}
use rustorrent.Utp.Sack.{
  SelectiveAckBit, acked, missing, ExtensionIterator, iter_sacks, yields, ends, out_of_fuel,
  next_sack, has_missing_ack, collect,
}
use rustorrent.Utp.Stream.{PacketMap, lookup}
use rustorrent.Utp.State.Flight.{IsFlight, total, remove_packets-IsFlight, remove-IsFlight}
use rustorrent.Utp.Manager.{UtpManager, Time, Step, packet_size}
use rustorrent.Utp.Manager.Receive.{
  ack_packets, ack_one_packet, lose, lose_all, mark_packets_as_lost, handle_bits, handle_sacks,
  handle_extensions, count_duplicate, after_loss, apply_congestion_control, new_cwnd, handle_delay,
  handle_state,
}

-- the invariant of a manager, and of what a step leaves
abbrev pub InFlight : UtpManager → Type 0
InFlight m = IsFlight m.utp

abbrev pub StepInFlight : Step → Type 0
StepInFlight = Ensures (λ r. InFlight r.1)

ack_packets-InFlight :
    (ack_number : SequenceNumber) (at_time : ℕ) (m : UtpManager)
    → InFlight m
    → InFlight (ack_packets ack_number at_time m).1
unfolding ack_packets
ack_packets-InFlight ack_number at_time m = remove_packets-IsFlight m.utp ack_number

ack_one_packet-InFlight :
    (ack_number : SequenceNumber) (at_time : ℕ) (m : UtpManager)
    → InFlight m
    → InFlight (ack_one_packet ack_number at_time m).1
unfolding ack_one_packet
ack_one_packet-InFlight ack_number at_time m h =
    elim (Option-cases (lookup ack_number m.utp.inflight_packets)) [
      | inl e ↦ rw (ack_one_packet, e) h
      | inr (p, e) ↦ rw (ack_one_packet, e) (remove-IsFlight m.utp ack_number p e h)
    ]

handle_bits-InFlight :
    (at_time : ℕ) (bits : List SelectiveAckBit) (n : ℕ) (m : UtpManager)
    → InFlight m
    → InFlight (handle_bits at_time bits (n, m)).1
unfolding handle_bits
handle_bits-InFlight at_time [] n m h = h
handle_bits-InFlight at_time (missing seq ∷ bits) n m h =
    handle_bits-InFlight at_time bits n
      (record m { tmp_packet_losts = m.tmp_packet_losts ++ seq ∷ [] }) h
handle_bits-InFlight at_time (acked seq ∷ bits) n m h =
    let r = ack_one_packet seq at_time m in
    handle_bits-InFlight at_time bits (n + r.0) r.1 (ack_one_packet-InFlight seq at_time m h)

handle_sacks-InFlight :
    (fuel at_time : ℕ) (it : ExtensionIterator) (lost : Bool) (n : ℕ) (m : UtpManager)
    → InFlight m
    → Ensures (λ r. InFlight r.2) (handle_sacks fuel at_time it (lost, n, m))
unfolding handle_sacks
handle_sacks-InFlight zero at_time it lost n m h = tt
handle_sacks-InFlight (suc fuel) at_time it lost n m h =
    elim (next_sack (suc (suc (length it.slice))) it)
      as (λ f.
        Ensures (λ r. InFlight r.2)
          (elim f as (λ _. Option (Bool × ℕ × UtpManager)) [
            | out_of_fuel ↦ none
            | ends _ ↦ some (lost, n, m)
            | yields sack it' ↦
                let (n', m') =
                  handle_bits at_time (collect (length sack.bitfield * 8 + 2) sack) (n, m) in
                handle_sacks fuel at_time it' (has_missing_ack sack.bitfield || lost, n', m')
          ])) [
            | out_of_fuel ↦ tt
            | ends _ ↦ h
            | yields sack it' ↦
                let bits = collect (length sack.bitfield * 8 + 2) sack in
                let r = handle_bits at_time bits (n, m) in
                handle_sacks-InFlight fuel at_time it' (has_missing_ack sack.bitfield || lost) r.0
                  r.1 (handle_bits-InFlight at_time bits n m h)
          ]

handle_extensions-InFlight :
    (at_time : ℕ) (packet : Packet) (lost : Bool) (n : ℕ) (m : UtpManager)
    → InFlight m
    → Ensures (λ r. InFlight r.2) (handle_extensions at_time packet (lost, n, m))
unfolding handle_extensions
handle_extensions-InFlight at_time packet lost n m h =
    elim (has_extension packet.header)
      as (λ b.
        Ensures (λ r. InFlight r.2)
          (if b
            then handle_sacks (suc (packet.payload.len)) at_time (iter_sacks packet) (lost, n, m)
            else some (lost, n, m))) [
              | true ↦
                  handle_sacks-InFlight (suc (packet.payload.len)) at_time (iter_sacks packet) lost
                    n m h
              | false ↦ h
            ]

count_duplicate-InFlight :
    (ack_number : SequenceNumber) (m : UtpManager)
    → InFlight m
    → InFlight (count_duplicate ack_number m).1
unfolding count_duplicate
count_duplicate-InFlight ack_number m h = ground (arith, h)

total-lose : (seq : SequenceNumber) (map : PacketMap) → total (lose seq map) ≡ total map
unfolding lose
total-lose seq [] = refl
total-lose seq ((k, p) ∷ map) = elim (Bool-cases (seq == k)) [
  | inl e ↦ rw (lose, e) refl
  | inr e ↦ rw (lose, e) (ap (λ n. size p + n) (total-lose seq map))
]

total-lose_all :
    (seqs : List SequenceNumber) (map : PacketMap) → total (lose_all seqs map) ≡ total map
unfolding lose_all
total-lose_all [] map = refl
total-lose_all (seq ∷ seqs) map = total-lose_all seqs (lose seq map) ∙ total-lose seq map

after_loss-InFlight : (t : Time) (m : UtpManager) → InFlight m → InFlight (after_loss t m)
unfolding after_loss mark_packets_as_lost
after_loss-InFlight t m h = elim (Bool-cases (ltb m.next_cwnd_decrease t.instant)) [
  | inl e ↦ rw (after_loss, e, total-lose_all m.tmp_packet_losts m.utp.inflight_packets) h
  | inr e ↦ rw (after_loss, e, total-lose_all m.tmp_packet_losts m.utp.inflight_packets) h
]

ended-InFlight :
    (t : Time) (lost : Bool) (m : UtpManager)
    → InFlight m
    → StepInFlight (
        some (
          if lost
          then (some packet_lost, after_loss t m)
          else (none, record m { rto = max 500 (m.rtt + m.rtt_var * 4) })))
ended-InFlight t true m h = after_loss-InFlight t m h
ended-InFlight t false m h = h

module _ (gain : ℕ → ℕ → ℕ → Option ℕ) where
  apply_congestion_control-InFlight :
      (m : UtpManager) (newly in_flight : ℕ)
      → InFlight m
      → Ensures InFlight (apply_congestion_control gain m newly in_flight)
  unfolding apply_congestion_control
  apply_congestion_control-InFlight m newly in_flight h =
      if-Ensures InFlight (ltb m.utp.cwnd (in_flight + newly + packet_size m)) _ _
        (bind-Ensures (λ _. Unit) InFlight (new_cwnd gain m newly in_flight) _
          (trivial-Ensures (new_cwnd gain m newly in_flight)) (λ cwnd _. h))
        h

  handle_delay-InFlight :
      (t : Time) (delay : ℕ) (lost : Bool) (newly in_flight : ℕ) (m : UtpManager)
      → InFlight m
      → Ensures InFlight (handle_delay gain t delay lost newly in_flight m)
  unfolding handle_delay
  handle_delay-InFlight t delay lost newly in_flight m h =
      if-Ensures InFlight (delay == 0) _ _ h
        (if-Ensures InFlight lost _ _ h (apply_congestion_control-InFlight _ newly in_flight h))

  pub handle_state-InFlight :
      (t : Time) (at_time : ℕ) (packet : Packet) (m : UtpManager)
      → InFlight m
      → StepInFlight (handle_state gain t at_time packet m)
  unfolding handle_state
  handle_state-InFlight t at_time packet m h =
      let ack_number = get_ack_number packet.header in
      let acked = ack_packets ack_number at_time m in
      let counted = count_duplicate ack_number acked.1 in
      let h₂ =
        count_duplicate-InFlight ack_number acked.1 (ack_packets-InFlight ack_number at_time m h) in
      bind-Ensures (λ r. InFlight r.2) (λ r. InFlight r.1)
        (handle_extensions at_time packet (counted.0, acked.0, counted.1)) _
        (handle_extensions-InFlight at_time packet counted.0 acked.0 counted.1 h₂)
        (λ (lost, newly, m₃) h₃.
          bind-Ensures InFlight (λ r. InFlight r.1)
            (handle_delay gain t (get_timestamp_diff packet.header) lost newly m.utp.in_flight m₃) _
            (handle_delay-InFlight t (get_timestamp_diff packet.header) lost newly m.utp.in_flight
              m₃ h₃)
            (λ m₄ h₄. ended-InFlight t lost m₄ h₄))
