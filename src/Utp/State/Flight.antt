-- ===== src/Utp/State/Flight.antt =====
-- src/utp/stream.rs, `State`: the bytes in flight and the packets in flight.
use rustorrent.Common.{
  ℕ, ◌+◌, ◌%◌, ◌^◌, ◌≡◌, refl, sym, ap, ◌∙◌, none, some, [], ◌∷◌, ◌==◌, arith, inl, inr, Bool-cases,
}
use rustorrent.Utp.Seq.{SequenceNumber}
use rustorrent.Utp.Datagram.{Packet, size, is_seq_less_equal}
use rustorrent.Utp.Stream.{PacketMap, lookup, insert}
use rustorrent.Utp.State.{
  State, retain_unacked, acked_size, remove, remove_packets, add_packet_inflight, land, size_of,
}

abbrev pub total : PacketMap → ℕ
total [] = 0
total ((k, p) ∷ map) = size p + total map

-- The counter of bytes in flight is the sum of the packets' sizes, modulo its width.
abbrev pub IsFlight : State → Type 0
IsFlight s = s.in_flight ≡ total s.inflight_packets % 2 ^ 32

pub total-retain_unacked :
    (ack_number : SequenceNumber) (map : PacketMap)
    → total (retain_unacked ack_number map) + acked_size ack_number map ≡ total map
unfolding retain_unacked acked_size
total-retain_unacked ack_number [] = refl
total-retain_unacked ack_number ((k, p) ∷ map) =
    let rest = total-retain_unacked ack_number map in
    elim (Bool-cases (is_seq_less_equal p ack_number)) [
      | inl e ↦ rw (retain_unacked, acked_size, e) omega (arith, rest)
      | inr e ↦ rw (retain_unacked, acked_size, e) omega (arith, rest)
    ]

pub total-remove :
    (k : SequenceNumber) (map : PacketMap)
    → total (remove k map) + size_of (lookup k map) ≡ total map
unfolding remove
total-remove k [] = refl
total-remove k ((k', p) ∷ map) =
    let rest = total-remove k map in
    elim (Bool-cases (k == k')) [
      | inl e ↦ rw (remove, e) omega arith
      | inr e ↦ rw (remove, e) omega (arith, rest)
    ]

pub total-insert :
    (k : SequenceNumber) (p : Packet) (map : PacketMap)
    → lookup k map ≡ none
    → total (insert k p map) ≡ size p + total map
total-insert k p [] fresh = refl
total-insert k p ((k', p') ∷ map) fresh = elim (Bool-cases (k == k')) [
  | inl e ↦ absurd (ground (arith, e, fresh))
  | inr e ↦
      let absent : lookup k map ≡ none = ground (arith, e, fresh) in
      rw (e) omega (arith, total-insert k p map absent)
]

-- Packets taken out, and as many bytes
land-IsFlight :
    (s : State) (map : PacketMap) (n : ℕ)
    → total map + n ≡ total s.inflight_packets
    → IsFlight s
    → IsFlight (land (record s { inflight_packets = map }) n)
land-IsFlight s map n e flight = omega (arith, e, flight)

pub remove_packets-IsFlight :
    (s : State) (ack_number : SequenceNumber)
    → IsFlight s
    → IsFlight (remove_packets s ack_number).1
unfolding remove_packets
remove_packets-IsFlight s ack_number =
    land-IsFlight s (retain_unacked ack_number s.inflight_packets)
      (acked_size ack_number s.inflight_packets)
      (total-retain_unacked ack_number s.inflight_packets)

pub add_packet_inflight-IsFlight :
    (s : State) (k : SequenceNumber) (p : Packet)
    → lookup k s.inflight_packets ≡ none
    → IsFlight s
    → IsFlight (add_packet_inflight s k p)
unfolding add_packet_inflight
add_packet_inflight-IsFlight s k p fresh flight =
    omega (arith, flight, total-insert k p s.inflight_packets fresh)

-- A packet that is in flight taken out
pub remove-IsFlight :
    (s : State) (k : SequenceNumber) (p : Packet)
    → lookup k s.inflight_packets ≡ some p
    → IsFlight s
    → IsFlight (land (record s { inflight_packets = remove k s.inflight_packets }) (size p))
remove-IsFlight s k p e = land-IsFlight s (remove k s.inflight_packets) (size p) (
    ap (λ o. total (remove k s.inflight_packets) + size_of o) (sym e)
    ∙ total-remove k s.inflight_packets)
