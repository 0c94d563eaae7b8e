-- ===== src/Utp/Datagram/Transfer.antt =====
-- A packet sent and received, and a packet with selective acks.
use rustorrent.Common.{
  ℕ, suc, ◌+◌, ◌-◌, ◌≤◌, ◌<◌, ◌≡◌, refl, ◌∙◌, ap, List, [], ◌∷◌, ◌++◌, some, arith, length, take,
  drop, replicate, length-append, length-replicate, take-append, take-append_more, drop-replicate,
  take-replicate, false,
}
use rustorrent.Utp.Packet.{
  Header, PacketType, header_as_bytes, header_new, data_packet, get_seq_number,
}
use rustorrent.Utp.Packet.Bytes.{IsStored, header_of_bytes-header_as_bytes, length-header_as_bytes}
use rustorrent.Utp.Datagram.{
  Packet, payload_size, packet_new_in_place, payload_over, new_type, from_incoming_in_place,
  add_selective_acks, get_data, packet_as_bytes, packet_with,
}

-- A packet made of `payload` and a header goes out as the header's bytes and the payload; received
-- at any time, over memory that held anything, it has the same header, sequence number and data.
pub from_incoming-as_bytes :
    (array place payload : List ℕ) {h : Header} (time : ℕ)
    → IsStored h
    → length array ≡ payload_size
    → length payload < payload_size
    → (sent received : Packet) × (packet_new_in_place array payload ≡ some sent)
      × (packet_as_bytes (record sent { header = h }) ≡ some (header_as_bytes h ++ payload))
      × (from_incoming_in_place place (header_as_bytes h ++ payload) time ≡ some received)
      × (received.header ≡ h)
      × (received.seq_number ≡ get_seq_number h)
      × (get_data received ≡ some payload)
unfolding packet_new_in_place payload_over packet_as_bytes get_data from_incoming_in_place
from_incoming-as_bytes array place payload {h} time v a p = (
  packet_with (header_new data_packet)
      (record { bytes = payload ++ drop (length payload) array; len = length payload }),
  record {
    header = h;
    payload = record { bytes = payload ++ drop (length payload) place; len = length payload };
    seq_number = get_seq_number h;
    resent = false;
    last_sent = 0;
    lost = false;
    received_at = some time;
  },
  ground (arith, a, p),
  ground (
    arith,
    length-append {0} payload (drop (length payload) array),
    take-append payload (drop (length payload) array),
  ),
  ground (
    arith,
    header_of_bytes-header_as_bytes payload v,
    length-append {0} (header_as_bytes h) payload,
    length-header_as_bytes h,
  ),
  refl,
  refl,
  ground (
    arith,
    length-append {0} payload (drop (length payload) place),
    take-append payload (drop (length payload) place),
  ),
)

zeros_after :
    (xs : List ℕ) (k n m : ℕ)
    → n ≡ length xs + 2
    → k + 2 ≤ m
    → take n (xs ++ drop k (replicate m 0)) ≡ xs ++ 0 ∷ 0 ∷ []
zeros_after xs k n m e h =
    take-append_more xs (drop k (replicate m 0)) 2 n e
    ∙ ap (λ ys. xs ++ ys)
        (ap (take 2) (drop-replicate k m 0) ∙ take-replicate 2 (m - k) 0 (omega arith))

get_data-take :
    (p : Packet)
    → p.payload.len ≤ length p.payload.bytes
    → get_data p ≡ some (take p.payload.len p.payload.bytes)
unfolding get_data
get_data-take p h = ground arith

length-drop_zeros : (k m : ℕ) → length {A = ℕ} (drop k (replicate m 0)) ≡ m - k
length-drop_zeros k m =
    ap (length {A = ℕ}) (drop-replicate k m 0) ∙ length-replicate {A = ℕ} (m - k) 0

-- the packet that `add_selective_acks` makes of a new packet, as it stands in memory
abbrev acked : PacketType → List ℕ → Packet
acked ty bytes =
    packet_with (record (header_new ty) { extension = 1 })
      (record {
        bytes = bytes ++ drop (length bytes) (0 ∷ length bytes ∷ replicate 1498 0);
        len = 2 + length bytes;
      })

-- `add_selective_acks` with 2 to 255 bytes on a new packet of any type succeeds, sets the
-- extension to 1, and leaves as the data the bytes and two zeros: the bytes have been written over
-- the extension's two leading bytes, the next type 0 and the length.
pub add_selective_acks-overwrites :
    (ty : PacketType) (bytes : List ℕ)
    → 2 ≤ length bytes
    → length bytes ≤ 255
    → (fresh p : Packet) × (new_type ty ≡ some fresh)
      × (add_selective_acks fresh bytes ≡ some p)
      × (p.header.extension ≡ 1)
      × (get_data p ≡ some (bytes ++ 0 ∷ 0 ∷ []))
unfolding new_type payload_over add_selective_acks get_data
add_selective_acks-overwrites ty [] h k = absurd (omega arith)
add_selective_acks-overwrites ty (a ∷ []) h k = absurd (omega arith)
add_selective_acks-overwrites ty (a ∷ b ∷ r) h k = (
  packet_with (header_new ty) (record { bytes = replicate payload_size 0; len = 0 }),
  acked ty (a ∷ b ∷ r),
  refl,
  ground arith,
  refl,
  get_data-take (acked ty (a ∷ b ∷ r)) (
        omega (
          arith,
          length-append {0} r (drop (length r) (replicate 1498 0)),
          length-drop_zeros (length r) 1498,
        ))
      ∙ ap some (
          zeros_after (a ∷ b ∷ r) (length r) (2 + suc (suc (length r))) 1498 (omega arith)
            (omega arith)),
)
