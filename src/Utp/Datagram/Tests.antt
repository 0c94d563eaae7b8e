-- ===== src/Utp/Datagram/Tests.antt =====
-- The theorems on packets at concrete inputs.
use rustorrent.Common.{ℕ, ◌≡◌, refl, [], ◌∷◌, ◌++◌, some, none, arith, replicate, length-replicate}
use rustorrent.Utp.Packet.{Header, syn, state, header_as_bytes, get_seq_number}
use rustorrent.Utp.Packet.Bytes.{IsStored, filled}
use rustorrent.Utp.Datagram.{
  Packet, packet_new_in_place, packet_as_bytes, from_incoming_in_place, get_data, new_type,
  add_selective_acks, append,
}
use rustorrent.Utp.Datagram.Transfer.{from_incoming-as_bytes, add_selective_acks-overwrites}

abbrev sample : Header
sample = filled syn 0x1234 0x01020304 5 0x100000 1 65535

sample-IsStored : IsStored sample
sample-IsStored = omega arith

append_nothing : append (record { bytes = 1 ∷ 2 ∷ []; len = 0 }) [] ≡ none
unfolding append
append_nothing = refl

-- appending writes at the front, whatever is there
append_over :
    append (record { bytes = 1 ∷ 2 ∷ []; len = 1 }) (9 ∷ [])
    ≡ some (record { bytes = 9 ∷ 2 ∷ []; len = 2 })
unfolding append
append_over = refl

from_incoming-as_bytes_example :
    (sent received : Packet) × (packet_new_in_place (replicate 1500 0) (4 ∷ 5 ∷ []) ≡ some sent)
    × (packet_as_bytes (record sent { header = sample })
        ≡ some (header_as_bytes sample ++ 4 ∷ 5 ∷ []))
    × (from_incoming_in_place [] (header_as_bytes sample ++ 4 ∷ 5 ∷ []) 99 ≡ some received)
    × (received.header ≡ sample)
    × (received.seq_number ≡ get_seq_number sample)
    × (get_data received ≡ some (4 ∷ 5 ∷ []))
from_incoming-as_bytes_example =
    from_incoming-as_bytes (replicate 1500 0) [] (4 ∷ 5 ∷ []) 99 sample-IsStored
      (length-replicate {A = ℕ} 1500 0) (omega arith)

add_selective_acks-overwrites_example :
    (fresh p : Packet) × (new_type state ≡ some fresh)
    × (add_selective_acks fresh (5 ∷ 0 ∷ 1 ∷ []) ≡ some p)
    × (p.header.extension ≡ 1)
    × (get_data p ≡ some (5 ∷ 0 ∷ 1 ∷ 0 ∷ 0 ∷ []))
add_selective_acks-overwrites_example =
    add_selective_acks-overwrites state (5 ∷ 0 ∷ 1 ∷ []) (omega arith) (omega arith)
