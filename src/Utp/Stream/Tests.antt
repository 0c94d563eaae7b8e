-- ===== src/Utp/Stream/Tests.antt =====
-- A stream to which two packets come in the wrong order.
use rustorrent.Common.{
  ℕ, zero, suc, ◌≡◌, ◌≤◌, ◌⊎◌, refl, some, List, [], ◌∷◌, ◌++◌, length, arith, inl, All,
}
use rustorrent.Utp.Seq.{add}
use rustorrent.Utp.Packet.{header_new, data_packet, swap16}
use rustorrent.Utp.Datagram.{Packet, Payload, packet_with, get_data}
use rustorrent.Utp.Stream.{
  UtpStream, ReceivedData, data_of, empty, poll_read_private, Poll, stream_new,
}
use rustorrent.Utp.Stream.Loop.{IsAt, IsMessage, delivered}
use rustorrent.Utp.Stream.Order.{bytes_of, Stops, IsMissing, poll_read_private-delivered}

-- the bytes of a connection that begins at 65535
abbrev chunk : ℕ → List ℕ
chunk zero = 1 ∷ 2 ∷ []
chunk (suc zero) = 3 ∷ []
chunk _ = []

abbrev packet : ℕ → List ℕ → Packet
packet seq bytes =
    let payload : Payload = record { bytes = bytes; len = length bytes } in
    packet_with (record (header_new data_packet) { seq_nr = swap16 seq }) payload

abbrev messages : List ReceivedData
messages = data_of (packet 0 (3 ∷ [])) ∷ data_of (packet 65535 (1 ∷ 2 ∷ [])) ∷ []

abbrev stream : UtpStream
stream = record stream_new { last_seq = some 65535 }

messages-IsMessage : All (IsMessage 65535 chunk 0) messages
unfolding get_data
messages-IsMessage = (
  (1, omega arith, omega arith, omega arith, refl),
  ((0, omega arith, omega arith, omega arith, refl), tt),
)

stream-IsAt : IsAt 65535 chunk 0 0 stream
stream-IsAt = record {
  at = refl;
  cursor_at = refl;
  inside = omega arith;
  held = inl refl;
  packets = tt;
}

poll_read_private-delivered_example :
    (poll : Poll (List ℕ)) × (s : UtpStream) × (left : List ReceivedData) × (packet place : ℕ)
    × (poll_read_private 9 messages empty stream ≡ some (poll, s, left))
    × IsAt 65535 chunk packet place s
    × (delivered 65535 chunk 0 0 ++ bytes_of 65535 chunk poll ≡ delivered 65535 chunk packet place)
    × (length (bytes_of 65535 chunk poll) ≤ 9)
    × (before : List ReceivedData) × (messages ≡ before ++ left)
    × Stops 65535 chunk before left
    × ((9 ≤ length (bytes_of 65535 chunk poll))
        ⊎ IsMissing 65535 chunk (add 65535 packet) s stream before)
poll_read_private-delivered_example =
    poll_read_private-delivered 65535 chunk 9 0 0 messages empty stream stream-IsAt
      messages-IsMessage
