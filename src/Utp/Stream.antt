-- ===== src/Utp/Stream.antt =====
-- src/utp/stream.rs, `UtpStream`: the packets of a connection put in order for its reader. The map of
-- packets is an association list on sequence numbers, a message is what the channel from the manager
-- holds, and `none` is a panic.
pub mod Under
pub mod Loop
pub mod Order
mod Tests
use rustorrent.Common.{
  ℕ, zero, suc, ◌+◌, ◌-◌, Bool, true, false, ◌||◌, Option, none, some, List, [], ◌∷◌, ◌++◌, ltb,
  leb, ◌==◌, if◌then◌else◌, length, take, drop, min,
}
use rustorrent.Common.Checked.{◌>>=◌}
use rustorrent.Utp.Seq.{SequenceNumber, add, cmp_greater}
use rustorrent.Utp.Packet.{get_seq_number}
use rustorrent.Utp.Datagram.{Packet, get_data}

pub data ReceivedData : Type 0 where
  data_of : Packet → ReceivedData
  first_sequence : SequenceNumber → ReceivedData
  done : ReceivedData

-- `try_recv` of the channel: a message, or what it says of an empty one
pub data TryRecvError : Type 0 where
  empty closed : TryRecvError

abbrev pub PacketMap : Type 0
PacketMap = List (SequenceNumber × Packet)

abbrev pub lookup : SequenceNumber → PacketMap → Option Packet
lookup k [] = none
lookup k ((k', p) ∷ map) = if k == k' then some p else lookup k map

-- `Map::insert`
abbrev pub insert : SequenceNumber → Packet → PacketMap → PacketMap
insert k p [] = (k, p) ∷ []
insert k p ((k', p') ∷ map) = if k == k' then (k, p) ∷ map else (k', p') ∷ insert k p map

-- `map.retain(|k, _| k.cmp_greater(last_seq))`
unfoldable pub retain_greater : SequenceNumber → PacketMap → PacketMap
retain_greater seq [] = []
retain_greater seq ((k, p) ∷ map) =
    let rest = retain_greater seq map in if cmp_greater k seq then (k, p) ∷ rest else rest

pub record UtpStream : Type 0 where
  pub received_data : PacketMap
  pub last_seq : Option SequenceNumber
  pub cursor : ℕ
  pub flushed : Bool

-- `UtpStream::new`
abbrev pub stream_new : UtpStream
stream_new = record { received_data = []; last_seq = none; cursor = 0; flushed = false }

-- an arm of `handle_messages` on a message, with whether the loop goes on
unfoldable pub handle_message : UtpStream → ReceivedData → Option (Bool × UtpStream)
handle_message s (data_of packet) = s.last_seq >>= λ seq. some (
  true,
  record s { received_data = insert (get_seq_number packet.header) packet s.received_data },
)
handle_message s (first_sequence seq) = elim s.last_seq [
  | none ↦ some (true, record s { last_seq = some seq })
  | some _ ↦ none
]
handle_message s done = some (false, record s { flushed = true })

-- `handle_messages` on what the channel has, `current` first: whether the channel is closed, the
-- stream, and the messages left
unfoldable pub handle_messages :
    List ReceivedData → TryRecvError → UtpStream → Option (Bool × UtpStream × List ReceivedData)
unfolding handle_message
handle_messages [] empty s = some (false, s, [])
handle_messages [] closed s = some (true, s, [])
handle_messages (m ∷ ms) at_end s = handle_message s m >>= λ r. elim r.0 [
  | true ↦ handle_messages ms at_end r.1
  | false ↦ some (false, r.1, ms)
]

-- `Poll<usize>`; the reader is given `Ok` in each case.
pub data Poll (A : Type 0) : Type 0 where
  ready : A → Poll A
  pending : Poll A

-- What the loop of `poll_read_private` leaves: whether it returned, the bytes in the reader's buffer,
-- and the stream
pub record ReadLoop : Type 0 where
  pub returned : Bool
  pub user_data : List ℕ
  pub stream : UtpStream

-- a packet whose bytes from the cursor on go into the room left, whole or cut
abbrev pub cut_read : UtpStream → SequenceNumber → ℕ → List ℕ → List ℕ → ℕ → ReadLoop
cut_read s last_seq cursor user_data bytes written = record {
  returned = true;
  user_data = user_data ++ take written bytes;
  stream = record s { cursor = cursor + written; last_seq = some last_seq };
}

-- `packet_data[cursor..]`, which panics past the end
unfoldable pub rest_of : Packet → ℕ → Option (List ℕ)
rest_of packet cursor = get_data packet >>= λ bytes.
    if leb cursor (length bytes) then some (drop cursor bytes) else none

-- The loop, with the room left in the reader's buffer. Every round but the last takes at least the
-- packet at `last_seq` out of the map, so that one more than its packets are enough rounds.
unfoldable pub read_loop : ℕ → ℕ → UtpStream → SequenceNumber → ℕ → List ℕ → Option ReadLoop
unfolding rest_of retain_greater
read_loop zero room s last_seq cursor user_data = none
read_loop (suc fuel) room s last_seq cursor user_data = elim (lookup last_seq s.received_data) [
  | none ↦ some (record {
    returned = false;
    user_data = user_data;
    stream = record s { cursor = 0; last_seq = some last_seq };
  })
  | some packet ↦ elim (rest_of packet cursor) [
    | none ↦ none
    | some bytes ↦ elim (min room (length bytes) == length bytes) [
      | false ↦ some (cut_read s last_seq cursor user_data bytes (min room (length bytes)))
      | true ↦
          read_loop fuel (room - min room (length bytes))
            (record s { received_data = retain_greater last_seq s.received_data }) (add last_seq 1)
            0 (user_data ++ bytes)
    ]
  ]
]

-- behind the loop
abbrev pub read_result : Bool → ReadLoop → Poll (List ℕ) × UtpStream
read_result is_closed r =
    if r.returned || ltb 0 (length r.user_data)
    then (ready r.user_data, r.stream)
    else if is_closed
    then (ready [], r.stream)
    else (pending, r.stream)

-- `poll_read_private` into a buffer of `room` bytes, with the bytes that it writes, and the messages
-- left in the channel
unfoldable pub poll_read_private :
    ℕ
    → List ReceivedData
    → TryRecvError
    → UtpStream
    → Option (Poll (List ℕ) × UtpStream × List ReceivedData)
unfolding handle_messages read_loop
poll_read_private room messages at_end s =
    handle_messages messages at_end s >>= λ (is_closed, s₁, left). s₁.last_seq >>= λ last_seq.
    read_loop (suc (length s₁.received_data)) room s₁ last_seq s₁.cursor [] >>= λ r.
    let (poll, s₂) = read_result is_closed r in some (poll, s₂, left)

unfoldable pub poll_flushed_private :
    List ReceivedData
    → TryRecvError
    → UtpStream
    → Option (Poll (Unit {0}) × UtpStream × List ReceivedData)
unfolding handle_messages
poll_flushed_private messages at_end s =
    if s.flushed
    then some (ready tt, s, messages)
    else (handle_messages messages at_end s >>= λ (is_closed, s₁, left).
        some (if s₁.flushed || is_closed then ready tt else pending, s₁, left))
