-- ===== src/Utp/Manager/Window.antt =====
-- src/utp/manager.rs, `send`, the queue of `process_incoming` and their loops: what goes out, what waits,
-- and how much is in flight.
use rustorrent.Common.{
  Option, sym, ℕ, ◌+◌, ◌%◌, ◌^◌, ◌<◌, ◌≤◌, Bool, true, false, none, some, List, [], ◌∷◌, ◌++◌,
  length, take, drop, max, ◌≡◌, refl, ◌∙◌, ap, ◌⊎◌, inl, inr, arith, append_assoc,
}
use rustorrent.Common.Checked.{bind-some}
use rustorrent.Common.Outcome.{Outcome, ok, err, panic}
use rustorrent.Utp.Seq.{SequenceNumber, add}
use rustorrent.Utp.Packet.{
  Header, UtpError, send_would_block, io, PacketType, data_packet, get_type, check_version,
  packet_type_of, get_seq_number,
}
use rustorrent.Utp.Datagram.{Packet, Payload, size, update_timestamp, set_packet_seq_number}
use rustorrent.Utp.Stream.{PacketMap, insert}
use rustorrent.Utp.State.{add_packet_inflight}
use rustorrent.Utp.Manager.{
  UtpManager, Time, Step, Answer, taken, blocked, failed, SendPush, pushed, try_send_to, addressed,
  after_sent, after_try, send_packet_inner,
}

-- a packet of data, as its header says
abbrev pub IsData : Packet → Type 0
IsData p = p.header.type_version ≡ 1

get_type-data : (h : Header) → h.type_version ≡ 1 → get_type h ≡ ok data_packet
unfolding get_type check_version packet_type_of
get_type-data h e = rw (e) refl

blocked_at_end :
    (m : UtpManager) (p : Packet) → m.socket ≡ [] → try_send_to m p ≡ (some send_would_block, m)
unfolding try_send_to
blocked_at_end m p q = rw (q) refl

-- whether the socket's next answer is that it takes the packet
abbrev pub takes : List Answer → Bool
takes (taken ∷ answers) = true
takes _ = false

-- the error of the socket's next answer
abbrev pub error_of : List Answer → Option UtpError
error_of [] = some send_would_block
error_of (taken ∷ answers) = none
error_of (blocked ∷ answers) = some send_would_block
error_of (failed kind ∷ answers) = some (io kind)

-- What the socket does with a packet: takes it, or not.
try_send_to_answer :
    (m : UtpManager) (p : Packet) (answers : List Answer)
    → m.socket ≡ answers
    → ((rest : List Answer) × (answers ≡ taken ∷ rest)
        × (try_send_to m p ≡ (none, record m { socket = rest; wire = m.wire ++ p ∷ [] })))
      ⊎ ((rest : List Answer) × (e : UtpError) × (takes answers ≡ false)
          × (error_of answers ≡ some e)
          × (try_send_to m p ≡ (some e, record m { socket = rest })))
unfolding try_send_to
try_send_to_answer m p [] q = inr (m.socket, send_would_block, refl, refl, blocked_at_end m p q)
try_send_to_answer m p (taken ∷ rest) q = inl (rest, refl, rw (q) refl)
try_send_to_answer m p (blocked ∷ rest) q = inr (rest, send_would_block, refl, refl, rw (q) refl)
try_send_to_answer m p (failed kind ∷ rest) q = inr (rest, io kind, refl, refl, rw (q) refl)

-- the manager behind a packet of data that went out
abbrev pub gone : UtpManager → List Answer → Packet → UtpManager
gone m rest p = after_sent (record m { socket = rest; wire = m.wire ++ p ∷ [] }) p data_packet

addressed-IsData :
    (m : UtpManager) (a time : ℕ) (p : Packet) → IsData p → IsData (addressed m a time p)
unfolding set_packet_seq_number update_timestamp
addressed-IsData m a time p d = d

after_try-data :
    (place : SendPush) (p : Packet) (m : UtpManager)
    → IsData p
    → after_try place p (none, m) ≡ some (none, after_sent m p data_packet)
after_try-data place p m d =
    ap
      (λ (o : Outcome UtpError PacketType). elim o as (λ _. Step) [
        | ok ty ↦ some (none, after_sent m p ty)
        | err e ↦ some (some e, m)
        | panic ↦ none
      ])
      (get_type-data p.header d)

-- `send_packet_inner` on data: the packet goes out, or is back in the queue with an error.
pub send_packet_inner_data :
    (t : Time) (m : UtpManager) (p : Packet) (place : SendPush) {a : SequenceNumber}
    → m.ack_bitfield.first ≡ some a
    → IsData p
    → let p' = addressed m a t.timestamp p in
      ((rest : List Answer) × (m.socket ≡ taken ∷ rest)
        × (send_packet_inner t m p place ≡ some (none, gone m rest p')))
      ⊎ ((rest : List Answer) × (e : UtpError) × (takes m.socket ≡ false)
          × (error_of m.socket ≡ some e)
          × (send_packet_inner t m p place
              ≡ some (some e, record m { socket = rest; to_send = pushed place p' m.to_send })))
unfolding send_packet_inner
send_packet_inner_data t m p place {a} first_is d =
    let p' = addressed m a t.timestamp p in
    let opened =
      bind-some m.ack_bitfield.first a
        (λ n. let q = addressed m n t.timestamp p in after_try place q (try_send_to m q))
        first_is in
    elim (try_send_to_answer m p' m.socket refl) [
      | inl (rest, took, e) ↦ inl (
        rest,
        took,
        opened
            ∙ (ap (after_try place p') e
                ∙ after_try-data place p' _ (addressed-IsData m a t.timestamp p d)),
      )
      | inr (rest, e', refused, why, e) ↦
          inr (rest, e', refused, why, opened ∙ ap (after_try place p') e)
    ]

-- the bytes of packets, and what they count in flight
abbrev pub bytes_of : List Packet → List ℕ
bytes_of [] = []
bytes_of (p ∷ ps) = take p.payload.len p.payload.bytes ++ bytes_of ps

abbrev pub sizes : List Packet → ℕ
sizes [] = 0
sizes (p ∷ ps) = size p + sizes ps

abbrev pub AllData : List Packet → Type 0
AllData [] = Unit
AllData (p ∷ ps) = IsData p × AllData ps

-- packets with the numbers from `n` on, in the header and beside it
abbrev pub IsNumbered : SequenceNumber → List Packet → Type 0
IsNumbered n [] = Unit
IsNumbered n (p ∷ ps) = (get_seq_number p.header ≡ n) × (p.seq_number ≡ n) × IsNumbered (add n 1) ps

-- the map of packets in flight with each of `sent` put under its number
abbrev pub insert_all : List Packet → PacketMap → PacketMap
insert_all [] map = map
insert_all (p ∷ ps) map = insert_all ps (insert p.seq_number p map)

-- that the window of `m` has no room for the first of the packets, if there is one
abbrev pub IsFull : UtpManager → List Packet → Type 0
IsFull m [] = Unit
IsFull m (p ∷ ps) = m.utp.cwnd < size p + m.utp.in_flight

-- `sent` went out of `m`, which became `m'`: each numbered in turn, kept among the packets in flight and
-- counted there, within the window; and what is left waits for the socket or for the window.
abbrev pub Went : UtpManager → UtpManager → List Packet → List Packet → Type 0
Went m m' sent waiting =
    (m'.wire ≡ m.wire ++ sent)
    × IsNumbered m.utp.seq_number sent
    × (m'.utp.seq_number ≡ (m.utp.seq_number + length sent) % 2 ^ 16)
    × (m'.utp.inflight_packets ≡ insert_all sent m.utp.inflight_packets)
    × (m'.utp.in_flight ≡ m.utp.in_flight + sizes sent)
    × (m'.utp.in_flight ≤ max m.utp.in_flight m.utp.cwnd)
    × ((takes (drop (length sent) m.socket) ≡ false) ⊎ IsFull m' waiting)

-- One packet more in front.
pub Went-cons :
    (m m' : UtpManager) (rest : List Answer) (p : Packet) (sent waiting : List Packet)
    → m.socket ≡ taken ∷ rest
    → (get_seq_number p.header ≡ m.utp.seq_number) × (p.seq_number ≡ m.utp.seq_number)
    → size p + m.utp.in_flight ≤ m.utp.cwnd
    → m.utp.cwnd < 2 ^ 32
    → Went (gone m rest p) m' sent waiting
    → Went m m' (p ∷ sent) waiting
unfolding add_packet_inflight
Went-cons m m' rest p sent waiting took (h, n) fits cwnd
      (wire, numbered, seq, held, flown, bound, stop) =
    let flies : (m.utp.in_flight + size p % 2 ^ 32) % 2 ^ 32 ≡ m.utp.in_flight + size p =
      omega arith in
    (
      wire ∙ append_assoc m.wire (p ∷ []) sent,
      (h, n, numbered),
      seq ∙ omega arith,
      held ∙ ap (λ k. insert_all sent (insert k p m.utp.inflight_packets)) (sym n),
      flown ∙ omega arith,
      omega (arith, bound),
      elim stop [ inl refuses ↦ inl (rw (took) refuses) | inr full ↦ inr full ],
    )

-- What a packet is given leaves its bytes and its size.
pub addressed_lem :
    (m : UtpManager) (a time : ℕ) (p : Packet)
    → m.utp.seq_number < 2 ^ 16
    → let p' = addressed m a time p in
      (get_seq_number p'.header ≡ m.utp.seq_number)
      × (p'.seq_number ≡ m.utp.seq_number)
      × (p'.payload ≡ p.payload)
unfolding set_packet_seq_number update_timestamp
addressed_lem m a time p h = (omega arith, refl, refl)

pub bytes_of_one :
    (p p' : Packet) (ps : List Packet)
    → p'.payload ≡ p.payload
    → bytes_of (p' ∷ ps) ≡ bytes_of (p ∷ ps)
bytes_of_one p p' ps e = ap (λ (b : Payload). take b.len b.bytes ++ bytes_of ps) e

pub bytes_cons :
    (p p' : Packet) (sent waiting ps : List Packet)
    → p'.payload ≡ p.payload
    → bytes_of sent ++ bytes_of waiting ≡ bytes_of ps
    → bytes_of (p' ∷ sent) ++ bytes_of waiting ≡ bytes_of (p ∷ ps)
bytes_cons p p' sent waiting ps same e =
    append_assoc (take p'.payload.len p'.payload.bytes) (bytes_of sent) (bytes_of waiting)
    ∙ (ap (λ xs. take p'.payload.len p'.payload.bytes ++ xs) e ∙ bytes_of_one p p' ps same)

-- Packets in their order, by what they carry
abbrev pub payloads : List Packet → List Payload
payloads [] = []
payloads (p ∷ ps) = p.payload ∷ payloads ps

pub payloads_cons :
    (p p' : Packet) (sent waiting ps : List Packet)
    → p'.payload ≡ p.payload
    → payloads sent ++ payloads waiting ≡ payloads ps
    → payloads (p' ∷ sent) ++ payloads waiting ≡ payloads (p ∷ ps)
payloads_cons p p' sent waiting ps same e =
    ap (λ b. b ∷ (payloads sent ++ payloads waiting)) same ∙ ap (λ xs. p.payload ∷ xs) e
