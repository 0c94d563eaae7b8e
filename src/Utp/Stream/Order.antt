-- ===== src/Utp/Stream/Order.antt =====
-- The bytes that a reader gets of a uTP stream, src/utp/stream.rs, whatever the order of the packets.
use rustorrent.Common.{
  ℕ, suc, ◌+◌, ◌^◌, ◌≤◌, ◌<◌, ◌≡◌, refl, sym, ap, ◌∙◌, ◌⊎◌, Bool, true, false, ◌||◌, Bool-cases,
  inl, inr, none, some, List, [], ◌∷◌, ◌++◌, ltb, ◌==◌, if◌then◌else◌, length, All, leb-cases,
  arith,
}
use mathlib.Core.Path.{subst}
use rustorrent.Common.Checked.{bind-some}
use rustorrent.Utp.Seq.{SequenceNumber, add}
use rustorrent.Utp.Packet.{get_seq_number}
use rustorrent.Utp.Datagram.{Packet}
use rustorrent.Utp.Stream.{
  ReceivedData, data_of, first_sequence, done, TryRecvError, empty, closed, PacketMap, lookup,
  insert, UtpStream, handle_message, handle_messages, Poll, ready, pending, ReadLoop, read_loop,
  read_result, poll_read_private,
}
use rustorrent.Utp.Stream.Loop.{
  IsMap-IsUnder, read_loop-Continues, insert-IsMap, delivered, IsMessage, IsAt,
}

-- The connection sends the bytes `chunk j` in the packet of sequence number `base + j`.
module _ (base : SequenceNumber) (chunk : ℕ → List ℕ) where
  lookup-insert :
      (k k' : SequenceNumber) (p p' : Packet) (map : PacketMap)
      → lookup k map ≡ some p
      → (q : Packet) × (lookup k (insert k' p' map) ≡ some q)
  lookup-insert k k' p p' [] e = absurd (ground (arith, e))
  lookup-insert k k' p p' ((k'', p'') ∷ map) e = elim (Bool-cases (k' == k'')) [
    | inl same ↦ elim (Bool-cases (k == k')) [
      | inl here ↦ (p', rw (same, here) refl)
      | inr other ↦
          let s : (k == k'') ≡ false = ground (arith, same, other) in
          (p, rw (same, other) (ap (λ c. if c then some p'' else lookup k map) (sym s) ∙ e))
    ]
    | inr differ ↦ elim (Bool-cases (k == k'')) [
      | inl here ↦ (p'', rw (differ, here) refl)
      | inr other ↦
          let (q, e') =
            lookup-insert k k' p p' map
              (ap (λ c. if c then some p'' else lookup k map) (sym other) ∙ e) in
          (q, rw (differ, other) e')
    ]
  ]

  message-step :
      (m : ReceivedData) (ms : List ReceivedData) (at_end : TryRecvError) (s s₁ : UtpStream)
      (r : Bool × UtpStream × List ReceivedData)
      → handle_message s m ≡ some (true, s₁)
      → handle_messages ms at_end s₁ ≡ some r
      → handle_messages (m ∷ ms) at_end s ≡ some r
  unfolding handle_messages
  message-step m ms at_end s s₁ r e e' = bind-some (handle_message s m) (true, s₁) _ e ∙ e'

  message-data :
      (s : UtpStream) (packet : Packet) (seq : SequenceNumber)
      → s.last_seq ≡ some seq
      → handle_message s (data_of packet)
        ≡ some (
          true,
          record s { received_data = insert (get_seq_number packet.header) packet s.received_data },
        )
  unfolding handle_message
  message-data s packet seq e = bind-some s.last_seq seq _ e

  insert-absent :
      (n k : SequenceNumber) (p : Packet) (map : PacketMap)
      → lookup n (insert k p map) ≡ none
      → ((n == k) ≡ false) × (lookup n map ≡ none)
  insert-absent n k p [] e = elim (Bool-cases (n == k)) [
    | inl here ↦ absurd (ground (arith, e, here))
    | inr other ↦ (other, refl)
  ]
  insert-absent n k p ((k', p') ∷ map) e = elim (Bool-cases (k == k')) [
    | inl same ↦ elim (Bool-cases (n == k)) [
      | inl here ↦ absurd (ground (arith, e, same, here))
      | inr other ↦
          let s : (n == k') ≡ false = ground (arith, same, other) in
          (other, ground (arith, e, same, other, s))
    ]
    | inr differ ↦ elim (Bool-cases (n == k')) [
      | inl here ↦ absurd (ground (arith, e, differ, here))
      | inr other ↦
          let (a, b) = insert-absent n k p map (ground (arith, e, differ, other)) in
          (a, ground (arith, other, b))
    ]
  ]

  -- It is not the packet of this number.
  abbrev pub IsOther : SequenceNumber → ReceivedData → Type 0
  IsOther n (data_of p) = (n == get_seq_number p.header) ≡ false
  IsOther n (first_sequence seq) = Unit
  IsOther n done = Unit

  -- The channel is emptied, or up to the end of the stream.
  abbrev pub Stops : List ReceivedData → List ReceivedData → Type 0
  Stops before left = (left ≡ []) ⊎ ((front : List ReceivedData) × (before ≡ front ++ done ∷ []))

  Stops-cons :
      (m : ReceivedData) (before left : List ReceivedData)
      → Stops before left
      → Stops (m ∷ before) left
  Stops-cons m before left (inl e) = inl e
  Stops-cons m before left (inr (front, e)) = inr (m ∷ front, ap (λ xs. m ∷ xs) e)

  handle_messages-IsAt :
      (i cursor : ℕ) (messages : List ReceivedData) (at_end : TryRecvError) (s : UtpStream)
      → IsAt base chunk i cursor s
      → All (IsMessage base chunk i) messages
      → (is_closed : Bool) × (s' : UtpStream) × (left : List ReceivedData) × (handle_messages
            messages at_end s
          ≡ some (is_closed, s', left))
        × IsAt base chunk i cursor s'
        × (before : List ReceivedData) × (messages ≡ before ++ left)
        × Stops before left
        × ((n : SequenceNumber)
            → lookup n s'.received_data ≡ none
            → (lookup n s.received_data ≡ none) × All (IsOther n) before)
  unfolding handle_messages handle_message
  handle_messages-IsAt i cursor [] empty s h m =
      (false, s, [], refl, h, [], refl, inl refl, λ n e. (e, tt))
  handle_messages-IsAt i cursor [] closed s h m =
      (true, s, [], refl, h, [], refl, inl refl, λ n e. (e, tt))
  handle_messages-IsAt i cursor (data_of packet ∷ ms) at_end s h (sent_packet, m) =
      let k = get_seq_number packet.header in
      let s₁ = record s { received_data = insert k packet s.received_data } in
      let h₁ : IsAt base chunk i cursor s₁ = record {
        at = h.at;
        cursor_at = h.cursor_at;
        inside = h.inside;
        held = still h.held;
        packets = insert-IsMap base chunk i k packet s.received_data sent_packet h.packets;
      } in
      let (is_closed, s', left, e, h', before, cut, stops, absent) =
        handle_messages-IsAt i cursor ms at_end s₁ h₁ m in
      (
        is_closed,
        s',
        left,
        message-step (data_of packet) ms at_end s s₁ (is_closed, s', left)
            (message-data s packet (add base i) h.at) e,
        h',
        data_of packet ∷ before,
        ap (λ xs. data_of packet ∷ xs) cut,
        Stops-cons (data_of packet) before left stops,
        λ n e.
            let (gone, others) = absent n e in
            let (other, never) = insert-absent n k packet s.received_data gone in
            (never, (other, others)),
      )
    where
      still :
          (cursor ≡ 0) ⊎ ((p : Packet) × (lookup (add base i) s.received_data ≡ some p))
          → (cursor ≡ 0)
            ⊎ ((p : Packet) × (lookup
                    (add base i)
                    (insert (get_seq_number packet.header) packet s.received_data)
                  ≡ some p))
      still (inl z) = inl z
      still (inr (p, e)) =
          inr (lookup-insert (add base i) (get_seq_number packet.header) p packet s.received_data e)
  handle_messages-IsAt i cursor (first_sequence seq ∷ ms) at_end s h (never, m) = absurd never
  handle_messages-IsAt i cursor (done ∷ ms) at_end s h m = (
    false,
    record s { flushed = true },
    ms,
    refl,
    record {
      at = h.at;
      cursor_at = h.cursor_at;
      inside = h.inside;
      held = h.held;
      packets = h.packets;
    },
    done ∷ [],
    refl,
    inr ([], refl),
    λ n e. (e, (tt, tt)),
  )

  abbrev pub bytes_of : Poll (List ℕ) → List ℕ
  bytes_of (ready bytes) = bytes
  bytes_of pending = []

  read_result-bytes :
      (is_closed : Bool) (r : ReadLoop)
      → (bytes_of (read_result is_closed r).0 ≡ r.user_data)
        × ((read_result is_closed r).1 ≡ r.stream)
  read_result-bytes is_closed r = elim (Bool-cases (r.returned || ltb 0 (length r.user_data))) [
    | inl e ↦ rw e (refl, refl)
    | inr e ↦ rw e (closing is_closed r.user_data (ground (arith, e)))
  ]
    where
      result : Bool → List ℕ → Poll (List ℕ) × UtpStream
      result c bytes = if c then (ready [], r.stream) else (pending, r.stream)

      closing :
          (c : Bool) (bytes : List ℕ)
          → length bytes ≡ 0
          → (bytes_of (result c bytes).0 ≡ bytes) × ((result c bytes).1 ≡ r.stream)
      closing true [] e = (refl, refl)
      closing false [] e = (refl, refl)
      closing c (b ∷ bytes) e = absurd (omega (arith, e))

  -- The packet of this number is not held, was not, and is none of the messages taken.
  abbrev pub IsMissing : SequenceNumber → UtpStream → UtpStream → List ReceivedData → Type 0
  IsMissing n s' s before =
      (lookup n s'.received_data ≡ none)
      × (lookup n s.received_data ≡ none)
      × All (IsOther n) before

  -- A stream that is at some place of the bytes sent, with the packets that it holds and those of
  -- its messages less than half the numbers from there, in any order and more than once: a read
  -- takes the messages of the channel, all or up to a `done`, does not panic, gives at most `room`
  -- bytes, and these are the ones sent from that place on up to the new one. If it gives fewer,
  -- then the next packet is neither held, nor was it held before, nor was it one of the messages
  -- taken.
  pub poll_read_private-delivered :
      (room i cursor : ℕ) (messages : List ReceivedData) (at_end : TryRecvError) (s : UtpStream)
      → IsAt base chunk i cursor s
      → All (IsMessage base chunk i) messages
      → (poll : Poll (List ℕ)) × (s' : UtpStream) × (left : List ReceivedData) × (packet place : ℕ)
        × (poll_read_private room messages at_end s ≡ some (poll, s', left))
        × IsAt base chunk packet place s'
        × (delivered base chunk i cursor ++ bytes_of poll ≡ delivered base chunk packet place)
        × (length (bytes_of poll) ≤ room)
        × (before : List ReceivedData) × (messages ≡ before ++ left)
        × Stops before left
        × ((room ≤ length (bytes_of poll)) ⊎ IsMissing (add base packet) s' s before)
  unfolding poll_read_private
  poll_read_private-delivered room i cursor messages at_end s h m =
      let (is_closed, s₁, left, e, h₁, before, cut, stops, absent) =
        handle_messages-IsAt i cursor messages at_end s h m in
      let (r, e', c) =
        read_loop-Continues base chunk (i + 2 ^ 15) (suc (length s₁.received_data)) room i cursor s₁
          [] (omega arith) h₁.inside h₁.held h₁.packets (omega arith) (omega arith)
          (IsMap-IsUnder base chunk i s₁.received_data h₁.packets) in
      let (b, t) = read_result-bytes is_closed r in
      let bytes : bytes_of (read_result is_closed r).0 ≡ c.bytes = b ∙ c.written in
      let poll = (read_result is_closed r).0 in
      let s' = (read_result is_closed r).1 in
      (
        poll,
        s',
        left,
        c.packet,
        c.place,
        bind-some (handle_messages messages at_end s) (is_closed, s₁, left) _ e
            ∙ bind-some s₁.last_seq (add base i) _ h₁.at
            ∙ bind-some
                (read_loop (suc (length s₁.received_data)) room s₁ (add base i) s₁.cursor []) r _
                (ap (λ n. read_loop (suc (length s₁.received_data)) room s₁ (add base i) n [])
                    h₁.cursor_at
                  ∙ e'),
        subst (λ x. IsAt base chunk c.packet c.place x) (sym t) c.stream_at,
        ap (λ x. delivered base chunk i cursor ++ x) bytes ∙ c.goes_on,
        subst (λ x. length x ≤ room) (sym bytes) c.fits,
        before,
        cut,
        stops,
        elim (leb-cases room (length (bytes_of poll))) [
          | inl full ↦ inl full
          | inr less ↦
              let gone = c.missing (subst (λ x. length x < room) bytes less) in
              let (never, others) = absent (add base c.packet) (c.kept gone) in
              inr (ap (λ x. lookup (add base c.packet) x.received_data) t ∙ gone, never, others)
        ],
      )
