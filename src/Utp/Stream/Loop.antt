-- ===== src/Utp/Stream/Loop.antt =====
-- The loop of `poll_read_private` in src/utp/stream.rs, on the packets of a connection in any order.
use rustorrent.Common.{
  ℕ, zero, suc, ◌+◌, ◌-◌, ◌^◌, ◌≤◌, ◌<◌, ◌≡◌, refl, sym, ap, ◌∙◌, ◌⊎◌, true, false, Bool-cases,
  Option-cases, inl, inr, none, some, some-injective, List, [], ◌∷◌, ◌++◌, append-nil, append_assoc,
  ltb, leb, ◌==◌, if◌then◌else◌, length, length-append, length-take, length-drop, take, drop,
  take-append-drop, min, All, arith,
}
use rustorrent.Utp.Seq.{SequenceNumber, add, cmp_greater}
use rustorrent.Utp.Seq.Order.{cmp_window}
use rustorrent.Utp.Packet.{get_seq_number}
use rustorrent.Utp.Datagram.{Packet, get_data}
use rustorrent.Utp.Stream.Under.{IsUnder, retain-IsUnder, lookup-IsUnder, retain-absent}
use rustorrent.Utp.Stream.{
  ReceivedData, data_of, first_sequence, done, PacketMap, lookup, insert, retain_greater, UtpStream,
  ReadLoop, cut_read, rest_of, read_loop,
}

-- The connection sends the bytes `chunk j` in the packet of sequence number `base + j`.
module _ (base : SequenceNumber) (chunk : ℕ → List ℕ) where
  -- the bytes of so many packets
  abbrev pub sent : ℕ → List ℕ
  sent zero = []
  sent (suc n) = sent n ++ chunk n

  -- what a reader has got who is at the byte `cursor` of packet `i`
  abbrev pub delivered : ℕ → ℕ → List ℕ
  delivered i cursor = sent i ++ take cursor (chunk i)

  -- a packet of the connection, less than half the numbers from packet `i`
  abbrev pub IsSent : ℕ → SequenceNumber → Packet → Type 0
  IsSent i k p =
      (j : ℕ) × (k ≡ add base j)
      × (j < i + 2 ^ 15)
      × (i < j + 2 ^ 15)
      × (get_data p ≡ some (chunk j))

  abbrev pub IsMap : ℕ → PacketMap → Type 0
  IsMap i map = All (λ e. IsSent i e.0 e.1) map

  abbrev pub IsMessage : ℕ → ReceivedData → Type 0
  IsMessage i (data_of p) = IsSent i (get_seq_number p.header) p
  IsMessage i (first_sequence seq) = ⊥
  IsMessage i done = Unit

  -- The stream is at the byte `cursor` of packet `i`.
  pub record IsAt (i cursor : ℕ) (s : UtpStream) : Type 0 where
    pub at : s.last_seq ≡ some (add base i)
    pub cursor_at : s.cursor ≡ cursor
    pub inside : cursor ≤ length (chunk i)
    pub held : (cursor ≡ 0) ⊎ ((p : Packet) × (lookup (add base i) s.received_data ≡ some p))
    pub packets : IsMap i s.received_data

  pub insert-IsMap :
      (i : ℕ) (k : SequenceNumber) (p : Packet) (map : PacketMap)
      → IsSent i k p
      → IsMap i map
      → IsMap i (insert k p map)
  insert-IsMap i k p [] h m = (h, tt)
  insert-IsMap i k p ((k', p') ∷ map) h m = elim (Bool-cases (k == k')) [
    | inl e ↦ rw e (h, m.1)
    | inr e ↦ rw e (m.0, insert-IsMap i k p map h m.1)
  ]

  lookup-IsMap :
      (i : ℕ) (map : PacketMap) (p : Packet)
      → IsMap i map
      → lookup (add base i) map ≡ some p
      → get_data p ≡ some (chunk i)
  lookup-IsMap i [] p m e = absurd (ground (arith, e))
  lookup-IsMap i ((k, p') ∷ map) p ((j, s, a, b, d), m) e = elim (Bool-cases (add base i == k)) [
    | inl same ↦
        let ij : j ≡ i = ground (arith, same, s, a, b) in
        let pp : p' ≡ p =
          some-injective _ _
            (ap (λ c. if c then some p' else lookup (add base i) map) (sym same) ∙ e) in
        ap get_data (sym pp) ∙ d ∙ ap (λ n. some (chunk n)) ij
    | inr other ↦
        lookup-IsMap i map p m
          (ap (λ c. if c then some p' else lookup (add base i) map) (sym other) ∙ e)
  ]

  retain-IsMap :
      (i : ℕ) (map : PacketMap) → IsMap i map → IsMap (suc i) (retain_greater (add base i) map)
  unfolding retain_greater
  retain-IsMap i [] m = tt
  retain-IsMap i ((k, p) ∷ map) ((j, s, a, b, d), m) =
      elim (Bool-cases (cmp_greater k (add base i))) [
        | inl e ↦
            let (_, _, w) = cmp_window base j i a b in
            let l : ltb i j ≡ true = sym w ∙ ap (λ x. cmp_greater x (add base i)) (sym s) ∙ e in
            rw e ((j, s, ground (arith, a), ground (arith, l), d), retain-IsMap i map m)
        | inr e ↦ rw e (retain-IsMap i map m)
      ]

  length-retain :
      (k : SequenceNumber) (map : PacketMap) → length (retain_greater k map) ≤ length map
  unfolding retain_greater
  length-retain k [] = omega arith
  length-retain k ((k', p) ∷ map) =
      let l = length-retain k map in
      elim (Bool-cases (cmp_greater k' k)) [
        | inl e ↦ rw e (omega (arith, l))
        | inr e ↦ rw e (omega (arith, l))
      ]

  not_greater_self : (k : SequenceNumber) → cmp_greater k k ≡ false
  unfolding cmp_greater
  not_greater_self k = ground arith

  length-retain_lookup :
      (k : SequenceNumber) (map : PacketMap) (p : Packet)
      → lookup k map ≡ some p
      → length (retain_greater k map) < length map
  unfolding retain_greater
  length-retain_lookup k [] p e = absurd (ground (arith, e))
  length-retain_lookup k ((k', p') ∷ map) p e = elim (Bool-cases (k == k')) [
    | inl same ↦
        let s : k' ≡ k = ground (arith, same) in
        let g : cmp_greater k' k ≡ false = ap (λ x. cmp_greater x k) s ∙ not_greater_self k in
        let l = length-retain k map in rw g (omega (arith, l))
    | inr other ↦
        let e' = ap (λ c. if c then some p' else lookup k map) (sym other) ∙ e in
        let l = length-retain_lookup k map p e' in
        elim (Bool-cases (cmp_greater k' k)) [
          | inl g ↦ rw g (omega (arith, l))
          | inr g ↦ rw g (omega (arith, l))
        ]
  ]

  pub IsMap-IsUnder : (i : ℕ) (map : PacketMap) → IsMap i map → IsUnder base (i + 2 ^ 15) i map
  IsMap-IsUnder i [] m = tt
  IsMap-IsUnder i (e ∷ map) ((j, s, a, b, d), m) = ((j, s, a, b), IsMap-IsUnder i map m)

  -- What the loop has done with a map of packets before packet `top`: it went on from a place in the
  -- stream to a later one, and if the packet there is not in the map left, then it never was.
  pub record Continues (top : ℕ) (map : PacketMap) (room i cursor : ℕ) (acc : List ℕ) (r : ReadLoop)
      : Type 0 where
    pub bytes : List ℕ
    pub packet : ℕ
    pub place : ℕ
    pub written : r.user_data ≡ acc ++ bytes
    pub fits : length bytes ≤ room
    pub stream_at : IsAt packet place r.stream
    pub goes_on : delivered i cursor ++ bytes ≡ delivered packet place
    pub missing : length bytes < room → lookup (add base packet) r.stream.received_data ≡ none
    pub onwards : i ≤ packet
    pub under : packet ≤ top
    pub kept :
        lookup (add base packet) r.stream.received_data ≡ none → lookup (add base packet) map ≡ none

  take_nil : (n : ℕ) → take {A = ℕ} n [] ≡ []
  take_nil zero = refl
  take_nil (suc n) = refl

  take-add : (a b : ℕ) (xs : List ℕ) → take a xs ++ take b (drop a xs) ≡ take (a + b) xs
  take-add zero b xs = ap (λ n. take n xs) (omega arith)
  take-add (suc a) b [] = take_nil b ∙ sym (take_nil (suc a + b))
  take-add (suc a) b (x ∷ xs) =
      let e : suc (a + b) ≡ suc a + b = omega arith in
      ap (λ ys. x ∷ ys) (take-add a b xs) ∙ ap (λ n. take n (x ∷ xs)) e

  -- a packet read to its end
  delivered-drop :
      (i cursor : ℕ) → delivered i cursor ++ drop cursor (chunk i) ≡ delivered (suc i) 0
  delivered-drop i cursor =
      append_assoc (sent i) (take cursor (chunk i)) (drop cursor (chunk i))
      ∙ ap (λ xs. sent i ++ xs) (take-append-drop cursor (chunk i))
      ∙ sym (append-nil (sent (suc i)))

  delivered-take :
      (i cursor n : ℕ)
      → delivered i cursor ++ take n (drop cursor (chunk i)) ≡ delivered i (cursor + n)
  delivered-take i cursor n =
      append_assoc (sent i) (take cursor (chunk i)) (take n (drop cursor (chunk i)))
      ∙ ap (λ xs. sent i ++ xs) (take-add cursor n (chunk i))

  rest_of-drop :
      (packet : Packet) (i cursor : ℕ)
      → get_data packet ≡ some (chunk i)
      → cursor ≤ length (chunk i)
      → rest_of packet cursor ≡ some (drop cursor (chunk i))
  unfolding rest_of
  rest_of-drop packet i cursor e l =
      let inside : leb cursor (length (chunk i)) ≡ true = ground (arith, l) in rw (e, inside) refl

  loop-none :
      (fuel room : ℕ) (s : UtpStream) (seq : SequenceNumber) (cursor : ℕ) (acc : List ℕ)
      → lookup seq s.received_data ≡ none
      → read_loop (suc fuel) room s seq cursor acc
        ≡ some (record {
          returned = false;
          user_data = acc;
          stream = record s { cursor = 0; last_seq = some seq };
        })
  unfolding read_loop
  loop-none fuel room s seq cursor acc e = rw (read_loop, e) refl

  loop-cut :
      (fuel room : ℕ) (s : UtpStream) (seq : SequenceNumber) (cursor : ℕ) (acc : List ℕ)
      (p : Packet) (bytes : List ℕ)
      → lookup seq s.received_data ≡ some p
      → rest_of p cursor ≡ some bytes
      → room < length bytes
      → read_loop (suc fuel) room s seq cursor acc ≡ some (cut_read s seq cursor acc bytes room)
  unfolding read_loop
  loop-cut fuel room s seq cursor acc p bytes e e' l =
      let w : min room (length bytes) ≡ room = omega (arith, l) in
      let c : (min room (length bytes) == length bytes) ≡ false = ground (arith, l) in
      rw (read_loop, e, e', c, w) refl

  loop-next :
      (fuel room : ℕ) (s : UtpStream) (seq : SequenceNumber) (cursor : ℕ) (acc : List ℕ)
      (p : Packet) (bytes : List ℕ)
      → lookup seq s.received_data ≡ some p
      → rest_of p cursor ≡ some bytes
      → length bytes ≤ room
      → read_loop (suc fuel) room s seq cursor acc
        ≡ read_loop fuel
            (room - length bytes)
            (record s { received_data = retain_greater seq s.received_data })
            (add seq 1)
            0
            (acc ++ bytes)
  unfolding read_loop
  loop-next fuel room s seq cursor acc p bytes e e' l =
      let w : min room (length bytes) ≡ length bytes = omega (arith, l) in
      let c : (min room (length bytes) == length bytes) ≡ true = ground (arith, l) in
      rw (read_loop, e, e', c, w) refl

  Continues-next :
      (top : ℕ) (map : PacketMap) (room i cursor : ℕ) (acc : List ℕ) (r : ReadLoop)
      → top ≤ i + 2 ^ 15
      → IsUnder base top i map
      → length (drop cursor (chunk i)) ≤ room
      → Continues top
          (retain_greater (add base i) map)
          (room - length (drop cursor (chunk i)))
          (suc i)
          0
          (acc ++ drop cursor (chunk i))
          r
      → Continues top map room i cursor acc r
  Continues-next top map room i cursor acc r t m l c =
      let part = drop cursor (chunk i) in
      let n = length-append part c.bytes in
      let f = c.fits in
      record {
        bytes = part ++ c.bytes;
        packet = c.packet;
        place = c.place;
        written = c.written ∙ append_assoc acc part c.bytes;
        fits = omega (arith, n, l, f);
        stream_at = c.stream_at;
        goes_on =
            sym (append_assoc (delivered i cursor) part c.bytes)
            ∙ ap (λ xs. xs ++ c.bytes) (delivered-drop i cursor)
            ∙ c.goes_on;
        missing = λ h. c.missing (omega (arith, n, h, l));
        onwards = omega (arith, c.onwards);
        under = c.under;
        kept = λ e.
            retain-absent base top i c.packet map t m (omega (arith, c.onwards)) c.under (c.kept e);
      }

  pub read_loop-Continues :
      (top fuel room i cursor : ℕ) (s : UtpStream) (acc : List ℕ)
      → length s.received_data < fuel
      → cursor ≤ length (chunk i)
      → (cursor ≡ 0) ⊎ ((p : Packet) × (lookup (add base i) s.received_data ≡ some p))
      → IsMap i s.received_data
      → i ≤ top
      → top ≤ i + 2 ^ 15
      → IsUnder base top i s.received_data
      → (r : ReadLoop) × (read_loop fuel room s (add base i) cursor acc ≡ some r)
        × Continues top s.received_data room i cursor acc r
  read_loop-Continues top zero room i cursor s acc l inside held m t t' u =
      absurd (omega (arith, l))
  read_loop-Continues top (suc fuel) room i cursor s acc l inside held m t t' u =
      elim (Option-cases (lookup (add base i) s.received_data)) [
        | inl e ↦
            let zero_at : cursor ≡ 0 = start held e in
            (
              record {
                returned = false;
                user_data = acc;
                stream = record s { cursor = 0; last_seq = some (add base i) };
              },
              loop-none fuel room s (add base i) cursor acc e,
              record {
                bytes = [];
                packet = i;
                place = 0;
                written = sym (append-nil acc);
                fits = omega arith;
                stream_at = record {
                  at = refl;
                  cursor_at = refl;
                  inside = omega arith;
                  held = inl refl;
                  packets = m;
                };
                goes_on = append-nil (delivered i cursor) ∙ ap (delivered i) zero_at;
                missing = λ h. e;
                onwards = omega arith;
                under = t;
                kept = λ h. e;
              },
            )
        | inr (p, e) ↦
            let part = drop cursor (chunk i) in
            let e' = rest_of-drop p i cursor (lookup-IsMap i s.received_data p m e) inside in
            elim (Bool-cases (leb (length part) room)) [
              | inl fits ↦
                  let l' : length part ≤ room = ground (arith, fits) in
                  let map' = retain_greater (add base i) s.received_data in
                  let before = lookup-IsUnder base top i s.received_data p t' u e in
                  let n = length-retain_lookup (add base i) s.received_data p e in
                  let (r, e'', c) =
                    read_loop-Continues top fuel (room - length part) (suc i) 0
                      (record s { received_data = map' }) (acc ++ part) (omega (arith, n, l))
                      (omega arith) (inl refl) (retain-IsMap i s.received_data m)
                      (omega (arith, before)) (omega (arith, t'))
                      (retain-IsUnder base top i s.received_data t' u) in
                  let seq : add (add base i) 1 ≡ add base (suc i) = omega arith in
                  (
                    r,
                    loop-next fuel room s (add base i) cursor acc p part e e' l'
                        ∙ ap
                            (λ k.
                              read_loop fuel (room - length part)
                                (record s { received_data = map' }) k 0 (acc ++ part))
                            seq
                        ∙ e'',
                    Continues-next top s.received_data room i cursor acc r t' u l' c,
                  )
              | inr cut ↦
                  let l' : room < length part = ground (arith, cut) in
                  let n = length-take room part in
                  let n' = length-drop cursor (chunk i) in
                  (
                    cut_read s (add base i) cursor acc part room,
                    loop-cut fuel room s (add base i) cursor acc p part e e' l',
                    record {
                      bytes = take room part;
                      packet = i;
                      place = cursor + room;
                      written = refl;
                      fits = omega (arith, n);
                      stream_at = record {
                        at = refl;
                        cursor_at = refl;
                        inside = omega (arith, n', l');
                        held = inr (p, e);
                        packets = m;
                      };
                      goes_on = delivered-take i cursor room;
                      missing = λ h. absurd (omega (arith, n, l', h));
                      onwards = omega arith;
                      under = t;
                      kept = λ h. h;
                    },
                  )
            ]
      ]
    where
      start :
          (cursor ≡ 0) ⊎ ((p : Packet) × (lookup (add base i) s.received_data ≡ some p))
          → lookup (add base i) s.received_data ≡ none
          → cursor ≡ 0
      start (inl h) e = h
      start (inr (p, h)) e = absurd (ground (arith, h, e))
