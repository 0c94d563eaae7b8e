-- ===== src/Utp/Manager/Send.antt =====
-- src/utp/manager.rs, `send`: the bytes of the user cut in packets and sent.
use rustorrent.Common.{
  ℕ, ◌+◌, ◌^◌, ◌<◌, ◌≤◌, true, false, Option, none, some, List, [], ◌∷◌, ◌++◌, leb, length, take,
  drop, ◌≡◌, refl, ◌∙◌, ap, sym, inl, inr, arith, leb-cases, append-nil, append_assoc, zero, suc,
  if◌then◌else◌, replicate, take-append, take-append-drop, length-drop, length-take,
  length-replicate,
}
use rustorrent.Common.Checked.{◌>>=◌, bind-some}
use rustorrent.Utp.Seq.{SequenceNumber}
use rustorrent.Utp.Packet.{UtpError, data_packet, header_new}
use rustorrent.Utp.Datagram.{
  Packet, size, packet_with, packet_new_in_place, payload_over, payload_size,
}
use rustorrent.Utp.State.{add_packet_inflight}
use rustorrent.Utp.Manager.{
  UtpManager, Time, back, addressed, send_packet_inner, is_window_large_enough, send_loop, send,
  chunks, packets_of, packet_size,
}
use rustorrent.Utp.Manager.Window.{
  IsData, AllData, bytes_of, Went, gone, Went-cons, addressed_lem, bytes_of_one, bytes_cons,
  send_packet_inner_data,
}

-- `o` is `m` with bytes sent: some went out, and those left are behind the others in the queue.
abbrev pub SendsAll : UtpManager → List ℕ → Option UtpManager → Type 0
SendsAll m bytes o =
    (m' : UtpManager) × (sent waiting : List Packet) × (o ≡ some m')
    × Went m m' sent waiting
    × (m'.to_send ≡ m.to_send ++ waiting)
    × (bytes_of sent ++ bytes_of waiting ≡ bytes)

-- The window is full, or the socket refuses: nothing goes out.
stops_full :
    (t : Time) (m : UtpManager) (p : Packet) (ps : List Packet)
    → m.utp.seq_number < 2 ^ 16
    → m.utp.cwnd < size p + m.utp.in_flight
    → SendsAll m (bytes_of (p ∷ ps)) (send_loop t m (p ∷ ps))
unfolding send_loop is_window_large_enough
stops_full t m p ps h full = (
  record m { to_send = m.to_send ++ p ∷ ps },
  [],
  p ∷ ps,
  let e : leb (size p + m.utp.in_flight) m.utp.cwnd ≡ false = ground arith in
      rw (send_loop, is_window_large_enough, e) refl,
  (sym (append-nil m.wire), tt, omega arith, refl, omega arith, omega arith, inr full),
  refl,
  refl,
)

-- A packet that fits: the loop goes on with what `send_packet_inner` makes of it.
abbrev on_try : Time → List Packet → Option UtpError × UtpManager → Option UtpManager
on_try t ps r = elim r.0 as (λ _. Option UtpManager) [
  | some _ ↦ let m' = r.1 in some (record m' { to_send = m'.to_send ++ ps })
  | none ↦ send_loop t r.1 ps
]

opens_fit :
    (t : Time) (m : UtpManager) (p : Packet) (ps : List Packet)
    → size p + m.utp.in_flight ≤ m.utp.cwnd
    → send_loop t m (p ∷ ps) ≡ (send_packet_inner t m p back >>= on_try t ps)
unfolding send_loop is_window_large_enough
opens_fit t m p ps fits =
    let e : leb (size p + m.utp.in_flight) m.utp.cwnd ≡ true = ground arith in
    rw (send_loop, is_window_large_enough, e) refl

-- The loop of `send` on packets of data.
pub send_loop_lem :
    (t : Time) (m : UtpManager) (ps : List Packet) {a : SequenceNumber}
    → m.ack_bitfield.first ≡ some a
    → m.utp.seq_number < 2 ^ 16
    → m.utp.cwnd < 2 ^ 32
    → AllData ps
    → SendsAll m (bytes_of ps) (send_loop t m ps)
unfolding send_loop add_packet_inflight
send_loop_lem t m [] first_is seq cwnd d = (
  m,
  [],
  [],
  refl,
  (sym (append-nil m.wire), tt, omega arith, refl, omega arith, omega arith, inr tt),
  sym (append-nil m.to_send),
  refl,
)
send_loop_lem t m (p ∷ ps) {a} first_is seq cwnd (d, ds) =
    elim (leb-cases (size p + m.utp.in_flight) m.utp.cwnd) [
      | inr full ↦ stops_full t m p ps seq full
      | inl fits ↦
          let opened = opens_fit t m p ps fits in
          let p' = addressed m a t.timestamp p in
          let (h, n, same) = addressed_lem m a t.timestamp p seq in
          elim (send_packet_inner_data t m p back first_is d) [
            | inr (rest, e, refuses, why, r) ↦ (
              record m { socket = rest; to_send = (m.to_send ++ p' ∷ []) ++ ps },
              [],
              p' ∷ ps,
              opened ∙ bind-some (send_packet_inner t m p back) _ (on_try t ps) r,
              (
                sym (append-nil m.wire),
                tt,
                omega arith,
                refl,
                omega arith,
                omega arith,
                inl refuses,
              ),
              append_assoc m.to_send (p' ∷ []) ps,
              bytes_of_one p p' ps same,
            )
            | inl (rest, took, r) ↦
                let (m', sent, waiting, e, w, queue, bytes) =
                  send_loop_lem t (gone m rest p') ps first_is (omega arith) cwnd ds in
                (
                  m',
                  p' ∷ sent,
                  waiting,
                  opened ∙ (bind-some (send_packet_inner t m p back) _ (on_try t ps) r ∙ e),
                  Went-cons m m' rest p' sent waiting took (h, n) (rw (same) fits) cwnd w,
                  queue,
                  bytes_cons p p' sent waiting ps same bytes,
                )
          ]
    ]

packet_new_lem :
    (c : List ℕ)
    → length c ≤ payload_size
    → (p : Packet) × (packet_new_in_place (replicate payload_size 0) c ≡ some p)
      × IsData p
      × (take p.payload.len p.payload.bytes ≡ c)
unfolding packet_new_in_place payload_over
packet_new_lem c h =
    let array = replicate payload_size 0 in
    (
      packet_with (header_new data_packet)
          (record { bytes = c ++ drop (length c) array; len = length c }),
      ground (arith, length-replicate {A = ℕ} payload_size 0),
      refl,
      take-append c (drop (length c) array),
    )

-- The chunks of a text make packets of it.
packets_of-chunks :
    (fuel n : ℕ) (xs : List ℕ)
    → (0 < n) × (n ≤ payload_size)
    → length xs ≤ fuel
    → (ps : List Packet) × (packets_of (chunks fuel n xs) ≡ some ps)
      × AllData ps
      × (bytes_of ps ≡ xs)
unfolding chunks
packets_of-chunks zero n [] b h = ([], refl, tt, refl)
packets_of-chunks zero n (x ∷ xs) b h = absurd (omega arith)
packets_of-chunks (suc fuel) n [] b h = ([], refl, tt, refl)
packets_of-chunks (suc fuel) n (x ∷ xs) (low, high) h =
    let all = x ∷ xs in
    let (p, made, d, bytes) = packet_new_lem (take n all) (rw (length-take n all) omega arith) in
    let (ps, made', ds, bytes') =
      packets_of-chunks fuel n (drop n all) (low, high) (rw (length-drop n all) omega arith) in
    (
      p ∷ ps,
      bind-some (packet_new_in_place (replicate payload_size 0) (take n all)) p _ made
          ∙ bind-some (packets_of (chunks fuel n (drop n all))) ps (λ qs. some (p ∷ qs)) made',
      (d, ds),
      ap (λ ys. ys ++ bytes_of ps) bytes
          ∙ (ap (λ ys. take n all ++ ys) bytes' ∙ take-append-drop n all),
    )

packet_size_lem : (m : UtpManager) → (0 < packet_size m) × (packet_size m ≤ payload_size)
unfolding packet_size
packet_size_lem m =
    elim m.is_ipv4
      as (λ b. let n : ℕ = (if b then 1382 else 1362) in (0 < n) × (n ≤ payload_size)) [
        | true ↦ (omega arith, omega arith)
        | false ↦ (omega arith, omega arith)
      ]

-- When a first packet has come in, `send` returns. The packets that go out are numbered from the
-- next number on, kept among the packets in flight under their numbers, and counted there, which
-- stays within the window or does not grow; what is left waits at the end of the queue, for the
-- window or for the socket; and the two together are the bytes.
pub send-SendsAll :
    (t : Time) (m : UtpManager) (bytes : List ℕ) {a : SequenceNumber}
    → m.ack_bitfield.first ≡ some a
    → m.utp.seq_number < 2 ^ 16
    → m.utp.cwnd < 2 ^ 32
    → SendsAll m bytes (send t m bytes)
unfolding send
send-SendsAll t m bytes first_is seq cwnd =
    let (ps, made, ds, text) =
      packets_of-chunks (length bytes) (packet_size m) bytes (packet_size_lem m) (omega arith) in
    let (m', sent, waiting, e, went, queue, split) = send_loop_lem t m ps first_is seq cwnd ds in
    (
      m',
      sent,
      waiting,
      bind-some (packets_of (chunks (length bytes) (packet_size m) bytes)) ps (send_loop t m) made
          ∙ e,
      went,
      queue,
      split ∙ text,
    )
