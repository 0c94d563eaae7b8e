-- ===== src/Utp/Manager/Queue.antt =====
-- src/utp/manager.rs, the loop of `process_incoming` over the queue, on `UtpEvent::Writable`.
use rustorrent.Common.{
  ◌+◌, ◌^◌, ◌<◌, ◌≤◌, true, false, Option, none, some, List, [], ◌∷◌, ◌++◌, leb, ◌≡◌, refl, ◌∙◌,
  sym, ap, drop, length, inl, inr, arith, append-nil, leb-cases,
}
use rustorrent.Common.Checked.{◌>>=◌, bind-some}
use rustorrent.Utp.Seq.{SequenceNumber}
use rustorrent.Utp.Packet.{UtpError}
use rustorrent.Utp.Datagram.{Packet, size}
use rustorrent.Utp.State.{add_packet_inflight}
use rustorrent.Utp.Manager.{
  UtpManager, Time, Step, Answer, taken, front, addressed, send_packet_inner,
  is_window_large_enough,
}
use rustorrent.Utp.Manager.Dispatch.{drain}
use rustorrent.Utp.Manager.Window.{
  AllData, payloads, payloads_cons, IsFull, error_of, Went, gone, addressed_lem, Went-cons,
  send_packet_inner_data,
}

-- It ends well where the window is full or nothing waits, and else in the error that the socket gives
-- behind its answers to what went out.
abbrev pub Ends : Option UtpError → List Answer → UtpManager → List Packet → List Packet → Type 0
Ends none answers m' sent waiting = IsFull m' waiting
Ends (some e) answers m' sent waiting = error_of (drop (length sent) answers) ≡ some e

Ends-cons :
    (e : Option UtpError) (answers rest : List Answer) (m' : UtpManager) (p : Packet)
    (sent waiting : List Packet)
    → answers ≡ taken ∷ rest
    → Ends e rest m' sent waiting
    → Ends e answers m' (p ∷ sent) waiting
Ends-cons none answers rest m' p sent waiting took h = h
Ends-cons (some e) answers rest m' p sent waiting took h = rw (took) h

-- `o` is `m` with some of the packets sent, and the others in the queue.
abbrev pub Drains : UtpManager → List Packet → Step → Type 0
Drains m ps o =
    (e : Option UtpError) × (m' : UtpManager) × (sent waiting : List Packet) × (o ≡ some (e, m'))
    × Went m m' sent waiting
    × (m'.to_send ≡ waiting)
    × (payloads sent ++ payloads waiting ≡ payloads ps)
    × Ends e m.socket m' sent waiting

abbrev on_try : Time → List Packet → Option UtpError × UtpManager → Step
on_try t ps r = elim r.0 as (λ _. Step) [ some _ ↦ some r | none ↦ drain t ps r.1 ]

opens_fit :
    (t : Time) (m : UtpManager) (p : Packet) (ps : List Packet)
    → size p + m.utp.in_flight ≤ m.utp.cwnd
    → drain t (p ∷ ps) m ≡ (send_packet_inner t (record m { to_send = ps }) p front >>= on_try t ps)
unfolding drain is_window_large_enough
opens_fit t m p ps fits =
    let e : leb (size p + m.utp.in_flight) m.utp.cwnd ≡ true = ground arith in
    rw (drain, is_window_large_enough, e) refl

opens_full :
    (t : Time) (m : UtpManager) (p : Packet) (ps : List Packet)
    → m.utp.cwnd < size p + m.utp.in_flight
    → drain t (p ∷ ps) m ≡ some (none, record m { to_send = p ∷ ps })
unfolding drain is_window_large_enough
opens_full t m p ps full =
    let e : leb (size p + m.utp.in_flight) m.utp.cwnd ≡ false = ground arith in
    rw (drain, is_window_large_enough, e) refl

-- When a first packet has come in, the loop over a queue of data ends. The packets that go out are the
-- first of the queue, numbered from the next number on, kept among the packets in flight under their
-- numbers, and counted there, which stays within the window or does not grow; those left stay in the
-- queue in their order. It ends well where the window is full or nothing is left, and else in the error
-- that the socket gives to the first of those left.
pub drain-Drains :
    (t : Time) (ps : List Packet) (m : UtpManager) {a : SequenceNumber}
    → m.ack_bitfield.first ≡ some a
    → m.utp.seq_number < 2 ^ 16
    → m.utp.cwnd < 2 ^ 32
    → AllData ps
    → Drains m ps (drain t ps m)
unfolding drain add_packet_inflight
drain-Drains t [] m first_is seq cwnd d = (
  none,
  record m { to_send = [] },
  [],
  [],
  refl,
  (sym (append-nil m.wire), tt, omega arith, refl, omega arith, omega arith, inr tt),
  refl,
  refl,
  tt,
)
drain-Drains t (p ∷ ps) m {a} first_is seq cwnd (d, ds) =
    elim (leb-cases (size p + m.utp.in_flight) m.utp.cwnd) [
      | inr full ↦ (
        none,
        record m { to_send = p ∷ ps },
        [],
        p ∷ ps,
        opens_full t m p ps full,
        (sym (append-nil m.wire), tt, omega arith, refl, omega arith, omega arith, inr full),
        refl,
        refl,
        full,
      )
      | inl fits ↦
          let mₚ = record m { to_send = ps } in
          let opened = opens_fit t m p ps fits in
          let p' = addressed m a t.timestamp p in
          let (h, n, same) = addressed_lem m a t.timestamp p seq in
          elim (send_packet_inner_data t mₚ p front first_is d) [
            | inr (rest, e, refuses, why, r) ↦ (
              some e,
              record m { socket = rest; to_send = p' ∷ ps },
              [],
              p' ∷ ps,
              opened ∙ bind-some (send_packet_inner t mₚ p front) _ (on_try t ps) r,
              (
                sym (append-nil m.wire),
                tt,
                omega arith,
                refl,
                omega arith,
                omega arith,
                inl refuses,
              ),
              refl,
              ap (λ b. b ∷ payloads ps) same,
              why,
            )
            | inl (rest, took, r) ↦
                let (e', m', sent, waiting, e, w, queue, same_all, ends) =
                  drain-Drains t ps (gone mₚ rest p') first_is (omega arith) cwnd ds in
                (
                  e',
                  m',
                  p' ∷ sent,
                  waiting,
                  opened ∙ (bind-some (send_packet_inner t mₚ p front) _ (on_try t ps) r ∙ e),
                  Went-cons m m' rest p' sent waiting took (h, n) (rw (same) fits) cwnd w,
                  queue,
                  payloads_cons p p' sent waiting ps same same_all,
                  Ends-cons e' m.socket rest m' p' sent waiting took ends,
                )
          ]
    ]
