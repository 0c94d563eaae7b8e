-- ===== src/Utp/Manager/Events.antt =====
-- src/utp/manager.rs, `dispatch`, `resend_packets` and `on_timeout`: the bytes in flight and the packets
-- in flight, over an event from the other end or from the clock.
use rustorrent.Common.{
  ℕ, ◌+◌, ◌≡◌, refl, ap, ◌∙◌, Bool, true, false, ◌||◌, not, Option, none, some, [], ◌∷◌,
}
use rustorrent.Common.Checked.{Ensures, bind-Ensures, trivial-Ensures}
use rustorrent.Utp.Seq.{SequenceNumber}
use rustorrent.Utp.Packet.{UtpError, send_would_block}
use rustorrent.Utp.Datagram.{Packet, size, update_timestamp}
use rustorrent.Utp.Ack.{bytes_for_packet}
use rustorrent.Utp.Stream.{PacketMap}
use rustorrent.Utp.State.Flight.{total}
use rustorrent.Utp.Manager.{
  UtpManager, Time, taken, blocked, failed, answered, try_send_to, send_state, with_acks,
  state_packet, after_state, need_state,
}
use rustorrent.Utp.Manager.Resend.{
  resend_packets, resend_loop, after_resend, need_resend, stamped, Resend, kept, sent_again,
}
use rustorrent.Utp.Manager.Flight.{InFlight, StepInFlight}

pub try_send_to_utp : (m : UtpManager) (p : Packet) → (try_send_to m p).1.utp ≡ m.utp
unfolding try_send_to
try_send_to_utp m p =
    elim m.socket
      as (λ answers.
        (elim answers as (λ _. Option UtpError × UtpManager) [
          | [] ↦ (some send_would_block, m)
          | a ∷ rest ↦ answered a (record m { socket = rest }) p
        ]).1.utp
        ≡ m.utp) [
          | [] ↦ refl
          | taken ∷ rest ↦ refl
          | blocked ∷ rest ↦ refl
          | failed kind ∷ rest ↦ refl
        ]

after_state-InFlight :
    (t : Time) (m : UtpManager) (e : Option UtpError) (m' : UtpManager)
    → m'.utp ≡ m.utp
    → InFlight m
    → InFlight (after_state t (e, m'))
after_state-InFlight t m none m' same h = rw (same) h
after_state-InFlight t m (some e) m' same h = rw (same) h

pub send_state-InFlight :
    (t : Time) (m : UtpManager) → InFlight m → Ensures InFlight (send_state t m)
unfolding send_state
send_state-InFlight t m h =
    let needed = need_state m true in
    bind-Ensures (λ _. Unit) InFlight (state_packet needed t) _
      (trivial-Ensures (state_packet needed t))
      (λ p _.
        bind-Ensures (λ _. Unit) InFlight (bytes_for_packet m.ack_bitfield) _
          (trivial-Ensures (bytes_for_packet m.ack_bitfield))
          (λ bytes _.
            bind-Ensures (λ _. Unit) InFlight (with_acks p bytes) _
              (trivial-Ensures (with_acks p bytes))
              (λ p' _.
                let r = try_send_to needed p' in
                after_state-InFlight t needed r.0 r.1 (try_send_to_utp needed p') h)))

-- Sending again leaves the packets' sizes as they are.
stamped_size : (a time : ℕ) (p : Packet) → size (stamped a time p) ≡ size p
unfolding update_timestamp
stamped_size a time p = refl

-- that a loop kept the sizes of `map` and the numbers of `m`
abbrev pub Keeps : PacketMap → UtpManager → Resend → Type 0
Keeps map m (e, map', m') = (total map' ≡ total map) × (m'.utp ≡ m.utp)

sent_again-Keeps :
    (k : SequenceNumber) (p p' : Packet) (map : PacketMap) (m : UtpManager)
    (again : UtpManager → Resend) (r : Option UtpError × UtpManager)
    → size p' ≡ size p
    → r.1.utp ≡ m.utp
    → ((m' : UtpManager) → Keeps map m' (again m'))
    → Keeps ((k, p) ∷ map) m (sent_again k p' map again r)
sent_again-Keeps k p p' map m again (some e, m') same utp rest = (ap (λ n. n + total map) same, utp)
sent_again-Keeps k p p' map m again (none, m') same utp rest =
    (ap (λ n. n + total (again m').1) same ∙ ap (λ n. size p + n) (rest m').0, (rest m').1 ∙ utp)

resend_loop-Keeps :
    (only_lost : Bool) (a time : ℕ) (map : PacketMap) (m : UtpManager)
    → Keeps map m (resend_loop only_lost a time map m)
unfolding resend_loop
resend_loop-Keeps only_lost a time [] m = (refl, refl)
resend_loop-Keeps only_lost a time ((k, p) ∷ map) m =
    elim (not only_lost || p.lost)
      as (λ b. Keeps ((k, p) ∷ map) m (elim b as (λ _. Resend) [
        | false ↦ kept k p (resend_loop only_lost a time map m)
        | true ↦
            let p' = stamped a time p in
            sent_again k p' map (resend_loop only_lost a time map) (try_send_to m p')
      ])) [
        | false ↦
            let (sizes, utp) = resend_loop-Keeps only_lost a time map m in
            (ap (λ n. size p + n) sizes, utp)
        | true ↦
            let p' = stamped a time p in
            sent_again-Keeps k p p' map m (resend_loop only_lost a time map) (try_send_to m p')
              (stamped_size a time p) (try_send_to_utp m p')
              (λ m'. resend_loop-Keeps only_lost a time map m')
      ]

after_resend-InFlight :
    (m : UtpManager) (r : Resend)
    → Keeps m.utp.inflight_packets m r
    → InFlight m
    → InFlight (after_resend r).1
after_resend-InFlight m (none, map, m') (sizes, same) h = rw (same, sizes) h
after_resend-InFlight m (some e, map, m') (sizes, same) h = rw (same, sizes) h

pub resend_packets-InFlight :
    (t : Time) (m : UtpManager) (only_lost : Bool)
    → InFlight m
    → StepInFlight (resend_packets t m only_lost)
unfolding resend_packets
resend_packets-InFlight t m only_lost h =
    bind-Ensures (λ _. Unit) (λ r. InFlight r.1) m.ack_bitfield.first _
      (trivial-Ensures m.ack_bitfield.first)
      (λ a _.
        let needed = need_resend m only_lost in
        let r = resend_loop only_lost a t.timestamp m.utp.inflight_packets needed in
        after_resend-InFlight needed r
          (resend_loop-Keeps only_lost a t.timestamp m.utp.inflight_packets needed) h)
