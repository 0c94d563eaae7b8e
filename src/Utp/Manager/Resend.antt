-- ===== src/Utp/Manager/Resend.antt =====
-- src/utp/manager.rs, `resend_packets`: the packets in flight sent again, all or the lost ones.
use rustorrent.Common.{ℕ, Bool, true, false, ◌||◌, not, Option, none, some, [], ◌∷◌, if◌then◌else◌}
use rustorrent.Common.Checked.{◌>>=◌}
use rustorrent.Utp.Seq.{SequenceNumber}
use rustorrent.Utp.Packet.{UtpError, set_ack_number}
use rustorrent.Utp.Datagram.{Packet, update_timestamp}
use rustorrent.Utp.Ack.{current}
use rustorrent.Utp.Stream.{PacketMap}
use rustorrent.Utp.Manager.{UtpManager, Time, Step, try_send_to, set_need}

-- the loop of `resend_packets` over the packets in flight: its error, the packets and the manager
abbrev pub resent : Packet → Packet
resent p = record p { resent = true; lost = false }

abbrev pub stamped : SequenceNumber → ℕ → Packet → Packet
stamped ack_number timestamp p =
    update_timestamp (record p { header = set_ack_number p.header ack_number }) timestamp

abbrev pub Resend : Type 0
Resend = Option UtpError × PacketMap × UtpManager

abbrev pub kept : SequenceNumber → Packet → Resend → Resend
kept k p (e, map, m) = (e, (k, p) ∷ map, m)

-- a packet's turn, by the answer of the socket
abbrev pub sent_again :
    SequenceNumber
    → Packet
    → PacketMap
    → (UtpManager → Resend)
    → Option UtpError × UtpManager
    → Resend
sent_again k p map again (some e, m) = (some e, (k, p) ∷ map, m)
sent_again k p map again (none, m) = kept k (resent p) (again m)

unfoldable pub resend_loop : Bool → SequenceNumber → ℕ → PacketMap → UtpManager → Resend
unfolding try_send_to
resend_loop only_lost ack_number timestamp [] m = (none, [], m)
resend_loop only_lost ack_number timestamp ((k, p) ∷ map) m = elim (not only_lost || p.lost) [
  | false ↦ kept k p (resend_loop only_lost ack_number timestamp map m)
  | true ↦
      let p' = stamped ack_number timestamp p in
      sent_again k p' map (resend_loop only_lost ack_number timestamp map) (try_send_to m p')
]

abbrev pub need_resend : UtpManager → Bool → UtpManager
need_resend m only_lost = set_need m (
    if only_lost
    then record (m.need_send) { resend_only_lost = true }
    else record (m.need_send) { resend = true })

abbrev pub after_resend : Resend → Option UtpError × UtpManager
after_resend (e, map, m) =
    let flown = record m { utp = record (m.utp) { inflight_packets = map } } in
    (
      e,
      elim e [
        | some _ ↦ flown
        | none ↦
            set_need flown (record (flown.need_send) { resend = false; resend_only_lost = false })
      ],
    )

unfoldable pub resend_packets : Time → UtpManager → Bool → Step
unfolding resend_loop
resend_packets t m only_lost = current m.ack_bitfield >>= λ ack_number. some (
    after_resend (
      resend_loop only_lost ack_number t.timestamp m.utp.inflight_packets
        (need_resend m only_lost)))
