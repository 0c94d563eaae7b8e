-- ===== src/Utp/Manager/Timeout.antt =====
-- src/utp/manager.rs, `on_timeout` in the loop of `start`: the end of a connection of which the other end
-- is silent.
use rustorrent.Common.{
  ℕ, zero, suc, ◌+◌, ◌*◌, ◌<◌, ◌≤◌, ◌≡◌, refl, sym, ap, ◌∙◌, Bool, true, false, ◌&&◌, ◌||◌, Option,
  none, some, List, [], ◌∷◌, ◌++◌, if◌then◌else◌, leb, ltb, length, drop, arith, append-nil,
  append_assoc,
}
use mathlib.Core.Path.{subst}
use rustorrent.Common.Checked.{bind-some}
use rustorrent.Utp.Seq.{SequenceNumber}
use rustorrent.Utp.Packet.{UtpError, io, timed_out}
use rustorrent.Utp.Datagram.{Packet, update_timestamp}
use rustorrent.Utp.Stream.{PacketMap}
use rustorrent.Utp.State.{connected}
use rustorrent.Utp.Manager.{
  UtpManager, Time, Step, Answer, taken, blocked, failed, ◌and_then◌, try_send_to, millisecond,
}
use rustorrent.Utp.Manager.Resend.{
  resend_packets, resend_loop, Resend, stamped, need_resend, after_resend,
}
use rustorrent.Utp.Manager.Receive.{timeout_event}
use rustorrent.Utp.Manager.Dispatch.{
  Event, run, process_incoming, on_timeout, count_timeout, set_timeout, is_syn_sent, is_sending,
}

-- that the socket's next `n` answers are that it takes the packet
abbrev pub Willing : ℕ → List Answer → Type 0
Willing zero answers = Unit
Willing (suc n) [] = ⊥
Willing (suc n) (taken ∷ answers) = Willing n answers
Willing (suc n) (_ ∷ answers) = ⊥

Willing-taken :
    (n : ℕ) (answers : List Answer)
    → Willing (suc n) answers
    → (rest : List Answer) × (answers ≡ taken ∷ rest) × Willing n rest
Willing-taken n [] w = absurd w
Willing-taken n (taken ∷ rest) w = (rest, refl, w)
Willing-taken n (blocked ∷ rest) w = absurd w
Willing-taken n (failed kind ∷ rest) w = absurd w

Willing-drop :
    (a b : ℕ) (answers : List Answer)
    → Willing (a + b) answers
    → Willing a answers × Willing b (drop a answers)
Willing-drop zero b answers w =
    let same : zero + b ≡ b = omega arith in (tt, subst (λ n. Willing n answers) same w)
Willing-drop (suc a) b answers w =
    let more : suc a + b ≡ suc (a + b) = omega arith in
    let (rest, took, w') = Willing-taken (a + b) answers (subst (λ n. Willing n answers) more w) in
    let (first, second) = Willing-drop a b rest w' in (rw (took) first, rw (took) second)

try_send_to_taken :
    (m : UtpManager) (p : Packet) (rest : List Answer)
    → m.socket ≡ taken ∷ rest
    → try_send_to m p ≡ (none, record m { socket = rest; wire = m.wire ++ p ∷ [] })
unfolding try_send_to
try_send_to_taken m p rest took = rw (took) refl

-- the numbers of packets, in flight and on the wire
abbrev pub numbers : PacketMap → List SequenceNumber
numbers [] = []
numbers ((k, p) ∷ map) = p.seq_number ∷ numbers map

abbrev pub wire_numbers : List Packet → List SequenceNumber
wire_numbers [] = []
wire_numbers (p ∷ ps) = p.seq_number ∷ wire_numbers ps

-- a list so many times over
abbrev pub repeat : ℕ → List SequenceNumber → List SequenceNumber
repeat zero xs = []
repeat (suc k) xs = xs ++ repeat k xs

wire_numbers-append :
    (ps qs : List Packet) → wire_numbers (ps ++ qs) ≡ wire_numbers ps ++ wire_numbers qs
wire_numbers-append [] qs = refl
wire_numbers-append (p ∷ ps) qs = ap (λ ns. p.seq_number ∷ ns) (wire_numbers-append ps qs)

-- what a loop that meets no error leaves of `m`: it sends each packet of the map, in turn.
abbrev pub Resent : PacketMap → UtpManager → Resend → Type 0
Resent map m (e, map', m') =
    (e ≡ none)
    × (length map' ≡ length map)
    × (numbers map' ≡ numbers map)
    × (wire_numbers m'.wire ≡ wire_numbers m.wire ++ numbers map)
    × (m' ≡ record m { socket = drop (length map) m.socket; wire = m'.wire })

resend_loop-Resent :
    (a time : ℕ) (map : PacketMap) (m : UtpManager)
    → Willing (length map) m.socket
    → Resent map m (resend_loop false a time map m)
unfolding resend_loop update_timestamp
resend_loop-Resent a time [] m w = (refl, refl, refl, sym (append-nil (wire_numbers m.wire)), refl)
resend_loop-Resent a time ((k, p) ∷ map) m w =
    let (rest, took, w') = Willing-taken (length map) m.socket w in
    let p' = stamped a time p in
    let (e, same, ns, out, after) =
      resend_loop-Resent a time map (record m { socket = rest; wire = m.wire ++ p' ∷ [] }) w' in
    let out' =
      out
      ∙ ap (λ xs. xs ++ numbers map) (wire_numbers-append m.wire (p' ∷ []))
      ∙ append_assoc (wire_numbers m.wire) (p.seq_number ∷ []) (numbers map) in
    rw (resend_loop, try_send_to_taken m p' rest took, took)
      (e, ap suc same, ap (λ xs. p.seq_number ∷ xs) ns, out', after)

-- A connection with bytes in flight in so many packets, of these numbers, of which the other end has
-- sent something
abbrev pub Waits : ℕ → List SequenceNumber → SequenceNumber → UtpManager → Type 0
Waits n ns a m =
    (m.utp.utp_state ≡ connected)
    × (m.ack_bitfield.first ≡ some a)
    × (0 < m.utp.in_flight)
    × (length m.utp.inflight_packets ≡ n)
    × (numbers m.utp.inflight_packets ≡ ns)

-- `m'` is `m` on one round of answers, with nothing else of it changed that the clock asks for.
abbrev pub IsRound : ℕ → List SequenceNumber → SequenceNumber → UtpManager → UtpManager → Type 0
IsRound n ns a m m' =
    Waits n ns a m'
    × (wire_numbers m'.wire ≡ wire_numbers m.wire ++ ns)
    × (m'.socket ≡ drop n m.socket)
    × (m'.ntimeout ≡ m.ntimeout)
    × (m'.rto ≡ m.rto)

after_resend-IsRound :
    (m : UtpManager) (n : ℕ) (ns : List SequenceNumber) (a : SequenceNumber) (r : Resend)
    → Waits n ns a m
    → Resent m.utp.inflight_packets m r
    → ((after_resend r).0 ≡ none) × IsRound n ns a m (after_resend r).1
after_resend-IsRound m n ns a (some e, map, m') w (err, same, same_ns, out, after) =
    absurd (ground (arith, err))
after_resend-IsRound m n ns a (none, map, m') (s, first_is, flown, count, nums)
      (err, same, same_ns, out, after) =
    (
      refl,
      (
        (
          ap (λ (x : UtpManager). x.utp.utp_state) after ∙ s,
          ap (λ (x : UtpManager). x.ack_bitfield.first) after ∙ first_is,
          subst (λ (k : ℕ). 0 < k) (sym (ap (λ (x : UtpManager). x.utp.in_flight) after)) flown,
          same ∙ count,
          same_ns ∙ nums,
        ),
        out ∙ ap (λ xs. wire_numbers m.wire ++ xs) nums,
        ap (λ (x : UtpManager). x.socket) after ∙ ap (λ k. drop k m.socket) count,
        ap (λ (x : UtpManager). x.ntimeout) after,
        ap (λ (x : UtpManager). x.rto) after,
      ),
    )

resend_packets-IsRound :
    (t : Time) (m : UtpManager) (n : ℕ) (ns : List SequenceNumber) (a : SequenceNumber)
    → Waits n ns a m
    → Willing n m.socket
    → (m' : UtpManager) × (resend_packets t m false ≡ some (none, m')) × IsRound n ns a m m'
unfolding resend_packets
resend_packets-IsRound t m n ns a (s, first_is, flown, count, nums) w =
    let needed = need_resend m false in
    let map = m.utp.inflight_packets in
    let r = resend_loop false a t.timestamp map needed in
    let all =
      resend_loop-Resent a t.timestamp map needed (subst (λ k. Willing k m.socket) (sym count) w) in
    let (e, round) = after_resend-IsRound needed n ns a r (s, first_is, flown, count, nums) all in
    let opened =
      bind-some m.ack_bitfield.first a
        (λ n. some (after_resend (resend_loop false n t.timestamp map needed))) first_is in
    (
      (after_resend r).1,
      opened ∙ ap (λ (x : Option UtpError). some (x, (after_resend r).1)) e,
      round,
    )

ticks_on :
    (t : Time) (m m' : UtpManager) (over sending : Bool) (step : Step)
    → over ≡ false
    → sending ≡ true
    → step ≡ some (none, m')
    → ltb 0 m'.utp.in_flight ≡ true
    → (if over
        then some (some (io timed_out), m)
        else (if sending then step else some (none, m)) and_then count_timeout and_then λ m'.
            some (none, set_timeout t m'))
      ≡ some (none, set_timeout t (record m' { ntimeout = m'.ntimeout + 1 }))
ticks_on t m m' over sending step e e' r flown = rw (e, e', r, flown) refl

-- A tick of the clock before the seventh in a row counts one more, and sends again.
on_timeout-IsRound :
    (t : Time) (m : UtpManager) (n : ℕ) (ns : List SequenceNumber) (a : SequenceNumber)
    → Waits n ns a m
    → Willing n m.socket
    → m.ntimeout < 7
    → (m' : UtpManager) × (on_timeout t m ≡ some (none, m'))
      × Waits n ns a m'
      × (wire_numbers m'.wire ≡ wire_numbers m.wire ++ ns)
      × (m'.socket ≡ drop n m.socket)
      × (m'.ntimeout ≡ suc m.ntimeout)
      × (m'.rto ≡ m.rto)
      × (m'.timeout ≡ t.instant + m.rto * millisecond)
unfolding on_timeout
on_timeout-IsRound t m n ns a (s, first_is, flown, count, nums) w few =
    let (m', r, ((s', first', flown', count', nums'), out, socket, ticks, rto)) =
      resend_packets-IsRound t m n ns a (s, first_is, flown, count, nums) w in
    let seven : leb 7 m.ntimeout ≡ false = ground arith in
    let some_flown : ltb 0 m.utp.in_flight ≡ true = ground arith in
    let still_flown : ltb 0 m'.utp.in_flight ≡ true = ground arith in
    (
      set_timeout t (record m' { ntimeout = m'.ntimeout + 1 }),
      ticks_on t m m' (is_syn_sent m.utp.utp_state && leb 3 m.ntimeout || leb 7 m.ntimeout)
          (is_sending m.utp.utp_state && ltb 0 m.utp.in_flight) (resend_packets t m false)
          (rw (s, seven) refl) (rw (s, some_flown) refl) r still_flown,
      (s', first', flown', count', nums'),
      out,
      socket,
      omega (arith, ticks),
      rto,
      omega (arith, rto),
    )

ends_timed_out :
    (t : Time) (m : UtpManager)
    → m.utp.utp_state ≡ connected
    → 7 ≤ m.ntimeout
    → on_timeout t m ≡ some (some (io timed_out), m)
unfolding on_timeout
ends_timed_out t m s many =
    let seven : leb 7 m.ntimeout ≡ true = ground arith in
    let over : (is_syn_sent m.utp.utp_state && leb 3 m.ntimeout || leb 7 m.ntimeout) ≡ true =
      rw (s, seven) refl in
    rw (on_timeout, over) refl

-- the clock alone, and times that lie behind each timeout
abbrev pub ticks : List Time → List Event
ticks [] = []
ticks (t ∷ ts) = (t, 0, timeout_event) ∷ ticks ts

abbrev pub Spaced : ℕ → ℕ → List Time → Type 0
Spaced timeout rto [] = Unit
Spaced timeout rto (t ∷ ts) = (timeout < t.instant) × Spaced (t.instant + rto * millisecond) rto ts

module _ (gain : ℕ → ℕ → ℕ → Option ℕ) where
  on_tick :
      (t : Time) (m : UtpManager)
      → m.timeout < t.instant
      → process_incoming gain (t, 0, timeout_event) m ≡ on_timeout t m
  unfolding process_incoming
  on_tick t m late = let e : ltb m.timeout t.instant ≡ true = ground arith in rw (e) refl

  -- A connection that is made, of which a first packet has come in, has bytes in flight, and the socket
  -- takes all that is sent again. When the clock ticks behind each timeout, as often as are left of eight,
  -- and nothing comes in, each tick but the last sends every packet in flight again and counts one
  -- more; the eighth ends the loop in the error TimedOut, and not before.
  pub run-timed_out :
      (k : ℕ) (ts : List Time) (m : UtpManager) (n : ℕ) (ns : List SequenceNumber)
      {a : SequenceNumber}
      → Waits n ns a m
      → Willing (n * k) m.socket
      → k + m.ntimeout ≡ 7
      → suc k ≤ length ts
      → Spaced m.timeout m.rto ts
      → (m' : UtpManager) × (run gain (ticks ts) m ≡ some (some (io timed_out), m'))
        × Waits n ns a m'
        × (m'.ntimeout ≡ 7)
        × (wire_numbers m'.wire ≡ wire_numbers m.wire ++ repeat k ns)
  unfolding run
  run-timed_out k [] m n ns w willing rounds long spaced = absurd (omega (arith, long))
  run-timed_out zero (t ∷ ts) m n ns {a} w willing rounds long (late, spaced) = (
    m,
    rw (run, on_tick t m late, ends_timed_out t m w.0 (omega (arith, rounds))) refl,
    w,
    omega (arith, rounds),
    sym (append-nil (wire_numbers m.wire)),
  )
  run-timed_out (suc k) (t ∷ ts) m n ns {a} w willing rounds long (late, spaced) =
      let more : n * suc k ≡ n + n * k = omega arith in
      let (now, later) =
        Willing-drop n (n * k) m.socket (subst (λ x. Willing x m.socket) more willing) in
      let (m', r, w', out, socket, ticked, rto, timeout) =
        on_timeout-IsRound t m n ns a w now (omega (arith, rounds)) in
      let (m'', ends, w'', counted, out') =
        run-timed_out k ts m' n ns {a = a} w' (rw (socket) later) (omega (arith, rounds, ticked))
          (omega (arith, long)) (rw (timeout, rto) spaced) in
      (
        m'',
        rw (run, on_tick t m late, r) ends,
        w'',
        counted,
        out'
            ∙ (ap (λ xs. xs ++ repeat k ns) out
                ∙ append_assoc (wire_numbers m.wire) ns (repeat k ns)),
      )
