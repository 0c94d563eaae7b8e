-- ===== src/Utp/Sack/Bits.antt =====
-- Which packets a selective ack reports.
use rustorrent.Common.{
  ℕ, zero, suc, ◌+◌, ◌*◌, ◌/◌, ◌%◌, ◌^◌, ◌≤◌, ◌<◌, ◌≡◌, true, false, none, some, List, [], ◌∷◌, ap,
  ◌∙◌, arith, if◌then◌else◌, length, get_or, get_elem?-eq-get_or, get_elem?-eq-none,
}
use rustorrent.Utp.Seq.{SequenceNumber, add}
use rustorrent.Utp.Sack.{
  SelectiveAck, SelectiveAckBit, acked, missing, bit_set, report, advance, next_bit, collect,
}

collect-some :
    (fuel : ℕ) (s t : SelectiveAck) (b : SelectiveAckBit)
    → next_bit s ≡ (some b, t)
    → collect (suc fuel) s ≡ b ∷ collect fuel t
unfolding collect
collect-some fuel s t b e = ground arith

collect-none : (fuel : ℕ) (s t : SelectiveAck) → next_bit s ≡ (none, t) → collect (suc fuel) s ≡ []
unfolding collect
collect-none fuel s t e = ground arith

module _ (bitfield : List ℕ) (ack : SequenceNumber) where
  -- the packet that the bit at position `p` of the bitfield speaks of, low bits first
  abbrev pub bit_report : ℕ → SelectiveAckBit
  bit_report p =
      if bit_set (get_or bitfield (p / 8) 0) (p % 8)
      then acked (add ack (p + 2))
      else missing (add ack (p + 2))

  abbrev pub bit_reports : ℕ → ℕ → List SelectiveAckBit
  bit_reports p zero = []
  bit_reports p (suc n) = bit_report p ∷ bit_reports (p + 1) n

  -- the iterator before position `p`
  abbrev at : ℕ → SelectiveAck
  at p = record {
    bitfield = bitfield;
    byte_index = p / 8;
    bit_index = p % 8;
    ack_number = ack;
    first = false;
  }

  advance-at : (p : ℕ) → advance (at p) ≡ at (p + 1)
  advance-at p = ground arith

  report-at : (p : ℕ) → report (at p) (get_or bitfield (p / 8) 0) ≡ bit_report p
  report-at p =
      let place : add (add (add ack (p / 8 % 2 ^ 16 * 8 % 2 ^ 16)) (p % 8)) 2 ≡ add ack (p + 2) =
        omega arith in
      rw place

  next_bit-at :
      (p : ℕ) → p / 8 < length bitfield → next_bit (at p) ≡ (some (bit_report p), at (p + 1))
  unfolding next_bit
  next_bit-at p k = rw (get_elem?-eq-get_or bitfield (p / 8) 0 k, report-at p, advance-at p)

  next_bit_end : (p : ℕ) → length bitfield ≤ p / 8 → next_bit (at p) ≡ (none, at p)
  unfolding next_bit
  next_bit_end p h = rw (get_elem?-eq-none bitfield (p / 8) h)

  collect-at :
      (fuel n p : ℕ)
      → n < fuel
      → p + n ≡ 8 * length bitfield
      → collect fuel (at p) ≡ bit_reports p n
  unfolding collect
  collect-at zero n p h e = absurd (omega arith)
  collect-at (suc fuel) zero p h e = collect-none fuel (at p) _ (next_bit_end p (omega arith))
  collect-at (suc fuel) (suc n) p h e =
      collect-some fuel (at p) _ _ (next_bit-at p (omega arith))
      ∙ ap (λ r. bit_report p ∷ r) (collect-at fuel n (p + 1) (omega arith) (omega arith))

-- A loop over a fresh selective ack sees, within enough calls, that `ack + 1` is missing, and then
-- for each bit of the bitfield, the low bits of each byte first, that `ack + 2`, `ack + 3` and so on
-- was received or is missing as the bit is one or zero; and no more.
pub collect_lem :
    (bitfield : List ℕ) (ack : SequenceNumber) (fuel : ℕ)
    → 8 * length bitfield + 1 < fuel
    → collect fuel (record {
      bitfield = bitfield;
      byte_index = 0;
      bit_index = 0;
      ack_number = ack;
      first = true;
    })
      ≡ missing (add ack 1) ∷ bit_reports bitfield ack 0 (8 * length bitfield)
unfolding collect next_bit
collect_lem bitfield ack zero h = absurd (omega arith)
collect_lem bitfield ack (suc fuel) h =
    ap (λ r. missing (add ack 1) ∷ r)
      (collect-at bitfield ack fuel (8 * length bitfield) 0 (omega arith) (omega arith))
