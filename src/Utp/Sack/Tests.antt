-- ===== src/Utp/Sack/Tests.antt =====
-- Runs of the extension iterator, and its theorems at concrete inputs.
use rustorrent.Common.{ℕ, ◌≡◌, ◌≢◌, refl, List, [], ◌∷◌, true, arith}
use rustorrent.Utp.Seq.{SequenceNumber, add}
use rustorrent.Utp.Sack.{
  SelectiveAck, acked, missing, collect, next_bit, ExtensionIterator, unknown, next_sack,
  out_of_fuel, has_missing_ack, nackeds,
}
use rustorrent.Utp.Sack.Bits.{bit_reports, collect_lem}
use rustorrent.Utp.Sack.Chain.{next_sack-spins, next_sack_total}

abbrev fresh : List ℕ → SequenceNumber → SelectiveAck
fresh bitfield ack = record {
  bitfield = bitfield;
  byte_index = 0;
  bit_index = 0;
  ack_number = ack;
  first = true;
}

abbrev stuck : ExtensionIterator
stuck = record { current_type = unknown; slice = 2 ∷ 0 ∷ 9 ∷ []; ack_number = 1 }

-- an unknown extension of 3 bytes, as its length field counts, and then the end
abbrev passing : ExtensionIterator
passing = record { current_type = unknown; slice = 3 ∷ 3 ∷ 1 ∷ []; ack_number = 1 }

missing_of_byte : has_missing_ack (255 ∷ 254 ∷ []) ≡ true
unfolding has_missing_ack
missing_of_byte = refl

-- the function counts the ones, the packets that were received
ones_of_byte : nackeds (255 ∷ 3 ∷ []) ≡ 10
unfolding nackeds
ones_of_byte = refl

one_byte :
    collect 20 (fresh (5 ∷ []) 10)
    ≡ missing 11
      ∷ acked 12
      ∷ missing 13
      ∷ acked 14
      ∷ missing 15
      ∷ missing 16
      ∷ missing 17
      ∷ missing 18
      ∷ missing 19
      ∷ []
unfolding collect next_bit
one_byte = refl

collect_example : collect 20 (fresh (5 ∷ []) 10) ≡ missing (add 10 1) ∷ bit_reports (5 ∷ []) 10 0 8
collect_example = collect_lem (5 ∷ []) 10 20 (omega arith)

next_sack-spins_example : next_sack 1000 stuck ≡ out_of_fuel
next_sack-spins_example = next_sack-spins 1000 2 (9 ∷ []) 1 (omega arith)

next_sack_total_example : next_sack 4 passing ≢ out_of_fuel
next_sack_total_example = next_sack_total 4 passing (omega arith) (omega arith)
