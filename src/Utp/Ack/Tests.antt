-- ===== src/Utp/Ack/Tests.antt =====
-- The window of packets received, at concrete inputs.
use rustorrent.Common.{replicate, ℕ, ◌≡◌, refl, Option, none, some, List, [], ◌∷◌}
use rustorrent.Common.Checked.{◌>>=◌}
use rustorrent.BitField.{or_bit}
use rustorrent.Utp.Seq.{cmp_greater}
use rustorrent.Utp.Ack.{
  find_shift_number, AckedBitfield, acked_default, init, ack, bytes_for_packet,
}

-- the packets of a list come in, in turn
abbrev ack_all : List ℕ → AckedBitfield → Option AckedBitfield
ack_all [] s = some s
ack_all (num ∷ nums) s = ack s num >>= ack_all nums

in_turn : (ack_all (1 ∷ 2 ∷ 3 ∷ []) acked_default >>= λ s. s.first) ≡ some 3
unfolding ack cmp_greater
in_turn = refl

-- 12 and 14 are in before 11: the first is 12, and 14 is the bit 0 behind it.
out_of_order :
    (init acked_default 10 >>= λ s. ack_all (12 ∷ 14 ∷ 11 ∷ []) s >>= bytes_for_packet)
    ≡ some (some (1 ∷ []))
unfolding init ack bytes_for_packet cmp_greater or_bit
out_of_order = refl

-- A packet 1362 numbers ahead is past the end of the bitfield.
far_ahead : (init acked_default 10 >>= λ s. ack s 1372 >>= bytes_for_packet) ≡ none
unfolding init ack bytes_for_packet cmp_greater
far_ahead = refl

-- A first packet with a high number leaves `last` behind.
high_number : (ack acked_default 40000 >>= bytes_for_packet) ≡ none
unfolding ack bytes_for_packet cmp_greater
high_number = refl

-- A bitfield of ones alone is not shifted.
all_ones : find_shift_number 0 (replicate 170 255) ≡ none
unfolding find_shift_number
all_ones = refl
