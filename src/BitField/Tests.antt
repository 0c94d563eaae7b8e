-- ===== src/BitField/Tests.antt =====
-- Bits of a small field.
use rustorrent.Common.{ℕ, ◌≡◌, refl, true, some, [], ◌∷◌, arith, ◌==◌, ltb, ◌&&◌, if◌then◌else◌}
use rustorrent.Common.Outcome.{err}
use rustorrent.BitField.{BitField, invalid_input, try_from, and_bit, or_bit, get_bit, set_bit}
use rustorrent.BitField.Bits.{IsBacked, get_bit-set_bit}

abbrev sample : BitField
sample = record { inner = 0x80 ∷ 0x01 ∷ []; nbits = 12 }

set_bit-sample : set_bit sample 9 ≡ some (record { inner = 0x80 ∷ 0x41 ∷ []; nbits = 12 })
unfolding set_bit or_bit
set_bit-sample = refl

get_bit-sample : get_bit sample 0 ≡ some true
unfolding get_bit and_bit
get_bit-sample = refl

try_from-short : try_from (1 ∷ []) 9 ≡ err invalid_input
unfolding try_from
try_from-short = refl

get_bit-set_bit_example :
    (b' : BitField) × (set_bit sample 9 ≡ some b')
    × IsBacked b'
    × (b'.nbits ≡ 12)
    × ((j : ℕ) → get_bit b' j ≡ (if j == 9 && ltb 9 12 then some true else get_bit sample j))
get_bit-set_bit_example = get_bit-set_bit sample 9 (omega arith)
