-- ===== src/Utp/Seq.antt =====
-- src/utp/mod.rs, `SequenceNumber`: a 16-bit number with wrapping arithmetic and comparison.
pub mod Order
mod Tests
use rustorrent.Common.{ℕ, Bool, not, ltb, leb, wrapping_add, wrapping_sub}

-- `struct SequenceNumber(u16)`
abbrev pub SequenceNumber : Type 0
SequenceNumber = ℕ

-- `impl Add<u16>`
abbrev pub add : SequenceNumber → ℕ → SequenceNumber
add s n = wrapping_add 16 s n

-- `impl Sub<SequenceNumber>` and `impl Sub<u16>`
abbrev pub sub : SequenceNumber → ℕ → SequenceNumber
sub s n = wrapping_sub 16 s n

unfoldable pub cmp_less : SequenceNumber → SequenceNumber → Bool
cmp_less self other =
    let dist_down = sub self other in let dist_up = sub other self in ltb dist_up dist_down

unfoldable pub cmp_less_equal : SequenceNumber → SequenceNumber → Bool
cmp_less_equal self other =
    let dist_down = sub self other in let dist_up = sub other self in leb dist_up dist_down

unfoldable pub cmp_greater : SequenceNumber → SequenceNumber → Bool
unfolding cmp_less_equal
cmp_greater self other = not (cmp_less_equal self other)
