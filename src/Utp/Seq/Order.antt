-- ===== src/Utp/Seq/Order.antt =====
-- The wrapping comparison of sequence numbers against the order of the numbers that they stand for.
use rustorrent.Common.{ℕ, ◌+◌, ◌-◌, ◌^◌, ◌≤◌, ◌<◌, ◌≡◌, true, false, arith, ltb, leb}
use rustorrent.Utp.Seq.{SequenceNumber, add, sub, cmp_less, cmp_less_equal, cmp_greater}

-- The distance up from one number of a window to a later one, and down to an earlier one.
sub-add_le :
    (base : SequenceNumber) (i j : ℕ)
    → i ≤ j
    → j < i + 2 ^ 16
    → sub (add base j) (add base i) ≡ j - i
sub-add_le base i j h k = omega arith

sub-add_lt :
    (base : SequenceNumber) (i j : ℕ)
    → j < i
    → i < j + 2 ^ 16
    → sub (add base j) (add base i) ≡ j + 2 ^ 16 - i
sub-add_lt base i j h k = omega arith

-- Two numbers counted from one base, by offsets less than half the range apart, compare as their
-- offsets do, whether or not the base wraps: `cmp_less`, `cmp_less_equal` and `cmp_greater` are
-- `<`, `≤` and `>` of the offsets.
pub cmp_window :
    (base : SequenceNumber) (i j : ℕ)
    → i < j + 2 ^ 15
    → j < i + 2 ^ 15
    → (cmp_less (add base i) (add base j) ≡ ltb i j)
      × (cmp_less_equal (add base i) (add base j) ≡ leb i j)
      × (cmp_greater (add base i) (add base j) ≡ ltb j i)
unfolding cmp_less cmp_less_equal cmp_greater
cmp_window base i j h k =
    ground
      (arith, sub-add_le base i j, sub-add_lt base i j, sub-add_le base j i, sub-add_lt base j i)

-- Numbers exactly half the range apart: neither is less than the other, neither is greater, and
-- each is less than or equal to the other.
pub cmp_antipode :
    (a : SequenceNumber)
    → a < 2 ^ 16
    → let b = add a (2 ^ 15) in
      (cmp_less a b ≡ false)
      × (cmp_less b a ≡ false)
      × (cmp_less_equal a b ≡ true)
      × (cmp_less_equal b a ≡ true)
      × (cmp_greater a b ≡ false)
      × (cmp_greater b a ≡ false)
unfolding cmp_less cmp_less_equal cmp_greater
cmp_antipode a h = ground arith
