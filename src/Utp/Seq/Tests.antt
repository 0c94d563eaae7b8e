-- ===== src/Utp/Seq/Tests.antt =====
-- Runs of src/utp/mod.rs's own tests on sequence numbers, and the theorems at concrete inputs.
use rustorrent.Common.{◌-◌, ◌≡◌, refl, true, arith, ltb, leb}
use rustorrent.Utp.Seq.{add, sub, cmp_less, cmp_less_equal, cmp_greater}
use rustorrent.Utp.Seq.Order.{cmp_window}

seq_number_distance : sub 5 (65535 - 10) ≡ 16
seq_number_distance = refl

less_over_the_wrap : cmp_less 65535 3 ≡ true
unfolding cmp_less
less_over_the_wrap = refl

-- 65530 against 4, ten further on
cmp_window_example :
    (cmp_less (add 65530 0) (add 65530 10) ≡ ltb 0 10)
    × (cmp_less_equal (add 65530 0) (add 65530 10) ≡ leb 0 10)
    × (cmp_greater (add 65530 0) (add 65530 10) ≡ ltb 10 0)
cmp_window_example = cmp_window 65530 0 10 (omega arith) (omega arith)
