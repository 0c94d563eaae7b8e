-- ===== src/Utp/Delay/Tests.antt =====
-- Runs of the delay history, and its theorems at concrete inputs.
use rustorrent.Common.{◌+◌, ◌≤◌, ◌≡◌, refl, List, [], ◌∷◌, ℕ, arith}
use rustorrent.Utp.Delay.{
  DelayHistory, second, new, record_delay, save_relative, next_minute, count_delay, add_delay,
  lowest_relative, delay, elapsed_millis,
}
use rustorrent.Utp.Delay.History.{IsValid, new-IsValid, add_delay-IsValid, add_all, add_all_stuck}

abbrev opened : DelayHistory
opened = new 0

abbrev arrivals : List (ℕ × ℕ × ℕ)
arrivals = (500, second + 1, second + 2) ∷ (300, second + 3, second + 4) ∷ []

lowest_of_arrivals : (add_all opened arrivals).lowest ≡ 300
unfolding new add_delay count_delay record_delay save_relative next_minute
lowest_of_arrivals = refl

relative_of_arrivals : lowest_relative (add_all opened arrivals) ≡ 0
unfolding new add_delay count_delay record_delay save_relative next_minute lowest_relative
relative_of_arrivals = refl

delay_is_a_distance : delay 7 3 + delay 3 7 ≡ 8
unfolding delay
delay_is_a_distance = refl

millis : elapsed_millis 2_500 9_100 ≡ 7
unfolding elapsed_millis
millis = refl

add_delay-IsValid_example :
    IsValid (add_delay opened 40 5 6) × ((add_delay opened 40 5 6).lowest ≤ 40)
add_delay-IsValid_example = add_delay-IsValid 40 5 6 (new-IsValid 0)

add_all_stuck_example :
    ((add_all opened arrivals).index ≡ opened.index)
    × ((add_all opened arrivals).next_index_time ≡ opened.next_index_time)
    × ((add_all opened arrivals).lowest ≤ opened.lowest)
add_all_stuck_example = add_all_stuck arrivals (new-IsValid 0) (unfold new in omega arith)
