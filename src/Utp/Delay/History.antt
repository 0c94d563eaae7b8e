-- ===== src/Utp/Delay/History.antt =====
-- What the delay history of src/utp/mod.rs keeps true.
use rustorrent.Common.{
  ℕ, zero, suc, ◌+◌, ◌%◌, ◌≤◌, ◌<◌, ◌≡◌, min, List, [], ◌∷◌, arith, length, length-set, get_or, set,
  refl, ◌∙◌, All,
}
use rustorrent.Utp.Delay.{
  DelayHistory, minimum, new, record_delay, save_relative, next_minute, count_delay, add_delay,
}

-- Writing a delay that is below all of a list makes it the least.
minimum-set_le : (xs : List ℕ) (i d : ℕ) → i < length xs → d ≤ minimum xs → minimum (set xs i d) ≡ d
minimum-set_le [] i d h k = absurd (omega arith)
minimum-set_le (x ∷ xs) zero d h k = omega arith
minimum-set_le (x ∷ xs) (suc i) d h k = omega (arith, minimum-set_le xs i d (omega arith))

-- Lowering one entry, not below the least, leaves the least.
minimum-set_lt :
    (xs : List ℕ) (i d : ℕ)
    → i < length xs
    → minimum xs ≤ d
    → d < get_or xs i 0
    → minimum (set xs i d) ≡ minimum xs
minimum-set_lt [] i d h k l = absurd (omega arith)
minimum-set_lt (x ∷ xs) zero d h k l = omega arith
minimum-set_lt (x ∷ xs) (suc i) d h k l =
    ground (arith, minimum-set_le xs i d, minimum-set_lt xs i d)

-- The least of a list is at most what was just written in it.
minimum-set : (xs : List ℕ) (i d : ℕ) → i < length xs → minimum (set xs i d) ≤ d
minimum-set [] i d h = absurd (omega arith)
minimum-set (x ∷ xs) zero d h = omega arith
minimum-set (x ∷ xs) (suc i) d h = omega (arith, minimum-set xs i d (omega arith))

pub record IsValid (s : DelayHistory) : Type 0 where
  pub slots : length s.history ≡ 20
  pub index_in : s.index < 20
  pub relatives : length s.last_relatives ≡ 3
  pub index_relative_in : s.index_relative < 3
  pub lowest_is_minimum : s.lowest ≡ minimum s.history

pub new-IsValid : (now : ℕ) → IsValid (new now)
unfolding new
new-IsValid now = omega arith

record_delay-IsValid : {s : DelayHistory} (d : ℕ) → IsValid s → IsValid (record_delay s d)
unfolding record_delay
record_delay-IsValid {s} d v = ground (
  arith,
  length-set s.history s.index d,
  minimum-set_le s.history s.index d,
  minimum-set_lt s.history s.index d,
)

record_delay-lowest-le : (s : DelayHistory) (d : ℕ) → (record_delay s d).lowest ≤ min d s.lowest
unfolding record_delay
record_delay-lowest-le s d = ground arith

save_relative-IsValid : {s : DelayHistory} (r : ℕ) → IsValid s → IsValid (save_relative s r)
unfolding save_relative
save_relative-IsValid {s} r v = ground (arith, length-set s.last_relatives s.index_relative r)

next_minute-IsValid : {s : DelayHistory} (d now : ℕ) → IsValid s → IsValid (next_minute s d now)
unfolding next_minute
next_minute-IsValid {s} d now v =
    ground (arith, length-set s.history ((s.index + 1) % length s.history) d)

next_minute-lowest-le :
    (s : DelayHistory) (d now : ℕ) → IsValid s → (next_minute s d now).lowest ≤ d
unfolding next_minute
next_minute-lowest-le s d now v =
    omega (arith, minimum-set s.history ((s.index + 1) % length s.history) d (omega arith))

save_relative-lowest : (s : DelayHistory) (r : ℕ) → (save_relative s r).lowest ≡ s.lowest
unfolding save_relative
save_relative-lowest s r = refl

count_delay-IsValid :
    {s : DelayHistory} (d : ℕ)
    → IsValid s
    → IsValid (count_delay s d) × ((count_delay s d).lowest ≤ min d s.lowest)
unfolding count_delay
count_delay-IsValid {s} d v = (
  save_relative-IsValid _ (record_delay-IsValid d (omega arith)),
  rw save_relative-lowest (record_delay-lowest-le _ d),
)

-- Every delay that is recorded leaves the history with 20 slots, the current one among them, the
-- three relative delays, and `lowest` the least delay of the slots, which is at most the new one.
pub add_delay-IsValid :
    {s : DelayHistory} (d now later : ℕ)
    → IsValid s
    → IsValid (add_delay s d now later) × ((add_delay s d now later).lowest ≤ d)
unfolding add_delay
add_delay-IsValid {s} d now later v =
    let c = count_delay-IsValid d v in
    ground (
      arith,
      c,
      next_minute-IsValid {s = count_delay s d} d later c.0,
      next_minute-lowest-le (count_delay s d) d later c.0,
    )

count_delay-keeps :
    (s : DelayHistory) (d : ℕ)
    → ((count_delay s d).index ≡ s.index) × ((count_delay s d).next_index_time ≡ s.next_index_time)
unfolding count_delay record_delay save_relative
count_delay-keeps s d = ground arith

add_delay-late :
    (s : DelayHistory) (d now later : ℕ)
    → s.next_index_time < now
    → add_delay s d now later ≡ count_delay s d
unfolding add_delay
add_delay-late s d now later h = ground (arith, count_delay-keeps s d)

-- the delays that a connection records, each with the two readings of the clock
abbrev pub add_all : DelayHistory → List (ℕ × ℕ × ℕ) → DelayHistory
add_all s [] = s
add_all s ((d, now, later) ∷ more) = add_all (add_delay s d now later) more

add_all_stuck_at :
    (t : ℕ) (events : List (ℕ × ℕ × ℕ)) {s : DelayHistory}
    → IsValid s
    → s.next_index_time ≡ t
    → All (λ (e : ℕ × ℕ × ℕ). t < e.1) events
    → ((add_all s events).index ≡ s.index)
      × ((add_all s events).next_index_time ≡ t)
      × ((add_all s events).lowest ≤ s.lowest)
add_all_stuck_at t [] v e h = omega arith
add_all_stuck_at t ((d, now, later) ∷ more) {s} v e h =
    let c = count_delay-IsValid d v in
    let k = count_delay-keeps s d in
    rw (add_all, add_delay-late s d now later (rw e h.0))
      (omega (arith, k, c.1, add_all_stuck_at t more {s = count_delay s d} c.0 (k.1 ∙ e) h.1))

-- Once the clock has passed `next_index_time`, no sequence of delays moves the history to another
-- slot, gives it another time to move at, or raises the lowest delay.
pub add_all_stuck :
    (events : List (ℕ × ℕ × ℕ)) {s : DelayHistory}
    → IsValid s
    → All (λ (e : ℕ × ℕ × ℕ). s.next_index_time < e.1) events
    → ((add_all s events).index ≡ s.index)
      × ((add_all s events).next_index_time ≡ s.next_index_time)
      × ((add_all s events).lowest ≤ s.lowest)
add_all_stuck events {s} v h = add_all_stuck_at s.next_index_time events v refl h
