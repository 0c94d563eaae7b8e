-- ===== src/Utp/Delay.antt =====
-- src/utp/mod.rs: `Timestamp`, `Delay`, `RelativeDelay` and `DelayHistory`. The three are `u32`
-- newtypes, here numbers; an `Instant` is a number of some unit, of which a second is `second`.
pub mod History
mod Tests
use rustorrent.Common.{
  ℕ, suc, ◌+◌, ◌-◌, ◌/◌, ◌%◌, ◌^◌, ◌≤◌, ◌<◌, ◌≡◌, ◌&&◌, Bool, List, [], ◌∷◌, min, ltb, leb, ◌==◌,
  if◌then◌else◌, length, get_or, set, replicate,
}

-- `Timestamp::elapsed_millis`; `saturating_sub` is the subtraction of ℕ.
unfoldable pub elapsed_millis : ℕ → ℕ → ℕ
elapsed_millis self now = now / 1000 - self / 1000

-- `Timestamp::delay`
pub delay : ℕ → ℕ → ℕ
delay self o = if ltb o self then self - o else o - self

-- `Delay::infinity` and `RelativeDelay::infinity`, u32::max_value()
abbrev pub infinity : ℕ
infinity = 2 ^ 32 - 1

-- `impl Sub for Delay`: saturating
abbrev pub sub : ℕ → ℕ → ℕ
sub self other = self - other

abbrev pub second : ℕ
second = 1_000_000_000

pub record DelayHistory : Type 0 where
  pub history : List ℕ
  pub index : ℕ
  pub ndelays : ℕ
  pub lowest : ℕ
  pub next_index_time : ℕ
  pub last_relatives : List ℕ
  pub index_relative : ℕ

-- `iter().min().copied().unwrap()`, on delays; the arrays that the code takes it of are not empty.
abbrev pub minimum : List ℕ → ℕ
minimum [] = infinity
minimum (d ∷ ds) = min d (minimum ds)

-- `now` is what `Instant::now()` returns, at each call.
unfoldable pub new : ℕ → DelayHistory
new now = record {
  history = replicate 20 infinity;
  index = 0;
  ndelays = 0;
  lowest = infinity;
  next_index_time = now + second;
  last_relatives = replicate 3 infinity;
  index_relative = 0;
}

unfoldable pub save_relative : DelayHistory → ℕ → DelayHistory
save_relative s relative = record s {
  last_relatives = set s.last_relatives s.index_relative relative;
  index_relative = (s.index_relative + 1) % length s.last_relatives;
}

unfoldable pub lowest_relative : DelayHistory → ℕ
lowest_relative s = minimum s.last_relatives

-- the first part of `add_delay`: the new delay in the slot of the current minute
unfoldable pub record_delay : DelayHistory → ℕ → DelayHistory
record_delay s d =
    if ltb d s.lowest
    then record s { lowest = d; history = set s.history s.index d }
    else if ltb d (get_or s.history s.index 0)
    then record s { history = set s.history s.index d }
    else s

-- the last part of `add_delay`, under its condition: the next slot, and the lowest delay again
unfoldable pub next_minute : DelayHistory → ℕ → ℕ → DelayHistory
next_minute s d now =
    let index : ℕ = (s.index + 1) % length s.history in
    let history = set s.history index d in
    record s {
      next_index_time = now + second;
      index = index;
      ndelays = 0;
      history = history;
      lowest = minimum history;
    }

-- `add_delay` up to its last test; `ndelays` is a u16 and saturates.
unfoldable pub count_delay : DelayHistory → ℕ → DelayHistory
count_delay s d =
    let counted = record s { ndelays = min (s.ndelays + 1) (2 ^ 16 - 1) } in
    let recorded = record_delay counted d in save_relative recorded (sub d recorded.lowest)

-- `checked_duration_since(now).is_some()` is `now ≤ next_index_time`. `now` and `later` are the two
-- readings of the clock.
unfoldable pub add_delay : DelayHistory → ℕ → ℕ → ℕ → DelayHistory
add_delay s d now later =
    let saved = count_delay s d in
    if ltb 120 saved.ndelays && leb now saved.next_index_time
    then next_minute saved d later
    else saved
