-- ===== src/Spsc.antt =====
-- src/spsc/mod.rs: the bounded queue between one producer and one consumer. Each index has one writer,
-- so a call is one step on the state. A slot that was never written is `none`, and reading it
-- or a slot outside the buffer is a panic here.
pub mod Places
pub mod Fifo
mod Tests
use rustorrent.Common.{
  ℕ, zero, suc, ◌+◌, ◌-◌, ◌*◌, ◌%◌, ◌^◌, Bool, Option, none, some, List, ◌==◌, ltb, leb,
  if◌then◌else◌, length, get_elem?, set, replicate, wrapping_add,
}
use rustorrent.Common.Outcome.{Outcome, ok, err, panic}

pub record Queue (A : Type 0) : Type 0 where
  pub head : ℕ
  pub tail : ℕ
  pub buffer : List (Option A)
  pub mask_bit : ℕ

pub data PushError (A : Type 0) : Type 0 where
  full : A → PushError A
  closed : A → PushError A

pub data PopError : Type 0 where
  empty closed : PopError

abbrev closed_bit : ℕ
closed_bit = 2 ^ 63

-- `next_power_of_two`, from a power of two upwards
abbrev pub power_from : ℕ → ℕ → ℕ → ℕ
power_from zero p n = p
power_from (suc f) p n = if leb n p then p else power_from f (2 * p) n

module _ {A : Type 0} where
  -- `new_queue`; `none` is the failed assertion.
  unfoldable pub new_queue : ℕ → Option (Queue A)
  new_queue capacity =
      if capacity == 0
      then none
      else some (record {
        head = 0;
        tail = 0;
        buffer = replicate capacity none;
        mask_bit = power_from 64 1 (capacity + 1);
      })

  -- `tail | CLOSED_BIT`
  unfoldable pub set_closed : Queue A → Queue A
  set_closed q = if leb closed_bit q.tail then q else record q { tail = q.tail + closed_bit }

  -- `n & (mask_bit - 1)` of a mask that is a power of two
  abbrev pub index_of : Queue A → ℕ → ℕ
  index_of q n = n % q.mask_bit

  -- the index behind `n`: the next slot, or the first slot of the next lap
  unfoldable pub next_of : Queue A → ℕ → ℕ
  next_of q n =
      if ltb (index_of q n + 1) (length q.buffer)
      then n + 1
      else wrapping_add 64 (n - index_of q n) q.mask_bit

  unfoldable pub len : Queue A → ℕ
  len q =
      let tail : ℕ = index_of q q.tail in
      let head : ℕ = index_of q q.head in
      if ltb tail head then (tail + length q.buffer) - head else tail - head

  abbrev pub available : Queue A → ℕ
  available q = length q.buffer - len q

  unfoldable pub push : Queue A → A → Outcome (PushError A) (Queue A)
  push q elem =
      if leb closed_bit q.tail
      then err (closed elem)
      else if wrapping_add 64 q.head q.mask_bit == q.tail
      then err (full elem)
      else if ltb (index_of q q.tail) (length q.buffer)
      then ok (record q {
        buffer = set q.buffer (index_of q q.tail) (some elem);
        tail = next_of q q.tail;
      })
      else panic

  -- what `data.read().assume_init()` makes of a slot
  abbrev pub read_slot : Queue A → Option (Option A) → Outcome PopError (A × Queue A)
  read_slot q (some (some elem)) = ok (elem, record q { head = next_of q q.head })
  read_slot q _ = panic

  unfoldable pub pop : Queue A → Outcome PopError (A × Queue A)
  pop q =
      if q.tail % closed_bit == q.head
      then (if leb closed_bit q.tail then err closed else err empty)
      else read_slot q (get_elem? q.buffer (index_of q q.head))
