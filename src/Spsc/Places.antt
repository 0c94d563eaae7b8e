-- ===== src/Spsc/Places.antt =====
-- The indexes of the queue, which skip from the last slot of a lap to the next multiple of the mask.
use rustorrent.Common.{
  ℕ, zero, suc, ◌+◌, ◌-◌, ◌*◌, ◌%◌, ◌^◌, ◌≤◌, ◌<◌, ◌≡◌, ◌≢◌, ◌∙◌, true, false, arith, ltb, leb,
  if◌then◌else◌, wrapping_add,
}
use native.Mathlib.Decide.{dec_lt}
use native.Mathlib.Nat.{mul-add-mod_self_right, mod-eq_of_lt}
use rustorrent.Spsc.{power_from}

-- the slot of the element `k` places behind the slot `i`
abbrev pub slot : ℕ → ℕ → ℕ → ℕ
slot cap i k = if ltb (i + k) cap then i + k else i + k - cap

-- the index `k` places behind slot `i` of the lap that begins at `base`
abbrev pub place : ℕ → ℕ → ℕ → ℕ → ℕ → ℕ
place cap mask base i k = if ltb (i + k) cap then base + (i + k) else base + mask + (i + k - cap)

-- An index of the lap `lap` is masked to its slot.
pub masked : (lap mask s : ℕ) → s < mask → (lap * mask + s) % mask ≡ s
masked lap mask s h = mul-add-mod_self_right lap mask s ∙ mod-eq_of_lt h

pub masked_next : (lap mask s : ℕ) → s < mask → (lap * mask + mask + s) % mask ≡ s
masked_next lap mask s h =
    let e : lap * mask + mask + s ≡ suc lap * mask + s = grind arith in
    rw e (masked (suc lap) mask s h)

pub place-masked :
    (cap mask lap i k : ℕ)
    → i < cap
    → cap < mask
    → k < cap
    → place cap mask (lap * mask) i k % mask ≡ slot cap i k
place-masked cap mask lap i k h h' h'' = elim (dec_lt (i + k) cap) [
  | yes lt ↦
      let near : ltb (i + k) cap ≡ true = ground (arith, lt) in
      rw near (masked lap mask (i + k) (omega (arith, lt, h')))
  | no ge ↦
      let far : ltb (i + k) cap ≡ false = ground (arith, ge) in
      rw far (masked_next lap mask (i + k - cap) (omega (arith, h, h', h'')))
]

pub slot-lt : (cap i k : ℕ) → i < cap → k < cap → slot cap i k < cap
slot-lt cap i k h h' = ground arith

pub slot-ne : (cap i k l : ℕ) → i < cap → k < l → l < cap → slot cap i l ≢ slot cap i k
slot-ne cap i k l h h' h'' = ground arith

-- the step from one place to the next, as `next_of` takes it
pub next_place :
    (cap mask base i k : ℕ)
    → i < cap
    → cap < mask
    → k < cap
    → base + 3 * mask < 2 ^ 63
    → (if ltb (slot cap i k + 1) cap
        then place cap mask base i k + 1
        else wrapping_add 64 (place cap mask base i k - slot cap i k) mask)
      ≡ place cap mask base i (k + 1)
next_place cap mask base i k h h' h'' b = ground arith

unfoldable pub doubled : ℕ → ℕ → ℕ
doubled zero p = p
doubled (suc f) p = doubled f (2 * p)

pub power_from-le : (f p n : ℕ) → n ≤ doubled f p → n ≤ power_from f p n
unfolding doubled
power_from-le zero p n h = omega (arith, h)
power_from-le (suc f) p n h = elim (dec_lt p n) [
  | yes lt ↦
      let more : leb n p ≡ false = ground (arith, lt) in rw more (power_from-le f (2 * p) n h)
  | no ge ↦ let enough : leb n p ≡ true = ground (arith, ge) in rw enough (omega (arith, ge))
]
