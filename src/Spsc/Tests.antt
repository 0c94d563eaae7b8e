-- ===== src/Spsc/Tests.antt =====
-- A queue of three slots, two of them taken.
use rustorrent.Common.{
  ℕ, zero, suc, ◌-◌, ap, get_elem?, ltb, if◌then◌else◌, ◌+◌, ◌≡◌, refl, none, some, [], ◌∷◌, arith,
}
use rustorrent.Common.Outcome.{ok}
use rustorrent.Spsc.{Queue, push, pop, len, next_of}
use rustorrent.Spsc.Fifo.{HoldsAt, push-HoldsAt, pop-HoldsAt}

-- in the second lap, with the last slot and the first one taken
abbrev two : Queue ℕ
two = record { head = 6; tail = 9; buffer = some 8 ∷ none ∷ some 7 ∷ []; mask_bit = 4 }

abbrev three : Queue ℕ
three = record { head = 6; tail = 10; buffer = some 8 ∷ some 9 ∷ some 7 ∷ []; mask_bit = 4 }

push-two : push two 9 ≡ ok three
unfolding push next_of
push-two = refl

-- A full queue has the length 0.
len-three : len three ≡ 0
unfolding len
len-three = refl

two-elements :
    (k x : ℕ)
    → get_elem? (7 ∷ 8 ∷ []) k ≡ some x
    → get_elem? two.buffer (if ltb (2 + k) 3 then 2 + k else 2 + k - 3) ≡ some (some x)
two-elements zero x e = ap some e
two-elements (suc zero) x e = ap some e
two-elements (suc (suc k)) x e = absurd (ground (arith, e))

two-HoldsAt : HoldsAt two (7 ∷ 8 ∷ []) 1 2
two-HoldsAt = record {
  room = omega arith;
  mask = omega arith;
  start = omega arith;
  at_head = refl;
  at_tail = refl;
  elements = two-elements;
}

push-HoldsAt_example : (q' : Queue ℕ) × (push two 9 ≡ ok q') × HoldsAt q' (7 ∷ 8 ∷ 9 ∷ []) 1 2
push-HoldsAt_example = push-HoldsAt two (7 ∷ 8 ∷ []) 1 2 9 two-HoldsAt (omega arith) (omega arith)

pop-HoldsAt_example :
    (q' : Queue ℕ) × (lap' : ℕ) × (i' : ℕ) × (pop two ≡ ok (7, q')) × HoldsAt q' (8 ∷ []) lap' i'
pop-HoldsAt_example = pop-HoldsAt two 7 (8 ∷ []) 1 2 two-HoldsAt (omega arith)
