-- ===== src/Spsc/Fifo.antt =====
-- The queue against the list of the elements in it.
use rustorrent.Common.{
  ℕ, zero, suc, ◌+◌, ◌*◌, ◌%◌, ◌^◌, ◌≤◌, ◌<◌, ◌≡◌, refl, sym, ◌∙◌, ap, true, false, none, some,
  List, ◌⊎◌, inl, inr, get_elem?-set_self, get_elem?-set_ne, [], ◌∷◌, ◌++◌, arith, ◌==◌, ltb, leb,
  if◌then◌else◌, length, length-append, length-replicate, replicate, get_elem?, set, length-set,
  wrapping_add,
}
use native.Mathlib.Decide.{dec_lt}
use rustorrent.Common.Outcome.{ok, err}
use rustorrent.Spsc.Places.{
  slot, place, masked, masked_next, place-masked, slot-lt, slot-ne, next_place, doubled,
  power_from-le,
}
use rustorrent.Spsc.{Queue, full, empty, next_of, push, pop, read_slot, len, new_queue, power_from}

module _ {A : Type 0} where
  -- The queue is open and holds `xs`, with `head` at slot `i` of the lap `lap`.
  pub record HoldsAt (q : Queue A) (xs : List A) (lap i : ℕ) : Type 0 where
    pub room : length xs ≤ length q.buffer
    pub mask : length q.buffer < q.mask_bit
    pub start : i < length q.buffer
    pub at_head : q.head ≡ lap * q.mask_bit + i
    pub at_tail : q.tail ≡ place (length q.buffer) q.mask_bit (lap * q.mask_bit) i (length xs)
    pub elements :
        (k : ℕ) (x : A)
        → get_elem? xs k ≡ some x
        → get_elem? q.buffer (slot (length q.buffer) i k) ≡ some (some x)

module _ {A : Type 0} where
  get_elem?-push :
      (xs : List A) (x y : A) (k : ℕ)
      → get_elem? (xs ++ x ∷ []) k ≡ some y
      → (k < length xs × (get_elem? xs k ≡ some y)) ⊎ ((k ≡ length xs) × (x ≡ y))
  get_elem?-push [] x y zero e = inr (refl, ground (arith, e))
  get_elem?-push [] x y (suc k) e = absurd (ground (arith, e))
  get_elem?-push (z ∷ xs) x y zero e = inl (omega arith, e)
  get_elem?-push (z ∷ xs) x y (suc k) e = elim (get_elem?-push xs x y k e) [
    | inl (lt, e') ↦ inl (omega (arith, lt), e')
    | inr (e', e'') ↦ inr (ap suc e', e'')
  ]

  get_elem?-lt : (xs : List A) (k : ℕ) (y : A) → get_elem? xs k ≡ some y → k < length xs
  get_elem?-lt [] k y e = absurd (ground (arith, e))
  get_elem?-lt (x ∷ xs) zero y e = omega arith
  get_elem?-lt (x ∷ xs) (suc k) y e = omega (arith, get_elem?-lt xs k y e)

  HoldsAt-intro :
      (q : Queue A) (xs : List A) (lap i cap : ℕ)
      → length q.buffer ≡ cap
      → length xs ≤ cap
      → cap < q.mask_bit
      → i < cap
      → q.head ≡ lap * q.mask_bit + i
      → q.tail ≡ place cap q.mask_bit (lap * q.mask_bit) i (length xs)
      → ((k : ℕ) (x : A)
          → get_elem? xs k ≡ some x
          → get_elem? q.buffer (slot cap i k) ≡ some (some x))
      → HoldsAt q xs lap i
  HoldsAt-intro q xs lap i cap e room mask start at_head at_tail elements = record {
    room = rw e room;
    mask = rw e mask;
    start = rw e start;
    at_head = at_head;
    at_tail = rw e at_tail;
    elements = rw e elements;
  }

  masked_tail :
      (q : Queue A) (xs : List A) (lap i : ℕ)
      → HoldsAt q xs lap i
      → length xs < length q.buffer
      → q.tail % q.mask_bit ≡ slot (length q.buffer) i (length xs)
  masked_tail q xs lap i h free =
      ap (λ t. t % q.mask_bit) h.at_tail
      ∙ place-masked (length q.buffer) q.mask_bit lap i (length xs) h.start h.mask free

  next_of-tail :
      (q : Queue A) (xs : List A) (lap i : ℕ)
      → HoldsAt q xs lap i
      → lap * q.mask_bit + 3 * q.mask_bit < 2 ^ 63
      → length xs < length q.buffer
      → next_of q q.tail ≡ place (length q.buffer) q.mask_bit (lap * q.mask_bit) i (length xs + 1)
  unfolding next_of
  next_of-tail q xs lap i h b free =
      rw (masked_tail q xs lap i h free, h.at_tail)
        (next_place (length q.buffer) q.mask_bit (lap * q.mask_bit) i (length xs) h.start h.mask
          free b)

  pushed : Queue A → A → Queue A
  pushed q x = record q {
    buffer = set q.buffer (q.tail % q.mask_bit) (some x);
    tail = next_of q q.tail;
  }

  pushed-elements :
      (q : Queue A) (xs : List A) (lap i : ℕ) (x y : A) (k : ℕ)
      → HoldsAt q xs lap i
      → length xs < length q.buffer
      → get_elem? (xs ++ x ∷ []) k ≡ some y
      → get_elem?
          (set q.buffer (slot (length q.buffer) i (length xs)) (some x))
          (slot (length q.buffer) i k)
        ≡ some (some y)
  pushed-elements q xs lap i x y k h free e = elim (get_elem?-push xs x y k e) [
    | inl (lt, e') ↦
        get_elem?-set_ne q.buffer (slot (length q.buffer) i (length xs))
          (slot (length q.buffer) i k) (some x)
          (slot-ne (length q.buffer) i k (length xs) h.start lt free)
        ∙ h.elements k y e'
    | inr (last, same) ↦
        rw (last, sym same)
          (get_elem?-set_self q.buffer (slot (length q.buffer) i (length xs)) (some x)
            (slot-lt (length q.buffer) i (length xs) h.start free))
  ]

  -- On an open queue with a free slot, whose lap has three laps more below the bit of a closed queue, `push`
  -- succeeds, and the element stands behind those that the queue held.
  pub push-HoldsAt :
      (q : Queue A) (xs : List A) (lap i : ℕ) (x : A)
      → HoldsAt q xs lap i
      → lap * q.mask_bit + 3 * q.mask_bit < 2 ^ 63
      → length xs < length q.buffer
      → (q' : Queue A) × (push q x ≡ ok q') × HoldsAt q' (xs ++ x ∷ []) lap i
  unfolding push pushed
  push-HoldsAt q xs lap i x h b free =
      let cap = length q.buffer in
      let m = q.mask_bit in
      let s = slot cap i (length xs) in
      let at_slot = masked_tail q xs lap i h free in
      let is_open : leb (2 ^ 63) q.tail ≡ false =
        ground (arith, h.at_tail, h.start, h.room, h.mask, b) in
      let not_full : (wrapping_add 64 q.head m == q.tail) ≡ false =
        ground (arith, h.at_tail, h.at_head, h.start, h.room, h.mask, b, free) in
      let in_buffer : ltb (q.tail % m) cap ≡ true =
        rw at_slot (ground (arith, slot-lt cap i (length xs) h.start free)) in
      let count : length xs + 1 ≡ length (xs ++ x ∷ []) =
        omega (arith, length-append {0} xs (x ∷ [])) in
      (
        pushed q x,
        rw (is_open, not_full, in_buffer) refl,
        HoldsAt-intro (pushed q x) (xs ++ x ∷ []) lap i cap
            (length-set q.buffer (q.tail % m) (some x)) (omega (arith, count, free)) h.mask h.start
            h.at_head (next_of-tail q xs lap i h b free ∙ ap (λ n. place cap m (lap * m) i n) count)
            (λ k y e. rw at_slot (pushed-elements q xs lap i x y k h free e)),
      )

  -- On a full one, under the same bound, it is the error that gives the element back.
  push-full :
      (q : Queue A) (xs : List A) (lap i : ℕ) (x : A)
      → HoldsAt q xs lap i
      → lap * q.mask_bit + 3 * q.mask_bit < 2 ^ 63
      → length xs ≡ length q.buffer
      → push q x ≡ err (full x)
  unfolding push
  push-full q xs lap i x h b whole =
      let cap = length q.buffer in
      let m = q.mask_bit in
      let open_tail : leb (2 ^ 63) q.tail ≡ false =
        ground (arith, h.at_tail, h.start, h.room, h.mask, b) in
      let at_end : (wrapping_add 64 q.head m == q.tail) ≡ true =
        ground (arith, h.at_tail, h.at_head, h.start, h.room, h.mask, b, whole) in
      rw (open_tail, at_end) refl

  -- On an open queue that holds nothing, under the same bound, `pop` is the error Empty.
  pop-empty :
      (q : Queue A) (lap i : ℕ)
      → HoldsAt q [] lap i
      → lap * q.mask_bit + 3 * q.mask_bit < 2 ^ 63
      → pop q ≡ err empty
  unfolding pop
  pop-empty q lap i h b =
      let open_tail : leb (2 ^ 63) q.tail ≡ false =
        ground (arith, h.at_tail, h.start, h.room, h.mask, b) in
      let none_left : (q.tail % 2 ^ 63 == q.head) ≡ true =
        ground (arith, h.at_tail, h.at_head, h.start, h.mask, b) in
      rw (none_left, open_tail) refl

  masked_head :
      (q : Queue A) (xs : List A) (lap i : ℕ) → HoldsAt q xs lap i → q.head % q.mask_bit ≡ i
  masked_head q xs lap i h =
      ap (λ n. n % q.mask_bit) h.at_head ∙ masked lap q.mask_bit i (omega (arith, h.start, h.mask))

  popped : Queue A → Queue A
  popped q = record q { head = next_of q q.head }

  -- where the head is behind the front element: at the next slot, or at the first of the next lap
  popped-HoldsAt :
      (q : Queue A) (x : A) (xs : List A) (lap i : ℕ)
      → HoldsAt q (x ∷ xs) lap i
      → lap * q.mask_bit + 3 * q.mask_bit < 2 ^ 63
      → (lap' : ℕ) × (i' : ℕ) × HoldsAt (popped q) xs lap' i'
  unfolding next_of popped
  popped-HoldsAt q x xs lap i h b = elim (dec_lt (i + 1) (length q.buffer)) [
    | yes lt ↦
        let more : ltb (i + 1) (length q.buffer) ≡ true = ground (arith, lt) in
        (
          lap,
          i + 1,
          HoldsAt-intro (popped q) xs lap (i + 1) (length q.buffer) refl (omega (arith, h.room))
              h.mask lt (rw (masked_head q (x ∷ xs) lap i h, more) (omega (arith, h.at_head)))
              (h.at_tail ∙ ground (arith, lt))
              (λ k y e.
                let same : slot (length q.buffer) (i + 1) k ≡ slot (length q.buffer) i (suc k) =
                  ground arith in
                rw same (h.elements (suc k) y e)),
        )
    | no ge ↦
        let last : ltb (i + 1) (length q.buffer) ≡ false = ground (arith, ge) in
        let lap_end : suc lap * q.mask_bit ≡ lap * q.mask_bit + q.mask_bit = grind arith in
        (
          suc lap,
          0,
          HoldsAt-intro (popped q) xs (suc lap) 0 (length q.buffer) refl (omega (arith, h.room))
              h.mask (omega (arith, h.start))
              (rw (masked_head q (x ∷ xs) lap i h, last, lap_end, h.at_head)
                (omega (arith, b, h.start, h.mask)))
              (h.at_tail ∙ rw lap_end (ground (arith, ge, h.start, h.room)))
              (λ k y e.
                let same : slot (length q.buffer) 0 k ≡ slot (length q.buffer) i (suc k) =
                  ground (arith, get_elem?-lt xs k y e, ge, h.start, h.room) in
                rw same (h.elements (suc k) y e)),
        )
  ]

  -- On an open queue that is not empty, under that bound, `pop` gives the element at the front, and the
  -- queue holds the others.
  pub pop-HoldsAt :
      (q : Queue A) (x : A) (xs : List A) (lap i : ℕ)
      → HoldsAt q (x ∷ xs) lap i
      → lap * q.mask_bit + 3 * q.mask_bit < 2 ^ 63
      → (q' : Queue A) × (lap' : ℕ) × (i' : ℕ) × (pop q ≡ ok (x, q')) × HoldsAt q' xs lap' i'
  unfolding pop popped
  pop-HoldsAt q x xs lap i h b =
      let (lap', i', h') = popped-HoldsAt q x xs lap i h b in
      let some_left : (q.tail % 2 ^ 63 == q.head) ≡ false =
        ground (arith, h.at_tail, h.at_head, h.start, h.mask, h.room, b) in
      let front : slot (length q.buffer) i 0 ≡ i = ground (arith, h.start) in
      let at_front : get_elem? q.buffer i ≡ some (some x) =
        ap (λ s. get_elem? q.buffer s) (sym front) ∙ h.elements 0 x refl in
      (
        popped q,
        lap',
        i',
        rw (some_left, masked_head q (x ∷ xs) lap i h) (ap (read_slot q) at_front),
        h',
      )

  -- `len` of an open queue is the number of elements in it, but 0 when it is full.
  pub len-HoldsAt :
      (q : Queue A) (xs : List A) (lap i : ℕ)
      → HoldsAt q xs lap i
      → len q ≡ (if length xs == length q.buffer then 0 else length xs)
  unfolding len
  len-HoldsAt q xs lap i h = elim (dec_lt (length xs) (length q.buffer)) [
    | yes free ↦
        rw (masked_tail q xs lap i h free, masked_head q xs lap i h) (ground (arith, h.start, free))
    | no ge ↦
        let whole : length xs ≡ length q.buffer = omega (arith, ge, h.room) in
        let past : place (length q.buffer) q.mask_bit (lap * q.mask_bit) i (length xs)
            ≡ lap * q.mask_bit + q.mask_bit + i =
          ground (arith, whole) in
        let again : q.tail % q.mask_bit ≡ i =
          ap (λ n. n % q.mask_bit) (h.at_tail ∙ past)
          ∙ masked_next lap q.mask_bit i (omega (arith, h.start, h.mask)) in
        rw (again, masked_head q xs lap i h) (ground (arith, whole))
  ]

-- A new queue of a capacity that is not 0 and fits 63 bits holds nothing.
pub new_queue-HoldsAt :
    {A : Type 0} (capacity : ℕ)
    → 0 < capacity
    → capacity < 2 ^ 63
    → (q : Queue A) × (new_queue capacity ≡ some q) × HoldsAt q [] 0 0
unfolding new_queue doubled
new_queue-HoldsAt {A} capacity h h' =
    let some_room : (capacity == 0) ≡ false = ground (arith, h) in
    let enough : capacity + 1 ≤ power_from 64 1 (capacity + 1) =
      power_from-le 64 1 (capacity + 1) (omega (arith, h')) in
    let q : Queue A = record {
      head = 0;
      tail = 0;
      buffer = replicate capacity none;
      mask_bit = power_from 64 1 (capacity + 1);
    } in
    (
      q,
      rw some_room refl,
      HoldsAt-intro q [] 0 0 capacity (length-replicate capacity none) (omega arith)
          (omega (arith, enough)) h (omega arith) (ground (arith, h))
          (λ k x e. absurd (omega (arith, get_elem?-lt [] k x e))),
    )
