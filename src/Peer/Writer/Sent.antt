-- ===== src/Peer/Writer/Sent.antt =====
-- What a buffer holds after `write_msg` and `consume`, and how a peer reads it.
use rustorrent.Common.{
  ℕ, zero, suc, ◌+◌, ◌-◌, ◌*◌, ◌/◌, ◌%◌, ◌^◌, ◌≤◌, ◌<◌, ◌≡◌, refl, sym, ◌∙◌, ap, true, false,
  Option, some, List, [], ◌∷◌, ◌++◌, append-nil, append_assoc, arith, ltb, ◌==◌, length, take, drop,
  length-append, length-take, length-drop, take-append, write_u16, write_u32,
}
use native.Mathlib.Decide.{dec_lt}
use rustorrent.Common.Outcome.{ok, panic}
use rustorrent.Peer.Message.{
  MessagePeer, keep_alive, choke, un_choke, interested, not_interested, have, bit_field, request,
  piece, cancel, port, extension, handshake, message, unknown, try_from,
}
use rustorrent.Peer.Writer.{
  BufferWriter, as_ref, write_all, write_msg, consume, copy_within, length_prefix,
}

-- The position is inside the buffer.
abbrev pub IsInside : BufferWriter → Type 0
IsInside w = w.pos ≤ length w.buffer

-- `w'` holds what `w` holds and `bytes` behind it.
abbrev pub Wrote : BufferWriter → List ℕ → BufferWriter → Type 0
Wrote w bytes w' = IsInside w' × (as_ref w' ≡ as_ref w ++ bytes)

write_all-as_ref :
    (w : BufferWriter) (bytes : List ℕ) → IsInside w → Wrote w bytes (write_all w bytes)
unfolding write_all
write_all-as_ref w bytes h =
    let none_missing : w.pos - length w.buffer ≡ 0 = omega arith in
    let rest = drop (w.pos + length bytes) w.buffer in
    let held = take w.pos w.buffer in
    let size : w.pos + length bytes ≡ length (held ++ bytes) =
      omega (arith, length-append {0} held bytes, length-take {0} w.pos w.buffer) in
    let same : (write_all w bytes).buffer ≡ (held ++ bytes) ++ rest =
      rw (none_missing, append-nil) refl in
    (
      rw same (omega (arith, size, length-append {0} (held ++ bytes) rest)),
      ap (λ xs. take (w.pos + length bytes) xs) same
          ∙ ap (λ n. take n ((held ++ bytes) ++ rest)) size
          ∙ take-append (held ++ bytes) rest,
    )

Wrote-write_all :
    (w w' : BufferWriter) (s bytes : List ℕ)
    → Wrote w s w'
    → Wrote w (s ++ bytes) (write_all w' bytes)
Wrote-write_all w w' s bytes (inside, e) =
    let (inside', e') = write_all-as_ref w' bytes inside in
    (inside', e' ∙ ap (λ xs. xs ++ bytes) e ∙ append_assoc (as_ref w) s bytes)

write_chunks : BufferWriter → List (List ℕ) → BufferWriter
write_chunks w [] = w
write_chunks w (c ∷ cs) = write_chunks (write_all w c) cs

joined : List (List ℕ) → List ℕ
joined [] = []
joined (c ∷ []) = c
joined (c ∷ c' ∷ cs) = c ++ joined (c' ∷ cs)

Wrote-write_chunks :
    (w w' : BufferWriter) (s : List ℕ) (cs : List (List ℕ))
    → Wrote w s w'
    → Wrote w (s ++ joined cs) (write_chunks w' cs)
unfolding write_chunks joined
Wrote-write_chunks w w' s [] h = rw append-nil h
Wrote-write_chunks w w' s (c ∷ []) h = Wrote-write_all w w' s c h
Wrote-write_chunks w w' s (c ∷ c' ∷ cs) h =
    rw (sym (append_assoc s c (joined (c' ∷ cs))))
      (Wrote-write_chunks w (write_all w' c) (s ++ c) (c' ∷ cs) (Wrote-write_all w w' s c h))

length_prefix-fits : (n : ℕ) (s : List ℕ) → n + length s < 2 ^ 32 → length_prefix n s ≡ n + length s
length_prefix-fits n s h = omega arith

u16-value : (n : ℕ) → n < 2 ^ 16 → n / 2 ^ 8 % 256 * 2 ^ 8 + n % 256 ≡ n
u16-value n h = omega arith

-- the number that the four bytes of `write_u32` are read as
abbrev u32 : ℕ → ℕ
u32 n = n / 2 ^ 24 % 256 * 2 ^ 24 + n / 2 ^ 16 % 256 * 2 ^ 16 + n / 2 ^ 8 % 256 * 2 ^ 8 + n % 256

u32-value : (n : ℕ) → n < 2 ^ 32 → u32 n ≡ n
u32-value n h = omega arith

u32-two :
    {A : Type 0} (f : ℕ → ℕ → A) (a b : ℕ) → a < 2 ^ 32 → b < 2 ^ 32 → f (u32 a) (u32 b) ≡ f a b
u32-two f a b h h' = ap (λ k. f k (u32 b)) (u32-value a h) ∙ ap (f a) (u32-value b h')

u32-three :
    {A : Type 0} (f : ℕ → ℕ → ℕ → A) (a b c : ℕ)
    → a < 2 ^ 32
    → b < 2 ^ 32
    → c < 2 ^ 32
    → f (u32 a) (u32 b) (u32 c) ≡ f a b c
u32-three f a b c h h' h'' =
    ap (λ k. f k (u32 b) (u32 c)) (u32-value a h) ∙ u32-two (f a) b c h' h''

module _ {H : Type 0} (encode : H → List ℕ) (decode : List ℕ → Option H) where
  -- The fields fit the words that carry them, the message fits its length, a handshake can be read
  -- back, and no other extended message has its id 0. There is no such frame for the handshake of a
  -- connection and for an unknown message.
  unfoldable pub IsSendable : MessagePeer H → Type 0
  IsSendable keep_alive = Unit
  IsSendable choke = Unit
  IsSendable un_choke = Unit
  IsSendable interested = Unit
  IsSendable not_interested = Unit
  IsSendable (have piece_index) = piece_index < 2 ^ 32
  IsSendable (bit_field s) = 1 + length s < 2 ^ 32
  IsSendable (request index begin size) = index < 2 ^ 32 × begin < 2 ^ 32 × size < 2 ^ 32
  IsSendable (piece index block s) = index < 2 ^ 32 × block < 2 ^ 32 × 9 + length s < 2 ^ 32
  IsSendable (cancel index begin size) = index < 2 ^ 32 × begin < 2 ^ 32 × size < 2 ^ 32
  IsSendable (port n) = n < 2 ^ 16
  IsSendable (extension (handshake h)) =
      (decode (encode h) ≡ some h) × 2 + length (encode h) < 2 ^ 32
  IsSendable (extension (message id s)) = 0 < id × 2 + length s < 2 ^ 32
  IsSendable (handshake info_hash extern_id) = ⊥
  IsSendable (unknown id s) = ⊥

  -- what the other side makes of a message: the id of an extended message becomes 20
  unfoldable pub received : MessagePeer H → MessagePeer H
  received (extension (message id s)) = extension (message 20 s)
  received m = m

  unfoldable pub IsSent : BufferWriter → MessagePeer H → Type 0
  unfolding received
  IsSent w m =
      (w' : BufferWriter) × (bytes : List ℕ) × (write_msg encode m w ≡ ok w')
      × Wrote w (write_u32 (length bytes) ++ bytes) w'
      × (try_from decode bytes ≡ ok (received m))

  sent :
      (w : BufferWriter) (m : MessagePeer H) (cs : List (List ℕ)) (bytes : List ℕ)
      → IsInside w
      → write_msg encode m w ≡ ok (write_chunks w cs)
      → joined cs ≡ write_u32 (length bytes) ++ bytes
      → try_from decode bytes ≡ ok (received m)
      → IsSent w m
  unfolding IsSent
  sent w m cs bytes h run frame read = (
    write_chunks w cs,
    bytes,
    run,
    rw (sym frame) (Wrote-write_chunks w w [] cs (h, sym (append-nil (as_ref w)))),
    read,
  )

  -- A message that has a frame is written behind what the buffer holds, as its length in four bytes and
  -- that many bytes more, and the other side reads these as the message. Only the id of an extended
  -- message is lost.
  pub write_msg-IsSent :
      (w : BufferWriter) (m : MessagePeer H) → IsInside w → IsSendable m → IsSent w m
  unfolding write_msg try_from IsSendable write_chunks joined received
  write_msg-IsSent w keep_alive h p = sent w keep_alive (write_u32 0 ∷ []) [] h refl refl refl
  write_msg-IsSent w choke h p =
      sent w choke (write_u32 1 ∷ (0 ∷ []) ∷ []) (0 ∷ []) h refl refl refl
  write_msg-IsSent w un_choke h p =
      sent w un_choke (write_u32 1 ∷ (1 ∷ []) ∷ []) (1 ∷ []) h refl refl refl
  write_msg-IsSent w interested h p =
      sent w interested (write_u32 1 ∷ (2 ∷ []) ∷ []) (2 ∷ []) h refl refl refl
  write_msg-IsSent w not_interested h p =
      sent w not_interested (write_u32 1 ∷ (3 ∷ []) ∷ []) (3 ∷ []) h refl refl refl
  write_msg-IsSent w (have n) h p =
      sent w (have n) (write_u32 5 ∷ (4 ∷ []) ∷ write_u32 n ∷ []) (4 ∷ write_u32 n) h refl refl
        (ap (λ k. ok (have k)) (u32-value n p))
  write_msg-IsSent w (bit_field s) h p =
      sent w (bit_field s) (write_u32 (length_prefix 1 s) ∷ (5 ∷ []) ∷ s ∷ []) (5 ∷ s) h refl
        (ap (λ n. write_u32 n ++ 5 ∷ s) (length_prefix-fits 1 s p ∙ omega arith)) refl
  write_msg-IsSent w (request a b c) h p =
      sent w (request a b c)
        (write_u32 13 ∷ (6 ∷ []) ∷ write_u32 a ∷ write_u32 b ∷ write_u32 c ∷ [])
        (6 ∷ (write_u32 a ++ write_u32 b ++ write_u32 c)) h refl refl
        (u32-three (λ i j k. ok (request i j k)) a b c p.0 p.1 p.2)
  write_msg-IsSent w (piece a b s) h p =
      sent w (piece a b s)
        (write_u32 (length_prefix 9 s) ∷ (7 ∷ []) ∷ write_u32 a ∷ write_u32 b ∷ s ∷ [])
        (7 ∷ (write_u32 a ++ write_u32 b ++ s)) h refl
        (ap (λ n. write_u32 n ++ 7 ∷ (write_u32 a ++ write_u32 b ++ s))
          (length_prefix-fits 9 s p.2 ∙ omega arith))
        (u32-two (λ i j. ok (piece i j s)) a b p.0 p.1)
  write_msg-IsSent w (cancel a b c) h p =
      sent w (cancel a b c) (write_u32 13 ∷ (8 ∷ []) ∷ write_u32 a ∷ write_u32 b ∷ write_u32 c ∷ [])
        (8 ∷ (write_u32 a ++ write_u32 b ++ write_u32 c)) h refl refl
        (u32-three (λ i j k. ok (cancel i j k)) a b c p.0 p.1 p.2)
  write_msg-IsSent w (port n) h p =
      sent w (port n) (write_u32 3 ∷ (9 ∷ []) ∷ write_u16 n ∷ []) (9 ∷ write_u16 n) h refl refl
        (ap (λ k. ok (port k)) (u16-value n p))
  write_msg-IsSent w (extension (handshake x)) h p =
      let s = encode x in
      sent w (extension (handshake x))
        (write_u32 (length_prefix 2 s) ∷ (20 ∷ []) ∷ (0 ∷ []) ∷ s ∷ []) (20 ∷ 0 ∷ s) h refl
        (ap (λ n. write_u32 n ++ 20 ∷ 0 ∷ s) (length_prefix-fits 2 s p.1 ∙ omega arith))
        (rw p.0 refl)
  write_msg-IsSent w (extension (message zero s)) h p = absurd (omega (arith, p))
  write_msg-IsSent w (extension (message (suc id) s)) h p =
      sent w (extension (message (suc id) s))
        (write_u32 (length_prefix 2 s) ∷ (20 ∷ []) ∷ (suc id ∷ []) ∷ s ∷ []) (20 ∷ suc id ∷ s) h
        refl (ap (λ n. write_u32 n ++ 20 ∷ suc id ∷ s) (length_prefix-fits 2 s p.1 ∙ omega arith))
        refl
  write_msg-IsSent w (handshake info_hash extern_id) h p = absurd p
  write_msg-IsSent w (unknown id s) h p = absurd p

drop-all : (n : ℕ) (xs : List ℕ) → length xs ≤ n → drop n xs ≡ []
drop-all zero [] h = refl
drop-all zero (x ∷ xs) h = absurd (omega (arith, h))
drop-all (suc n) [] h = refl
drop-all (suc n) (x ∷ xs) h = drop-all n xs (omega (arith, h))

-- `consume` of no more than is held drops that much from the front; of more it panics.
pub consume-as_ref :
    (n : ℕ) (w : BufferWriter)
    → IsInside w
    → n ≤ w.pos
    → (w' : BufferWriter) × (consume n w ≡ ok w') × IsInside w' × (as_ref w' ≡ drop n (as_ref w))
unfolding consume copy_within
consume-as_ref n w h le =
    let held = take w.pos w.buffer in
    let size : length held ≡ w.pos = omega (arith, length-take {0} w.pos w.buffer) in
    let kept = drop n held in
    let left : length kept ≡ w.pos - n = omega (arith, length-drop {0} n held, size) in
    elim (dec_lt n w.pos) [
      | yes lt ↦
          let differ : (n == w.pos) ≡ false = ground (arith, lt) in
          let fewer : ltb n w.pos ≡ true = ground (arith, lt) in
          let rest = drop (w.pos - n) w.buffer in
          (
            record { buffer = kept ++ rest; pos = w.pos - n },
            rw (differ, fewer) refl,
            omega (arith, left, length-append {0} kept rest),
            ap (λ k. take k (kept ++ rest)) (sym left) ∙ take-append kept rest,
          )
      | no ge ↦
          let same : (n == w.pos) ≡ true = ground (arith, ge, le) in
          (
            record w { pos = 0 },
            rw same refl,
            omega arith,
            sym (drop-all n held (omega (arith, ge, size))),
          )
    ]

pub consume-panics : (n : ℕ) (w : BufferWriter) → w.pos < n → consume n w ≡ panic
unfolding consume
consume-panics n w h = ground arith
