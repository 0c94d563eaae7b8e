-- ===== src/Common/Words.antt =====
-- Machine words as native numbers, and the big-endian reads and writes of the crate `byteorder`
-- and of `u16::to_be`, `u32::to_be`: a byte is a number below 256.
use Prim.Native.Nat.{ℕ, ◌+◌, ◌-◌, ◌*◌, ◌/◌, ◌%◌, ◌^◌, ◌<◌}
use mathlib.Core.Path.{◌≡◌}
use mathlib.Core.List.{List, [], ◌∷◌, ◌++◌}
use mathlib.Core.Option.{Option, none, some}
use native.Mathlib.Omega.{arith}

-- `a.wrapping_add(b)` and `a.wrapping_sub(b)` on `w` bits, which are also `a + b` and `a - b` of a
-- release build.
abbrev pub wrapping_add : ℕ → ℕ → ℕ → ℕ
wrapping_add w a b = (a + b) % 2 ^ w

abbrev pub wrapping_sub : ℕ → ℕ → ℕ → ℕ
wrapping_sub w a b = (a + 2 ^ w - b) % 2 ^ w

abbrev pub write_u16 : ℕ → List ℕ
write_u16 n = (n / 2 ^ 8 % 256) ∷ (n % 256) ∷ []

abbrev pub write_u32 : ℕ → List ℕ
write_u32 n = (n / 2 ^ 24 % 256) ∷ (n / 2 ^ 16 % 256) ∷ (n / 2 ^ 8 % 256) ∷ (n % 256) ∷ []

abbrev pub write_u64 : ℕ → List ℕ
write_u64 n = write_u32 (n / 2 ^ 32) ++ write_u32 (n % 2 ^ 32)

-- A read returns the value and what is left; `none` is the error `UnexpectedEof` of a short input.
abbrev pub read_u16 : List ℕ → Option (ℕ × List ℕ)
read_u16 (a ∷ b ∷ r) = some (a * 2 ^ 8 + b, r)
read_u16 _ = none

abbrev pub read_u32 : List ℕ → Option (ℕ × List ℕ)
read_u32 (a ∷ b ∷ c ∷ d ∷ r) = some (a * 2 ^ 24 + b * 2 ^ 16 + c * 2 ^ 8 + d, r)
read_u32 _ = none

pub read_u16-write_u16 :
    (n : ℕ) (r : List ℕ) → n < 2 ^ 16 → read_u16 (write_u16 n ++ r) ≡ some (n, r)
read_u16-write_u16 n r h = ground arith

pub read_u32-write_u32 :
    (n : ℕ) (r : List ℕ) → n < 2 ^ 32 → read_u32 (write_u32 n ++ r) ≡ some (n, r)
read_u32-write_u32 n r h = ground arith
