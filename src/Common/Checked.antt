-- ===== src/Common/Checked.antt =====
-- Chains of steps that may give no value: reads past the end of a slice, `?` on an option.
use mathlib.Core.Option.{Option, none, some}
use mathlib.Core.Path.{◌≡◌, ap}
use mathlib.Core.Bool.{Bool, true, false}
use rustorrent.Common.Tests.{if◌then◌else◌}

module _ {ℓ κ} {A : Type ℓ} {B : Type κ} where
  infixl 5 ◌>>=◌
  abbrev pub ◌>>=◌ : Option A → (A → Option B) → Option B
  none >>= f = none
  some a >>= f = f a

  pub bind-some : (o : Option A) (a : A) (k : A → Option B) → o ≡ some a → (o >>= k) ≡ k a
  bind-some o a k e = ap (λ o. o >>= k) e

-- what holds of the value, if there is one
abbrev pub Ensures {ℓ} : {A : Type ℓ} → (A → Type 0) → Option A → Type 0
Ensures P none = Unit
Ensures P (some a) = P a

pub bind-Ensures {ℓ κ} :
    {A : Type ℓ} {B : Type κ} (P : A → Type 0) (Q : B → Type 0) (o : Option A) (k : A → Option B)
    → Ensures P o
    → ((a : A) → P a → Ensures Q (k a))
    → Ensures Q (o >>= k)
bind-Ensures P Q none k h f = tt
bind-Ensures P Q (some a) k h f = f a h

pub if-Ensures {ℓ} :
    {A : Type ℓ} (P : A → Type 0) (b : Bool) (o o' : Option A)
    → Ensures P o
    → Ensures P o'
    → Ensures P (if b then o else o')
if-Ensures P true o o' h h' = h
if-Ensures P false o o' h h' = h'

pub trivial-Ensures {ℓ} : {A : Type ℓ} (o : Option A) → Ensures (λ _. Unit) o
trivial-Ensures none = tt
trivial-Ensures (some a) = tt
