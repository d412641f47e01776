-- ===== src/Prelude/Outcome.antt =====
-- A computation that may panic: a failed `expect`, an index or slice out of range, and, in the
-- debug profile that `cargo run` builds, an arithmetic overflow.
use Prim.Native.Nat.{ℕ, ◌+◌, ◌<◌}
use mathlib.Core.Path.{◌≡◌, refl}
use mathlib.Core.Logic.{◌≢◌}
use mathlib.Core.Option.{Option, none, some}
use native.Mathlib.Omega.{arith}
use streamlet_transparency_l.Prelude.Tests.{ltb, if◌then◌else◌}

pub data Outcome {ℓ} (A : Type ℓ) : Type ℓ where
  done : A → Outcome A
  panic : Outcome A

infixl 5 ◌>>=◌
abbrev pub ◌>>=◌ {ℓ κ} : {A : Type ℓ} {B : Type κ} → Outcome A → (A → Outcome B) → Outcome B
done a >>= f = f a
panic >>= f = panic

-- `expect` and `unwrap` on an option.
abbrev pub expect {ℓ} : {A : Type ℓ} → Option A → Outcome A
expect none = panic
expect (some a) = done a

abbrev pub u64_limit : ℕ
u64_limit = 18446744073709551616

abbrev pub u32_limit : ℕ
u32_limit = 4294967296

abbrev pub add_u64 : ℕ → ℕ → Outcome ℕ
add_u64 a b = if ltb (a + b) u64_limit then done (a + b) else panic

abbrev pub add_u32 : ℕ → ℕ → Outcome ℕ
add_u32 a b = if ltb (a + b) u32_limit then done (a + b) else panic

pub >>=-eq-done {ℓ κ} :
    {A : Type ℓ} {B : Type κ} (m : Outcome A) (f : A → Outcome B) {b : B}
    → (m >>= f) ≡ done b
    → (a : A) × (m ≡ done a) × (f a ≡ done b)
>>=-eq-done (done a) f h = (a, refl, h)
>>=-eq-done panic f h = cc

pub add_u64_done : (a b : ℕ) → a + b < u64_limit → add_u64 a b ≡ done (a + b)
add_u64_done a b h = ground arith

pub Outcome-done {ℓ} : {A : Type ℓ} (m : Outcome A) → m ≢ panic → (a : A) × (m ≡ done a)
Outcome-done (done a) h = (a, refl)
Outcome-done panic h = absurd (h refl)

pub done-injective {ℓ} : {A : Type ℓ} {a b : A} → done a ≡ done b → a ≡ b
done-injective h = cc
