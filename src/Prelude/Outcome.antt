-- ===== src/Prelude/Outcome.antt =====
-- The outcome of C++ code: a value, a thrown exception, or undefined behaviour. `stuck` stands for
-- a loop of the model that has run out of fuel.
use Prim.Native.Nat.{ℕ, ◌/◌, ◌%◌, ◌<◌}
use native.Mathlib.Omega.{arith}
use czi_pyramidizer.Prelude.Tests.{◌==◌, if◌then◌else◌}
use mathlib.Core.Path.{◌≡◌, refl}
use mathlib.Core.Logic.{◌⊎◌, inl, inr}

pub data Error : Type 0 where
  invalid_argument logic_error runtime_error out_of_range narrowing_error : Error
  division_by_zero out_of_bounds indeterminate overflow null_pointer stuck : Error

pub data Outcome {ℓ} (A : Type ℓ) : Type ℓ where
  ok : A → Outcome A
  err : Error → Outcome A

-- What follows is left out after an exception and after undefined behaviour.
module _ {α β} {X : Type α} {Y : Type β} where
  infixl 5 ◌>>=◌
  abbrev pub ◌>>=◌ : Outcome X → (X → Outcome Y) → Outcome Y
  err e >>= next = err e
  ok x >>= next = next x

  -- What is executed to its end has made each of its steps.
  pub bind_inversion :
      (first : Outcome X) (next : X → Outcome Y) {y : Y}
      → (first >>= next) ≡ ok y
      → (x : X) × (first ≡ ok x) × (next x ≡ ok y)
  bind_inversion (err e) next h = cc
  bind_inversion (ok x) next h = (x, refl, h)

-- Unsigned division and remainder, undefined for the divisor 0.
unfoldable pub div_u32 : ℕ → ℕ → Outcome ℕ
div_u32 a b = if b == 0 then err division_by_zero else ok (a / b)

unfoldable pub mod_u32 : ℕ → ℕ → Outcome ℕ
mod_u32 a b = if b == 0 then err division_by_zero else ok (a % b)

pub div_u32_lem : (a b : ℕ) → 0 < b → div_u32 a b ≡ ok (a / b)
unfolding div_u32
div_u32_lem a b h = ground arith

pub mod_u32_lem : (a b : ℕ) → 0 < b → mod_u32 a b ≡ ok (a % b)
unfolding mod_u32
mod_u32_lem a b h = ground arith

pub ok-injective {ℓ} : {A : Type ℓ} {a b : A} → ok a ≡ ok b → a ≡ b
ok-injective h = cc

pub Outcome-cases {ℓ} :
    {A : Type ℓ} (m : Outcome A) → ((a : A) × (m ≡ ok a)) ⊎ ((e : Error) × (m ≡ err e))
Outcome-cases (ok a) = inl (a, refl)
Outcome-cases (err e) = inr (e, refl)
