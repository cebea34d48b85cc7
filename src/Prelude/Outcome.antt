-- ===== src/Prelude/Outcome.antt =====
-- What a Go call comes to: a value, an error, or a run-time panic such as a nil dereference. No
-- caller reads the value that a function returns beside an error, so `err` holds none.
use Prim.Native.String.{String}
use mathlib.Core.Path.{◌≡◌, refl}
use mathlib.Core.Logic.{◌⊎◌, inl, inr}
use mathlib.Core.Option.{Option, none, some}

pub data Outcome {ℓ} (A : Type ℓ) : Type ℓ where
  ok : A → Outcome A
  err : String → Outcome A
  panic : Outcome A

-- `if err != nil { return ..., err }`
infixl 5 ◌>>=◌
abbrev pub ◌>>=◌ {ℓ κ} : {A : Type ℓ} {B : Type κ} → Outcome A → (A → Outcome B) → Outcome B
ok a >>= f = f a
err e >>= f = err e
panic >>= f = panic

-- `*p`
abbrev pub deref {ℓ} : {A : Type ℓ} → Option A → Outcome A
deref (some a) = ok a
deref none = panic

pub Outcome-cases {ℓ} :
    {A : Type ℓ} (o : Outcome A)
    → (o ≡ panic) ⊎ (((a : A) × (o ≡ ok a)) ⊎ ((e : String) × (o ≡ err e)))
Outcome-cases (ok a) = inr (inl (a, refl))
Outcome-cases (err e) = inr (inr (e, refl))
Outcome-cases panic = inl refl
