-- ===== src/Base/Results.antt =====
-- The outcome of a call that may return a negative error code, or stop on a failed assertion.
use phobos.Base.Tests.{if◌then◌else◌}
use mathlib.Core.Bool.{Bool}
use mathlib.Core.Path.{◌≡◌, refl}
use mathlib.Core.Option.{Option, none, some}
use mathlib.Core.Logic.{◌⊎◌, inl, inr}

-- The codes that the modelled code tells apart.
pub data Errno : Type 0 where
  enodev eagain eaddrnotavail einval enoent eexist enolck ecomm enotsup : Errno

pub data Result {ℓ} (A : Type ℓ) : Type ℓ where
  ok : A → Result A
  err : Errno → Result A
  abort : Result A

infixl 5 ◌>>=◌ ◌>>◌
abbrev pub ◌>>=◌ {ℓ κ} : {A : Type ℓ} {B : Type κ} → Result A → (A → Result B) → Result B
ok a >>= f = f a
err e >>= f = err e
abort >>= f = abort

abbrev pub ◌>>◌ {ℓ} : {B : Type ℓ} → Result (Unit {0}) → Result B → Result B
m >> k = m >>= λ _. k

-- `goto` an error exit when the condition holds.
abbrev pub fail_if : Bool → Errno → Result (Unit {0})
fail_if b e = if b then err e else ok tt

-- A failed assertion stops the call.
abbrev pub or_abort {ℓ} : {A : Type ℓ} → Option A → Result A
or_abort none = abort
or_abort (some a) = ok a

pub Result-cases {ℓ} :
    {A : Type ℓ} (r : Result A)
    → ((a : A) × (r ≡ ok a)) ⊎ (((e : Errno) × (r ≡ err e)) ⊎ (r ≡ abort))
Result-cases (ok a) = inl (a, refl)
Result-cases (err e) = inr (inl (e, refl))
Result-cases abort = inr (inr refl)
