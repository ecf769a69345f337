-- ===== src/Base/Fallible.antt =====
-- A Go call that returns a value or an error, and does not panic.
use camblet.Base.Result.{Error}
use mathlib.Core.Path.{◌≡◌, refl}
use mathlib.Core.Option.{Option, none, some}

pub data Fallible {ℓ} (A : Type ℓ) : Type ℓ where
  value : A → Fallible A
  fails : Error → Fallible A

infixl 5 ◌>>=◌
abbrev pub ◌>>=◌ {ℓ κ} : {A : Type ℓ} {B : Type κ} → Fallible A → (A → Fallible B) → Fallible B
value a >>= f = f a
fails e >>= f = fails e

-- A value, or the given error.
abbrev pub or_fails {ℓ} : {A : Type ℓ} → Error → Option A → Fallible A
or_fails e none = fails e
or_fails e (some a) = value a

-- Inversion of a chain that gave a value, for a proof that goes on with it.
pub bind-value_then {ℓ κ μ} :
    {A : Type ℓ} {B : Type κ} {C : Type μ} (m : Fallible A) (f : A → Fallible B) {b : B}
    → (m >>= f) ≡ value b
    → ((a : A) → m ≡ value a → f a ≡ value b → C)
    → C
bind-value_then (value a) f h k = k a refl h
bind-value_then (fails e) f h k = cc

pub value_inj {ℓ} : {A : Type ℓ} (a b : A) → value a ≡ value b → a ≡ b
value_inj a b h = cc
