-- ===== src/Base/Result.antt =====
-- What a Go call comes to: a value, an error, or a panic.
use Prim.Native.String.{String, ◌++◌ as concat}
use mathlib.Core.Path.{◌≡◌, refl}
use mathlib.Core.Option.{Option, none, some}

-- An error is its text, as `Error()` gives it.
abbrev pub Error : Type 0
Error = String

pub data Result {ℓ} (A : Type ℓ) : Type ℓ where
  ok : A → Result A
  err : Error → Result A
  panics : Result A

-- What follows a call runs on its value only.
infixl 5 ◌>>=◌ ◌>>◌
abbrev pub ◌>>=◌ {ℓ κ} :
    {Now : Type ℓ} {Later : Type κ} → Result Now → (Now → Result Later) → Result Later
panics >>= next = panics
err message >>= next = err message
ok now >>= next = next now

abbrev pub ◌>>◌ {ℓ} : {B : Type ℓ} → Result (Unit {0}) → Result B → Result B
m >> k = m >>= λ _. k

-- errors.WrapIf(err, message) on the error of a call, if it has one
abbrev pub wrap_if {ℓ} : {A : Type ℓ} → String → Result A → Result A
wrap_if message (ok a) = ok a
wrap_if message (err e) = err (concat message (concat ": " e))
wrap_if message panics = panics

-- `if err != nil { return err }`
abbrev pub check : Option Error → Result (Unit {0})
check none = ok tt
check (some e) = err e

-- A pointer that is dereferenced.
abbrev pub deref {ℓ} : {A : Type ℓ} → Option A → Result A
deref none = panics
deref (some a) = ok a

-- Inversion of a chain that gave a value, for a proof that goes on with its first value.
pub bind-ok_then {ℓ κ μ} :
    {A : Type ℓ} {B : Type κ} {C : Type μ} (m : Result A) (f : A → Result B) {b : B}
    → (m >>= f) ≡ ok b
    → ((a : A) → m ≡ ok a → f a ≡ ok b → C)
    → C
bind-ok_then (ok a) f h k = k a refl h
bind-ok_then (err e) f h k = cc
bind-ok_then panics f h k = cc

module _ {ℓ} {A : Type ℓ} where
  pub ok_inj : (a b : A) → ok a ≡ ok b → a ≡ b
  ok_inj a b h = cc

  pub deref-ok : (o : Option A) {a : A} → deref o ≡ ok a → o ≡ some a
  deref-ok none h = cc
  deref-ok (some b) h = cc

  pub wrap_if-ok : (message : String) (m : Result A) {a : A} → wrap_if message m ≡ ok a → m ≡ ok a
  wrap_if-ok message (ok b) h = h
  wrap_if-ok message (err e) h = cc
  wrap_if-ok message panics h = cc

pub check-ok : (o : Option Error) {u : Unit {0}} → check o ≡ ok u → o ≡ none
check-ok none h = refl
check-ok (some e) h = cc

-- A call that panics only if the given statement holds.
abbrev pub PanicsIf {ℓ} : {A : Type ℓ} → Type 0 → Result A → Type 0
PanicsIf cause (ok a) = Unit
PanicsIf cause (err e) = Unit
PanicsIf cause panics = cause

pub bind-PanicsIf {ℓ κ} :
    {A : Type ℓ} {B : Type κ} (cause : Type 0) (m : Result A) (f : A → Result B)
    → PanicsIf cause m
    → ((a : A) → m ≡ ok a → PanicsIf cause (f a))
    → PanicsIf cause (m >>= f)
bind-PanicsIf cause (ok a) f hm hf = hf a refl
bind-PanicsIf cause (err e) f hm hf = tt
bind-PanicsIf cause panics f hm hf = hm

pub wrap_if-PanicsIf {ℓ} :
    {A : Type ℓ} (cause : Type 0) (message : String) (m : Result A)
    → PanicsIf cause m
    → PanicsIf cause (wrap_if message m)
wrap_if-PanicsIf cause message (ok a) h = tt
wrap_if-PanicsIf cause message (err e) h = tt
wrap_if-PanicsIf cause message panics h = h

pub check-PanicsIf : (cause : Type 0) (o : Option Error) → PanicsIf cause (check o)
check-PanicsIf cause none = tt
check-PanicsIf cause (some e) = tt
