-- ===== src/Prelude/Faultless.antt =====
-- Functions that raise no exception but a `VQError`, one rule for each way to build one.
use mathlib.Core.Path.{◌≡◌, refl}
use mathlib.Core.Logic.{◌≢◌, ◌⊎◌, inl, inr}
use mathlib.Core.Bool.{Bool, true, false}
use mathlib.Core.Option.{Option, none, some}
use vekquorum.Errors.{Code}
use vekquorum.Prelude.Results.{
  vq, fault, Result, ok, err, ◌>>=◌, raise_if, raise_unless, or_raise, Tried, done, caught, attempt,
}

pub record NoFault {ℓ} {A : Type ℓ} (m : Result A) : Type ℓ where
  pub never : m ≢ err fault

pub NoFault-ok {ℓ} : {A : Type ℓ} (a : A) → NoFault (ok a)
NoFault-ok a = record { never = λ h. cc }

pub NoFault-vq {ℓ} : {A : Type ℓ} (c : Code) → NoFault {A = A} (err (vq c))
NoFault-vq c = record { never = λ h. cc }

pub NoFault-raise_if : (b : Bool) (c : Code) → NoFault (raise_if b c)
NoFault-raise_if true c = NoFault-vq c
NoFault-raise_if false c = NoFault-ok tt

pub NoFault-raise_unless : (b : Bool) (c : Code) → NoFault (raise_unless b c)
NoFault-raise_unless true c = NoFault-ok tt
NoFault-raise_unless false c = NoFault-vq c

pub NoFault-or_raise {ℓ} : {A : Type ℓ} (o : Option A) (c : Code) → NoFault (or_raise o c)
NoFault-or_raise none c = NoFault-vq c
NoFault-or_raise (some a) c = NoFault-ok a

pub NoFault-bind {ℓ κ} :
    {A : Type ℓ} {B : Type κ} (m : Result A) (f : A → Result B)
    → NoFault m
    → ((a : A) → m ≡ ok a → NoFault (f a))
    → NoFault (m >>= f)
NoFault-bind (ok a) f h k = k a refl
NoFault-bind (err (vq c)) f h k = NoFault-vq c
NoFault-bind (err fault) f h k = absurd (h.never refl)

pub ruleset no_fault_rules =
    (NoFault-ok, NoFault-vq, NoFault-raise_if, NoFault-raise_unless, NoFault-or_raise, NoFault-bind)

-- The cases of a `try` block that goes on with `f`.
pub attempt-cases {ℓ κ} :
    {A : Type ℓ} {B : Type κ} (m : Result A) (f : Tried A → Result B) {b : B}
    → (attempt m >>= f) ≡ ok b
    → ((a : A) × (m ≡ ok a) × (f (done a) ≡ ok b))
      ⊎ ((c : Code) × (m ≡ err (vq c)) × (f (caught c) ≡ ok b))
attempt-cases (ok a) f h = inl (a, refl, h)
attempt-cases (err (vq c)) f h = inr (c, refl, h)
attempt-cases (err fault) f h = cc

-- The call returns a value.
abbrev pub Returns {ℓ} : {A : Type ℓ} → Result A → Type ℓ
Returns {A} m = (a : A) × (m ≡ ok a)

pub Returns-attempt {ℓ κ} :
    {A : Type ℓ} {B : Type κ} (m : Result A) (f : Tried A → Result B)
    → NoFault m
    → ((a : A) → m ≡ ok a → Returns (f (done a)))
    → ((c : Code) → Returns (f (caught c)))
    → Returns (attempt m >>= f)
Returns-attempt (ok a) f h k l = k a refl
Returns-attempt (err (vq c)) f h k l = l c
Returns-attempt (err fault) f h k l = absurd (h.never refl)
