-- ===== src/Prelude/Results.antt =====
-- Functions that may raise. A `VQError` carries a protocol code; `fault` is any other exception,
-- such as a `KeyError`, which no `except VQError` clause catches.
use mathlib.Core.Path.{◌≡◌, refl}
use mathlib.Core.Bool.{Bool, true, false}
use mathlib.Core.Option.{Option, none, some}
use vekquorum.Errors.{Code}

pub data Raised : Type 0 where
  vq : Code → Raised
  fault : Raised

pub data Result {ℓ} (A : Type ℓ) : Type ℓ where
  ok : A → Result A
  err : Raised → Result A

-- The rest of a `do` block runs where no exception left the first line.
module _ {ℓ κ} {A : Type ℓ} {B : Type κ} where
  infixl 5 ◌>>=◌
  abbrev pub ◌>>=◌ : Result A → (A → Result B) → Result B
  (err raised) >>= next = err raised
  (ok value) >>= next = next value

  -- a `do` block that returns ends with a line that returns
  pub >>=-eq-ok :
      (m : Result A) (next : A → Result B) {b : B}
      → (m >>= next) ≡ ok b
      → (a : A) × (m ≡ ok a) × (next a ≡ ok b)
  >>=-eq-ok (err raised) next h = cc
  >>=-eq-ok (ok value) next h = (value, refl, h)

-- `if b: raise VQError(c)`
abbrev pub raise_if : Bool → Code → Result (Unit {0})
raise_if true c = err (vq c)
raise_if false c = ok tt

-- `if not b: raise VQError(c)`
abbrev pub raise_unless : Bool → Code → Result (Unit {0})
raise_unless true c = ok tt
raise_unless false c = err (vq c)

module _ {κ} {B : Type κ} where
  infixl 5 ◌>>◌
  abbrev pub ◌>>◌ : Result (Unit {0}) → Result B → Result B
  first >> rest = first >>= λ _. rest

-- `d[k]` on a dictionary, and a `KeyError` where the key is missing.
abbrev pub or_fault {ℓ} : {A : Type ℓ} → Option A → Result A
or_fault none = err fault
or_fault (some a) = ok a

abbrev pub or_raise {ℓ} : {A : Type ℓ} → Option A → Code → Result A
or_raise none c = err (vq c)
or_raise (some a) c = ok a

-- What a `try` block comes to where only `VQError` is caught.
pub data Tried {ℓ} (A : Type ℓ) : Type ℓ where
  done : A → Tried A
  caught : Code → Tried A

abbrev pub attempt {ℓ} : {A : Type ℓ} → Result A → Result (Tried A)
attempt (ok a) = ok (done a)
attempt (err (vq c)) = ok (caught c)
attempt (err fault) = err fault

pub raise_if-eq-ok : (b : Bool) (c : Code) {u : Unit {0}} → raise_if b c ≡ ok u → b ≡ false
raise_if-eq-ok true c h = cc
raise_if-eq-ok false c h = refl
