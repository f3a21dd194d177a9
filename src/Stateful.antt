-- ===== src/Stateful.antt =====
-- Methods that change a state of any type and may raise. What was written before a raise stays
-- written, but inside a transaction, which is rolled back.
pub mod Moves
use vekquorum.Prelude.{Bool, Option, none, some, Result, ok, err, vq, if◌then◌else◌}
use vekquorum.Errors.{Code}

abbrev pub Method {ℓ} : Type 0 → Type ℓ → Type ℓ
Method S A = S → Result A × S

module _ {ℓ} {S : Type 0} {A : Type ℓ} where
  unfoldable pub pure : A → Method S A
  pure a s = (ok a, s)

  unfoldable pub raise : Code → Method S A
  raise c s = (err (vq c), s)

  unfoldable pub lift : Result A → Method S A
  lift r s = (r, s)

  unfoldable pub gets : (S → A) → Method S A
  gets f s = (ok (f s), s)

  unfoldable pub or_raise : Option A → Code → Method S A
  unfolding pure raise
  or_raise none c = raise c
  or_raise (some a) c = pure a

module _ {S : Type 0} where
  unfoldable pub modify : (S → S) → Method S (Unit {0})
  modify f s = (ok tt, f s)

  unfoldable pub raise_if : Bool → Code → Method S (Unit {0})
  unfolding pure raise
  raise_if b c = if b then raise c else pure tt

module _ {ℓ κ} {S : Type 0} {A : Type ℓ} {B : Type κ} where
  abbrev pub continue : Result A → (A → S → Result B × S) → S → Result B × S
  continue (ok a) f s = f a s
  continue (err c) f s = (err c, s)

  infixl 5 ◌>>=◌
  unfoldable pub ◌>>=◌ : Method S A → (A → Method S B) → Method S B
  unfolding pure raise lift gets or_raise modify raise_if
  ◌>>=◌ m f s = let (r, s') = m s in continue r f s'

infixl 5 ◌>>◌
abbrev pub ◌>>◌ {κ} : {S : Type 0} {B : Type κ} → Method S (Unit {0}) → Method S B → Method S B
m >> k = m >>= λ _. k

-- COMMIT, or ROLLBACK where an exception leaves the block
module _ {ℓ} {S : Type 0} {A : Type ℓ} where
  abbrev pub settle : S → Result A → S → Result A × S
  settle before (ok a) s = (ok a, s)
  settle before (err e) s = (err e, before)

  unfoldable pub tx : Method S A → Method S A
  tx m s = let (r, s') = m s in settle s r s'
