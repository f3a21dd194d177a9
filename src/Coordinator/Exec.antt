-- ===== src/Coordinator/Exec.antt =====
-- Methods that change the coordinator and may raise. What was written before a raise stays
-- written, but for the database inside a transaction, which is rolled back.
use vekquorum.Prelude.{Bool, Option, none, some, Result, ok, err, vq, fault, if◌then◌else◌}
use vekquorum.Errors.{Code}
use vekquorum.Coordinator.Tables.{Coordinator, Db}

abbrev pub Exec {ℓ} : Type ℓ → Type ℓ
Exec A = Coordinator → Result A × Coordinator

module _ {ℓ} {A : Type ℓ} where
  unfoldable pub pure : A → Exec A
  pure a s = (ok a, s)

  unfoldable pub raise : Code → Exec A
  raise c s = (err (vq c), s)

  -- an exception that is no `VQError`
  unfoldable pub crash : Exec A
  crash s = (err fault, s)

  unfoldable pub lift : Result A → Exec A
  lift r s = (r, s)

  unfoldable pub gets : (Coordinator → A) → Exec A
  gets f s = (ok (f s), s)

  unfoldable pub or_raise : Option A → Code → Exec A
  unfolding pure raise
  or_raise none c = raise c
  or_raise (some a) c = pure a

  -- reads a field or an item of `None`
  unfoldable pub or_crash : Option A → Exec A
  unfolding pure crash
  or_crash none = crash
  or_crash (some a) = pure a

unfoldable pub modify : (Coordinator → Coordinator) → Exec (Unit {0})
modify f s = (ok tt, f s)

unfoldable pub modify_db : (Db → Db) → Exec (Unit {0})
modify_db f s = (ok tt, record s { db = f s.db })

unfoldable pub raise_if : Bool → Code → Exec (Unit {0})
unfolding pure raise
raise_if b c = if b then raise c else pure tt

unfoldable pub raise_unless : Bool → Code → Exec (Unit {0})
unfolding pure raise
raise_unless b c = if b then pure tt else raise c

-- an `INSERT` that breaks a constraint raises `sqlite3.IntegrityError`
unfoldable pub constraint : Bool → Exec (Unit {0})
unfolding pure crash
constraint b = if b then pure tt else crash

module _ {ℓ κ} {A : Type ℓ} {B : Type κ} where
  abbrev pub continue :
      Result A → (A → Coordinator → Result B × Coordinator) → Coordinator → Result B × Coordinator
  continue (ok a) f s = f a s
  continue (err c) f s = (err c, s)

  infixl 5 ◌>>=◌
  unfoldable pub ◌>>=◌ : Exec A → (A → Exec B) → Exec B
  unfolding pure raise crash lift gets or_raise or_crash modify modify_db raise_if raise_unless
      constraint
  ◌>>=◌ m f s = let (r, s') = m s in continue r f s'

infixl 5 ◌>>◌
abbrev pub ◌>>◌ {κ} : {B : Type κ} → Exec (Unit {0}) → Exec B → Exec B
m >> k = m >>= λ _. k

-- `with self.store.tx()`: COMMIT, or ROLLBACK where an exception leaves the block.
module _ {ℓ} {A : Type ℓ} where
  abbrev pub settle : Db → Result A → Coordinator → Result A × Coordinator
  settle before (ok a) s = (ok a, s)
  settle before (err e) s = (err e, record s { db = before })

  unfoldable pub tx : Exec A → Exec A
  tx m s = let (r, s') = m s in settle s.db r s'
