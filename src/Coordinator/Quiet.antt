-- ===== src/Coordinator/Quiet.antt =====
-- Methods that hand nothing to an executor and consume no operation: one rule for each way to
-- build a method.
pub mod Helpers
pub mod Requests
pub mod Methods
pub mod Threads
use vekquorum.Prelude.{
  ◌≡◌, refl, ◌∙◌, Bool, true, false, Option, none, some, Result, ok, err, if◌then◌else◌,
}
use vekquorum.Errors.{Code}
use vekquorum.Coordinator.Tables.{Coordinator, Db}
use vekquorum.Coordinator.Exec.{
  Exec, pure, raise, crash, lift, gets, or_raise, or_crash, modify, modify_db, raise_if,
  raise_unless, constraint, continue, settle, tx, ◌>>=◌,
}

-- the executors have been handed the same requests, and the same operations are consumed
abbrev pub Same : Coordinator → Coordinator → Type 0
Same s s' = (s'.calls ≡ s.calls) × (s'.db.consumed ≡ s.db.consumed)

-- whether it returns or raises
pub record Quiet {ℓ} {A : Type ℓ} (m : Exec A) : Type 0 where
  pub same : (s : Coordinator) → Same s (m s).1

module _ {ℓ} {A : Type ℓ} where
  pub Quiet-pure : (a : A) → Quiet (pure a)
  unfolding pure
  Quiet-pure a = record { same = λ s. (refl, refl) }

  pub Quiet-raise : (c : Code) → Quiet (raise {A = A} c)
  unfolding raise
  Quiet-raise c = record { same = λ s. (refl, refl) }

  pub Quiet-crash : Quiet (crash {A = A})
  unfolding crash
  Quiet-crash = record { same = λ s. (refl, refl) }

  pub Quiet-lift : (r : Result A) → Quiet (lift r)
  unfolding lift
  Quiet-lift r = record { same = λ s. (refl, refl) }

  pub Quiet-gets : (f : Coordinator → A) → Quiet (gets f)
  unfolding gets
  Quiet-gets f = record { same = λ s. (refl, refl) }

  pub Quiet-or_raise : (o : Option A) (c : Code) → Quiet (or_raise o c)
  unfolding or_raise
  Quiet-or_raise none c = Quiet-raise c
  Quiet-or_raise (some a) c = Quiet-pure a

  pub Quiet-or_crash : (o : Option A) → Quiet (or_crash o)
  unfolding or_crash
  Quiet-or_crash none = Quiet-crash
  Quiet-or_crash (some a) = Quiet-pure a

  pub Quiet-if : (b : Bool) (m n : Exec A) → Quiet m → Quiet n → Quiet (if b then m else n)
  Quiet-if true m n q r = q
  Quiet-if false m n q r = r

  settle-Same :
      (s : Coordinator) (r : Result A) (t : Coordinator) → Same s t → Same s (settle s.db r t).1
  settle-Same s (ok a) t h = h
  settle-Same s (err e) t h = (h.0, refl)

  pub Quiet-tx : (m : Exec A) → Quiet m → Quiet (tx m)
  unfolding tx
  Quiet-tx m q = record { same = λ s. settle-Same s (m s).0 (m s).1 (q.same s) }

pub Quiet-raise_if : (b : Bool) (c : Code) → Quiet (raise_if b c)
unfolding raise_if
Quiet-raise_if b c = Quiet-if b (raise c) (pure tt) (Quiet-raise c) (Quiet-pure tt)

pub Quiet-raise_unless : (b : Bool) (c : Code) → Quiet (raise_unless b c)
unfolding raise_unless
Quiet-raise_unless b c = Quiet-if b (pure tt) (raise c) (Quiet-pure tt) (Quiet-raise c)

pub Quiet-constraint : (b : Bool) → Quiet (constraint b)
unfolding constraint
Quiet-constraint b = Quiet-if b (pure tt) crash (Quiet-pure tt) Quiet-crash

pub Quiet-modify :
    (f : Coordinator → Coordinator) → ((s : Coordinator) → Same s (f s)) → Quiet (modify f)
unfolding modify
Quiet-modify f h = record { same = h }

pub Quiet-modify_db :
    (f : Db → Db) → ((db : Db) → (f db).consumed ≡ db.consumed) → Quiet (modify_db f)
unfolding modify_db
Quiet-modify_db f h = record { same = λ s. (refl, h s.db) }

module _ {ℓ κ} {A : Type ℓ} {B : Type κ} where
  pub continue-Same :
      (s : Coordinator) (r : Result A) (f : A → Exec B) (t : Coordinator)
      → Same s t
      → ((a : A) → Quiet (f a))
      → Same s (continue r f t).1
  continue-Same s (ok a) f t h q =
      let (calls, consumed) = (q a).same t in (calls ∙ h.0, consumed ∙ h.1)
  continue-Same s (err e) f t h q = h

  pub Quiet-bind :
      (m : Exec A) (f : A → Exec B) → Quiet m → ((a : A) → Quiet (f a)) → Quiet (m >>= f)
  unfolding ◌>>=◌
  Quiet-bind m f q r = record { same = λ s. continue-Same s (m s).0 f (m s).1 (q.same s) r }

pub ruleset quiet = (
  Quiet-pure, Quiet-raise, Quiet-crash, Quiet-lift, Quiet-gets, Quiet-or_raise, Quiet-or_crash,
  Quiet-if, Quiet-tx, Quiet-raise_if, Quiet-raise_unless, Quiet-constraint, Quiet-modify_db,
  Quiet-bind,
)
