-- ===== src/Stateful/Moves.antt =====
-- Methods that move the state along a preorder, whether they return or raise: one rule for each
-- way to build a method.
use vekquorum.Prelude.{
  ◌≡◌, refl, Bool, true, false, Option, none, some, Result, ok, err, if◌then◌else◌,
}
use vekquorum.Errors.{Code}
use vekquorum.Stateful.{
  Method, pure, raise, lift, gets, or_raise, modify, raise_if, continue, settle, tx, ◌>>=◌,
}

pub record IsPreorder {S : Type 0} (R : S → S → Type 0) : Type 0 where
  pub stay : (s : S) → R s s
  pub join : (s t u : S) → R s t → R t u → R s u

pub record Moves {ℓ} {S : Type 0} {A : Type ℓ} (R : S → S → Type 0) (m : Method S A) : Type 0 where
  pub moved : (s : S) → R s (m s).1

module _ {S : Type 0} (R : S → S → Type 0) (o : IsPreorder R) where
  module _ {ℓ} {A : Type ℓ} where
    pub Moves-pure : (a : A) → Moves R (pure a)
    unfolding pure
    Moves-pure a = record { moved = o.stay }

    pub Moves-raise : (c : Code) → Moves R (raise {A = A} c)
    unfolding raise
    Moves-raise c = record { moved = o.stay }

    pub Moves-lift : (r : Result A) → Moves R (lift r)
    unfolding lift
    Moves-lift r = record { moved = o.stay }

    pub Moves-gets : (f : S → A) → Moves R (gets f)
    unfolding gets
    Moves-gets f = record { moved = o.stay }

    pub Moves-or_raise : (a : Option A) (c : Code) → Moves R (or_raise a c)
    unfolding or_raise
    Moves-or_raise none c = Moves-raise c
    Moves-or_raise (some a) c = Moves-pure a

    pub Moves-if :
        (b : Bool) (m n : Method S A) → Moves R m → Moves R n → Moves R (if b then m else n)
    Moves-if true m n q r = q
    Moves-if false m n q r = r

    settle-moved : (s : S) (r : Result A) (t : S) → R s t → R s (settle s r t).1
    settle-moved s (ok a) t h = h
    settle-moved s (err e) t h = o.stay s

    pub Moves-tx : (m : Method S A) → Moves R m → Moves R (tx m)
    unfolding tx
    Moves-tx m q = record { moved = λ s. settle-moved s (m s).0 (m s).1 (q.moved s) }

  pub Moves-raise_if : (b : Bool) (c : Code) → Moves R (raise_if b c)
  unfolding raise_if
  Moves-raise_if b c = Moves-if b (raise c) (pure tt) (Moves-raise c) (Moves-pure tt)

  pub Moves-modify : (f : S → S) → ((s : S) → R s (f s)) → Moves R (modify f)
  unfolding modify
  Moves-modify f h = record { moved = h }

  module _ {ℓ κ} {A : Type ℓ} {B : Type κ} where
    continue-moved :
        (s : S) (r : Result A) (f : A → Method S B) (t : S)
        → R s t
        → ((a : A) → Moves R (f a))
        → R s (continue r f t).1
    continue-moved s (ok a) f t h q = o.join s t (f a t).1 h ((q a).moved t)
    continue-moved s (err e) f t h q = h

    pub Moves-bind :
        (m : Method S A) (f : A → Method S B)
        → Moves R m
        → ((a : A) → Moves R (f a))
        → Moves R (m >>= f)
    unfolding ◌>>=◌
    Moves-bind m f q r = record { moved = λ s. continue-moved s (m s).0 f (m s).1 (q.moved s) r }

    -- where the rest uses that the first line has returned
    pub Moves-lift-bind :
        (r : Result A) (f : A → Method S B)
        → ((a : A) → r ≡ ok a → Moves R (f a))
        → Moves R (lift r >>= f)
    unfolding ◌>>=◌
    Moves-lift-bind (ok a) f q = record { moved = λ s. (q a refl).moved s }
    Moves-lift-bind (err e) f q = record { moved = o.stay }

    -- the same from one state
    pub bind-moved :
        (m : Method S A) (f : A → Method S B) (s : S)
        → R s (m s).1
        → ((a : A) → Moves R (f a))
        → R s ((m >>= f) s).1
    unfolding ◌>>=◌
    bind-moved m f s = continue-moved s (m s).0 f (m s).1

-- The preorder is a premise of each rule.
pub ruleset moves = (
  Moves-pure, Moves-raise, Moves-lift, Moves-gets, Moves-or_raise, Moves-if, Moves-tx,
  Moves-raise_if, Moves-bind, Moves-modify,
)
