-- ===== src/Coordinator/Once.antt =====
-- An operation is handed to an executor at most once.
use vekquorum.Prelude.{
  ℕ, ◌≡◌, refl, Bool, true, false, List, [], ◌∷◌, ◌++◌, inl, inr, any, map, contains, All, Result,
  ok, err, if◌then◌else◌, arith, Bool-cases, ◌==◌, eq_of_==,
}
use vekquorum.Coordinator.Tables.{Config, Consumed, Coordinator, DispatchRequest, Host}
use vekquorum.Coordinator.Exec.{Exec, modify, continue, ◌>>=◌}
use vekquorum.Coordinator.Commit.{is_spent}
use vekquorum.Coordinator.Dispatching
use vekquorum.Coordinator.Quiet.{Same, Quiet}
use vekquorum.Coordinator.Quiet.Threads.{Quiet-observe, Quiet-finish_dispatch, Quiet-current_view}
use vekquorum.Coordinator.Consuming.{operation, is_taken, Spends}

-- No two of these requests have one operation.
abbrev pub AllApart : List DispatchRequest → Type 0
AllApart [] = Unit
AllApart (r ∷ rs) = (contains (operation r) (map operation rs) ≡ false) × AllApart rs

-- The operation of every request handed out is consumed, and no two have one operation.
pub record IsOnce (c : Config) (s : Coordinator) : Type 0 where
  pub apart : AllApart s.calls
  pub taken : All (λ r. is_taken c r s ≡ true) s.calls

pub Same-IsOnce : (c : Config) (s t : Coordinator) → Same s t → IsOnce c s → IsOnce c t
Same-IsOnce c s t h o = record { apart = rw h.0 o.apart; taken = rw (h.0, h.1) o.taken }

any-append :
    {A : Type 0} (p : A → Bool) (xs : List A) (y : A)
    → any p xs ≡ true
    → any p (xs ++ y ∷ []) ≡ true
any-append p [] y h = cc
any-append p (x ∷ xs) y h = ground (arith, any-append p xs y)

any-last :
    {A : Type 0} (p : A → Bool) (xs : List A) (y : A) → p y ≡ true → any p (xs ++ y ∷ []) ≡ true
any-last p [] y h = ground arith
any-last p (x ∷ xs) y h = ground (arith, any-last p xs y)

-- The requests handed out still have their operations consumed, and none is that of `r`.
pub record IsReserved (c : Config) (r : DispatchRequest) (s : Coordinator) : Type 0 where
  pub once : IsOnce c s
  pub unused : contains (operation r) (map operation s.calls) ≡ false
  pub reserved : is_taken c r s ≡ true

module _ (c : Config) (r : DispatchRequest) where
  unused_of :
      (s : Coordinator) (xs : List DispatchRequest)
      → All (λ x. is_taken c x s ≡ true) xs
      → is_taken c r s ≡ false
      → contains (operation r) (map operation xs) ≡ false
  unused_of s [] h f = refl
  unused_of s (x ∷ xs) h f = elim (Bool-cases (operation x == operation r)) [
    | inl e ↦
        let same : operation x ≡ operation r = eq_of_== (operation x) (operation r) e in
        let taken : is_taken c r s ≡ true = rw (← same) h.0 in cc
    | inr e ↦ ground (arith, unused_of s xs h.1 f)
  ]

  grown_taken :
      (s t : Coordinator) (row : Consumed) (xs : List DispatchRequest)
      → t.db.consumed ≡ s.db.consumed ++ row ∷ []
      → All (λ x. is_taken c x s ≡ true) xs
      → All (λ x. is_taken c x t ≡ true) xs
  grown_taken s t row [] e h = tt
  grown_taken s t row (x ∷ xs) e h = (
    rw e (any-append (is_spent c.executor_id (operation x)) s.db.consumed row h.0),
    grown_taken s t row xs e h.1,
  )

  pub Spends-IsReserved : (s t : Coordinator) → Spends c s r t → IsOnce c s → IsReserved c r t
  Spends-IsReserved s t p o = record {
    once = record {
      apart = rw p.same_calls o.apart;
      taken = rw p.same_calls (grown_taken s t p.row s.calls p.inserted o.taken);
    };
    unused = rw p.same_calls (unused_of s s.calls o.taken p.fresh);
    reserved =
        rw p.inserted (any-last (is_spent c.executor_id (operation r)) s.db.consumed p.row p.spent);
  }

  handed-IsOnce :
      (q : DispatchRequest) (s : Coordinator)
      → operation q ≡ operation r
      → IsReserved c r s
      → IsOnce c (record s { calls = q ∷ s.calls })
  handed-IsOnce q s e o = record {
    apart = (rw e o.unused, o.once.apart);
    taken = (rw e o.reserved, o.once.taken);
  }

-- The method hands out at most the request whose operation is reserved.
pub record Hands {A : Type 0} (c : Config) (r : DispatchRequest) (m : Exec A) : Type 0 where
  pub hands : (s : Coordinator) → IsReserved c r s → IsOnce c (m s).1

-- The method keeps the invariant.
pub record Safe {A : Type 0} (c : Config) (m : Exec A) : Type 0 where
  pub safe : (s : Coordinator) → IsOnce c s → IsOnce c (m s).1

module _ (c : Config) {A : Type 0} where
  pub Quiet-Safe : (m : Exec A) → Quiet m → Safe c m
  Quiet-Safe m q = record { safe = λ s o. Same-IsOnce c s (m s).1 (q.same s) o }

  Quiet-Hands : (r : DispatchRequest) (m : Exec A) → Quiet m → Hands c r m
  Quiet-Hands r m q = record { hands = λ s o. Same-IsOnce c s (m s).1 (q.same s) o.once }

  Hands-if :
      (r : DispatchRequest) (b : Bool) (m n : Exec A)
      → Hands c r m
      → Hands c r n
      → Hands c r (if b then m else n)
  Hands-if r true m n p q = p
  Hands-if r false m n p q = q

pub Safe-if :
    (c : Config) {A : Type 0} (b : Bool) (m n : Exec A)
    → Safe c m
    → Safe c n
    → Safe c (if b then m else n)
Safe-if c true m n p q = p
Safe-if c false m n p q = q

module _ (c : Config) {A B : Type 0} where
  continue-IsOnce :
      (x : Result A) (f : A → Exec B) (t : Coordinator)
      → IsOnce c t
      → ((a : A) → Safe c (f a))
      → IsOnce c (continue x f t).1
  continue-IsOnce (ok a) f t o q = (q a).safe t o
  continue-IsOnce (err e) f t o q = o

  pub Safe-bind :
      (m : Exec A) (f : A → Exec B) → Safe c m → ((a : A) → Safe c (f a)) → Safe c (m >>= f)
  unfolding ◌>>=◌
  Safe-bind m f p q = record { safe = λ s o. continue-IsOnce (m s).0 f (m s).1 (p.safe s o) q }

  pub Hands-bind :
      (r : DispatchRequest) (m : Exec A) (f : A → Exec B)
      → Hands c r m
      → ((a : A) → Quiet (f a))
      → Hands c r (m >>= f)
  unfolding ◌>>=◌
  Hands-bind r m f p q = record {
    hands = λ s o. continue-IsOnce (m s).0 f (m s).1 (p.hands s o) (λ a. Quiet-Safe c (f a) (q a));
  }

module _ (c : Config) where
  call_executor-Hands :
      (h : Host) (id : ℕ) (q r : DispatchRequest) (w actor : ℕ)
      → operation q ≡ operation r
      → Hands c r (Dispatching.call_executor c h id q w actor)
  unfolding Dispatching.call_executor modify
  call_executor-Hands h id q r w actor e =
      Hands-bind c r (modify (λ s. record s { calls = q ∷ s.calls })) _ pushed
        (λ _. Quiet-observe c id q w actor h.dispatched)
    where
      pushed : Hands c r (modify (λ s. record s { calls = q ∷ s.calls }))
      pushed = record { hands = λ s o. handed-IsOnce c r q s e o }

  pub dispatch-Hands :
      (h : Host) (id : ℕ) (r : DispatchRequest) (w actor : ℕ)
      → operation (record r { action = h.mutate_dispatch r.action }) ≡ operation r
      → Hands c r (Dispatching.dispatch c h id r w actor)
  unfolding Dispatching.dispatch Dispatching.call_or_refuse
  dispatch-Hands h id r w actor e =
      Hands-bind c r _ _
        (Hands-if c r _ _ _ (call_executor-Hands h id _ r w actor e)
          (Quiet-Hands c r _ (Quiet-finish_dispatch c id _ _ actor)))
        (λ _. Quiet-current_view c id)
