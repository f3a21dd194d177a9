-- ===== src/Coordinator/Consuming.antt =====
-- Phase 3 of `commit` (coordinator.py): an operation is consumed before it is handed out, and only
-- where it was not consumed before.
use vekquorum.Prelude.{
  ℕ, ◌≡◌, refl, ◌∙◌, Bool, true, false, [], ◌∷◌, ◌++◌, ◌⊎◌, inl, inr, any, Result, ok, err, Raised,
  if◌then◌else◌, arith,
}
use vekquorum.Wire.{Action, Authority}
use vekquorum.Coordinator.Tables.{Config, Consumed, Coordinator, DispatchRequest, Proposal, View}
use vekquorum.Coordinator.Exec.{Exec, pure, continue, settle, tx, ◌>>=◌}
use vekquorum.Coordinator.Commit
use vekquorum.Coordinator.Commit.{Decided, settled, consumed, is_spent, insert_consumed}
use vekquorum.Coordinator.Quiet.{Same, Quiet, Quiet-bind, Quiet-pure, quiet}
use vekquorum.Coordinator.Quiet.Helpers.{rows_quiet, Quiet-draw, Quiet-append_event}

abbrev pub operation : DispatchRequest → ℕ
operation r = r.action.operation_id

-- whether the operation of a request is consumed
abbrev pub is_taken : Config → DispatchRequest → Coordinator → Bool
is_taken c r s = any (is_spent c.executor_id (operation r)) s.db.consumed

-- The step consumes the operation of the request, which was not consumed before.
pub record Spends (c : Config) (s : Coordinator) (r : DispatchRequest) (s' : Coordinator)
    : Type 0 where
  pub same_calls : s'.calls ≡ s.calls
  pub fresh : is_taken c r s ≡ false
  pub row : Consumed
  pub inserted : s'.db.consumed ≡ s.db.consumed ++ row ∷ []
  pub spent : is_spent c.executor_id (operation r) row ≡ true

-- What a method has done that decides about an operation.
abbrev pub Post : Config → Coordinator → Result Decided → Coordinator → Type 0
Post c s (ok (consumed r)) s' = Spends c s r s'
Post c s (ok (settled v)) s' = Same s s'
Post c s (err e) s' = s'.calls ≡ s.calls

pub record Decides (c : Config) (m : Exec Decided) : Type 0 where
  pub post : (s : Coordinator) → Post c s (m s).0 (m s).1

Post-after :
    (c : Config) (s t : Coordinator) (r : Result Decided) (u : Coordinator)
    → Same s t
    → Post c t r u
    → Post c s r u
Post-after c s t (ok (consumed r)) u h p = record {
  same_calls = p.same_calls ∙ h.0;
  fresh = rw (← h.1) p.fresh;
  row = p.row;
  inserted = rw (← h.1) p.inserted;
  spent = p.spent;
}
Post-after c s t (ok (settled v)) u h p = (p.0 ∙ h.0, p.1 ∙ h.1)
Post-after c s t (err e) u h p = p ∙ h.0

module _ (c : Config) {A : Type 0} where
  continue-Post :
      (s : Coordinator) (r : Result A) (f : A → Exec Decided) (t : Coordinator)
      → Same s t
      → ((a : A) → Decides c (f a))
      → let (r', u) = continue r f t in Post c s r' u
  continue-Post s (ok a) f t h q = Post-after c s t (f a t).0 (f a t).1 h ((q a).post t)
  continue-Post s (err e) f t h q = h.0

  Decides-bind :
      (m : Exec A) (f : A → Exec Decided)
      → Quiet m
      → ((a : A) → Decides c (f a))
      → Decides c (m >>= f)
  unfolding ◌>>=◌
  Decides-bind m f q d = record { post = λ s. continue-Post s (m s).0 f (m s).1 (q.same s) d }

Decides-settled : (c : Config) (v : View) → Decides c (pure (settled v))
unfolding pure
Decides-settled c v = record { post = λ s. (refl, refl) }

Decides-if :
    (c : Config) (b : Bool) (m n : Exec Decided)
    → Decides c m
    → Decides c n
    → Decides c (if b then m else n)
Decides-if c true m n p q = p
Decides-if c false m n p q = q

-- The method is quiet, and it returns nothing but this request.
abbrev IsRequest : DispatchRequest → Result Decided → Type 0
IsRequest r x = (x ≡ ok (consumed r)) ⊎ ((e : Raised) × (x ≡ err e))

record Ends (r : DispatchRequest) (m : Exec Decided) : Type 0 where
  is_quiet : Quiet m
  returns : (s : Coordinator) → IsRequest r (m s).0

Ends-pure : (r : DispatchRequest) → Ends r (pure (consumed r))
unfolding pure
Ends-pure r = record { is_quiet = Quiet-pure (consumed r); returns = λ s. inl refl }

module _ (r : DispatchRequest) {A : Type 0} where
  continue-IsRequest :
      (x : Result A) (f : A → Exec Decided) (t : Coordinator)
      → ((a : A) → Ends r (f a))
      → IsRequest r (continue x f t).0
  continue-IsRequest (ok a) f t q = (q a).returns t
  continue-IsRequest (err e) f t q = inr (e, refl)

  Ends-bind :
      (m : Exec A) (f : A → Exec Decided) → Quiet m → ((a : A) → Ends r (f a)) → Ends r (m >>= f)
  unfolding ◌>>=◌
  Ends-bind m f q e = record {
    is_quiet = Quiet-bind m f q (λ a. (e a).is_quiet);
    returns = λ s. continue-IsRequest (m s).0 f (m s).1 e;
  }

-- a row that is new is inserted, and the rest returns its request
ends_Post :
    (c : Config) (r : DispatchRequest) (row : Consumed) (s t : Coordinator) (x : Result Decided)
    (u : Coordinator)
    → is_taken c r s ≡ false
    → is_spent c.executor_id (operation r) row ≡ true
    → t.calls ≡ s.calls
    → t.db.consumed ≡ s.db.consumed ++ row ∷ []
    → Same t u
    → IsRequest r x
    → Post c s x u
ends_Post c r row s t (ok (consumed q)) u fresh spent calls inserted same (inl e) =
    let is_r : q ≡ r = cc in
    rw is_r (record {
      same_calls = same.0 ∙ calls;
      fresh = fresh;
      row = row;
      inserted = same.1 ∙ inserted;
      spent = spent;
    })
ends_Post c r row s t (ok (consumed q)) u fresh spent calls inserted same (inr (e, h)) = cc
ends_Post c r row s t (ok (settled v)) u fresh spent calls inserted same (inl e) = cc
ends_Post c r row s t (ok (settled v)) u fresh spent calls inserted same (inr (e, h)) = cc
ends_Post c r row s t (err e) u fresh spent calls inserted same p = same.0 ∙ calls

insert-Decides :
    (c : Config) (r : DispatchRequest) (row : Consumed) (f : Unit {0} → Exec Decided)
    → row.executor ≡ c.executor_id
    → row.operation_id ≡ operation r
    → ((u : Unit {0}) → Ends r (f u))
    → Decides c (insert_consumed row >>= f)
unfolding insert_consumed ◌>>=◌
insert-Decides c r row f executor op ends = record { post = λ s. go s _ refl }
  where
    go :
        (s : Coordinator) (b : Bool)
        → any (is_spent row.executor row.operation_id) s.db.consumed ≡ b
        → Post c s ((insert_consumed row >>= f) s).0 ((insert_consumed row >>= f) s).1
    go s true h = rw h refl
    go s false h =
        let t : Coordinator = record s {
          db = record s.db { consumed = s.db.consumed ++ row ∷ [] };
        } in
        rw h (
          ends_Post c r row s t (f tt t).0 (f tt t).1 (rw (← executor, ← op) h) (ground arith) refl
            refl ((ends tt).is_quiet.same t) ((ends tt).returns t))

-- a tail of `consume` after the row is inserted
ruleset ending = (Ends-pure, Ends-bind)

module _ (c : Config) where
  start_dispatch-Ends :
      (q : Proposal) (held : Authority) (r : DispatchRequest)
      → Ends r (Commit.start_dispatch q held r)
  unfolding Commit.start_dispatch Commit.insert_dispatch Commit.set_commit_authority
  start_dispatch-Ends q held r = search (quiet, rows_quiet, ending) depth 20

  consume-Decides :
      (q : Proposal) (a : Action) (held : Authority) (g actor now : ℕ)
      → Decides c (Commit.consume c q a held g actor now)
  unfolding Commit.consume Commit.dispatch_request
  consume-Decides q a held g actor now = Decides-bind c _ _ (Quiet-draw c _) (λ id.
      Decides-bind c _ _ (Quiet-append_event c q _ actor now) (λ q'.
        insert-Decides c (Commit.dispatch_request c a id _ g) _
          (λ _. Commit.start_dispatch q' held _) refl refl (λ u. start_dispatch-Ends q' held _)))

  consume_or_settle-Decides :
      (q : Proposal) (a : Action) (held : Authority) (g actor now : ℕ) (b : Bool)
      → Decides c (Commit.consume_or_settle c q a held g actor now b)
  consume_or_settle-Decides q a held g actor now true =
      search (rows_quiet, Decides-bind, Decides-settled) depth 10
  consume_or_settle-Decides q a held g actor now false =
      Decides-if c _ _ _ (consume-Decides q a held g actor now) (Decides-settled c q.view)

  -- What phase 3 has done, whose transaction puts the database back where it raises.
  abbrev pub Outcome : Coordinator → Result Decided → Coordinator → Type 0
  Outcome s (ok (consumed r)) s' = Spends c s r s'
  Outcome s (ok (settled v)) s' = Same s s'
  Outcome s (err e) s' = Same s s'

  settle-Outcome :
      (s : Coordinator) (x : Result Decided) (t : Coordinator)
      → Post c s x t
      → let (y, u) = settle s.db x t in Outcome s y u
  settle-Outcome s (ok (consumed r)) t p = p
  settle-Outcome s (ok (settled v)) t p = p
  settle-Outcome s (err e) t p = (p, refl)

  decide-Decides : (id : ℕ) (a : Action) (g actor : ℕ) → Decides c (Commit.decide c id a g actor)
  unfolding Commit.decide
  decide-Decides id a g actor =
      search (quiet, rows_quiet, Decides-bind, consume_or_settle-Decides) depth 20

  pub compare_and_consume-Outcome :
      (id : ℕ) (a : Action) (g actor : ℕ) (s : Coordinator)
      → let (x, t) = Commit.compare_and_consume c id a g actor s in Outcome s x t
  unfolding Commit.compare_and_consume tx
  compare_and_consume-Outcome id a g actor s =
      settle-Outcome s (Commit.decide c id a g actor s).0 (Commit.decide c id a g actor s).1
        ((decide-Decides id a g actor).post s)
