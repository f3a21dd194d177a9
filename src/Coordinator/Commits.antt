-- ===== src/Coordinator/Commits.antt =====
-- Every sequence of calls of the coordinator, `commit` among them, hands an operation to an
-- executor at most once.
use vekquorum.Prelude.{
  ℕ, ◌≡◌, Bool, true, false, Option, none, some, List, [], ◌∷◌, All, Result, ok, err, ap,
}
use vekquorum.Wire.{Action, state_drift}
use vekquorum.Coordinator.Tables.{
  Config, Coordinator, DispatchRequest, Gate, Host, Inspection, Meta, Proposal, Response, allow,
  deny, not_ready, inspected,
}
use vekquorum.Coordinator.Exec.{continue, ◌>>=◌}
use vekquorum.Coordinator.Commit
use vekquorum.Coordinator.Commit.{Decided, settled, consumed, Prepared, early, go}
use vekquorum.Coordinator.Quiet.{Quiet, quiet}
use vekquorum.Coordinator.Quiet.Helpers.{rows_quiet}
use vekquorum.Coordinator.Quiet.Requests.{Quiet-quorum_satisfied}
use vekquorum.Coordinator.Consuming.{Outcome, compare_and_consume-Outcome}
use vekquorum.Coordinator.Once.{
  IsOnce, Same-IsOnce, Safe, Quiet-Safe, Safe-bind, Safe-if, Hands, Hands-bind, dispatch-Hands,
  Spends-IsReserved,
}
use vekquorum.Coordinator.Steps.{Call, after, after-Same}

-- the hook `mutate_dispatch` is not set
abbrev pub IsHookless : Host → Type 0
IsHookless h = (a : Action) → h.mutate_dispatch a ≡ a

module _ (c : Config) (h : Host) (hookless : IsHookless h) (id n hash w : ℕ) (meta : Meta) where
  finish_commit-Hands :
      (r : DispatchRequest) → Hands c r (Commit.finish_commit c h id n hash w meta (consumed r))
  unfolding Commit.finish_commit
  finish_commit-Hands r =
      Hands-bind c r _ _
        (dispatch-Hands c h id r w meta.caller.principal_id
          (ap (λ (a : Action). a.operation_id) (hookless r.action)))
        (λ v. search (quiet, rows_quiet) depth 10)

  decided-IsOnce :
      (s : Coordinator) (x : Result Decided) (t : Coordinator)
      → Outcome c s x t
      → IsOnce c s
      → IsOnce c (continue x (Commit.finish_commit c h id n hash w meta) t).1
  unfolding Commit.finish_commit
  decided-IsOnce s (ok (consumed r)) t p o =
      (finish_commit-Hands r).hands t (Spends-IsReserved c r s t p o)
  decided-IsOnce s (ok (settled v)) t p o =
      (Quiet-Safe c (Commit.finish_commit c h id n hash w meta (settled v))
          (search (quiet) depth 5)).safe
        t (Same-IsOnce c s t p o)
  decided-IsOnce s (err e) t p o = Same-IsOnce c s t p o

  consume-Safe :
      (a : Action) (g actor : ℕ)
      → Safe c
          (Commit.compare_and_consume c id a g actor >>= Commit.finish_commit c h id n hash w meta)
  unfolding ◌>>=◌
  consume-Safe a g actor = record {
    safe = λ s o.
        let (x, t) = Commit.compare_and_consume c id a g actor s in
        decided-IsOnce s x t (compare_and_consume-Outcome c id a g actor s) o;
  }

  after_inspection-Safe :
      (a : Action) (g : ℕ) (i : Inspection)
      → Safe c (Commit.after_inspection c h id n hash w meta a g i)
  unfolding Commit.after_inspection Commit.give_up
  after_inspection-Safe a g not_ready = Quiet-Safe c _ (search (quiet) depth 5)
  after_inspection-Safe a g (inspected ps) =
      Safe-if c _ _ (Commit.give_up c id state_drift) (consume-Safe a g meta.caller.principal_id)
        (Quiet-Safe c _ (search (quiet, rows_quiet) depth 10))

  after_gate-Safe : (a : Action) (g : Gate) → Safe c (Commit.after_gate c h id n hash w meta a g)
  unfolding Commit.after_gate Commit.give_up
  after_gate-Safe a Gate.gate_unavailable = Quiet-Safe c _ (search (quiet) depth 5)
  after_gate-Safe a (deny g) = Quiet-Safe c _ (search (quiet, rows_quiet) depth 10)
  after_gate-Safe a (allow g) = Safe-bind c _ _ (Quiet-Safe c _ (search (quiet) depth 5)) (λ u.
      Safe-bind c _ _ (Quiet-Safe c _ (search (quiet) depth 5)) (λ i. after_inspection-Safe a g i))

  after_prepare-Safe : (p : Prepared) → Safe c (Commit.after_prepare c h id n hash w meta p)
  unfolding Commit.after_prepare
  after_prepare-Safe (early v) = Quiet-Safe c _ (search (quiet) depth 5)
  after_prepare-Safe (go a) =
      Safe-bind c _ _ (Quiet-Safe c _ (search (quiet) depth 5)) (λ g. after_gate-Safe a g)

  Quiet-check_request :
      (q : Proposal) (r : Option Response) → Quiet (Commit.check_request c q n hash r)
  unfolding Commit.check_request Commit.check_ready
  Quiet-check_request q none = search (quiet, rows_quiet, Quiet-quorum_satisfied) depth 30
  Quiet-check_request q (some r) = search (quiet) depth 5

  Quiet-prepare_unless : (q : Proposal) (b : Bool) → Quiet (Commit.prepare_unless c q n hash meta b)
  Quiet-prepare_unless q true = search (quiet) depth 5
  Quiet-prepare_unless q false = search (quiet, rows_quiet, Quiet-check_request) depth 10

  Quiet-prepare : Quiet (Commit.prepare c id n hash meta)
  unfolding Commit.prepare
  Quiet-prepare = search (quiet, rows_quiet, Quiet-prepare_unless) depth 20

  commit-Safe : Safe c (Commit.commit c h id n hash w meta)
  unfolding Commit.commit
  commit-Safe = Safe-bind c _ _ (Quiet-Safe c _ (search (rows_quiet) depth 5)) (λ u.
      Safe-bind c _ _ (Quiet-Safe c _ (search (quiet) depth 5))
        (λ v. Safe-bind c _ _ (Quiet-Safe c _ Quiet-prepare) (λ p. after_prepare-Safe p)))

-- A call of any method.
pub data Step : Type 0 where
  call : Call → Step
  committed : Host → (proposal_id expected_revision action_hash wait_ms : ℕ) → Meta → Step

-- The hook `mutate_dispatch` is not set in the call.
abbrev pub IsUnhooked : Step → Type 0
IsUnhooked (call x) = Unit
IsUnhooked (committed h id n hash w meta) = IsHookless h

-- the state after a call, whether it returns or raises
abbrev pub after_step : Config → Step → Coordinator → Coordinator
after_step c (call x) s = after c x s
after_step c (committed h id n hash w meta) s = (Commit.commit c h id n hash w meta s).1

abbrev pub run_steps : Config → List Step → Coordinator → Coordinator
run_steps c [] s = s
run_steps c (x ∷ xs) s = run_steps c xs (after_step c x s)

after_step-IsOnce :
    (c : Config) (x : Step) (s : Coordinator)
    → IsUnhooked x
    → IsOnce c s
    → IsOnce c (after_step c x s)
after_step-IsOnce c (call x) s u o = Same-IsOnce c s (after c x s) (after-Same c x s) o
after_step-IsOnce c (committed h id n hash w meta) s u o =
    (commit-Safe c h u id n hash w meta).safe s o

-- In every state that a sequence of calls of any methods reaches, whether they return or raise, no
-- two requests that were handed to an executor have one operation, and each of their operations is
-- recorded as consumed, if that holds at the start and no call has the hook `mutate_dispatch`.
pub run_steps-IsOnce :
    (c : Config) (xs : List Step) (s : Coordinator)
    → All IsUnhooked xs
    → IsOnce c s
    → IsOnce c (run_steps c xs s)
run_steps-IsOnce c [] s u o = o
run_steps-IsOnce c (x ∷ xs) s u o =
    run_steps-IsOnce c xs (after_step c x s) u.1 (after_step-IsOnce c x s u.0 o)
