-- ===== src/Coordinator/Steps.antt =====
-- Sequences of calls of a coordinator other than `commit`.
use vekquorum.Prelude.{ℕ, refl, ◌∙◌, Option, List, [], ◌∷◌}
use vekquorum.Wire.{Action, Enrichment, EscalationReason, Policy, SignedVote}
use vekquorum.Coordinator.Tables.{Config, Coordinator, DispatchRequest, Host, Meta, Outcome}
use vekquorum.Coordinator.Configure
use vekquorum.Coordinator.Propose
use vekquorum.Coordinator.Submit
use vekquorum.Coordinator.Requests
use vekquorum.Coordinator.Dispatching
use vekquorum.Coordinator.Deliver
use vekquorum.Coordinator.Reconcile
use vekquorum.Coordinator.Quiet.{Same}
use vekquorum.Coordinator.Quiet.Requests.{Quiet-get, Quiet-cancel, Quiet-escalate}
use vekquorum.Coordinator.Quiet.Methods.{Quiet-configure, Quiet-propose, Quiet-submit}
use vekquorum.Coordinator.Quiet.Threads.{
  Quiet-deliver, Quiet-reconcile, Quiet-export_proof, Quiet-watch_dispatch,
  Quiet-recover_interrupted,
}

-- A call, with what the objects outside answer in it; `watched` is a watching thread that comes
-- to its end, and `restart` the recovery.
pub data Call : Type 0 where
  configured : (expected_epoch : ℕ) → Policy → (denied revoked : List ℕ) → Meta → Call
  proposed : Action → Policy → Option Enrichment → Meta → Call
  submitted : (proposal_id expected_revision : ℕ) → SignedVote → Meta → Call
  read : (proposal_id : ℕ) → Meta → Call
  canceled : (proposal_id expected_revision : ℕ) → Meta → Call
  escalated : (proposal_id expected_revision : ℕ) → EscalationReason → Meta → Call
  delivered : Host → (escalation_id : ℕ) → Meta → Call
  reconciled : Host → (proposal_id : ℕ) → Meta → Call
  exported : (proposal_id : ℕ) → Meta → Call
  watched : (proposal_id : ℕ) → DispatchRequest → (actor : ℕ) → Outcome → Call
  restart : Call

-- the state after a call, whether it returns or raises
abbrev pub after : Config → Call → Coordinator → Coordinator
after c (configured n p denied revoked meta) s = (Configure.configure c n p denied revoked meta s).1
after c (proposed a p e meta) s = (Propose.propose c a p e meta s).1
after c (submitted id n v meta) s = (Submit.submit c id n v meta s).1
after c (read id meta) s = (Requests.get c id meta s).1
after c (canceled id n meta) s = (Requests.cancel c id n meta s).1
after c (escalated id n r meta) s = (Requests.escalate c id n r meta s).1
after c (delivered h id meta) s = (Deliver.deliver c h id meta s).1
after c (reconciled h id meta) s = (Reconcile.reconcile c h id meta s).1
after c (exported id meta) s = (Reconcile.export_proof c id meta s).1
after c (watched id r actor o) s = (Dispatching.watch_dispatch c id r actor o s).1
after c restart s = (Dispatching.recover_interrupted c s).1

abbrev pub run : Config → List Call → Coordinator → Coordinator
run c [] s = s
run c (x ∷ xs) s = run c xs (after c x s)

pub after-Same : (c : Config) (x : Call) (s : Coordinator) → Same s (after c x s)
after-Same c (configured n p denied revoked meta) s =
    (Quiet-configure c n p denied revoked meta).same s
after-Same c (proposed a p e meta) s = (Quiet-propose c a p e meta).same s
after-Same c (submitted id n v meta) s = (Quiet-submit c id n v meta).same s
after-Same c (read id meta) s = (Quiet-get c id meta).same s
after-Same c (canceled id n meta) s = (Quiet-cancel c id n meta).same s
after-Same c (escalated id n r meta) s = (Quiet-escalate c id n r meta).same s
after-Same c (delivered h id meta) s = (Quiet-deliver c h id meta).same s
after-Same c (reconciled h id meta) s = (Quiet-reconcile c h id meta).same s
after-Same c (exported id meta) s = (Quiet-export_proof c id meta).same s
after-Same c (watched id r actor o) s = (Quiet-watch_dispatch c id r actor o).same s
after-Same c restart s = (Quiet-recover_interrupted c).same s

-- No sequence of calls without a `commit`, whether they return or raise, hands a request to an
-- executor or changes which operations are consumed.
pub run-Same : (c : Config) (xs : List Call) (s : Coordinator) → Same s (run c xs s)
run-Same c [] s = (refl, refl)
run-Same c (x ∷ xs) s =
    let first = after-Same c x s in
    let rest = run-Same c xs (after c x s) in (rest.0 ∙ first.0, rest.1 ∙ first.1)
