-- ===== src/Coordinator/Requests.antt =====
-- coordinator.py: `get`, `cancel` and `escalate`.
use vekquorum.Prelude.{ℕ, Bool, true, false, Option, none, some, ◌==◌, ◌||◌}
use vekquorum.Errors.{forbidden, not_found, revision_conflict, state_conflict, tenant_mismatch}
use vekquorum.Wire.{Capability, EscalationReason, EventData}
use vekquorum.Lifecycle.{State, is_live}
use vekquorum.Coordinator.Tables.{
  Config, Meta, Method, Proposal, Response, View, cancel_request, escalate_request, viewed,
}
use vekquorum.Coordinator.Exec.{Exec, pure, or_raise, raise_unless, tx, ◌>>=◌, ◌>>◌}
use vekquorum.Coordinator.Rows.{
  action_of, authorize, dedupe, has_capability, load_proposal, logical_now, materialize, move_to,
  record_request,
}
use vekquorum.Coordinator.Bundles.{make_escalation}

-- `get`
unfoldable pub get : Config → (proposal_id : ℕ) → Meta → Exec View
get c proposal_id meta = do
  authorize c meta.caller Capability.read
  tx (do
    now ← logical_now c
    found ← load_proposal proposal_id
    q ← or_raise found not_found
    (_, q') ← materialize c q now
    pure q'.view)

-- the guards that `cancel` and `escalate` share
unfoldable pub check_live : Proposal → (expected_revision : ℕ) → Exec (Unit {0})
check_live q expected_revision = do
  raise_unless (expected_revision == q.revision) revision_conflict
  raise_unless (is_live q.state) state_conflict

unfoldable pub cancel_new :
    Config → Proposal → (expected_revision : ℕ) → Meta → (now : ℕ) → Exec View
cancel_new c q expected_revision meta now = do
  check_live q expected_revision
  q' ← move_to c q EventData.canceled State.canceled_state meta.caller.principal_id now
  record_request c Method.cancel (cancel_request q.id expected_revision) meta (viewed q'.view)
  pure q'.view

abbrev pub cancel_or_view : Config → Proposal → ℕ → Meta → ℕ → Option Response → Exec View
cancel_or_view c q expected_revision meta now (some _) = pure q.view
cancel_or_view c q expected_revision meta now none = cancel_new c q expected_revision meta now

abbrev pub cancel_unless : Config → Proposal → ℕ → Meta → ℕ → Bool → Exec View
cancel_unless c q expected_revision meta now true = pure q.view
cancel_unless c q expected_revision meta now false = do
  stored ← dedupe c Method.cancel (cancel_request q.id expected_revision) meta
  cancel_or_view c q expected_revision meta now stored

-- `cancel`
unfoldable pub cancel : Config → (proposal_id expected_revision : ℕ) → Meta → Exec View
cancel c proposal_id expected_revision meta = tx (do
  found ← load_proposal proposal_id
  q ← or_raise found not_found
  action ← action_of q
  raise_unless (meta.caller.tenant == c.tenant) tenant_mismatch
  raise_unless
      (meta.caller.principal_id == action.proposer_id
        || has_capability Capability.admin meta.caller)
      forbidden
  now ← logical_now c
  (changed, q') ← materialize c q now
  cancel_unless c q' expected_revision meta now changed)

unfoldable pub escalate_new :
    Config → Proposal → (expected_revision : ℕ) → EscalationReason → Meta → (now : ℕ) → Exec View
escalate_new c q expected_revision reason meta now = do
  check_live q expected_revision
  q' ← make_escalation c q reason meta.caller.principal_id now
  record_request c Method.escalate (escalate_request q.id expected_revision reason) meta
      (viewed q'.view)
  pure q'.view

abbrev pub escalate_or_view :
    Config → Proposal → ℕ → EscalationReason → Meta → ℕ → Option Response → Exec View
escalate_or_view c q expected_revision reason meta now (some _) = pure q.view
escalate_or_view c q expected_revision reason meta now none =
    escalate_new c q expected_revision reason meta now

abbrev pub escalate_unless : Config → Proposal → ℕ → EscalationReason → Meta → ℕ → Bool → Exec View
escalate_unless c q expected_revision reason meta now true = pure q.view
escalate_unless c q expected_revision reason meta now false = do
  stored ← dedupe c Method.escalate (escalate_request q.id expected_revision reason) meta
  escalate_or_view c q expected_revision reason meta now stored

-- `escalate`
unfoldable pub escalate :
    Config → (proposal_id expected_revision : ℕ) → EscalationReason → Meta → Exec View
escalate c proposal_id expected_revision reason meta = do
  authorize c meta.caller Capability.escalate
  tx (do
    now ← logical_now c
    found ← load_proposal proposal_id
    q ← or_raise found not_found
    (changed, q') ← materialize c q now
    escalate_unless c q' expected_revision reason meta now changed)
