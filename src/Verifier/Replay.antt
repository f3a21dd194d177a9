-- ===== src/Verifier/Replay.antt =====
-- Step 6 of verifier.py: `_replay`, one function for each event type of the loop's body.
use vekquorum.Prelude.{
  ℕ, ◌+◌, min, Bool, true, false, Option, List, [], ◌∷◌, map, ◌&&◌, ◌==◌, ltb, contains, add,
  set_of, sorted, subset, list_eq, find_last, Result, ok, err, vq, fault, raise_if, raise_unless,
  or_raise, ◌>>=◌, ◌>>◌, if◌then◌else◌,
}
use vekquorum.Errors.{illegal_transition, missing_evidence}
use vekquorum.Wire.{
  Proof, SignedVote, AuditEntry, EventData, proposed, vote_recorded, quorum_reached, commit_started,
  execution_reported, execution_reconciled, escalated, escalation_delivered, escalation_deferred,
  expired, canceled, invalidated, authority_changed, Decision, decision_eq, ExecutionResult,
  EscalationReason,
}
use vekquorum.Wire.Digests.{Digests}
use vekquorum.Lifecycle.{
  State, is_live, is_open, is_ready, is_dispatching, is_unknown, is_escalated, is_reject_pending,
  reported_state,
}
use vekquorum.Verifier.Quorum.{meets, principals_of}

-- The variables of the loop.
pub record Progress : Type 0 where
  pub state : State
  pub recorded_keys : List ℕ
  pub approved_keys : List ℕ
  pub rejected : Bool
  pub committed : Bool
  pub seen_votes : List ℕ

abbrev pub initial : Progress
initial = record {
  state = State.open_state;
  recorded_keys = [];
  approved_keys = [];
  rejected = false;
  committed = false;
  seen_votes = [];
}

-- `votes_by_key.get(k)`
abbrev pub vote_of : List SignedVote → ℕ → Option SignedVote
vote_of votes k = find_last (λ (v : SignedVote). v.body.key_id) k votes

abbrev count_vote : Progress → ℕ → Decision → Progress
count_vote r k Decision.approve = record r { approved_keys = add k r.approved_keys }
count_vote r k Decision.reject = record r { rejected = true; state = State.reject_pending }

unfoldable pub on_vote : Digests → Proof → Progress → ℕ → ℕ → Decision → Result Progress
on_vote d p r vote_hash k decision = do
  v ← or_raise (vote_of p.votes k) missing_evidence
  raise_unless (d.hash_vote v.body == vote_hash) missing_evidence
  raise_unless (decision_eq decision v.body.decision) illegal_transition
  raise_unless (is_live r.state) illegal_transition
  raise_if (contains k r.recorded_keys) illegal_transition
  ok (
      count_vote
        (record r { recorded_keys = add k r.recorded_keys; seen_votes = add k r.seen_votes }) k
        decision)

unfoldable pub on_quorum : Proof → Progress → List ℕ → List ℕ → Result Progress
on_quorum p r approved_keys approved_principals = do
  raise_unless (is_open r.state) illegal_transition
  let keys = sorted r.approved_keys
  principals ← principals_of p.policy.roster keys
  raise_unless (meets p.policy keys) illegal_transition
  raise_unless (list_eq approved_keys keys && list_eq approved_principals principals)
      illegal_transition
  ok (record r { state = State.ready })

unfoldable pub on_commit : Digests → Proof → Progress → ℕ → ℕ → ℕ → ℕ → Result Progress
on_commit d p r at_ms authority_hash operation_id deadline_ms = do
  raise_unless (is_ready r.state) illegal_transition
  raise_unless (authority_hash == d.hash_authority p.authority) illegal_transition
  raise_unless (operation_id == p.action.operation_id) illegal_transition
  raise_unless (deadline_ms == min p.action.expires_ms (at_ms + 5000)) illegal_transition
  ok (record r { state = State.dispatching; committed = true })

unfoldable pub on_report : Progress → ExecutionResult → Result Progress
on_report r result = do
  raise_unless (is_dispatching r.state) illegal_transition
  ok (record r { state = reported_state result.status })

unfoldable pub on_reconcile : Progress → ExecutionResult → Result Progress
on_reconcile r result = do
  raise_unless (is_unknown r.state) illegal_transition
  ok (record r { state = reported_state result.status })

abbrev pub is_reject_vote : EscalationReason → Bool
is_reject_vote EscalationReason.reject_vote = true
is_reject_vote _ = false

-- `reason in ("manual", "missing_quorum", "enrichment_unavailable")`
abbrev before_votes : EscalationReason → Bool
before_votes EscalationReason.reject_vote = false
before_votes _ = true

-- `reason in ("manual", "missing_quorum", "reject_vote")`
abbrev after_votes : EscalationReason → Bool
after_votes EscalationReason.enrichment_unavailable = false
after_votes _ = true

abbrev no_keys : List ℕ → Bool
no_keys [] = true
no_keys (_ ∷ _) = false

-- whether an escalation for this reason is allowed here
unfoldable pub may_escalate : Progress → EscalationReason → Bool
may_escalate r reason =
    if is_reject_pending r.state
    then is_reject_vote reason
    else if is_open r.state && no_keys r.recorded_keys
    then before_votes reason
    else if is_live r.state
    then after_votes reason
    else false

unfoldable pub on_escalated : Progress → EscalationReason → Result Progress
unfolding may_escalate
on_escalated r reason = do
  raise_unless (may_escalate r reason) illegal_transition
  ok (record r { state = State.escalated_state })

unfoldable pub on_delivery : Progress → Result Progress
on_delivery r = raise_unless (is_escalated r.state) illegal_transition >> ok r

unfoldable pub on_expired : Proof → Progress → ℕ → ℕ → Result Progress
on_expired p r at_ms expires_ms = do
  raise_unless (is_live r.state) illegal_transition
  raise_unless (expires_ms == p.action.expires_ms) illegal_transition
  raise_if (ltb at_ms p.action.expires_ms) illegal_transition
  ok (record r { state = State.expired_state })

unfoldable pub on_canceled : Progress → Result Progress
on_canceled r = do
  raise_unless (is_live r.state) illegal_transition
  ok (record r { state = State.canceled_state })

unfoldable pub on_invalidated : Progress → Result Progress
on_invalidated r = do
  raise_unless (is_live r.state) illegal_transition
  ok (record r { state = State.stale })

-- One round of the loop, by the event's type.
unfoldable pub dispatch : Digests → Proof → Progress → (at_ms : ℕ) → EventData → Result Progress
unfolding on_vote on_quorum on_commit on_report on_reconcile on_escalated on_delivery on_expired
    on_canceled on_invalidated
dispatch d p r at_ms (proposed _ _ _) = err (vq illegal_transition)
dispatch d p r at_ms (vote_recorded vote_hash k decision) = on_vote d p r vote_hash k decision
dispatch d p r at_ms (quorum_reached keys principals) = on_quorum p r keys principals
dispatch d p r at_ms (commit_started authority_hash operation_id _ deadline_ms _) =
    on_commit d p r at_ms authority_hash operation_id deadline_ms
dispatch d p r at_ms (execution_reported result) = on_report r result
dispatch d p r at_ms (execution_reconciled result) = on_reconcile r result
dispatch d p r at_ms (escalated reason _) = on_escalated r reason
dispatch d p r at_ms (escalation_delivered _ _) = on_delivery r
dispatch d p r at_ms (escalation_deferred _ _ _) = on_delivery r
dispatch d p r at_ms (expired expires_ms) = on_expired p r at_ms expires_ms
dispatch d p r at_ms canceled = on_canceled r
dispatch d p r at_ms (invalidated _) = on_invalidated r
dispatch d p r at_ms (authority_changed _ _) = err (vq illegal_transition)

unfoldable pub loop : Digests → Proof → Progress → List AuditEntry → Result Progress
unfolding dispatch
loop d p r [] = ok r
loop d p r (e ∷ es) = do r' ← dispatch d p r e.body.at_ms e.body.event_data; loop d p r' es

-- the test of the first event
unfoldable pub is_proposal : Digests → Proof → EventData → Bool
is_proposal d p (proposed action_hash policy_hash authority_epoch) =
    action_hash == d.hash_action p.action
    && policy_hash == p.action.policy_hash
    && authority_epoch == p.action.authority_epoch
is_proposal d p _ = false

abbrev pub vote_keys : List SignedVote → List ℕ
vote_keys = map (λ (v : SignedVote). v.body.key_id)

-- `a == b` on sets
abbrev pub same_set : List ℕ → List ℕ → Bool
same_set a b = subset a b && subset b a

-- the tests after the loop
unfoldable pub conclude : Proof → Progress → Result Progress
conclude p r = do
  raise_if (is_reject_pending r.state) illegal_transition
  raise_unless (same_set r.seen_votes (vote_keys p.votes)) missing_evidence
  ok r

-- `_replay`; the events are not empty where it is called, and `events[0]` of no events is a fault.
unfoldable pub replay_from : Digests → Proof → List AuditEntry → Result Progress
unfolding loop is_proposal conclude
replay_from d p [] = err fault
replay_from d p (e ∷ es) = do
  raise_unless (is_proposal d p e.body.event_data) illegal_transition
  raise_unless (list_eq (vote_keys p.votes) (sorted (set_of (vote_keys p.votes))))
      illegal_transition
  r ← loop d p initial es
  conclude p r

unfoldable pub replay : Digests → Proof → Result Progress
unfolding replay_from
replay d p = replay_from d p p.events
