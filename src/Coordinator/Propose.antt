-- ===== src/Coordinator/Propose.antt =====
-- coordinator.py: `propose` and the rate limiter.
use vekquorum.Prelude.{
  ℕ, ◌+◌, ◌-◌, Bool, true, false, Option, none, some, List, [], ◌∷◌, ◌++◌, ◌==◌, ◌&&◌, ◌||◌, not,
  any, leb, ltb, contains, length, filter_by, option_eq, if◌then◌else◌,
}
use vekquorum.Errors.{
  active_operation, epoch_conflict, expired, forbidden, hash_mismatch, nonce_reused,
  operation_consumed, rate_limited, schema_invalid, tenant_mismatch, unknown_tool,
}
use vekquorum.Wire.{
  Action, Authority, Capability, CardStatus, Enrichment, EscalationReason, EventData, Policy,
  environment_eq,
}
use vekquorum.Lifecycle.{State, is_live}
use vekquorum.Coordinator.Tables.{
  Config, Consumed, Evidence, IdKind, Meta, Method, Proposal, Response, View, propose_request,
  viewed,
}
use vekquorum.Coordinator.Exec.{
  Exec, pure, gets, modify, modify_db, crash, lift, raise, raise_if, raise_unless, constraint, tx,
  ◌>>=◌, ◌>>◌,
}
use vekquorum.Coordinator.Rows.{
  append_event, authority_of, authorize, dedupe, draw, flush, load_proposal, logical_now,
  materialize, record_request,
}
use vekquorum.Coordinator.Bundles.{make_escalation}

abbrev pub rate_propose_per_min : ℕ
rate_propose_per_min = 30

abbrev pub max_active_proposals : ℕ
max_active_proposals = 128

abbrev pub created_window_ms : ℕ
created_window_ms = 2000

-- the loop of `_rate_limit`: times before the cutoff leave the front of the bucket
unfoldable pub drop_before : ℕ → List ℕ → List ℕ
drop_before cutoff [] = []
drop_before cutoff (t ∷ ts) =
    let rest = drop_before cutoff ts in if ltb t cutoff then rest else t ∷ ts

-- `_rate_limit`: the bucket afterwards, and whether the call is let through
unfoldable pub rate_limit : List ℕ → (limit now : ℕ) → List ℕ × Bool
unfolding drop_before
rate_limit bucket limit now =
    let kept = drop_before (now - 60000) bucket in
    if leb limit (length kept) then (kept, false) else (kept ++ now ∷ [], true)

unfoldable pub limit_propose : ℕ → Exec (Unit {0})
limit_propose now = do
  (bucket, allowed) ← gets (λ s. rate_limit s.rate_propose rate_propose_per_min now)
  modify (λ s. record s { rate_propose = bucket })
  raise_unless allowed rate_limited

-- `_check_enrichment_binding`
unfoldable pub check_enrichment_binding : Config → Action → Option Enrichment → Exec (Unit {0})
check_enrichment_binding c action none =
    raise_unless (option_eq action.enrichment_hash none) hash_mismatch
check_enrichment_binding c action (some e) =
    raise_unless (option_eq action.enrichment_hash (some (c.digests.hash_enrichment e)))
      hash_mismatch

abbrev pub operates : Config → ℕ → Proposal → Bool
operates c operation_id q = q.executor == c.executor_id && q.operation_id == operation_id

abbrev pub is_consumption : Config → ℕ → Consumed → Bool
is_consumption c operation_id row =
    row.executor == c.executor_id && row.operation_id == operation_id

-- the operation and the nonce are new: none is consumed, live or used
unfoldable pub check_fresh : Config → Action → Bool → Exec (Unit {0})
check_fresh c action is_known = do
  consumed ← gets (λ s. any (is_consumption c action.operation_id) s.db.consumed)
  raise_if consumed operation_consumed
  live ← gets (λ s. any (λ q. operates c action.operation_id q && is_live q.state) s.db.proposals)
  raise_if live active_operation
  raise_if is_known nonce_reused
  nonce ← gets (λ s.
      any (λ (q : Proposal). q.executor == c.executor_id && q.nonce == action.nonce) s.db.proposals)
  raise_if nonce nonce_reused

abbrev pub current_authority : Action → Option Authority → Exec Authority
current_authority action none = raise epoch_conflict
current_authority action (some a) = do
  raise_unless (a.policy_hash == action.policy_hash && a.epoch == action.authority_epoch)
      epoch_conflict
  pure a

-- time admission
unfoldable pub check_times : Action → Policy → ℕ → Exec (Unit {0})
check_times action policy now = do
  raise_unless (leb action.created_ms now && leb now (action.created_ms + created_window_ms))
      schema_invalid
  raise_unless
      (leb (action.created_ms + 1000) action.expires_ms
        && leb action.expires_ms (action.created_ms + policy.max_ttl_ms))
      schema_invalid
  raise_if (leb action.expires_ms now) expired

unfoldable pub check_active : Config → Exec (Unit {0})
check_active c = do
  active ← gets (λ s.
      length (
        filter_by (λ (q : Proposal). q.executor == c.executor_id && is_live q.state)
          s.db.proposals))
  raise_if (leb max_active_proposals active) rate_limited

-- the row of a proposal that is admitted
unfoldable pub new_proposal : Config → Action → Policy → Authority → (stream : ℕ) → Proposal
new_proposal c action policy authority stream = record {
  id = action.proposal_id;
  executor = c.executor_id;
  operation_id = action.operation_id;
  nonce = action.nonce;
  state = State.open_state;
  revision = 0;
  action = some action;
  view = record {
    proposal_id = action.proposal_id;
    action_hash = c.digests.hash_action action;
    state = State.open_state;
    revision = 0;
    approvals = 0;
    threshold = policy.threshold;
    expires_ms = action.expires_ms;
    consumed = false;
    result = none;
    escalation_id = none;
    head_hash = none;
    stream = stream;
  };
  initial_authority = authority;
  commit_authority = none;
}

-- the primary key, the unique nonce and the index `live_operation` of the table
abbrev pub clashes_proposal : Proposal → Proposal → Bool
clashes_proposal q r =
    r.id == q.id
    || (r.executor == q.executor && r.nonce == q.nonce)
    || (r.executor == q.executor
        && r.operation_id == q.operation_id
        && is_live r.state
        && is_live q.state)

unfoldable pub insert_proposal : Proposal → Exec (Unit {0})
insert_proposal q = do
  taken ← gets (λ s. any (clashes_proposal q) s.db.proposals)
  constraint (not taken)
  modify_db (λ db. record db { proposals = db.proposals ++ q ∷ [] })

abbrev pub put_at : Enrichment → Option ℕ → Exec (Unit {0})
put_at e none = crash
put_at e (some hash) = modify_db (λ db. record db {
  evidence =
      if any (λ (row : Evidence). row.hash == hash) db.evidence
      then db.evidence
      else db.evidence ++ (record { hash = hash; enrichment = e }) ∷ [];
})

-- INSERT OR IGNORE INTO evidence, of the kind that is read back
unfoldable pub put_enrichment : Action → Option Enrichment → Exec (Unit {0})
put_enrichment action none = pure tt
put_enrichment action (some e) = put_at e action.enrichment_hash

abbrev pub is_known : CardStatus → Bool
is_known CardStatus.known = true
is_known _ = false

-- the enrichment is known and at most five seconds old
abbrev pub is_current : ℕ → Option Enrichment → Bool
is_current now none = false
is_current now (some e) =
    is_known e.card.status && leb e.card.observed_ms now && leb now (e.card.observed_ms + 5000)

unfoldable pub gate_enrichment :
    Config → Policy → Option Enrichment → Proposal → (actor now : ℕ) → Exec Proposal
gate_enrichment c policy enrichment q actor now =
    if policy.enrichment_required && not (is_current now enrichment)
    then make_escalation c q EscalationReason.enrichment_unavailable actor now
    else (do flush q; pure q)

-- the body of `propose` for an action that is not there yet
unfoldable pub admit :
    Config → Action → Policy → Option Enrichment → Meta → (now : ℕ) → (is_known : Bool) → Exec View
admit c action policy enrichment meta now is_known = do
  check_fresh c action is_known
  held ← authority_of c.executor_id
  authority ← current_authority action held
  check_times action policy now
  check_active c
  stream ← draw c IdKind.proposal_stream
  let q = new_proposal c action policy authority stream
  put_enrichment action enrichment
  insert_proposal q
  let actor = meta.caller.principal_id
  q' ←
      append_event c q
        (EventData.proposed (c.digests.hash_action action) action.policy_hash
          action.authority_epoch)
        actor now
  q'' ← gate_enrichment c policy enrichment q' actor now
  record_request c Method.propose (propose_request action policy enrichment) meta (viewed q''.view)
  pure q''.view

-- the view of a proposal brought up to date
unfoldable pub refreshed : Config → ℕ → Proposal → Exec View
refreshed c now q = do (_, q') ← materialize c q now; pure q'.view

-- `existing["action_blob"] == J(action)`
abbrev pub is_same_action : Config → Action → Option Action → Bool
is_same_action c action none = false
is_same_action c action (some a) = c.canonical a == c.canonical action

abbrev pub or_admit :
    Config → Action → Policy → Option Enrichment → Meta → ℕ → Option Proposal → Exec View
or_admit c action policy enrichment meta now none = admit c action policy enrichment meta now false
or_admit c action policy enrichment meta now (some q) =
    if is_same_action c action q.action
    then refreshed c now q
    else admit c action policy enrichment meta now true

abbrev pub refreshed_or : Config → ℕ → View → Option Proposal → Exec View
refreshed_or c now stored none = pure stored
refreshed_or c now stored (some q) = refreshed c now q

-- a stored response of `propose` is a view
abbrev pub replay_propose : Config → ℕ → Response → Exec View
replay_propose c now (viewed v) = do old ← load_proposal v.proposal_id; refreshed_or c now v old
replay_propose c now _ = crash

abbrev pub replay_or_admit :
    Config → Action → Policy → Option Enrichment → Meta → ℕ → Option Response → Exec View
replay_or_admit c action policy enrichment meta now (some stored) = replay_propose c now stored
replay_or_admit c action policy enrichment meta now none = do
  existing ← load_proposal action.proposal_id
  or_admit c action policy enrichment meta now existing

-- `propose`
unfoldable pub propose : Config → Action → Policy → Option Enrichment → Meta → Exec View
propose c action policy enrichment meta = do
  authorize c meta.caller Capability.propose
  raise_unless (action.tenant == c.tenant) tenant_mismatch
  raise_unless (meta.caller.principal_id == action.proposer_id) forbidden
  raise_unless
      (action.executor_id == c.executor_id && environment_eq action.environment c.environment)
      schema_invalid
  tx (do
    now ← logical_now c
    limit_propose now
    raise_unless (c.digests.hash_policy policy == action.policy_hash) hash_mismatch
    raise_unless (contains action.tool c.tools) unknown_tool
    lift (c.check_args action.tool action.args)
    check_enrichment_binding c action enrichment
    stored ← dedupe c Method.propose (propose_request action policy enrichment) meta
    replay_or_admit c action policy enrichment meta now stored)
