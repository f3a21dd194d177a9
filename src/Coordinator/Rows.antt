-- ===== src/Coordinator/Rows.antt =====
-- coordinator.py: callers, the idempotency table, reading rows, appending events, and the lazy
-- expiry of a proposal. `self` is the argument `c`; a `prop` that a method changes in place is
-- returned.
use vekquorum.Prelude.{
  ℕ, ◌+◌, max, Bool, true, false, Option, none, some, List, [], ◌∷◌, ◌++◌, map, ◌==◌, ◌&&◌, ◌||◌,
  not, leb, ltb, ok, any, find_by, update_by, filter_by, contains, intersects, if◌then◌else◌,
}
use vekquorum.Errors.{
  tenant_mismatch, forbidden, schema_invalid, idempotency_conflict, proof_pruned,
}
use vekquorum.Wire.{
  Action, Authority, AuditEntry, Caller, Capability, EventBody, EventData, InvalidReason, Member,
  Policy, scope_denied, key_revoked, policy_changed,
}
use vekquorum.Lifecycle.{State, is_live, is_consumed}
use vekquorum.Coordinator.Tables.{
  AuthorityRow, Config, IdKind, Meta, Method, PolicyRow, Proposal, Request, RequestRow, Response,
}
use vekquorum.Coordinator.Exec.{
  Exec, pure, gets, modify_db, or_raise, or_crash, raise_unless, constraint, ◌>>=◌, ◌>>◌,
}

abbrev pub capability_index : Capability → ℕ
capability_index Capability.read = 0
capability_index Capability.propose = 1
capability_index Capability.submit = 2
capability_index Capability.commit = 3
capability_index Capability.escalate = 4
capability_index Capability.admin = 5

abbrev pub has_capability : Capability → Caller → Bool
has_capability k caller =
    any (λ (x : Capability). capability_index x == capability_index k) caller.capabilities

-- `_authorize`
unfoldable pub authorize : Config → Caller → Capability → Exec (Unit {0})
authorize c caller capability = do
  raise_unless (caller.tenant == c.tenant) tenant_mismatch
  raise_unless (has_capability capability caller) forbidden

abbrev pub method_index : Method → ℕ
method_index Method.configure = 0
method_index Method.propose = 1
method_index Method.submit = 2
method_index Method.commit = 3
method_index Method.cancel = 4
method_index Method.escalate = 5
method_index Method.deliver = 6
method_index Method.reconcile = 7

-- the primary key of the table `requests`
abbrev pub is_request : ℕ → Method → ℕ → RequestRow → Bool
is_request principal method request_id row =
    row.principal == principal
    && method_index row.method == method_index method
    && row.request_id == request_id

abbrev pub replayed : ℕ → Option RequestRow → Exec (Option Response)
replayed request_hash none = pure none
replayed request_hash (some row) = do
  raise_unless (row.request_hash == request_hash) idempotency_conflict
  pure (some row.response)

-- `_dedupe`: the stored response of a replay, or `none` for a new request
unfoldable pub dedupe : Config → Method → Request → Meta → Exec (Option Response)
dedupe c method request meta = do
  key ← or_raise meta.idempotency_key schema_invalid
  let principal = meta.caller.principal_id
  row ← gets (λ s. find_by (is_request principal method key) s.db.requests)
  replayed (c.hash_request method request principal) row

-- `_record_request`: INSERT OR REPLACE
unfoldable pub record_request : Config → Method → Request → Meta → Response → Exec (Unit {0})
record_request c method request meta response = do
  key ← or_crash meta.idempotency_key
  let principal = meta.caller.principal_id
  modify_db (λ db. record db {
    requests =
        filter_by (λ row. not (is_request principal method key row)) db.requests
        ++ (record {
          principal = principal;
          method = method;
          request_id = key;
          request_hash = c.hash_request method request principal;
          response = response;
        })
          ∷ [];
  })

-- `Store.logical_now` inside a transaction
unfoldable pub logical_now : Config → Exec ℕ
logical_now c s =
    let now = max s.db.last_logical_ms (c.clock s.readings) in
    (ok now, record s { db = record s.db { last_logical_ms = now }; readings = s.readings + 1 })

-- `self.ids(kind)`
unfoldable pub draw : Config → IdKind → Exec ℕ
draw c kind s = (ok (c.ids kind s.drawn), record s { drawn = s.drawn + 1 })

-- `_load_proposal`
unfoldable pub load_proposal : ℕ → Exec (Option Proposal)
load_proposal id = gets (λ s. find_by (λ (q : Proposal). q.id == id) s.db.proposals)

-- `_action_of`
unfoldable pub action_of : Proposal → Exec Action
action_of q = or_raise q.action proof_pruned

abbrev pub authority_of_row : Option AuthorityRow → Option Authority
authority_of_row none = none
authority_of_row (some row) = some row.authority

-- `_authority`
unfoldable pub authority_of : ℕ → Exec (Option Authority)
authority_of executor = gets (λ s.
    authority_of_row (find_by (λ (row : AuthorityRow). row.executor == executor) s.db.authorities))

abbrev pub policy_of_row : Option PolicyRow → Option Policy
policy_of_row none = none
policy_of_row (some row) = some row.policy

-- `_policy_of`
unfoldable pub policy_of : ℕ → Exec (Option Policy)
policy_of hash =
    gets (λ s. policy_of_row (find_by (λ (row : PolicyRow). row.hash == hash) s.db.policies))

-- a signed audit entry for a body
unfoldable pub sign_entry : Config → EventBody → AuditEntry
sign_entry c body = record {
  body = body;
  hash = c.digests.hash_event body;
  key_id = c.audit_key_id;
  signature = c.digests.ed_sign c.audit_seed (c.digests.event_message body);
}

-- the primary key and the uniqueness of receipts in the table `events`
abbrev pub clashes : EventBody → AuditEntry → Bool
clashes b e =
    (e.body.stream_id == b.stream_id && e.body.seq == b.seq) || e.body.receipt_id == b.receipt_id

unfoldable pub insert_event : AuditEntry → Exec (Unit {0})
insert_event entry = do
  taken ← gets (λ s. any (clashes entry.body) s.db.events)
  constraint (not taken)
  modify_db (λ db. record db { events = db.events ++ entry ∷ [] })

-- the body that `_append_event` writes
unfoldable pub next_body : Config → Proposal → ℕ → EventData → ℕ → ℕ → EventBody
next_body c q receipt_id payload actor at_ms = record {
  tenant = c.tenant;
  stream_id = q.view.stream;
  receipt_id = receipt_id;
  seq = q.revision + 1;
  prev_hash = if ltb 1 (q.revision + 1) then q.view.head_hash else none;
  at_ms = at_ms;
  proposal_id = some q.id;
  actor_id = actor;
  event_data = payload;
}

-- the proposal after `_append_event`
unfoldable pub advance : Proposal → AuditEntry → Proposal
advance q entry = record q {
  revision = entry.body.seq;
  view = record q.view { revision = entry.body.seq; head_hash = some entry.hash };
}

-- `_append_event`
unfoldable pub append_event : Config → Proposal → EventData → ℕ → ℕ → Exec Proposal
append_event c q payload actor at_ms = do
  receipt_id ← draw c IdKind.receipt
  let entry = sign_entry c (next_body c q receipt_id payload actor at_ms)
  insert_event entry
  pure (advance q entry)

-- `_set_state`
unfoldable pub set_state : Proposal → State → Proposal
set_state q state = record q {
  state = state;
  view = record q.view { state = state; consumed = is_consumed state };
}

-- `_flush`
unfoldable pub flush : Proposal → Exec (Unit {0})
flush q = modify_db (λ db. record db {
  proposals =
      update_by (λ (row : Proposal). row.id == q.id)
        (λ (row : Proposal). record row { state = q.state; revision = q.revision; view = q.view })
        db.proposals;
})

abbrev pub roster_keys : Option Policy → List ℕ
roster_keys none = []
roster_keys (some p) = map (λ (m : Member). m.key_id) p.roster

-- why `_materialize` and `_drifted` give a live proposal up, if they do
unfoldable pub invalid_reason : Action → Option Policy → Authority → Option InvalidReason
invalid_reason action policy authority =
    if contains action.tool authority.denied_tools
    then some scope_denied
    else if intersects (roster_keys policy) authority.revoked_keys
    then some key_revoked
    else if not
        (authority.epoch == action.authority_epoch && authority.policy_hash == action.policy_hash)
    then some policy_changed
    else none

-- append an event, enter a state and write the row
unfoldable pub move_to : Config → Proposal → EventData → State → ℕ → ℕ → Exec Proposal
move_to c q payload state actor now = do
  q' ← append_event c q payload actor now
  let q'' = set_state q' state
  flush q''
  pure q''

abbrev pub invalidate : Config → Proposal → ℕ → Option InvalidReason → Exec (Bool × Proposal)
invalidate c q now none = pure (false, q)
invalidate c q now (some reason) = do
  q' ← move_to c q (EventData.invalidated reason) State.stale c.system_principal now
  pure (true, q')

abbrev pub check_authority :
    Config → Proposal → Action → ℕ → Option Authority → Exec (Bool × Proposal)
check_authority c q action now none = pure (false, q)
check_authority c q action now (some authority) = do
  policy ← policy_of action.policy_hash
  invalidate c q now (invalid_reason action policy authority)

abbrev pub expire : Config → Proposal → Action → ℕ → Exec (Bool × Proposal)
expire c q action now = do
  q' ← move_to c q (EventData.expired action.expires_ms) State.expired_state c.system_principal now
  pure (true, q')

abbrev pub still_valid : Config → Proposal → Action → ℕ → Exec (Bool × Proposal)
still_valid c q action now = do
  authority ← authority_of q.executor
  check_authority c q action now authority

abbrev pub refresh : Config → Proposal → ℕ → Exec (Bool × Proposal)
refresh c q now = do
  action ← action_of q
  if leb action.expires_ms now then expire c q action now else still_valid c q action now

-- `_materialize`: whether an event was appended, and the proposal
unfoldable pub materialize : Config → Proposal → ℕ → Exec (Bool × Proposal)
materialize c q now = if is_live q.state then refresh c q now else pure (false, q)
