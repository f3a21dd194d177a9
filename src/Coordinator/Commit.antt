-- ===== src/Coordinator/Commit.antt =====
-- coordinator.py: `commit`: prepare, ask the gate and the adapter, and consume the operation.
use vekquorum.Prelude.{
  ℕ, ◌+◌, min, Bool, true, false, Option, none, some, List, [], ◌∷◌, ◌++◌, ◌==◌, ◌&&◌, ◌||◌, not,
  any, contains, intersects, leb, update_by, Result, ok, err, vq, fault, if◌then◌else◌,
}
use vekquorum.Errors.{
  Code, adapter_unavailable, gate_unavailable, hash_mismatch, not_found, quorum_not_met,
  revision_conflict, schema_invalid, state_conflict, unknown_tool,
}
use vekquorum.Wire.{
  Action, Authority, Capability, EventData, InvalidReason, Policy, Precondition, state_drift,
  scope_denied,
}
use vekquorum.Lifecycle.{State, is_consumed, is_open, is_ready}
use vekquorum.Coordinator.Tables.{
  Config, Consumed, Dispatch, DispatchRequest, Gate, Host, IdKind, Inspection, Meta, Method,
  Proposal, Response, View, commit_request, viewed, not_ready, inspected, allow, deny,
}
use vekquorum.Coordinator.Exec.{
  Exec, pure, gets, modify_db, lift, or_crash, or_raise, raise, raise_if, raise_unless, constraint,
  tx, ◌>>=◌, ◌>>◌,
}
use vekquorum.Coordinator.Rows.{
  action_of, append_event, authority_of, authorize, dedupe, draw, flush, load_proposal, logical_now,
  materialize, move_to, policy_of, record_request, roster_keys, set_state,
}
use vekquorum.Coordinator.Votes.{quorum_satisfied}
use vekquorum.Coordinator.Dispatching.{dispatch}

-- `_gate_check`
unfoldable pub gate_check : Config → Host → Result Gate
gate_check c host = if c.has_gate then host.gate else ok Gate.gate_unavailable

-- `_inspect`: a fault of the adapter means that it is not ready
unfoldable pub inspect : Host → Result Inspection
inspect host = elim host.inspect [
  | ok i ↦ ok i
  | err (vq e) ↦ err (vq e)
  | err fault ↦ ok not_ready
]

-- What phase 1 comes to: a view to return at once, or the action to go on with.
pub data Prepared : Type 0 where
  early : View → Prepared
  go : Action → Prepared

-- the tests of phase 1 on a request that is new
unfoldable pub check_ready : Config → Proposal → Action → (expected_revision : ℕ) → Exec Prepared
check_ready c q action expected_revision = do
  raise_unless (expected_revision == q.revision) revision_conflict
  raise_if (is_open q.state) quorum_not_met
  raise_unless (is_ready q.state) state_conflict
  held ← policy_of action.policy_hash
  policy ← or_crash held
  met ← quorum_satisfied q policy
  raise_unless met quorum_not_met
  pure (go action)

unfoldable pub check_request :
    Config → Proposal → (expected_revision action_hash : ℕ) → Option Response → Exec Prepared
check_request c q expected_revision action_hash (some _) = pure (early q.view)
check_request c q expected_revision action_hash none = do
  action ← action_of q
  raise_unless (action_hash == c.digests.hash_action action) hash_mismatch
  if is_consumed q.state then pure (early q.view) else check_ready c q action expected_revision

abbrev pub prepare_unless : Config → Proposal → ℕ → ℕ → Meta → Bool → Exec Prepared
prepare_unless c q expected_revision action_hash meta true = pure (early q.view)
prepare_unless c q expected_revision action_hash meta false = do
  stored ← dedupe c Method.commit (commit_request q.id expected_revision action_hash) meta
  check_request c q expected_revision action_hash stored

-- phase 1
unfoldable pub prepare :
    Config → (proposal_id expected_revision action_hash : ℕ) → Meta → Exec Prepared
prepare c proposal_id expected_revision action_hash meta = tx (do
  now ← logical_now c
  found ← load_proposal proposal_id
  q ← or_raise found not_found
  (changed, q') ← materialize c q now
  prepare_unless c q' expected_revision action_hash meta changed)

-- a proposal that the gate denies or whose state has drifted is given up in a transaction
unfoldable pub give_up : Config → (proposal_id : ℕ) → InvalidReason → Exec View
give_up c proposal_id reason = tx (do
  now ← logical_now c
  found ← load_proposal proposal_id
  q ← or_crash found
  q' ← move_to c q (EventData.invalidated reason) State.stale c.system_principal now
  pure q'.view)

-- `_drifted`
unfoldable pub drifted : Action → Option Policy → Authority → Bool
drifted action policy authority =
    contains action.tool authority.denied_tools
    || intersects (roster_keys policy) authority.revoked_keys
    || not (authority.epoch == action.authority_epoch)
    || not (authority.policy_hash == action.policy_hash)

-- the dispatch request of an action
unfoldable pub dispatch_request :
    Config → Action → (dispatch_id deadline gate_revision : ℕ) → DispatchRequest
dispatch_request c action dispatch_id deadline gate_revision = record {
  action = action;
  action_hash = c.digests.hash_action action;
  dispatch_id = dispatch_id;
  executor_id = c.executor_id;
  not_after_ms = deadline;
  preconditions = action.preconditions;
  gate_revision = gate_revision;
}

-- the primary key of the table `consumed`
abbrev pub is_spent : ℕ → ℕ → Consumed → Bool
is_spent executor operation_id row = row.executor == executor && row.operation_id == operation_id

unfoldable pub insert_consumed : Consumed → Exec (Unit {0})
insert_consumed row = do
  taken ← gets (λ s. any (is_spent row.executor row.operation_id) s.db.consumed)
  constraint (not taken)
  modify_db (λ db. record db { consumed = db.consumed ++ row ∷ [] })

unfoldable pub insert_dispatch : Dispatch → Exec (Unit {0})
insert_dispatch row = do
  taken ← gets (λ s. any (λ (r : Dispatch). r.dispatch_id == row.dispatch_id) s.db.dispatches)
  constraint (not taken)
  modify_db (λ db. record db { dispatches = db.dispatches ++ row ∷ [] })

unfoldable pub set_commit_authority : ℕ → Authority → Exec (Unit {0})
set_commit_authority id authority = modify_db (λ db. record db {
  proposals =
      update_by (λ (q : Proposal). q.id == id)
        (λ (q : Proposal). record q { commit_authority = some authority }) db.proposals;
})

-- What phase 3 comes to.
pub data Decided : Type 0 where
  settled : View → Decided
  consumed : DispatchRequest → Decided

-- the rest of `consume` once the operation is consumed
unfoldable pub start_dispatch : Proposal → Authority → DispatchRequest → Exec Decided
start_dispatch q authority request = do
  insert_dispatch (record { dispatch_id = request.dispatch_id; request = request; result = none })
  set_commit_authority q.id authority
  flush (set_state (record q { commit_authority = some authority }) State.dispatching)
  pure (consumed request)

-- the compare-and-consume of phase 3 on a ready proposal
unfoldable pub consume :
    Config → Proposal → Action → Authority → (gate_revision actor now : ℕ) → Exec Decided
consume c q action authority gate_revision actor now = do
  let deadline = min action.expires_ms (now + 5000)
  dispatch_id ← draw c IdKind.dispatch
  let request = dispatch_request c action dispatch_id deadline gate_revision
  q' ←
      append_event c q
        (EventData.commit_started (c.digests.hash_authority authority) action.operation_id
          dispatch_id deadline gate_revision)
        actor now
  insert_consumed (record {
    executor = c.executor_id;
    operation_id = action.operation_id;
    proposal = q.id;
    action_hash = c.digests.hash_action action;
    dispatch_id = dispatch_id;
  })
  start_dispatch q' authority request

abbrev pub settle_view : Config → Proposal → ℕ → Exec Decided
settle_view c q now = do (_, q') ← materialize c q now; pure (settled q'.view)

abbrev pub consume_or_settle :
    Config → Proposal → Action → Authority → ℕ → ℕ → ℕ → Bool → Exec Decided
consume_or_settle c q action authority gate_revision actor now true = settle_view c q now
consume_or_settle c q action authority gate_revision actor now false =
    if is_ready q.state
    then consume c q action authority gate_revision actor now
    else pure (settled q.view)

-- the body of the transaction of phase 3
unfoldable pub decide :
    Config → (proposal_id : ℕ) → Action → (gate_revision actor : ℕ) → Exec Decided
decide c proposal_id action gate_revision actor = do
  now ← logical_now c
  found ← load_proposal proposal_id
  held ← authority_of c.executor_id
  authority ← or_raise held gate_unavailable
  policy ← policy_of action.policy_hash
  q ← or_crash found
  consume_or_settle c q action authority gate_revision actor now (drifted action policy authority)

-- phase 3
unfoldable pub compare_and_consume :
    Config → (proposal_id : ℕ) → Action → (gate_revision actor : ℕ) → Exec Decided
compare_and_consume c proposal_id action gate_revision actor =
    tx (decide c proposal_id action gate_revision actor)

-- the dispatch and the response that is recorded after it
unfoldable pub finish_commit :
    Config
    → Host
    → (proposal_id expected_revision action_hash wait_ms : ℕ) → Meta
    → Decided
    → Exec View
finish_commit c host proposal_id expected_revision action_hash wait_ms meta (settled v) = pure v
finish_commit c host proposal_id expected_revision action_hash wait_ms meta (consumed request) = do
  view ← dispatch c host proposal_id request wait_ms meta.caller.principal_id
  tx (
      record_request c Method.commit (commit_request proposal_id expected_revision action_hash) meta
        (viewed view))
  pure view

abbrev pub same_precondition : Precondition → Precondition → Bool
same_precondition a b = a.resource == b.resource && a.version == b.version

abbrev pub same_preconditions : List Precondition → List Precondition → Bool
same_preconditions [] [] = true
same_preconditions (a ∷ xs) (b ∷ ys) = same_precondition a b && same_preconditions xs ys
same_preconditions _ _ = false

unfoldable pub after_inspection :
    Config
    → Host
    → (proposal_id expected_revision action_hash wait_ms : ℕ) → Meta
    → Action
    → (gate_revision : ℕ) → Inspection
    → Exec View
after_inspection c host proposal_id expected_revision action_hash wait_ms meta action revision
      not_ready =
    raise adapter_unavailable
after_inspection c host proposal_id expected_revision action_hash wait_ms meta action revision
      (inspected preconditions) =
    if same_preconditions preconditions action.preconditions
    then (do
      decided ← compare_and_consume c proposal_id action revision meta.caller.principal_id
      finish_commit c host proposal_id expected_revision action_hash wait_ms meta decided)
    else give_up c proposal_id state_drift

-- phase 2
unfoldable pub after_gate :
    Config
    → Host
    → (proposal_id expected_revision action_hash wait_ms : ℕ) → Meta
    → Action
    → Gate
    → Exec View
after_gate c host proposal_id expected_revision action_hash wait_ms meta action
      Gate.gate_unavailable =
    raise Code.gate_unavailable
after_gate c host proposal_id expected_revision action_hash wait_ms meta action (deny _) =
    give_up c proposal_id scope_denied
after_gate c host proposal_id expected_revision action_hash wait_ms meta action (allow revision) =
    do
      raise_unless (contains action.tool c.tools) unknown_tool
      inspection ← lift (inspect host)
      after_inspection c host proposal_id expected_revision action_hash wait_ms meta action revision
          inspection

unfoldable pub after_prepare :
    Config
    → Host
    → (proposal_id expected_revision action_hash wait_ms : ℕ) → Meta
    → Prepared
    → Exec View
after_prepare c host proposal_id expected_revision action_hash wait_ms meta (early v) = pure v
after_prepare c host proposal_id expected_revision action_hash wait_ms meta (go action) = do
  gate ← lift (gate_check c host)
  after_gate c host proposal_id expected_revision action_hash wait_ms meta action gate

-- `commit`
unfoldable pub commit :
    Config → Host → (proposal_id expected_revision action_hash wait_ms : ℕ) → Meta → Exec View
commit c host proposal_id expected_revision action_hash wait_ms meta = do
  authorize c meta.caller Capability.commit
  raise_unless (leb wait_ms 5000) schema_invalid
  prepared ← prepare c proposal_id expected_revision action_hash meta
  after_prepare c host proposal_id expected_revision action_hash wait_ms meta prepared
