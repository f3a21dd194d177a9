-- ===== src/Coordinator/Reconcile.antt =====
-- coordinator.py: `reconcile`, which asks the provider about an unknown effect, and `export_proof`.
use vekquorum.Prelude.{
  ℕ, Bool, true, false, Option, none, some, ◌==◌, contains, find_by, Result, ok, err, vq, fault,
  if◌then◌else◌,
}
use vekquorum.Errors.{adapter_unavailable, not_found, proof_pruned, state_conflict}
use vekquorum.Wire.{Capability, Enrichment, EventData, ExecutionResult, Proof, Status}
use vekquorum.Lifecycle.{State, is_unknown}
use vekquorum.Coordinator.Tables.{
  Config, Consumed, Host, Meta, Method, Observed, Proposal, Response, View, reconcile_request,
  viewed, unresolved, resolved,
}
use vekquorum.Coordinator.Exec.{
  Exec, pure, gets, or_crash, or_raise, raise_if, raise_unless, lift, tx, ◌>>=◌, ◌>>◌,
}
use vekquorum.Coordinator.Rows.{
  action_of, append_event, authorize, dedupe, flush, load_proposal, logical_now, materialize,
  policy_of, record_request, set_state,
}
use vekquorum.Coordinator.Votes.{votes_of}
use vekquorum.Coordinator.Bundles.{checkpoint_for, enrichment_of, events_of, snapshot_authority}
use vekquorum.Coordinator.Dispatching.{current_view}

abbrev pub dispatch_id_in : Option Consumed → Option ℕ
dispatch_id_in none = none
dispatch_id_in (some row) = some row.dispatch_id

-- `_dispatch_id_of`
unfoldable pub dispatch_id_of : Proposal → Exec ℕ
dispatch_id_of q = do
  found ← gets (λ s. dispatch_id_in (find_by (λ (r : Consumed). r.proposal == q.id) s.db.consumed))
  or_crash found

-- What the first transaction comes to.
pub data Asked : Type 0 where
  replayed : View → Asked
  ask : (operation_id dispatch_id : ℕ) → Asked

unfoldable pub prepare_lookup : Config → Proposal → Option Response → Exec Asked
prepare_lookup c q (some _) = pure (replayed q.view)
prepare_lookup c q none = do
  raise_unless (is_unknown q.state) state_conflict
  dispatch_id ← dispatch_id_of q
  action ← action_of q
  raise_unless (contains action.tool c.tools) adapter_unavailable
  pure (ask action.operation_id dispatch_id)

-- the first transaction
unfoldable pub ask_provider : Config → (proposal_id : ℕ) → Meta → Exec Asked
ask_provider c proposal_id meta = tx (do
  now ← logical_now c
  found ← load_proposal proposal_id
  q ← or_raise found not_found
  (_, q') ← materialize c q now
  stored ← dedupe c Method.reconcile (reconcile_request proposal_id) meta
  prepare_lookup c q' stored)

-- a fault of the adapter is reported as unavailable
abbrev pub lookup_answer : Result Observed → Result Observed
lookup_answer (ok o) = ok o
lookup_answer (err (vq e)) = err (vq e)
lookup_answer (err fault) = err (vq adapter_unavailable)

-- `lr["observed"]` is the status of the result, and not "unknown"
abbrev pub observed_state : Status → State
observed_state Status.succeeded = State.succeeded
observed_state _ = State.failed

unfoldable pub settle_unknown : Config → Proposal → ExecutionResult → Meta → (now : ℕ) → Exec View
settle_unknown c q result meta now = do
  q' ← append_event c q (EventData.execution_reconciled result) meta.caller.principal_id now
  let q'' : Proposal =
      set_state (record q' { view = record q'.view { result = some result } })
        (observed_state result.status)
  flush q''
  record_request c Method.reconcile (reconcile_request q.id) meta (viewed q''.view)
  pure q''.view

-- the second transaction
unfoldable pub record_lookup : Config → (proposal_id : ℕ) → ExecutionResult → Meta → Exec View
record_lookup c proposal_id result meta = tx (do
  now ← logical_now c
  found ← load_proposal proposal_id
  q ← or_crash found
  if is_unknown q.state then settle_unknown c q result meta now else pure q.view)

unfoldable pub after_lookup : Config → (proposal_id : ℕ) → Meta → Observed → Exec View
after_lookup c proposal_id meta unresolved = current_view proposal_id
after_lookup c proposal_id meta (resolved result) = record_lookup c proposal_id result meta

abbrev pub after_ask : Config → Host → ℕ → Meta → Asked → Exec View
after_ask c host proposal_id meta (replayed v) = pure v
after_ask c host proposal_id meta (ask _ _) = do
  answer ← lift (lookup_answer host.lookup)
  after_lookup c proposal_id meta answer

-- `reconcile`
unfoldable pub reconcile : Config → Host → (proposal_id : ℕ) → Meta → Exec View
reconcile c host proposal_id meta = do
  authorize c meta.caller Capability.commit
  asked ← ask_provider c proposal_id meta
  after_ask c host proposal_id meta asked

abbrev pub is_missing : Option ℕ → Option Enrichment → Bool
is_missing (some _) none = true
is_missing _ _ = false

-- the bundle of a proposal that is brought up to date
unfoldable pub bundle_of : Config → Proposal → Exec Proof
bundle_of c q = do
  action ← action_of q
  held ← policy_of action.policy_hash
  policy ← or_raise held proof_pruned
  enrichment ← enrichment_of action
  raise_if (is_missing action.enrichment_hash enrichment) proof_pruned
  events ← events_of q
  votes ← votes_of q
  let authority = snapshot_authority q
  checkpoint ← checkpoint_for c q events authority
  pure (record {
    action = action;
    policy = policy;
    authority = authority;
    enrichment = enrichment;
    votes = votes;
    events = events;
    checkpoint = checkpoint;
  })

-- `export_proof`: the bundle and its hash
unfoldable pub export_proof : Config → (proposal_id : ℕ) → Meta → Exec (ℕ × Proof)
export_proof c proposal_id meta = do
  authorize c meta.caller Capability.read
  tx (do
    now ← logical_now c
    found ← load_proposal proposal_id
    q ← or_raise found not_found
    (_, q') ← materialize c q now
    flush q'
    proof ← bundle_of c q'
    pure (c.digests.hash_bundle proof, proof))
