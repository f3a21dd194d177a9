-- ===== src/Coordinator/Tables.antt =====
-- The SQLite tables of store.py (python/vekquorum/store.py), with the rows of one tenant, oldest
-- first, and the objects of coordinator.py.
use vekquorum.Prelude.{ℕ, Bool, Option, List, Result}
use vekquorum.Wire.{
  Action, Authority, AuditEntry, Checkpoint, Caller, Enrichment, Environment, EscalationReason,
  ExecutionResult, Json, Policy, Precondition, SignedVote,
}
use vekquorum.Wire.Digests.{Digests}
use vekquorum.Lifecycle.{State}

-- The view of a proposal; `stream` is its private entry `_stream`.
pub record View : Type 0 where
  pub proposal_id : ℕ
  pub action_hash : ℕ
  pub state : State
  pub revision : ℕ
  pub approvals : ℕ
  pub threshold : ℕ
  pub expires_ms : ℕ
  pub consumed : Bool
  pub result : Option ExecutionResult
  pub escalation_id : Option ℕ
  pub head_hash : Option ℕ
  pub stream : ℕ

pub record Proposal : Type 0 where
  pub id : ℕ
  pub executor : ℕ
  pub operation_id : ℕ
  pub nonce : ℕ
  pub state : State
  pub revision : ℕ
  -- `none` once the payload is pruned
  pub action : Option Action
  pub view : View
  pub initial_authority : Authority
  pub commit_authority : Option Authority

pub record PolicyRow : Type 0 where
  pub hash : ℕ
  pub policy : Policy

pub record AuthorityRow : Type 0 where
  pub executor : ℕ
  pub authority : Authority

pub record VoteRow : Type 0 where
  pub proposal : ℕ
  pub vote : SignedVote

pub record Consumed : Type 0 where
  pub executor : ℕ
  pub operation_id : ℕ
  pub proposal : ℕ
  pub action_hash : ℕ
  pub dispatch_id : ℕ

pub record DispatchRequest : Type 0 where
  pub action : Action
  pub action_hash : ℕ
  pub dispatch_id : ℕ
  pub executor_id : ℕ
  pub not_after_ms : ℕ
  pub preconditions : List Precondition
  pub gate_revision : ℕ

pub record Dispatch : Type 0 where
  pub dispatch_id : ℕ
  pub request : DispatchRequest
  pub result : Option ExecutionResult

pub data DeliveryState : Type 0 where
  pending acked : DeliveryState

pub record InboxRequest : Type 0 where
  pub escalation_id : ℕ
  pub proposal_id : ℕ
  pub action_hash : ℕ
  pub bundle_hash : ℕ
  pub reason : EscalationReason
  pub expires_ms : ℕ
  pub summary : ℕ

pub record Delivery : Type 0 where
  pub escalation_id : ℕ
  pub proposal : ℕ
  pub state : DeliveryState
  pub attempts : ℕ
  pub request : InboxRequest
  pub inbox_ticket : Option ℕ

pub data Method : Type 0 where
  configure propose submit commit cancel escalate deliver reconcile : Method

pub data Request : Type 0 where
  configure_request : (expected_epoch : ℕ) → Policy → (denied_tools revoked_keys : List ℕ) → Request
  propose_request : Action → Policy → Option Enrichment → Request
  submit_request : (proposal_id expected_revision : ℕ) → SignedVote → Request
  commit_request : (proposal_id expected_revision action_hash : ℕ) → Request
  cancel_request : (proposal_id expected_revision : ℕ) → Request
  escalate_request : (proposal_id expected_revision : ℕ) → EscalationReason → Request
  deliver_request : (escalation_id : ℕ) → Request
  reconcile_request : (proposal_id : ℕ) → Request

pub data Response : Type 0 where
  viewed : View → Response
  configured : Authority → (policy_hash : ℕ) → Response
  delivered : DeliveryState → (inbox_ticket : Option ℕ) → View → Response

pub record RequestRow : Type 0 where
  pub principal : ℕ
  pub method : Method
  pub request_id : ℕ
  pub request_hash : ℕ
  pub response : Response

-- the evidence that is read back: enrichments by their hash
pub record Evidence : Type 0 where
  pub hash : ℕ
  pub enrichment : Enrichment

pub record CheckpointRow : Type 0 where
  pub proposal : ℕ
  pub head_seq : ℕ
  pub checkpoint : Checkpoint

pub record Db : Type 0 where
  pub last_logical_ms : ℕ
  pub clean_shutdown : Bool
  pub admin_stream : Option ℕ
  pub policies : List PolicyRow
  pub authorities : List AuthorityRow
  pub proposals : List Proposal
  pub votes : List VoteRow
  pub events : List AuditEntry
  pub consumed : List Consumed
  pub dispatches : List Dispatch
  pub deliveries : List Delivery
  pub requests : List RequestRow
  pub evidence : List Evidence
  pub checkpoints : List CheckpointRow

pub data IdKind : Type 0 where
  proposal_stream admin_stream receipt admin_receipt dispatch escalation : IdKind

-- the codes of the results that the coordinator writes itself
pub data ResultCode : Type 0 where
  interrupted action_mutated transport_unknown malformed_result : ResultCode

pub record Manifest : Type 0 where
  pub tool : ℕ
  pub irreversible : Bool

-- What a coordinator is built with. `ids kind n` is what the id source returns at its n-th call,
-- `clock n` the n-th reading of the wall clock, `canonical` the bytes `J(action)`, `hash_request`
-- the digest of a method, its request and a principal, `hash_partial` the digest of a bundle with
-- no policy, `check_args` the argument profile of a tool, `result_code` the place of a result's
-- code, and `tools` the tools with an executor.
pub record Config : Type 0 where
  pub digests : Digests
  pub tenant : ℕ
  pub executor_id : ℕ
  pub environment : Environment
  pub audit_key_id : ℕ
  pub audit_seed : ℕ
  pub tools : List ℕ
  pub manifest : Option Manifest
  pub has_gate : Bool
  pub has_inbox : Bool
  pub system_principal : ℕ
  pub ids : IdKind → ℕ → ℕ
  pub clock : ℕ → ℕ
  pub canonical : Action → ℕ
  pub hash_request : Method → Request → ℕ → ℕ
  pub hash_partial :
      Action → Authority → Option Enrichment → List SignedVote → List AuditEntry → Checkpoint → ℕ
  pub check_args : ℕ → Json → Result (Unit {0})
  pub result_code : ResultCode → ℕ

-- The coordinator between two calls: the database, the two rate buckets, the ids drawn and the
-- clock readings made so far, and the dispatch requests handed to the executors, newest first.
pub record Coordinator : Type 0 where
  pub db : Db
  pub rate_propose : List ℕ
  pub rate_submit : List ℕ
  pub drawn : ℕ
  pub readings : ℕ
  pub calls : List DispatchRequest

-- The `meta` argument of a method: the authenticated caller and the idempotency key.
pub record Meta : Type 0 where
  pub caller : Caller
  pub idempotency_key : Option ℕ

pub data Gate : Type 0 where
  allow deny : (revision : ℕ) → Gate
  gate_unavailable : Gate

pub data Inspection : Type 0 where
  not_ready : Inspection
  inspected : List Precondition → Inspection

pub data Observed : Type 0 where
  unresolved : Observed
  resolved : ExecutionResult → Observed

-- What the thread that calls `executor.dispatch` has come to when the wait is over. `returned`
-- holds the action object after the adapter had it, and the verdict of `schema.result`.
pub data Outcome : Type 0 where
  unfinished failed_call : Outcome
  returned : Action → Result ExecutionResult → Outcome

-- What the objects outside answer in one call: the gate, `executor.inspect`, the hook
-- `mutate_dispatch` (what it makes of the action; the identity where there is none), `executor.dispatch`, `executor.lookup` and
-- `inbox.deliver`, each as the schema's validator of that answer leaves it.
pub record Host : Type 0 where
  pub gate : Result Gate
  pub inspect : Result Inspection
  pub mutate_dispatch : Action → Action
  pub dispatched : Outcome
  pub lookup : Result Observed
  pub inbox : Result ℕ
