-- ===== src/Wire/Events.antt =====
-- Votes, results, audit events and checkpoints.
use Prim.Native.Nat.{ℕ}
use mathlib.Core.Bool.{Bool, true, false}
use mathlib.Core.Option.{Option}
use mathlib.Core.List.{List}
use vekquorum.Wire.Policies.{Authority}

pub data Decision : Type 0 where
  approve reject : Decision

abbrev pub is_approve : Decision → Bool
is_approve approve = true
is_approve reject = false

abbrev pub decision_eq : Decision → Decision → Bool
decision_eq approve approve = true
decision_eq reject reject = true
decision_eq _ _ = false

pub record VoteBody : Type 0 where
  pub action_hash : ℕ
  pub policy_hash : ℕ
  pub key_id : ℕ
  pub decision : Decision

pub record SignedVote : Type 0 where
  pub body : VoteBody
  pub signature : ℕ

pub data Status : Type 0 where
  succeeded failed unknown : Status

pub record ExecutionResult : Type 0 where
  pub status : Status
  pub code : ℕ
  pub output_hash : Option ℕ
  pub provider_ref : Option ℕ

pub data EscalationReason : Type 0 where
  reject_vote manual missing_quorum enrichment_unavailable : EscalationReason

pub data InvalidReason : Type 0 where
  policy_changed key_revoked scope_denied state_drift : InvalidReason

pub data DeliveryCode : Type 0 where
  unavailable rejected : DeliveryCode

-- The event types with their fields, in the order of the table `_EVENT_DATA_FIELDS`. A canceled
-- event's reason has one value.
pub data EventData : Type 0 where
  proposed : (action_hash policy_hash authority_epoch : ℕ) → EventData
  vote_recorded : (vote_hash key_id : ℕ) → Decision → EventData
  quorum_reached : (approved_keys approved_principals : List ℕ) → EventData
  commit_started :
      (authority_hash operation_id dispatch_id deadline_ms gate_revision : ℕ) → EventData
  execution_reported : ExecutionResult → EventData
  execution_reconciled : ExecutionResult → EventData
  escalated : EscalationReason → (escalation_id : ℕ) → EventData
  escalation_delivered : (escalation_id inbox_ticket : ℕ) → EventData
  escalation_deferred : (escalation_id attempt : ℕ) → DeliveryCode → EventData
  expired : (expires_ms : ℕ) → EventData
  canceled : EventData
  invalidated : InvalidReason → EventData
  authority_changed : Authority → (previous_authority_hash : Option ℕ) → EventData

pub record EventBody : Type 0 where
  pub tenant : ℕ
  pub stream_id : ℕ
  pub receipt_id : ℕ
  pub seq : ℕ
  pub prev_hash : Option ℕ
  pub at_ms : ℕ
  pub proposal_id : Option ℕ
  pub actor_id : ℕ
  pub event_data : EventData

pub record AuditEntry : Type 0 where
  pub body : EventBody
  pub hash : ℕ
  pub key_id : ℕ
  pub signature : ℕ

pub record CheckpointBody : Type 0 where
  pub tenant : ℕ
  pub proposal_id : ℕ
  pub head_seq : ℕ
  pub head_hash : ℕ
  pub observed_ms : ℕ
  pub authority_epoch : ℕ

pub record Checkpoint : Type 0 where
  pub body : CheckpointBody
  pub key_id : ℕ
  pub signature : ℕ
