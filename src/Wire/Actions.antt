-- ===== src/Wire/Actions.antt =====
-- Actions and the evidence attached to them.
use Prim.Native.Nat.{ℕ}
use mathlib.Core.Option.{Option}
use mathlib.Core.List.{List}
use vekquorum.Wire.Values.{Json}
use vekquorum.Wire.Policies.{Environment}

pub record Precondition : Type 0 where
  pub resource : ℕ
  pub version : ℕ

pub data ForeignSystem : Type 0 where
  covenant world mint river : ForeignSystem

pub record ForeignRef : Type 0 where
  pub system : ForeignSystem
  pub profile : ℕ
  pub object_id : ℕ
  pub hash : ℕ

pub record Oversight : Type 0 where
  pub goal : ℕ
  pub human_initiator : Option ℕ
  pub trace_id : ℕ
  pub parent_receipt_hash : Option ℕ

pub data CardStatus : Type 0 where
  known partial unknown : CardStatus

pub data UndoKind : Type 0 where
  none manual : UndoKind

pub record Target : Type 0 where
  pub resource : ℕ
  pub version : ℕ
  pub digest : ℕ

pub record Card : Type 0 where
  pub status : CardStatus
  pub target : Target
  pub files : Option ℕ
  pub rows : Option ℕ
  -- the amount in minor units; the currency is always USD
  pub money : Option ℕ
  pub undo_kind : UndoKind
  pub undo_instruction : ℕ
  pub observed_ms : ℕ
  pub evidence_hash : ℕ

pub record Enrichment : Type 0 where
  pub source_action_hash : ℕ
  pub card : Card

pub record Action : Type 0 where
  pub tenant : ℕ
  pub proposal_id : ℕ
  pub operation_id : ℕ
  pub executor_id : ℕ
  pub proposer_id : ℕ
  pub environment : Environment
  pub tool : ℕ
  pub args : Json
  pub policy_hash : ℕ
  pub authority_epoch : ℕ
  pub created_ms : ℕ
  pub expires_ms : ℕ
  pub nonce : ℕ
  pub preconditions : List Precondition
  pub enrichment_hash : Option ℕ
  pub oversight : Oversight
  pub external_refs : List ForeignRef
