-- ===== src/Wire/Proofs.antt =====
-- Proof bundles and trust documents.
use Prim.Native.Nat.{ℕ}
use mathlib.Core.Option.{Option}
use mathlib.Core.List.{List}
use vekquorum.Wire.Policies.{Environment, Policy, Authority}
use vekquorum.Wire.Actions.{Action, Enrichment}
use vekquorum.Wire.Events.{SignedVote, AuditEntry, Checkpoint}

pub record Proof : Type 0 where
  pub action : Action
  pub policy : Policy
  pub authority : Authority
  pub enrichment : Option Enrichment
  pub votes : List SignedVote
  pub events : List AuditEntry
  pub checkpoint : Checkpoint

pub record TrustKey : Type 0 where
  pub key_id : ℕ
  pub public_key : ℕ
  pub first_seq : ℕ
  pub last_seq : Option ℕ

pub record Trust : Type 0 where
  pub tenant : ℕ
  pub executor_id : ℕ
  pub environment : Environment
  pub policy_hashes : List ℕ
  pub audit_keys : List TrustKey
