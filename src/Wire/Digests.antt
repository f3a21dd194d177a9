-- ===== src/Wire/Digests.antt =====
-- What the rest of the program asks of canon.py, hashing.py and ed25519.py: the digests
-- `H(kind, value)`, one function for each kind, the signed messages `signing_message(kind, value)`,
-- the strict Ed25519 operations, which raise or return nothing, and the test `TOOL_RE.match` of
-- the text that a tool's number stands for.
use Prim.Native.Nat.{ℕ}
use mathlib.Core.Bool.{Bool}
use mathlib.Core.Logic.{◌≢◌}
use vekquorum.Prelude.Results.{Result, err, fault}
use vekquorum.Wire.Policies.{Policy, Authority}
use vekquorum.Wire.Actions.{Action, Enrichment}
use vekquorum.Wire.Events.{VoteBody, EventBody, CheckpointBody}
use vekquorum.Wire.Proofs.{Proof}

pub record Digests : Type 0 where
  pub hash_action : Action → ℕ
  pub hash_policy : Policy → ℕ
  pub hash_authority : Authority → ℕ
  pub hash_enrichment : Enrichment → ℕ
  pub hash_vote : VoteBody → ℕ
  pub hash_event : EventBody → ℕ
  pub hash_bundle : Proof → ℕ
  pub vote_message : VoteBody → ℕ
  pub event_message : EventBody → ℕ
  pub checkpoint_message : CheckpointBody → ℕ
  pub ed_sign : (seed message : ℕ) → ℕ
  pub ed_verify : (public_key signature message : ℕ) → Result (Unit {0})
  pub validate_enrollment_key : (public_key : ℕ) → Result (Unit {0})
  pub is_tool_name : (tool : ℕ) → Bool

-- The Ed25519 operations raise no exception but a `VQError`.
pub record RaisesOnlyVq (d : Digests) : Type 0 where
  pub of_verify : (k s m : ℕ) → d.ed_verify k s m ≢ err fault
  pub of_enrollment : (k : ℕ) → d.validate_enrollment_key k ≢ err fault
