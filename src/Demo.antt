-- ===== src/Demo.antt =====
-- Toy digests and signatures, and the policy, action and votes of a refund, for the tests.
use vekquorum.Prelude.{ℕ, ◌+◌, Bool, true, none, [], ◌∷◌, ◌==◌, Result, ok, err, vq, if◌then◌else◌}
use vekquorum.Errors.{bad_signature, invalid_key}
use vekquorum.Wire.{Json, Environment, MemberKind, Policy, Action, Decision, SignedVote}
use vekquorum.Wire.Digests.{Digests}

-- A toy signature is the sum of the key and the message.
abbrev pub toy_verify : ℕ → ℕ → ℕ → Result (Unit {0})
toy_verify k s m = if s == k + m then ok tt else err (vq bad_signature)

abbrev pub toy_enrollment : ℕ → Result (Unit {0})
toy_enrollment k = if k == 0 then err (vq invalid_key) else ok tt

abbrev pub toy : Digests
toy = record {
  hash_action = λ a. 1000 + a.proposal_id;
  hash_policy = λ p. 2000 + p.policy_id;
  hash_authority = λ a. 3000 + a.epoch;
  hash_enrichment = λ e. 4000 + e.source_action_hash;
  hash_vote = λ v. 5000 + v.key_id;
  hash_event = λ b. 6000 + b.seq;
  hash_bundle = λ p. 7000;
  vote_message = λ v. 10 + v.key_id;
  event_message = λ b. 20 + b.seq;
  checkpoint_message = λ c. 30 + c.head_seq;
  ed_sign = λ k m. k + m;
  ed_verify = toy_verify;
  validate_enrollment_key = toy_enrollment;
  is_tool_name = λ t. true;
}

abbrev pub demo_policy : Policy
demo_policy = record {
  tenant = 1;
  policy_id = 1;
  version = 1;
  executor_id = 2;
  environment = Environment.test;
  tool = 3;
  threshold = 2;
  roster =
      (record { key_id = 21; principal_id = 31; kind = MemberKind.human; public_key = 41 })
      ∷ (record { key_id = 22; principal_id = 32; kind = MemberKind.agent; public_key = 42 })
      ∷ [];
  require_human = true;
  max_ttl_ms = 60000;
  enrichment_required = Bool.false;
}

abbrev pub demo_action : Action
demo_action = record {
  tenant = 1;
  proposal_id = 5;
  operation_id = 6;
  executor_id = 2;
  proposer_id = 7;
  environment = Environment.test;
  tool = 3;
  args = Json.null;
  policy_hash = 2001;
  authority_epoch = 1;
  created_ms = 100;
  expires_ms = 9000;
  nonce = 8;
  preconditions = [];
  enrichment_hash = none;
  oversight = record { goal = 9; human_initiator = none; trace_id = 9; parent_receipt_hash = none };
  external_refs = [];
}

abbrev pub demo_vote : ℕ → Decision → SignedVote
demo_vote k choice = record {
  body = record { action_hash = 1005; policy_hash = 2001; key_id = k; decision = choice };
  signature = (k + 20) + (10 + k);
}
