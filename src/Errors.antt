-- ===== src/Errors.antt =====
-- errors.py (python/vekquorum/errors.py): the stable codes, their HTTP status and exit status.
pub mod Catalog
mod Tests

pub data Code : Type 0 where
  malformed_json duplicate_key invalid_utf8 unknown_field schema_invalid invalid_id : Code
  number_profile invalid_key invalid_signature_encoding unauthenticated forbidden : Code
  tenant_mismatch untrusted not_found method_not_allowed revision_conflict epoch_conflict : Code
  idempotency_conflict policy_version_conflict vote_conflict state_conflict : Code
  operation_consumed nonce_reused active_operation equivocation expired proof_pruned : Code
  body_too_large proof_too_large unsupported_media_type hash_mismatch bad_signature : Code
  policy_invalid unknown_tool key_not_enrolled key_revoked action_mutated quorum_not_met : Code
  precondition_changed trust_mismatch delivery_limit version_unsupported rate_limited : Code
  storage_unavailable gate_unavailable coordinator_busy clock_unsafe adapter_unavailable : Code
  restore_unsafe hosted_unavailable : Code
  missing_evidence chain_break checkpoint_mismatch illegal_transition : Code
  rejected unavailable usage config_invalid not_implemented effect_unknown execution_failed : Code
