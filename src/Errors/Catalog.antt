-- ===== src/Errors/Catalog.antt =====
-- The status tables of errors.py (python/vekquorum/errors.py): `CATALOG` with `http_status` and
-- `is_retryable`, and `exit_code_for`.
use vekquorum.Prelude.{ℕ, ◌≡◌, ◌⊎◌, ◌↔◌, inl, refl, Bool, true, false, arith}
use vekquorum.Errors.{Code}

-- a code that is not in the catalog has the status 500
unfoldable pub http_status : Code → ℕ
http_status Code.malformed_json = 400
http_status Code.duplicate_key = 400
http_status Code.invalid_utf8 = 400
http_status Code.unknown_field = 400
http_status Code.schema_invalid = 400
http_status Code.invalid_id = 400
http_status Code.number_profile = 400
http_status Code.invalid_key = 400
http_status Code.invalid_signature_encoding = 400
http_status Code.unauthenticated = 401
http_status Code.forbidden = 403
http_status Code.tenant_mismatch = 403
http_status Code.untrusted = 403
http_status Code.not_found = 404
http_status Code.method_not_allowed = 405
http_status Code.revision_conflict = 409
http_status Code.epoch_conflict = 409
http_status Code.idempotency_conflict = 409
http_status Code.policy_version_conflict = 409
http_status Code.vote_conflict = 409
http_status Code.state_conflict = 409
http_status Code.operation_consumed = 409
http_status Code.nonce_reused = 409
http_status Code.active_operation = 409
http_status Code.equivocation = 409
http_status Code.expired = 410
http_status Code.proof_pruned = 410
http_status Code.body_too_large = 413
http_status Code.proof_too_large = 413
http_status Code.unsupported_media_type = 415
http_status Code.hash_mismatch = 422
http_status Code.bad_signature = 422
http_status Code.policy_invalid = 422
http_status Code.unknown_tool = 422
http_status Code.key_not_enrolled = 422
http_status Code.key_revoked = 422
http_status Code.action_mutated = 422
http_status Code.quorum_not_met = 422
http_status Code.precondition_changed = 422
http_status Code.trust_mismatch = 422
http_status Code.delivery_limit = 422
http_status Code.version_unsupported = 426
http_status Code.rate_limited = 429
http_status Code.storage_unavailable = 503
http_status Code.gate_unavailable = 503
http_status Code.coordinator_busy = 503
http_status Code.clock_unsafe = 503
http_status Code.adapter_unavailable = 503
http_status Code.restore_unsafe = 503
http_status Code.hosted_unavailable = 501
http_status _ = 500

unfoldable pub is_retryable : Code → Bool
is_retryable Code.revision_conflict = true
is_retryable Code.epoch_conflict = true
is_retryable Code.rate_limited = true
is_retryable Code.storage_unavailable = true
is_retryable Code.gate_unavailable = true
is_retryable Code.coordinator_busy = true
is_retryable Code.clock_unsafe = true
is_retryable Code.adapter_unavailable = true
is_retryable _ = false

-- `exit_code_for`; the codes that end with "_CONFLICT" give 5, and those that end with
-- "_UNAVAILABLE" give 7
unfoldable pub exit_code_for : Code → ℕ
exit_code_for Code.malformed_json = 2
exit_code_for Code.duplicate_key = 2
exit_code_for Code.invalid_utf8 = 2
exit_code_for Code.unknown_field = 2
exit_code_for Code.schema_invalid = 2
exit_code_for Code.invalid_id = 2
exit_code_for Code.number_profile = 2
exit_code_for Code.usage = 2
exit_code_for Code.config_invalid = 2
exit_code_for Code.hash_mismatch = 3
exit_code_for Code.bad_signature = 3
exit_code_for Code.invalid_signature_encoding = 3
exit_code_for Code.invalid_key = 3
exit_code_for Code.untrusted = 3
exit_code_for Code.proof_pruned = 3
exit_code_for Code.quorum_not_met = 4
exit_code_for Code.revision_conflict = 5
exit_code_for Code.epoch_conflict = 5
exit_code_for Code.idempotency_conflict = 5
exit_code_for Code.policy_version_conflict = 5
exit_code_for Code.vote_conflict = 5
exit_code_for Code.state_conflict = 5
exit_code_for Code.operation_consumed = 5
exit_code_for Code.nonce_reused = 5
exit_code_for Code.active_operation = 5
exit_code_for Code.equivocation = 5
exit_code_for Code.unauthenticated = 6
exit_code_for Code.forbidden = 6
exit_code_for Code.tenant_mismatch = 6
exit_code_for Code.rate_limited = 7
exit_code_for Code.storage_unavailable = 7
exit_code_for Code.gate_unavailable = 7
exit_code_for Code.adapter_unavailable = 7
exit_code_for Code.hosted_unavailable = 7
exit_code_for Code.coordinator_busy = 7
exit_code_for Code.clock_unsafe = 7
exit_code_for Code.restore_unsafe = 7
exit_code_for Code.not_implemented = 7
exit_code_for Code.effect_unknown = 8
exit_code_for Code.execution_failed = 9
exit_code_for _ = 1

-- a conflict in each table
exit-conflict : (c : Code) → exit_code_for c ≡ 5 → http_status c ≡ 409
unfolding exit_code_for http_status
exit-conflict Code.revision_conflict h = refl
exit-conflict _ h = ground arith

conflict-exit : (c : Code) → http_status c ≡ 409 → exit_code_for c ≡ 5
unfolding exit_code_for http_status
conflict-exit Code.revision_conflict h = refl
conflict-exit _ h = ground arith

-- The exit status is 5 exactly for the codes with the HTTP status 409.
pub exit_code_for-http_status : (c : Code) → (exit_code_for c ≡ 5) ↔ (http_status c ≡ 409)
exit_code_for-http_status c = (exit-conflict c, conflict-exit c)

-- A failure that may be tried again exits with 5 or 7.
pub retryable-exit :
    (c : Code) → is_retryable c ≡ true → (exit_code_for c ≡ 5) ⊎ (exit_code_for c ≡ 7)
unfolding exit_code_for is_retryable
retryable-exit Code.revision_conflict h = inl refl
retryable-exit _ h = ground arith
