-- ===== src/Errors/Tests.antt =====
-- The exit status of a revision conflict.
use vekquorum.Prelude.{◌≡◌, ◌↔◌, ◌⊎◌, refl, true}
use vekquorum.Errors.{Code}
use vekquorum.Errors.Catalog.{
  exit_code_for, http_status, exit_code_for-http_status, is_retryable, retryable-exit,
}

exit_code_for-http_status_example :
    (exit_code_for Code.revision_conflict ≡ 5) ↔ (http_status Code.revision_conflict ≡ 409)
exit_code_for-http_status_example = exit_code_for-http_status Code.revision_conflict

is_retried : is_retryable Code.rate_limited ≡ true
unfolding is_retryable
is_retried = refl

retryable-exit_example :
    (exit_code_for Code.rate_limited ≡ 5) ⊎ (exit_code_for Code.rate_limited ≡ 7)
retryable-exit_example = retryable-exit Code.rate_limited is_retried
