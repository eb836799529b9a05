-- ===== src/Failures/Examples.antt =====
-- Judged failures (backend/utils/retry.py, backend/services/ingestion_outcome.py).
use chatvector_ai.Prelude.{◌≡◌, refl, true}
use chatvector_ai.Text.{codes}
use chatvector_ai.Failures.{
  is_retryable_ingestion_failure, is_transient_message, timeout_error, other_error,
  is_transient_error, ingestion_failure_is_terminal,
}

quota_is_transient : is_transient_error (other_error (codes "Quota exceeded")) ≡ true
unfolding is_transient_error is_transient_message
quota_is_transient = refl

third_failure : ingestion_failure_is_terminal 3 timeout_error 3 ≡ true
unfolding ingestion_failure_is_terminal is_retryable_ingestion_failure is_transient_error
third_failure = refl
