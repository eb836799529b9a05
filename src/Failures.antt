-- ===== src/Failures.antt =====
-- Which failures are transient (backend/utils/retry.py, `is_transient_error`) and which end an
-- ingestion job (backend/services/ingestion_outcome.py, `ingestion_failure_is_terminal`).
pub mod Patterns
mod Examples
use chatvector_ai.Text.{codes, lower, starts_with, is_in}
use chatvector_ai.Prelude.{
  ℕ, ◌+◌, String, Bool, true, false, not, ◌&&◌, ◌||◌, Option, none, some, List, [], ◌∷◌, map, leb,
  ltb, ◌==◌, if◌then◌else◌,
}

abbrev pub transient_patterns : List (List ℕ)
transient_patterns =
    codes "timeout"
    ∷ codes "connection"
    ∷ codes "deadlock"
    ∷ codes "temporarily"
    ∷ codes "too many clients"
    ∷ codes "network"
    ∷ codes "reset"
    ∷ codes "broken pipe"
    ∷ codes "unavailable"
    ∷ codes "quota"
    ∷ codes "resource_exhausted"
    ∷ codes "rate limit"
    ∷ []

-- The exceptions by the classes that the code tests for, in the order in which it tests. `message`
-- is `str(exc)`. A `StatementError` has the driver's exception as `orig`, or none; that of the
-- driver is of the three classes that are never retried, or another with its own message.
pub data Orig : Type 0 where
  orig_rejected : Orig
  orig_other : (message : List ℕ) → Orig

pub data Exc : Type 0 where
  timeout_error : Exc
  provider_rate_limit provider_timeout provider_connection : (message : List ℕ) → Exc
  provider_auth provider_error : (message : List ℕ) → Exc
  integrity_error data_error programming_error : (message : List ℕ) → Exc
  statement_error : Option Orig → (message : List ℕ) → Exc
  upload_error : (status_code : ℕ) (message : List ℕ) → Exc
  other_error : (message : List ℕ) → Exc

matches_any : List (List ℕ) → List ℕ → Bool
unfolding is_in
matches_any [] s = false
matches_any (p ∷ ps) s = is_in p s || matches_any ps s

-- the loop over TRANSIENT_DB_ERROR_PATTERNS
unfoldable pub is_transient_message : List ℕ → Bool
unfolding matches_any lower
is_transient_message message = matches_any transient_patterns (map lower message)

-- A `DBAPIError` is a `StatementError`, so the branch that tests for it is never taken.
unfoldable pub is_transient_error : Exc → Bool
is_transient_error timeout_error = true
is_transient_error (provider_rate_limit m) = true
is_transient_error (provider_timeout m) = true
is_transient_error (provider_connection m) = true
is_transient_error (provider_auth m) = false
is_transient_error (provider_error m) = false
is_transient_error (integrity_error m) = false
is_transient_error (data_error m) = false
is_transient_error (programming_error m) = false
is_transient_error (statement_error (some orig_rejected) m) = false
is_transient_error (statement_error (some (orig_other n)) m) = is_transient_message n
is_transient_error (statement_error none m) = is_transient_message m
is_transient_error (upload_error c m) = is_transient_message m
is_transient_error (other_error m) = is_transient_message m

-- `is_retryable_ingestion_failure` (backend/services/queue_base.py)
unfoldable pub is_retryable_ingestion_failure : Exc → Bool
is_retryable_ingestion_failure = is_transient_error

-- `isinstance(exc, UploadPipelineError) and 400 <= exc.status_code < 500`
unfoldable pub is_client_error : Exc → Bool
is_client_error (upload_error c m) = leb 400 c && ltb c 500
is_client_error e = false

-- `max_retries` is `config.QUEUE_JOB_MAX_RETRIES`.
unfoldable pub ingestion_failure_is_terminal : ℕ → Exc → ℕ → Bool
unfolding is_client_error
ingestion_failure_is_terminal max_retries exc attempt =
    if is_client_error exc
    then true
    else if not (is_retryable_ingestion_failure exc)
    then true
    else leb max_retries attempt
