-- ===== src/Queue/Outcome.antt =====
-- What the queue writes to a document's row when an attempt is retried or ends the ingestion
-- (backend/services/ingestion_outcome.py, backend/services/queue_asyncio.py).
use chatvector_ai.Prelude.{ℕ, ◌+◌, String, Bool, Option, none, some, List, [], ◌∷◌, if◌then◌else◌}
use chatvector_ai.Queue.Jobs.{QueueJob}

-- The calls that leave the queue: `update_document_status`, `set_document_status_detail` (each with
-- the attempt that it records, if any), and `notify_ingestion_terminal`.
pub data Effect : Type 0 where
  update_document_status : (doc_id status : String) → Option ℕ → Effect
  set_document_status_detail : (doc_id detail : String) → Option ℕ → Effect
  notify_failed : (doc_id : String) → Effect

abbrev pub replacement_in_progress : String
replacement_in_progress = "replacement_in_progress"

abbrev pub replacement_failed : String
replacement_failed = "replacement_failed"

-- Marks the next attempt: `{"attempt": job.attempt + 1}` after `job.attempt` was raised.
unfoldable pub retrying_effect : QueueJob → Effect
retrying_effect job =
    if job.replace
    then set_document_status_detail job.doc_id replacement_in_progress (some (job.attempt + 1))
    else update_document_status job.doc_id "retrying" (some (job.attempt + 1))

-- `record_terminal_ingestion_failure`
unfoldable pub record_terminal_ingestion_failure : Bool → String → Bool → List Effect
record_terminal_ingestion_failure webhook_enabled doc_id replace =
    (if replace
      then set_document_status_detail doc_id replacement_failed none
      else update_document_status doc_id "failed" none)
    ∷ (if webhook_enabled then notify_failed doc_id ∷ [] else [])

-- `record_retrying_ingestion_attempt`
unfoldable pub record_retrying_ingestion_attempt : String → Bool → Effect
record_retrying_ingestion_attempt doc_id replace =
    if replace
    then set_document_status_detail doc_id replacement_in_progress none
    else update_document_status doc_id "retrying" none
