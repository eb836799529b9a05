-- ===== src/Queue/Jobs.antt =====
-- The data that the queue backends share (backend/services/queue_base.py), and the settings that
-- they read (backend/core/config.py). Timestamps are left out.
use chatvector_ai.Prelude.{ℕ, String, Bool, Option, List}

pub record QueueJob : Type 0 where
  pub doc_id : String
  pub file_name : String
  pub content_type : String
  pub file_bytes : List ℕ
  pub tenant_id : Option String
  pub attempt : ℕ
  pub replace : Bool
  pub metadata : Option (List (String × String))

-- A dead letter keeps no file bytes.
pub record DlqEntry : Type 0 where
  pub doc_id : String
  pub file_name : String
  pub content_type : String
  pub attempt : ℕ
  pub error : List ℕ
  pub tenant_id : Option String

-- QUEUE_MAX_SIZE, QUEUE_DLQ_MAX_ENTRIES, QUEUE_JOB_MAX_RETRIES, WEBHOOK_ENABLED, and the message
-- "Ingestion queue is at capacity (…)", which shows the first.
pub record Settings : Type 0 where
  pub max_size : ℕ
  pub dlq_max_entries : ℕ
  pub job_max_retries : ℕ
  pub webhook_enabled : Bool
  pub queue_full_message : List ℕ
