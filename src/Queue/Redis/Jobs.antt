-- ===== src/Queue/Redis/Jobs.antt =====
-- The ids, arguments, entries and writes that backend/services/queue_redis.py makes of a job.
use chatvector_ai.Prelude.{
  ℕ, ◌+◌, String, str_eq, Bool, true, false, not, Option, none, some, List, [], ◌∷◌, ◌++◌,
  if◌then◌else◌,
}
use chatvector_ai.Text.{codes, is_in, decimal}
use chatvector_ai.Queue.Jobs.{QueueJob, DlqEntry}
use chatvector_ai.Queue.Outcome.{
  Effect, update_document_status, set_document_status_detail, replacement_in_progress,
}
use chatvector_ai.Queue.Redis.Interface.{RqJob}

-- `f"chatvector:{doc_id}:{attempt}"`
unfoldable pub rq_job_id : String → ℕ → List ℕ
unfolding decimal
rq_job_id doc_id attempt = codes "chatvector:" ++ (codes doc_id ++ (codes ":" ++ decimal attempt))

abbrev pub payload_missing : String
payload_missing = "job_payload_missing"

abbrev pub payload_unreadable : String
payload_unreadable = "job_payload_unreadable"

-- `if tenant_id`
unfoldable pub is_set : Option String → Bool
is_set none = false
is_set (some t) = not (str_eq t "")

unfoldable pub dead_letter : RqJob → List ℕ → DlqEntry
dead_letter job error = record {
  doc_id = job.doc_id;
  file_name = job.file_name;
  content_type = job.content_type;
  attempt = job.attempt;
  error = error;
  tenant_id = job.tenant_id;
}

-- The arguments with which `_sync_enqueue` hands a job to RQ.
unfoldable pub rq_job : QueueJob → String → RqJob
rq_job job artifact_uri = record {
  doc_id = job.doc_id;
  file_name = job.file_name;
  content_type = job.content_type;
  artifact_uri = artifact_uri;
  attempt = job.attempt;
  tenant_id = job.tenant_id;
  replace = job.replace;
  metadata = job.metadata;
}

-- The status write before the sleep: `{"attempt": next_attempt + 1}`.
unfoldable pub retrying_effect : RqJob → Effect
retrying_effect job =
    if job.replace
    then set_document_status_detail job.doc_id replacement_in_progress (some (job.attempt + 1))
    else update_document_status job.doc_id "retrying" (some (job.attempt + 1))

unfoldable pub position_from : ℕ → List ℕ → List (List ℕ) → Option ℕ
unfolding is_in
position_from i doc_id [] = none
position_from i doc_id (jid ∷ jids) =
    if is_in doc_id jid then some (i + 1) else position_from (i + 1) doc_id jids

-- The failed documents that a job id mentions: `for doc_id in failed_doc_ids: if doc_id in jid`.
unfoldable pub mentions_any : List String → List ℕ → Bool
mentions_any [] jid = false
mentions_any (doc_id ∷ doc_ids) jid =
    if is_in (codes doc_id) jid then true else mentions_any doc_ids jid
