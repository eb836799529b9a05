-- ===== src/Queue/Redis.antt =====
-- The Redis ingestion queue, function by function (backend/services/queue_redis.py). Starting and
-- stopping the worker threads is not modelled.
pub mod Interface
pub mod Jobs
pub mod Submit
pub mod Artifacts
use chatvector_ai.Prelude.{
  ℕ, zero, suc, ◌+◌, ◌/◌, ◌%◌, String, str_eq, Bool, true, false, not, ◌&&◌, Option, none, some,
  List, [], ◌∷◌, ◌++◌, ltb, leb, length, if◌then◌else◌,
}
use chatvector_ai.Text.{codes, is_in, decimal}
use chatvector_ai.Failures.{Exc, ingestion_failure_is_terminal}
use chatvector_ai.Queue.Jobs.{QueueJob, DlqEntry, Settings}
use chatvector_ai.Queue.Outcome.{
  Effect, update_document_status, set_document_status_detail, replacement_in_progress,
  record_terminal_ingestion_failure,
}
use chatvector_ai.Queue.Asyncio.{message_of}
use chatvector_ai.Queue.Redis.Interface.{
  RqJob, Fetched, found, artifact_missing, artifact_unreadable, fetch_failed, Services,
}
use chatvector_ai.Queue.Redis.Jobs.{
  dead_letter, is_set, mentions_any, payload_missing, payload_unreadable, position_from,
  retrying_effect, rq_job, rq_job_id,
}

-- How an attempt goes on: it is over, or it sleeps before the next one.
pub data Progress : Type 0 where
  over : Progress
  sleeping : RqJob → Progress

-- How `enqueue` ends: QueueFull, an exception of the storage or of RQ, or the position and the URI.
pub data Enqueued : Type 0 where
  queue_full : Enqueued
  put_failed : Enqueued
  rq_failed : Enqueued
  accepted : ℕ → String → Enqueued

-- Redis, the artifact storage, and the calls of the database and the webhook, newest last; those of
-- `set_document_artifact_uri` are apart.
pub record RedisQueue (r : Services) : Type 0 where
  pub server : r.Server
  pub storage : r.Storage
  pub effects : List Effect
  pub artifact_uris : List (String × Option String)

module _ (r : Services) where
  emit : List Effect → RedisQueue r → RedisQueue r
  emit es s = record s { effects = s.effects ++ es }

  -- `set_document_artifact_uri` if there is a tenant; if it raises, the error is logged.
  note_artifact_uri : Bool → String → Option String → Option String → RedisQueue r → RedisQueue r
  note_artifact_uri written doc_id tenant_id uri s =
      if is_set tenant_id && written
      then record s { artifact_uris = s.artifact_uris ++ (doc_id, uri) ∷ [] }
      else s

  -- `_push_dlq_entry`
  unfoldable pub push_dlq_entry : Settings → DlqEntry → RedisQueue r → RedisQueue r
  push_dlq_entry c entry s = elim (r.push_and_trim entry c.dlq_max_entries s.server) [
    | none ↦ s
    | some v ↦ record s { server = v }
  ]

  -- `_cleanup_artifact`
  unfoldable pub cleanup_artifact : Bool → RqJob → RedisQueue r → RedisQueue r
  unfolding note_artifact_uri is_set
  cleanup_artifact written job s =
      note_artifact_uri written job.doc_id job.tenant_id none
        (elim (r.delete job.artifact_uri s.storage) [
          | none ↦ s
          | some stored ↦ record s { storage = stored }
        ])

  -- `_record_missing_artifact_failure`
  record_missing_artifact_failure : Settings → Bool → RqJob → RedisQueue r → RedisQueue r
  unfolding emit is_set
  record_missing_artifact_failure c written job s =
      emit
        (if is_set job.tenant_id && written
          then record_terminal_ingestion_failure c.webhook_enabled job.doc_id job.replace
          else [])
        s

  -- Both branches of `_async_execute_job` that give a job up after the pipeline.
  unfoldable pub give_up : Settings → Exc → Bool → RqJob → RedisQueue r → Progress × RedisQueue r
  unfolding push_dlq_entry cleanup_artifact dead_letter message_of
  give_up c exc written job s =
      (over, push_dlq_entry c (dead_letter job (message_of exc)) (cleanup_artifact written job s))

  -- `except Exception` up to `asyncio.sleep`
  unfoldable pub fail_attempt :
      Settings → Exc → Bool → RqJob → RedisQueue r → Progress × RedisQueue r
  unfolding give_up emit retrying_effect
  fail_attempt c exc written job s =
      if ingestion_failure_is_terminal c.job_max_retries exc job.attempt
      then give_up c exc written job s
      else if ltb job.attempt c.job_max_retries
      then (let again = record job { attempt = job.attempt + 1 } in
          (sleeping again, emit (if written then retrying_effect again ∷ [] else []) s))
      else give_up c exc written job s

  -- `_async_execute_job` up to `asyncio.sleep`. `run` is the pipeline on the fetched bytes, which
  -- raises or not; `written` says whether the status write of the branch taken succeeds.
  unfoldable pub execute_job :
      Settings → (List ℕ → Option Exc) → Bool → RqJob → RedisQueue r → Progress × RedisQueue r
  unfolding push_dlq_entry cleanup_artifact record_missing_artifact_failure dead_letter fail_attempt
  execute_job c run written job s = elim (r.get job.artifact_uri s.storage) [
    | found bytes ↦ elim (run bytes) [
      | none ↦ (over, cleanup_artifact written job s)
      | some exc ↦ fail_attempt c exc written job s
    ]
    | artifact_missing ↦ (
      over,
      push_dlq_entry c (dead_letter job (codes payload_missing))
          (record_missing_artifact_failure c written job s),
    )
    | artifact_unreadable ↦ (
      over,
      push_dlq_entry c (dead_letter job (codes payload_unreadable))
          (record_missing_artifact_failure c written job s),
    )
    | fetch_failed exc ↦ fail_attempt c exc written job s
  ]

  -- `_async_execute_job` from the end of the sleep on, with the attempt already raised. An exception
  -- of `enqueue` leaves the function.
  unfoldable pub requeue_job : Settings → Bool → RqJob → RedisQueue r → RedisQueue r
  unfolding emit push_dlq_entry dead_letter is_set rq_job_id
  requeue_job c written job s =
      if leb c.max_size (length (r.job_ids s.server))
      then push_dlq_entry c (dead_letter job c.queue_full_message) (
          emit
            (if is_set job.tenant_id && written
              then record_terminal_ingestion_failure c.webhook_enabled job.doc_id job.replace
              else [])
            s)
      else elim (r.rq_enqueue (rq_job_id job.doc_id job.attempt) job s.server) [
        | none ↦ s
        | some v ↦ record s { server = v }
      ]

  -- `queue_position`
  unfoldable pub queue_position : String → RedisQueue r → Option ℕ
  unfolding position_from
  queue_position doc_id s = position_from 0 (codes doc_id) (r.job_ids s.server)

  -- `position if position is not None else 1`
  unfoldable pub position_or_one : String → RedisQueue r → ℕ
  unfolding queue_position
  position_or_one doc_id s = elim (queue_position doc_id s) [ none ↦ 1 | some i ↦ i ]

  -- The rollback of the artifact where RQ raises.
  unfoldable pub roll_back : String → RedisQueue r → RedisQueue r
  roll_back uri s = elim (r.delete uri s.storage) [
    | none ↦ s
    | some stored ↦ record s { storage = stored }
  ]

  -- `_sync_enqueue`
  unfoldable pub sync_enqueue : Settings → QueueJob → RedisQueue r → Enqueued × RedisQueue r
  unfolding position_or_one roll_back rq_job rq_job_id
  sync_enqueue c job s =
      if leb c.max_size (length (r.job_ids s.server))
      then (queue_full, s)
      else elim (r.put job.doc_id job.file_bytes s.storage) [
        | none ↦ (put_failed, s)
        | some (uri, stored) ↦
            let t = record s { storage = stored } in
            elim (r.rq_enqueue (rq_job_id job.doc_id job.attempt) (rq_job job uri) s.server) [
              | none ↦ (rq_failed, roll_back uri t)
              | some v ↦
                  let u = record t { server = v } in
                  (accepted (position_or_one job.doc_id u) uri, u)
            ]
      ]

  -- `enqueue` after `_sync_enqueue`
  unfoldable pub persist_uri : Bool → QueueJob → Enqueued × RedisQueue r → Enqueued × RedisQueue r
  unfolding note_artifact_uri is_set
  persist_uri written job (accepted position uri, t) =
      (accepted position uri, note_artifact_uri written job.doc_id job.tenant_id (some uri) t)
  persist_uri written job (ended, t) = (ended, t)

  -- `enqueue`
  unfoldable pub enqueue : Settings → Bool → QueueJob → RedisQueue r → Enqueued × RedisQueue r
  unfolding sync_enqueue persist_uri
  enqueue c written job s = persist_uri written job (sync_enqueue c job s)

  -- `clear_stale_jobs` on the ids read at its start, with the count of the jobs removed.
  clear_ids : List String → List (List ℕ) → RedisQueue r → ℕ × RedisQueue r
  unfolding mentions_any
  clear_ids failed [] s = (0, s)
  clear_ids failed (jid ∷ jids) s =
      let kept = clear_ids failed jids s in
      if mentions_any failed jid
      then elim (r.remove_job jid s.server) [
        | none ↦ kept
        | some v ↦ let (n, t) = clear_ids failed jids (record s { server = v }) in (n + 1, t)
      ]
      else kept

  unfoldable pub clear_stale_jobs : List String → RedisQueue r → ℕ × RedisQueue r
  unfolding clear_ids
  clear_stale_jobs failed s = clear_ids failed (r.job_ids s.server) s
