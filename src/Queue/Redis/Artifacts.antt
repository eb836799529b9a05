-- ===== src/Queue/Redis/Artifacts.antt =====
-- What becomes of a job's stored upload (backend/services/queue_redis.py, `_cleanup_artifact` and its
-- callers).
use chatvector_ai.Prelude.{
  le→leb, ◌≤◌, ℕ, ◌≡◌, refl, Bool, Option, some, List, leb, ltb, length, Bool-cases, Option-cases,
  ◌&&◌, inl, inr, ◌∙◌,
}
use chatvector_ai.Failures.{Exc, ingestion_failure_is_terminal}
use chatvector_ai.Queue.Jobs.{Settings, DlqEntry}
use chatvector_ai.Queue.Asyncio.{message_of}
use chatvector_ai.Queue.Redis.{
  give_up, RedisQueue, Progress, over, sleeping, push_dlq_entry, cleanup_artifact, execute_job,
  fail_attempt, requeue_job,
}
use chatvector_ai.Queue.Redis.Jobs.{rq_job_id, dead_letter, is_set}
use chatvector_ai.Queue.Redis.Interface.{RqJob, Services, found}

module _ (r : Services) where
  push_dlq_entry-storage :
      (c : Settings) (entry : DlqEntry) (s : RedisQueue r)
      → (push_dlq_entry r c entry s).storage ≡ s.storage
  unfolding push_dlq_entry
  push_dlq_entry-storage c entry s =
      elim (Option-cases (r.push_and_trim entry c.dlq_max_entries s.server)) [
        | inl e ↦ rw (e, push_dlq_entry) refl
        | inr (v, e) ↦ rw (e, push_dlq_entry) refl
      ]

  cleanup_artifact-storage :
      (written : Bool) (job : RqJob) (s : RedisQueue r) (stored : r.Storage)
      → r.delete job.artifact_uri s.storage ≡ some stored
      → (cleanup_artifact r written job s).storage ≡ stored
  unfolding cleanup_artifact
  cleanup_artifact-storage written job s stored d =
      elim (Bool-cases (is_set job.tenant_id && written)) [
        | inl noted ↦ rw (d, noted) refl
        | inr quiet ↦ rw (d, quiet) refl
      ]

  requeue_job-storage :
      (c : Settings) (written : Bool) (job : RqJob) (s : RedisQueue r)
      → (requeue_job r c written job s).storage ≡ s.storage
  unfolding requeue_job
  requeue_job-storage c written job s =
      elim (Bool-cases (leb c.max_size (length (r.job_ids s.server)))) [
        | inl full ↦ rw full (push_dlq_entry-storage c (dead_letter job c.queue_full_message) _)
        | inr room ↦
            elim (Option-cases (r.rq_enqueue (rq_job_id job.doc_id job.attempt) job s.server)) [
              | inl e ↦ rw (room, e) refl
              | inr (v, e) ↦ rw (room, e) refl
            ]
      ]

  requeue_job_full :
      (c : Settings) (written : Bool) (job : RqJob) (s : RedisQueue r)
      → c.max_size ≤ length (r.job_ids s.server)
      → (t : RedisQueue r) × (requeue_job r c written job s
          ≡ push_dlq_entry r c (dead_letter job c.queue_full_message) t)
        × (t.storage ≡ s.storage)
        × (t.artifact_uris ≡ s.artifact_uris)
  unfolding requeue_job
  requeue_job_full c written job s h = rw (le→leb _ _ h, requeue_job) (_, refl, refl, refl)

  give_up-storage :
      (c : Settings) (exc : Exc) (written : Bool) (job : RqJob) (s : RedisQueue r)
      (stored : r.Storage)
      → r.delete job.artifact_uri s.storage ≡ some stored
      → ((give_up r c exc written job s).0 ≡ over)
        × ((give_up r c exc written job s).1.storage ≡ stored)
  unfolding give_up
  give_up-storage c exc written job s stored d = (
    refl,
    push_dlq_entry-storage c (dead_letter job (message_of exc)) (cleanup_artifact r written job s)
        ∙ cleanup_artifact-storage written job s stored d,
  )

  -- The upload is deleted where the job is over, and kept where it sleeps.
  abbrev pub IsSettled : r.Storage → r.Storage → Progress × RedisQueue r → Type 0
  IsSettled before deleted (over, t) = t.storage ≡ deleted
  IsSettled before deleted (sleeping again, t) = t.storage ≡ before

  fail_attempt-IsSettled :
      (c : Settings) (exc : Exc) (written : Bool) (job : RqJob) (s : RedisQueue r)
      (stored : r.Storage)
      → r.delete job.artifact_uri s.storage ≡ some stored
      → IsSettled s.storage stored (fail_attempt r c exc written job s)
  unfolding fail_attempt give_up
  fail_attempt-IsSettled c exc written job s stored d =
      elim (Bool-cases (ingestion_failure_is_terminal c.job_max_retries exc job.attempt)) [
        | inl dead ↦ rw dead (give_up-storage c exc written job s stored d).1
        | inr again ↦ elim (Bool-cases (ltb job.attempt c.job_max_retries)) [
          | inl left ↦ rw (again, left) refl
          | inr spent ↦ rw (again, spent) (give_up-storage c exc written job s stored d).1
        ]
      ]

  -- If the upload can be read and deleted, and the queue is full when the sleep of an attempt is over: an
  -- attempt that ends deletes the upload and one that sleeps keeps it, but the job that finds the queue
  -- full is put to the dead letters with its upload still stored and its artifact URI still recorded.
  pub artifact_lem :
      (c : Settings) (run : List ℕ → Option Exc) (written : Bool) (job : RqJob) (s u : RedisQueue r)
      (bytes : List ℕ) (stored : r.Storage)
      → r.get job.artifact_uri s.storage ≡ found bytes
      → r.delete job.artifact_uri s.storage ≡ some stored
      → c.max_size ≤ length (r.job_ids u.server)
      → IsSettled s.storage stored (execute_job r c run written job s)
        × ((requeue_job r c written job u).storage ≡ u.storage)
        × ((t : RedisQueue r) × (requeue_job r c written job u
              ≡ push_dlq_entry r c (dead_letter job c.queue_full_message) t)
            × (t.storage ≡ u.storage)
            × (t.artifact_uris ≡ u.artifact_uris))
  unfolding execute_job
  artifact_lem c run written job s u bytes stored g d full = (
    elim (Option-cases (run bytes)) [
      | inl fine ↦ rw (g, execute_job, fine) (cleanup_artifact-storage written job s stored d)
      | inr (exc, e) ↦ rw (g, execute_job, e) (fail_attempt-IsSettled c exc written job s stored d)
    ],
    requeue_job-storage c written job u,
    requeue_job_full c written job u full,
  )
