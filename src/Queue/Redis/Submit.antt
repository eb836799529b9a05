-- ===== src/Queue/Redis/Submit.antt =====
-- How a submission to the Redis queue ends (backend/services/queue_redis.py, `_sync_enqueue`,
-- `queue_position`).
use chatvector_ai.Prelude.{◌⊎◌, ◌<◌, ℕ, ◌+◌, ◌≤◌, ◌≡◌, String, none, some, [], ◌∷◌, ◌++◌, length}
use chatvector_ai.Queue.Jobs.{QueueJob, Settings}
use chatvector_ai.Queue.Redis.{
  RedisQueue, Enqueued, accepted, queue_full, put_failed, rq_failed, queue_position,
}
use chatvector_ai.Queue.Redis.Jobs.{rq_job, rq_job_id}
use chatvector_ai.Queue.Redis.Interface.{Services, artifact_missing}

-- The artifact is missing again, or its deletion failed, raised or not, and left the storage as it was.
abbrev pub TakenBack : (r : Services) → String → r.Storage → r.Storage → Type 0
TakenBack r uri stored kept =
    (r.get uri kept ≡ artifact_missing)
    ⊎ (((r.delete uri stored ≡ none) ⊎ (r.delete uri stored ≡ some stored)) × (kept ≡ stored))

-- How a submission ends: QueueFull with nothing changed, a storage that raises with nothing changed, an
-- RQ that raises with the artifact taken back and nothing else changed, or a job that waits at the
-- position of the first id that mentions its document.
pub data Ending (r : Services) (c : Settings) (job : QueueJob) (s : RedisQueue r)
    : Enqueued × RedisQueue r → Type 0 where
  ended_full : c.max_size ≤ length (r.job_ids s.server) → Ending r c job s (queue_full, s)
  ended_put : r.put job.doc_id job.file_bytes s.storage ≡ none → Ending r c job s (put_failed, s)
  ended_rq :
      (uri : String) (stored kept : r.Storage)
      → r.put job.doc_id job.file_bytes s.storage ≡ some (uri, stored)
      → r.rq_enqueue (rq_job_id job.doc_id job.attempt) (rq_job job uri) s.server ≡ none
      → TakenBack r uri stored kept
      → Ending r c job s (rq_failed, record s { storage = kept })
  ended_accepted :
      (uri : String) (stored : r.Storage) (v : r.Server) (n : ℕ)
      → length (r.job_ids s.server) < c.max_size
      → r.put job.doc_id job.file_bytes s.storage ≡ some (uri, stored)
      → r.job_ids v ≡ r.job_ids s.server ++ rq_job_id job.doc_id job.attempt ∷ []
      → queue_position r job.doc_id (record s { server = v; storage = stored }) ≡ some n
      → 1 ≤ n
      → n ≤ length (r.job_ids s.server) + 1
      → Ending r c job s (accepted n uri, record s { server = v; storage = stored })
