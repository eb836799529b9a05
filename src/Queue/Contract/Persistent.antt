-- ===== src/Queue/Contract/Persistent.antt =====
-- The Redis queue (backend/services/queue_redis.py) refines the contract of the queue backends.
use chatvector_ai.Prelude.{
  ◌∙◌, ℕ, ◌<◌, ◌≡◌, refl, sym, ap, String, Bool, true, false, Option, none, some, List, [], ◌∷◌,
  ◌++◌, leb, length, Bool-cases, Option-cases, ◌&&◌, inl, inr,
}
use chatvector_ai.Failures.{Exc, ingestion_failure_is_terminal}
use chatvector_ai.Queue.Jobs.{QueueJob, DlqEntry, Settings}
use chatvector_ai.Queue.Outcome
use chatvector_ai.Queue.Asyncio
use chatvector_ai.Queue.Asyncio.{has_tenant, message_of}
use chatvector_ai.Queue.Redis.{
  put_failed, rq_failed, persist_uri, position_or_one, sync_enqueue, RedisQueue, Progress, over,
  sleeping, Enqueued, accepted, queue_full, push_dlq_entry, cleanup_artifact, fail_attempt,
  requeue_job, enqueue,
}
use chatvector_ai.Queue.Redis.Jobs.{rq_job, is_set, dead_letter}
use chatvector_ai.Queue.Redis.Interface.{RqJob, Services, IsLawful}
use chatvector_ai.Queue.Contract.InMemory.{not_over}
use chatvector_ai.Queue.Contract.{Backlog, attempt_id, bury, failed, woken, submitted}

abbrev pub progress_of : String → Option QueueJob → Progress
unfolding rq_job
progress_of uri none = over
progress_of uri (some job) = sleeping (rq_job job uri)

-- Redis answers, so that no push and no enqueue raises.
pub record IsUp (r : Services) : Type 0 where
  pub pushes :
      (entry : DlqEntry) (n : ℕ) (v : r.Server)
      → (w : r.Server) × (r.push_and_trim entry n v ≡ some w)
  pub enqueues :
      (jid : List ℕ) (job : RqJob) (v : r.Server)
      → (w : r.Server) × (r.rq_enqueue jid job v ≡ some w)

same_tenant : (job : QueueJob) → is_set job.tenant_id ≡ has_tenant job
unfolding is_set has_tenant
same_tenant job = elim (Option-cases job.tenant_id) [ inl e ↦ rw e refl | inr (t, e) ↦ rw e refl ]

module _ (r : Services) where
  abbrev pub redis_view : RedisQueue r → Backlog
  redis_view s = record {
    waiting = r.job_ids s.server;
    dead = r.dead_letters s.server;
    writes = s.effects;
  }

  -- What a submission leaves, if it is accepted.
  abbrev pub accepted_view : Enqueued × RedisQueue r → Option Backlog
  accepted_view (accepted position uri, s) = some (redis_view s)
  accepted_view (ended, s) = none

  persist_uri_view :
      (written : Bool) (job : QueueJob) (ended : Enqueued × RedisQueue r)
      → accepted_view (persist_uri r written job ended) ≡ accepted_view ended
  unfolding persist_uri
  persist_uri_view written job (accepted n uri, t) =
      elim (Bool-cases (is_set job.tenant_id && written)) [
        | inl noted ↦ rw noted refl
        | inr quiet ↦ rw quiet refl
      ]
  persist_uri_view written job (queue_full, t) = refl
  persist_uri_view written job (put_failed, t) = refl
  persist_uri_view written job (rq_failed, t) = refl

  cleanup_artifact_view :
      (written : Bool) (job : RqJob) (s : RedisQueue r)
      → redis_view (cleanup_artifact r written job s) ≡ redis_view s
  unfolding cleanup_artifact
  cleanup_artifact_view written job s = elim (Bool-cases (is_set job.tenant_id && written)) [
    | inl noted ↦ rw noted (elim (Option-cases (r.delete job.artifact_uri s.storage)) [
      | inl kept ↦ rw kept refl
      | inr (v, gone) ↦ rw gone refl
    ])
    | inr quiet ↦ rw quiet (elim (Option-cases (r.delete job.artifact_uri s.storage)) [
      | inl kept ↦ rw kept refl
      | inr (v, gone) ↦ rw gone refl
    ])
  ]

  module _ (c : Settings) (laws : IsLawful r) (up : IsUp r) where
    push_dlq_entry_view :
        (entry : DlqEntry) (s : RedisQueue r)
        → 0 < c.dlq_max_entries
        → redis_view (push_dlq_entry r c entry s) ≡ bury c entry (redis_view s)
    unfolding push_dlq_entry
    push_dlq_entry_view entry s h =
        let (w, e) = up.pushes entry c.dlq_max_entries s.server in
        let (d, j) = laws.push_and_trim-dead_letters entry c.dlq_max_entries s.server w h e in
        rw (e, push_dlq_entry) (rw (d, j) refl)

    redis_failed :
        (exc : Exc) (written : Bool) (job : QueueJob) (uri : String) (s : RedisQueue r)
        → 0 < c.dlq_max_entries
        → let (p, t) = fail_attempt r c exc written (rq_job job uri) s in
          let (o, b) = failed c exc written job (redis_view s) in
          (p ≡ progress_of uri o) × (redis_view t ≡ b)
    unfolding fail_attempt failed progress_of dead_letter Asyncio.dead_letter rq_job
        Outcome.retrying_effect
    redis_failed exc written job uri s h =
        elim (Bool-cases (ingestion_failure_is_terminal c.job_max_retries exc job.attempt)) [
          | inl dead ↦ rw dead (
            refl,
            push_dlq_entry_view (dead_letter (rq_job job uri) (message_of exc))
                  (cleanup_artifact r written (rq_job job uri) s) h
                ∙ ap (bury c (dead_letter (rq_job job uri) (message_of exc)))
                    (cleanup_artifact_view written (rq_job job uri) s),
          )
          | inr again ↦ rw (again, not_over c exc job.attempt again) (refl, refl)
        ]

    requeue_job_room :
        (written : Bool) (job : QueueJob) (uri : String) (s : RedisQueue r)
        → leb c.max_size (length (r.job_ids s.server)) ≡ false
        → redis_view (requeue_job r c written (rq_job job uri) s)
          ≡ record (redis_view s) { waiting = r.job_ids s.server ++ attempt_id job ∷ [] }
    unfolding requeue_job rq_job
    requeue_job_room written job uri s room =
        let (w, e) = up.enqueues (attempt_id job) (rq_job job uri) s.server in
        let (j, d) = laws.rq_enqueue-job_ids (attempt_id job) (rq_job job uri) s.server w e in
        rw (room, requeue_job) (rw e (rw (d, j) refl))

    redis_woken :
        (written : Bool) (job : QueueJob) (uri : String) (s : RedisQueue r)
        → 0 < c.dlq_max_entries
        → redis_view (requeue_job r c written (rq_job job uri) s)
          ≡ woken c written job (redis_view s)
    unfolding woken requeue_job dead_letter Asyncio.dead_letter rq_job
    redis_woken written job uri s h =
        elim (Bool-cases (leb c.max_size (length (r.job_ids s.server)))) [
          | inl full ↦
              rw (full, sym (same_tenant job))
                (push_dlq_entry_view (dead_letter (rq_job job uri) c.queue_full_message) _ h)
          | inr room ↦ requeue_job_room written job uri s room ∙ (rw (room, woken) refl)
        ]

    sync_enqueue_full :
        (job : QueueJob) (s : RedisQueue r)
        → leb c.max_size (length (r.job_ids s.server)) ≡ true
        → sync_enqueue r c job s ≡ (queue_full, s)
    unfolding sync_enqueue
    sync_enqueue_full job s full = rw full refl

    -- An accepted job waits behind the others.
    sync_enqueue_room :
        (job : QueueJob) (s : RedisQueue r) (uri : String) (stored : r.Storage)
        → leb c.max_size (length (r.job_ids s.server)) ≡ false
        → r.put job.doc_id job.file_bytes s.storage ≡ some (uri, stored)
        → (n : ℕ) × (t : RedisQueue r) × (sync_enqueue r c job s ≡ (accepted n uri, t))
          × (redis_view t
              ≡ record (redis_view s) { waiting = r.job_ids s.server ++ attempt_id job ∷ [] })
    unfolding sync_enqueue
    sync_enqueue_room job s uri stored room p =
        let (w, e) = up.enqueues (attempt_id job) (rq_job job uri) s.server in
        let (j, d) = laws.rq_enqueue-job_ids (attempt_id job) (rq_job job uri) s.server w e in
        let t = record s { server = w; storage = stored } in
        (position_or_one r job.doc_id t, t, (rw (room, p, e) refl), (rw (j, d) refl))

    redis_submitted :
        (written : Bool) (job : QueueJob) (s : RedisQueue r) (uri : String) (stored : r.Storage)
        → r.put job.doc_id job.file_bytes s.storage ≡ some (uri, stored)
        → accepted_view (enqueue r c written job s) ≡ submitted c job (redis_view s)
    unfolding enqueue submitted
    redis_submitted written job s uri stored p =
        persist_uri_view written job (sync_enqueue r c job s)
        ∙ elim (Bool-cases (leb c.max_size (length (r.job_ids s.server)))) [
          | inl full ↦ rw (sync_enqueue_full job s full, full) refl
          | inr room ↦
              let (n, t, e, q) = sync_enqueue_room job s uri stored room p in
              rw (e, room) (ap some q)
        ]

    -- With a bound of dead letters above 0, a server that answers lawfully and never raises, and a
    -- storage that takes the upload, the Redis queue does what the contract says, for any state: of a
    -- failed attempt the same end or next attempt, and of it, of a requeue and of a submission the
    -- same waiting attempts in order, the same dead letters and the same writes.
    pub redis_queue_refines :
        (exc : Exc) (written : Bool) (job : QueueJob) (uri : String) (s : RedisQueue r)
        (put_uri : String) (stored : r.Storage)
        → 0 < c.dlq_max_entries
        → r.put job.doc_id job.file_bytes s.storage ≡ some (put_uri, stored)
        → let (p, t) = fail_attempt r c exc written (rq_job job uri) s in
          let (o, b) = failed c exc written job (redis_view s) in
          (p ≡ progress_of uri o)
          × (redis_view t ≡ b)
          × (redis_view (requeue_job r c written (rq_job job uri) s)
              ≡ woken c written job (redis_view s))
          × (accepted_view (enqueue r c written job s) ≡ submitted c job (redis_view s))
    redis_queue_refines exc written job uri s put_uri stored h put =
        let (p, q) = redis_failed exc written job uri s h in
        (p, q, redis_woken written job uri s h, redis_submitted written job s put_uri stored put)
