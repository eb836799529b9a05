-- ===== src/Queue/Asyncio/Effects.antt =====
-- What the in-memory queue writes for a document under replacement, and for one that dies
-- (backend/services/queue_asyncio.py, backend/services/ingestion_outcome.py).
use mathlib.Core.List.{append-nil}
use chatvector_ai.Prelude.{
  ◌&&◌, ltb, leb, ◌+◌, ◌≡◌, refl, sym, ◌⊎◌, inl, inr, Bool, true, false, List, [], ◌∷◌, ◌++◌, arith,
  All, if◌then◌else◌, length, Bool-cases,
}
use chatvector_ai.Failures.{Exc, ingestion_failure_is_terminal}
use chatvector_ai.Failures.Patterns.{not_terminal_lem}
use chatvector_ai.Queue.Jobs.{QueueJob, Settings}
use chatvector_ai.Queue.Outcome.{
  Effect, update_document_status, retrying_effect, record_terminal_ingestion_failure,
}
use chatvector_ai.Queue.Asyncio.{
  AsyncioQueue, append_dlq, put_nowait, finished, sleeping, fail_job, has_tenant, requeue_job,
  dead_letter, message_of,
}

-- The effect does not touch a document's `status`.
abbrev pub KeepsStatus : Effect → Type 0
KeepsStatus (update_document_status d s n) = ⊥
KeepsStatus e = Unit

-- What the later list adds to the earlier one.
abbrev pub Adds : (Effect → Type 0) → List Effect → List Effect → Type 0
Adds P before after = (new : List Effect) × (after ≡ before ++ new) × All P new

Adds-none : (xs : List Effect) → Adds KeepsStatus xs xs
Adds-none xs = ([], sym (append-nil xs), tt)

retrying-KeepsStatus :
    (job : QueueJob) (written : Bool)
    → job.replace ≡ true
    → All KeepsStatus (if written then retrying_effect job ∷ [] else [])
unfolding retrying_effect
retrying-KeepsStatus job true r = rw r (tt, tt)
retrying-KeepsStatus job false r = tt

terminal-KeepsStatus :
    (webhook_enabled : Bool) (job : QueueJob) (b : Bool)
    → job.replace ≡ true
    → All KeepsStatus
        (if b then record_terminal_ingestion_failure webhook_enabled job.doc_id job.replace else [])
unfolding record_terminal_ingestion_failure
terminal-KeepsStatus true job true r = rw r (tt, (tt, tt))
terminal-KeepsStatus false job true r = rw r (tt, tt)
terminal-KeepsStatus w job false r = tt

fail_job-Adds :
    (c : Settings) (exc : Exc) (written : Bool) (job : QueueJob) (s : AsyncioQueue)
    → job.replace ≡ true
    → Adds KeepsStatus s.effects (fail_job c exc written job s).1.effects
unfolding fail_job append_dlq
fail_job-Adds c exc written job s r =
    elim (Bool-cases (ingestion_failure_is_terminal c.job_max_retries exc job.attempt)) [
      | inl over ↦ rw over (Adds-none s.effects)
      | inr again ↦ rw again (elim (Bool-cases (ltb job.attempt c.job_max_retries)) [
        | inl left ↦
            rw left
              (_, refl, retrying-KeepsStatus (record job { attempt = job.attempt + 1 }) written r)
        | inr spent ↦ rw spent (Adds-none s.effects)
      ])
    ]

requeue_job-Adds :
    (c : Settings) (written : Bool) (job : QueueJob) (s : AsyncioQueue)
    → job.replace ≡ true
    → Adds KeepsStatus s.effects (requeue_job c written job s).effects
unfolding requeue_job append_dlq put_nowait
requeue_job-Adds c written job s r =
    elim (Bool-cases (ltb 0 c.max_size && leb c.max_size (length s.queue))) [
      | inl full ↦
          rw (full, requeue_job)
            (_, refl, terminal-KeepsStatus c.webhook_enabled job (has_tenant job && written) r)
      | inr room ↦ rw (room, requeue_job) (Adds-none s.effects)
    ]

-- Where a job replaces a completed document, no failed attempt and no failed requeue writes the
-- document's status, so that its old content stays retrievable.
pub replace-KeepsStatus :
    (c : Settings) (exc : Exc) (written : Bool) (job : QueueJob) (s : AsyncioQueue)
    → job.replace ≡ true
    → Adds KeepsStatus s.effects (fail_job c exc written job s).1.effects
      × Adds KeepsStatus s.effects (requeue_job c written job s).effects
replace-KeepsStatus c exc written job s r =
    (fail_job-Adds c exc written job s r, requeue_job-Adds c written job s r)

-- What a failed attempt does, in one equation for each case: a terminal failure leaves one dead
-- letter with the attempt and the error, and any other sends the job to sleep with its attempt
-- raised by one; the branch for used-up retries is never taken.
pub fail_job_lem :
    (c : Settings) (exc : Exc) (written : Bool) (job : QueueJob) (s : AsyncioQueue)
    → ((ingestion_failure_is_terminal c.job_max_retries exc job.attempt ≡ true)
        × (fail_job c exc written job s
            ≡ (finished, append_dlq c (dead_letter job (message_of exc)) s)))
      ⊎ ((ingestion_failure_is_terminal c.job_max_retries exc job.attempt ≡ false)
          × ((fail_job c exc written job s).0 ≡ sleeping (record job { attempt = job.attempt + 1 }))
          × ((fail_job c exc written job s).1.dlq ≡ s.dlq))
unfolding fail_job
fail_job_lem c exc written job s =
    elim (Bool-cases (ingestion_failure_is_terminal c.job_max_retries exc job.attempt)) [
      | inl over ↦ inl (over, rw over)
      | inr again ↦ inr (
        again,
        ground (arith, not_terminal_lem c.job_max_retries exc job.attempt again),
        ground (arith, not_terminal_lem c.job_max_retries exc job.attempt again),
      )
    ]
