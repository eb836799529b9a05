-- ===== src/Queue/Asyncio/Changes.antt =====
-- What the operations of the in-memory queue change and what they keep
-- (backend/services/queue_asyncio.py).
use mathlib.Core.List.{append_assoc, map-append}
use chatvector_ai.Prelude.{
  ◌&&◌, if◌then◌else◌, suc, ℕ, ◌+◌, ◌-◌, ◌≤◌, ◌<◌, ◌≡◌, refl, ap, sym, ◌∙◌, String, Bool, some,
  List, [], ◌∷◌, ◌++◌, map, arith, length, length-append, length-drop,
}
use chatvector_ai.Failures.{Exc}
use chatvector_ai.Queue.Jobs.{QueueJob, Settings, DlqEntry}
use chatvector_ai.Queue.Asyncio.{
  pop_pending, record_terminal_ingestion_failure, has_tenant, emit, message_of, dead_letter,
  AsyncioQueue, append_dlq, put_nowait, enqueue, take_job, receive_job, finished, sleeping,
  fail_job, requeue_job, bury_full,
}

abbrev pub doc_ids : List QueueJob → List String
doc_ids = map (λ job. job.doc_id)

-- The mirror has as many ids as there are jobs taken and not received, then the ids of the jobs in the
-- queue, in their order.
abbrev pub Mirrors : List String → ℕ → List QueueJob → Type 0
Mirrors pending held queue =
    (front : List String) × (pending ≡ front ++ doc_ids queue) × (length front ≡ held)

pub length-remove {ℓ} :
    {A : Type ℓ} (before after : List A) (x : A)
    → length (before ++ x ∷ after) ≡ suc (length (before ++ after))
length-remove [] after x = refl
length-remove (b ∷ before) after x = ap suc (length-remove before after x)

pub length-append_dlq :
    (c : Settings) (e : DlqEntry) (s : AsyncioQueue)
    → length (append_dlq c e s).dlq ≤ c.dlq_max_entries
unfolding append_dlq
length-append_dlq c e s =
    ground (arith, length-drop (length (s.dlq ++ e ∷ []) - c.dlq_max_entries) (s.dlq ++ e ∷ []))

-- A dead letter changes nothing else of the queue, and never exceeds its bound.
pub append_dlq_keeps :
    (c : Settings) (e : DlqEntry) (s : AsyncioQueue)
    → ((append_dlq c e s).queue ≡ s.queue)
      × ((append_dlq c e s).pending_doc_ids ≡ s.pending_doc_ids)
      × ((append_dlq c e s).unfinished ≡ s.unfinished)
      × (length (append_dlq c e s).dlq ≤ c.dlq_max_entries)
unfolding append_dlq
append_dlq_keeps c e s = (refl, refl, refl, length-append_dlq c e s)

pub fail_job_keeps :
    (c : Settings) (exc : Exc) (written : Bool) (job : QueueJob) (s : AsyncioQueue)
    → length s.dlq ≤ c.dlq_max_entries
    → let (_, s') = fail_job c exc written job s in
      (s'.queue ≡ s.queue)
      × (s'.pending_doc_ids ≡ s.pending_doc_ids)
      × (s'.unfinished ≡ s.unfinished)
      × (length s'.dlq ≤ c.dlq_max_entries)
unfolding fail_job
fail_job_keeps c exc written job s h =
    ground (arith, append_dlq_keeps c (dead_letter job (message_of exc)) s)

-- So does the end of a job that found the queue full after its sleep.
pub bury_full_keeps :
    (c : Settings) (written : Bool) (job : QueueJob) (s : AsyncioQueue)
    → let s' = bury_full c written job s in
      (s'.queue ≡ s.queue)
      × (s'.pending_doc_ids ≡ s.pending_doc_ids)
      × (s'.unfinished ≡ s.unfinished)
      × (length s'.dlq ≤ c.dlq_max_entries)
unfolding bury_full
bury_full_keeps c written job s = append_dlq_keeps c (dead_letter job c.queue_full_message) (
    emit
      (if has_tenant job && written
        then record_terminal_ingestion_failure c.webhook_enabled job.doc_id job.replace
        else [])
      s)

pub Mirrors-add :
    (pending : List String) (held : ℕ) (queue : List QueueJob) (job : QueueJob)
    → Mirrors pending held queue
    → Mirrors (pending ++ job.doc_id ∷ []) held (queue ++ job ∷ [])
Mirrors-add pending held queue job (front, e, n) = (
  front,
  ap (λ (ds : List String). ds ++ job.doc_id ∷ []) e
      ∙ append_assoc front (doc_ids queue) (job.doc_id ∷ [])
      ∙ ap (λ (ds : List String). front ++ ds)
          (sym (map-append (λ (j : QueueJob). j.doc_id) queue (job ∷ []))),
  n,
)

pub Mirrors-take :
    (pending : List String) (held : ℕ) (queue : List QueueJob) (job : QueueJob)
    → Mirrors pending held (job ∷ queue)
    → Mirrors pending (held + 1) queue
Mirrors-take pending held queue job (front, e, n) = (
  front ++ job.doc_id ∷ [],
  e ∙ sym (append_assoc front (job.doc_id ∷ []) (doc_ids queue)),
  omega (arith, n, length-append front (job.doc_id ∷ [])),
)

pub Mirrors-receive :
    (held : ℕ) (job : QueueJob) (s : AsyncioQueue)
    → Mirrors s.pending_doc_ids (suc held) s.queue
    → Mirrors (receive_job job s).1.pending_doc_ids held s.queue
unfolding receive_job pop_pending
Mirrors-receive held job s ([], e, n) = absurd (omega (arith, n))
Mirrors-receive held job s (d ∷ front, e, n) =
    (front, rw (e, receive_job, pop_pending) refl, omega (arith, n))

-- What a job that enters the queue changes.
pub record Adds (c : Settings) (job : QueueJob) (s s' : AsyncioQueue) : Type 0 where
  pub queue : s'.queue ≡ s.queue ++ job ∷ []
  pub pending : s'.pending_doc_ids ≡ s.pending_doc_ids ++ job.doc_id ∷ []
  pub dlq : s'.dlq ≡ s.dlq
  pub unfinished : s'.unfinished ≡ s.unfinished + 1
  pub room : 0 < c.max_size → length s.queue ≤ c.max_size → length s.queue + 1 ≤ c.max_size

pub enqueue-Adds :
    (c : Settings) (job : QueueJob) (s s' : AsyncioQueue) (position : ℕ)
    → enqueue c job s ≡ some (s', position)
    → Adds c job s s'
unfolding enqueue put_nowait
enqueue-Adds c job s s' position h = record {
  queue = ground arith;
  pending = ground arith;
  dlq = ground arith;
  unfinished = ground arith;
  room = λ a b. ground arith;
}

pub requeue_job-Adds :
    (c : Settings) (written : Bool) (job : QueueJob) (s s' : AsyncioQueue)
    → put_nowait c job s ≡ some s'
    → Adds c job s (requeue_job c written job s)
unfolding requeue_job put_nowait
requeue_job-Adds c written job s s' h = record {
  queue = ground arith;
  pending = ground arith;
  dlq = ground arith;
  unfinished = ground arith;
  room = λ a b. ground arith;
}

pub take_job_keeps :
    (job : QueueJob) (s s' : AsyncioQueue)
    → take_job s ≡ some (job, s')
    → (s.queue ≡ job ∷ s'.queue)
      × (s'.pending_doc_ids ≡ s.pending_doc_ids)
      × (s'.dlq ≡ s.dlq)
      × (s'.unfinished ≡ s.unfinished)
unfolding take_job
take_job_keeps job s s' h = ground arith

pub fail_job-retry :
    (c : Settings) (exc : Exc) (written : Bool) (job again : QueueJob) (s s' : AsyncioQueue)
    → fail_job c exc written job s ≡ (sleeping again, s')
    → (again.attempt ≡ job.attempt + 1)
      × (again.attempt ≤ c.job_max_retries)
      × (s'.queue ≡ s.queue)
      × (again.doc_id ≡ job.doc_id)
unfolding fail_job
fail_job-retry c exc written job again s s' h = ground arith

pub fail_job-finished :
    (c : Settings) (exc : Exc) (written : Bool) (job : QueueJob) (s s' : AsyncioQueue)
    → fail_job c exc written job s ≡ (finished, s')
    → s'.queue ≡ s.queue
unfolding fail_job append_dlq
fail_job-finished c exc written job s s' h = ground arith

pub put_nowait-queue :
    (c : Settings) (job : QueueJob) (s s' : AsyncioQueue)
    → put_nowait c job s ≡ some s'
    → s'.queue ≡ s.queue ++ job ∷ []
unfolding put_nowait
put_nowait-queue c job s s' h = ground arith

pub enqueue-queue :
    (c : Settings) (job : QueueJob) (s s' : AsyncioQueue) (position : ℕ)
    → enqueue c job s ≡ some (s', position)
    → s'.queue ≡ s.queue ++ job ∷ []
unfolding enqueue put_nowait
enqueue-queue c job s s' position h = ground arith

pub take_job-queue :
    (job : QueueJob) (s s' : AsyncioQueue) → take_job s ≡ some (job, s') → s.queue ≡ job ∷ s'.queue
unfolding take_job
take_job-queue job s s' h = ground arith

pub requeue_job-queue :
    (c : Settings) (written : Bool) (job : QueueJob) (s s' : AsyncioQueue)
    → put_nowait c job s ≡ some s'
    → (requeue_job c written job s).queue ≡ s.queue ++ job ∷ []
unfolding requeue_job
requeue_job-queue c written job s s' h = ground (arith, put_nowait-queue c job s s' h)
