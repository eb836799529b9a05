-- ===== src/Queue/Contract/InMemory.antt =====
-- The in-memory queue (backend/services/queue_asyncio.py) refines the contract of the queue backends.
use chatvector_ai.Prelude.{
  ◌∙◌, inl, inr, suc, suc, ℕ, ◌+◌, ◌-◌, ◌<◌, ◌≡◌, refl, sym, ap, Bool, true, false, Option, none,
  some, List, [], ◌∷◌, ◌++◌, map, arith, ltb, leb, length, drop, Bool-cases, ◌&&◌,
}
use chatvector_ai.Failures.{Exc, ingestion_failure_is_terminal}
use chatvector_ai.Failures.Patterns.{not_terminal_lem}
use chatvector_ai.Queue.Jobs.{QueueJob, DlqEntry, Settings}
use chatvector_ai.Queue.Asyncio.{
  AsyncioQueue, append_dlq, put_nowait, fail_job, requeue_job, enqueue, dead_letter, message_of,
  Handled, finished, sleeping,
}
use chatvector_ai.Queue.Contract.{Backlog, attempt_id, bury, failed, woken, submitted}
use mathlib.Core.List.{map-append}
use mathlib.Core.Option

abbrev pub asyncio_view : AsyncioQueue → Backlog
asyncio_view s = record { waiting = map attempt_id s.queue; dead = s.dlq; writes = s.effects }

abbrev pub handled_of : Option QueueJob → Handled
handled_of none = finished
handled_of (some job) = sleeping job

length-map {ℓ κ} :
    {A : Type ℓ} {B : Type κ} (f : A → B) (xs : List A) → length (map f xs) ≡ length xs
length-map f [] = refl
length-map f (x ∷ xs) = ap suc (length-map f xs)

ltb_zero : (n : ℕ) → ltb 0 n ≡ false → n ≡ 0
ltb_zero n h = ground arith

pub not_over :
    (c : Settings) (exc : Exc) (attempt : ℕ)
    → ingestion_failure_is_terminal c.job_max_retries exc attempt ≡ false
    → ltb attempt c.job_max_retries ≡ true
not_over c exc attempt h = ground (arith, (not_terminal_lem c.job_max_retries exc attempt h).0)

with_dead : AsyncioQueue → List DlqEntry → Backlog
with_dead s ds = record { waiting = map attempt_id s.queue; dead = ds; writes = s.effects }

append_dlq_view :
    (c : Settings) (e : DlqEntry) (s : AsyncioQueue)
    → asyncio_view (append_dlq c e s) ≡ bury c e (asyncio_view s)
unfolding append_dlq with_dead
append_dlq_view c e s =
    let entries = s.dlq ++ e ∷ [] in
    let overflow = length entries - c.dlq_max_entries in
    elim (Bool-cases (ltb 0 overflow)) [
      | inl more ↦ rw more refl
      | inr few ↦ rw few (ap (λ n. with_dead s (drop n entries)) (sym (ltb_zero overflow few)))
    ]

asyncio_failed :
    (c : Settings) (exc : Exc) (written : Bool) (job : QueueJob) (s : AsyncioQueue)
    → let (h, t) = fail_job c exc written job s in
      let (o, b) = failed c exc written job (asyncio_view s) in
      (h ≡ handled_of o) × (asyncio_view t ≡ b)
unfolding fail_job failed
asyncio_failed c exc written job s =
    elim (Bool-cases (ingestion_failure_is_terminal c.job_max_retries exc job.attempt)) [
      | inl over ↦ rw over (refl, append_dlq_view c (dead_letter job (message_of exc)) s)
      | inr again ↦ rw (again, not_over c exc job.attempt again) (refl, refl)
    ]

-- The queue's bound as `asyncio.Queue` tests it.
full_lem :
    (c : Settings) (s : AsyncioQueue)
    → 0 < c.max_size
    → (ltb 0 c.max_size && leb c.max_size (length s.queue))
      ≡ leb c.max_size (length (map attempt_id s.queue))
full_lem c s h = rw (length-map attempt_id s.queue) (ground arith)

put_nowait_full :
    (c : Settings) (job : QueueJob) (s : AsyncioQueue)
    → 0 < c.max_size
    → leb c.max_size (length (map attempt_id s.queue)) ≡ true
    → put_nowait c job s ≡ none
unfolding put_nowait
put_nowait_full c job s h full = rw (full_lem c s h ∙ full) refl

put_nowait_room :
    (c : Settings) (job : QueueJob) (s : AsyncioQueue)
    → 0 < c.max_size
    → leb c.max_size (length (map attempt_id s.queue)) ≡ false
    → put_nowait c job s
      ≡ some (record s { queue = s.queue ++ job ∷ []; unfinished = s.unfinished + 1 })
unfolding put_nowait
put_nowait_room c job s h room = rw (full_lem c s h ∙ room) refl

asyncio_woken :
    (c : Settings) (written : Bool) (job : QueueJob) (s : AsyncioQueue)
    → 0 < c.max_size
    → asyncio_view (requeue_job c written job s) ≡ woken c written job (asyncio_view s)
unfolding woken requeue_job
asyncio_woken c written job s h =
    elim (Bool-cases (leb c.max_size (length (map attempt_id s.queue)))) [
      | inl full ↦
          rw (put_nowait_full c job s h full, requeue_job, full)
            (append_dlq_view c (dead_letter job c.queue_full_message) _)
      | inr room ↦
          rw
            (
              put_nowait_room c job s h room,
              requeue_job,
              room,
              sym (map-append attempt_id s.queue (job ∷ [])),
            )
            refl
    ]

asyncio_submitted :
    (c : Settings) (job : QueueJob) (s : AsyncioQueue)
    → 0 < c.max_size
    → Option.map (λ (p : AsyncioQueue × ℕ). asyncio_view p.0) (enqueue c job s)
      ≡ submitted c job (asyncio_view s)
unfolding submitted enqueue
asyncio_submitted c job s h = elim (Bool-cases (leb c.max_size (length (map attempt_id s.queue)))) [
  | inl full ↦ rw (put_nowait_full c job s h full, enqueue, full) refl
  | inr room ↦
      rw
        (
          put_nowait_room c job s h room,
          enqueue,
          room,
          sym (map-append attempt_id s.queue (job ∷ [])),
        )
        refl
]

-- With a capacity above 0, the in-memory queue does what the contract says, for any state: of a failed
-- attempt the same end or next attempt, and of it, of a requeue and of a submission the same waiting attempts in
-- order, the same dead letters and the same writes.
pub asyncio_queue_refines :
    (c : Settings) (exc : Exc) (written : Bool) (job : QueueJob) (s : AsyncioQueue)
    → 0 < c.max_size
    → let (h, t) = fail_job c exc written job s in
      let (o, b) = failed c exc written job (asyncio_view s) in
      (h ≡ handled_of o)
      × (asyncio_view t ≡ b)
      × (asyncio_view (requeue_job c written job s) ≡ woken c written job (asyncio_view s))
      × (Option.map (λ (p : AsyncioQueue × ℕ). asyncio_view p.0) (enqueue c job s)
          ≡ submitted c job (asyncio_view s))
asyncio_queue_refines c exc written job s h =
    let (h1, h2) = asyncio_failed c exc written job s in
    (h1, h2, asyncio_woken c written job s h, asyncio_submitted c job s h)
