-- ===== src/Queue/Asyncio/Position.antt =====
-- Queue positions and the mirror of waiting ids (backend/services/queue_asyncio.py).
use text.Mathlib.TextPositions.{eq_refl}
use chatvector_ai.Prelude.{
  ℕ, suc, ◌+◌, ◌≤◌, ◌<◌, ◌≡◌, ◌≢◌, refl, ap, ◌∙◌, String, eq_iff, Option, some, List, [], ◌∷◌, ◌++◌,
  arith, length, length-append, All,
}
use chatvector_ai.Queue.Jobs.{QueueJob, Settings}
use chatvector_ai.Queue.Asyncio.{
  AsyncioQueue, put_nowait, enqueue, position_from, queue_position, receive_job, pending_empty,
  pop_pending,
}
use chatvector_ai.Queue.Asyncio.Steps.{World, Reach}
use chatvector_ai.Queue.Asyncio.Changes.{doc_ids, length-remove}
use chatvector_ai.Queue.Asyncio.Invariant.{Reach-IsValid}

length-doc_ids : (jobs : List QueueJob) → length (doc_ids jobs) ≡ length jobs
length-doc_ids [] = refl
length-doc_ids (j ∷ jobs) = ap suc (length-doc_ids jobs)

position_from-append :
    (i : ℕ) (d : String) (ds : List String)
    → All (λ e. e ≢ d) ds
    → position_from i d (ds ++ d ∷ []) ≡ some (i + length ds + 1)
unfolding position_from
position_from-append i d [] h = rw (eq_refl d) (ap {B = Option ℕ} some (omega arith))
position_from-append i d (e ∷ ds) h =
    ground (arith, eq_iff e d, h.0, position_from-append (i + 1) d ds h.1)

enqueue-pending :
    (c : Settings) (job : QueueJob) (s s' : AsyncioQueue) (position : ℕ)
    → enqueue c job s ≡ some (s', position)
    → (s'.pending_doc_ids ≡ s.pending_doc_ids ++ job.doc_id ∷ [])
      × (position ≡ length s.queue + 1)
      × (0 < c.max_size → length s.queue < c.max_size)
unfolding enqueue put_nowait
enqueue-pending c job s s' position h = ground (arith, length-append s.queue (job ∷ []))

-- With a capacity above 0, a document that is not waiting yet is found, once it is accepted, at the position that `enqueue`
-- returned plus the number of jobs that are taken and not yet received; that position is from 1 to
-- the capacity.
pub queue_position-enqueue :
    (c : Settings) (w : World) (job : QueueJob) (s : AsyncioQueue) (position : ℕ)
    → 0 < c.max_size
    → Reach c w
    → All (λ d. d ≢ job.doc_id) w.state.pending_doc_ids
    → enqueue c job w.state ≡ some (s, position)
    → (queue_position job.doc_id s ≡ some (length w.taken + position))
      × (1 ≤ position)
      × (position ≤ c.max_size)
unfolding queue_position
queue_position-enqueue c w job s position bounded r fresh h =
    let (p, n, room) = enqueue-pending c job w.state s position h in
    let v = Reach-IsValid c bounded r in
    let (front, mirrored, held) = v.mirror in
    let waiting : length w.state.pending_doc_ids ≡ length w.taken + length w.state.queue =
      ap length mirrored
      ∙ length-append front (doc_ids w.state.queue)
      ∙ (omega (arith, held, length-doc_ids w.state.queue)) in
    (
      ap (position_from 0 job.doc_id) p
          ∙ position_from-append 0 job.doc_id w.state.pending_doc_ids fresh
          ∙ ap {B = Option ℕ} some (omega arith),
      omega arith,
      omega (arith, room bounded),
    )

pop_pending-filled :
    (job : QueueJob) (pending : List String)
    → 1 ≤ length pending
    → (pop_pending job pending).0 ≢ pending_empty
unfolding pop_pending
pop_pending-filled job [] h e = omega (arith, h)
pop_pending-filled job (d ∷ pending) h e = ground arith

-- With a capacity above 0, a worker that receives a job never finds the mirror empty, in whatever order
-- the workers receive.
pub receive_job-not_empty :
    (c : Settings) (w : World) (before after : List QueueJob) (job : QueueJob)
    → 0 < c.max_size
    → Reach c w
    → w.taken ≡ before ++ job ∷ after
    → (receive_job job w.state).0 ≢ pending_empty
unfolding receive_job pop_pending
receive_job-not_empty c w before after job bounded r e empty =
    let v = Reach-IsValid c bounded r in
    let (front, mirrored, held) = v.mirror in
    let n = ap length e ∙ length-remove before after job in
    pop_pending-filled job w.state.pending_doc_ids
      (omega (arith, n, held, ap length mirrored, length-append front (doc_ids w.state.queue)))
      empty
