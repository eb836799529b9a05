-- ===== src/Queue/Asyncio/Invariant.antt =====
-- What holds of the in-memory queue after any interleaving of its workers
-- (backend/services/queue_asyncio.py).
use mathlib.Core.Path.{subst}
use chatvector_ai.Prelude.{
  suc, ℕ, ◌+◌, ◌≤◌, ◌<◌, ◌≡◌, refl, ap, ◌∙◌, Bool, some, List, [], ◌∷◌, ◌++◌, arith, length,
  length-append,
}
use chatvector_ai.Failures.{Exc}
use chatvector_ai.Queue.Jobs.{QueueJob, Settings}
use chatvector_ai.Queue.Asyncio.{
  AsyncioQueue, put_nowait, enqueue, take_job, receive_job, task_done, finished, sleeping, fail_job,
  requeue_job, bury_full,
}
use chatvector_ai.Queue.Asyncio.Steps.{
  World, empty_world, Step, submit, take, receive, succeed, give_up, retry, wake, refuse, bury,
  Reach, start, next,
}
use chatvector_ai.Queue.Asyncio.Changes.{
  Mirrors, length-remove, fail_job_keeps, bury_full_keeps, Mirrors-add, Mirrors-take,
  Mirrors-receive, enqueue-Adds, requeue_job-Adds, take_job_keeps,
}

pub record IsValid (c : Settings) (w : World) : Type 0 where
  pub mirror : Mirrors w.state.pending_doc_ids (length w.taken) w.state.queue
  pub size : length w.state.queue ≤ c.max_size
  pub dead_letters : length w.state.dlq ≤ c.dlq_max_entries
  pub unfinished :
      w.state.unfinished
      ≡ length w.state.queue
        + length w.taken
        + length w.processing
        + length w.asleep
        + length w.refused
  pub conserved :
      length w.accepted
      ≡ length w.state.queue
        + length w.taken
        + length w.processing
        + length w.asleep
        + length w.refused
        + w.completed
        + w.dead

empty-IsValid : (c : Settings) → IsValid c empty_world
empty-IsValid c = record {
  mirror = ([], refl, refl);
  size = omega arith;
  dead_letters = omega arith;
  unfinished = refl;
  conserved = refl;
}

module _ (c : Settings) (bounded : 0 < c.max_size) where
  submit-IsValid :
      (w : World) (job : QueueJob) (s : AsyncioQueue) (position : ℕ)
      → enqueue c job w.state ≡ some (s, position)
      → IsValid c w
      → IsValid c (record w { state = s; accepted = job.doc_id ∷ w.accepted })
  submit-IsValid w job s position h v =
      let k = enqueue-Adds c job w.state s position h in
      record {
        mirror = rw k.queue (rw k.pending (Mirrors-add _ _ _ job v.mirror));
        size =
            rw k.queue
              (omega (arith, k.room bounded v.size, length-append w.state.queue (job ∷ [])));
        dead_letters = rw k.dlq v.dead_letters;
        unfinished =
            rw k.queue
              (omega (arith, k.unfinished, v.unfinished, length-append w.state.queue (job ∷ [])));
        conserved = rw k.queue (omega (arith, v.conserved, length-append w.state.queue (job ∷ [])));
      }

  take-IsValid :
      (w : World) (job : QueueJob) (s : AsyncioQueue)
      → take_job w.state ≡ some (job, s)
      → IsValid c w
      → IsValid c (record w { state = s; taken = w.taken ++ job ∷ [] })
  take-IsValid w job s h v =
      let (queue, pending, dlq, unfinished) = take_job_keeps job w.state s h in
      let length_queue : length w.state.queue ≡ suc (length s.queue) = ap length queue in
      let length_taken = length-append w.taken (job ∷ []) in
      record {
        mirror = rw pending (
            rw length_taken (
              Mirrors-take _ _ _ job
                (subst (Mirrors w.state.pending_doc_ids (length w.taken)) queue v.mirror)));
        size = omega (arith, v.size, length_queue);
        dead_letters = rw dlq v.dead_letters;
        unfinished = omega (arith, v.unfinished, unfinished, length_queue, length_taken);
        conserved = omega (arith, v.conserved, length_queue, length_taken);
      }

  receive-IsValid :
      (w : World) (before after : List QueueJob) (job : QueueJob)
      → w.taken ≡ before ++ job ∷ after
      → IsValid c w
      → IsValid c (record w {
        state = (receive_job job w.state).1;
        taken = before ++ after;
        processing = job ∷ w.processing;
        started = job.doc_id ∷ w.started;
      })
  unfolding receive_job
  receive-IsValid w before after job h v =
      let n : length w.taken ≡ suc (length (before ++ after)) =
        ap length h ∙ length-remove before after job in
      record {
        mirror =
            Mirrors-receive _ job w.state
              (subst (λ (held : ℕ). Mirrors w.state.pending_doc_ids held w.state.queue) n v.mirror);
        size = v.size;
        dead_letters = v.dead_letters;
        unfinished = omega (arith, v.unfinished, n);
        conserved = omega (arith, v.conserved, n);
      }

  succeed-IsValid :
      (w : World) (before after : List QueueJob) (job : QueueJob)
      → w.processing ≡ before ++ job ∷ after
      → IsValid c w
      → IsValid c (record w {
        state = task_done w.state;
        processing = before ++ after;
        completed = w.completed + 1;
      })
  unfolding task_done
  succeed-IsValid w before after job h v =
      ground (arith, length-remove before after job, ap length h)

  give_up-IsValid :
      (w : World) (before after : List QueueJob) (job : QueueJob) (exc : Exc) (written : Bool)
      (s : AsyncioQueue)
      → w.processing ≡ before ++ job ∷ after
      → fail_job c exc written job w.state ≡ (finished, s)
      → IsValid c w
      → IsValid c
          (record w { state = task_done s; processing = before ++ after; dead = w.dead + 1 })
  unfolding task_done
  give_up-IsValid w before after job exc written s h f v =
      ground (
        arith,
        length-remove before after job,
        ap length h,
        fail_job_keeps c exc written job w.state,
      )

  retry-IsValid :
      (w : World) (before after : List QueueJob) (job again : QueueJob) (exc : Exc) (written : Bool)
      (s : AsyncioQueue)
      → w.processing ≡ before ++ job ∷ after
      → fail_job c exc written job w.state ≡ (sleeping again, s)
      → IsValid c w
      → IsValid c (record w { state = s; processing = before ++ after; asleep = again ∷ w.asleep })
  retry-IsValid w before after job again exc written s h f v =
      ground (
        arith,
        length-remove before after job,
        ap length h,
        fail_job_keeps c exc written job w.state,
      )

  wake-IsValid :
      (w : World) (before after : List QueueJob) (job : QueueJob) (written : Bool)
      (s : AsyncioQueue)
      → w.asleep ≡ before ++ job ∷ after
      → put_nowait c job w.state ≡ some s
      → IsValid c w
      → IsValid c (record w {
        state = task_done (requeue_job c written job w.state);
        asleep = before ++ after;
      })
  unfolding task_done
  wake-IsValid w before after job written s h p v =
      let k = requeue_job-Adds c written job w.state s p in
      let n : length w.asleep ≡ suc (length (before ++ after)) =
        ap length h ∙ length-remove before after job in
      let m = length-append w.state.queue (job ∷ []) in
      record {
        mirror = rw k.queue (rw k.pending (Mirrors-add _ _ _ job v.mirror));
        size = rw k.queue (omega (arith, k.room bounded v.size, m));
        dead_letters = rw k.dlq v.dead_letters;
        unfinished = rw k.queue (omega (arith, k.unfinished, v.unfinished, n, m));
        conserved = rw k.queue (omega (arith, v.conserved, n, m));
      }

  refuse-IsValid :
      (w : World) (before after : List QueueJob) (job : QueueJob)
      → w.asleep ≡ before ++ job ∷ after
      → IsValid c w
      → IsValid c (record w { asleep = before ++ after; refused = job ∷ w.refused })
  refuse-IsValid w before after job h v =
      let n : length w.asleep ≡ suc (length (before ++ after)) =
        ap length h ∙ length-remove before after job in
      record {
        mirror = v.mirror;
        size = v.size;
        dead_letters = v.dead_letters;
        unfinished = omega (arith, v.unfinished, n);
        conserved = omega (arith, v.conserved, n);
      }

  bury-IsValid :
      (w : World) (before after : List QueueJob) (job : QueueJob) (written : Bool)
      → w.refused ≡ before ++ job ∷ after
      → IsValid c w
      → IsValid c (record w {
        state = task_done (bury_full c written job w.state);
        refused = before ++ after;
        dead = w.dead + 1;
      })
  unfolding task_done
  bury-IsValid w before after job written h v =
      let (queue, pending, unfinished, dlq) = bury_full_keeps c written job w.state in
      let n : length w.refused ≡ suc (length (before ++ after)) =
        ap length h ∙ length-remove before after job in
      record {
        mirror = rw queue (rw pending v.mirror);
        size = rw queue v.size;
        dead_letters = dlq;
        unfinished = rw queue (omega (arith, v.unfinished, unfinished, n));
        conserved = rw queue (omega (arith, v.conserved, n));
      }

  Step-IsValid : {w v : World} → Step c w v → IsValid c w → IsValid c v
  Step-IsValid (submit w job s position a e) v = submit-IsValid w job s position e v
  Step-IsValid (take w job s e) v = take-IsValid w job s e v
  Step-IsValid (receive w before after job e) v = receive-IsValid w before after job e v
  Step-IsValid (succeed w before after job e) v = succeed-IsValid w before after job e v
  Step-IsValid (give_up w before after job exc written s e f) v =
      give_up-IsValid w before after job exc written s e f v
  Step-IsValid (retry w before after job again exc written s e f) v =
      retry-IsValid w before after job again exc written s e f v
  Step-IsValid (wake w before after job written s e f) v =
      wake-IsValid w before after job written s e f v
  Step-IsValid (refuse w before after job e f) v = refuse-IsValid w before after job e v
  Step-IsValid (bury w before after job written e) v = bury-IsValid w before after job written e v

  -- With a capacity above 0, after any steps of producers and workers, in whatever order jobs are handed
  -- over: the mirror has as many ids as there are jobs taken and not received, then the ids of the
  -- jobs in the queue in their order; the queue and the dead letters keep their bounds; the count of
  -- unfinished tasks is that of the jobs that wait or are held; and every accepted job waits, is held,
  -- is completed or is dead.
  pub Reach-IsValid : {w : World} → Reach c w → IsValid c w
  Reach-IsValid start = empty-IsValid c
  Reach-IsValid (next r step) = Step-IsValid step (Reach-IsValid r)
