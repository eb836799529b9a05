-- ===== src/Queue/Asyncio/Steps.antt =====
-- The workers of the in-memory queue as steps (backend/services/queue_asyncio.py): what runs between
-- two `await`s of `enqueue`, `_worker` and `_process_job` is one step. `wait_for` runs `get` in a task
-- of its own, so that a job is first taken and then received, and workers may receive in another order
-- than they took. Starting and stopping the workers is not modelled.
use chatvector_ai.Prelude.{ℕ, ◌+◌, ◌≤◌, ◌≡◌, String, Bool, none, some, List, [], ◌∷◌, ◌++◌}
use chatvector_ai.Failures.{Exc}
use chatvector_ai.Queue.Jobs.{QueueJob, Settings}
use chatvector_ai.Queue.Asyncio.{
  AsyncioQueue, put_nowait, enqueue, take_job, receive_job, task_done, finished, sleeping, fail_job,
  requeue_job, bury_full,
}

-- The queue, the jobs that workers hold (taken but not received, in the pipeline, asleep before a
-- retry, refused after it by a full queue), the documents of the accepted jobs and of the pipeline runs
-- that were started, latest first, and the counts of the jobs completed and dead.
pub record World : Type 0 where
  pub state : AsyncioQueue
  pub taken : List QueueJob
  pub processing : List QueueJob
  pub asleep : List QueueJob
  pub refused : List QueueJob
  pub accepted : List String
  pub started : List String
  pub completed : ℕ
  pub dead : ℕ

abbrev pub empty_world : World
empty_world = record {
  state = record { queue = []; unfinished = 0; pending_doc_ids = []; dlq = []; effects = [] };
  taken = [];
  processing = [];
  asleep = [];
  refused = [];
  accepted = [];
  started = [];
  completed = 0;
  dead = 0;
}

pub data Step (c : Settings) : World → World → Type 0 where
  submit :
      (w : World) (job : QueueJob) (s : AsyncioQueue) (position : ℕ)
      → job.attempt ≤ c.job_max_retries
      → enqueue c job w.state ≡ some (s, position)
      → Step c w (record w { state = s; accepted = job.doc_id ∷ w.accepted })
  take :
      (w : World) (job : QueueJob) (s : AsyncioQueue)
      → take_job w.state ≡ some (job, s)
      → Step c w (record w { state = s; taken = w.taken ++ job ∷ [] })
  receive :
      (w : World) (before after : List QueueJob) (job : QueueJob)
      → w.taken ≡ before ++ job ∷ after
      → Step c w (record w {
        state = (receive_job job w.state).1;
        taken = before ++ after;
        processing = job ∷ w.processing;
        started = job.doc_id ∷ w.started;
      })
  succeed :
      (w : World) (before after : List QueueJob) (job : QueueJob)
      → w.processing ≡ before ++ job ∷ after
      → Step c w (record w {
        state = task_done w.state;
        processing = before ++ after;
        completed = w.completed + 1;
      })
  give_up :
      (w : World) (before after : List QueueJob) (job : QueueJob) (exc : Exc) (written : Bool)
      (s : AsyncioQueue)
      → w.processing ≡ before ++ job ∷ after
      → fail_job c exc written job w.state ≡ (finished, s)
      → Step c w (record w { state = task_done s; processing = before ++ after; dead = w.dead + 1 })
  retry :
      (w : World) (before after : List QueueJob) (job again : QueueJob) (exc : Exc) (written : Bool)
      (s : AsyncioQueue)
      → w.processing ≡ before ++ job ∷ after
      → fail_job c exc written job w.state ≡ (sleeping again, s)
      → Step c w (record w { state = s; processing = before ++ after; asleep = again ∷ w.asleep })
  wake :
      (w : World) (before after : List QueueJob) (job : QueueJob) (written : Bool)
      (s : AsyncioQueue)
      → w.asleep ≡ before ++ job ∷ after
      → put_nowait c job w.state ≡ some s
      → Step c w (record w {
        state = task_done (requeue_job c written job w.state);
        asleep = before ++ after;
      })
  refuse :
      (w : World) (before after : List QueueJob) (job : QueueJob)
      → w.asleep ≡ before ++ job ∷ after
      → put_nowait c job w.state ≡ none
      → Step c w (record w { asleep = before ++ after; refused = job ∷ w.refused })
  bury :
      (w : World) (before after : List QueueJob) (job : QueueJob) (written : Bool)
      → w.refused ≡ before ++ job ∷ after
      → Step c w (record w {
        state = task_done (bury_full c written job w.state);
        refused = before ++ after;
        dead = w.dead + 1;
      })

pub data Reach (c : Settings) : World → Type 0 where
  start : Reach c empty_world
  next : {w v : World} → Reach c w → Step c w v → Reach c v
