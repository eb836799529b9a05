-- ===== src/Queue/Asyncio/Work.antt =====
-- How often the in-memory queue runs its pipeline (backend/services/queue_asyncio.py): the retries of
-- a document are bounded, whatever fails and however the workers interleave.
use mathlib.Core.Path.{subst}
use chatvector_ai.Prelude.{
  String, ℕ, ◌+◌, ◌*◌, ◌≤◌, ◌≡◌, sym, ap, ◌∙◌, List, [], ◌∷◌, ◌++◌, arith, All, All-append,
}
use chatvector_ai.Queue.Jobs.{QueueJob, Settings}
use chatvector_ai.Queue.Asyncio.{receive_job, task_done}
use chatvector_ai.Queue.Asyncio.Steps.{
  World, Step, submit, take, receive, succeed, give_up, retry, wake, refuse, bury, Reach, start,
  next,
}
use chatvector_ai.Queue.Asyncio.Changes.{
  bury_full_keeps, fail_job-retry, fail_job-finished, enqueue-queue, take_job-queue,
  requeue_job-queue,
}
use chatvector_ai.Queue.Asyncio.Shares.{
  count, share, runs_left, runs_left-append, runs_left-remove, share-accepted, share-started,
  share-retry,
}

All-remove {ℓ κ} :
    {A : Type ℓ} (P : A → Type κ) (before after : List A) (x : A)
    → All P (before ++ x ∷ after)
    → P x × All P (before ++ after)
All-remove P [] after x h = (h.0, h.1)
All-remove P (b ∷ before) after x h =
    let (px, rest) = All-remove P before after x h.1 in (px, (h.0, rest))

abbrev pub WithinRetries : Settings → QueueJob → Type 0
WithinRetries c job = job.attempt ≤ c.job_max_retries

pub record IsBounded (c : Settings) (w : World) : Type 0 where
  pub waiting : All (WithinRetries c) w.state.queue
  pub handed : All (WithinRetries c) w.taken
  pub running : All (WithinRetries c) w.processing
  pub resting : All (WithinRetries c) w.asleep
  pub spent :
      (d : String)
      → count d w.started
          + runs_left d c.job_max_retries 1 w.state.queue
          + runs_left d c.job_max_retries 1 w.taken
          + runs_left d c.job_max_retries 0 w.processing
          + runs_left d c.job_max_retries 1 w.asleep
        ≤ count d w.accepted * (c.job_max_retries + 1)

-- One more job at the end of the queue.
module _ (c : Settings) (job : QueueJob) (xs ys : List QueueJob) (e : ys ≡ xs ++ job ∷ []) where
  All-snoc : All (WithinRetries c) xs → WithinRetries c job → All (WithinRetries c) ys
  All-snoc h a =
      subst (All (WithinRetries c)) (sym e) (All-append (WithinRetries c) xs (job ∷ []) h (a, tt))

  runs_left-snoc :
      (d : String)
      → runs_left d c.job_max_retries 1 ys
        ≡ runs_left d c.job_max_retries 1 xs + share d c.job_max_retries 1 job
  runs_left-snoc d =
      ap (runs_left d c.job_max_retries 1) e
      ∙ runs_left-append d c.job_max_retries 1 xs (job ∷ [])
      ∙ (omega arith)

-- One job less in a worker's hands.
module _ (c : Settings) (before after : List QueueJob) (job : QueueJob) (xs : List QueueJob)
    (e : xs ≡ before ++ job ∷ after) where
  All-drop :
      All (WithinRetries c) xs → WithinRetries c job × All (WithinRetries c) (before ++ after)
  All-drop h = All-remove (WithinRetries c) before after job (subst (All (WithinRetries c)) e h)

  runs_left-drop :
      (d : String) (k : ℕ)
      → runs_left d c.job_max_retries k xs
        ≡ share d c.job_max_retries k job + runs_left d c.job_max_retries k (before ++ after)
  runs_left-drop d k =
      ap (runs_left d c.job_max_retries k) e
      ∙ runs_left-remove d c.job_max_retries k before after job

module _ (c : Settings) where
  Step-IsBounded : {w v : World} → Step c w v → IsBounded c w → IsBounded c v
  unfolding receive_job task_done count
  Step-IsBounded (submit w job s position a e) v =
      let q = enqueue-queue c job w.state s position e in
      record {
        waiting = All-snoc c job w.state.queue s.queue q v.waiting a;
        handed = v.handed;
        running = v.running;
        resting = v.resting;
        spent = λ d. omega (
          arith,
          v.spent d,
          runs_left-snoc c job w.state.queue s.queue q d,
          share-accepted d c.job_max_retries job,
        );
      }
  Step-IsBounded (take w job s e) v =
      let q = take_job-queue job w.state s e in
      let (a, rest) = subst (All (WithinRetries c)) q v.waiting in
      record {
        waiting = rest;
        handed = All-append (WithinRetries c) w.taken (job ∷ []) v.handed (a, tt);
        running = v.running;
        resting = v.resting;
        spent = λ d. omega (
          arith,
          v.spent d,
          ap (runs_left d c.job_max_retries 1) q,
          runs_left-append d c.job_max_retries 1 w.taken (job ∷ []),
        );
      }
  Step-IsBounded (receive w before after job e) v =
      let (a, handed) = All-drop c before after job w.taken e v.handed in
      record {
        waiting = v.waiting;
        handed = handed;
        running = (a, v.running);
        resting = v.resting;
        spent = λ d. omega (
          arith,
          v.spent d,
          share-started d c.job_max_retries w.started job a,
          runs_left-drop c before after job w.taken e d 1,
        );
      }
  Step-IsBounded (succeed w before after job e) v = record {
    waiting = v.waiting;
    handed = v.handed;
    running = (All-drop c before after job w.processing e v.running).1;
    resting = v.resting;
    spent = λ d. omega (arith, v.spent d, runs_left-drop c before after job w.processing e d 0);
  }
  Step-IsBounded (give_up w before after job exc written s e f) v =
      let q = fail_job-finished c exc written job w.state s f in
      record {
        waiting = rw q v.waiting;
        handed = v.handed;
        running = (All-drop c before after job w.processing e v.running).1;
        resting = v.resting;
        spent = λ d.
            rw q (omega (arith, v.spent d, runs_left-drop c before after job w.processing e d 0));
      }
  Step-IsBounded (retry w before after job again exc written s e f) v =
      let (n, a, q, same) = fail_job-retry c exc written job again w.state s f in
      record {
        waiting = rw q v.waiting;
        handed = v.handed;
        running = (All-drop c before after job w.processing e v.running).1;
        resting = (a, v.resting);
        spent = λ d. rw q (
            omega (
              arith,
              v.spent d,
              share-retry d c.job_max_retries job again same n,
              runs_left-drop c before after job w.processing e d 0,
            ));
      }
  Step-IsBounded (wake w before after job written s e f) v =
      let q = requeue_job-queue c written job w.state s f in
      let (a, resting) = All-drop c before after job w.asleep e v.resting in
      record {
        waiting = All-snoc c job w.state.queue _ q v.waiting a;
        handed = v.handed;
        running = v.running;
        resting = resting;
        spent = λ d. omega (
          arith,
          v.spent d,
          runs_left-snoc c job w.state.queue _ q d,
          runs_left-drop c before after job w.asleep e d 1,
        );
      }
  Step-IsBounded (refuse w before after job e f) v = record {
    waiting = v.waiting;
    handed = v.handed;
    running = v.running;
    resting = (All-drop c before after job w.asleep e v.resting).1;
    spent = λ d. omega (arith, v.spent d, runs_left-drop c before after job w.asleep e d 1);
  }
  Step-IsBounded (bury w before after job written e) v =
      let q = (bury_full_keeps c written job w.state).0 in
      record {
        waiting = rw q v.waiting;
        handed = v.handed;
        running = v.running;
        resting = v.resting;
        spent = λ d. rw q (v.spent d);
      }

  Reach-IsBounded : {w : World} → Reach c w → IsBounded c w
  Reach-IsBounded start = record {
    waiting = tt;
    handed = tt;
    running = tt;
    resting = tt;
    spent = λ d. omega arith;
  }
  Reach-IsBounded (next r step) = Step-IsBounded step (Reach-IsBounded r)

  -- However the workers interleave and whatever fails, where no job is submitted with more attempts
  -- behind it than there are retries: the pipeline has been started for a document at most once more
  -- than the number of retries for each accepted job of that document, and no running job has more
  -- attempts behind it than there are retries.
  pub starts-le :
      {w : World}
      → Reach c w
      → ((doc_id : String)
          → count doc_id w.started ≤ count doc_id w.accepted * (c.job_max_retries + 1))
        × All (WithinRetries c) w.processing
  starts-le r = let v = Reach-IsBounded r in (λ d. omega (arith, v.spent d), v.running)
