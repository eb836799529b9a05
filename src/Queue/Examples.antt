-- ===== src/Queue/Examples.antt =====
-- A job that fails once and is tried again (backend/services/queue_asyncio.py).
use chatvector_ai.Prelude.{
  ℕ, ◌+◌, ◌*◌, ◌≤◌, ◌<◌, ◌≡◌, ◌≢◌, refl, String, eq_iff, true, false, Bool, none, some, List, [],
  ◌∷◌, All, arith,
}
use chatvector_ai.Text.{codes}
use chatvector_ai.Failures.{
  is_transient_error, is_retryable_ingestion_failure, timeout_error, ingestion_failure_is_terminal,
}
use chatvector_ai.Queue.Jobs.{QueueJob, Settings}
use chatvector_ai.Queue.Outcome.{retrying_effect, Effect, update_document_status}
use chatvector_ai.Queue.Asyncio.{
  task_done, take_job, put_nowait, AsyncioQueue, enqueue, receive_job, order_mismatch,
  queue_position, fail_job, requeue_job,
}
use chatvector_ai.Queue.Asyncio.Steps.{
  World, empty_world, Reach, start, next, submit, take, receive, retry, wake,
}
use chatvector_ai.Queue.Asyncio.Invariant.{IsValid, Reach-IsValid}
use chatvector_ai.Queue.Asyncio.Shares.{count}
use chatvector_ai.Queue.Asyncio.Work.{WithinRetries, starts-le}

abbrev settings : Settings
settings = record {
  max_size = 2;
  dlq_max_entries = 1;
  job_max_retries = 1;
  webhook_enabled = true;
  queue_full_message = codes "Ingestion queue is at capacity (2)";
}

abbrev job_of : String → ℕ → Bool → QueueJob
job_of doc_id attempt replace = record {
  doc_id = doc_id;
  file_name = "a.txt";
  content_type = "text/plain";
  file_bytes = 1 ∷ 2 ∷ [];
  tenant_id = some "acme";
  attempt = attempt;
  replace = replace;
  metadata = none;
}

abbrev state_of : List QueueJob → ℕ → List String → List Effect → AsyncioQueue
state_of queue unfinished pending effects = record {
  queue = queue;
  unfinished = unfinished;
  pending_doc_ids = pending;
  dlq = [];
  effects = effects;
}

abbrev first : QueueJob
first = job_of "d" 0 false

abbrev again : QueueJob
again = job_of "d" 1 false

abbrev second : QueueJob
second = job_of "e" 0 true

abbrev submitted : World
submitted = record empty_world {
  state = state_of (first ∷ []) 1 ("d" ∷ []) [];
  accepted = "d" ∷ [];
}

abbrev handed : World
handed = record submitted { state = state_of [] 1 ("d" ∷ []) []; taken = first ∷ [] }

abbrev running : World
running = record handed {
  state = state_of [] 1 [] [];
  taken = [];
  processing = first ∷ [];
  started = "d" ∷ [];
}

abbrev retried : List Effect
retried = update_document_status "d" "retrying" (some 2) ∷ []

abbrev resting : World
resting = record running { state = state_of [] 1 [] retried; processing = []; asleep = again ∷ [] }

abbrev waiting : World
waiting = record resting { state = state_of (again ∷ []) 1 ("d" ∷ []) retried; asleep = [] }

submitted-Reach : Reach settings submitted
unfolding enqueue put_nowait
submitted-Reach =
    next start
      (submit empty_world first (state_of (first ∷ []) 1 ("d" ∷ []) []) 1 (omega arith) refl)

handed-Reach : Reach settings handed
unfolding take_job
handed-Reach = next submitted-Reach (take submitted first (state_of [] 1 ("d" ∷ []) []) refl)

running-Reach : Reach settings running
unfolding receive_job
running-Reach = next handed-Reach (receive handed [] [] first refl)

resting-Reach : Reach settings resting
unfolding fail_job ingestion_failure_is_terminal is_retryable_ingestion_failure is_transient_error
    retrying_effect
resting-Reach =
    next running-Reach
      (retry running [] [] first again timeout_error true (state_of [] 1 [] retried) refl refl)

waiting-Reach : Reach settings waiting
unfolding put_nowait task_done requeue_job
waiting-Reach =
    next resting-Reach
      (wake resting [] [] again true (state_of (again ∷ []) 2 [] retried) refl refl)

has_room : 0 < 2
has_room = omega arith

Reach-IsValid_example : IsValid settings waiting
Reach-IsValid_example = Reach-IsValid settings has_room waiting-Reach

starts-le_example :
    ((doc_id : String) → count doc_id ("d" ∷ []) ≤ count doc_id ("d" ∷ []) * (1 + 1))
    × All (WithinRetries settings) (first ∷ [])
starts-le_example = starts-le settings running-Reach

abbrev d : String
d = "d"

abbrev e : String
e = "e"

d-ne-e : d ≢ e
d-ne-e h = ground (arith, eq_iff d e)

second_accepted :
    enqueue settings second handed.state ≡ some (state_of (second ∷ []) 2 (d ∷ e ∷ []) [], 1)
unfolding enqueue put_nowait
second_accepted = refl

-- Two workers that received in the other order.
abbrev both_taken : World
both_taken = record empty_world {
  state = state_of [] 2 (d ∷ e ∷ []) [];
  taken = first ∷ second ∷ [];
  accepted = e ∷ d ∷ [];
}

both_taken-Reach : Reach settings both_taken
unfolding enqueue put_nowait take_job
both_taken-Reach =
    next
      (next
        (next submitted-Reach (
          submit submitted second (state_of (first ∷ second ∷ []) 2 (d ∷ e ∷ []) []) 2 (omega arith)
            refl))
        (take _ first (state_of (second ∷ []) 2 (d ∷ e ∷ []) []) refl))
      (take _ second (state_of [] 2 (d ∷ e ∷ []) []) refl)

received_out_of_order :
    ((receive_job second both_taken.state).0 ≡ order_mismatch)
    × (queue_position d (receive_job second both_taken.state).1 ≡ none)
unfolding receive_job queue_position
received_out_of_order = (refl, refl)
