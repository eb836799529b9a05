-- ===== src/Queue/Asyncio.antt =====
-- The in-memory ingestion queue, method by method (backend/services/queue_asyncio.py).
pub mod Steps
pub mod Changes
pub mod Shares
pub mod Invariant
pub mod Work
pub mod Position
pub mod Effects
use chatvector_ai.Prelude.{
  ℕ, zero, suc, ◌+◌, ◌-◌, String, str_eq, Bool, true, false, not, ◌&&◌, Option, none, some, List,
  [], ◌∷◌, ◌++◌, ltb, leb, length, drop, if◌then◌else◌,
}
use chatvector_ai.Failures.{Exc, ingestion_failure_is_terminal}
use chatvector_ai.Queue.Jobs.{QueueJob, DlqEntry, Settings}
use chatvector_ai.Queue.Outcome.{Effect, retrying_effect, record_terminal_ingestion_failure}

-- `asyncio.Queue` with its count of unfinished tasks, the mirror of its order, the dead letters, and
-- the calls that have left the queue, newest last.
pub record AsyncioQueue : Type 0 where
  pub queue : List QueueJob
  pub unfinished : ℕ
  pub pending_doc_ids : List String
  pub dlq : List DlqEntry
  pub effects : List Effect

-- `_append_dlq`
unfoldable pub append_dlq : Settings → DlqEntry → AsyncioQueue → AsyncioQueue
append_dlq c entry s =
    let entries = s.dlq ++ entry ∷ [] in
    let overflow = length entries - c.dlq_max_entries in
    record s { dlq = if ltb 0 overflow then drop overflow entries else entries }

-- `put_nowait`; nothing is `asyncio.QueueFull`, which a `maxsize` of 0 rules out.
unfoldable pub put_nowait : Settings → QueueJob → AsyncioQueue → Option AsyncioQueue
put_nowait c job s =
    if ltb 0 c.max_size && leb c.max_size (length s.queue)
    then none
    else some (record s { queue = s.queue ++ job ∷ []; unfinished = s.unfinished + 1 })

note_pending : QueueJob → AsyncioQueue → AsyncioQueue
note_pending job s = record s { pending_doc_ids = s.pending_doc_ids ++ job.doc_id ∷ [] }

-- Nothing is `QueueFull`; otherwise the new state and the position.
unfoldable pub enqueue : Settings → QueueJob → AsyncioQueue → Option (AsyncioQueue × ℕ)
unfolding note_pending
enqueue c job s = elim (put_nowait c job s) [
  | none ↦ none
  | some s' ↦ some (note_pending job s', length s'.queue)
]

position_from : ℕ → String → List String → Option ℕ
position_from i doc_id [] = none
position_from i doc_id (d ∷ ds) =
    if str_eq d doc_id then some (i + 1) else position_from (i + 1) doc_id ds

unfoldable pub queue_position : String → AsyncioQueue → Option ℕ
unfolding position_from
queue_position doc_id s = position_from 0 doc_id s.pending_doc_ids

-- `self._queue.get()`: the task inside `wait_for` takes the oldest job.
unfoldable pub take_job : AsyncioQueue → Option (QueueJob × AsyncioQueue)
take_job s = elim s.queue [ [] ↦ none | job ∷ rest ↦ some (job, record s { queue = rest }) ]

-- What the worker does when `wait_for` hands it the job: the head of the mirror goes, and the error
-- that it logs is none, a mismatch, or an empty mirror.
pub data OrderCheck : Type 0 where
  in_order order_mismatch pending_empty : OrderCheck

pop_pending : QueueJob → List String → OrderCheck × List String
pop_pending job [] = (pending_empty, [])
pop_pending job (head ∷ rest) = (if str_eq head job.doc_id then in_order else order_mismatch, rest)

unfoldable pub receive_job : QueueJob → AsyncioQueue → OrderCheck × AsyncioQueue
unfolding pop_pending
receive_job job s =
    let (check, rest) = pop_pending job s.pending_doc_ids in
    (check, record s { pending_doc_ids = rest })

-- `self._queue.task_done()`
unfoldable pub task_done : AsyncioQueue → AsyncioQueue
task_done s = record s { unfinished = s.unfinished - 1 }

-- `str(exc)`
unfoldable pub message_of : Exc → List ℕ
message_of Exc.timeout_error = []
message_of (Exc.provider_rate_limit m) = m
message_of (Exc.provider_timeout m) = m
message_of (Exc.provider_connection m) = m
message_of (Exc.provider_auth m) = m
message_of (Exc.provider_error m) = m
message_of (Exc.integrity_error m) = m
message_of (Exc.data_error m) = m
message_of (Exc.programming_error m) = m
message_of (Exc.statement_error o m) = m
message_of (Exc.upload_error c m) = m
message_of (Exc.other_error m) = m

unfoldable pub dead_letter : QueueJob → List ℕ → DlqEntry
dead_letter job error = record {
  doc_id = job.doc_id;
  file_name = job.file_name;
  content_type = job.content_type;
  attempt = job.attempt;
  error = error;
  tenant_id = job.tenant_id;
}

-- How `_process_job` goes on after a failed attempt: it is over, or it sleeps with the job.
pub data Handled : Type 0 where
  finished : Handled
  sleeping : QueueJob → Handled

emit : List Effect → AsyncioQueue → AsyncioQueue
emit es s = record s { effects = s.effects ++ es }

-- The handler of `_process_job` up to `asyncio.sleep`. `written` says whether the status write
-- succeeds; if it raises, the error is logged and the job goes on.
unfoldable pub fail_job : Settings → Exc → Bool → QueueJob → AsyncioQueue → Handled × AsyncioQueue
unfolding emit message_of dead_letter
fail_job c exc written job s =
    if ingestion_failure_is_terminal c.job_max_retries exc job.attempt
    then (finished, append_dlq c (dead_letter job (message_of exc)) s)
    else if ltb job.attempt c.job_max_retries
    then (let again = record job { attempt = job.attempt + 1 } in
        (sleeping again, emit (if written then retrying_effect again ∷ [] else []) s))
    else (finished, append_dlq c (dead_letter job (message_of exc)) s)

-- `if job.tenant_id`
unfoldable pub has_tenant : QueueJob → Bool
has_tenant job = elim job.tenant_id [ none ↦ false | some t ↦ not (str_eq t "") ]

-- The handler from `asyncio.QueueFull` on.
unfoldable pub bury_full : Settings → Bool → QueueJob → AsyncioQueue → AsyncioQueue
unfolding emit dead_letter has_tenant
bury_full c written job s = append_dlq c (dead_letter job c.queue_full_message) (
    emit
      (if has_tenant job && written
        then record_terminal_ingestion_failure c.webhook_enabled job.doc_id job.replace
        else [])
      s)

-- The handler from the end of the sleep on.
unfoldable pub requeue_job : Settings → Bool → QueueJob → AsyncioQueue → AsyncioQueue
unfolding note_pending bury_full
requeue_job c written job s = elim (put_nowait c job s) [
  | some s' ↦ note_pending job s'
  | none ↦ bury_full c written job s
]
