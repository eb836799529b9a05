-- ===== src/Queue/Contract.antt =====
-- What both queue backends promise of a failed attempt and of a submission, without their data
-- structures (backend/services/queue_base.py, `BaseIngestionQueue`).
pub mod InMemory
pub mod Persistent
mod Examples
use chatvector_ai.Prelude.{
  ℕ, ◌+◌, Bool, Option, none, some, List, [], ◌∷◌, ◌++◌, map, leb, length, if◌then◌else◌, take_last,
  ◌&&◌,
}
use chatvector_ai.Failures.{Exc, ingestion_failure_is_terminal}
use chatvector_ai.Queue.Jobs.{QueueJob, DlqEntry, Settings}
use chatvector_ai.Queue.Outcome.{Effect, retrying_effect, record_terminal_ingestion_failure}
use chatvector_ai.Queue.Asyncio.{message_of, dead_letter, has_tenant}
use chatvector_ai.Queue.Redis.Jobs.{rq_job_id}

-- The attempts that wait, each by document and number, the dead letters and the status writes.
pub record Backlog : Type 0 where
  pub waiting : List (List ℕ)
  pub dead : List DlqEntry
  pub writes : List Effect

abbrev pub attempt_id : QueueJob → List ℕ
attempt_id job = rq_job_id job.doc_id job.attempt

-- The dead letters are the last ones, up to their bound.
abbrev pub bury : Settings → DlqEntry → Backlog → Backlog
bury c entry b = record b { dead = take_last c.dlq_max_entries (b.dead ++ entry ∷ []) }

abbrev pub write : List Effect → Backlog → Backlog
write es b = record b { writes = b.writes ++ es }

-- A failed attempt ends the job or gives the next attempt.
unfoldable pub failed : Settings → Exc → Bool → QueueJob → Backlog → Option QueueJob × Backlog
failed c exc written job b =
    if ingestion_failure_is_terminal c.job_max_retries exc job.attempt
    then (none, bury c (dead_letter job (message_of exc)) b)
    else (let again = record job { attempt = job.attempt + 1 } in
        (some again, write (if written then retrying_effect again ∷ [] else []) b))

-- An attempt whose sleep is over waits again, or dies where the queue is full.
unfoldable pub woken : Settings → Bool → QueueJob → Backlog → Backlog
woken c written job b =
    if leb c.max_size (length b.waiting)
    then bury c (dead_letter job c.queue_full_message) (
        write
          (if has_tenant job && written
            then record_terminal_ingestion_failure c.webhook_enabled job.doc_id job.replace
            else [])
          b)
    else record b { waiting = b.waiting ++ attempt_id job ∷ [] }

-- A submission is refused where the queue is full, and else waits behind the others.
unfoldable pub submitted : Settings → QueueJob → Backlog → Option Backlog
submitted c job b =
    if leb c.max_size (length b.waiting)
    then none
    else some (record b { waiting = b.waiting ++ attempt_id job ∷ [] })
