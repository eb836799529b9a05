-- ===== src/Queue/Asyncio/Shares.antt =====
-- The pipeline runs that jobs of the in-memory queue may still start
-- (backend/services/queue_asyncio.py).

use chatvector_ai.Prelude.{
  String, str_eq, if◌then◌else◌, Bool-cases, inl, inr, ℕ, ◌+◌, ◌-◌, ◌*◌, ◌≤◌, ◌≡◌, refl, List, [],
  ◌∷◌, ◌++◌, arith,
}
use chatvector_ai.Queue.Jobs.{QueueJob}

-- How often a document is listed.
unfoldable pub count : String → List String → ℕ
count doc_id [] = 0
count doc_id (d ∷ ds) = (if str_eq d doc_id then 1 else 0) + count doc_id ds

-- The pipeline runs of a document that a job may still start, `extra` of them for the attempt that is
-- due.
unfoldable pub share : String → ℕ → ℕ → QueueJob → ℕ
share doc_id max_retries extra job =
    if str_eq job.doc_id doc_id then max_retries + extra - job.attempt else 0

abbrev pub runs_left : String → ℕ → ℕ → List QueueJob → ℕ
runs_left doc_id max_retries extra [] = 0
runs_left doc_id max_retries extra (job ∷ jobs) =
    share doc_id max_retries extra job + runs_left doc_id max_retries extra jobs

pub runs_left-append :
    (d : String) (m k : ℕ) (xs ys : List QueueJob)
    → runs_left d m k (xs ++ ys) ≡ runs_left d m k xs + runs_left d m k ys
runs_left-append d m k [] ys = omega arith
runs_left-append d m k (x ∷ xs) ys = omega (arith, runs_left-append d m k xs ys)

pub runs_left-remove :
    (d : String) (m k : ℕ) (before after : List QueueJob) (x : QueueJob)
    → runs_left d m k (before ++ x ∷ after) ≡ share d m k x + runs_left d m k (before ++ after)
runs_left-remove d m k [] after x = refl
runs_left-remove d m k (b ∷ before) after x = omega (arith, runs_left-remove d m k before after x)

-- Accepting a job brings its runs, a run takes one of them, and a retry none.
pub share-accepted :
    (d : String) (m : ℕ) (job : QueueJob)
    → share d m 1 job ≤ (if str_eq job.doc_id d then 1 else 0) * (m + 1)
unfolding share
share-accepted d m job = elim (Bool-cases (str_eq job.doc_id d)) [
  | inl same ↦ rw same (omega arith)
  | inr other ↦ rw other (omega arith)
]

pub share-started :
    (d : String) (m : ℕ) (ds : List String) (job : QueueJob)
    → job.attempt ≤ m
    → count d (job.doc_id ∷ ds) + share d m 0 job ≡ count d ds + share d m 1 job
unfolding share count
share-started d m ds job h = ground arith

pub share-retry :
    (d : String) (m : ℕ) (job again : QueueJob)
    → again.doc_id ≡ job.doc_id
    → again.attempt ≡ job.attempt + 1
    → share d m 1 again ≤ share d m 0 job
unfolding share
share-retry d m job again e h = rw e (ground arith)
