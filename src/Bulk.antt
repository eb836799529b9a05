-- ===== src/Bulk.antt =====
-- Bulk uploads of the client (sdk/python/chatvector/_bulk_upload.py). The listing of a directory, the
-- progress callback and exceptions other than ChatVectorAPIError are not modelled; documents and
-- errors are texts.
pub mod Steps
mod Examples
use chatvector_ai.Prelude.{
  ◌*◌, ℕ, zero, suc, ◌+◌, ◌-◌, Bool, true, false, not, ◌||◌, Option, none, some, List, [], ◌∷◌,
  length, min, ltb, is_empty, if◌then◌else◌,
}
use chatvector_ai.Prelude.Int.{ℤ, clamp_zero}
use chatvector_ai.Text.{codes}

-- One call of the upload: a document id, a rate limit error with the Retry-After of its response, if
-- there is one, or another error.
pub data Attempt : Type 0 where
  uploaded : List ℕ → Attempt
  rate_limited : List ℕ → Option ℤ → Attempt
  api_error : List ℕ → Attempt

-- `_rate_limit_sleep_seconds`, in whole ticks of which `second` make a second.
unfoldable pub rate_limit_sleep_seconds : ℕ → Option ℤ → ℕ
rate_limit_sleep_seconds second none = second
rate_limit_sleep_seconds second (some retry_after) = min (clamp_zero retry_after) (60 * second)

-- A document or an error.
pub data Ended : Type 0 where
  document : List ℕ → Ended
  error : List ℕ → Ended

-- How the calls end, how many there were, and the sleeps between them.
pub record Upload : Type 0 where
  pub ended : Ended
  pub calls : ℕ
  pub sleeps : List ℕ

slept : ℕ → Upload → Upload
slept delay u = record u { calls = u.calls + 1; sleeps = delay ∷ u.sleeps }

-- The loop, with the retries left and the number of calls made.
unfoldable pub upload_loop : (ℕ → Attempt) → ℕ → Bool → ℕ → ℕ → Upload
unfolding slept rate_limit_sleep_seconds
upload_loop upload second retry_on_rate_limit zero attempts = elim (upload attempts) [
  | uploaded d ↦ record { ended = document d; calls = 1; sleeps = [] }
  | rate_limited e after ↦ record { ended = error e; calls = 1; sleeps = [] }
  | api_error e ↦ record { ended = error e; calls = 1; sleeps = [] }
]
upload_loop upload second retry_on_rate_limit (suc left) attempts =
    let rest = upload_loop upload second retry_on_rate_limit left (attempts + 1) in
    elim (upload attempts) [
      | uploaded d ↦ record { ended = document d; calls = 1; sleeps = [] }
      | rate_limited e after ↦
          if retry_on_rate_limit
          then slept (rate_limit_sleep_seconds second after) rest
          else record { ended = error e; calls = 1; sleeps = [] }
      | api_error e ↦ record { ended = error e; calls = 1; sleeps = [] }
    ]

-- `_upload_with_optional_rate_limit_retry`; the asynchronous one is the same.
unfoldable pub upload_with_optional_rate_limit_retry : (ℕ → Attempt) → ℕ → Bool → ℕ → Upload
unfolding upload_loop
upload_with_optional_rate_limit_retry upload second retry_on_rate_limit max_rate_limit_retries =
    upload_loop upload second retry_on_rate_limit max_rate_limit_retries 0

-- BulkUploadResult: the path, and a document or an error.
pub record BulkUploadResult : Type 0 where
  pub file_path : List ℕ
  pub ended : Ended

unfoldable pub success : BulkUploadResult → Bool
success r = elim r.ended [ document d ↦ true | error e ↦ false ]

pub record BulkUploadSummary : Type 0 where
  pub count : ℕ
  pub success_count : ℕ
  pub failure_count : ℕ
  pub results : List BulkUploadResult

count_success : List BulkUploadResult → ℕ
unfolding success
count_success [] = 0
count_success (r ∷ rs) = (if success r then 1 else 0) + count_success rs

-- `_build_summary`
unfoldable pub build_summary : List BulkUploadResult → BulkUploadSummary
unfolding count_success
build_summary results = record {
  count = length results;
  success_count = count_success results;
  failure_count = length results - count_success results;
  results = results;
}

-- A path with its calls of the upload, and the error that waiting for the document raises, if it does.
pub record Job : Type 0 where
  pub file_path : List ℕ
  pub upload : ℕ → Attempt
  pub wait_error : Option (List ℕ)

-- The arguments that all paths share; `wait_ready` says whether there is a `wait_ready_fn`.
pub record Options : Type 0 where
  pub fail_fast : Bool
  pub retry_on_rate_limit : Bool
  pub max_rate_limit_retries : ℕ
  pub wait_ready : Bool
  pub second : ℕ

-- `if wait_ready_fn is not None and document.document_id`
await_ready : Options → Job → Ended → Ended
await_ready o job (error e) = error e
await_ready o job (document d) =
    if o.wait_ready
    then (if is_empty d
        then document d
        else elim job.wait_error [ none ↦ document d | some e ↦ error e ])
    else document d

-- The result of `process_index` on a path that is not skipped.
unfoldable pub result_of : Options → Job → BulkUploadResult
unfolding await_ready upload_with_optional_rate_limit_retry
result_of o job = record {
  file_path = job.file_path;
  ended =
      await_ready o job
        (upload_with_optional_rate_limit_retry job.upload o.second o.retry_on_rate_limit
          o.max_rate_limit_retries).ended;
}

-- The results of a path that is skipped, and of one that was not run.
module _ where
  unfoldable pub aborted_result : Job → BulkUploadResult
  aborted_result job = record {
    file_path = job.file_path;
    ended = error (codes "Bulk upload aborted after fail_fast failure.");
  }

  unfoldable pub not_run_result : Job → BulkUploadResult
  not_run_result job = record {
    file_path = job.file_path;
    ended = error (codes "Bulk upload did not run.");
  }
