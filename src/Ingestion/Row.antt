-- ===== src/Ingestion/Row.antt =====
-- A document's row and chunks, and the transactions that the ingestion runs on them
-- (backend/db/sqlalchemy_service.py). The row exists; its job metadata and timestamps are left out.
use chatvector_ai.Ingestion.Records.{ChunkRecord}
use chatvector_ai.Prelude.{
  ℕ, String, Bool, true, false, not, ◌||◌, Option, none, some, List, [], length, if◌then◌else◌,
}

-- documents.status
pub data Status : Type 0 where
  queued uploaded extracting chunking embedding storing retrying completed failed : Status

-- documents.status_detail
pub data Detail : Type 0 where
  replacement_in_progress replacement_failed : Detail

-- An error with its stage, code and message, and the one that an error keeps under `prior_error`.
pub record Failure : Type 0 where
  pub stage : String
  pub code : String
  pub message : String

pub record StoredError : Type 0 where
  pub failure : Failure
  pub prior_error : Option Failure

pub record Row : Type 0 where
  pub file_name : List ℕ
  pub status : Status
  pub status_detail : Option Detail
  pub error : Option StoredError
  pub total : ℕ
  pub processed : ℕ
  pub stored : List ChunkRecord

unfoldable pub is_completed : Status → Bool
is_completed completed = true
is_completed s = false

unfoldable pub is_failed : Status → Bool
is_failed failed = true
is_failed s = false

-- `document.error` after an update to `status` with `error`
next_error : Status → Option StoredError → Option StoredError → Option StoredError
unfolding is_failed
next_error status (some error) old = some error
next_error status none old = if is_failed status then old else none

-- `update_document_status`; `chunks` is the total and the processed number.
unfoldable pub update_document_status : Status → Option StoredError → Option (ℕ × ℕ) → Row → Row
unfolding next_error
update_document_status status error none row = record row {
  status = status;
  error = next_error status error row.error;
}
update_document_status status error (some (total, processed)) row = record row {
  status = status;
  error = next_error status error row.error;
  total = total;
  processed = processed;
}

-- `_replacement_error_preserving_prior`
unfoldable pub replacement_error_preserving_prior :
    Status → Option StoredError → Option Detail → StoredError → StoredError
replacement_error_preserving_prior failed (some existing) (some replacement_failed) new_error =
    elim existing.prior_error [
      | some prior ↦ record new_error { prior_error = some prior }
      | none ↦ record new_error { prior_error = some existing.failure }
    ]
replacement_error_preserving_prior status existing detail new_error = new_error

detail_error : Status → Option StoredError → Option Detail → Option StoredError → Option StoredError
unfolding replacement_error_preserving_prior
detail_error status old detail none = old
detail_error status old detail (some error) =
    some (replacement_error_preserving_prior status old detail error)

-- `set_document_status_detail`
unfoldable pub set_document_status_detail : Option Detail → Option StoredError → Row → Row
unfolding detail_error
set_document_status_detail detail error row = record row {
  status_detail = detail;
  error = detail_error row.status row.error detail error;
}

pub data Begun : Type 0 where
  in_progress not_eligible started : Begun

is_in_progress : Option Detail → Bool
is_in_progress (some replacement_in_progress) = true
is_in_progress detail = false

-- `begin_document_replacement`
unfoldable pub begin_document_replacement : Row → Begun × Row
unfolding is_in_progress is_completed is_failed
begin_document_replacement row =
    if is_in_progress row.status_detail
    then (in_progress, row)
    else if not (is_completed row.status || is_failed row.status)
    then (not_eligible, row)
    else (
      started,
      record row {
        status_detail = some replacement_in_progress;
        error = if is_completed row.status then none else row.error;
      },
    )

-- `store_chunks_with_embeddings`: the old chunks go in the same transaction.
unfoldable pub store_chunks_with_embeddings : List ChunkRecord → Row → Row
store_chunks_with_embeddings records row = record row { stored = records }

-- `replace_document_content`
unfoldable pub replace_document_content : List ChunkRecord → List ℕ → Row → Row
replace_document_content records file_name row = record row {
  stored = records;
  file_name = file_name;
  status = completed;
  status_detail = none;
  error = none;
  total = length records;
  processed = length records;
}

-- `delete_document_chunks`
unfoldable pub delete_document_chunks : Row → Row
delete_document_chunks row = record row { stored = [] }
