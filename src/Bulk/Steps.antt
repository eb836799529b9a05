-- ===== src/Bulk/Steps.antt =====
-- The workers of a bulk upload as steps, for threads and for tasks alike
-- (sdk/python/chatvector/_bulk_upload.py, `process_index`). Paths may be taken in any order.
pub mod Order
pub mod Progress
use chatvector_ai.Prelude.{
  ℕ, ◌+◌, ◌<◌, ◌≡◌, Bool, true, false, not, ◌&&◌, ◌||◌, List, [], ◌∷◌, ◌++◌, map,
}
use chatvector_ai.Bulk.{
  Job, Options, BulkUploadResult, BulkUploadSummary, success, build_summary, result_of,
  aborted_result, not_run_result,
}

-- A path is to be taken, is uploaded, has a result that waits for the lock, or has its slot filled.
pub data State : Type 0 where
  waiting : State
  uploading : State
  locking : BulkUploadResult → State
  written : BulkUploadResult → State

abbrev pub Slot : Type 0
Slot = Job × State

pub record World : Type 0 where
  pub slots : List Slot
  pub abort : Bool

abbrev pub started : List Job → World
started jobs = record { slots = map (λ job. (job, waiting)) jobs; abort = false }

-- `[item if item is not None else …]`
unfoldable pub materialize : List Slot → List BulkUploadResult
unfolding not_run_result
materialize [] = []
materialize ((job, written r) ∷ slots) = r ∷ materialize slots
materialize ((job, state) ∷ slots) = not_run_result job ∷ materialize slots

unfoldable pub count_uploading : List Slot → ℕ
count_uploading [] = 0
count_uploading ((job, uploading) ∷ slots) = 1 + count_uploading slots
count_uploading ((job, locking r) ∷ slots) = 1 + count_uploading slots
count_uploading ((job, state) ∷ slots) = count_uploading slots

-- The workers that are busy.
unfoldable pub busy : World → ℕ
unfolding count_uploading
busy w = count_uploading w.slots

pub data Step (o : Options) (workers : ℕ) : World → World → Type 0 where
  begin :
      (w : World) (before after : List Slot) (job : Job)
      → w.slots ≡ before ++ (job, waiting) ∷ after
      → busy w < workers
      → (o.fail_fast && w.abort) ≡ false
      → Step o workers w (record w { slots = before ++ (job, uploading) ∷ after })
  skip :
      (w : World) (before after : List Slot) (job : Job)
      → w.slots ≡ before ++ (job, waiting) ∷ after
      → busy w < workers
      → (o.fail_fast && w.abort) ≡ true
      → Step o workers w
          (record w { slots = before ++ (job, locking (aborted_result job)) ∷ after })
  settle :
      (w : World) (before after : List Slot) (job : Job)
      → w.slots ≡ before ++ (job, uploading) ∷ after
      → Step o workers w (record {
        slots = before ++ (job, locking (result_of o job)) ∷ after;
        abort = w.abort || (o.fail_fast && not (success (result_of o job)));
      })
  write :
      (w : World) (before after : List Slot) (job : Job) (result : BulkUploadResult)
      → w.slots ≡ before ++ (job, locking result) ∷ after
      → Step o workers w (record w { slots = before ++ (job, written result) ∷ after })

pub data Reach (o : Options) (workers : ℕ) (jobs : List Job) : World → Type 0 where
  start : Reach o workers jobs (started jobs)
  next : {w v : World} → Reach o workers jobs w → Step o workers w v → Reach o workers jobs v
