-- ===== src/Bulk/Examples.antt =====
-- Two files, the second of which is rate limited at first (sdk/python/chatvector/_bulk_upload.py).
use chatvector_ai.Prelude.{
  ◌*◌, zero, suc, ℕ, ◌≤◌, ◌<◌, ◌≡◌, ◌⊎◌, refl, true, false, none, [], ◌∷◌, All, arith,
}
use chatvector_ai.Text.{codes}
use chatvector_ai.Bulk.{
  Attempt, uploaded, rate_limited, Job, Options, BulkUploadResult, document, result_of,
}
use chatvector_ai.Bulk.Steps.{
  busy, State, uploading, locking, written, World, started, materialize, Step, begin, settle, write,
  Reach, start, next,
}
use chatvector_ai.Bulk.Steps.Order.{IsWritten, Answers, Reach-Answers}
use chatvector_ai.Bulk.Steps.Progress.{Run, stay, more, bulk_upload_ends}

abbrev options : Options
options = record {
  fail_fast = false;
  retry_on_rate_limit = true;
  max_rate_limit_retries = 1;
  wait_ready = false;
  second = 1;
}

abbrev limited_once : ℕ → Attempt
limited_once zero = rate_limited (codes "slow down") none
limited_once (suc n) = uploaded (codes "d")

abbrev job : Job
job = record { file_path = codes "a.txt"; upload = limited_once; wait_error = none }

abbrev result : BulkUploadResult
result = record { file_path = codes "a.txt"; ended = document (codes "d") }

result_is : result_of options job ≡ result
unfolding result_of
result_is = refl

abbrev world_at : State → World
world_at s = record { slots = (job, s) ∷ []; abort = false }

one : 0 < 1
one = omega arith

abbrev own : BulkUploadResult
own = result_of options job

done-Reach : Reach options 1 (job ∷ []) (world_at (written own))
unfolding busy
done-Reach =
    next
      (next (next start (begin (started (job ∷ [])) [] [] job refl one refl))
        (settle (world_at uploading) [] [] job refl))
      (write (world_at (locking own)) [] [] job own refl)

Reach-Answers_example : Answers options (job ∷ []) (job ∷ []) (own ∷ [])
unfolding materialize
Reach-Answers_example = Reach-Answers options (job ∷ []) done-Reach (tt, tt)

begun-Run : Run options 1 1 (started (job ∷ [])) (world_at uploading)
unfolding busy
begun-Run = more (begin (started (job ∷ [])) [] [] job refl one refl) stay

bulk_upload_ends_example :
    (1 ≤ 3 * 1)
    × (All IsWritten (world_at uploading).slots
        ⊎ ((u : World) × Step options 1 (world_at uploading) u))
bulk_upload_ends_example =
    bulk_upload_ends options 1 1 (job ∷ []) (world_at uploading) one begun-Run
