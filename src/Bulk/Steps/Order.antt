-- ===== src/Bulk/Steps/Order.antt =====
-- What a bulk upload returns, whatever the order of its workers
-- (sdk/python/chatvector/_bulk_upload.py).
use mathlib.Core.Path.{subst}
use mathlib.Core.List.{map-append}
use chatvector_ai.Prelude.{
  ℕ, ◌≡◌, ◌⊎◌, refl, sym, ap, ◌∙◌, true, false, not, ◌&&◌, ◌||◌, List, [], ◌∷◌, ◌++◌, map, inl, inr,
  arith, All, Bool-cases,
}
use chatvector_ai.Bulk.{Job, Options, BulkUploadResult, success, result_of, aborted_result}
use chatvector_ai.Bulk.Steps.{
  State, waiting, uploading, locking, written, Slot, World, started, materialize, Step, begin, skip,
  settle, write, Reach, start, next,
}

abbrev job_of : Slot → Job
job_of slot = slot.0

module _ {ℓ} {A : Type ℓ} where
  All-replace {κ} :
      (P : A → Type κ) (before after : List A) (x y : A)
      → (P x → P y)
      → All P (before ++ x ∷ after)
      → All P (before ++ y ∷ after)
  All-replace P [] after x y f h = (f h.0, h.1)
  All-replace P (b ∷ before) after x y f h = (h.0, All-replace P before after x y f h.1)

  All-at {κ} : (P : A → Type κ) (before after : List A) (x : A) → All P (before ++ x ∷ after) → P x
  All-at P [] after x h = h.0
  All-at P (b ∷ before) after x h = All-at P before after x h.1

jobs-replace :
    (before after : List Slot) (job : Job) (s t : State)
    → map job_of (before ++ (job, s) ∷ after) ≡ map job_of (before ++ (job, t) ∷ after)
jobs-replace [] after job s t = refl
jobs-replace (b ∷ before) after job s t = ap (λ l. job_of b ∷ l) (jobs-replace before after job s t)

-- The slot is filled.
abbrev pub IsWritten : Slot → Type 0
IsWritten (job, written r) = Unit
IsWritten (job, state) = ⊥

module _ (o : Options) (jobs : List Job) where
  -- One of the jobs fails.
  abbrev pub AnyFails : Type 0
  AnyFails =
      (before after : List Job) × (job : Job) × (jobs ≡ before ++ job ∷ after)
      × (success (result_of o job) ≡ false)

  -- A job's result is its own, or under `fail_fast` with a failing job that of a skipped path.
  abbrev pub IsOwn : Job → BulkUploadResult → Type 0
  IsOwn job r = (r ≡ result_of o job) ⊎ ((o.fail_fast ≡ true) × AnyFails × (r ≡ aborted_result job))

  abbrev HasOwn : Slot → Type 0
  HasOwn (job, waiting) = Unit
  HasOwn (job, uploading) = Unit
  HasOwn (job, locking r) = IsOwn job r
  HasOwn (job, written r) = IsOwn job r

  record IsValid (w : World) : Type 0 where
    jobs_kept : map job_of w.slots ≡ jobs
    own : All HasOwn w.slots
    cause : (w.abort ≡ false) ⊎ ((o.fail_fast ≡ true) × AnyFails)

  started-IsValid : (l : List Job) → All HasOwn (started l).slots
  started-IsValid [] = tt
  started-IsValid (job ∷ l) = (tt, started-IsValid l)

  jobs-started : (l : List Job) → map job_of (started l).slots ≡ l
  jobs-started [] = refl
  jobs-started (job ∷ l) = ap (λ xs. job ∷ xs) (jobs-started l)

  -- A slot moves on, with the flag as it was.
  move-IsValid :
      (w : World) (before after : List Slot) (job : Job) (s t : State)
      → w.slots ≡ before ++ (job, s) ∷ after
      → (HasOwn (job, s) → HasOwn (job, t))
      → IsValid w
      → IsValid (record w { slots = before ++ (job, t) ∷ after })
  move-IsValid w before after job s t e f v = record {
    jobs_kept = jobs-replace before after job t s ∙ ap (map job_of) (sym e) ∙ v.jobs_kept;
    own = All-replace HasOwn before after (job, s) (job, t) f (subst (All HasOwn) e v.own);
    cause = v.cause;
  }

  abort_cause :
      (w : World) → IsValid w → (o.fail_fast && w.abort) ≡ true → (o.fail_fast ≡ true) × AnyFails
  abort_cause w v h = elim v.cause [ inl off ↦ absurd (ground (arith, off, h)) | inr both ↦ both ]

  -- Where a job stands, for the cause of an abort.
  found_job :
      (w : World) (before after : List Slot) (job : Job) (s : State)
      → w.slots ≡ before ++ (job, s) ∷ after
      → IsValid w
      → jobs ≡ map job_of before ++ job ∷ map job_of after
  found_job w before after job s e v =
      sym v.jobs_kept ∙ ap (map job_of) e ∙ map-append job_of before ((job, s) ∷ after)

  settle-IsValid :
      (w : World) (before after : List Slot) (job : Job)
      → w.slots ≡ before ++ (job, uploading) ∷ after
      → IsValid w
      → IsValid (record {
        slots = before ++ (job, locking (result_of o job)) ∷ after;
        abort = w.abort || (o.fail_fast && not (success (result_of o job)));
      })
  settle-IsValid w before after job e v =
      let u =
        move-IsValid w before after job uploading (locking (result_of o job)) e (λ h. inl refl) v in
      record {
        jobs_kept = u.jobs_kept;
        own = u.own;
        cause = elim v.cause [
          | inr both ↦ inr both
          | inl off ↦ elim (Bool-cases (o.fail_fast && not (success (result_of o job)))) [
            | inl failed ↦ inr (
              ground (arith, failed),
              (
                map job_of before,
                map job_of after,
                job,
                found_job w before after job uploading e v,
                ground (arith, failed),
              ),
            )
            | inr fine ↦ inl (rw (off, fine) refl)
          ]
        ];
      }

  Step-IsValid : {workers : ℕ} {w v : World} → Step o workers w v → IsValid w → IsValid v
  Step-IsValid (begin w before after job e free go) v =
      move-IsValid w before after job waiting uploading e (λ h. tt) v
  Step-IsValid (skip w before after job e free stop) v =
      let (fast, fails) = abort_cause w v stop in
      move-IsValid w before after job waiting (locking (aborted_result job)) e
        (λ h. inr (fast, fails, refl)) v
  Step-IsValid (settle w before after job e) v = settle-IsValid w before after job e v
  Step-IsValid (write w before after job result e) v =
      move-IsValid w before after job (locking result) (written result) e (λ h. h) v

  Reach-IsValid : {workers : ℕ} {w : World} → Reach o workers jobs w → IsValid w
  Reach-IsValid start = record {
    jobs_kept = jobs-started jobs;
    own = started-IsValid jobs;
    cause = inl refl;
  }
  Reach-IsValid (next reached step) = Step-IsValid step (Reach-IsValid reached)

  -- One result for each job, in order, with its path.
  abbrev pub Answers : List Job → List BulkUploadResult → Type 0
  Answers [] [] = Unit
  Answers (job ∷ js) (r ∷ rs) = (r.file_path ≡ job.file_path) × IsOwn job r × Answers js rs
  Answers js rs = ⊥

  IsOwn-file_path : (job : Job) (r : BulkUploadResult) → IsOwn job r → r.file_path ≡ job.file_path
  unfolding result_of aborted_result
  IsOwn-file_path job r (inl e) = rw e refl
  IsOwn-file_path job r (inr (fast, fails, e)) = rw e refl

  materialize-Answers :
      (slots : List Slot)
      → All HasOwn slots
      → All IsWritten slots
      → Answers (map job_of slots) (materialize slots)
  unfolding materialize
  materialize-Answers [] own done = tt
  materialize-Answers ((job, waiting) ∷ slots) own done = absurd done.0
  materialize-Answers ((job, uploading) ∷ slots) own done = absurd done.0
  materialize-Answers ((job, locking r) ∷ slots) own done = absurd done.0
  materialize-Answers ((job, written r) ∷ slots) own done =
      (IsOwn-file_path job r own.0, own.0, materialize-Answers slots own.1 done.1)

  -- When all slots are filled, in any interleaving of the workers, there is one result for each path, in the order of the paths:
  -- its own, or, only under `fail_fast` and only if some path fails, that of a skipped path.
  pub Reach-Answers :
      {workers : ℕ} {w : World}
      → Reach o workers jobs w
      → All IsWritten w.slots
      → Answers jobs (materialize w.slots)
  Reach-Answers {w = w} reached done =
      let v = Reach-IsValid reached in
      subst (λ js. Answers js (materialize w.slots)) v.jobs_kept
        (materialize-Answers w.slots v.own done)
