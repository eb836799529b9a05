-- ===== src/Bulk/Steps/Progress.antt =====
-- A bulk upload never stands still and comes to its end (sdk/python/chatvector/_bulk_upload.py).
use mathlib.Core.List.{append_assoc}
use chatvector_ai.Prelude.{
  ◌*◌, length, sym, ℕ, suc, ◌+◌, ◌≤◌, ◌<◌, ◌≡◌, ◌⊎◌, refl, ap, ◌∙◌, ◌&&◌, List, [], ◌∷◌, ◌++◌, inl,
  inr, arith, All, ltb, ltb→lt, Bool-cases,
}
use chatvector_ai.Bulk.{Job, Options, BulkUploadResult}
use chatvector_ai.Bulk.Steps.{
  started, waiting, uploading, locking, written, Slot, World, Step, begin, skip, settle, write,
  busy, count_uploading,
}
use chatvector_ai.Bulk.Steps.Order.{IsWritten}

-- A run of so many steps.
pub data Run (o : Options) (workers : ℕ) : ℕ → World → World → Type 0 where
  stay : {w : World} → Run o workers 0 w w
  more :
      {n : ℕ} {w v u : World} → Step o workers w v → Run o workers n v u → Run o workers (suc n) w u

-- The steps that a slot has still to take.
abbrev pub steps_left : List Slot → ℕ
steps_left [] = 0
steps_left ((job, waiting) ∷ slots) = 3 + steps_left slots
steps_left ((job, uploading) ∷ slots) = 2 + steps_left slots
steps_left ((job, locking r) ∷ slots) = 1 + steps_left slots
steps_left ((job, written r) ∷ slots) = steps_left slots

steps_left-append : (xs ys : List Slot) → steps_left (xs ++ ys) ≡ steps_left xs + steps_left ys
steps_left-append [] ys = omega arith
steps_left-append ((job, waiting) ∷ xs) ys = omega (arith, steps_left-append xs ys)
steps_left-append ((job, uploading) ∷ xs) ys = omega (arith, steps_left-append xs ys)
steps_left-append ((job, locking r) ∷ xs) ys = omega (arith, steps_left-append xs ys)
steps_left-append ((job, written r) ∷ xs) ys = steps_left-append xs ys

-- A slot that moves on has fewer steps to take.
moved :
    (slots before after : List Slot) (x y : Slot)
    → slots ≡ before ++ x ∷ after
    → steps_left (y ∷ []) < steps_left (x ∷ [])
    → (steps_left (x ∷ after) ≡ steps_left (x ∷ []) + steps_left after)
    → (steps_left (y ∷ after) ≡ steps_left (y ∷ []) + steps_left after)
    → steps_left (before ++ y ∷ after) < steps_left slots
moved slots before after x y e less ex ey = omega (
  arith,
  ap steps_left e,
  steps_left-append before (x ∷ after),
  steps_left-append before (y ∷ after),
  less,
  ex,
  ey,
)

Step-steps_left :
    (o : Options) (workers : ℕ) {w v : World}
    → Step o workers w v
    → steps_left v.slots < steps_left w.slots
Step-steps_left o workers (begin w before after job e free go) =
    moved w.slots before after (job, waiting) (job, uploading) e (omega arith) (omega arith)
      (omega arith)
Step-steps_left o workers (skip w before after job e free stop) =
    moved w.slots before after (job, waiting) _ e (omega arith) (omega arith) (omega arith)
Step-steps_left o workers (settle w before after job e) =
    moved w.slots before after (job, uploading) _ e (omega arith) (omega arith) (omega arith)
Step-steps_left o workers (write w before after job result e) =
    moved w.slots before after (job, locking result) _ e (omega arith) (omega arith) (omega arith)

-- The first slot that is not filled.
data Unfilled (slots : List Slot) : Type 0 where
  is_waiting :
      (before after : List Slot) (job : Job)
      → slots ≡ before ++ (job, waiting) ∷ after
      → Unfilled slots
  is_uploading :
      (before after : List Slot) (job : Job)
      → slots ≡ before ++ (job, uploading) ∷ after
      → Unfilled slots
  is_locking :
      (before after : List Slot) (job : Job) (r : BulkUploadResult)
      → slots ≡ before ++ (job, locking r) ∷ after
      → Unfilled slots

Unfilled-more : (x : Slot) (slots : List Slot) → Unfilled slots → Unfilled (x ∷ slots)
Unfilled-more x slots (is_waiting before after job e) =
    is_waiting (x ∷ before) after job (ap (λ l. x ∷ l) e)
Unfilled-more x slots (is_uploading before after job e) =
    is_uploading (x ∷ before) after job (ap (λ l. x ∷ l) e)
Unfilled-more x slots (is_locking before after job r e) =
    is_locking (x ∷ before) after job r (ap (λ l. x ∷ l) e)

module _ (o : Options) where
  -- All slots are filled, or one is not.
  filled_or_not : (slots : List Slot) → All IsWritten slots ⊎ Unfilled slots
  filled_or_not [] = inl tt
  filled_or_not ((job, waiting) ∷ slots) = inr (is_waiting [] slots job refl)
  filled_or_not ((job, uploading) ∷ slots) = inr (is_uploading [] slots job refl)
  filled_or_not ((job, locking r) ∷ slots) = inr (is_locking [] slots job r refl)
  filled_or_not ((job, written r) ∷ slots) = elim (filled_or_not slots) [
    | inl done ↦ inl (tt, done)
    | inr u ↦ inr (Unfilled-more (job, written r) slots u)
  ]

  -- A busy worker can go on.
  busy_step :
      (workers : ℕ) (w : World) (slots before : List Slot)
      → w.slots ≡ before ++ slots
      → 0 < count_uploading slots
      → (v : World) × Step o workers w v
  unfolding count_uploading
  busy_step workers w [] before e h = absurd (omega (arith, h))
  busy_step workers w ((job, uploading) ∷ slots) before e h = (_, settle w before slots job e)
  busy_step workers w ((job, locking r) ∷ slots) before e h = (_, write w before slots job r e)
  busy_step workers w ((job, waiting) ∷ slots) before e h =
      busy_step workers w slots (before ++ (job, waiting) ∷ [])
        (e ∙ sym (append_assoc before ((job, waiting) ∷ []) slots)) h
  busy_step workers w ((job, written r) ∷ slots) before e h =
      busy_step workers w slots (before ++ (job, written r) ∷ [])
        (e ∙ sym (append_assoc before ((job, written r) ∷ []) slots)) h

  waiting_step :
      (workers : ℕ) (w : World) (before after : List Slot) (job : Job)
      → 0 < workers
      → w.slots ≡ before ++ (job, waiting) ∷ after
      → (v : World) × Step o workers w v
  unfolding busy
  waiting_step workers w before after job h e = elim (Bool-cases (ltb (busy w) workers)) [
    | inl free ↦ elim (Bool-cases (o.fail_fast && w.abort)) [
      | inl stop ↦ (_, skip w before after job e (ltb→lt (busy w) workers free) stop)
      | inr go ↦ (_, begin w before after job e (ltb→lt (busy w) workers free) go)
    ]
    | inr full ↦ busy_step workers w w.slots [] refl (ground (arith, full, h))
  ]

  some_step :
      (workers : ℕ) (w : World) → 0 < workers → Unfilled w.slots → (v : World) × Step o workers w v
  some_step workers w h (is_waiting before after job e) =
      waiting_step workers w before after job h e
  some_step workers w h (is_uploading before after job e) = (_, settle w before after job e)
  some_step workers w h (is_locking before after job r e) = (_, write w before after job r e)

  progress :
      (workers : ℕ) (w : World)
      → 0 < workers
      → All IsWritten w.slots ⊎ ((v : World) × Step o workers w v)
  progress workers w h = elim (filled_or_not w.slots) [
    | inl done ↦ inl done
    | inr u ↦ inr (some_step workers w h u)
  ]

  run-steps_left :
      {workers n : ℕ} {w v : World}
      → Run o workers n w v
      → n + steps_left v.slots ≤ steps_left w.slots
  run-steps_left stay = omega arith
  run-steps_left (more step run) = omega (arith, Step-steps_left o _ step, run-steps_left run)

  steps_left-started : (jobs : List Job) → steps_left (started jobs).slots ≡ 3 * length jobs
  steps_left-started [] = omega arith
  steps_left-started (job ∷ jobs) = omega (arith, steps_left-started jobs)

  -- With at least one worker, every run of a bulk upload from its start has at most three steps for each path, and
  -- where it stands either all slots are filled or it can take another step.
  pub bulk_upload_ends :
      (workers n : ℕ) (jobs : List Job) (v : World)
      → 0 < workers
      → Run o workers n (started jobs) v
      → (n ≤ 3 * length jobs) × (All IsWritten v.slots ⊎ ((u : World) × Step o workers v u))
  bulk_upload_ends workers n jobs v h run =
      (omega (arith, run-steps_left run, steps_left-started jobs), progress workers v h)
