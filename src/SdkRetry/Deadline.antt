-- ===== src/SdkRetry/Deadline.antt =====
-- What a deadline and a requested delay mean for the client's retries
-- (sdk/python/chatvector/_retry.py).
use chatvector_ai.Prelude.{
  is_some, ℕ, zero, suc, ◌+◌, ◌*◌, ◌≤◌, ◌<◌, ◌≡◌, refl, ◌⊎◌, inl, inr, true, false, Option, none,
  some, arith, All, ◌==◌, Bool-cases, length,
}
use chatvector_ai.SdkRetry.{
  Outcome, returned, wants_retry, raised, Policy, cap_duration_to_deadline, retry_delay_seconds,
  Sleep, ended, deadline_exceeded, Run, is_past, is_too_late, capped_delay, after_call, retry_loop,
  retry_sync, retry_async,
}

-- The sleep ends before the deadline, and is at least as long as was asked for.
abbrev pub IsGood : ℕ → Sleep → Type 0
IsGood deadline s = (s.now + s.delay < deadline) × (s.asked ≤ s.delay)

-- A delay that the cap shortens is never slept, since the clock does not run backwards.
capped_delay-full :
    (p : Policy) (attempt asked deadline : ℕ)
    → p.deadline ≡ some deadline
    → p.clock (3 * attempt + 1) ≤ p.clock (3 * attempt + 2)
    → is_too_late p.deadline (p.clock (3 * attempt + 2)) (capped_delay p attempt asked) ≡ false
    → IsGood deadline (record {
      now = p.clock (3 * attempt + 2);
      delay = capped_delay p attempt asked;
      asked = asked;
    })
unfolding is_too_late capped_delay cap_duration_to_deadline retry_delay_seconds
capped_delay-full p attempt asked deadline d mono h = ground arith

module _ {ℓ} {A : Type ℓ} (p : Policy) (deadline : ℕ) (d : p.deadline ≡ some deadline) where
  after_call-IsGood :
      (attempt : ℕ) (o : Outcome A) (rest : Run A)
      → p.clock (3 * attempt + 1) ≤ p.clock (3 * attempt + 2)
      → All (IsGood deadline) rest.sleeps
      → All (IsGood deadline) (after_call p attempt o rest).sleeps
  unfolding after_call
  after_call-IsGood attempt (returned a) rest mono h = tt
  after_call-IsGood attempt raised rest mono h = tt
  after_call-IsGood attempt (wants_retry asked) rest mono h =
      elim (Bool-cases (attempt == p.max_retries)) [
        | inl last_one ↦ rw last_one tt
        | inr more ↦
            rw more
              (elim (Bool-cases (
                is_too_late p.deadline (p.clock (3 * attempt + 2))
                  (capped_delay p attempt asked))) [
                    | inl late ↦ rw late tt
                    | inr in_time ↦
                        rw in_time (capped_delay-full p attempt asked deadline d mono in_time, h)
                  ])
      ]

  retry_loop-IsGood :
      (func : ℕ → Outcome A) (left attempt : ℕ)
      → ((n : ℕ) → p.clock n ≤ p.clock (n + 1))
      → All (IsGood deadline) (retry_loop p func left attempt).sleeps
  unfolding retry_loop
  retry_loop-IsGood func zero attempt mono = tt
  retry_loop-IsGood func (suc left) attempt mono =
      elim (Bool-cases (is_past p.deadline (p.clock (3 * attempt)))) [
        | inl past ↦ rw past tt
        | inr now ↦ rw now (
            after_call-IsGood attempt (func attempt) _
              (let e : 3 * attempt + 1 + 1 ≡ 3 * attempt + 2 = omega arith in
                rw (← e) (mono (3 * attempt + 1)))
              (retry_loop-IsGood func left (attempt + 1) mono))
      ]

-- With a deadline and a clock that does not run backwards, every sleep of the loop ends before the
-- deadline, and none is shorter than the delay that the failed call asked for: where the deadline
-- leaves less than that, the loop gives up instead.
pub retry_sync-IsGood {ℓ} :
    {A : Type ℓ} (p : Policy) (func : ℕ → Outcome A) (deadline : ℕ)
    → p.deadline ≡ some deadline
    → ((n : ℕ) → p.clock n ≤ p.clock (n + 1))
    → All (IsGood deadline) (retry_sync p func).sleeps
unfolding retry_sync
retry_sync-IsGood p func deadline d mono =
    retry_loop-IsGood p deadline d func (p.max_retries + 1) 0 mono

-- A run from some attempt on ends by the outcome of its last call, or for lack of time; there is one
-- sleep between two calls.
abbrev pub EndsFrom {ℓ} : {A : Type ℓ} → Policy → (ℕ → Outcome A) → ℕ → Run A → Type ℓ
EndsFrom p func attempt r =
    ((r.final ≡ ended (func (attempt + length r.sleeps))) × (r.calls ≡ length r.sleeps + 1))
    ⊎ ((r.final ≡ deadline_exceeded)
        × (length r.sleeps ≤ r.calls)
        × (r.calls ≤ length r.sleeps + 1)
        × (is_some p.deadline ≡ true))

is_past-is_some : (o : Option ℕ) (now : ℕ) → is_past o now ≡ true → is_some o ≡ true
unfolding is_past
is_past-is_some none now h = cc
is_past-is_some (some d) now h = refl

is_too_late-is_some :
    (o : Option ℕ) (now delay : ℕ) → is_too_late o now delay ≡ true → is_some o ≡ true
unfolding is_too_late
is_too_late-is_some none now delay h = cc
is_too_late-is_some (some d) now delay h = refl

module _ {ℓ} {A : Type ℓ} (p : Policy) (func : ℕ → Outcome A) where
  after_call_ends :
      (left attempt : ℕ) (o : Outcome A) (rest : Run A)
      → func attempt ≡ o
      → attempt + suc left ≡ p.max_retries
      → length rest.sleeps ≤ left
      → EndsFrom p func (attempt + 1) rest
      → let r = after_call p attempt o rest in
        (length r.sleeps ≤ suc left) × EndsFrom p func attempt r
  unfolding after_call
  after_call_ends left attempt (returned a) rest f e le h =
      let first : attempt + 0 ≡ attempt = omega arith in ground (arith, first)
  after_call_ends left attempt raised rest f e le h =
      let first : attempt + 0 ≡ attempt = omega arith in ground (arith, first)
  after_call_ends left attempt (wants_retry asked) rest f e le h =
      let first : attempt + 0 ≡ attempt = omega arith in
      let later : attempt + 1 + length rest.sleeps ≡ attempt + suc (length rest.sleeps) =
        omega arith in
      ground (
        arith,
        first,
        later,
        is_too_late-is_some p.deadline (p.clock (3 * attempt + 2)) (capped_delay p attempt asked),
      )

  last_call_ends :
      (attempt : ℕ) (o : Outcome A) (rest : Run A)
      → func attempt ≡ o
      → attempt ≡ p.max_retries
      → let r = after_call p attempt o rest in (length r.sleeps ≤ 0) × EndsFrom p func attempt r
  unfolding after_call
  last_call_ends attempt (returned a) rest f e =
      let first : attempt + 0 ≡ attempt = omega arith in ground (arith, first)
  last_call_ends attempt raised rest f e =
      let first : attempt + 0 ≡ attempt = omega arith in ground (arith, first)
  last_call_ends attempt (wants_retry asked) rest f e =
      let first : attempt + 0 ≡ attempt = omega arith in ground (arith, first)

  retry_loop_ends :
      (left attempt : ℕ)
      → attempt + left ≡ p.max_retries
      → let r = retry_loop p func (suc left) attempt in
        (length r.sleeps ≤ left) × EndsFrom p func attempt r
  unfolding retry_loop
  retry_loop_ends zero attempt e = elim (Bool-cases (is_past p.deadline (p.clock (3 * attempt)))) [
    | inl past ↦ rw past (
      omega arith,
      inr (refl, omega arith, omega arith, is_past-is_some p.deadline (p.clock (3 * attempt)) past),
    )
    | inr now ↦ rw now (last_call_ends attempt (func attempt) _ refl (omega arith))
  ]
  retry_loop_ends (suc left) attempt e =
      let (le, h) = retry_loop_ends left (attempt + 1) (omega arith) in
      elim (Bool-cases (is_past p.deadline (p.clock (3 * attempt)))) [
        | inl past ↦ rw past (
          omega arith,
          inr (
            refl,
            omega arith,
            omega arith,
            is_past-is_some p.deadline (p.clock (3 * attempt)) past,
          ),
        )
        | inr now ↦ rw now (after_call_ends left attempt (func attempt) _ refl e le h)
      ]

-- The loop makes at most one call more than the number of retries, with one sleep between two calls,
-- and ends by the outcome of its last call, or, if there is a deadline, for lack of time.
pub retry_async_calls {ℓ} :
    {A : Type ℓ} (p : Policy) (func : ℕ → Outcome A)
    → let r = retry_async p func in
      (r.calls ≤ p.max_retries + 1)
      × (((r.final ≡ ended (func (0 + length r.sleeps))) × (r.calls ≡ length r.sleeps + 1))
          ⊎ ((r.final ≡ deadline_exceeded)
              × (length r.sleeps ≤ r.calls)
              × (r.calls ≤ length r.sleeps + 1)
              × (is_some p.deadline ≡ true)))
unfolding retry_async
retry_async_calls p func =
    let e : p.max_retries + 1 ≡ suc p.max_retries = omega arith in
    let (le, ends) = retry_loop_ends p func p.max_retries 0 (omega arith) in
    rw e (ground arith, ends)
