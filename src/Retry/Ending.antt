-- ===== src/Retry/Ending.antt =====
-- How the backend's retry loop ends (backend/utils/retry.py), after how many calls and sleeps.
use chatvector_ai.Prelude.{
  ap, ◌∙◌, ℕ, zero, suc, ◌+◌, ◌*◌, ◌^◌, ◌≤◌, ◌<◌, ◌≡◌, refl, ◌⊎◌, inl, inr, true, false, Option,
  none, List, [], ◌∷◌, arith, Bool-cases,
}
use chatvector_ai.Prelude.Int.{ℤ, pos, negsuc}
use chatvector_ai.Failures.{Exc}
use chatvector_ai.Retry.{
  Outcome, Policy, ended, unexpected_state, Run, is_retried, delay_before, after_call, retry_loop,
  retry_async,
}

module _ {ℓ} {A : Type ℓ} where
  -- The outcomes of `n` attempts from `attempt` on all lead to another attempt.
  abbrev pub RetriedFrom : Policy → (ℕ → Outcome A) → ℕ → ℕ → Type 0
  RetriedFrom p func attempt zero = Unit
  RetriedFrom p func attempt (suc n) =
      (is_retried p (func attempt) ≡ true) × RetriedFrom p func (attempt + 1) n

  after_call_retried :
      (p : Policy) (attempts attempt : ℕ) (o : Outcome A) (rest : Run A)
      → attempt + 1 < attempts
      → is_retried p o ≡ true
      → (after_call p attempts attempt o rest).final ≡ rest.final
        × ((after_call p attempts attempt o rest).calls ≡ rest.calls + 1)
        × ((after_call p attempts attempt o rest).sleeps ≡ delay_before p attempt ∷ rest.sleeps)
  unfolding after_call is_retried
  after_call_retried p attempts attempt o rest lt h = ground arith

  after_call_ended :
      (p : Policy) (attempts attempt : ℕ) (o : Outcome A) (rest : Run A)
      → (is_retried p o ≡ false) ⊎ (attempt + 1 ≡ attempts)
      → after_call p attempts attempt o rest ≡ record { final = ended o; calls = 1; sleeps = [] }
  unfolding after_call is_retried
  after_call_ended p attempts attempt o rest h = ground arith

-- The draws that precede the sleeps after `n` attempts from `attempt` on.
abbrev pub delays : Policy → ℕ → ℕ → List ℕ
delays p attempt zero = []
delays p attempt (suc n) = delay_before p attempt ∷ delays p (attempt + 1) n

module _ {ℓ} {A : Type ℓ} where
  -- The run ends with the outcome of call `attempt + n`, after `n` sleeps.
  abbrev pub EndsAfter : Policy → (ℕ → Outcome A) → ℕ → ℕ → Run A → Type ℓ
  EndsAfter p func attempt n r =
      (r.final ≡ ended (func (attempt + n))) × (r.calls ≡ n + 1) × (r.sleeps ≡ delays p attempt n)

  EndsAfter-suc :
      (p : Policy) (func : ℕ → Outcome A) (attempts attempt n : ℕ) (rest : Run A)
      → attempt + 1 < attempts
      → is_retried p (func attempt) ≡ true
      → EndsAfter p func (attempt + 1) n rest
      → EndsAfter p func attempt (suc n) (after_call p attempts attempt (func attempt) rest)
  EndsAfter-suc p func attempts attempt n rest lt h (final, calls, sleeps) =
      let (f, c, s) = after_call_retried p attempts attempt (func attempt) rest lt h in
      let e : attempt + 1 + n ≡ attempt + suc n = omega arith in
      (
        f ∙ final ∙ ap (λ k. ended (func k)) e,
        omega arith,
        s ∙ ap (λ t. delay_before p attempt ∷ t) sleeps,
      )

  EndsAfter-zero :
      (p : Policy) (func : ℕ → Outcome A) (attempts attempt : ℕ) (rest : Run A)
      → (is_retried p (func attempt) ≡ false) ⊎ (attempt + 1 ≡ attempts)
      → EndsAfter p func attempt 0 (after_call p attempts attempt (func attempt) rest)
  EndsAfter-zero p func attempts attempt rest h =
      let e : attempt + 0 ≡ attempt = omega arith in
      rw (after_call_ended p attempts attempt (func attempt) rest h, e) (refl, omega arith, refl)

  retry_loop_ends :
      (p : Policy) (func : ℕ → Outcome A) (attempts left attempt : ℕ) (last : Option Exc)
      → attempt + suc left ≡ attempts
      → (n : ℕ) × (n ≤ left)
        × RetriedFrom p func attempt n
        × ((is_retried p (func (attempt + n)) ≡ false) ⊎ (n ≡ left))
        × EndsAfter p func attempt n (retry_loop p func attempts (suc left) attempt last)
  unfolding retry_loop
  retry_loop_ends p func attempts zero attempt last e =
      (0, omega arith, tt, inr refl, EndsAfter-zero p func attempts attempt _ (inr (omega arith)))
  retry_loop_ends p func attempts (suc left) attempt last e =
      elim (Bool-cases (is_retried p (func attempt))) [
        | inl again ↦
            (let (n, le, before, stop, ends) =
                retry_loop_ends p func attempts left (attempt + 1) _ (omega arith) in
              let same : attempt + 1 + n ≡ attempt + suc n = omega arith in
              (
                suc n,
                omega arith,
                (again, before),
                elim stop [ inl h ↦ inl (rw (← same) h) | inr last_one ↦ inr (ap suc last_one) ],
                EndsAfter-suc p func attempts attempt n _ (omega arith) again ends,
              ))
        | inr over ↦
            (let same : attempt + 0 ≡ attempt = omega arith in
              (
                0,
                omega arith,
                tt,
                inl (rw same over),
                EndsAfter-zero p func attempts attempt _ (inl over),
              ))
      ]

  -- With a number of retries that is not negative the loop ends with the outcome of its call number
  -- `n + 1`: every call before it failed in a way that is retried, and it did not, or it was the last
  -- one that is allowed. There were `n + 1` calls and `n` sleeps, by the draws 0 to `n - 1`.
  pub retry_async_ends :
      (p : Policy) (func : ℕ → Outcome A) (k : ℕ)
      → p.max_retries ≡ pos k
      → (n : ℕ) × (n ≤ k)
        × RetriedFrom p func 0 n
        × ((is_retried p (func (0 + n)) ≡ false) ⊎ (n ≡ k))
        × EndsAfter p func 0 n (retry_async p func)
  unfolding retry_async is_retried
  retry_async_ends p func k h =
      let e : k + 1 ≡ suc k = omega arith in
      rw (h, e) (retry_loop_ends p func (suc k) k 0 none (omega arith))

  -- With a negative number of retries nothing is called, and the loop's end is an error of its own.
  retry_async_negative :
      (p : Policy) (func : ℕ → Outcome A) (k : ℕ)
      → p.max_retries ≡ negsuc k
      → retry_async p func ≡ record { final = unexpected_state; calls = 0; sleeps = [] }
  unfolding retry_async
  retry_async_negative p func k h = rw h

-- Each sleep is at most the base delay times the backoff to the power of its attempt.
abbrev pub BoundedFrom : Policy → ℕ → List ℕ → Type 0
BoundedFrom p attempt [] = Unit
BoundedFrom p attempt (d ∷ ds) =
    (d ≤ p.base_delay * p.backoff ^ attempt) × BoundedFrom p (attempt + 1) ds

delays-BoundedFrom :
    (p : Policy) (attempt n : ℕ)
    → ((k c : ℕ) → p.uniform k c ≤ c)
    → BoundedFrom p attempt (delays p attempt n)
unfolding delay_before
delays-BoundedFrom p attempt zero h = tt
delays-BoundedFrom p attempt (suc n) h =
    (h attempt (p.base_delay * p.backoff ^ attempt), delays-BoundedFrom p (attempt + 1) n h)

module _ {ℓ} {A : Type ℓ} where
  -- If every draw lies within its bound, the sleep after call `n + 1` is at most the base delay times
  -- the backoff to the power of `n`.
  pub retry_async_sleeps :
      (p : Policy) (func : ℕ → Outcome A)
      → ((n c : ℕ) → p.uniform n c ≤ c)
      → BoundedFrom p 0 (retry_async p func).sleeps
  retry_async_sleeps p func h = elim (sign p.max_retries) [
    | inl (k, e) ↦
        (let (n, _, _, _, ends) = retry_async_ends p func k e in
          rw ends.2 (delays-BoundedFrom p 0 n h))
    | inr (k, e) ↦ rw (retry_async_negative p func k e) tt
  ]
    where
      sign : (z : ℤ) → ((k : ℕ) × (z ≡ pos k)) ⊎ ((k : ℕ) × (z ≡ negsuc k))
      sign (pos k) = inl (k, refl)
      sign (negsuc k) = inr (k, refl)
