-- ===== src/Retry/Examples.antt =====
-- A run of the backend's retry loop (backend/utils/retry.py).
use chatvector_ai.Prelude.{ℕ, zero, suc, ◌≤◌, ◌≡◌, ◌+◌, ◌⊎◌, refl, true, false, arith, [], ◌∷◌}
use chatvector_ai.Prelude.Int.{pos}
use chatvector_ai.Failures.{timeout_error}
use chatvector_ai.Retry.{Outcome, returned, raised, Policy, is_retried, retry_async}
use chatvector_ai.Retry.Ending.{RetriedFrom, EndsAfter, retry_async_ends}

-- Two retries, each after the whole of its bound.
abbrev patient : Policy
patient = record {
  max_retries = pos 2;
  base_delay = 3;
  backoff = 2;
  retry_on_timeout = true;
  is_retryable = λ e. true;
  uniform = λ n c. c;
}

-- The first call times out, and the next returns.
abbrev flaky : ℕ → Outcome ℕ
flaky zero = raised timeout_error
flaky (suc n) = returned 7

flaky_sleeps : (retry_async patient flaky).sleeps ≡ 3 ∷ []
unfolding retry_async
flaky_sleeps = refl

retry_async_ends_example :
    (n : ℕ) × (n ≤ 2)
    × RetriedFrom patient flaky 0 n
    × ((is_retried patient (flaky (0 + n)) ≡ false) ⊎ (n ≡ 2))
    × EndsAfter patient flaky 0 n (retry_async patient flaky)
retry_async_ends_example = retry_async_ends patient flaky 2 refl

full_bound : (n c : ℕ) → patient.uniform n c ≤ c
full_bound n c = omega arith
