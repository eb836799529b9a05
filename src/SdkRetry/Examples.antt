-- ===== src/SdkRetry/Examples.antt =====
-- A run of the client's retry loop with a deadline (sdk/python/chatvector/_retry.py).
use chatvector_ai.Prelude.{ℕ, zero, suc, ◌≤◌, ◌≡◌, ◌+◌, refl, some, arith, All}
use chatvector_ai.SdkRetry.{
  retry_delay_seconds, cap_duration_to_deadline, is_too_late, is_past, Outcome, returned,
  wants_retry, Policy, retry_sync,
}
use chatvector_ai.SdkRetry.Deadline.{IsGood, retry_sync-IsGood}

abbrev hurried : Policy
hurried = record {
  max_retries = 3;
  base_delay = 2;
  backoff = 2;
  max_delay = 10;
  uniform = λ n c. c;
  deadline = some 20;
  clock = λ n. n;
}

-- The first call asks for a delay of 5, and the next returns.
abbrev flaky : ℕ → Outcome ℕ
flaky zero = wants_retry 5
flaky (suc n) = returned 7

flaky_calls : (retry_sync hurried flaky).calls ≡ 2
unfolding retry_sync is_past is_too_late cap_duration_to_deadline retry_delay_seconds
flaky_calls = refl

clock_runs : (n : ℕ) → hurried.clock n ≤ hurried.clock (n + 1)
clock_runs n = omega arith

retry_sync-IsGood_example : All (IsGood 20) (retry_sync hurried flaky).sleeps
retry_sync-IsGood_example = retry_sync-IsGood hurried flaky 20 refl clock_runs
