-- ===== src/SdkRetry.antt =====
-- The client's retry loops (sdk/python/chatvector/_retry.py) and what they use of
-- sdk/python/chatvector/_common.py. The synchronous and the asynchronous loop are the same but for
-- how they sleep. Times and durations are whole ticks.
pub mod Deadline
mod Examples
use chatvector_ai.Prelude.{
  ℕ, zero, suc, ◌+◌, ◌-◌, ◌*◌, ◌^◌, min, max, Bool, true, false, ◌||◌, Option, none, some, List, [],
  ◌∷◌, leb, ◌==◌, if◌then◌else◌,
}

-- How a call of `func` ends; `wants_retry` is a `WantsRetry` with its `min_additional_delay`.
pub data Outcome {ℓ} (A : Type ℓ) : Type ℓ where
  returned : A → Outcome A
  wants_retry : ℕ → Outcome A
  raised : Outcome A

-- The arguments, the draw of `random.uniform(0, c)` before sleep number `n`, and the readings of
-- `time.monotonic()`, of which attempt `n` takes those from `3 * n` to `3 * n + 2`.
pub record Policy : Type 0 where
  pub max_retries : ℕ
  pub base_delay : ℕ
  pub backoff : ℕ
  pub max_delay : ℕ
  pub uniform : ℕ → ℕ → ℕ
  pub deadline : Option ℕ
  pub clock : ℕ → ℕ

-- `max(0.0, deadline - now)`; `-` stops at 0.
unfoldable pub remaining_monotonic_seconds : Option ℕ → ℕ → Option ℕ
remaining_monotonic_seconds none now = none
remaining_monotonic_seconds (some deadline) now = some (deadline - now)

unfoldable pub cap_duration_to_deadline : ℕ → Option ℕ → ℕ → ℕ
unfolding remaining_monotonic_seconds
cap_duration_to_deadline duration deadline now = elim (remaining_monotonic_seconds deadline now) [
  | none ↦ duration
  | some remaining ↦ min duration remaining
]

-- `_retry_delay_seconds`
unfoldable pub retry_delay_seconds : Policy → ℕ → ℕ → ℕ
retry_delay_seconds p attempt min_additional_delay =
    max (p.uniform attempt (min (p.base_delay * p.backoff ^ attempt) p.max_delay))
      min_additional_delay

-- One sleep: the last reading of the clock before it, its length, and the delay that was asked for.
pub record Sleep : Type 0 where
  pub now : ℕ
  pub delay : ℕ
  pub asked : ℕ

-- What the caller sees: the outcome of the last call, or an error of the loop's own.
pub data Final {ℓ} (A : Type ℓ) : Type ℓ where
  ended : Outcome A → Final A
  deadline_exceeded : Final A
  unexpected_state : Final A

pub record Run {ℓ} (A : Type ℓ) : Type ℓ where
  pub final : Final A
  pub calls : ℕ
  pub sleeps : List Sleep

-- the test at the head of a round
unfoldable pub is_past : Option ℕ → ℕ → Bool
unfolding remaining_monotonic_seconds
is_past deadline now = elim (remaining_monotonic_seconds deadline now) [
  | none ↦ false
  | some r ↦ r == 0
]

-- the test before a sleep: `remaining <= 0.0 or delay >= remaining`
unfoldable pub is_too_late : Option ℕ → ℕ → ℕ → Bool
unfolding remaining_monotonic_seconds
is_too_late deadline now delay = elim (remaining_monotonic_seconds deadline now) [
  | none ↦ false
  | some remaining ↦ remaining == 0 || leb remaining delay
]

-- The delay of a failed attempt, cut to what is left of the deadline.
pub capped_delay : Policy → ℕ → ℕ → ℕ
capped_delay p attempt asked =
    cap_duration_to_deadline (retry_delay_seconds p attempt asked) p.deadline
      (p.clock (3 * attempt + 1))

module _ {ℓ} {A : Type ℓ} where
  stop : ℕ → Final A → Run A
  stop calls final = record { final = final; calls = calls; sleeps = [] }

  sleep_then : Sleep → Run A → Run A
  sleep_then sleep rest = record rest { calls = rest.calls + 1; sleeps = sleep ∷ rest.sleeps }

  -- A failed attempt that is not the last: `delay` is the capped delay.
  before_sleep : Policy → ℕ → ℕ → ℕ → Run A → Run A
  unfolding stop sleep_then
  before_sleep p attempt asked delay rest =
      if is_too_late p.deadline (p.clock (3 * attempt + 2)) delay
      then stop 1 deadline_exceeded
      else sleep_then (record { now = p.clock (3 * attempt + 2); delay = delay; asked = asked })
          rest

  after_call : Policy → ℕ → Outcome A → Run A → Run A
  unfolding before_sleep stop capped_delay
  after_call p attempt (returned a) rest = stop 1 (ended (returned a))
  after_call p attempt raised rest = stop 1 (ended raised)
  after_call p attempt (wants_retry asked) rest =
      if attempt == p.max_retries
      then stop 1 (ended (wants_retry asked))
      else before_sleep p attempt asked (capped_delay p attempt asked) rest

  -- The rounds `attempt`, `attempt + 1`, … of which `left` are left. The number of
  -- retries is not negative, so that the last round ends the loop and its end is not reached.
  unfoldable pub retry_loop : Policy → (ℕ → Outcome A) → ℕ → ℕ → Run A
  unfolding after_call stop
  retry_loop p func zero attempt = stop 0 unexpected_state
  retry_loop p func (suc left) attempt =
      let rest = retry_loop p func left (attempt + 1) in
      if is_past p.deadline (p.clock (3 * attempt))
      then stop 0 deadline_exceeded
      else after_call p attempt (func attempt) rest

  unfoldable pub retry_sync : Policy → (ℕ → Outcome A) → Run A
  unfolding retry_loop
  retry_sync p func = retry_loop p func (p.max_retries + 1) 0

  unfoldable pub retry_async : Policy → (ℕ → Outcome A) → Run A
  unfolding retry_loop
  retry_async p func = retry_loop p func (p.max_retries + 1) 0
