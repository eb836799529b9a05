-- ===== src/Retry.antt =====
-- The backend's retry loop (backend/utils/retry.py, `retry_async`).
pub mod Ending
mod Examples
use chatvector_ai.Prelude.{
  ℕ, zero, suc, ◌+◌, ◌-◌, ◌*◌, ◌^◌, Bool, true, false, not, ◌||◌, ◌&&◌, Option, none, some, List,
  [], ◌∷◌, ◌==◌, if◌then◌else◌,
}
use chatvector_ai.Prelude.Int.{ℤ, pos, negsuc}
use chatvector_ai.Failures.{Exc, timeout_error, is_transient_error}

-- How one call of `func` under its time limit ends. `asyncio.TimeoutError` is an `Exc` here.
pub data Outcome {ℓ} (A : Type ℓ) : Type ℓ where
  returned : A → Outcome A
  raised : Exc → Outcome A
  cancelled : Outcome A

-- The arguments; durations are whole ticks, and `uniform n c` is the draw from 0 to `c` that
-- precedes sleep number `n`.
pub record Policy : Type 0 where
  pub max_retries : ℤ
  pub base_delay : ℕ
  pub backoff : ℕ
  pub retry_on_timeout : Bool
  pub is_retryable : Exc → Bool
  pub uniform : ℕ → ℕ → ℕ

-- What a caller sees, and what it took: how often `func` was called and how long the loop slept.
pub data Final {ℓ} (A : Type ℓ) : Type ℓ where
  ended : Outcome A → Final A
  unexpected_state : Final A

pub record Run {ℓ} (A : Type ℓ) : Type ℓ where
  pub final : Final A
  pub calls : ℕ
  pub sleeps : List ℕ

-- `range(max_retries + 1)` has this many rounds.
unfoldable pub max_attempts : ℤ → ℕ
max_attempts (pos n) = n + 1
max_attempts (negsuc n) = 0

abbrev is_timeout : Exc → Bool
is_timeout timeout_error = true
is_timeout e = false

-- `random.uniform(0, base_delay * backoff ** attempt)`
pub delay_before : Policy → ℕ → ℕ
delay_before p attempt = p.uniform attempt (p.base_delay * p.backoff ^ attempt)

module _ {ℓ} {A : Type ℓ} where
  -- Whether the outcome of an attempt that is not the last one is followed by another.
  unfoldable pub is_retried : Policy → Outcome A → Bool
  is_retried p (returned a) = false
  is_retried p cancelled = false
  is_retried p (raised e) =
      if is_timeout e then p.retry_on_timeout else p.is_retryable e && is_transient_error e

  -- Another round: the loop sleeps, and goes on.
  add_round : ℕ → Run A → Run A
  add_round delay rest = record rest { calls = rest.calls + 1; sleeps = delay ∷ rest.sleeps }

  stop_with : Outcome A → Run A
  stop_with o = record { final = ended o; calls = 1; sleeps = [] }

  -- The branches of one round, in the code's order; `rest` is what follows a `continue`.
  pub after_call : Policy → ℕ → ℕ → Outcome A → Run A → Run A
  unfolding add_round stop_with delay_before
  after_call p attempts attempt (returned a) rest = stop_with (returned a)
  after_call p attempts attempt cancelled rest = stop_with cancelled
  after_call p attempts attempt (raised e) rest =
      if is_timeout e
      then (if not p.retry_on_timeout || attempt == attempts - 1
          then stop_with (raised e)
          else add_round (delay_before p attempt) rest)
      else if not (p.is_retryable e)
      then stop_with (raised e)
      else if not (is_transient_error e)
      then stop_with (raised e)
      else if attempt == attempts - 1
      then stop_with (raised e)
      else add_round (delay_before p attempt) rest

  -- What the code does after its loop, by `last_exception`.
  after_loop : Option Exc → Run A
  after_loop (some e) = record { final = ended (raised e); calls = 0; sleeps = [] }
  after_loop none = record { final = unexpected_state; calls = 0; sleeps = [] }

  exception_of : Outcome A → Option Exc → Option Exc
  exception_of (raised e) last = some e
  exception_of o last = last

  -- `func n` is how the call of attempt `n` ends.
  unfoldable pub retry_loop : Policy → (ℕ → Outcome A) → ℕ → ℕ → ℕ → Option Exc → Run A
  unfolding after_call after_loop exception_of
  retry_loop p func attempts zero attempt last = after_loop last
  retry_loop p func attempts (suc left) attempt last =
      let rest = retry_loop p func attempts left (attempt + 1) (exception_of (func attempt) last) in
      after_call p attempts attempt (func attempt) rest

  unfoldable pub retry_async : Policy → (ℕ → Outcome A) → Run A
  unfolding max_attempts retry_loop
  retry_async p func =
      retry_loop p func (max_attempts p.max_retries) (max_attempts p.max_retries) 0 none
