-- ===== src/Limiter.antt =====
-- The rate limiter of the embedding calls (backend/services/queue_base.py, `TokenBucketRateLimiter`).
-- Times are whole ticks, and amounts of tokens are whole units, of which `token` make 1.0.
pub mod Rate
mod Examples
use chatvector_ai.Prelude.{ℕ, ◌+◌, ◌-◌, ◌*◌, min, Bool, List, [], ◌∷◌, leb, if◌then◌else◌}

-- `rate` is in units for each tick.
pub record TokenBucket : Type 0 where
  pub token : ℕ
  pub rate : ℕ
  pub capacity : ℕ
  pub tokens : ℕ
  pub last_refill : ℕ

-- `__init__`, at a reading of the clock
abbrev pub full_bucket : (token rate capacity now : ℕ) → TokenBucket
full_bucket token rate capacity now = record {
  token = token;
  rate = rate;
  capacity = capacity;
  tokens = capacity;
  last_refill = now;
}

unfoldable pub refill : ℕ → TokenBucket → TokenBucket
refill now b = record b {
  tokens = min b.capacity (b.tokens + (now - b.last_refill) * b.rate);
  last_refill = now;
}

-- How one round under the lock ends: `acquire` returns, or it sleeps for what is missing over the rate.
pub data Acquired : Type 0 where
  granted : Acquired
  waiting : (missing : ℕ) → Acquired

-- One round of the loop of `acquire`.
unfoldable pub acquire_round : ℕ → TokenBucket → Acquired × TokenBucket
unfolding refill
acquire_round now b =
    let r = refill now b in
    if leb r.token r.tokens
    then (granted, record r { tokens = r.tokens - r.token })
    else (waiting (r.token - r.tokens), r)

count : Acquired → ℕ
count granted = 1
count (waiting missing) = 0

-- Any rounds of any tasks, in the order in which they hold the lock, by their readings of the clock:
-- how many were granted, and the bucket after them.
unfoldable pub acquire_rounds : List ℕ → TokenBucket → ℕ × TokenBucket
unfolding acquire_round count
acquire_rounds [] b = (0, b)
acquire_rounds (now ∷ readings) b =
    let (outcome, b') = acquire_round now b in
    let (n, last) = acquire_rounds readings b' in (count outcome + n, last)
