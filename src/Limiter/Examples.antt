-- ===== src/Limiter/Examples.antt =====
-- A bucket of two tokens, of 100 units each, and one below a token (backend/services/queue_base.py).
use chatvector_ai.Prelude.{ℕ, ◌+◌, ◌-◌, ◌*◌, ◌≤◌, ◌≡◌, refl, arith, List, [], ◌∷◌}
use chatvector_ai.Limiter.{TokenBucket, full_bucket, waiting, acquire_round, acquire_rounds}
use chatvector_ai.Limiter.Rate.{IsClock, last_reading, acquire_rounds-le, acquire_rounds-starved}

abbrev bucket : TokenBucket
bucket = full_bucket 100 20 200 0

abbrev readings : List ℕ
readings = 0 ∷ 1 ∷ 2 ∷ 5 ∷ []

three_granted : (acquire_rounds readings bucket).0 ≡ 3
unfolding acquire_rounds
three_granted = refl

readings-IsClock : IsClock 0 readings
readings-IsClock = (omega arith, (omega arith, (omega arith, (omega arith, tt))))

acquire_rounds-le_example :
    (acquire_rounds readings bucket).0 * 100 ≤ 200 + (last_reading 0 readings - 0) * 20
acquire_rounds-le_example = acquire_rounds-le bucket readings readings-IsClock

abbrev used_bucket : TokenBucket
used_bucket = record bucket { tokens = 10 }

is_told : (acquire_round 1 used_bucket).0 ≡ waiting 70
unfolding acquire_round
is_told = refl

-- Half a token in each second.
abbrev small_bucket : TokenBucket
small_bucket = full_bucket 100 50 50 0

acquire_rounds-starved_example : (acquire_rounds readings small_bucket).0 ≡ 0
acquire_rounds-starved_example = acquire_rounds-starved readings small_bucket (omega arith)
