-- ===== src/Limiter/Rate.antt =====
-- What the rate limiter lets through (backend/services/queue_base.py).

use native.Mathlib.Nat.{add-mul}
use chatvector_ai.Prelude.{
  Bool-cases, inl, inr, sym, ap, ◌∙◌, ℕ, ◌+◌, ◌-◌, ◌*◌, ◌≤◌, ◌<◌, ◌≡◌, refl, arith, List, [], ◌∷◌,
  leb,
}
use chatvector_ai.Limiter.{
  count, TokenBucket, refill, granted, waiting, acquire_round, acquire_rounds,
}

-- The clock does not run backwards.
abbrev pub IsClock : ℕ → List ℕ → Type 0
IsClock now [] = Unit
IsClock now (t ∷ ts) = (now ≤ t) × IsClock t ts

-- Nothing but the amount and the time changes, and the amount stays within the capacity.
record Kept (b b' : TokenBucket) : Type 0 where
  token : b'.token ≡ b.token
  rate : b'.rate ≡ b.rate
  capacity : b'.capacity ≡ b.capacity
  fits : b'.tokens ≤ b.capacity

acquire_round-Kept : (now : ℕ) (b : TokenBucket) → Kept b (acquire_round now b).1
unfolding acquire_round
acquire_round-Kept now b = record {
  token = ground arith;
  rate = ground arith;
  capacity = ground arith;
  fits = ground arith;
}

elapsed : (m n r : ℕ) → m ≤ n → (n - m) * r + m * r ≡ n * r
elapsed m n r h =
    let back : n - m + m ≡ n = omega arith in sym (add-mul (n - m) m r) ∙ ap (λ k. k * r) back

-- A round spends no more than the tokens that it finds and those of the time since the last one.
acquire_round-spent :
    (now : ℕ) (b : TokenBucket)
    → b.last_refill ≤ now
    → count (acquire_round now b).0 * b.token
        + (acquire_round now b).1.tokens
        + b.last_refill * b.rate
      ≤ b.tokens + now * b.rate
unfolding acquire_round count
acquire_round-spent now b h = elim (Bool-cases (leb b.token (refill now b).tokens)) [
  | inl full ↦ rw (full, acquire_round) (ground (arith, full, elapsed b.last_refill now b.rate h))
  | inr short ↦ rw (short, acquire_round) (ground (arith, elapsed b.last_refill now b.rate h))
]

acquire_round-last_refill : (now : ℕ) (b : TokenBucket) → (acquire_round now b).1.last_refill ≡ now
unfolding acquire_round
acquire_round-last_refill now b = ground arith

-- The last of the readings.
abbrev pub last_reading : ℕ → List ℕ → ℕ
last_reading now [] = now
last_reading now (t ∷ ts) = last_reading t ts

last_reading-le : (now : ℕ) (ts : List ℕ) → IsClock now ts → now ≤ last_reading now ts
last_reading-le now [] h = omega arith
last_reading-le now (t ∷ ts) h = omega (arith, last_reading-le t ts h.1)

acquire_rounds-spent :
    (token rate : ℕ) (readings : List ℕ) (b : TokenBucket) (start : ℕ)
    → b.token ≡ token
    → b.rate ≡ rate
    → b.last_refill ≡ start
    → IsClock start readings
    → (acquire_rounds readings b).0 * token + start * rate
      ≤ b.tokens + last_reading start readings * rate
unfolding acquire_rounds
acquire_rounds-spent token rate [] b start t r s h = omega arith
acquire_rounds-spent token rate (now ∷ readings) b start t r s h =
    let o = acquire_round now b in
    let k = acquire_round-Kept now b in
    omega (
      arith,
      add-mul (count o.0) (acquire_rounds readings o.1).0 token,
      ap (λ z. count o.0 * z) t,
      ap (λ z. z * b.rate) s,
      ap (λ z. start * z) r,
      ap (λ z. now * z) r,
      acquire_round-spent now b (rw s h.0),
      acquire_rounds-spent token rate readings o.1 now (k.token ∙ t) (k.rate ∙ r)
          (acquire_round-last_refill now b) h.1,
    )

-- From any moment on, by a clock that does not run backwards, the rounds of all tasks together grant
-- at most the tokens that the bucket holds at that moment and those of the time up to the last
-- round.
pub acquire_rounds-le :
    (b : TokenBucket) (readings : List ℕ)
    → IsClock b.last_refill readings
    → (acquire_rounds readings b).0 * b.token
      ≤ b.tokens + (last_reading b.last_refill readings - b.last_refill) * b.rate
acquire_rounds-le b readings h = omega (
  arith,
  acquire_rounds-spent b.token b.rate readings b b.last_refill refl refl refl h,
  elapsed b.last_refill (last_reading b.last_refill readings) b.rate
      (last_reading-le b.last_refill readings h),
)

-- A task that is told to wait, and comes back after at least that time with no other round in
-- between, is granted its token, if the capacity holds one.
pub acquire_round-granted :
    (b : TokenBucket) (now later missing : ℕ)
    → b.token ≤ b.capacity
    → (acquire_round now b).0 ≡ waiting missing
    → missing ≤ (later - now) * b.rate
    → (acquire_round later (acquire_round now b).1).0 ≡ granted
unfolding acquire_round
acquire_round-granted b now later missing room h long =
    elim (Bool-cases (leb b.token (refill now b).tokens)) [
      | inl full ↦ absurd (ground (arith, full, h))
      | inr short ↦
          (let m : b.token - (refill now b).tokens ≡ missing = ground (arith, short, h) in
            rw (short, acquire_round) (ground (arith, m)))
    ]

starved_round :
    (now : ℕ) (b : TokenBucket) → b.capacity < b.token → count (acquire_round now b).0 ≡ 0
unfolding acquire_round count
starved_round now b h = ground arith

-- If the capacity is below one token, as with an embedding rate below 1.0, no round is ever granted.
pub acquire_rounds-starved :
    (readings : List ℕ) (b : TokenBucket) → b.capacity < b.token → (acquire_rounds readings b).0 ≡ 0
unfolding acquire_rounds count
acquire_rounds-starved [] b h = refl
acquire_rounds-starved (now ∷ readings) b h =
    let k = acquire_round-Kept now b in
    ground (
      arith,
      starved_round now b h,
      k.capacity,
      k.token,
      acquire_rounds-starved readings (acquire_round now b).1
          (omega (arith, h, k.capacity, k.token)),
    )
