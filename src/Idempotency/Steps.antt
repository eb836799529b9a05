-- ===== src/Idempotency/Steps.antt =====
-- Requests with one Idempotency-Key as steps (backend/services/idempotency.py): each step is what a
-- request does between two waits for Redis, in any order, as long as the key does not expire. A
-- request that dies, or whose release fails, is one that abandons its claim.
pub mod Once
use chatvector_ai.Prelude.{ℕ, ◌≡◌, Bool, true, false, none, some, List, [], ◌∷◌, ◌++◌}
use chatvector_ai.Idempotency.{
  Response, Record, in_progress, RedisKey, Lease, evaluate_existing, replay, complete,
  is_in_progress,
}

-- A request that holds a claim, by its fingerprint: it runs, or `abort` has read that the claim is in
-- progress and is about to delete it.
pub data Holder : Type 0 where
  running : List ℕ → Holder
  releasing : List ℕ → Holder

-- The key, the requests that hold a claim, and what was completed and what was replayed, with the
-- fingerprints.
pub record World (r : RedisKey) : Type 0 where
  pub slot : r.Slot
  pub holders : List Holder
  pub results : List (List ℕ × Response)
  pub replays : List (List ℕ × Response)

-- The lease of a claim that is held.
abbrev pub lease_of : List ℕ → Lease
lease_of fingerprint = record { active = true; fingerprint = fingerprint; finished = false }

pub data Step (r : RedisKey) : World r → World r → Type 0 where
  claim :
      (w : World r) (fp : List ℕ)
      → (r.set_nx (in_progress fp) w.slot).0 ≡ true
      → Step r w (record w {
        slot = (r.set_nx (in_progress fp) w.slot).1;
        holders = running fp ∷ w.holders;
      })
  lose :
      (w : World r) (fp : List ℕ)
      → (r.set_nx (in_progress fp) w.slot).0 ≡ false
      → Step r w (record w { slot = (r.set_nx (in_progress fp) w.slot).1 })
  answer :
      (w : World r) (fp : List ℕ) (stored : Record) (response : Response)
      → r.get w.slot ≡ some stored
      → evaluate_existing stored fp ≡ replay response
      → Step r w (record w { replays = (fp, response) ∷ w.replays })
  finish :
      (w : World r) (before after : List Holder) (fp : List ℕ) (response : Response)
      → w.holders ≡ before ++ running fp ∷ after
      → Step r w (record w {
        slot = (complete r response (lease_of fp) w.slot).1;
        holders = before ++ after;
        results = (fp, response) ∷ w.results;
      })
  release :
      (w : World r) (before after : List Holder) (fp : List ℕ)
      → w.holders ≡ before ++ running fp ∷ after
      → is_in_progress (r.get w.slot) ≡ true
      → Step r w (record w { holders = before ++ releasing fp ∷ after })
  remove :
      (w : World r) (before after : List Holder) (fp : List ℕ)
      → w.holders ≡ before ++ releasing fp ∷ after
      → Step r w (record w { slot = r.delete w.slot; holders = before ++ after })
  abandon :
      (w : World r) (before after : List Holder) (holder : Holder)
      → w.holders ≡ before ++ holder ∷ after
      → Step r w (record w { holders = before ++ after })

-- From a key that is free.
pub data Reach (r : RedisKey) : World r → Type 0 where
  start :
      (slot : r.Slot)
      → r.get slot ≡ none
      → Reach r (record { slot = slot; holders = []; results = []; replays = [] })
  next : {w v : World r} → Reach r w → Step r w v → Reach r v
