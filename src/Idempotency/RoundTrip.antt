-- ===== src/Idempotency/RoundTrip.antt =====
-- What the next request meets after one is completed or released (backend/services/idempotency.py).
use chatvector_ai.Prelude.{
  ◌≡◌, refl, true, false, none, some, List, [], ◌∷◌, ℕ, arith, inl, inr, Bool-cases, if◌then◌else◌,
}
use chatvector_ai.Text.{same_text}
use chatvector_ai.Idempotency.{
  evaluate_existing, Response, in_progress, completed, RedisKey, IsLawful, claimed, replayed,
  mismatched, begin_idempotency, Lease, HttpException, is_transient_idempotency_http, complete,
  abort, complete_idempotent_http_exception, round_at, Round,
}

same_text_refl : (s : List ℕ) → same_text s s ≡ true
same_text_refl [] = refl
same_text_refl (c ∷ s) = ground (arith, same_text_refl s)

module _ (r : RedisKey) (laws : IsLawful r) where
  begin_free :
      (fingerprint : List ℕ) (slot : r.Slot) (rounds : List Round)
      → r.get slot ≡ none
      → begin_idempotency true fingerprint (round_at r fingerprint slot) rounds ≡ claimed
  unfolding begin_idempotency round_at
  begin_free fingerprint slot rounds h =
      rw (h, (laws.set_nx_free (in_progress fingerprint) slot h).0) refl

  begin_completed :
      (stored fingerprint : List ℕ) (response : Response) (slot : r.Slot) (rounds : List Round)
      → r.get slot ≡ some (completed stored response)
      → begin_idempotency true fingerprint (round_at r fingerprint slot) rounds
        ≡ (if same_text stored fingerprint then replayed response else mismatched)
  unfolding begin_idempotency round_at evaluate_existing
  begin_completed stored fingerprint response slot rounds h =
      elim (Bool-cases (same_text stored fingerprint)) [
        | inl same ↦ rw (h, same) refl
        | inr differs ↦ rw (h, differs) refl
      ]

  -- If Redis answers, the lease is active and not finished, and its claim is what is stored, then the next request
  -- with the key, in no race with another, gets the claim where the result was transient, and else the result
  -- itself, if its fingerprint is that of the lease, or the mismatch error, if it is another.
  pub begin-complete_idempotent_http_exception :
      (body_of : List ℕ → List ℕ) (lease : Lease) (exc : HttpException) (slot : r.Slot)
      (fingerprint : List ℕ) (rounds : List Round)
      → lease.active ≡ true
      → lease.finished ≡ false
      → r.get slot ≡ some (in_progress lease.fingerprint)
      → let slot' = (complete_idempotent_http_exception r body_of true lease exc slot).1 in
        begin_idempotency true fingerprint (round_at r fingerprint slot') rounds ≡ (
          if is_transient_idempotency_http exc
          then claimed
          else if same_text lease.fingerprint fingerprint
          then replayed (exc.status_code, body_of exc.detail)
          else mismatched)
  unfolding complete_idempotent_http_exception complete abort
  begin-complete_idempotent_http_exception body_of lease exc slot fingerprint rounds a f h =
      elim (Bool-cases (is_transient_idempotency_http exc)) [
        | inl transient ↦
            rw (transient, a, f, h)
              (begin_free fingerprint (r.delete slot) rounds (laws.get-delete slot))
        | inr stable ↦
            rw (stable, a, f)
              (begin_completed lease.fingerprint fingerprint (exc.status_code, body_of exc.detail) _
                rounds
                (laws.get-set (completed lease.fingerprint (exc.status_code, body_of exc.detail))
                  slot))
      ]
