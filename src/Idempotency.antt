-- ===== src/Idempotency.antt =====
-- Idempotent requests (backend/services/idempotency.py). The Redis client is a record of operations
-- on the one key that a tenant, a route and an Idempotency-Key make, with laws; the hash is an
-- argument. Logging is left out.

pub mod RoundTrip
pub mod Steps
mod Examples
use chatvector_ai.Prelude.{
  ◌++◌, ℕ, ◌≡◌, Bool, true, false, not, ◌&&◌, ◌||◌, ◌==◌, Option, none, some, List, [], ◌∷◌, ltb,
  length, is_empty, is_some, if◌then◌else◌,
}
use chatvector_ai.Text.{codes, join, same_text, strip}

-- A status code and a body, as JSON text.
abbrev pub Response : Type 0
Response = ℕ × List ℕ

-- What is stored under the key, with its fingerprint.
pub data Record : Type 0 where
  in_progress : List ℕ → Record
  completed : List ℕ → Response → Record

-- GET, SET, SET NX and DEL on the key.
pub record RedisKey : Type 1 where
  pub Slot : Type 0
  pub get : Slot → Option Record
  pub set : Record → Slot → Slot
  pub set_nx : Record → Slot → Bool × Slot
  pub delete : Slot → Slot

pub record IsLawful (r : RedisKey) : Type 0 where
  pub get-set : (v : Record) (s : r.Slot) → r.get (r.set v s) ≡ some v
  pub get-delete : (s : r.Slot) → r.get (r.delete s) ≡ none
  pub set_nx_free :
      (v : Record) (s : r.Slot)
      → r.get s ≡ none
      → ((r.set_nx v s).0 ≡ true) × (r.get (r.set_nx v s).1 ≡ some v)
  pub set_nx_taken : (v old : Record) (s : r.Slot) → r.get s ≡ some old → r.set_nx v s ≡ (false, s)

-- `parse_idempotency_key`: no header, a key that is refused with 422, or the key.
pub data ParsedKey : Type 0 where
  no_header : ParsedKey
  empty_key : ParsedKey
  long_key : ParsedKey
  key : List ℕ → ParsedKey

unfoldable pub parse_idempotency_key : ℕ → Option (List ℕ) → ParsedKey
unfolding strip
parse_idempotency_key max_len none = no_header
parse_idempotency_key max_len (some raw) =
    if is_empty (strip raw)
    then empty_key
    else if ltb max_len (length (strip raw))
    then long_key
    else key (strip raw)

-- The bytes that `upload_request_fingerprint` hashes; the digest of the file and the canonical
-- metadata are arguments.
optional_part : Option (List ℕ) → List (List ℕ)
optional_part none = []
optional_part (some s) = if is_empty s then [] else s ∷ []

unfoldable pub upload_request_fingerprint :
    (List ℕ → List ℕ)
    → (digest filename : List ℕ) → (content_type replace_document_id : Option (List ℕ))
    → (metadata : List ℕ) → List ℕ
unfolding optional_part join
upload_request_fingerprint hash digest filename content_type replace_document_id metadata = hash (
    join (0 ∷ []) (
      digest
      ∷ filename
      ∷ (optional_part content_type ++ (optional_part replace_document_id ++ metadata ∷ []))))

-- What a stored record means for a request.
pub data Evaluation : Type 0 where
  replay : Response → Evaluation
  mismatch : Evaluation
  pending : Evaluation

-- `_evaluate_existing`
unfoldable pub evaluate_existing : Record → List ℕ → Evaluation
evaluate_existing (in_progress stored_fp) fingerprint =
    if same_text stored_fp fingerprint then pending else mismatch
evaluate_existing (completed stored_fp response) fingerprint =
    if same_text stored_fp fingerprint then replay response else mismatch

-- How `begin_idempotency` ends: without a key, with the claim, with a replay, or by 409 mismatch, 409
-- in progress, or 503.
pub data Begun : Type 0 where
  no_key : Begun
  claimed : Begun
  replayed : Response → Begun
  mismatched : Begun
  still_in_progress : Begun
  store_unavailable : Begun

-- A round of the loop: what the read answers, and what the claim answers if the key was free. An
-- answer of nothing is a RedisError.
pub record Round : Type 0 where
  pub read : Option (Option Record)
  pub claim : Option Bool

-- The rounds before the deadline.
unfoldable pub poll_rounds : List ℕ → List Round → Begun
unfolding evaluate_existing
poll_rounds fingerprint [] = still_in_progress
poll_rounds fingerprint (round ∷ rounds) =
    let rest = poll_rounds fingerprint rounds in
    elim round.read [
      | none ↦ store_unavailable
      | some none ↦ elim round.claim [
        | none ↦ store_unavailable
        | some won ↦ if won then claimed else rest
      ]
      | some (some existing) ↦ elim (evaluate_existing existing fingerprint) [
        | replay response ↦ replayed response
        | mismatch ↦ mismatched
        | pending ↦ rest
      ]
    ]

-- The first claim, and the rounds if it is lost.
claim_or_poll : List ℕ → Option Bool → List Round → Begun
unfolding poll_rounds
claim_or_poll fingerprint none rounds = store_unavailable
claim_or_poll fingerprint (some won) rounds =
    if won then claimed else poll_rounds fingerprint rounds

unfoldable pub begin_idempotency : Bool → List ℕ → Round → List Round → Begun
unfolding claim_or_poll evaluate_existing
begin_idempotency has_key fingerprint first rounds =
    if has_key
    then elim first.read [
      | none ↦ store_unavailable
      | some none ↦ claim_or_poll fingerprint first.claim rounds
      | some (some existing) ↦ elim (evaluate_existing existing fingerprint) [
        | replay response ↦ replayed response
        | mismatch ↦ mismatched
        | pending ↦ claim_or_poll fingerprint first.claim rounds
      ]
    ]
    else no_key

pub record Lease : Type 0 where
  pub active : Bool
  pub fingerprint : List ℕ
  pub finished : Bool

-- An HTTPException, with the `code` of its detail if that is an object with one, and its detail.
pub record HttpException : Type 0 where
  pub status_code : ℕ
  pub code : Option (List ℕ)
  pub detail : List ℕ

-- `code in _TRANSIENT_409_CODES`
is_transient_code : Option (List ℕ) → Bool
is_transient_code none = false
is_transient_code (some c) =
    same_text c (codes "replacement_in_progress")
    || same_text c (codes "document_processing")
    || same_text c (codes "idempotency_in_progress")

-- `code in _STABLE_409_CODES`
is_stable_code : Option (List ℕ) → Bool
is_stable_code none = false
is_stable_code (some c) = same_text c (codes "idempotency_key_mismatch")

unfoldable pub is_transient_idempotency_http : HttpException → Bool
unfolding is_transient_code is_stable_code
is_transient_idempotency_http exc =
    if exc.status_code == 429 || exc.status_code == 503
    then true
    else if not (exc.status_code == 409) || not (is_some exc.code)
    then false
    else if is_stable_code exc.code
    then false
    else is_transient_code exc.code

-- `record.get("status") == _STATUS_IN_PROGRESS`
unfoldable pub is_in_progress : Option Record → Bool
is_in_progress none = false
is_in_progress (some (in_progress fp)) = true
is_in_progress (some (completed fp response)) = false

module _ (r : RedisKey) where
  -- `complete`
  unfoldable pub complete : Response → Lease → r.Slot → Lease × r.Slot
  complete response lease slot =
      if not lease.active || lease.finished
      then (lease, slot)
      else (record lease { finished = true }, r.set (completed lease.fingerprint response) slot)

  -- `abort`; `up` says whether Redis answers, else the error is logged.
  unfoldable pub abort : Bool → Lease → r.Slot → Lease × r.Slot
  unfolding is_in_progress
  abort up lease slot = if not lease.active || lease.finished then (lease, slot) else (
    record lease { finished = true },
    if up && is_in_progress (r.get slot) then r.delete slot else slot,
  )

  -- `complete_idempotent_http_exception`; `body_of` wraps the detail.
  unfoldable pub complete_idempotent_http_exception :
      (List ℕ → List ℕ) → Bool → Lease → HttpException → r.Slot → Lease × r.Slot
  unfolding abort complete is_transient_idempotency_http
  complete_idempotent_http_exception body_of up lease exc slot =
      if is_transient_idempotency_http exc
      then abort up lease slot
      else complete (exc.status_code, body_of exc.detail) lease slot

  -- What a round meets if no other request comes between its read and its claim.
  unfoldable pub round_at : List ℕ → r.Slot → Round
  round_at fingerprint slot = record {
    read = some (r.get slot);
    claim = some (r.set_nx (in_progress fingerprint) slot).0;
  }
