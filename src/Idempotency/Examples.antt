-- ===== src/Idempotency/Examples.antt =====
-- A request that completes and one that is answered by its result (backend/services/idempotency.py).
use chatvector_ai.Prelude.{
  ℕ, ◌+◌, ◌≤◌, ◌≡◌, ◌⊎◌, refl, true, false, Option, none, some, List, [], ◌∷◌, All,
}
use chatvector_ai.Text.{codes}
use chatvector_ai.Idempotency.{
  is_transient_idempotency_http, Response, Record, in_progress, completed, RedisKey, IsLawful,
  HttpException, replayed, begin_idempotency, round_at, complete_idempotent_http_exception,
  complete, evaluate_existing,
}
use chatvector_ai.Idempotency.RoundTrip.{begin-complete_idempotent_http_exception}
use chatvector_ai.Idempotency.Steps.{
  World, Reach, start, next, claim, finish, answer, lease_of, running,
}
use chatvector_ai.Idempotency.Steps.Once.{Repeats, takes_effect_once}

-- A key as what is stored under it.
abbrev plain_key : RedisKey
plain_key = record {
  Slot = Option Record;
  get = λ s. s;
  set = λ v s. some v;
  set_nx = λ v s. elim s [ none ↦ (true, some v) | some old ↦ (false, some old) ];
  delete = λ s. none;
}

plain_key-IsLawful : IsLawful plain_key
plain_key-IsLawful = record {
  get-set = λ v s. refl;
  get-delete = λ s. refl;
  set_nx_free = λ v s h. rw h (refl, refl);
  set_nx_taken = λ v old s h. rw h refl;
}

abbrev fp : List ℕ
fp = codes "f"

abbrev unprocessable : HttpException
unprocessable = record { status_code = 422; code = none; detail = codes "bad" }

begin-complete_idempotent_http_exception_example :
    begin_idempotency true fp
      (round_at plain_key fp
        (complete_idempotent_http_exception plain_key
          (λ d. d)
          true
          (lease_of fp)
          unprocessable
          (some (in_progress fp))).1)
      []
    ≡ replayed (422, codes "bad")
unfolding is_transient_idempotency_http
begin-complete_idempotent_http_exception_example =
    begin-complete_idempotent_http_exception plain_key plain_key-IsLawful (λ d. d) (lease_of fp)
      unprocessable (some (in_progress fp)) fp [] refl refl refl

abbrev free : World plain_key
free = record { slot = none; holders = []; results = []; replays = [] }

abbrev claimed_world : World plain_key
claimed_world = record free { slot = some (in_progress fp); holders = running fp ∷ [] }

abbrev result : Response
result = (200, codes "ok")

abbrev finished_world : World plain_key
finished_world = record {
  slot = some (completed fp result);
  holders = [];
  results = (fp, result) ∷ [];
  replays = [];
}

abbrev replayed_world : World plain_key
replayed_world = record finished_world { replays = (fp, result) ∷ [] }

replayed_world-Reach : Reach plain_key replayed_world
unfolding complete evaluate_existing
replayed_world-Reach =
    next
      (next (next (start none refl) (claim free fp refl))
        (finish claimed_world [] [] fp result refl))
      (answer finished_world fp (completed fp result) result refl refl)

takes_effect_once_example :
    (0 + 1 ≤ 1)
    × ((replayed_world.replays ≡ [])
        ⊎ ((of_fp : List ℕ) × (response : Response) × (replayed_world.results
              ≡ (of_fp, response) ∷ [])
            × All (Repeats of_fp response) ((fp, result) ∷ [])))
takes_effect_once_example = takes_effect_once plain_key plain_key-IsLawful replayed_world-Reach
