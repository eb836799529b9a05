-- ===== src/Idempotency/Steps/Once.antt =====
-- A request with an Idempotency-Key takes effect once (backend/services/idempotency.py).
use mathlib.Core.Path.{subst}
use chatvector_ai.Prelude.{
  ◌+◌, ℕ, ◌≡◌, ◌≢◌, ◌⊎◌, refl, sym, ap, ◌∙◌, true, false, Option, none, some, List, [], ◌∷◌, ◌++◌,
  inl, inr, arith, All, ◌≤◌, Option-cases, length,
}
use chatvector_ai.Text.{same_text}
use chatvector_ai.Idempotency.{
  Response, Record, in_progress, completed, RedisKey, IsLawful, evaluate_existing, replay, complete,
}
use chatvector_ai.Idempotency.Steps.{
  Holder, running, releasing, World, lease_of, Step, claim, lose, answer, finish, release, remove,
  abandon, Reach, start, next,
}

abbrev pub holder_fp : Holder → List ℕ
holder_fp (running fp) = fp
holder_fp (releasing fp) = fp

-- What is stored is no result.
abbrev NoResult : Option Record → Type 0
NoResult (some (completed fp response)) = ⊥
NoResult o = Unit

-- The result that a replay must repeat.
abbrev pub Repeats : List ℕ → Response → List ℕ × Response → Type 0
Repeats fp response (asked, replayed) = (same_text fp asked ≡ true) × (replayed ≡ response)

-- Nobody holds the key and nothing is completed; or one request holds it; or its result is stored.
data Phase (r : RedisKey) (w : World r) : Type 0 where
  idle : w.holders ≡ [] → w.results ≡ [] → w.replays ≡ [] → NoResult (r.get w.slot) → Phase r w
  held :
      (holder : Holder)
      → w.holders ≡ holder ∷ []
      → w.results ≡ []
      → w.replays ≡ []
      → r.get w.slot ≡ some (in_progress (holder_fp holder))
      → Phase r w
  settled :
      (fp : List ℕ) (response : Response)
      → w.holders ≡ []
      → w.results ≡ (fp, response) ∷ []
      → All (Repeats fp response) w.replays
      → r.get w.slot ≡ some (completed fp response)
      → Phase r w

no_holder : (before after : List Holder) (h : Holder) → [] ≢ before ++ h ∷ after
no_holder [] after h e = ground (arith, e)
no_holder (b ∷ before) after h e = ground (arith, e)

one_holder :
    (before after : List Holder) (g h : Holder)
    → g ∷ [] ≡ before ++ h ∷ after
    → (g ≡ h) × (before ++ after ≡ []) × (before ≡ []) × (after ≡ [])
one_holder [] after g h e = ground (arith, e)
one_holder (b ∷ before) after g h e = absurd (no_holder before after h (ground (arith, e)))

module _ (r : RedisKey) (laws : IsLawful r) where
  -- A claim that is won was free, and one that is lost changes nothing.
  claim-won :
      (v : Record) (s : r.Slot)
      → (r.set_nx v s).0 ≡ true
      → (r.get s ≡ none) × (r.get (r.set_nx v s).1 ≡ some v)
  claim-won v s h = elim (Option-cases (r.get s)) [
    | inl free ↦ (free, (laws.set_nx_free v s free).1)
    | inr (old, taken) ↦ absurd (ground (arith, h, laws.set_nx_taken v old s taken))
  ]

  claim-lost : (v : Record) (s : r.Slot) → (r.set_nx v s).0 ≡ false → (r.set_nx v s).1 ≡ s
  claim-lost v s h = elim (Option-cases (r.get s)) [
    | inl free ↦ absurd (ground (arith, h, laws.set_nx_free v s free))
    | inr (old, taken) ↦ ap (λ p. p.1) (laws.set_nx_taken v old s taken)
  ]

  replay_result :
      (stored : Record) (fp : List ℕ) (response : Response)
      → evaluate_existing stored fp ≡ replay response
      → (by : List ℕ) × (stored ≡ completed by response) × (same_text by fp ≡ true)
  unfolding evaluate_existing
  replay_result (in_progress by) fp response h = absurd (ground (arith, h))
  replay_result (completed by result) fp response h = (by, ground (arith, h), ground (arith, h))

  complete-stored :
      (fp : List ℕ) (response : Response) (s : r.Slot)
      → r.get (complete r response (lease_of fp) s).1 ≡ some (completed fp response)
  unfolding complete
  complete-stored fp response s = laws.get-set (completed fp response) s

  claim-Phase :
      (w : World r) (fp : List ℕ)
      → (r.set_nx (in_progress fp) w.slot).0 ≡ true
      → Phase r w
      → Phase r (record w {
        slot = (r.set_nx (in_progress fp) w.slot).1;
        holders = running fp ∷ w.holders;
      })
  claim-Phase w fp h p =
      let (free, stored) = claim-won (in_progress fp) w.slot h in
      elim p [
        | idle none_held none_done none_replayed n ↦
            held (running fp) (ap (λ l. running fp ∷ l) none_held) none_done none_replayed stored
        | held holder one none_done none_replayed g ↦ absurd (ground (arith, free, g))
        | settled by response none_held one repeated g ↦ absurd (ground (arith, free, g))
      ]

  lose-Phase :
      (w : World r) (fp : List ℕ)
      → (r.set_nx (in_progress fp) w.slot).0 ≡ false
      → Phase r w
      → Phase r (record w { slot = (r.set_nx (in_progress fp) w.slot).1 })
  lose-Phase w fp h p = rw (claim-lost (in_progress fp) w.slot h) p

  answer-Phase :
      (w : World r) (fp : List ℕ) (stored : Record) (response : Response)
      → r.get w.slot ≡ some stored
      → evaluate_existing stored fp ≡ replay response
      → Phase r w
      → Phase r (record w { replays = (fp, response) ∷ w.replays })
  answer-Phase w fp stored response g e p =
      let (by, is_result, same) = replay_result stored fp response e in
      elim p [
        | idle none_held none_done none_replayed n ↦
            absurd (subst NoResult (g ∙ ap some is_result) n)
        | held holder one none_done none_replayed h ↦ absurd (ground (arith, g, h, is_result))
        | settled of_fp result none_held one repeated h ↦
            settled of_fp result none_held one (ground (arith, g, h, is_result, same), repeated) h
      ]

  finish-Phase :
      (w : World r) (before after : List Holder) (fp : List ℕ) (response : Response)
      → w.holders ≡ before ++ running fp ∷ after
      → Phase r w
      → Phase r (record w {
        slot = (complete r response (lease_of fp) w.slot).1;
        holders = before ++ after;
        results = (fp, response) ∷ w.results;
      })
  finish-Phase w before after fp response h p = elim p [
    | idle none_held none_done none_replayed n ↦
        absurd (no_holder before after (running fp) (sym none_held ∙ h))
    | held holder one none_done none_replayed g ↦
        let (same, empty, _, _) = one_holder before after holder (running fp) (sym one ∙ h) in
        settled fp response empty (ap (λ l. (fp, response) ∷ l) none_done)
          (subst (All (Repeats fp response)) (sym none_replayed) tt)
          (complete-stored fp response w.slot)
    | settled of_fp result none_held one repeated g ↦
        absurd (no_holder before after (running fp) (sym none_held ∙ h))
  ]

  release-Phase :
      (w : World r) (before after : List Holder) (fp : List ℕ)
      → w.holders ≡ before ++ running fp ∷ after
      → Phase r w
      → Phase r (record w { holders = before ++ releasing fp ∷ after })
  release-Phase w before after fp h p = elim p [
    | idle none_held none_done none_replayed n ↦
        absurd (no_holder before after (running fp) (sym none_held ∙ h))
    | held holder one none_done none_replayed g ↦
        let (same, _, first, last) = one_holder before after holder (running fp) (sym one ∙ h) in
        held (releasing fp) (rw (first, last) refl) none_done none_replayed
          (g ∙ ap (λ a. some (in_progress (holder_fp a))) same)
    | settled of_fp result none_held one repeated g ↦
        absurd (no_holder before after (running fp) (sym none_held ∙ h))
  ]

  -- The only holder goes, and leaves no result.
  leave-Phase :
      (w : World r) (before after : List Holder) (holder : Holder) (slot : r.Slot)
      → w.holders ≡ before ++ holder ∷ after
      → (NoResult (r.get w.slot) → NoResult (r.get slot))
      → Phase r w
      → Phase r (record w { slot = slot; holders = before ++ after })
  leave-Phase w before after holder slot h keeps p = elim p [
    | idle none_held none_done none_replayed n ↦
        absurd (no_holder before after holder (sym none_held ∙ h))
    | held only one none_done none_replayed g ↦
        let (_, empty, _, _) = one_holder before after only holder (sym one ∙ h) in
        idle empty none_done none_replayed (keeps (subst NoResult (sym g) tt))
    | settled of_fp result none_held one repeated g ↦
        absurd (no_holder before after holder (sym none_held ∙ h))
  ]

  Step-Phase : {w v : World r} → Step r w v → Phase r w → Phase r v
  Step-Phase (claim w fp h) p = claim-Phase w fp h p
  Step-Phase (lose w fp h) p = lose-Phase w fp h p
  Step-Phase (answer w fp stored response g e) p = answer-Phase w fp stored response g e p
  Step-Phase (finish w before after fp response h) p = finish-Phase w before after fp response h p
  Step-Phase (release w before after fp h is_running) p = release-Phase w before after fp h p
  Step-Phase (remove w before after fp h) p =
      leave-Phase w before after (releasing fp) (r.delete w.slot) h
        (λ n. subst NoResult (sym (laws.get-delete w.slot)) tt) p
  Step-Phase (abandon w before after holder h) p =
      leave-Phase w before after holder w.slot h (λ n. n) p

  Reach-Phase : {w : World r} → Reach r w → Phase r w
  Reach-Phase (start slot free) = idle refl refl refl (subst NoResult (sym free) tt)
  Reach-Phase (next reached step) = Step-Phase step (Reach-Phase reached)

  -- As long as the key does not expire, from a key that is free, in any interleaving of requests: at most one request
  -- holds the claim, at most one result is ever completed, none is while a request holds the claim, and every
  -- replay repeats that result to a request with its fingerprint.
  pub takes_effect_once :
      {w : World r}
      → Reach r w
      → (length w.holders + length w.results ≤ 1)
        × ((w.replays ≡ [])
            ⊎ ((fp : List ℕ) × (response : Response) × (w.results ≡ (fp, response) ∷ [])
                × All (Repeats fp response) w.replays))
  takes_effect_once reached = elim (Reach-Phase reached) [
    | idle none_held none_done none_replayed n ↦
        (rw (none_held, none_done) (omega arith), inl none_replayed)
    | held holder one none_done none_replayed g ↦
        (rw (one, none_done) (omega arith), inl none_replayed)
    | settled fp response none_held one repeated g ↦
        (rw (none_held, one) (omega arith), inr (fp, response, one, repeated))
  ]
