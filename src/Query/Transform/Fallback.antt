-- ===== src/Query/Transform/Fallback.antt =====
-- A turn whose model does not answer still searches for its question.

use chatvector_ai.History.Windows.{Message}
use chatvector_ai.History.Config.{HistoryResolutionPolicy}
use chatvector_ai.Query.{
  Prompt, Provider, llm_transform, rewrite_query, expand_query, stepback_query,
}
use chatvector_ai.Query.Transform.{
  Skipped, Cues, Resolved, apply_strategy, after_call, resolve_with_policy, resolve_coupled,
  transform_query, result_with, skip, question_needs_history_resolution,
}
use chatvector_ai.Prelude.{
  ◌≡◌, refl, arith, ℕ, Bool, Option, none, some, List, [], ◌∷◌, is_empty, Bool-cases, inl, inr,
}

module _ (cues : Cues) (generate : Provider)
    (silent : (prompt : Prompt) → llm_transform generate prompt ≡ none) where
  coupled_silent :
      (question : List ℕ) (history : List Message)
      → ((resolve_coupled generate question history).question ≡ question)
        × ((resolve_coupled generate question history).history_resolved_query ≡ none)
  unfolding resolve_coupled
  coupled_silent question [] = (refl, refl)
  coupled_silent question (m ∷ ms) =
      rw (silent (Prompt.resolve question (m ∷ ms)), resolve_coupled) (refl, refl)

  -- Both ways of a resolution leave the question as it is.
  abbrev Unresolved : List ℕ → Resolved → Type 0
  Unresolved question r = (r.question ≡ question) × (r.history_resolved_query ≡ none)

  called_silent :
      (question : List ℕ) (history : List Message)
      → Unresolved question
          (after_call question (llm_transform generate (Prompt.resolve question history)))
  unfolding after_call
  called_silent question history =
      rw (silent (Prompt.resolve question history), after_call) (refl, refl)

  gate_silent :
      (question : List ℕ) (history : List Message) (reason : Option Skipped)
      → Unresolved question (elim reason [
        | some r ↦ skip question r
        | none ↦ after_call question (llm_transform generate (Prompt.resolve question history))
      ])
  unfolding skip
  gate_silent question history none = called_silent question history
  gate_silent question history (some r) = (refl, refl)

  policy_silent :
      (question : List ℕ) (history : List Message) (policy : HistoryResolutionPolicy)
      → Unresolved question (resolve_with_policy cues generate question history policy)
  unfolding resolve_with_policy skip
  policy_silent question history policy = elim (Bool-cases policy.run) [
    | inr off ↦ rw off (refl, refl)
    | inl on ↦ rw on (elim (Bool-cases (is_empty history)) [
      | inl empty ↦ rw empty (refl, refl)
      | inr some_turn ↦ rw some_turn (elim (Bool-cases policy.use_gate) [
        | inl gated ↦
            rw gated (
              gate_silent question history
                (question_needs_history_resolution cues question history))
        | inr always ↦ rw always (called_silent question history)
      ])
    ])
  ]

  strategy_silent :
      (question : List ℕ) (apply : Bool) (strategy : List ℕ) (r : Resolved)
      → r.question ≡ question
      → (apply_strategy generate question apply strategy r).queries ≡ question ∷ []
  unfolding apply_strategy result_with rewrite_query expand_query stepback_query
  strategy_silent question apply strategy r e = ground (
    arith,
    silent (Prompt.rewrite r.question),
    silent (Prompt.expand r.question),
    silent (Prompt.stepback r.question),
  )

  history_silent :
      (enabled apply : Bool) (strategy question : List ℕ) (history : List Message)
      (policy : Option HistoryResolutionPolicy)
      → (transform_query cues generate enabled apply strategy question history
          policy).history_resolved_query
        ≡ none
  unfolding transform_query apply_strategy result_with
  history_silent enabled apply strategy question history none =
      ground (arith, coupled_silent question history)
  history_silent enabled apply strategy question history (some policy) =
      ground (arith, policy_silent question history policy)

  -- If the model gives no usable answer, then whatever the settings, the strategy, the history and the
  -- policy, the turn searches for the question as it was asked and for nothing else, and reports
  -- no resolved question.
  pub transform_query-silent :
      (enabled apply : Bool) (strategy question : List ℕ) (history : List Message)
      (policy : Option HistoryResolutionPolicy)
      → let result = transform_query cues generate enabled apply strategy question history policy in
        (result.queries ≡ question ∷ []) × (result.history_resolved_query ≡ none)
  unfolding transform_query
  transform_query-silent enabled apply strategy question history none = elim (Bool-cases enabled) [
    | inl on ↦ (
      rw on (strategy_silent question apply strategy _ (coupled_silent question history).0),
      history_silent enabled apply strategy question history none,
    )
    | inr off ↦ (rw off refl, history_silent enabled apply strategy question history none)
  ]
  transform_query-silent enabled apply strategy question history (some policy) = (
    strategy_silent question apply strategy _ (policy_silent question history policy).0,
    history_silent enabled apply strategy question history (some policy),
  )
