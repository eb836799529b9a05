-- ===== src/Query/Examples.antt =====
-- Turns whose model answers, and whose model does not.
use chatvector_ai.Text.{lower, strip, codes}
use chatvector_ai.History.Config.{HistoryResolutionPolicy}
use chatvector_ai.Query.{Prompt, Provider, casefold, llm_transform, expand_query}
use chatvector_ai.Query.Expand.{Fresh, expand_query_lem}
use chatvector_ai.Query.Transform.{Cues, transform_query}
use chatvector_ai.Query.Transform.Fallback.{transform_query-silent}
use chatvector_ai.Prelude.{◌≡◌, refl, ◌≤◌, ℕ, true, false, none, some, List, [], ◌∷◌, length}

abbrev answering : Provider
answering prompt = some (codes "1. What is X?\n- who made it\n* WHO made IT\n2) why\n")

expanded :
    expand_query answering (codes "what is x?")
    ≡ codes "what is x?" ∷ codes "who made it" ∷ codes "why" ∷ []
unfolding expand_query strip lower
expanded = refl

expand_query_lem_example :
    (alternatives : List (List ℕ)) × (expand_query answering (codes "what is x?")
      ≡ codes "what is x?" ∷ alternatives)
    × (length alternatives ≤ 2)
    × Fresh (casefold (codes "what is x?") ∷ []) alternatives
expand_query_lem_example = expand_query_lem answering (codes "what is x?")

abbrev cues : Cues
cues = record {
  has_reference = λ text. true;
  switches_topic = λ text. false;
  has_open_class_word = λ text. true;
}

-- An exception at every call.
abbrev failing : Provider
failing prompt = none

failing_silent : (prompt : Prompt) → llm_transform failing prompt ≡ none
unfolding llm_transform
failing_silent prompt = refl

abbrev gated : HistoryResolutionPolicy
gated = record { run = true; use_gate = true; forced_skip_reason = none }

transform_query-silent_example :
    let result =
      transform_query cues failing true true
        (codes "expand")
        (codes "and that?")
        (record { content = some (codes "the plan"); rest = [] } ∷ [])
        (some gated) in
    (result.queries ≡ codes "and that?" ∷ []) × (result.history_resolved_query ≡ none)
transform_query-silent_example =
    transform_query-silent cues failing failing_silent true true (codes "expand")
      (codes "and that?") (record { content = some (codes "the plan"); rest = [] } ∷ [])
      (some gated)
