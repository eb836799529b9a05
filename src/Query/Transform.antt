-- ===== src/Query/Transform.antt =====
-- Standalone resolution and `transform_query` (backend/services/query_service.py). Of the history
-- trace, what the resolution decides is modelled: whether it was applied, and why not.
pub mod Fallback
use chatvector_ai.Text.{strip, same_text, codes, drop_spaces, is_space}
use chatvector_ai.History.Windows.{Message}
use chatvector_ai.History.Config.{HistoryResolutionPolicy, SkipReason, disabled}
use chatvector_ai.Query.{
  Prompt, resolve, Provider, llm_transform, rewrite_query, expand_query, stepback_query,
}
use chatvector_ai.Prelude.{
  ◌+◌, zero, suc, ℕ, ◌++◌, Bool, true, false, not, ◌&&◌, ◌||◌, Option, none, some, List, [], ◌∷◌,
  map, reverse, is_empty, leb, ◌==◌, if◌then◌else◌,
}

-- The searches of the gate: any reference, a topic switch, a word outside the closed class.
pub record Cues : Type 0 where
  pub has_reference : List ℕ → Bool
  pub switches_topic : List ℕ → Bool
  pub has_open_class_word : List ℕ → Bool

-- `len(text.split())`, with whether the text before ends within a word.
count_words : Bool → List ℕ → ℕ
unfolding is_space
count_words within [] = 0
count_words within (c ∷ s) =
    (if is_space c || within then 0 else 1) + count_words (not (is_space c)) s

ends_with_question : List ℕ → Bool
ends_with_question s = elim (reverse s) [ [] ↦ false | c ∷ t ↦ c == b'?' ]

pub data Skipped : Type 0 where
  empty_history standalone_question topic_switch : Skipped
  forced : SkipReason → Skipped

-- `question_needs_history_resolution`: `none` asks for a resolution.
unfoldable pub question_needs_history_resolution : Cues → List ℕ → List Message → Option Skipped
unfolding count_words ends_with_question
question_needs_history_resolution cues question history =
    let text = strip question in
    let words = count_words false text in
    if is_empty history
    then some empty_history
    else if is_empty text
    then some standalone_question
    else if cues.has_reference text
    then none
    else if cues.switches_topic text
    then some topic_switch
    else if leb 6 words || (ends_with_question text && leb 4 words)
    then some standalone_question
    else if cues.has_open_class_word text
    then some standalone_question
    else none

-- `history_resolution_applied`, and the reasons of a skip or a fallback.
pub record HistoryTrace : Type 0 where
  pub applied : Bool
  pub skipped_reason : Option Skipped
  pub llm_failure : Bool

pub record Resolved : Type 0 where
  pub question : List ℕ
  pub history_resolved_query : Option (List ℕ)
  pub trace : Option HistoryTrace

skip : List ℕ → Skipped → Resolved
skip question reason = record {
  question = question;
  history_resolved_query = none;
  trace = some (record { applied = false; skipped_reason = some reason; llm_failure = false });
}

forced_reason : HistoryResolutionPolicy → SkipReason
forced_reason policy = elim policy.forced_skip_reason [ none ↦ disabled | some r ↦ r ]

-- `resolved if resolved != question else None`
if_changed : List ℕ → List ℕ → Option (List ℕ)
if_changed question resolved = if same_text resolved question then none else some resolved

-- After the call of `_call_standalone_resolution`.
after_call : List ℕ → Option (List ℕ) → Resolved
unfolding if_changed
after_call question none = record {
  question = question;
  history_resolved_query = none;
  trace = some (record { applied = false; skipped_reason = none; llm_failure = true });
}
after_call question (some resolved) = record {
  question = resolved;
  history_resolved_query = if_changed question resolved;
  trace = some (record { applied = true; skipped_reason = none; llm_failure = false });
}

-- `_resolve_with_policy`
unfoldable pub resolve_with_policy :
    Cues → Provider → List ℕ → List Message → HistoryResolutionPolicy → Resolved
unfolding skip forced_reason after_call
resolve_with_policy cues generate question messages policy =
    let called = after_call question (llm_transform generate (resolve question messages)) in
    if not policy.run
    then skip question (forced (forced_reason policy))
    else if is_empty messages
    then skip question empty_history
    else if policy.use_gate
    then (elim (question_needs_history_resolution cues question messages) [
      | some reason ↦ skip question reason
      | none ↦ called
    ])
    else called

-- Without a policy: `_resolve_to_standalone`, if there is a history.
resolve_coupled : Provider → List ℕ → List Message → Resolved
unfolding if_changed
resolve_coupled generate question [] = record {
  question = question;
  history_resolved_query = none;
  trace = none;
}
resolve_coupled generate question (m ∷ ms) =
    elim (llm_transform generate (resolve question (m ∷ ms))) [
      | none ↦ record { question = question; history_resolved_query = none; trace = none }
      | some resolved ↦ record {
        question = resolved;
        history_resolved_query = if_changed question resolved;
        trace = none;
      }
    ]

pub record QueryTransformResult : Type 0 where
  pub queries : List (List ℕ)
  pub original_query : List ℕ
  pub history_resolved_query : Option (List ℕ)
  pub transformation_strategy : Option (List ℕ)
  pub history_trace : Option HistoryTrace

result_with : List ℕ → Resolved → List (List ℕ) → Option (List ℕ) → QueryTransformResult
result_with question r queries used = record {
  queries = queries;
  original_query = question;
  history_resolved_query = r.history_resolved_query;
  transformation_strategy = used;
  history_trace = r.trace;
}

-- The strategies, on the question as it was asked and as it was resolved.
apply_strategy : Provider → List ℕ → Bool → List ℕ → Resolved → QueryTransformResult
unfolding result_with
apply_strategy generate question apply strategy r =
    if not apply || same_text strategy (codes "none")
    then result_with question r (r.question ∷ []) none
    else if same_text strategy (codes "rewrite")
    then result_with question r (rewrite_query generate r.question ∷ []) (some strategy)
    else if same_text strategy (codes "expand")
    then result_with question r (expand_query generate r.question) (some strategy)
    else if same_text strategy (codes "stepback")
    then result_with question r (stepback_query generate r.question) (some strategy)
    else result_with question r (question ∷ []) none

-- `transform_query` with its settings: whether it is enabled, whether a strategy applies, and which.
unfoldable pub transform_query :
    Cues
    → Provider
    → (enabled apply : Bool) → (strategy question : List ℕ) → List Message
    → Option HistoryResolutionPolicy
    → QueryTransformResult
unfolding apply_strategy resolve_with_policy resolve_coupled
transform_query cues generate enabled apply strategy question history none =
    if not enabled
    then record {
      queries = question ∷ [];
      original_query = question;
      history_resolved_query = none;
      transformation_strategy = none;
      history_trace = none;
    }
    else apply_strategy generate question apply strategy (resolve_coupled generate question history)
transform_query cues generate enabled apply strategy question history (some policy) =
    apply_strategy generate question apply strategy
      (resolve_with_policy cues generate question history policy)
