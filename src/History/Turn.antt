-- ===== src/History/Turn.antt =====
-- `prepare_turn_history` (backend/services/history_config.py): what one turn hands to retrieval and
-- to generation, and what it reports about that.
pub mod Laws
use chatvector_ai.Prelude.{
  ℕ, ◌-◌, Bool, true, false, Option, none, some, List, [], ◌∷◌, length, is_empty, if◌then◌else◌,
}
use chatvector_ai.History.Fields.{Layer}
use chatvector_ai.History.Config.{
  Result, ok, ◌>>=◌, HistoryProcessDefaults, EffectiveHistoryConfig, HistoryResolutionPolicy,
  ConfigApplied, resolve_history_config, build_resolution_policy, config_applied_debug,
}
use chatvector_ai.History.Windows.{Message, slice_history, trim_generation_history}

pub record HistoryObservation : Type 0 where
  pub considered : List Message
  pub retrieval_messages_used : ℕ
  pub generation_messages_used : ℕ
  pub retrieval_messages_dropped : ℕ
  pub generation_messages_dropped : ℕ
  pub generation_chars_truncated : Bool
  pub config_applied : Option ConfigApplied
  pub max_context_chars : ℕ
  pub generation_chars : Option ℕ

pub record TurnHistoryPlan : Type 0 where
  pub transform_history : Option (List Message)
  pub generation_history : List Message
  pub policy : HistoryResolutionPolicy
  pub observation : HistoryObservation

-- `xs or None`
abbrev pub or_none : List Message → Option (List Message)
or_none [] = none
or_none (m ∷ ms) = some (m ∷ ms)

-- What follows once the settings are resolved. `-` stops at 0, as `max(0, _)` does.
plan_turn : List Message → Bool → Bool → Bool → EffectiveHistoryConfig → TurnHistoryPlan
plan_turn loaded skip_history_transform apply_generation_history global_enabled effective =
    let policy = build_resolution_policy effective skip_history_transform global_enabled in
    let retrieval_slice = slice_history loaded effective.retrieval_window in
    let generation_raw = slice_history loaded effective.generation_window in
    let (generation_slice, chars_truncated) =
      trim_generation_history generation_raw effective.generation_chars in
    let apply = apply_generation_history in
    let run = policy.run in
    record {
      transform_history = if run then or_none retrieval_slice else none;
      generation_history = if apply then generation_slice else [];
      policy = policy;
      observation = record {
        considered = if run then retrieval_slice else [];
        retrieval_messages_used = if run then length retrieval_slice else 0;
        generation_messages_used = if apply then length generation_slice else 0;
        retrieval_messages_dropped = if run then length loaded - length retrieval_slice else 0;
        generation_messages_dropped = if apply then length loaded - length generation_slice else 0;
        generation_chars_truncated = if apply then chars_truncated else false;
        config_applied = config_applied_debug effective;
        max_context_chars = effective.context_chars;
        generation_chars = effective.generation_chars;
      };
    }

-- `list(history or [])`
abbrev pub loaded_messages : Option (List Message) → List Message
loaded_messages none = []
loaded_messages (some ms) = ms

unfoldable pub prepare_turn_history :
    Option (List Message)
    → Layer
    → (skip_history_transform apply_generation_history global_enabled : Bool)
    → HistoryProcessDefaults
    → Result TurnHistoryPlan
unfolding plan_turn
prepare_turn_history history fields skip apply global_enabled defaults = do
  effective ← resolve_history_config fields defaults
  ok (plan_turn (loaded_messages history) skip apply global_enabled effective)
