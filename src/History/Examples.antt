-- ===== src/History/Examples.antt =====
-- Runs of the history settings, the slices and one turn's plan (backend/services/history_config.py).
use chatvector_ai.Prelude.{
  All, String, ◌≡◌, ◌↔◌, refl, ◌⊎◌, ◌+◌, ◌≤◌, true, false, none, some, List, [], ◌∷◌, length,
}
use chatvector_ai.Prelude.Int.{pos}
use chatvector_ai.Text.{codes}
use chatvector_ai.History.Fields.{to_int, number, flag, none_value, Layer, lookup, to_bool, given}
use chatvector_ai.History.Fields.Merge.{IsDict}
use chatvector_ai.History.Config.{
  config_applied_debug, resolve_aware, bounded_chars, resolve_chars, bounded_window, resolve_window,
  ok, request, env, HistoryProcessDefaults, EffectiveHistoryConfig, resolve_history_config,
  build_resolution_policy, is_request, max_history_window, history_load_limit,
}
use chatvector_ai.History.Config.Bounds.{IsAcceptable, resolve_history_config_iff}
use chatvector_ai.History.Windows.{
  trim_message, content_of, Message, slice_history, trim_generation_history,
}
use chatvector_ai.History.Windows.Trim.{chars, trim_generation_history_budget}
use chatvector_ai.History.Turn.{TurnHistoryPlan, prepare_turn_history}
use chatvector_ai.History.Turn.Laws.{prepare_turn_history_counts}

abbrev say : String → Message
say text = record { content = some (codes text); rest = ("role", "user") ∷ [] }

abbrev chat : List Message
chat = say "hello" ∷ say "hi" ∷ []

abbrev defaults : HistoryProcessDefaults
defaults = record {
  retrieval_window = pos 5;
  generation_window = pos 400;
  aware = false;
  context_chars = 1000;
}

abbrev fields : Layer
fields =
    ("history_aware_retrieval", flag true) ∷ ("max_generation_history_chars", number (pos 3)) ∷ []

abbrev older_fields : Layer
older_fields =
    ("history_aware_retrieval", flag false)
    ∷ ("top_k", number (pos 9))
    ∷ ("retrieval_history_window", none_value)
    ∷ []

abbrev chat_config : EffectiveHistoryConfig
chat_config = record {
  retrieval_window = 5;
  generation_window = 100;
  aware = true;
  generation_chars = some 3;
  context_chars = 1000;
  sources = record {
    retrieval_window_source = env;
    generation_window_source = env;
    aware_source = request;
    chars_source = request;
  };
}

abbrev chat_plan : TurnHistoryPlan
chat_plan = record {
  transform_history = some chat;
  generation_history = say "o" ∷ say "hi" ∷ [];
  policy = record { run = true; use_gate = true; forced_skip_reason = none };
  observation = record {
    considered = chat;
    retrieval_messages_used = 2;
    generation_messages_used = 2;
    retrieval_messages_dropped = 0;
    generation_messages_dropped = 0;
    generation_chars_truncated = true;
    config_applied = some (record {
      retrieval_window = (5, env);
      generation_window = (100, env);
      aware = (true, request);
      generation_chars = (some 3, request);
    });
    max_context_chars = 1000;
    generation_chars = some 3;
  };
}

-- The plan of a turn with history-aware retrieval turned off.
abbrev plain_plan : TurnHistoryPlan
plain_plan = record {
  transform_history = none;
  generation_history = chat;
  policy = record {
    run = false;
    use_gate = false;
    forced_skip_reason = some chatvector_ai.History.Config.disabled;
  };
  observation = record {
    considered = [];
    retrieval_messages_used = 0;
    generation_messages_used = 2;
    retrieval_messages_dropped = 0;
    generation_messages_dropped = 0;
    generation_chars_truncated = false;
    config_applied = some (record {
      retrieval_window = (5, env);
      generation_window = (100, env);
      aware = (false, request);
      generation_chars = (none, env);
    });
    max_context_chars = 1000;
    generation_chars = none;
  };
}

config_is : resolve_history_config fields defaults ≡ ok chat_config
unfolding resolve_history_config resolve_window given bounded_window to_int resolve_chars
    bounded_chars resolve_aware to_bool
config_is = refl

plan_is : prepare_turn_history (some chat) fields false true false defaults ≡ ok chat_plan
unfolding prepare_turn_history resolve_history_config resolve_window given bounded_window to_int
    resolve_chars bounded_chars build_resolution_policy trim_generation_history config_applied_debug
    resolve_aware slice_history to_bool content_of trim_message
plan_is = refl

plain_plan_is :
    prepare_turn_history (some chat) older_fields false true true defaults ≡ ok plain_plan
unfolding prepare_turn_history resolve_history_config resolve_window given bounded_window to_int
    resolve_chars build_resolution_policy trim_generation_history config_applied_debug resolve_aware
    slice_history to_bool
plain_plan_is = refl

limit_is : history_load_limit fields defaults (pos 10) ≡ ok 100
unfolding history_load_limit resolve_history_config resolve_window given bounded_window to_int
    resolve_chars bounded_chars
limit_is = refl

both_dicts : All IsDict (fields ∷ older_fields ∷ [])
unfolding lookup
both_dicts = ((refl, (refl, tt)), ((refl, (refl, (refl, tt))), tt))

resolve_history_config_iff_example :
    ((e : EffectiveHistoryConfig) × (resolve_history_config fields defaults ≡ ok e))
    ↔ IsAcceptable fields
resolve_history_config_iff_example = resolve_history_config_iff fields defaults

trim_generation_history_budget_example :
    let (kept, truncated) = trim_generation_history chat (some 3) in
    ((truncated ≡ false) × (kept ≡ chat) × (chars chat ≤ 3))
    ⊎ ((truncated ≡ true) × (chars kept ≡ 3) × (length kept ≤ length chat))
trim_generation_history_budget_example = trim_generation_history_budget chat 3

off_given : given "history_aware_retrieval" older_fields ≡ some (flag false)
unfolding given
off_given = refl

off_false : to_bool (flag false) ≡ false
unfolding to_bool
off_false = refl

prepare_turn_history_counts_example :
    let o = chat_plan.observation in
    (o.generation_messages_used ≡ 2)
    × (o.retrieval_messages_used ≡ 2)
    × (chat_plan.transform_history ≡ some chat)
    × (o.retrieval_messages_used + o.retrieval_messages_dropped ≡ 2)
    × (o.generation_messages_used + o.generation_messages_dropped ≡ 2)
prepare_turn_history_counts_example =
    prepare_turn_history_counts (some chat) fields false true false defaults chat_plan plan_is
