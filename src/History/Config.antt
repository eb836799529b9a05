-- ===== src/History/Config.antt =====
-- The settings of one request (backend/services/history_config.py): `resolve_history_config`,
-- `build_resolution_policy`, `history_load_limit`.
pub mod Bounds
use chatvector_ai.Prelude.{
  ℕ, ◌≤◌, String, ◌≡◌, Bool, true, false, Option, none, some, arith, ltb, leb, min, max, ◌||◌, ◌&&◌,
  not, if◌then◌else◌,
}
use chatvector_ai.Prelude.Int.{ℤ, pos, negsuc, clamp_zero}
use chatvector_ai.History.Fields.{
  PyValue, number, flag, to_int, to_bool, Layer, given, retrieval_history_window,
  generation_history_window, history_aware_retrieval, max_generation_history_chars,
}

abbrev pub max_history_window : ℕ
max_history_window = 100

-- MAX_GENERATION_HISTORY_CHARS
abbrev pub max_history_chars : ℕ
max_history_chars = 1_000_000

-- InvalidHistoryConfigError, with the field that its message names.
pub data Result {ℓ} (A : Type ℓ) : Type ℓ where
  ok : A → Result A
  invalid : String → Result A

infixl 5 ◌>>=◌
abbrev pub ◌>>=◌ {ℓ κ} : {A : Type ℓ} {B : Type κ} → Result A → (A → Result B) → Result B
invalid name >>= rest = invalid name
ok a >>= rest = rest a

pub record HistoryProcessDefaults : Type 0 where
  pub retrieval_window : ℤ
  pub generation_window : ℤ
  pub aware : Bool
  pub context_chars : ℕ

-- The values of `sources`: "request" or "env".
pub data Source : Type 0 where
  request env : Source

pub record Sources : Type 0 where
  pub retrieval_window_source : Source
  pub generation_window_source : Source
  pub aware_source : Source
  pub chars_source : Source

pub record EffectiveHistoryConfig : Type 0 where
  pub retrieval_window : ℕ
  pub generation_window : ℕ
  pub aware : Bool
  pub generation_chars : Option ℕ
  pub context_chars : ℕ
  pub sources : Sources

check_window : String → Bool → ℤ → Result ℕ
check_window name strict (pos n) =
    if ltb max_history_window n
    then (if strict then invalid name else ok (max 0 (min n max_history_window)))
    else ok n
check_window name strict (negsuc n) = if strict then invalid name else ok 0

-- `_bounded_window`
unfoldable pub bounded_window : String → PyValue → Bool → Result ℕ
unfolding check_window
bounded_window name value strict = elim (to_int value) [
  | none ↦ invalid name
  | some window ↦ check_window name strict window
]

check_chars : ℤ → Result (Option ℕ)
check_chars (pos n) =
    if ltb n 1 || ltb max_history_chars n then invalid max_generation_history_chars else ok (some n)
check_chars (negsuc n) = invalid max_generation_history_chars

-- `_bounded_chars`; its None case is not reached, since the caller tests for None
unfoldable pub bounded_chars : PyValue → Result (Option ℕ)
unfolding check_chars
bounded_chars value = elim (to_int value) [
  | none ↦ invalid max_generation_history_chars
  | some chars ↦ check_chars chars
]

window_of : String → Option PyValue → ℤ → Result (ℕ × Source)
window_of name (some value) default = do w ← bounded_window name value true; ok (w, request)
window_of name none default = do w ← bounded_window name (number default) false; ok (w, env)

-- One window: the request's value, checked, or the process default, clamped.
unfoldable pub resolve_window : String → Layer → ℤ → Result (ℕ × Source)
unfolding window_of
resolve_window name fields default = window_of name (given name fields) default

unfoldable pub resolve_aware : Layer → Bool → Bool × Source
resolve_aware fields default = elim (given history_aware_retrieval fields) [
  | some value ↦ (to_bool value, request)
  | none ↦ (to_bool (flag default), env)
]

chars_of : Option PyValue → Result (Option ℕ × Source)
chars_of (some value) = do c ← bounded_chars value; ok (c, request)
chars_of none = ok (none, env)

unfoldable pub resolve_chars : Layer → Result (Option ℕ × Source)
unfolding chars_of
resolve_chars fields = chars_of (given max_generation_history_chars fields)

unfoldable pub resolve_history_config :
    Layer → HistoryProcessDefaults → Result EffectiveHistoryConfig
resolve_history_config fields defaults = do
  retrieval ← resolve_window retrieval_history_window fields defaults.retrieval_window
  generation ← resolve_window generation_history_window fields defaults.generation_window
  let aware = resolve_aware fields defaults.aware
  chars ← resolve_chars fields
  ok (record {
    retrieval_window = retrieval.0;
    generation_window = generation.0;
    aware = aware.0;
    generation_chars = chars.0;
    context_chars = defaults.context_chars;
    sources = record {
      retrieval_window_source = retrieval.1;
      generation_window_source = generation.1;
      aware_source = aware.1;
      chars_source = chars.1;
    };
  })

-- `forced_skip_reason`: "compare_skip" or "disabled"
pub data SkipReason : Type 0 where
  compare_skip disabled : SkipReason

pub record HistoryResolutionPolicy : Type 0 where
  pub run : Bool
  pub use_gate : Bool
  pub forced_skip_reason : Option SkipReason

unfoldable pub is_request : Source → Bool
is_request request = true
is_request env = false

unfoldable pub build_resolution_policy :
    EffectiveHistoryConfig → Bool → Bool → HistoryResolutionPolicy
unfolding is_request
build_resolution_policy effective skip_history_transform global_query_transformation_enabled =
    if skip_history_transform
    then record { run = false; use_gate = false; forced_skip_reason = some compare_skip }
    else if is_request effective.sources.aware_source && not effective.aware
    then record { run = false; use_gate = false; forced_skip_reason = some disabled }
    else if effective.aware
    then record { run = true; use_gate = true; forced_skip_reason = none }
    else if global_query_transformation_enabled
    then record { run = true; use_gate = false; forced_skip_reason = none }
    else record { run = false; use_gate = false; forced_skip_reason = some disabled }

-- The value of each field beside its source, and nothing if no field is the request's.
pub record ConfigApplied : Type 0 where
  pub retrieval_window : ℕ × Source
  pub generation_window : ℕ × Source
  pub aware : Bool × Source
  pub generation_chars : Option ℕ × Source

unfoldable pub config_applied_debug : EffectiveHistoryConfig → Option ConfigApplied
unfolding is_request
config_applied_debug e =
    if is_request e.sources.retrieval_window_source
      || is_request e.sources.generation_window_source
      || is_request e.sources.aware_source
      || is_request e.sources.chars_source
    then some (record {
      retrieval_window = (e.retrieval_window, e.sources.retrieval_window_source);
      generation_window = (e.generation_window, e.sources.generation_window_source);
      aware = (e.aware, e.sources.aware_source);
      generation_chars = (e.generation_chars, e.sources.chars_source);
    })
    else none

-- `session_floor` is `MAX_SESSION_HISTORY_MESSAGES`, or the caller's floor.
unfoldable pub history_load_limit : Layer → HistoryProcessDefaults → ℤ → Result ℕ
history_load_limit fields defaults session_floor = do
  effective ← resolve_history_config fields defaults
  let needed =
      max (max (clamp_zero session_floor) effective.retrieval_window) effective.generation_window
  ok (min max_history_window needed)
