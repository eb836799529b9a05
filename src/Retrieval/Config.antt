-- ===== src/Retrieval/Config.antt =====
-- The retrieval settings of one request (`resolve_retrieval_config` of
-- backend/services/retrieval_config.py). The metadata filter's check and the set of reranker
-- providers are arguments.
pub mod Settings
pub mod Laws
pub mod Turn
use chatvector_ai.Prelude.{
  ℕ, String, ◌≡◌, Bool, true, false, not, Option, none, some, List, [], ◌∷◌, ltb, leb, ◌||◌, ◌&&◌,
  map, if◌then◌else◌, is_some,
}
use chatvector_ai.Prelude.Int.{ℤ, pos, negsuc}
use chatvector_ai.Prelude.Dict.{Dict, lookup}
use chatvector_ai.Text.{is_one_of, codes, lower, strip, same_text}
use chatvector_ai.Retrieval.Fields.{
  FieldValue, none_value, value, RequestFields, given, to_str, match_count_key, scope_key,
  hybrid_enabled_key, reranking_enabled_key, reranker_provider_key,
  query_transformation_enabled_key, query_transformation_strategy_key, skip_history_transform_key,
  metadata_filter_key,
}
use chatvector_ai.History.Config.{Result, ok, invalid, ◌>>=◌}
use chatvector_ai.Retrieval.Config.Settings.{
  EffectiveRetrievalConfig, RetrievalProcessDefaults, Source, Sources, Transformation, env, preset,
  request,
}

-- `bool(value)`
unfoldable pub to_bool : FieldValue → Bool
to_bool none_value = false
to_bool (value n b s) = b

-- `int(value)`
unfoldable pub to_int : FieldValue → Option ℤ
to_int none_value = none
to_int (value n b s) = n

-- `str(value).strip().lower()`
unfoldable pub normalize : List ℕ → List ℕ
unfolding lower strip
normalize s = map lower (strip s)

abbrev pub valid_scopes : List (List ℕ)
valid_scopes = codes "session" ∷ codes "tenant" ∷ []

-- VALID_QUERY_STRATEGIES
abbrev pub valid_strategies : List (List ℕ)
valid_strategies = codes "rewrite" ∷ codes "expand" ∷ codes "stepback" ∷ codes "none" ∷ []

-- `_pick` and `_pick_optional`: what the request or the preset has for a field, nothing where the
-- process default counts.
unfoldable pub pick : String → RequestFields → Dict FieldValue → Option (FieldValue × Source)
unfolding given lookup
pick name fields preset_fields = elim (given name fields.top) [
  | some v ↦ some (v, request)
  | none ↦ elim (given name fields.nested) [
    | some v ↦ some (v, request)
    | none ↦ elim (lookup name preset_fields) [ some v ↦ some (v, preset) | none ↦ none ]
  ]
]

check_count : Option ℤ → Result ℕ
check_count none = invalid match_count_key
check_count (some (negsuc n)) = invalid match_count_key
check_count (some (pos n)) = if ltb n 1 || ltb 20 n then invalid match_count_key else ok n

-- `match_count`, converted and within its range
unfoldable pub resolve_count : Option (FieldValue × Source) → ℕ → Result (ℕ × Source)
unfolding check_count to_int
resolve_count none default = do n ← check_count (some (pos default)); ok (n, env)
resolve_count (some (v, source)) default = do n ← check_count (to_int v); ok (n, source)

check_scope : List ℕ → Source → Result (List ℕ × Source)
unfolding is_one_of
check_scope scope source =
    if is_one_of valid_scopes scope then ok (scope, source) else invalid scope_key

unfoldable pub resolve_scope : Option (FieldValue × Source) → List ℕ → Result (List ℕ × Source)
unfolding check_scope normalize to_str
resolve_scope none default = check_scope (normalize default) env
resolve_scope (some (v, source)) default = check_scope (normalize (to_str v)) source

unfoldable pub resolve_flag : Option (FieldValue × Source) → Bool → Bool × Source
unfolding to_bool
resolve_flag none default = (default, env)
resolve_flag (some (v, source)) default = (to_bool v, source)

-- Only a provider of the request or the preset is checked.
unfoldable pub resolve_provider :
    List (List ℕ) → Option (FieldValue × Source) → List ℕ → Result (List ℕ × Source)
unfolding normalize to_str is_one_of
resolve_provider providers none default = ok (normalize default, env)
resolve_provider providers (some (v, source)) default =
    let provider = normalize (to_str v) in
    if is_one_of providers provider then ok (provider, source) else invalid reranker_provider_key

-- A picked value, where None counts as none.
unfoldable pub not_none : Option (FieldValue × Source) → Option (FieldValue × Source)
not_none (some (value n b s, source)) = some (value n b s, source)
not_none o = none

-- The strategy of the request, checked, or that of the process.
unfoldable pub resolve_strategy : Option (FieldValue × Source) → List ℕ → Result (List ℕ × Source)
unfolding normalize to_str is_one_of
resolve_strategy none env_strategy = ok (env_strategy, env)
resolve_strategy (some (v, source)) env_strategy =
    let strategy = normalize (to_str v) in
    if is_one_of valid_strategies strategy
    then ok (strategy, source)
    else invalid query_transformation_strategy_key

unfoldable pub source_of : Option (FieldValue × Source) → Option Source
source_of none = none
source_of (some (v, source)) = some source

-- Whether the transformation is on, and from where; the first argument is the picked flag, the
-- second the source of the picked strategy, both without None.
unfoldable pub resolve_enabled :
    Option (FieldValue × Source) → Option Source → Bool → Bool → Bool × Source × Bool
unfolding to_bool
resolve_enabled (some (v, source)) strategy_source env_enabled is_none_strategy =
    if to_bool v then (true, source, not is_none_strategy) else (false, source, false)
resolve_enabled none (some source) env_enabled is_none_strategy =
    if is_none_strategy then (env_enabled, env, false) else (true, source, true)
resolve_enabled none none env_enabled is_none_strategy =
    if is_none_strategy then (env_enabled, env, false) else (env_enabled, env, env_enabled)

-- `_resolve_query_transformation`
unfoldable pub resolve_query_transformation :
    Option (FieldValue × Source)
    → Option (FieldValue × Source)
    → Bool
    → List ℕ
    → Result Transformation
unfolding resolve_strategy resolve_enabled source_of
resolve_query_transformation enabled strategy env_enabled env_strategy = do
  s ← resolve_strategy strategy env_strategy
  let e = resolve_enabled enabled (source_of strategy) env_enabled (same_text (codes "none") s.0)
  ok (record {
    enabled = e.0;
    enabled_source = e.1;
    strategy = s.0;
    strategy_source = s.1;
    apply_strategy = e.2;
  })

-- The filter of the request or the preset, checked.
unfoldable pub resolve_filter :
    {Filter : Type 0}
    → (FieldValue → Option Filter)
    → Option (FieldValue × Source)
    → Result (Option Filter × Source)
resolve_filter validate none = ok (none, env)
resolve_filter validate (some (v, source)) = elim (validate v) [
  | none ↦ invalid metadata_filter_key
  | some f ↦ ok (some f, source)
]

unfoldable pub resolve_retrieval_config :
    {Filter : Type 0}
    → (FieldValue → Option Filter)
    → List (List ℕ)
    → RequestFields
    → RetrievalProcessDefaults
    → Dict FieldValue
    → Option (List ℕ)
    → Result (EffectiveRetrievalConfig Filter)
unfolding pick resolve_count resolve_scope resolve_flag resolve_provider not_none
    resolve_query_transformation resolve_filter
resolve_retrieval_config validate providers fields defaults preset_fields resolved_preset = do
  count ← resolve_count (pick match_count_key fields preset_fields) defaults.match_count
  scope ← resolve_scope (pick scope_key fields preset_fields) defaults.scope
  let hybrid = resolve_flag (pick hybrid_enabled_key fields preset_fields) defaults.hybrid_enabled
  let reranking =
      resolve_flag (pick reranking_enabled_key fields preset_fields) defaults.reranking_enabled
  provider ←
      resolve_provider providers (pick reranker_provider_key fields preset_fields)
        defaults.reranker_provider
  transformation ←
      resolve_query_transformation
        (not_none (pick query_transformation_enabled_key fields preset_fields))
        (not_none (pick query_transformation_strategy_key fields preset_fields))
        defaults.query_transformation_enabled defaults.query_transformation_strategy
  let skip = resolve_flag (pick skip_history_transform_key fields preset_fields) false
  filter ← resolve_filter validate (pick metadata_filter_key fields preset_fields)
  ok (record {
    match_count = count.0;
    scope = scope.0;
    hybrid_enabled = hybrid.0;
    reranking_enabled = reranking.0;
    reranker_provider = provider.0;
    query_transformation_enabled = transformation.enabled;
    query_transformation_strategy = transformation.strategy;
    apply_query_strategy = transformation.apply_strategy;
    sources = record {
      match_count_source = count.1;
      scope_source = scope.1;
      hybrid_source = hybrid.1;
      reranking_source = reranking.1;
      reranker_source = provider.1;
      transformation_enabled_source = transformation.enabled_source;
      transformation_strategy_source = transformation.strategy_source;
      skip_source = skip.1;
      metadata_filter_source = filter.1;
    };
    skip_history_transform = skip.0;
    max_context_chars = defaults.max_context_chars;
    metadata_filter = filter.0;
    resolved_preset = resolved_preset;
  })
