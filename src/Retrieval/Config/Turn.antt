-- ===== src/Retrieval/Config/Turn.antt =====
-- What a chat turn does with its retrieval settings (backend/services/chat_service.py).
use chatvector_ai.Prelude.{
  ℕ, Bool, true, false, not, Option, none, some, List, ◌||◌, ◌&&◌, if◌then◌else◌,
}
use chatvector_ai.Retrieval.Config.Settings.{EffectiveRetrievalConfig, Source, env, preset, request}

-- `sources.get(name) in {"request", "preset"}`
unfoldable pub is_scoped : Source → Bool
is_scoped request = true
is_scoped preset = true
is_scoped env = false

unfoldable pub transformation_is_request_scoped :
    {Filter : Type 0} → EffectiveRetrievalConfig Filter → Bool
unfolding is_scoped
transformation_is_request_scoped effective =
    is_scoped effective.sources.transformation_enabled_source
    || is_scoped effective.sources.transformation_strategy_source

-- `_apply_compare_history_policy` (backend/services/chat_service.py)
unfoldable pub apply_compare_history_policy :
    {Filter : Type 0} → EffectiveRetrievalConfig Filter → Bool → EffectiveRetrievalConfig Filter
unfolding is_scoped
apply_compare_history_policy effective compare_style =
    if compare_style && not (is_scoped effective.sources.skip_source)
    then record effective { skip_history_transform = true }
    else effective

-- `_rerank_overrides` (backend/services/chat_service.py)
pub record RerankOverrides : Type 0 where
  pub reranking_enabled : Option Bool
  pub reranker_provider : Option (List ℕ)

unfoldable pub rerank_overrides :
    {Filter : Type 0} → EffectiveRetrievalConfig Filter → RerankOverrides
unfolding is_scoped
rerank_overrides effective =
    let provider_set = is_scoped effective.sources.reranker_source in
    record {
      reranking_enabled =
          if is_scoped effective.sources.reranking_source || provider_set
          then some effective.reranking_enabled
          else none;
      reranker_provider = if provider_set then some effective.reranker_provider else none;
    }
