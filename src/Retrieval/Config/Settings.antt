-- ===== src/Retrieval/Config/Settings.antt =====
-- The resolved retrieval settings and where they are from (backend/services/retrieval_config.py).
use chatvector_ai.Prelude.{ℕ, Bool, Option, List}

-- The values of `sources`: "request", "preset" or "env".
pub data Source : Type 0 where
  request preset env : Source

pub record RetrievalProcessDefaults : Type 0 where
  pub match_count : ℕ
  pub scope : List ℕ
  pub hybrid_enabled : Bool
  pub reranking_enabled : Bool
  pub reranker_provider : List ℕ
  pub query_transformation_enabled : Bool
  pub query_transformation_strategy : List ℕ
  pub max_context_chars : ℕ

pub record Sources : Type 0 where
  pub match_count_source : Source
  pub scope_source : Source
  pub hybrid_source : Source
  pub reranking_source : Source
  pub reranker_source : Source
  pub transformation_enabled_source : Source
  pub transformation_strategy_source : Source
  pub skip_source : Source
  pub metadata_filter_source : Source

-- What `_resolve_query_transformation` returns.
pub record Transformation : Type 0 where
  pub enabled : Bool
  pub enabled_source : Source
  pub strategy : List ℕ
  pub strategy_source : Source
  pub apply_strategy : Bool

pub record EffectiveRetrievalConfig (Filter : Type 0) : Type 0 where
  pub match_count : ℕ
  pub scope : List ℕ
  pub hybrid_enabled : Bool
  pub reranking_enabled : Bool
  pub reranker_provider : List ℕ
  pub query_transformation_enabled : Bool
  pub query_transformation_strategy : List ℕ
  pub apply_query_strategy : Bool
  pub sources : Sources
  pub skip_history_transform : Bool
  pub max_context_chars : ℕ
  pub metadata_filter : Option Filter
  pub resolved_preset : Option (List ℕ)
