-- ===== src/Retrieval/Examples.antt =====
-- A query in a batch with retrieval settings, and a context of two chunks
-- (backend/services/retrieval_config.py, backend/services/context_service.py).
use chatvector_ai.Prelude.{
  ℕ, suc, ◌≤◌, ◌<◌, ◌≡◌, ◌⊎◌, refl, String, true, false, Option, none, some, List, [], ◌∷◌, ◌++◌,
  All, is_empty, length,
}
use chatvector_ai.Prelude.Int.{pos}
use chatvector_ai.Prelude.Dict.{lookup}
use chatvector_ai.Text.{codes, join}
use chatvector_ai.History.Config.{ok}
use chatvector_ai.Retrieval.Fields.{
  given, is_override_field, FieldValue, value, RequestFields, match_count_key, scope_key,
  preset_key, query_transformation_strategy_key, merge_retrieval_field_layers,
}
use chatvector_ai.Retrieval.Fields.Merge.{value_in, AreDicts, value_in-merge_retrieval_field_layers}
use chatvector_ai.Retrieval.Config.{resolve_retrieval_config}
use chatvector_ai.Retrieval.Config.Settings.{
  RetrievalProcessDefaults, EffectiveRetrievalConfig, request, env,
}
use chatvector_ai.Retrieval.Config.Laws.{IsResolved, resolve_retrieval_config-IsResolved}
use chatvector_ai.Retrieval.Presets.{name_of, extract_preset_name}
use chatvector_ai.Retrieval.Presets.Merge.{extract_preset_name-merge_retrieval_field_layers}
use chatvector_ai.Retrieval.Context.{Chunk, session_parts, separator, build_context_from_chunks}
use chatvector_ai.Retrieval.Context.Budget.{parts_of, build_context_from_chunks_lem}

abbrev text : String → FieldValue
text s = value none true (codes s)

abbrev count : ℕ → FieldValue
count n = value (some (pos n)) true []

-- The query asks for 7 chunks and, in its nested object, for a preset; the batch for 3 in its nested
-- object, and for another preset at its top level.
abbrev query : RequestFields
query = record { top = (match_count_key, count 7) ∷ []; nested = (preset_key, text "fast") ∷ [] }

abbrev batch : RequestFields
batch = record {
  top = (preset_key, text "deep") ∷ (query_transformation_strategy_key, text " Expand ") ∷ [];
  nested = (match_count_key, count 3) ∷ (scope_key, text "tenant") ∷ [];
}

layers-AreDicts : All AreDicts (query ∷ batch ∷ [])
unfolding lookup
layers-AreDicts = (((refl, tt), (refl, tt)), (((refl, (refl, tt)), (refl, (refl, tt))), tt))

value_in-merge_retrieval_field_layers_example :
    value_in match_count_key (merge_retrieval_field_layers (query ∷ batch ∷ [])) ≡ some (count 7)
unfolding is_override_field lookup
value_in-merge_retrieval_field_layers_example =
    value_in-merge_retrieval_field_layers match_count_key (query ∷ batch ∷ []) refl layers-AreDicts

extract_preset_name-merge_retrieval_field_layers_example :
    extract_preset_name (merge_retrieval_field_layers (query ∷ batch ∷ [])) ≡ some (codes "deep")
unfolding given lookup name_of
extract_preset_name-merge_retrieval_field_layers_example =
    extract_preset_name-merge_retrieval_field_layers (query ∷ batch ∷ []) layers-AreDicts

abbrev defaults : RetrievalProcessDefaults
defaults = record {
  match_count = 5;
  scope = codes "session";
  hybrid_enabled = false;
  reranking_enabled = false;
  reranker_provider = codes "similarity";
  query_transformation_enabled = false;
  query_transformation_strategy = codes "rewrite";
  max_context_chars = 32_000;
}

abbrev no_filter : FieldValue → Option ℕ
no_filter v = none

abbrev providers : List (List ℕ)
providers = codes "similarity" ∷ codes "cohere" ∷ []

abbrev effective : EffectiveRetrievalConfig ℕ
effective = record {
  match_count = 5;
  scope = codes "session";
  hybrid_enabled = false;
  reranking_enabled = false;
  reranker_provider = codes "similarity";
  query_transformation_enabled = true;
  query_transformation_strategy = codes "expand";
  apply_query_strategy = true;
  sources = record {
    match_count_source = env;
    scope_source = env;
    hybrid_source = env;
    reranking_source = env;
    reranker_source = env;
    transformation_enabled_source = request;
    transformation_strategy_source = request;
    skip_source = env;
    metadata_filter_source = env;
  };
  skip_history_transform = false;
  max_context_chars = 32_000;
  metadata_filter = none;
  resolved_preset = none;
}

abbrev expanding : RequestFields
expanding = record { top = (query_transformation_strategy_key, text " Expand ") ∷ []; nested = [] }

expanding-resolved :
    resolve_retrieval_config no_filter providers expanding defaults [] none ≡ ok effective
unfolding resolve_retrieval_config
expanding-resolved = refl

resolve_retrieval_config-IsResolved_example :
    IsResolved no_filter providers expanding defaults [] effective
resolve_retrieval_config-IsResolved_example =
    resolve_retrieval_config-IsResolved no_filter providers expanding defaults [] none effective
      expanding-resolved

abbrev chunk_of : String → Chunk
chunk_of s = record {
  file_name = some (codes "a.md");
  page_number = some 2;
  chunk_text = some (codes s);
}

abbrev chunks : List Chunk
chunks = chunk_of "one" ∷ chunk_of "two" ∷ []

build_context_from_chunks_lem_example :
    let context = build_context_from_chunks 30 none chunks in
    (kept : ℕ) × (context ≡ join separator (session_parts none ++ parts_of kept chunks))
    × (kept ≤ 2)
    × ((length context ≤ 30) ⊎ ((kept ≡ 0) ⊎ ((is_empty (session_parts none) ≡ true) × (kept ≡ 1))))
    × ((kept ≡ 2)
        ⊎ (30 < length (join separator (session_parts none ++ parts_of (suc kept) chunks))))
build_context_from_chunks_lem_example = build_context_from_chunks_lem 30 none chunks
