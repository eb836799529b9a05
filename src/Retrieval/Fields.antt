-- ===== src/Retrieval/Fields.antt =====
-- The layers of retrieval fields in a request, and their merge (`merge_retrieval_field_layers` of
-- backend/services/retrieval_config.py).
pub mod Merge
use chatvector_ai.Prelude.{
  ℕ, String, str_eq, ◌≡◌, Bool, true, false, not, Option, none, some, List, [], ◌∷◌, ◌||◌, reverse,
  if◌then◌else◌, is_some, is_empty,
}
use chatvector_ai.Prelude.Int.{ℤ}
use chatvector_ai.Prelude.Dict.{Dict, lookup, assign, update, only}
use chatvector_ai.Text.{codes}

-- A value as the code looks at it: through `is None`, and else through `int` (nothing where it
-- raises TypeError or ValueError), `bool` and `str`.
pub data FieldValue : Type 0 where
  none_value : FieldValue
  value : Option ℤ → Bool → List ℕ → FieldValue

unfoldable pub is_none : FieldValue → Bool
is_none none_value = true
is_none (value n b s) = false

unfoldable pub to_str : FieldValue → List ℕ
to_str none_value = codes "None"
to_str (value n b s) = s

-- A mapping of request fields: all its keys but `retrieval`, and the object under that key, empty
-- where there is none.
pub record RequestFields : Type 0 where
  pub top : Dict FieldValue
  pub nested : Dict FieldValue

-- The keys, spelled as in requests.
module _ where
  abbrev pub match_count_key : String
  match_count_key = "match_count"

  abbrev pub scope_key : String
  scope_key = "scope"

  abbrev pub hybrid_enabled_key : String
  hybrid_enabled_key = "hybrid_enabled"

  abbrev pub reranking_enabled_key : String
  reranking_enabled_key = "reranking_enabled"

  abbrev pub reranker_provider_key : String
  reranker_provider_key = "reranker_provider"

  abbrev pub query_transformation_enabled_key : String
  query_transformation_enabled_key = "query_transformation_enabled"

  abbrev pub query_transformation_strategy_key : String
  query_transformation_strategy_key = "query_transformation_strategy"

  abbrev pub skip_history_transform_key : String
  skip_history_transform_key = "skip_history_transform"

  abbrev pub metadata_filter_key : String
  metadata_filter_key = "metadata_filter"

  abbrev pub preset_key : String
  preset_key = "preset"

-- `key in _OVERRIDE_FIELDS`
unfoldable pub is_override_field : String → Bool
is_override_field k =
    str_eq k match_count_key
    || str_eq k scope_key
    || str_eq k hybrid_enabled_key
    || str_eq k reranking_enabled_key
    || str_eq k reranker_provider_key
    || str_eq k query_transformation_enabled_key
    || str_eq k query_transformation_strategy_key
    || str_eq k skip_history_transform_key
    || str_eq k metadata_filter_key

-- `fields[key]` if the key is there and its value is not None
unfoldable pub given : String → Dict FieldValue → Option FieldValue
unfolding is_none
given key fields = elim (lookup key fields) [
  | none ↦ none
  | some v ↦ if is_none v then none else some v
]

pub record Accumulated : Type 0 where
  pub acc_top : Dict FieldValue
  pub acc_nested : Dict FieldValue
  pub acc_top_preset : Option (List ℕ)
  pub acc_nested_preset : Option (List ℕ)

abbrev pub nothing_yet : Accumulated
nothing_yet = record {
  acc_top = [];
  acc_nested = [];
  acc_top_preset = none;
  acc_nested_preset = none;
}

-- `str(fields["preset"])` if that is given, and else the preset so far
unfoldable pub next_preset : Dict FieldValue → Option (List ℕ) → Option (List ℕ)
unfolding given to_str
next_preset fields so_far = elim (given preset_key fields) [
  | none ↦ so_far
  | some v ↦ some (to_str v)
]

-- one layer of the loop of `merge_retrieval_field_layers`
unfoldable pub merge_layer : RequestFields → Accumulated → Accumulated
unfolding next_preset
merge_layer layer acc = record {
  acc_top = only is_override_field layer.top;
  acc_nested =
      update (update (update [] acc.acc_nested) acc.acc_top) (only is_override_field layer.nested);
  acc_top_preset = next_preset layer.top acc.acc_top_preset;
  acc_nested_preset = next_preset layer.nested acc.acc_nested_preset;
}

-- The layers come from the last to the first.
unfoldable pub merge_layers : List RequestFields → Accumulated
unfolding merge_layer
merge_layers [] = nothing_yet
merge_layers (layer ∷ layers) = merge_layer layer (merge_layers layers)

-- A preset in the result, which is only looked at through `is None` and `str`.
unfoldable pub preset_value : List ℕ → FieldValue
preset_value name = value none (not (is_empty name)) name

-- The dictionary after the loop.
unfoldable pub finish_merge : Accumulated → RequestFields
unfolding preset_value
finish_merge acc =
    let rest = only (λ key. not (is_some (lookup key acc.acc_top))) acc.acc_nested in
    elim acc.acc_top_preset [
      | some name ↦ record {
        top = assign preset_key (preset_value name) acc.acc_top;
        nested = rest;
      }
      | none ↦ elim acc.acc_nested_preset [
        | some name ↦ record {
          top = acc.acc_top;
          nested = assign preset_key (preset_value name) rest;
        }
        | none ↦ record { top = acc.acc_top; nested = rest }
      ]
    ]

unfoldable pub merge_retrieval_field_layers : List RequestFields → RequestFields
unfolding merge_layers finish_merge
merge_retrieval_field_layers layers = finish_merge (merge_layers layers)
