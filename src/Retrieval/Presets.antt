-- ===== src/Retrieval/Presets.antt =====
-- Named presets of retrieval fields (backend/services/retrieval_presets.py), and
-- `resolve_effective_retrieval` of backend/services/chat_service.py. The documents are parsed JSON.
pub mod Merge
use chatvector_ai.Prelude.{
  ℕ, String, Bool, true, false, not, Option, none, some, List, [], ◌∷◌, ◌⊎◌, inl, inr,
  if◌then◌else◌, is_empty, is_some,
}
use chatvector_ai.Prelude.Int.{ℤ, pos}
use chatvector_ai.Prelude.Dict.{Dict, lookup, only}
use chatvector_ai.Text.{strip, same_text}
use chatvector_ai.History.Config.{Result, ok, invalid}
use chatvector_ai.Retrieval.Fields.{
  FieldValue, RequestFields, given, is_none, to_str, is_override_field, preset_key, match_count_key,
  scope_key,
}
use chatvector_ai.Retrieval.Config.{resolve_retrieval_config}
use chatvector_ai.Retrieval.Config.Settings.{RetrievalProcessDefaults, EffectiveRetrievalConfig}

-- `_loaded_presets`
abbrev pub Presets : Type 0
Presets = List (List ℕ × Dict FieldValue)

-- `presets.get(name)`
unfoldable pub find_preset : List ℕ → Presets → Option (Dict FieldValue)
find_preset name [] = none
find_preset name ((other_name, body) ∷ presets) =
    if same_text other_name name then some body else find_preset name presets

-- `merged.update(presets)`
unfoldable pub put_preset : List ℕ → Dict FieldValue → Presets → Presets
put_preset name body [] = (name, body) ∷ []
put_preset name body ((other_name, old) ∷ presets) =
    if same_text other_name name
    then (other_name, body) ∷ presets
    else (other_name, old) ∷ put_preset name body presets

unfoldable pub put_presets : Presets → Presets → Presets
unfolding put_preset
put_presets merged [] = merged
put_presets merged ((name, body) ∷ presets) = put_presets (put_preset name body merged) presets

-- `_normalize_preset_name`; nothing is RetrievalPresetsLoadError, here and below
unfoldable pub normalize_preset_name : List ℕ → Option (List ℕ)
unfolding strip
normalize_preset_name name = if is_empty (strip name) then none else some (strip name)

-- `{key: body[key] for key in body if body[key] is not None}`
without_none : Dict FieldValue → Dict FieldValue
unfolding is_none
without_none [] = []
without_none ((key, v) ∷ items) =
    if is_none v then without_none items else (key, v) ∷ without_none items

all_known : Dict FieldValue → Bool
unfolding is_override_field
all_known [] = true
all_known ((key, v) ∷ items) = if is_override_field key then all_known items else false

module _ {Filter : Type 0} (validate : FieldValue → Option Filter) (providers : List (List ℕ))
    (defaults : RetrievalProcessDefaults) where
  -- `_validate_preset_body` on an object; no preset has a key `retrieval`.
  unfoldable pub validate_preset_body : Dict FieldValue → Option (Dict FieldValue)
  unfolding without_none all_known resolve_retrieval_config
  validate_preset_body body =
      if all_known body
      then (let cleaned = without_none body in
          elim (resolve_retrieval_config validate providers (record { top = cleaned; nested = [] })
            defaults [] none) [ ok e ↦ some cleaned | invalid name ↦ none ])
      else none

  -- The loop of `_parse_presets_document`, with the presets parsed so far.
  parse_presets : Presets → List (List ℕ × Dict FieldValue) → Option Presets
  unfolding normalize_preset_name validate_preset_body find_preset put_preset
  parse_presets parsed [] = some parsed
  parse_presets parsed ((raw_name, raw_body) ∷ raw) = elim (normalize_preset_name raw_name) [
    | none ↦ none
    | some name ↦
        if is_some (find_preset name parsed) then none else elim (validate_preset_body raw_body) [
          | none ↦ none
          | some body ↦ parse_presets (put_preset name body parsed) raw
        ]
  ]

  unfoldable pub parse_presets_document : List (List ℕ × Dict FieldValue) → Option Presets
  unfolding parse_presets
  parse_presets_document raw = parse_presets [] raw

  parse_given : Option (List (List ℕ × Dict FieldValue)) → Option Presets
  unfolding parse_presets_document
  parse_given none = some []
  parse_given (some raw) = parse_presets_document raw

  -- `load_retrieval_presets_from_settings`: the file's presets, then those of the environment.
  unfoldable pub load_retrieval_presets_from_settings :
      Option (List (List ℕ × Dict FieldValue))
      → Option (List (List ℕ × Dict FieldValue))
      → Option Presets
  unfolding parse_given put_presets
  load_retrieval_presets_from_settings presets_path presets_json = elim (parse_given presets_path) [
    | none ↦ none
    | some from_file ↦ elim (parse_given presets_json) [
      | none ↦ none
      | some from_env ↦ some (put_presets (put_presets [] from_file) from_env)
    ]
  ]

-- `str(preset).strip() or None`
unfoldable pub name_of : FieldValue → Option (List ℕ)
unfolding to_str strip
name_of v = if is_empty (strip (to_str v)) then none else some (strip (to_str v))

unfoldable pub extract_preset_name : RequestFields → Option (List ℕ)
unfolding given name_of
extract_preset_name fields = elim (given preset_key fields.top) [
  | some v ↦ name_of v
  | none ↦ elim (given preset_key fields.nested) [ some v ↦ name_of v | none ↦ none ]
]

-- RetrievalPresetsLoadError of an empty name, RetrievalPresetNotFoundError, and
-- InvalidRetrievalConfigError.
pub data EffectiveError : Type 0 where
  preset_name_empty : EffectiveError
  preset_not_found : List ℕ → EffectiveError
  invalid_field : String → EffectiveError

unfoldable pub lookup_retrieval_preset : Presets → List ℕ → EffectiveError ⊎ Dict FieldValue
unfolding normalize_preset_name find_preset
lookup_retrieval_preset presets name = elim (normalize_preset_name name) [
  | none ↦ inl preset_name_empty
  | some preset_name ↦ elim (find_preset preset_name presets) [
    | none ↦ inl (preset_not_found preset_name)
    | some body ↦ inr body
  ]
]

-- The preset's fields, none without a name.
preset_fields_of : Presets → Option (List ℕ) → EffectiveError ⊎ Dict FieldValue
unfolding lookup_retrieval_preset
preset_fields_of presets none = inr []
preset_fields_of presets (some name) = lookup_retrieval_preset presets name

-- The fields of a request, or those made of `match_count` and `scope` where it has none.
fields_of : FieldValue → Option FieldValue → Option RequestFields → RequestFields
fields_of match_count scope (some fields) = fields
fields_of match_count scope none = record {
  top = (match_count_key, match_count) ∷ (elim scope [ none ↦ [] | some v ↦ (scope_key, v) ∷ [] ]);
  nested = [];
}

unfoldable pub resolve_effective_retrieval :
    {Filter : Type 0}
    → (FieldValue → Option Filter)
    → List (List ℕ)
    → RetrievalProcessDefaults
    → Presets
    → FieldValue
    → Option FieldValue
    → Option RequestFields
    → EffectiveError ⊎ EffectiveRetrievalConfig Filter
unfolding fields_of extract_preset_name preset_fields_of resolve_retrieval_config
resolve_effective_retrieval validate providers defaults presets match_count scope request_fields =
    let fields = fields_of match_count scope request_fields in
    let preset_name = extract_preset_name fields in
    elim (preset_fields_of presets preset_name) [
      | inl error ↦ inl error
      | inr preset_fields ↦
          elim (resolve_retrieval_config validate providers fields defaults preset_fields
            preset_name) [ ok e ↦ inr e | invalid name ↦ inl (invalid_field name) ]
    ]
