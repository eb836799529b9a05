-- ===== src/Retrieval/Presets/Merge.antt =====
-- Which preset merged retrieval fields name (`merge_retrieval_field_layers` and `extract_preset_name` of
-- backend/services/).
use chatvector_ai.Prelude.{
  ◌≡◌, refl, ◌∙◌, ap, String, Bool, not, Option, none, some, List, [], ◌∷◌, arith, All, is_some, ℕ,
}
use chatvector_ai.Prelude.Dict.{
  Dict, lookup, assign, update, only, or_else, lookup-assign, lookup-only, lookup-update,
  IsDict-only,
}
use chatvector_ai.Retrieval.Fields.{
  is_none, next_preset, FieldValue, RequestFields, Accumulated, is_override_field, merge_layer,
  merge_layers, finish_merge, merge_retrieval_field_layers, given, preset_key, preset_value, to_str,
}
use chatvector_ai.Retrieval.Fields.Merge.{AreDicts, IsDict-merge_layers, preset_not_override}
use chatvector_ai.Retrieval.Presets.{extract_preset_name, name_of}

-- The first layer whose top level, or whose nested object, names a preset.
module _ where
  abbrev pub first_top : List RequestFields → Option FieldValue
  first_top [] = none
  first_top (layer ∷ layers) = or_else (given preset_key layer.top) (first_top layers)

  abbrev pub first_nested : List RequestFields → Option FieldValue
  first_nested [] = none
  first_nested (layer ∷ layers) = or_else (given preset_key layer.nested) (first_nested layers)

-- The texts of the presets.
abbrev pub text_of : Option FieldValue → Option (List ℕ)
text_of none = none
text_of (some v) = some (to_str v)

presets-merge_layers :
    (layers : List RequestFields)
    → ((merge_layers layers).acc_top_preset ≡ text_of (first_top layers))
      × ((merge_layers layers).acc_nested_preset ≡ text_of (first_nested layers))
unfolding merge_layers merge_layer next_preset
presets-merge_layers [] = (refl, refl)
presets-merge_layers (layer ∷ layers) =
    let (t, n) = presets-merge_layers layers in (ground (arith, t), ground (arith, n))

no_preset-merge_layers :
    (layers : List RequestFields)
    → All AreDicts layers
    → (lookup preset_key (merge_layers layers).acc_top ≡ none)
      × (lookup preset_key (merge_layers layers).acc_nested ≡ none)
unfolding merge_layers merge_layer lookup
no_preset-merge_layers [] h = (refl, refl)
no_preset-merge_layers (layer ∷ layers) h =
    let acc = merge_layers layers in
    let (t, n) = IsDict-merge_layers layers h.1 in
    let (no_top, no_nested) = no_preset-merge_layers layers h.1 in
    (
      rw (lookup-only preset_key is_override_field layer.top, preset_not_override) refl,
      rw
          (
            lookup-update preset_key (update (update [] acc.acc_nested) acc.acc_top)
                (only is_override_field layer.nested)
                (IsDict-only is_override_field layer.nested h.0.1),
            lookup-only preset_key is_override_field layer.nested,
            preset_not_override,
            lookup-update preset_key (update [] acc.acc_nested) acc.acc_top t,
            lookup-update preset_key [] acc.acc_nested n,
            no_top,
            no_nested,
          )
          refl,
    )

abbrev pub name_of_given : Option FieldValue → Option (List ℕ)
name_of_given none = none
name_of_given (some v) = name_of v

name_of-preset_value : (v : FieldValue) → name_of (preset_value (to_str v)) ≡ name_of v
unfolding name_of preset_value to_str
name_of-preset_value v = refl

given-assign :
    (d : Dict FieldValue) (name : List ℕ)
    → given preset_key (assign preset_key (preset_value name) d) ≡ some (preset_value name)
unfolding given preset_value is_none
given-assign d name = rw (lookup-assign preset_key preset_key (preset_value name) d, given) refl

given-none : (d : Dict FieldValue) → lookup preset_key d ≡ none → given preset_key d ≡ none
unfolding given
given-none d e = rw (e, given) refl

lookup_rest :
    (keep : String → Bool) (d : Dict FieldValue)
    → lookup preset_key d ≡ none
    → lookup preset_key (only keep d) ≡ none
lookup_rest keep d e = rw (lookup-only preset_key keep d) (ground (arith, e))

-- The preset of fields, by what their levels give.
extract_top :
    (fields : RequestFields) (v : FieldValue)
    → given preset_key fields.top ≡ some v
    → extract_preset_name fields ≡ name_of v
unfolding extract_preset_name
extract_top fields v e = rw (e, extract_preset_name) refl

extract_nested :
    (fields : RequestFields) (o : Option FieldValue)
    → given preset_key fields.top ≡ none
    → given preset_key fields.nested ≡ o
    → extract_preset_name fields ≡ name_of_given o
unfolding extract_preset_name
extract_nested fields (some v) e f = rw (e, extract_preset_name, f) refl
extract_nested fields none e f = rw (e, extract_preset_name, f) refl

module _ (acc : Accumulated) where
  rest_of : Dict FieldValue
  rest_of = only (λ key. not (is_some (lookup key acc.acc_top))) acc.acc_nested

  finish_top :
      (name : List ℕ)
      → acc.acc_top_preset ≡ some name
      → (finish_merge acc).top ≡ assign preset_key (preset_value name) acc.acc_top
  unfolding finish_merge
  finish_top name e = rw (e, finish_merge) refl

  finish_nested :
      (name : List ℕ)
      → acc.acc_top_preset ≡ none
      → acc.acc_nested_preset ≡ some name
      → ((finish_merge acc).top ≡ acc.acc_top)
        × ((finish_merge acc).nested ≡ assign preset_key (preset_value name) rest_of)
  unfolding finish_merge rest_of
  finish_nested name e f = rw (e, f, finish_merge) (refl, refl)

  finish_none :
      acc.acc_top_preset ≡ none
      → acc.acc_nested_preset ≡ none
      → ((finish_merge acc).top ≡ acc.acc_top) × ((finish_merge acc).nested ≡ rest_of)
  unfolding finish_merge rest_of
  finish_none e f = rw (e, f, finish_merge) (refl, refl)

  extract-finish_merge :
      (top nested : Option FieldValue)
      → acc.acc_top_preset ≡ text_of top
      → acc.acc_nested_preset ≡ text_of nested
      → lookup preset_key acc.acc_top ≡ none
      → lookup preset_key acc.acc_nested ≡ none
      → extract_preset_name (finish_merge acc) ≡ name_of_given (or_else top nested)
  unfolding rest_of
  extract-finish_merge (some v) nested t n no_top no_nested =
      extract_top (finish_merge acc) (preset_value (to_str v))
        (ap (given preset_key) (finish_top (to_str v) t) ∙ given-assign acc.acc_top (to_str v))
      ∙ name_of-preset_value v
  extract-finish_merge none (some v) t n no_top no_nested =
      let (same_top, same_nested) = finish_nested (to_str v) t n in
      extract_nested (finish_merge acc) (some (preset_value (to_str v)))
        (ap (given preset_key) same_top ∙ given-none acc.acc_top no_top)
        (ap (given preset_key) same_nested ∙ given-assign rest_of (to_str v))
      ∙ name_of-preset_value v
  extract-finish_merge none none t n no_top no_nested =
      let (same_top, same_nested) = finish_none t n in
      extract_nested (finish_merge acc) none
        (ap (given preset_key) same_top ∙ given-none acc.acc_top no_top)
        (ap (given preset_key) same_nested
          ∙ given-none rest_of (
              lookup_rest (λ key. not (is_some (lookup key acc.acc_top))) acc.acc_nested no_nested))

-- For layers in which no key stands twice, the preset that merged fields name is that of the first layer
-- with a preset at its top level, and only if no layer has one, that of the first layer with a preset in its
-- nested object.
pub extract_preset_name-merge_retrieval_field_layers :
    (layers : List RequestFields)
    → All AreDicts layers
    → extract_preset_name (merge_retrieval_field_layers layers)
      ≡ name_of_given (or_else (first_top layers) (first_nested layers))
unfolding merge_retrieval_field_layers
extract_preset_name-merge_retrieval_field_layers layers h =
    let (t, n) = presets-merge_layers layers in
    let (no_top, no_nested) = no_preset-merge_layers layers h in
    extract-finish_merge (merge_layers layers) (first_top layers) (first_nested layers) t n no_top
      no_nested
