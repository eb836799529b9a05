-- ===== src/Retrieval/Fields/Merge.antt =====
-- Which layer a merged retrieval field is from (`merge_retrieval_field_layers` of
-- backend/services/retrieval_config.py).
use chatvector_ai.Prelude.{
  ◌≡◌, refl, sym, ◌∙◌, String, str_eq, eq_iff, true, false, not, Option, none, List, [], ◌∷◌, arith,
  All, Option-cases, inl, inr, is_some,
}
use chatvector_ai.Prelude.Dict.{
  or_else_assoc, IsDict-update, or_else-none, IsDict-only, Dict, lookup, update, only, or_else,
  IsDict, lookup-assign, lookup-only, lookup-update,
}
use chatvector_ai.Retrieval.Fields.{
  FieldValue, RequestFields, Accumulated, is_override_field, merge_layer, merge_layers,
  finish_merge, merge_retrieval_field_layers, preset_key, preset_value,
}

-- The value that a layer has for a field: at the top, and else in its nested object.
abbrev pub value_in : String → RequestFields → Option FieldValue
value_in key layer = or_else (lookup key layer.top) (lookup key layer.nested)

-- The first layer that has the field.
abbrev pub first_value : String → List RequestFields → Option FieldValue
first_value key [] = none
first_value key (layer ∷ layers) = or_else (value_in key layer) (first_value key layers)

abbrev pub AreDicts : RequestFields → Type 0
AreDicts layer = IsDict layer.top × IsDict layer.nested

pub IsDict-merge_layers :
    (layers : List RequestFields)
    → All AreDicts layers
    → IsDict (merge_layers layers).acc_top × IsDict (merge_layers layers).acc_nested
unfolding merge_layers merge_layer
IsDict-merge_layers [] h = (tt, tt)
IsDict-merge_layers (layer ∷ layers) h =
    let acc = merge_layers layers in
    (
      IsDict-only is_override_field layer.top h.0.0,
      IsDict-update (update (update [] acc.acc_nested) acc.acc_top)
          (only is_override_field layer.nested)
          (IsDict-update (update [] acc.acc_nested) acc.acc_top
            (IsDict-update [] acc.acc_nested tt)),
    )

-- What the loop holds for a field is what the first of its layers has.
lookup-merge_layers :
    (key : String) (layers : List RequestFields)
    → is_override_field key ≡ true
    → All AreDicts layers
    → or_else
        (lookup key (merge_layers layers).acc_top)
        (lookup key (merge_layers layers).acc_nested)
      ≡ first_value key layers
unfolding merge_layers merge_layer lookup
lookup-merge_layers key [] known h = refl
lookup-merge_layers key (layer ∷ layers) known h =
    let acc = merge_layers layers in
    let (t, n) = IsDict-merge_layers layers h.1 in
    rw
      (
        lookup-only key is_override_field layer.top,
        lookup-update key (update (update [] acc.acc_nested) acc.acc_top)
            (only is_override_field layer.nested)
            (IsDict-only is_override_field layer.nested h.0.1),
        lookup-only key is_override_field layer.nested,
        known,
        lookup-update key (update [] acc.acc_nested) acc.acc_top t,
        lookup-update key [] acc.acc_nested n,
      )
      (rw (or_else-none, sym (lookup-merge_layers key layers known h.1))
        (sym (or_else_assoc (lookup key layer.top) (lookup key layer.nested) _)))

pub preset_not_override : is_override_field preset_key ≡ false
unfolding is_override_field
preset_not_override = refl

not_preset : (key : String) → is_override_field key ≡ true → str_eq preset_key key ≡ false
not_preset key known = ground (arith, eq_iff preset_key key, preset_not_override)

or_else-only :
    {A : Type 0} (key : String) (top nested : Dict A)
    → or_else (lookup key top) (lookup key (only (λ k. not (is_some (lookup k top))) nested))
      ≡ or_else (lookup key top) (lookup key nested)
or_else-only key top nested =
    rw (lookup-only key (λ k. not (is_some (lookup k top))) nested)
      (elim (Option-cases (lookup key top)) [ inl e ↦ rw e refl | inr (v, e) ↦ rw e refl ])

value_in-finish_merge :
    (key : String) (acc : Accumulated)
    → is_override_field key ≡ true
    → value_in key (finish_merge acc) ≡ or_else (lookup key acc.acc_top) (lookup key acc.acc_nested)
unfolding finish_merge
value_in-finish_merge key acc known = elim (Option-cases acc.acc_top_preset) [
  | inr (name, t) ↦
      rw (t, lookup-assign preset_key key (preset_value name) acc.acc_top, not_preset key known)
        (or_else-only key acc.acc_top acc.acc_nested)
  | inl t ↦ elim (Option-cases acc.acc_nested_preset) [
    | inr (name, n) ↦
        rw
          (
            t,
            n,
            lookup-assign preset_key key (preset_value name)
                (only (λ k. not (is_some (lookup k acc.acc_top))) acc.acc_nested),
            not_preset key known,
          )
          (or_else-only key acc.acc_top acc.acc_nested)
    | inl n ↦ rw (t, n) (or_else-only key acc.acc_top acc.acc_nested)
  ]
]

-- For layers in which no key stands twice, the merged fields have, for each field that may be
-- overridden, the value of the first layer that has the field, where a layer's top level outranks its nested
-- object; a value of None counts as one.
pub value_in-merge_retrieval_field_layers :
    (key : String) (layers : List RequestFields)
    → is_override_field key ≡ true
    → All AreDicts layers
    → value_in key (merge_retrieval_field_layers layers) ≡ first_value key layers
unfolding merge_retrieval_field_layers
value_in-merge_retrieval_field_layers key layers known h =
    value_in-finish_merge key (merge_layers layers) known ∙ lookup-merge_layers key layers known h
