-- ===== src/History/Fields/Merge.antt =====
-- `merge_history_fields` (backend/services/history_config.py): which layer a merged field is from.
use mathlib.Core.List.{reverse-append, reverse-reverse}
use chatvector_ai.Prelude.{
  ◌≡◌, refl, sym, ◌∙◌, String, str_eq, eq_iff, true, false, Option, none, some, List, [], ◌∷◌, ◌++◌,
  reverse, arith, if◌then◌else◌, All, All-reverse, Bool-cases, inl, inr,
}
use chatvector_ai.History.Fields.{
  PyValue, Layer, lookup, insert, given, is_none, is_history_field, merge_layer, merge_layers,
  merge_history_fields,
}

-- A `dict` holds a key once.
abbrev pub IsDict : Layer → Type 0
IsDict [] = Unit
IsDict ((k, v) ∷ m) = (lookup k m ≡ none) × IsDict m

-- `x or y` on optional values
abbrev pub or_else : Option PyValue → Option PyValue → Option PyValue
or_else (some v) o = some v
or_else none o = o

-- The first layer that gives the field a value.
abbrev pub first_given : String → List Layer → Option PyValue
first_given k [] = none
first_given k (layer ∷ layers) = or_else (given k layer) (first_given k layers)

lookup-insert :
    (key field : String) (value : PyValue) (layer : Layer)
    → lookup field (insert key value layer)
      ≡ (if str_eq key field then some value else lookup field layer)
unfolding lookup insert
lookup-insert key field value [] = refl
lookup-insert key field value ((name, old) ∷ rest) = ground (
  arith,
  eq_iff key field,
  eq_iff name key,
  eq_iff name field,
  lookup-insert key field value rest,
)

-- After one layer a known field has that layer's value if it gives one, and else the old value.
lookup-merge_layer :
    (j : String) (merged layer : Layer)
    → is_history_field j ≡ true
    → IsDict layer
    → lookup j (merge_layer merged layer) ≡ or_else (given j layer) (lookup j merged)
unfolding merge_layer given
lookup-merge_layer j merged [] known d = refl
lookup-merge_layer j merged ((k, v) ∷ items) known d = ground (
  arith,
  eq_iff k j,
  lookup-insert k j v merged,
  lookup-merge_layer j
      (if is_history_field k then (if is_none v then merged else insert k v merged) else merged)
      items known d.1,
)

or_else_assoc : (a b c : Option PyValue) → or_else (or_else a b) c ≡ or_else a (or_else b c)
or_else_assoc (some v) b c = refl
or_else_assoc none b c = refl

or_else-none : (a : Option PyValue) → or_else a none ≡ a
or_else-none (some v) = refl
or_else-none none = refl

first_given-append :
    (k : String) (xs ys : List Layer)
    → first_given k (xs ++ ys) ≡ or_else (first_given k xs) (first_given k ys)
first_given-append k [] ys = refl
first_given-append k (x ∷ xs) ys =
    rw (first_given-append k xs ys)
      (sym (or_else_assoc (given k x) (first_given k xs) (first_given k ys)))

lookup-merge_layers :
    (j : String) (merged : Layer) (layers : List Layer)
    → is_history_field j ≡ true
    → All IsDict layers
    → lookup j (merge_layers merged layers)
      ≡ or_else (first_given j (reverse layers)) (lookup j merged)
unfolding merge_layers
lookup-merge_layers j merged [] known d = refl
lookup-merge_layers j merged (layer ∷ layers) known d =
    rw
      (
        lookup-merge_layers j (merge_layer merged layer) layers known d.1,
        lookup-merge_layer j merged layer known d.0,
        reverse-append (layer ∷ []) layers,
        first_given-append j (reverse layers) (layer ∷ []),
      )
      (rw or_else-none
        (sym (or_else_assoc (first_given j (reverse layers)) (given j layer) (lookup j merged))))

merge_layer-unknown :
    (j : String) (merged layer : Layer)
    → is_history_field j ≡ false
    → lookup j (merge_layer merged layer) ≡ lookup j merged
unfolding merge_layer
merge_layer-unknown j merged [] h = refl
merge_layer-unknown j merged ((k, v) ∷ items) h = ground (
  arith,
  eq_iff k j,
  lookup-insert k j v merged,
  merge_layer-unknown j
      (if is_history_field k then (if is_none v then merged else insert k v merged) else merged)
      items h,
)

merge_layers-unknown :
    (j : String) (merged : Layer) (layers : List Layer)
    → is_history_field j ≡ false
    → lookup j (merge_layers merged layers) ≡ lookup j merged
unfolding merge_layers
merge_layers-unknown j merged [] h = refl
merge_layers-unknown j merged (layer ∷ layers) h =
    merge_layers-unknown j (merge_layer merged layer) layers h
    ∙ merge_layer-unknown j merged layer h

-- Merging layers that each hold a key once gives a known field the value of the first layer that
-- sets it to something other than None, and gives no other field a value.
pub lookup-merge_history_fields :
    (j : String) (layers : List Layer)
    → All IsDict layers
    → lookup j (merge_history_fields layers)
      ≡ (if is_history_field j then first_given j layers else none)
unfolding merge_history_fields lookup
lookup-merge_history_fields j layers d = elim (Bool-cases (is_history_field j)) [
  | inl known ↦ rw known (
      lookup-merge_layers j [] (reverse layers) known (All-reverse IsDict layers d)
      ∙ rw (reverse-reverse, or_else-none))
  | inr unknown ↦ rw unknown (merge_layers-unknown j [] (reverse layers) unknown)
]
