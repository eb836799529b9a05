-- ===== src/History/Fields.antt =====
-- The optional `history` fields of a request: a mapping from names to values that are still to be
-- converted, and `merge_history_fields` (backend/services/history_config.py).
pub mod Merge
use chatvector_ai.Prelude.{
  ℕ, String, str_eq, ◌≡◌, Bool, true, false, Option, none, some, List, [], ◌∷◌, ◌||◌, reverse,
  if◌then◌else◌,
}
use chatvector_ai.Prelude.Int.{ℤ, pos}

-- A value as the code looks at it: through `is None`, `int(v)` and `bool(v)`. The last constructor
-- is any other object, by what `int` gives (`none` where it raises TypeError or ValueError) and by
-- its truth. A float infinity, at which `int` raises OverflowError, is not among the values.
pub data PyValue : Type 0 where
  none_value : PyValue
  number : ℤ → PyValue
  flag : Bool → PyValue
  other : Option ℤ → Bool → PyValue

-- `int(value)`
unfoldable pub to_int : PyValue → Option ℤ
to_int none_value = none
to_int (number n) = some n
to_int (flag true) = some (pos 1)
to_int (flag false) = some (pos 0)
to_int (other n b) = n

-- `bool(value)`
unfoldable pub to_bool : PyValue → Bool
to_bool none_value = false
to_bool (number (pos ℕ.zero)) = false
to_bool (number n) = true
to_bool (flag b) = b
to_bool (other n b) = b

unfoldable pub is_none : PyValue → Bool
is_none none_value = true
is_none v = false

-- A `dict` from field names, in insertion order.
abbrev pub Layer : Type 0
Layer = List (String × PyValue)

-- `fields[key]`, if the key is there
unfoldable pub lookup : String → Layer → Option PyValue
lookup key [] = none
lookup key ((field, value) ∷ rest) = if str_eq field key then some value else lookup key rest

-- `merged[key] = value`
unfoldable pub insert : String → PyValue → Layer → Layer
insert key value [] = (key, value) ∷ []
insert key value ((field, old) ∷ rest) =
    if str_eq field key then (field, value) ∷ rest else (field, old) ∷ insert key value rest

-- `key in fields and fields[key] is not None`, with the value
unfoldable pub given : String → Layer → Option PyValue
unfolding lookup is_none
given k m = elim (lookup k m) [ none ↦ none | some v ↦ if is_none v then none else some v ]

-- The keys, spelled as in requests.
module _ where
  abbrev pub retrieval_history_window : String
  retrieval_history_window = "retrieval_history_window"

  abbrev pub generation_history_window : String
  generation_history_window = "generation_history_window"

  abbrev pub history_aware_retrieval : String
  history_aware_retrieval = "history_aware_retrieval"

  abbrev pub max_generation_history_chars : String
  max_generation_history_chars = "max_generation_history_chars"

-- `key in HISTORY_FIELD_NAMES`
unfoldable pub is_history_field : String → Bool
is_history_field k =
    str_eq k retrieval_history_window
    || str_eq k generation_history_window
    || str_eq k history_aware_retrieval
    || str_eq k max_generation_history_chars

-- one layer of the loop of `merge_history_fields`
unfoldable pub merge_layer : Layer → Layer → Layer
unfolding is_none insert
merge_layer merged [] = merged
merge_layer merged ((k, v) ∷ items) =
    merge_layer
      (if is_history_field k then (if is_none v then merged else insert k v merged) else merged)
      items

unfoldable pub merge_layers : Layer → List Layer → Layer
unfolding merge_layer
merge_layers merged [] = merged
merge_layers merged (layer ∷ layers) = merge_layers (merge_layer merged layer) layers

unfoldable pub merge_history_fields : List Layer → Layer
unfolding merge_layers
merge_history_fields layers = merge_layers [] (reverse layers)
