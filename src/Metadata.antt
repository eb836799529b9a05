-- ===== src/Metadata.antt =====
-- The metadata of an upload (backend/services/document_metadata.py) and the filter of a request on it
-- (backend/services/metadata_filter.py), from parsed JSON on. The lengths of the texts in bytes are
-- arguments.
pub mod Grammar
mod Examples
use chatvector_ai.Prelude.{
  ℕ, Bool, true, false, not, ◌&&◌, ◌||◌, ◌==◌, Option, none, some, List, [], ◌∷◌, ◌++◌, length, ltb,
  is_empty, if◌then◌else◌,
}
use chatvector_ai.Prelude.Int.{ℤ}
use chatvector_ai.Text.{codes, same_text}

-- A JSON value as the code tests it; a float by its text and whether it is finite, and `compound` is null, an
-- array or an object.
pub data Value : Type 0 where
  text : List ℕ → Value
  boolean : Bool → Value
  integer : ℤ → Value
  float : List ℕ → Bool → Value
  compound : Value

-- The value under a key of an operand: a list, or anything else.
pub data InValue : Type 0 where
  list_of : List Value → InValue
  no_list : InValue

-- What a filter has for a key: an object or another value.
pub data Operand : Type 0 where
  scalar : Value → Operand
  mapping : List (List ℕ × InValue) → Operand

pub data Raw (A : Type 0) : Type 0 where
  object : List (List ℕ × A) → Raw A
  no_object : Raw A

-- `"\x00" in s`
has_nul : List ℕ → Bool
has_nul [] = false
has_nul (c ∷ s) = if c == 0 then true else has_nul s

-- `_validate_scalar` of the filter; true if it does not raise
unfoldable pub validate_scalar : Value → Bool
unfolding has_nul
validate_scalar (text s) = not (has_nul s)
validate_scalar (boolean b) = true
validate_scalar (integer n) = true
validate_scalar (float n finite) = finite
validate_scalar compound = false

-- The filter's test of a key
unfoldable pub validate_key : List ℕ → Bool
unfolding has_nul
validate_key key = if is_empty key then false else not (has_nul key)

-- `for value in values: _validate_scalar(key, value)`
unfoldable pub validate_scalars : List Value → Bool
unfolding validate_scalar
validate_scalars [] = true
validate_scalars (v ∷ vs) = if validate_scalar v then validate_scalars vs else false

-- The normalized operand, or nothing where the code raises. A dictionary whose set of keys is that of
-- `in` alone has one entry.
unfoldable pub normalize_operand : Operand → Option Operand
unfolding validate_scalar validate_scalars
normalize_operand (scalar v) = if validate_scalar v then some (scalar v) else none
normalize_operand (mapping ((name, list_of values) ∷ [])) =
    if same_text name (codes "in")
    then (if is_empty values
        then none
        else if validate_scalars values
        then some (mapping ((name, list_of values) ∷ []))
        else none)
    else none
normalize_operand (mapping fields) = none

-- The loop over the items, with the filter so far; no key comes twice, so that each is added at the
-- end.
unfoldable pub normalize_items :
    List (List ℕ × Operand) → List (List ℕ × Operand) → Option (List (List ℕ × Operand))
unfolding validate_key normalize_operand
normalize_items normalized [] = some normalized
normalize_items normalized ((key, operand) ∷ items) =
    if validate_key key
    then elim (normalize_operand operand) [
      | none ↦ none
      | some o ↦ normalize_items (normalized ++ (key, o) ∷ []) items
    ]
    else none

-- `validate_metadata_filter`; nothing is InvalidMetadataFilterError. `size` is the length of the
-- filter's JSON.
unfoldable pub validate_metadata_filter :
    (List (List ℕ × Operand) → ℕ) → ℕ → ℕ → Raw Operand → Option (List (List ℕ × Operand))
unfolding normalize_items
validate_metadata_filter size max_keys max_bytes no_object = none
validate_metadata_filter size max_keys max_bytes (object items) =
    if is_empty items || ltb max_keys (length items)
    then none
    else elim (normalize_items [] items) [
      | none ↦ none
      | some normalized ↦ if ltb max_bytes (size normalized) then none else some normalized
    ]

-- How `parse_document_metadata` ends: with metadata, or by 422 with a code.
pub data Parsed : Type 0 where
  metadata : List (List ℕ × Value) → Parsed
  metadata_too_large : Parsed
  invalid_metadata : Parsed
  metadata_too_many_keys : Parsed

-- The tests of `parse_document_metadata` on a key and on a value
unfoldable pub accepts_key : List ℕ → Bool
unfolding has_nul
accepts_key key = not (is_empty key || has_nul key)

unfoldable pub accepts_value : Value → Bool
unfolding has_nul
accepts_value (text s) = if has_nul s then false else true
accepts_value (boolean b) = true
accepts_value (integer n) = true
accepts_value (float n finite) = if not finite then false else true
accepts_value compound = false

unfoldable pub validate_items : List (List ℕ × Value) → Bool
unfolding accepts_key accepts_value
validate_items [] = true
validate_items ((key, v) ∷ items) =
    if accepts_key key then (if accepts_value v then validate_items items else false) else false

-- `parse_document_metadata` on a text of so many bytes, which `json.loads` reads as a value, or
-- refuses.
unfoldable pub parse_document_metadata : ℕ → ℕ → Option (ℕ × Option (Raw Value)) → Parsed
unfolding validate_items
parse_document_metadata max_keys max_bytes none = metadata []
parse_document_metadata max_keys max_bytes (some (size, loaded)) =
    if ltb max_bytes size then metadata_too_large else elim loaded [
      | none ↦ invalid_metadata
      | some no_object ↦ invalid_metadata
      | some (object items) ↦
          if ltb max_keys (length items)
          then metadata_too_many_keys
          else if validate_items items
          then metadata items
          else invalid_metadata
    ]
