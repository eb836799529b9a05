-- ===== src/Metadata/Grammar.antt =====
-- What metadata filters pass, and that uploaded metadata can be asked for
-- (backend/services/metadata_filter.py, backend/services/document_metadata.py).
use mathlib.Core.List.{append_assoc, append-nil}
use chatvector_ai.Prelude.{
  ℕ, ◌≤◌, ◌≡◌, refl, sym, ap, ◌∙◌, true, false, some, List, [], ◌∷◌, ◌++◌, arith, inl, inr, length,
  is_empty, Bool-cases,
}
use chatvector_ai.Metadata.{
  Value, text, boolean, integer, float, compound, accepts_key, accepts_value, Operand, scalar,
  object, validate_scalar, validate_key, normalize_operand, normalize_items,
  validate_metadata_filter, metadata, validate_items, parse_document_metadata,
}

-- The exact-match filter for metadata.
abbrev pub exact : List (List ℕ × Value) → List (List ℕ × Operand)
exact [] = []
exact ((key, v) ∷ items) = (key, scalar v) ∷ exact items

length-exact : (items : List (List ℕ × Value)) → length (exact items) ≡ length items
length-exact [] = refl
length-exact ((key, v) ∷ items) = omega (arith, length-exact items)

-- The two modules agree on keys and on values.
validate_key-accepts_key : (key : List ℕ) → accepts_key key ≡ true → validate_key key ≡ true
unfolding validate_key accepts_key
validate_key-accepts_key key h = ground arith

validate_scalar-accepts_value : (v : Value) → accepts_value v ≡ true → validate_scalar v ≡ true
unfolding validate_scalar accepts_value
validate_scalar-accepts_value (text s) h = ground arith
validate_scalar-accepts_value (boolean b) h = refl
validate_scalar-accepts_value (integer n) h = refl
validate_scalar-accepts_value (float n finite) h = ground arith
validate_scalar-accepts_value compound h = h

normalize_items-exact :
    (normalized : List (List ℕ × Operand)) (items : List (List ℕ × Value))
    → validate_items items ≡ true
    → normalize_items normalized (exact items) ≡ some (normalized ++ exact items)
unfolding normalize_items validate_items normalize_operand
normalize_items-exact normalized [] h = ap some (sym (append-nil normalized))
normalize_items-exact normalized ((key, v) ∷ items) h = elim (Bool-cases (accepts_key key)) [
  | inr bad ↦ absurd (ground (arith, h, bad))
  | inl good ↦ elim (Bool-cases (accepts_value v)) [
    | inr no_scalar ↦ absurd (ground (arith, h, good, no_scalar))
    | inl fine ↦
        rw (validate_key-accepts_key key good, validate_scalar-accepts_value v fine)
          (normalize_items-exact (normalized ++ (key, scalar v) ∷ []) items
              (ground (arith, h, good, fine))
            ∙ ap some (append_assoc normalized ((key, scalar v) ∷ []) (exact items)))
  ]
]

accepted_items :
    (max_keys max_bytes bytes : ℕ) (items accepted : List (List ℕ × Value))
    → parse_document_metadata max_keys max_bytes (some (bytes, some (object items)))
      ≡ metadata accepted
    → (accepted ≡ items) × (validate_items items ≡ true) × (length items ≤ max_keys)
unfolding parse_document_metadata
accepted_items max_keys max_bytes bytes items accepted h =
    (ground (arith, h), ground (arith, h), ground (arith, h))

-- Metadata that an upload accepts, if it is not empty, and its filter, written as JSON, is within the
-- size, can be asked for as it is: the filter that asks for each of its values passes, and unchanged.
pub validate_metadata_filter-exact :
    (size : List (List ℕ × Operand) → ℕ) (max_keys max_bytes bytes : ℕ)
    (items accepted : List (List ℕ × Value))
    → parse_document_metadata max_keys max_bytes (some (bytes, some (object items)))
      ≡ metadata accepted
    → is_empty (exact accepted) ≡ false
    → size (exact accepted) ≤ max_bytes
    → validate_metadata_filter size max_keys max_bytes (object (exact accepted))
      ≡ some (exact accepted)
unfolding validate_metadata_filter
validate_metadata_filter-exact size max_keys max_bytes bytes items accepted h e fits =
    let (same, valid, few) = accepted_items max_keys max_bytes bytes items accepted h in
    let passes = normalize_items-exact [] accepted (ap validate_items same ∙ valid) in
    rw (e, passes) (ground (arith, length-exact accepted, ap length same, few, fits))
