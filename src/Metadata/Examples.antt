-- ===== src/Metadata/Examples.antt =====
-- Metadata of one key (backend/services/document_metadata.py, backend/services/metadata_filter.py).
use chatvector_ai.Prelude.{ℕ, ◌≤◌, ◌≡◌, refl, some, List, [], ◌∷◌, arith}
use chatvector_ai.Text.{codes}
use chatvector_ai.Metadata.{
  Value, text, Operand, object, metadata, parse_document_metadata, validate_metadata_filter,
}
use chatvector_ai.Metadata.Grammar.{exact, validate_metadata_filter-exact}

abbrev legal : List (List ℕ × Value)
legal = (codes "department", text (codes "legal")) ∷ []

legal-accepted : parse_document_metadata 20 100 (some (23, some (object legal))) ≡ metadata legal
unfolding parse_document_metadata
legal-accepted = refl

abbrev size_of : List (List ℕ × Operand) → ℕ
size_of filter = 25

fits : 25 ≤ 100
fits = omega arith

validate_metadata_filter-exact_example :
    validate_metadata_filter size_of 20 100 (object (exact legal)) ≡ some (exact legal)
validate_metadata_filter-exact_example =
    validate_metadata_filter-exact size_of 20 100 23 legal legal legal-accepted refl fits
