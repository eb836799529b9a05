-- ===== src/Ingestion/Upload.antt =====
-- The checks of an uploaded file (`IngestionPipeline.validate_file` of
-- backend/services/ingestion_pipeline.py), of a name, a content type and bytes.
pub mod Accepted
mod Examples
use chatvector_ai.Text.{codes, same_text, starts_with, is_one_of}
use chatvector_ai.Ingestion.Formats.{
  Codecs, normalize_content_type, pdf_content_type, text_content_type, html_content_types,
  markdown_content_types, docx_content_type, is_markdown_filename, is_html_filename,
  is_docx_filename, docx_package_has_expected_layout, decode_text,
}
use chatvector_ai.Ingestion.Row.{Failure}
use chatvector_ai.Ingestion.Pipeline.{Raised, pipeline_error}
use chatvector_ai.Prelude.{
  ℕ, String, Bool, true, false, not, Option, none, some, List, [], ◌∷◌, ◌++◌, length, is_empty,
  is_some, ltb, ◌&&◌, ◌||◌, if◌then◌else◌,
}

-- ALLOWED_UPLOAD_TYPES, a set
abbrev pub allowed_upload_types : List (List ℕ)
allowed_upload_types =
    pdf_content_type ∷ text_content_type ∷ html_content_types
    ++ (markdown_content_types ++ docx_content_type ∷ [])

-- MAX_UPLOAD_SIZE_BYTES, and the message of a file that is larger
pub record Limits : Type 0 where
  pub max_upload_size_bytes : ℕ
  pub too_large_message : String

validation_error : ℕ → String → String → Raised
validation_error status_code code message =
    pipeline_error status_code (record { stage = "validation"; code = code; message = message })

invalid_content : String → Raised
unfolding validation_error
invalid_content message = validation_error 400 "invalid_file_content" message

-- Checks in their order, each `if bad: raise`.
abbrev pub first_error : List (Bool × Raised) → Option Raised
first_error [] = none
first_error ((bad, error) ∷ checks) = if bad then some error else first_error checks

-- `names = set(archive.namelist())` and the layout, with BadZipFile as the same error
unfoldable pub is_bad_package : Codecs → List ℕ → Bool
is_bad_package c file_bytes = elim (c.namelist file_bytes) [
  | none ↦ true
  | some names ↦ not (docx_package_has_expected_layout names)
]

-- The checks of `validate_file`, in their order
unfoldable pub upload_checks :
    Codecs
    → Limits
    → (filename : List ℕ) → Option (List ℕ)
    → (file_bytes : List ℕ) → List (Bool × Raised)
unfolding validation_error invalid_content is_bad_package
upload_checks c limits filename content_type file_bytes =
    let mime_type = normalize_content_type content_type in
    let markdown_mime = is_one_of markdown_content_types mime_type in
    let html_mime = is_one_of html_content_types mime_type in
    let docx_mime = is_one_of (docx_content_type ∷ []) mime_type in
    (
      not (is_one_of allowed_upload_types mime_type),
      validation_error 400 "invalid_file_type"
          "Only PDF, TXT, Markdown (.md), HTML (.html/.htm), and DOCX (.docx) files are supported.",
    )
    ∷ (
      markdown_mime && not (is_markdown_filename filename),
      invalid_content "File extension does not match the declared Markdown type.",
    )
    ∷ (
      is_markdown_filename filename && not markdown_mime,
      invalid_content "File content type does not match the Markdown extension.",
    )
    ∷ (
      html_mime && not (is_html_filename filename),
      invalid_content "File extension does not match the declared HTML type.",
    )
    ∷ (
      is_html_filename filename && not html_mime,
      invalid_content "File content type does not match the HTML extension.",
    )
    ∷ (
      docx_mime && not (is_docx_filename filename),
      invalid_content "File extension does not match the declared DOCX type.",
    )
    ∷ (
      is_docx_filename filename && not docx_mime,
      invalid_content "File content type does not match the DOCX extension.",
    )
    ∷ (is_empty file_bytes, validation_error 400 "empty_file" "Uploaded file is empty.")
    ∷ (
      ltb limits.max_upload_size_bytes (length file_bytes),
      validation_error 413 "file_too_large" limits.too_large_message,
    )
    ∷ (
      same_text pdf_content_type mime_type && not (starts_with (codes "%PDF-") file_bytes),
      invalid_content "File content does not match the declared PDF type.",
    )
    ∷ (
      docx_mime && not (starts_with (codes "PK") file_bytes),
      invalid_content "File content does not match the declared DOCX type.",
    )
    ∷ (
      docx_mime && is_bad_package c file_bytes,
      invalid_content "File content does not match the declared DOCX type.",
    )
    ∷ (
      (same_text text_content_type mime_type || markdown_mime || html_mime)
          && not (is_some (decode_text c file_bytes)),
      invalid_content "File content is not valid text encoding.",
    )
    ∷ []

-- `validate_file`, with the error that it raises
unfoldable pub validate_file :
    Codecs → Limits → (filename : List ℕ) → Option (List ℕ) → (file_bytes : List ℕ) → Option Raised
unfolding upload_checks
validate_file c limits filename content_type file_bytes =
    first_error (upload_checks c limits filename content_type file_bytes)
