-- ===== src/Ingestion/Upload/Examples.antt =====
-- An uploaded HTML file, and one whose name is of another format.
use chatvector_ai.Text.{codes, is_one_of, starts_with}
use chatvector_ai.Ingestion.Formats.{
  decode, Codecs, is_markdown_filename, is_html_filename, is_docx_filename, normalize_content_type,
  decode_html_contents, decoded, codec_error, decode_text, build_document_extractor, Extractor,
}
use chatvector_ai.Ingestion.Pipeline.{pipeline_error}
use chatvector_ai.Ingestion.Upload.{Limits, validate_file}
use chatvector_ai.Ingestion.Upload.Accepted.{Fits, build_document_extractor-validate_file}
use chatvector_ai.Prelude.{◌≡◌, refl, ℕ, String, Option, none, some, List}

-- Codecs that decode nothing as utf-8, and a declared charset that is a codec for nothing.
abbrev codecs_of : String → Codecs
codecs_of charset = record {
  utf_8 = λ contents. none;
  cp1254 = λ contents. some contents;
  named = λ encoding contents. codec_error;
  html_declared_charset = λ contents. some (codes charset);
  namelist = λ contents. none;
}

abbrev codecs : Codecs
codecs = codecs_of " UTF-8"

abbrev limits : Limits
limits = record { max_upload_size_bytes = 5; too_large_message = "too large" }

abbrev content_type : Option (List ℕ)
content_type = some (codes "Text/HTML; charset=utf-8")

build_document_extractor-validate_file_example :
    (e : Extractor) × (build_document_extractor content_type ≡ some e)
    × Fits codecs limits (codes "a.HTM") (codes "<p>xy") e
unfolding validate_file normalize_content_type is_one_of is_markdown_filename is_html_filename
    is_docx_filename decode_text starts_with
build_document_extractor-validate_file_example =
    build_document_extractor-validate_file codecs limits (codes "a.HTM") (codes "<p>xy")
      content_type refl

refused :
    validate_file codecs limits (codes "a.md") content_type (codes "<p>xy")
    ≡ some (
        pipeline_error 400 (record {
          stage = "validation";
          code = "invalid_file_content";
          message = "File content type does not match the Markdown extension.";
        }))
unfolding validate_file normalize_content_type is_one_of is_markdown_filename
refused = refl

decoded_as_cp1254 : decode_html_contents codecs (codes "<p>") ≡ decoded (codes "<p>")
unfolding decode_html_contents decode
decoded_as_cp1254 = refl

-- The fallback to utf-8 and cp1254 is not reached.
codec_not_caught : decode_html_contents (codecs_of "undefined") (codes "<p>") ≡ codec_error
unfolding decode_html_contents decode
codec_not_caught = refl
