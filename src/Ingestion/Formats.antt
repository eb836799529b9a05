-- ===== src/Ingestion/Formats.antt =====
-- Which formats can be extracted, and how their bytes become text
-- (backend/services/extraction_service.py and docx_extraction.py). Python's codecs, the charset that an
-- HTML file declares and the names in a ZIP archive are arguments.
pub mod Decoding
use chatvector_ai.Text.{codes, lower, strip, starts_with, ends_with, same_text, is_one_of}
use chatvector_ai.Prelude.{
  ℕ, Bool, true, false, not, Option, none, some, List, [], ◌∷◌, ◌++◌, map, is_empty, is_some, ◌==◌,
  ◌&&◌, ◌||◌, if◌then◌else◌,
}

-- What `contents.decode(encoding)` gives: a text, a UnicodeDecodeError or LookupError, or another
-- exception, such as the UnicodeError of the codecs 'undefined' and 'punycode'.
pub data Decoded : Type 0 where
  decoded : List ℕ → Decoded
  undecodable codec_error : Decoded

pub record Codecs : Type 0 where
  -- The strict utf-8 and cp1254 codecs, nothing for UnicodeDecodeError, which is all that they raise.
  pub utf_8 : List ℕ → Option (List ℕ)
  pub cp1254 : List ℕ → Option (List ℕ)
  -- Any other name of a codec
  pub named : (encoding contents : List ℕ) → Decoded
  -- `_html_declared_charset`
  pub html_declared_charset : List ℕ → Option (List ℕ)
  -- `set(archive.namelist())`, nothing for BadZipFile
  pub namelist : List ℕ → Option (List (List ℕ))

-- `s.split(";", 1)[0]`
unfoldable pub before_semicolon : List ℕ → List ℕ
before_semicolon [] = []
before_semicolon (c ∷ s) = if c == b';' then [] else c ∷ before_semicolon s

-- `_normalize_content_type`
unfoldable pub normalize_content_type : Option (List ℕ) → List ℕ
unfolding before_semicolon lower strip
normalize_content_type none = []
normalize_content_type (some s) = map lower (strip (before_semicolon s))

abbrev pub pdf_content_type : List ℕ
pdf_content_type = codes "application/pdf"

abbrev pub text_content_type : List ℕ
text_content_type = codes "text/plain"

abbrev pub html_content_types : List (List ℕ)
html_content_types = codes "text/html" ∷ []

abbrev pub markdown_content_types : List (List ℕ)
markdown_content_types = codes "text/markdown" ∷ codes "text/x-markdown" ∷ []

abbrev pub docx_content_type : List ℕ
docx_content_type = codes "application/vnd.openxmlformats-officedocument.wordprocessingml.document"

-- `any(lower.endswith(suffix) for suffix in suffixes)` on the lower-cased name
has_suffix : List (List ℕ) → List ℕ → Bool
unfolding ends_with
has_suffix [] name = false
has_suffix (suffix ∷ suffixes) name = ends_with suffix name || has_suffix suffixes name

unfoldable pub is_markdown_filename : List ℕ → Bool
unfolding has_suffix lower
is_markdown_filename name = has_suffix (codes ".md" ∷ codes ".markdown" ∷ []) (map lower name)

unfoldable pub is_html_filename : List ℕ → Bool
unfolding has_suffix lower
is_html_filename name = has_suffix (codes ".html" ∷ codes ".htm" ∷ []) (map lower name)

unfoldable pub is_docx_filename : List ℕ → Bool
unfolding has_suffix lower
is_docx_filename name = has_suffix (codes ".docx" ∷ []) (map lower name)

-- `docx_package_has_expected_layout`
unfoldable pub docx_package_has_expected_layout : List (List ℕ) → Bool
unfolding is_one_of
docx_package_has_expected_layout names =
    let main = is_one_of names (codes "word/document.xml") in
    let encrypted =
      is_one_of names (codes "EncryptedPackage") || is_one_of names (codes "EncryptionInfo") in
    if not main then false else if encrypted && not main then false else true

-- The classes of the registry.
pub data Extractor : Type 0 where
  pdf_extractor plain_text_extractor html_extractor markdown_extractor docx_extractor : Extractor

-- `_EXTRACTOR_REGISTRY`
abbrev pub registry : List (List ℕ × Extractor)
registry =
    (pdf_content_type, pdf_extractor)
    ∷ (text_content_type, plain_text_extractor)
    ∷ (codes "text/html", html_extractor)
    ∷ (codes "text/markdown", markdown_extractor)
    ∷ (codes "text/x-markdown", markdown_extractor)
    ∷ (docx_content_type, docx_extractor)
    ∷ []

unfoldable pub find_extractor : List (List ℕ × Extractor) → List ℕ → Option Extractor
find_extractor [] mime = none
find_extractor ((name, extractor) ∷ entries) mime =
    if same_text name mime then some extractor else find_extractor entries mime

-- `build_document_extractor`; `none` is the UnsupportedDocumentTypeError.
unfoldable pub build_document_extractor : Option (List ℕ) → Option Extractor
unfolding find_extractor normalize_content_type
build_document_extractor content_type =
    find_extractor registry (normalize_content_type content_type)

module _ (c : Codecs) where
  -- The decoding of PlainTextExtractor and MarkdownExtractor: utf-8, then cp1254.
  unfoldable pub decode_text : List ℕ → Option (List ℕ)
  decode_text contents = elim (c.utf_8 contents) [
    | some text ↦ some text
    | none ↦ c.cp1254 contents
  ]

  strictly : Option (List ℕ) → Decoded
  strictly (some text) = decoded text
  strictly none = undecodable

  -- `contents.decode(encoding)`
  unfoldable pub decode : (encoding contents : List ℕ) → Decoded
  unfolding strictly
  decode encoding contents =
      if same_text encoding (codes "utf-8")
      then strictly (c.utf_8 contents)
      else if same_text encoding (codes "cp1254")
      then strictly (c.cp1254 contents)
      else c.named encoding contents

  -- `for encoding in encodings` of `_decode_html_contents`, where another exception leaves the loop
  unfoldable pub try_encodings : List (List ℕ) → List (List ℕ) → List ℕ → Decoded
  unfolding lower strip is_one_of
  try_encodings seen [] contents = undecodable
  try_encodings seen (encoding ∷ encodings) contents =
      let normalized = map lower (strip encoding) in
      let skipped = try_encodings seen encodings contents in
      let next = try_encodings (normalized ∷ seen) encodings contents in
      if is_empty normalized || is_one_of seen normalized
      then skipped
      else elim (decode normalized contents) [
        | decoded text ↦ decoded text
        | undecodable ↦ next
        | codec_error ↦ codec_error
      ]

  -- `if declared: encodings.append(declared)`
  unfoldable pub declared_encodings : Option (List ℕ) → List (List ℕ)
  declared_encodings none = []
  declared_encodings (some declared) = if is_empty declared then [] else declared ∷ []

  -- `_decode_html_contents`; `undecodable` is the DocumentExtractionError, `codec_error` the exception
  -- of a codec that is not caught.
  unfoldable pub decode_html_contents : List ℕ → Decoded
  unfolding try_encodings declared_encodings
  decode_html_contents contents =
      try_encodings []
        (declared_encodings (c.html_declared_charset contents)
          ++ codes "utf-8" ∷ codes "cp1254" ∷ [])
        contents
