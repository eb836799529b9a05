-- ===== src/Ingestion/Upload/Accepted.antt =====
-- What is known of an uploaded file that `validate_file` accepts.
use chatvector_ai.Text.{codes, starts_with, same_text, is_one_of}
use chatvector_ai.Ingestion.Formats.{
  Codecs, Extractor, pdf_extractor, plain_text_extractor, html_extractor, markdown_extractor,
  docx_extractor, registry, find_extractor, build_document_extractor, normalize_content_type,
  html_content_types, markdown_content_types, docx_content_type, is_markdown_filename,
  is_html_filename, is_docx_filename, decode_text, decode_html_contents, text_content_type,
  pdf_content_type,
}
use chatvector_ai.Ingestion.Formats.Decoding.{same_text-eq, IsRead, decode_html-decode_text}
use chatvector_ai.Ingestion.Pipeline.{Raised}
use chatvector_ai.Ingestion.Upload.{
  upload_checks, Limits, first_error, allowed_upload_types, is_bad_package, validate_file,
}
use mathlib.Core.Path.{subst}
use chatvector_ai.Prelude.{
  All, ◌∙◌, sym, ℕ, Bool, true, false, not, ◌≡◌, refl, ◌≤◌, inl, inr, Bool-cases, Option, none,
  some, List, [], ◌∷◌, length, is_empty, is_some, ltb, ◌||◌, ◌&&◌, arith,
}

all_passed :
    (checks : List (Bool × Raised))
    → first_error checks ≡ none
    → All (λ check. check.0 ≡ false) checks
all_passed [] h = tt
all_passed ((true, error) ∷ checks) h = absurd (ground arith)
all_passed ((false, error) ∷ checks) h = (refl, all_passed checks h)

-- A type and a name that go together only if both or neither are of a format.
agreeing :
    (typed named : Bool) → typed && not named ≡ false → named && not typed ≡ false → named ≡ typed
agreeing true true h k = refl
agreeing true false h k = sym h
agreeing false true h k = k
agreeing false false h k = refl

filled_length : (s : List ℕ) → is_empty s ≡ false → 1 ≤ length s
filled_length [] h = ground arith
filled_length (b ∷ s) h = omega arith

abbrev pub is_markdown : Extractor → Bool
is_markdown markdown_extractor = true
is_markdown e = false

abbrev pub is_html : Extractor → Bool
is_html html_extractor = true
is_html e = false

abbrev pub is_docx : Extractor → Bool
is_docx docx_extractor = true
is_docx e = false

module _ (c : Codecs) (limits : Limits) (filename file_bytes : List ℕ) where
  -- What the extractor begins with succeeds on the bytes, but for a codec that an HTML file names.
  abbrev pub Readable : Extractor → Type 0
  Readable pdf_extractor = starts_with (codes "%PDF-") file_bytes ≡ true
  Readable plain_text_extractor = is_some (decode_text c file_bytes) ≡ true
  Readable html_extractor = IsRead c file_bytes (decode_html_contents c file_bytes)
  Readable markdown_extractor = is_some (decode_text c file_bytes) ≡ true
  Readable docx_extractor =
      (starts_with (codes "PK") file_bytes ≡ true) × (is_bad_package c file_bytes ≡ false)

  -- The extractor of a type fits the suffix of the name and the bytes.
  pub record Fits (e : Extractor) : Type 0 where
    pub markdown_named : is_markdown_filename filename ≡ is_markdown e
    pub html_named : is_html_filename filename ≡ is_html e
    pub docx_named : is_docx_filename filename ≡ is_docx e
    pub filled : 1 ≤ length file_bytes
    pub small : length file_bytes ≤ limits.max_upload_size_bytes
    pub readable : Readable e

  -- What the checks say of a type.
  record Passed (mime : List ℕ) : Type 0 where
    markdown : is_markdown_filename filename ≡ is_one_of markdown_content_types mime
    html : is_html_filename filename ≡ is_one_of html_content_types mime
    docx : is_docx_filename filename ≡ is_one_of (docx_content_type ∷ []) mime
    some_byte : is_empty file_bytes ≡ false
    size : ltb limits.max_upload_size_bytes (length file_bytes) ≡ false
    pdf_bytes :
        same_text pdf_content_type mime && not (starts_with (codes "%PDF-") file_bytes) ≡ false
    docx_bytes :
        is_one_of (docx_content_type ∷ []) mime && not (starts_with (codes "PK") file_bytes) ≡ false
    docx_package : is_one_of (docx_content_type ∷ []) mime && is_bad_package c file_bytes ≡ false
    text_bytes :
        (same_text text_content_type mime
            || is_one_of markdown_content_types mime
            || is_one_of html_content_types mime)
          && not (is_some (decode_text c file_bytes))
        ≡ false

  Found : List ℕ → Type 0
  Found mime = (e : Extractor) × (find_extractor registry mime ≡ some e) × Fits e

  is_true : (b : Bool) → not b ≡ false → b ≡ true
  is_true true h = refl
  is_true false h = sym h

  Fits-Passed :
      (mime : List ℕ) (e : Extractor)
      → Passed mime
      → is_one_of markdown_content_types mime ≡ is_markdown e
      → is_one_of html_content_types mime ≡ is_html e
      → is_one_of (docx_content_type ∷ []) mime ≡ is_docx e
      → Readable e
      → Fits e
  Fits-Passed mime e p m h d readable = record {
    markdown_named = p.markdown ∙ m;
    html_named = p.html ∙ h;
    docx_named = p.docx ∙ d;
    filled = filled_length file_bytes p.some_byte;
    small = let s = p.size in ground arith;
    readable = readable;
  }

  pdf-Found : Passed pdf_content_type → Found pdf_content_type
  unfolding Found find_extractor is_one_of
  pdf-Found p = (pdf_extractor, refl, Fits-Passed _ _ p refl refl refl (is_true _ p.pdf_bytes))

  text-Found : Passed text_content_type → Found text_content_type
  unfolding Found find_extractor is_one_of
  text-Found p =
      (plain_text_extractor, refl, Fits-Passed _ _ p refl refl refl (is_true _ p.text_bytes))

  html-Found : Passed (codes "text/html") → Found (codes "text/html")
  unfolding Found find_extractor is_one_of
  html-Found p = (
    html_extractor,
    refl,
    Fits-Passed _ _ p refl refl refl
        (decode_html-decode_text c file_bytes (is_true _ p.text_bytes)),
  )

  markdown-Found : Passed (codes "text/markdown") → Found (codes "text/markdown")
  unfolding Found find_extractor is_one_of
  markdown-Found p =
      (markdown_extractor, refl, Fits-Passed _ _ p refl refl refl (is_true _ p.text_bytes))

  x_markdown-Found : Passed (codes "text/x-markdown") → Found (codes "text/x-markdown")
  unfolding Found find_extractor is_one_of
  x_markdown-Found p =
      (markdown_extractor, refl, Fits-Passed _ _ p refl refl refl (is_true _ p.text_bytes))

  docx-Found : Passed docx_content_type → Found docx_content_type
  unfolding Found find_extractor is_one_of
  docx-Found p = (
    docx_extractor,
    refl,
    Fits-Passed _ _ p refl refl refl (is_true _ p.docx_bytes, p.docx_package),
  )

  -- One of the names is the type.
  abbrev Serves : List (List ℕ) → Type 0
  Serves [] = Unit
  Serves (name ∷ names) = (Passed name → Found name) × Serves names

  Found-served :
      (names : List (List ℕ)) (mime : List ℕ)
      → Serves names
      → is_one_of names mime ≡ true
      → Passed mime
      → Found mime
  unfolding is_one_of
  Found-served [] mime serves h p = ground arith
  Found-served (name ∷ names) mime (serves, more) h p = elim (Bool-cases (same_text name mime)) [
    | inl same ↦ subst (λ m. Passed m → Found m) (same_text-eq name mime same) serves p
    | inr other ↦ Found-served names mime more (ground (arith, other, h)) p
  ]

  Passed-validate :
      (content_type : Option (List ℕ))
      → validate_file c limits filename content_type file_bytes ≡ none
      → (is_one_of allowed_upload_types (normalize_content_type content_type) ≡ true)
        × Passed (normalize_content_type content_type)
  unfolding validate_file upload_checks
  Passed-validate content_type h =
      let (
        allowed,
        (
          md,
          (
            md',
            (
              html,
              (
                html',
                (
                  docx,
                  (
                    docx',
                    (
                      some_byte,
                      (size, (pdf_bytes, (docx_bytes, (docx_package, (text_bytes, last))))),
                    ),
                  ),
                ),
              ),
            ),
          ),
        ),
      ) =
        all_passed (upload_checks c limits filename content_type file_bytes) h in
      (
        is_true _ allowed,
        record {
          markdown = agreeing _ _ md md';
          html = agreeing _ _ html html';
          docx = agreeing _ _ docx docx';
          some_byte = some_byte;
          size = size;
          pdf_bytes = pdf_bytes;
          docx_bytes = docx_bytes;
          docx_package = docx_package;
          text_bytes = text_bytes;
        },
      )

  -- A file that `validate_file` accepts is neither empty nor larger than the limit, and its type has
  -- an extractor, which fits the suffix of its name and what that extractor begins with: the signature
  -- of a PDF or DOCX file and the layout of the latter's package, or the decoding of a text. An HTML
  -- file is decoded, or a codec of another name than utf-8 and cp1254 raises an exception that the
  -- decoding does not catch. What an extractor does after that may still fail.
  pub build_document_extractor-validate_file :
      (content_type : Option (List ℕ))
      → validate_file c limits filename content_type file_bytes ≡ none
      → (e : Extractor) × (build_document_extractor content_type ≡ some e) × Fits e
  unfolding build_document_extractor Found
  build_document_extractor-validate_file content_type h =
      let (allowed, p) = Passed-validate content_type h in
      Found-served allowed_upload_types (normalize_content_type content_type)
        (
          pdf-Found,
          (text-Found, (html-Found, (markdown-Found, (x_markdown-Found, (docx-Found, tt))))),
        )
        allowed p
