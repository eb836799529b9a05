-- ===== src/Ingestion/Pages.antt =====
-- The pages of a document's text (backend/services/extraction_service.py: the loop of `PdfExtractor`
-- from the texts of its pages on, and `prepare_extracted_document_for_chunking`). `clean_text`, with
-- its tables of Unicode, is an argument.
pub mod Tiles
pub mod Numbers
use chatvector_ai.Text.{join, codes}
use chatvector_ai.Chunking.Documents.{slice}
use chatvector_ai.Ingestion.Records.{PageBoundary}
use chatvector_ai.Prelude.{
  ℕ, ◌+◌, ◌++◌, Bool, true, false, List, [], ◌∷◌, length, is_empty, if◌then◌else◌,
}

-- The loop over the pages, from a page number and a cursor on.
extract_from : ℕ → ℕ → List (List ℕ) → List ℕ × List PageBoundary
extract_from page_num cursor [] = ([], [])
extract_from page_num cursor (text ∷ texts) =
    let page_text = text ++ codes "\n" in
    let end = cursor + length page_text in
    let (more, boundaries) = extract_from (page_num + 1) end texts in
    (
      page_text ++ more,
      record { page_number = page_num; start_offset = cursor; end_offset = end } ∷ boundaries,
    )

-- `PdfExtractor.extract`
unfoldable pub extract_pages : List (List ℕ) → List ℕ × List PageBoundary
unfolding extract_from
extract_pages texts = extract_from 1 0 texts

-- The loop over the boundaries: the cleaned parts and their boundaries, with whether there is a part
-- already, and the cursor.
unfoldable pub prepare_pages :
    (List ℕ → List ℕ) → List ℕ → Bool → ℕ → List PageBoundary → List (List ℕ) × List PageBoundary
prepare_pages clean raw any_part cursor [] = ([], [])
prepare_pages clean raw any_part cursor (b ∷ bs) =
    let page_clean = clean (slice raw b.start_offset b.end_offset) in
    let start = if any_part then cursor + 1 else cursor in
    let skipped = prepare_pages clean raw any_part cursor bs in
    let rest = prepare_pages clean raw true (start + length page_clean) bs in
    if is_empty page_clean then skipped else (
      page_clean ∷ rest.0,
      record {
        page_number = b.page_number;
        start_offset = start;
        end_offset = start + length page_clean;
      }
          ∷ rest.1,
    )

-- `prepare_extracted_document_for_chunking`
unfoldable pub prepare_extracted_document_for_chunking :
    (List ℕ → List ℕ) → List ℕ → List PageBoundary → List ℕ × List PageBoundary
unfolding prepare_pages
prepare_extracted_document_for_chunking clean raw [] = (clean raw, [])
prepare_extracted_document_for_chunking clean raw (b ∷ bs) =
    let prepared = prepare_pages clean raw false 0 (b ∷ bs) in
    (join (codes " ") prepared.0, prepared.1)
