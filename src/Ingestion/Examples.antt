-- ===== src/Ingestion/Examples.antt =====
-- The ingestion of a small text.
use chatvector_ai.Failures.{
  is_transient_message, is_transient_error, is_retryable_ingestion_failure,
  ingestion_failure_is_terminal, Exc, other_error,
}
use chatvector_ai.Text.{join, lower, codes, strip}
use chatvector_ai.Chunking.Documents.{slice, Document}
use chatvector_ai.Chunking.Documents.Fallback.{fallback_splitter-IsSplitter}
use chatvector_ai.Chunking.Strategies.{chunk_document_text}
use chatvector_ai.Chunking.Examples.{sample, strategy, characters-IsSentences}
use chatvector_ai.Ingestion.Records.{PageBoundary, build_chunk_records}
use chatvector_ai.Ingestion.Records.Offsets.{Recorded, build_chunk_records-Recorded}
use chatvector_ai.Ingestion.Pages.{extract_pages, prepare_extracted_document_for_chunking}
use chatvector_ai.Ingestion.Pages.Numbers.{HasPage, prepare-extract_pages}
use chatvector_ai.Ingestion.FileName.{sanitize_filename}
use chatvector_ai.Ingestion.Row.{
  replace_document_content, set_document_status_detail, Row, completed, queued, replacement_failed,
  replacement_in_progress, is_completed,
}
use chatvector_ai.Ingestion.Pipeline.{to_exc, perform, Call, Services}
use chatvector_ai.Ingestion.Pipeline.Process.{process_document_background}
use chatvector_ai.Ingestion.Pipeline.Triple.{Post}
use chatvector_ai.Ingestion.Pipeline.Replacement.{
  IsFinished, KeptOrReplaced, process_document_background-replace,
}
use chatvector_ai.Ingestion.Pipeline.First.{
  NeverInPart, IsIngested, process_document_background-first,
}
use chatvector_ai.Prelude.{
  ◌≡◌, refl, ℕ, Bool, true, false, Option, none, some, List, [], ◌∷◌, length, All, map, inr, leb,
  ◌&&◌,
}

-- The chunks of the sample by the paragraph strategy.
abbrev sample_chunks : List Document
sample_chunks = elim (chunk_document_text strategy (codes "Paragraph ") sample []) [
  | some docs ↦ docs
  | none ↦ []
]

abbrev sample_pages : List PageBoundary
sample_pages = record { page_number = 1; start_offset = 0; end_offset = 22 } ∷ []

build_chunk_records-Recorded_example :
    Recorded 4 sample sample_pages 0
      (build_chunk_records sample_chunks (7 ∷ 8 ∷ 9 ∷ []) sample_pages)
unfolding chunk_document_text strip lower
build_chunk_records-Recorded_example =
    build_chunk_records-Recorded strategy (codes "Paragraph ") sample [] sample_chunks
      (7 ∷ 8 ∷ 9 ∷ []) sample_pages fallback_splitter-IsSplitter characters-IsSentences tt refl

abbrev page_texts : List (List ℕ)
page_texts = codes "one " ∷ codes "  " ∷ codes "two" ∷ []

pages_prepared :
    (prepare_extracted_document_for_chunking strip
      (extract_pages page_texts).0
      (extract_pages page_texts).1).0
    ≡ codes "one two"
unfolding prepare_extracted_document_for_chunking extract_pages join strip slice
pages_prepared = refl

prepare-extract_pages_example :
    let raw = extract_pages page_texts in
    let prepared = prepare_extracted_document_for_chunking strip raw.0 raw.1 in
    All (HasPage strip page_texts prepared.0 prepared.1) prepared.1
prepare-extract_pages_example = prepare-extract_pages strip page_texts

-- Every text is one chunk, every embedding is 5, and a write of the job metadata fails after the content
-- was swapped, if it is set to fail.
abbrev fails_late : Bool → List Call → Call → Option (Bool × Exc)
fails_late true (Call.merge_job_metadata ∷ Call.replace_content _ _ ∷ []) Call.merge_job_metadata =
    some (false, other_error (codes "gone"))
fails_late late calls call = none

abbrev services : Bool → Services
services late = record {
  fails = fails_late late;
  extract_text_with_metadata = inr (codes "text", []);
  prepare = λ text pages. (text, pages);
  chunk_document_text = λ text. inr (record { page_content = text; metadata = [] } ∷ []);
  get_embeddings = λ start texts. inr (map (λ _. 5) texts);
  webhook_enabled = true;
  max_retries = 0;
  is_word = λ c. leb b'a' c && leb c b'z';
}

abbrev old_row : Row
old_row = record {
  file_name = codes "old.txt";
  status = completed;
  status_detail = some replacement_in_progress;
  error = none;
  total = 0;
  processed = 0;
  stored = [];
}

process_document_background-replace_example :
    let run =
      process_document_background
        (services true)
        true
        (codes "new.txt")
        0
        (record { row = old_row; calls = [] }) in
    Post {A = Unit {0}}
      (λ _.
        IsFinished
          (services true)
          (sanitize_filename (services true).is_word (codes "new.txt"))
          old_row)
      (KeptOrReplaced
        (services true)
        (sanitize_filename (services true).is_word (codes "new.txt"))
        old_row)
      run.0
      run.1.row
process_document_background-replace_example =
    process_document_background-replace (services true) (codes "new.txt") old_row 0 []

-- There the new content is active, and the replacement is marked as failed.
failed_after_cutover :
    let run =
      process_document_background
        (services true)
        true
        (codes "new.txt")
        0
        (record { row = old_row; calls = [] }) in
    (run.1.row.status ≡ completed)
    × (length run.1.row.stored ≡ 1)
    × (run.1.row.status_detail ≡ some replacement_failed)
unfolding process_document_background perform ingestion_failure_is_terminal to_exc
    is_retryable_ingestion_failure is_transient_error is_transient_message
    set_document_status_detail replace_document_content build_chunk_records
failed_after_cutover = (refl, refl, refl)

process_document_background-first_example :
    let run =
      process_document_background
        (services false)
        false
        (codes "new.txt")
        0
        (record { row = record old_row { status = queued }; calls = [] }) in
    Post {A = Unit {0}}
      (λ _. IsIngested (services false))
      (NeverInPart (services false))
      run.0
      run.1.row
unfolding is_completed
process_document_background-first_example =
    process_document_background-first (services false) (codes "new.txt") 0
      (record { row = record old_row { status = queued }; calls = [] }) refl
