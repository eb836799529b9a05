-- ===== src/Ingestion/Pipeline/Process.antt =====
-- The stages of the pipeline, its error handling, and the two ways to run it
-- (backend/services/ingestion_pipeline.py; the records of failures are those of
-- backend/services/ingestion_outcome.py).
use chatvector_ai.Failures.{ingestion_failure_is_terminal}
use chatvector_ai.Chunking.Documents.{Document}
use chatvector_ai.Ingestion.Records.{Embedding, ChunkRecord, build_chunk_records}
use chatvector_ai.Ingestion.FileName.{sanitize_filename}
use chatvector_ai.Ingestion.Row.{
  Status, extracting, chunking, embedding, storing, retrying, completed, failed, uploaded,
  replacement_in_progress, replacement_failed, Failure, StoredError,
}
use chatvector_ai.Ingestion.Pipeline.{
  update_status, set_detail, merge_job_metadata, store_chunks, replace_content, delete_chunks,
  notify_terminal, Raised, pipeline_error, other, Services, M, pure, raise, ◌>>=◌, ◌>>◌, catch,
  when, lift, to_exc, classify_ingestion_error, perform,
}
use chatvector_ai.Prelude.{
  zero, suc, ℕ, ◌+◌, ◌++◌, String, Bool, true, false, not, Option, none, some, List, [], map,
  length, take, drop, is_empty, leb, ◌==◌, if◌then◌else◌,
}

-- Raise an UploadPipelineError unless the test holds.
abbrev pub require : Bool → ℕ → Failure → M (Unit {0})
require true status_code failure = pure tt
require false status_code failure = raise (pipeline_error status_code failure)

-- `except Exception`, which only logs.
abbrev pub ignore : M (Unit {0}) → M (Unit {0})
ignore m = catch m (λ _. pure tt)

abbrev pub batch_size : ℕ
batch_size = 10

abbrev pub no_text : Failure
no_text = record {
  stage = "extracting";
  code = "no_text_extracted";
  message = "No extractable text was found in the uploaded document.";
}

abbrev pub no_chunks : Failure
no_chunks = record {
  stage = "chunking";
  code = "no_chunks_generated";
  message = "No chunks were generated from extracted text.";
}

abbrev pub mismatch : Failure
mismatch = record {
  stage = "embedding";
  code = "embedding_mismatch";
  message = "Embedding generation returned an unexpected number of vectors.";
}

module _ (w : Services) where
  unfoldable pub notify : M (Unit {0})
  notify = when w.webhook_enabled (ignore (perform w "notify" notify_terminal))

  -- `_update_status` with a status that is not the last one, and with "completed"
  unfoldable pub update : String → Status → Option (ℕ × ℕ) → M (Unit {0})
  update stage status chunks = perform w stage (update_status status none chunks)

  unfoldable pub complete : ℕ → ℕ → M (Unit {0})
  unfolding notify
  complete total processed = do
    perform w "storing" (update_status completed none (some (total, processed)))
    notify

  -- `for start in range(0, total, 10)` of `_embed_documents_with_progress`, with fuel for the texts
  -- left.
  unfoldable pub embed_batches : Bool → List (List ℕ) → ℕ → ℕ → List Embedding → M (List Embedding)
  unfolding update
  embed_batches report texts zero start embeddings = pure embeddings
  embed_batches report texts (suc fuel) start embeddings =
      let batch = take batch_size (drop start texts) in
      let rest = embed_batches report texts fuel (start + batch_size) in
      if leb (length texts) start then pure embeddings else do
        found ← lift "embedding" (w.get_embeddings start batch)
        when report (update "embedding" embedding (some (length texts, start + length batch)))
        rest (embeddings ++ found)

  -- `_embed_documents_with_progress`
  unfoldable pub embed_documents_with_progress : Bool → List Document → M (List Embedding)
  unfolding update embed_batches
  embed_documents_with_progress report docs = do
    when report (update "embedding" embedding (some (length docs, 0)))
    embed_batches report (map (λ (d : Document). d.page_content) docs) (length docs) 0 []

  -- The stages up to the records of the chunks, with the number of chunks.
  unfoldable pub stage_chunks : Bool → M (ℕ × List ChunkRecord)
  unfolding update embed_documents_with_progress
  stage_chunks replace = do
    if replace
        then perform w "extracting" merge_job_metadata
        else update "extracting" extracting none
    extracted ← lift "extracting" w.extract_text_with_metadata
    let prepared = w.prepare extracted.0 extracted.1
    require (not (is_empty prepared.0)) 422 no_text
    when (not replace) (update "chunking" chunking none)
    docs ← lift "chunking" (w.chunk_document_text prepared.0)
    require (not (is_empty docs)) 422 no_chunks
    embeddings ← embed_documents_with_progress (not replace) docs
    require (length embeddings == length docs) 500 mismatch
    pure (length docs, build_chunk_records docs embeddings prepared.1)

  -- The storing stage of a replacement, and of a first ingestion.
  unfoldable pub finish_replacement : List ℕ → List ChunkRecord → M (Unit {0})
  unfolding notify
  finish_replacement file_name records = do
    perform w "storing" (replace_content records file_name)
    perform w "storing" merge_job_metadata
    notify

  unfoldable pub finish_first : ℕ → List ChunkRecord → M (Unit {0})
  unfolding update complete
  finish_first total records = do
    update "storing" storing none
    perform w "storing" (store_chunks records)
    complete total (length records)

  -- `record_retrying_ingestion_attempt` and `record_terminal_ingestion_failure`
  unfoldable pub record_retrying : Bool → M (Unit {0})
  record_retrying replace = perform w "failure" (
      if replace
      then set_detail (some replacement_in_progress) none
      else update_status retrying none none)

  unfoldable pub record_terminal : Bool → StoredError → M (Unit {0})
  unfolding notify
  record_terminal replace error = do
    perform w "failure" (
        if replace
        then set_detail (some replacement_failed) (some error)
        else update_status failed (some error) none)
    notify

  unfoldable pub is_terminal : Raised → Option ℕ → Bool
  is_terminal e none = true
  is_terminal e (some attempt) = ingestion_failure_is_terminal w.max_retries (to_exc e) attempt

  -- `_handle_error`
  unfoldable pub handle_error : Raised → Bool → Option ℕ → M (Unit {0})
  unfolding is_terminal record_terminal record_retrying
  handle_error e replace attempt =
      if is_terminal e attempt
      then ignore (do
        record_terminal replace (classify_ingestion_error e)
        when (not replace) (ignore (perform w "failure" delete_chunks)))
      else ignore (record_retrying replace)

  -- `process_document_background`
  unfoldable pub process_document_background : Bool → List ℕ → ℕ → M (Unit {0})
  unfolding stage_chunks finish_replacement finish_first handle_error
  process_document_background replace file_name attempt =
      catch
        (stage_chunks replace >>= λ built.
          if replace
          then finish_replacement (sanitize_filename w.is_word file_name) built.1
          else finish_first built.0 built.1)
        (λ e. handle_error e replace (some attempt) >> raise e)

  -- An exception that is no UploadPipelineError becomes one.
  unfoldable pub as_pipeline_error : Raised → Raised
  as_pipeline_error (pipeline_error status_code failure) = pipeline_error status_code failure
  as_pipeline_error (other stage e) = pipeline_error 500 (record {
    stage = stage;
    code = "upload_failed";
    message = "Upload failed. Please try again.";
  })

  -- `process_document`, once the document is created.
  unfoldable pub process_document : M (Unit {0})
  unfolding update stage_chunks finish_first handle_error as_pipeline_error
  process_document =
      catch
        (do
          update "uploaded" uploaded none
          stage_chunks false >>= λ built. finish_first built.0 built.1)
        (λ e. handle_error e false none >> raise (as_pipeline_error e))
