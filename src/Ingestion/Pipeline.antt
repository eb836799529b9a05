-- ===== src/Ingestion/Pipeline.antt =====
-- The ingestion pipeline (backend/services/ingestion_pipeline.py, `IngestionPipeline`), over the row
-- of its document. A call of the database changes the row, and may raise before or after that; the
-- retries of a call are one call here: a repeated call writes the same row, but for the prior error of
-- a failed document that has no error yet.
pub mod Process
pub mod Triple
pub mod Stages
pub mod Replacement
pub mod First
use chatvector_ai.Text.{codes}
use chatvector_ai.Failures.{
  Exc, timeout_error, provider_rate_limit, provider_timeout, provider_connection, provider_auth,
  upload_error, other_error, ingestion_failure_is_terminal,
}
use chatvector_ai.Chunking.Documents.{Document}
use chatvector_ai.Ingestion.Records.{Embedding, PageBoundary, ChunkRecord, build_chunk_records}
use chatvector_ai.Ingestion.Row.{
  Status, extracting, chunking, embedding, storing, retrying, completed, failed, Detail,
  replacement_in_progress, replacement_failed, Failure, StoredError, Row, update_document_status,
  set_document_status_detail, store_chunks_with_embeddings, replace_document_content,
  delete_document_chunks,
}
use chatvector_ai.Prelude.{
  zero, suc, ℕ, ◌+◌, ◌++◌, String, Bool, true, false, not, Option, none, some, List, [], ◌∷◌, map,
  length, take, drop, is_empty, leb, ◌==◌, if◌then◌else◌, ◌⊎◌, inl, inr,
}

-- The calls that leave the pipeline for the database and the webhook.
pub data Call : Type 0 where
  update_status : Status → Option StoredError → Option (ℕ × ℕ) → Call
  set_detail : Option Detail → Option StoredError → Call
  merge_job_metadata : Call
  store_chunks : List ChunkRecord → Call
  replace_content : List ChunkRecord → List ℕ → Call
  delete_chunks : Call
  notify_terminal : Call

unfoldable pub apply : Call → Row → Row
apply (update_status status error chunks) row = update_document_status status error chunks row
apply (set_detail detail error) row = set_document_status_detail detail error row
apply merge_job_metadata row = row
apply (store_chunks records) row = store_chunks_with_embeddings records row
apply (replace_content records file_name) row = replace_document_content records file_name row
apply delete_chunks row = delete_document_chunks row
apply notify_terminal row = row

-- An UploadPipelineError with its status code, or another exception with the stage in which it was
-- raised.
pub data Raised : Type 0 where
  pipeline_error : (status_code : ℕ) → Failure → Raised
  other : (stage : String) → Exc → Raised

pub data Result {ℓ} (A : Type ℓ) : Type ℓ where
  done : A → Result A
  raised : Raised → Result A

-- What the pipeline uses and does not implement. Whether a call raises may depend on all calls before
-- it; one that raises says whether it has changed the row all the same, as where a commit is
-- followed by a timeout. `is_word` is `\w` of a regular expression, and `get_embeddings` has the index of the first text of its batch.
pub record Services : Type 0 where
  pub is_word : ℕ → Bool
  pub fails : List Call → Call → Option (Bool × Exc)
  pub extract_text_with_metadata : Exc ⊎ (List ℕ × List PageBoundary)
  pub prepare : List ℕ → List PageBoundary → List ℕ × List PageBoundary
  pub chunk_document_text : List ℕ → Exc ⊎ List Document
  pub get_embeddings : ℕ → List (List ℕ) → Exc ⊎ List Embedding
  pub webhook_enabled : Bool
  pub max_retries : ℕ

-- The row, and the calls so far.
pub record Store : Type 0 where
  pub row : Row
  pub calls : List Call

abbrev pub M : Type 0 → Type 0
M A = Store → Result A × Store

abbrev pub pure : {A : Type 0} → A → M A
pure a s = (done a, s)

abbrev pub raise : {A : Type 0} → Raised → M A
raise e s = (raised e, s)

-- After a result: the next step, and the handler.
abbrev pub continue : {A B : Type 0} → (A → M B) → Result A → M B
continue f (done a) s = f a s
continue f (raised e) s = (raised e, s)

abbrev pub recover : {A : Type 0} → (Raised → M A) → Result A → M A
recover handler (done a) s = (done a, s)
recover handler (raised e) s = handler e s

infixl 5 ◌>>=◌ ◌>>◌
abbrev pub ◌>>=◌ : {A B : Type 0} → M A → (A → M B) → M B
◌>>=◌ m f s = continue f (m s).0 (m s).1

abbrev pub ◌>>◌ : {B : Type 0} → M (Unit {0}) → M B → M B
m >> k = m >>= λ _. k

-- `try: m except Exception: handler`
abbrev pub catch : {A : Type 0} → M A → (Raised → M A) → M A
catch m handler s = recover handler (m s).0 (m s).1

abbrev pub when : Bool → M (Unit {0}) → M (Unit {0})
when true m = m
when false m = pure tt

-- A step that is not of the database.
abbrev pub lift : {A : Type 0} → String → Exc ⊎ A → M A
lift stage (inl e) = raise (other stage e)
lift stage (inr a) = pure a

unfoldable pub to_exc : Raised → Exc
to_exc (pipeline_error status_code failure) = upload_error status_code (codes failure.message)
to_exc (other stage e) = e

provider_failure : String → Exc → Failure
provider_failure stage (provider_auth m) = record {
  stage = stage;
  code = "embedding_invalid_api_key";
  message = "The embedding API key is invalid or missing. Check your provider credentials.";
}
provider_failure stage (provider_rate_limit m) = record {
  stage = stage;
  code = "embedding_rate_limited";
  message = "The embedding provider is rate-limited or quota exceeded. Please try again later.";
}
provider_failure stage (provider_connection m) = record {
  stage = stage;
  code = "provider_unreachable";
  message =
      "Could not reach the embedding provider. Check your network and provider configuration.";
}
provider_failure stage (provider_timeout m) = record {
  stage = stage;
  code = "provider_timeout";
  message = "The embedding provider request timed out. Please try again later.";
}
provider_failure stage e = record {
  stage = stage;
  code = "pipeline_error";
  message = "An error occurred during document processing.";
}

-- `_classify_ingestion_error`
unfoldable pub classify_ingestion_error : Raised → StoredError
unfolding provider_failure
classify_ingestion_error (pipeline_error status_code failure) = record {
  failure = failure;
  prior_error = none;
}
classify_ingestion_error (other stage e) = record {
  failure = provider_failure stage e;
  prior_error = none;
}

module _ (w : Services) where
  -- One call.
  unfoldable pub perform : String → Call → M (Unit {0})
  unfolding apply
  perform stage call s =
      let calls = s.calls ++ call ∷ [] in
      elim (w.fails s.calls call) [
        | none ↦ (done tt, record { row = apply call s.row; calls = calls })
        | some (committed, e) ↦ (
          raised (other stage e),
          record { row = if committed then apply call s.row else s.row; calls = calls },
        )
      ]
