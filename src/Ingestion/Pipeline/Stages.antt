-- ===== src/Ingestion/Pipeline/Stages.antt =====
-- What the stages up to the records of the chunks establish, and what the error handling keeps.

use chatvector_ai.Chunking.Documents.{Document}
use chatvector_ai.Ingestion.Records.{Embedding, PageBoundary, ChunkRecord, build_chunk_records}
use chatvector_ai.Ingestion.Row.{
  Status, extracting, chunking, embedding, retrying, failed, Row, StoredError, Detail, is_completed,
  update_document_status, set_document_status_detail, delete_document_chunks,
}
use chatvector_ai.Ingestion.Pipeline.{
  classify_ingestion_error, delete_chunks, apply, merge_job_metadata, Raised, Services, pure, raise,
  ◌>>◌, when, perform,
}
use chatvector_ai.Ingestion.Pipeline.Process.{
  record_retrying, record_terminal, is_terminal, handle_error, ignore, notify, update,
  embed_batches, embed_documents_with_progress, stage_chunks, batch_size, no_text, no_chunks,
  mismatch,
}
use chatvector_ai.Ingestion.Pipeline.Triple.{
  catch-Triple, require_then-Triple, lift_then-Triple, then-Triple, Triple, weaken-Triple,
  bind-Triple, perform-Triple, lift-Triple, when-Triple, ignore-Triple,
}
use chatvector_ai.Prelude.{
  some, ◌≡◌, refl, arith, zero, suc, ℕ, ◌+◌, ◌++◌, String, Bool, true, false, not, Option, none,
  List, [], length, is_empty, leb, ◌==◌, if◌then◌else◌, inl, inr, Bool-cases,
}

-- The records of the chunks of the document's text, one for each chunk, and their number.
pub record Built (w : Services) (built : ℕ × List ChunkRecord) : Type 0 where
  pub raw : List ℕ × List PageBoundary
  pub docs : List Document
  pub embeddings : List Embedding
  pub extracted : w.extract_text_with_metadata ≡ inr raw
  pub chunked : w.chunk_document_text (w.prepare raw.0 raw.1).0 ≡ inr docs
  pub some_chunk : is_empty docs ≡ false
  pub matched : length embeddings ≡ length docs
  pub counted : built.0 ≡ length docs
  pub recorded : built.1 ≡ build_chunk_records docs embeddings (w.prepare raw.0 raw.1).1

-- What every status but "completed" keeps.
abbrev pub KeptByStatus : (Row → Type 0) → Type 0
KeptByStatus P =
    (status : Status) (chunks : Option (ℕ × ℕ)) (row : Row)
    → is_completed status ≡ false
    → P row
    → P (update_document_status status none chunks row)

module _ (w : Services) (P : Row → Type 0) where
  -- The webhook leaves the row as it is.
  pub notify-Triple : (E : Row → Type 0) → Triple P (notify w) (λ _. P) E
  unfolding notify apply
  notify-Triple E =
      when-Triple w.webhook_enabled _
        (ignore-Triple _ E (perform-Triple w _ _ (λ row p. p) (λ row p. p) (λ row p. p)))

  pub update-Triple :
      (stage : String) (status : Status) (chunks : Option (ℕ × ℕ))
      → KeptByStatus P
      → is_completed status ≡ false
      → Triple P (update w stage status chunks) (λ _. P) P
  unfolding update apply
  update-Triple stage status chunks keep e =
      perform-Triple w stage _ (λ row p. keep status chunks row e p) (λ row p. p)
        (λ row p. keep status chunks row e p)

  -- A status that is only written unless the content is replaced.
  when_update-Triple :
      (b : Bool) (stage : String) (status : Status) (chunks : Option (ℕ × ℕ))
      → (b ≡ true → KeptByStatus P)
      → is_completed status ≡ false
      → Triple P (when b (update w stage status chunks)) (λ _. P) P
  when_update-Triple true stage status chunks keep e =
      update-Triple stage status chunks (keep refl) e
  when_update-Triple false stage status chunks keep e = record { run = λ s p. p }

  embed_batches-Triple :
      (report : Bool) (texts : List (List ℕ)) (fuel start : ℕ) (embeddings : List Embedding)
      → (report ≡ true → KeptByStatus P)
      → Triple P (embed_batches w report texts fuel start embeddings) (λ _. P) P
  unfolding embed_batches is_completed
  embed_batches-Triple report texts zero start embeddings keep = record { run = λ s p. p }
  embed_batches-Triple report texts (suc fuel) start embeddings keep =
      elim (Bool-cases (leb (length texts) start)) [
        | inl over ↦ rw over (record { run = λ s p. p })
        | inr more ↦ rw more (
            bind-Triple _
              (λ found.
                bind-Triple _
                  (λ _.
                    embed_batches-Triple report texts fuel (start + batch_size)
                      (embeddings ++ found) keep)
                  (when_update-Triple report "embedding" embedding _ keep refl))
              (weaken-Triple (lift-Triple "embedding" _) (λ a row h. h.1) (λ row h. h)))
      ]

  embed_documents-Triple :
      (report : Bool) (docs : List Document)
      → (report ≡ true → KeptByStatus P)
      → Triple P (embed_documents_with_progress w report docs) (λ _. P) P
  unfolding embed_documents_with_progress is_completed
  embed_documents-Triple report docs keep =
      bind-Triple _ (λ _. embed_batches-Triple report _ (length docs) 0 [] keep)
        (when_update-Triple report "embedding" embedding _ keep refl)

  start-Triple :
      (replace : Bool)
      → (not replace ≡ true → KeptByStatus P)
      → Triple P
          (if replace
            then perform w "extracting" merge_job_metadata
            else update w "extracting" extracting none)
          (λ _. P)
          P
  unfolding apply is_completed
  start-Triple true keep = perform-Triple w _ _ (λ row p. p) (λ row p. p) (λ row p. p)
  start-Triple false keep = update-Triple "extracting" extracting none (keep refl) refl

  -- The stages keep what every status but "completed" keeps, and if they end, they have built the
  -- records; without any such status if content is replaced.
  pub stage_chunks-Triple :
      (replace : Bool)
      → (not replace ≡ true → KeptByStatus P)
      → Triple P (stage_chunks w replace) (λ built row. Built w built × P row) P
  unfolding stage_chunks is_completed
  stage_chunks-Triple replace keep = then-Triple _ _ (start-Triple replace keep) λ _.
      lift_then-Triple "extracting" w.extract_text_with_metadata _ λ raw extracted.
        require_then-Triple _ 422 no_text _ λ _.
          then-Triple _ _ (when_update-Triple (not replace) "chunking" chunking none keep refl) λ _.
            lift_then-Triple "chunking" (w.chunk_document_text (w.prepare raw.0 raw.1).0) _
              λ docs chunked.
                require_then-Triple (not (is_empty docs)) 422 no_chunks _ λ some_chunk.
                  then-Triple _ _ (embed_documents-Triple (not replace) docs keep) λ embeddings.
                    require_then-Triple (length embeddings == length docs) 500 mismatch
                      (pure (
                        length docs,
                        build_chunk_records docs embeddings (w.prepare raw.0 raw.1).1,
                      ))
                      λ matched. record {
                        run = λ s p. (
                          record {
                            raw = raw;
                            docs = docs;
                            embeddings = embeddings;
                            extracted = extracted;
                            chunked = chunked;
                            some_chunk = ground arith;
                            matched = ground arith;
                            counted = refl;
                            recorded = refl;
                          },
                          p,
                        );
                      }

module _ (w : Services) (P : Row → Type 0) where
  -- What the failure handling keeps of the row. Chunks are deleted only behind a status that is
  -- written.
  pub record KeptByFailure (replace : Bool) : Type 0 where
    pub kept_by_detail :
        replace ≡ true
        → (detail : Option Detail) (error : Option StoredError) (row : Row) → P row
        → P (set_document_status_detail detail error row)
    pub kept_by_status :
        replace ≡ false
        → (status : Status) (error : Option StoredError) (row : Row) → is_completed status ≡ false
        → P row
        → P (update_document_status status error none row)
    pub kept_by_delete :
        replace ≡ false
        → (row : Row) → is_completed row.status ≡ false
        → P row
        → P (delete_document_chunks row)

  abbrev Recorded : Bool → Row → Type 0
  Recorded replace row = P row × (replace ≡ false → is_completed row.status ≡ false)

  record_terminal-Triple :
      (replace : Bool) (error : StoredError)
      → KeptByFailure replace
      → Triple P (record_terminal w replace error) (λ _. Recorded replace) P
  unfolding record_terminal apply is_completed update_document_status
  record_terminal-Triple true error keep =
      bind-Triple _ (λ _. notify-Triple w (Recorded true) P)
        (perform-Triple w _ _ (λ row p. (keep.kept_by_detail refl _ _ row p, λ e. absurd (cc e)))
          (λ row p. p) (λ row p. keep.kept_by_detail refl _ _ row p))
  record_terminal-Triple false error keep =
      bind-Triple _ (λ _. notify-Triple w (Recorded false) P)
        (perform-Triple w _ _
          (λ row p. (keep.kept_by_status refl failed (some error) row refl p, λ e. refl))
          (λ row p. p) (λ row p. keep.kept_by_status refl failed (some error) row refl p))

  record_retrying-Triple :
      (replace : Bool) → KeptByFailure replace → Triple P (record_retrying w replace) (λ _. P) P
  unfolding record_retrying apply is_completed
  record_retrying-Triple true keep =
      let kept = λ (row : Row) (p : P row). keep.kept_by_detail refl _ _ row p in
      perform-Triple w _ _ kept (λ row p. p) kept
  record_retrying-Triple false keep =
      let kept = λ (row : Row) (p : P row). keep.kept_by_status refl retrying _ row refl p in
      perform-Triple w _ _ kept (λ row p. p) kept

  clean_up-Triple :
      (replace : Bool)
      → KeptByFailure replace
      → Triple
          (Recorded replace)
          (when (not replace) (ignore (perform w "failure" delete_chunks)))
          (λ _. P)
          P
  unfolding apply
  clean_up-Triple true keep = record { run = λ s p. p.0 }
  clean_up-Triple false keep =
      catch-Triple _ (λ e. record { run = λ s p. p })
        (perform-Triple w _ _ (λ row p. keep.kept_by_delete refl row (p.1 refl) p.0) (λ row p. p.0)
          (λ row p. keep.kept_by_delete refl row (p.1 refl) p.0))

  -- `_handle_error` keeps it and never raises.
  pub handle_error-Triple :
      (e : Raised) (replace : Bool) (attempt : Option ℕ) (E : Row → Type 0)
      → KeptByFailure replace
      → Triple P (handle_error w e replace attempt) (λ _. P) E
  unfolding handle_error
  handle_error-Triple e replace attempt E keep = elim (Bool-cases (is_terminal w e attempt)) [
    | inl terminal ↦ rw terminal (
        ignore-Triple _ E (
          bind-Triple _ (λ _. clean_up-Triple replace keep)
            (record_terminal-Triple replace (classify_ingestion_error e) keep)))
    | inr retried ↦ rw retried (ignore-Triple _ E (record_retrying-Triple replace keep))
  ]

  -- Raising the error again, after it is handled.
  pub handle_then_raise-Triple :
      (e raised_again : Raised) (replace : Bool) (attempt : Option ℕ) (Q : Unit {0} → Row → Type 0)
      → KeptByFailure replace
      → Triple P (handle_error w e replace attempt >> raise raised_again) Q P
  handle_then_raise-Triple e raised_again replace attempt Q keep =
      bind-Triple (λ _. raise raised_again) (λ _. record { run = λ s p. p })
        (handle_error-Triple e replace attempt P keep)
