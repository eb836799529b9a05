-- ===== src/Ingestion/Pipeline/First.antt =====
-- A first ingestion is completed with the whole of its content or not at all.
use chatvector_ai.Ingestion.Records.{ChunkRecord}
use chatvector_ai.Ingestion.Row.{
  uploaded, completed, Row, is_completed, update_document_status, store_chunks_with_embeddings,
  delete_document_chunks,
}
use chatvector_ai.Ingestion.Pipeline.{apply, Services, Store, ◌>>=◌}
use chatvector_ai.Ingestion.Pipeline.Process.{
  update, complete, stage_chunks, finish_first, process_document_background, process_document,
  as_pipeline_error,
}
use chatvector_ai.Ingestion.Pipeline.Triple.{
  weaken-Triple, Post, Triple, bind-Triple, catch-Triple, perform-Triple,
}
use chatvector_ai.Ingestion.Pipeline.Stages.{
  Built, KeptByStatus, KeptByFailure, notify-Triple, update-Triple, stage_chunks-Triple,
  handle_then_raise-Triple,
}
use chatvector_ai.Prelude.{◌⊎◌, inl, inr, ◌≡◌, refl, ℕ, false, none, some, List, length}

abbrev pub NotCompleted : Row → Type 0
NotCompleted row = is_completed row.status ≡ false

kept_by_status : KeptByStatus NotCompleted
unfolding update_document_status
kept_by_status status none row e h = e
kept_by_status status (some chunks) row e h = e

module _ (w : Services) where
  -- A completed document with the whole of its content.
  pub record IsIngested (row : Row) : Type 0 where
    pub built : Built w (row.total, row.stored)
    pub all_processed : row.processed ≡ length row.stored
    pub status : row.status ≡ completed

  -- Not completed, or completed with the whole of its content.
  abbrev pub NeverInPart : Row → Type 0
  NeverInPart row = NotCompleted row ⊎ IsIngested row

  failure_kept : KeptByFailure w NeverInPart false
  unfolding update_document_status delete_document_chunks
  failure_kept = record {
    kept_by_detail = λ e. absurd (cc e);
    kept_by_status = λ _ status error row e h. inl e;
    kept_by_delete = λ _ row e h. inl e;
  }

  completed_row :
      (total : ℕ) (records : List ChunkRecord) (row : Row)
      → Built w (total, records)
      → row.stored ≡ records
      → IsIngested (update_document_status completed none (some (total, length records)) row)
  unfolding update_document_status
  completed_row total records row b e = record {
    built = rw e b;
    all_processed = rw e refl;
    status = refl;
  }

  complete-Triple :
      (total : ℕ) (records : List ChunkRecord)
      → Triple
          (λ row. Built w (total, records) × (row.stored ≡ records) × NotCompleted row)
          (complete w total (length records))
          (λ _. IsIngested)
          NeverInPart
  unfolding complete apply
  complete-Triple total records =
      bind-Triple _ (λ _. notify-Triple w IsIngested NeverInPart)
        (perform-Triple w _ _ (λ row p. completed_row total records row p.0 p.1) (λ row p. inl p.2)
          (λ row p. inr (completed_row total records row p.0 p.1)))

  finish_first-Triple :
      (built : ℕ × List ChunkRecord)
      → Triple
          (λ row. Built w built × NotCompleted row)
          (finish_first w built.0 built.1)
          (λ _. IsIngested)
          NeverInPart
  unfolding finish_first update apply update_document_status store_chunks_with_embeddings
      is_completed
  finish_first-Triple built =
      bind-Triple _
        (λ _.
          bind-Triple _ (λ _. complete-Triple built.0 built.1)
            (perform-Triple w _ _ (λ row p. (p.0, refl, p.1)) (λ row p. inl p.1)
              (λ row p. inl p.1)))
        (perform-Triple {Q = λ row. Built w built × NotCompleted row} w _ _ (λ row p. (p.0, refl))
          (λ row p. inl p.1) (λ row p. inl refl))

  body-Triple :
      Triple NotCompleted
        (stage_chunks w false >>= λ built. finish_first w built.0 built.1)
        (λ _. IsIngested)
        NeverInPart
  body-Triple = bind-Triple _ finish_first-Triple (
      weaken-Triple (stage_chunks-Triple w NotCompleted false (λ _. kept_by_status)) (λ a row h. h)
        (λ row h. inl h))

  -- From a row that is not completed, whatever the database, the embeddings and the webhook do, where
  -- a call of the database that raises may have changed the row or not: a queued ingestion that
  -- succeeds leaves the document completed with the records of all its chunks, and one that fails
  -- leaves it not completed, or completed with the records of all its chunks, never with a part.
  pub process_document_background-first :
      (file_name : List ℕ) (attempt : ℕ) (s : Store)
      → NotCompleted s.row
      → let run = process_document_background w false file_name attempt s in
        Post {A = Unit {0}} (λ _. IsIngested) NeverInPart run.0 run.1.row
  unfolding process_document_background
  process_document_background-first file_name attempt s h =
      (catch-Triple _
          (λ e.
            handle_then_raise-Triple w NeverInPart e e false (some attempt) (λ _. IsIngested)
              failure_kept)
          body-Triple).run
        s h

  -- So does a synchronous one.
  pub process_document_lem :
      (s : Store)
      → NotCompleted s.row
      → let run = process_document w s in
        Post {A = Unit {0}} (λ _. IsIngested) NeverInPart run.0 run.1.row
  unfolding process_document is_completed
  process_document_lem s h =
      (catch-Triple _
          (λ e.
            handle_then_raise-Triple w NeverInPart e (as_pipeline_error w e) false none
              (λ _. IsIngested) failure_kept)
          (bind-Triple _ (λ _. body-Triple)
            (weaken-Triple
              (update-Triple w NotCompleted "uploaded" uploaded none kept_by_status refl)
              (λ a row h. h) (λ row h. inl h)))).run
        s h
