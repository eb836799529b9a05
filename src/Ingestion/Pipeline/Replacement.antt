-- ===== src/Ingestion/Pipeline/Replacement.antt =====
-- A replacement keeps the content of its document or replaces it as a whole.
use chatvector_ai.Ingestion.Records.{ChunkRecord}
use chatvector_ai.Ingestion.FileName.{sanitize_filename}
use chatvector_ai.Ingestion.Row.{
  completed, Row, set_document_status_detail, replace_document_content,
}
use chatvector_ai.Ingestion.Pipeline.{Call, apply, Services, ◌>>=◌}
use chatvector_ai.Ingestion.Pipeline.Process.{
  stage_chunks, finish_replacement, process_document_background,
}
use chatvector_ai.Ingestion.Pipeline.Triple.{
  Post, Triple, bind-Triple, catch-Triple, perform-Triple, weaken-Triple,
}
use chatvector_ai.Ingestion.Pipeline.Stages.{
  Built, KeptByFailure, notify-Triple, stage_chunks-Triple, handle_then_raise-Triple,
}
use chatvector_ai.Prelude.{◌≡◌, refl, ℕ, true, none, some, List, ◌⊎◌, inl, inr}

module _ (w : Services) (file_name : List ℕ) (old : Row) where
  -- The content that the document had, and its status.
  pub record IsKept (row : Row) : Type 0 where
    pub content : row.stored ≡ old.stored
    pub name : row.file_name ≡ old.file_name
    pub status : row.status ≡ old.status

  -- The whole of the new content, as completed.
  pub record IsReplaced (row : Row) : Type 0 where
    pub total : ℕ
    pub records : List ChunkRecord
    pub built : Built w (total, records)
    pub content : row.stored ≡ records
    pub name : row.file_name ≡ file_name
    pub status : row.status ≡ completed

  abbrev pub KeptOrReplaced : Row → Type 0
  KeptOrReplaced row = IsKept row ⊎ IsReplaced row

  -- The marks of a failure touch neither.
  marked : KeptByFailure w KeptOrReplaced true
  unfolding set_document_status_detail
  marked = record {
    kept_by_detail = λ _ detail error row h. elim h [
      | inl k ↦ inl (record { content = k.content; name = k.name; status = k.status })
      | inr r ↦ inr (record {
        total = r.total;
        records = r.records;
        built = r.built;
        content = r.content;
        name = r.name;
        status = r.status;
      })
    ];
    kept_by_status = λ e. absurd (cc e);
    kept_by_delete = λ e. absurd (cc e);
  }

  -- The end of a replacement that succeeds.
  abbrev pub IsFinished : Row → Type 0
  IsFinished row = IsReplaced row × (row.status_detail ≡ none) × (row.error ≡ none)

  replaced :
      (built : ℕ × List ChunkRecord) (row : Row)
      → Built w built
      → IsReplaced (replace_document_content built.1 file_name row)
  unfolding replace_document_content
  replaced built row b = record {
    total = built.0;
    records = built.1;
    built = b;
    content = refl;
    name = refl;
    status = refl;
  }

  finish_replacement-Triple :
      (built : ℕ × List ChunkRecord)
      → Triple
          (λ row. Built w built × (row ≡ old))
          (finish_replacement w file_name built.1)
          (λ _. IsFinished)
          KeptOrReplaced
  unfolding finish_replacement apply replace_document_content
  finish_replacement-Triple built =
      bind-Triple _
        (λ _.
          bind-Triple _ (λ _. notify-Triple w IsFinished KeptOrReplaced)
            (perform-Triple w _ _ (λ row p. p) (λ row p. inr p.0) (λ row p. inr p.0)))
        (perform-Triple w _ _ (λ row p. (replaced built row p.0, refl, refl))
          (λ row p. inl (rw p.1 (record { content = refl; name = refl; status = refl })))
          (λ row p. inr (replaced built row p.0)))

  body-Triple :
      Triple
        (λ row. row ≡ old)
        (stage_chunks w true >>= λ built. finish_replacement w file_name built.1)
        (λ _. IsFinished)
        KeptOrReplaced
  body-Triple = bind-Triple _ finish_replacement-Triple (
      weaken-Triple (stage_chunks-Triple w (λ row. row ≡ old) true (λ e. absurd (cc e)))
        (λ a row h. h)
        (λ row p. inl (rw p (record { content = refl; name = refl; status = refl }))))

-- Whatever the database, the embeddings and the webhook do, where a call of the database that raises
-- may have changed the row or not: a replacement that succeeds ends with the whole new content,
-- completed and without an error, and one that fails leaves either the old content with its name and
-- status, or the whole new content as completed. New content has the sanitized new name.
pub process_document_background-replace :
    (w : Services) (file_name : List ℕ) (old : Row) (attempt : ℕ) (calls : List Call)
    → let safe_filename = sanitize_filename w.is_word file_name in
      let run =
        process_document_background w true file_name attempt
          (record { row = old; calls = calls }) in
      Post {A = Unit {0}}
        (λ _. IsFinished w safe_filename old)
        (KeptOrReplaced w safe_filename old)
        run.0
        run.1.row
unfolding process_document_background
process_document_background-replace w file_name old attempt calls =
    let safe_filename = sanitize_filename w.is_word file_name in
    let failed = KeptOrReplaced w safe_filename old in
    (catch-Triple _
        (λ e.
          handle_then_raise-Triple w failed e e true (some attempt)
            (λ _. IsFinished w safe_filename old) (marked w safe_filename old))
        (body-Triple w safe_filename old)).run
      (record { row = old; calls = calls }) refl
