-- ===== src/Ingestion/Records.antt =====
-- Chunk records with their page numbers (backend/services/ingestion_pipeline.py,
-- `_resolve_page_number` and `_build_chunk_records`; ChunkRecord is that of backend/db/base.py).
pub mod Offsets
use chatvector_ai.Chunking.Documents.{Document, start_of}
use chatvector_ai.Prelude.{
  zero, suc, ℕ, ◌+◌, ◌-◌, Option, none, some, List, [], ◌∷◌, map, length, leb, if◌then◌else◌,
}

-- An embedding is only passed on; a number names it.
abbrev pub Embedding : Type 0
Embedding = ℕ

pub record PageBoundary : Type 0 where
  pub page_number : ℕ
  pub start_offset : ℕ
  pub end_offset : ℕ

pub record ChunkRecord : Type 0 where
  pub chunk_text : List ℕ
  pub embedding : Embedding
  pub chunk_index : ℕ
  pub character_offset_start : ℕ
  pub character_offset_end : ℕ
  pub page_number : Option ℕ

-- `bisect.bisect_right` of numbers in order: how many of them, from the first on, are at most `x`.
unfoldable pub bisect_right : List ℕ → ℕ → ℕ
bisect_right [] x = 0
bisect_right (n ∷ ns) x = let rest = bisect_right ns x in if leb n x then suc rest else 0

-- `page_boundaries[i].page_number` of boundaries of which there is a first
unfoldable pub page_at : PageBoundary → List PageBoundary → ℕ → ℕ
page_at first more zero = first.page_number
page_at first [] (suc i) = first.page_number
page_at first (next ∷ more) (suc i) = page_at next more i

-- `_resolve_page_number`; `- 1` and `max(0, ·)` are the subtraction that stops at 0.
unfoldable pub resolve_page_number : ℕ → List PageBoundary → Option ℕ
unfolding bisect_right page_at
resolve_page_number offset [] = none
resolve_page_number offset (first ∷ more) = some (
    page_at first more
      (bisect_right (map (λ (b : PageBoundary). b.start_offset) (first ∷ more)) offset - 1))

-- `enumerate(zip(docs, embeddings))` from a chunk index on
records_from : ℕ → List Document → List Embedding → List PageBoundary → List ChunkRecord
unfolding resolve_page_number start_of
records_from i [] embeddings boundaries = []
records_from i (doc ∷ docs) [] boundaries = []
records_from i (doc ∷ docs) (embedding ∷ embeddings) boundaries =
    record {
      chunk_text = doc.page_content;
      embedding = embedding;
      chunk_index = i;
      character_offset_start = start_of doc.metadata;
      character_offset_end = start_of doc.metadata + length doc.page_content;
      page_number = resolve_page_number (start_of doc.metadata) boundaries;
    }
    ∷ records_from (i + 1) docs embeddings boundaries

-- `_build_chunk_records`
unfoldable pub build_chunk_records :
    List Document → List Embedding → List PageBoundary → List ChunkRecord
unfolding records_from
build_chunk_records docs embeddings boundaries = records_from 0 docs embeddings boundaries
