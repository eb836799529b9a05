-- ===== src/Ingestion/Records/Offsets.antt =====
-- The offsets of chunk records.
use chatvector_ai.Chunking.Documents.{Metadata, Document, IsAt, IsChunk, IsSplitter}
use chatvector_ai.Chunking.Documents.Rebase.{start_of_marked}
use chatvector_ai.Chunking.Strategies.{Strategy, chunk_document_text}
use chatvector_ai.Chunking.Strategies.Places.{IsSentences}
use chatvector_ai.Chunking.Strategies.Chunks.{chunk_document_text-IsChunk}
use chatvector_ai.Ingestion.Records.{
  Embedding, PageBoundary, ChunkRecord, resolve_page_number, records_from, build_chunk_records,
}
use chatvector_ai.Prelude.{◌≡◌, refl, ◌≤◌, ℕ, ◌+◌, some, List, [], ◌∷◌, length, All}
use chatvector_ai.Prelude.Dict.{IsDict}

-- The records of `whole` from a chunk index on: each holds the text between its offsets, of at most
-- `size` characters, and the page of its first offset.
abbrev pub Recorded : ℕ → List ℕ → List PageBoundary → ℕ → List ChunkRecord → Type 0
Recorded size whole pages i [] = Unit
Recorded size whole pages i (r ∷ rs) =
    (r.chunk_index ≡ i)
    × IsAt whole r.character_offset_start r.chunk_text
    × (r.character_offset_end ≡ r.character_offset_start + length r.chunk_text)
    × (length r.chunk_text ≤ size)
    × (r.page_number ≡ resolve_page_number r.character_offset_start pages)
    × Recorded size whole pages (i + 1) rs

records_from-Recorded :
    (size : ℕ) (whole : List ℕ) (pages : List PageBoundary) (i : ℕ) (docs : List Document)
    (embeddings : List Embedding)
    → All (IsChunk size whole) docs
    → Recorded size whole pages i (records_from i docs embeddings pages)
unfolding records_from
records_from-Recorded size whole pages i [] embeddings h = tt
records_from-Recorded size whole pages i (doc ∷ docs) [] h = tt
records_from-Recorded size whole pages i (doc ∷ docs) (e ∷ embeddings) (c, h) = (
  refl,
  rw (start_of_marked doc.metadata c.marked) c.stands,
  refl,
  c.fits,
  refl,
  records_from-Recorded size whole pages (i + 1) docs embeddings h,
)

-- The records of a chunked text are numbered from 0, and each holds the very text between its two
-- character offsets, of at most `chunk_size` characters, with the page of its first offset, whatever
-- the strategy and the embeddings. The splitter and the sentences are as for
-- `chunk_document_text-IsChunk`.
pub build_chunk_records-Recorded :
    (c : Strategy) (strategy_name whole : List ℕ) (metadata : Metadata) (docs : List Document)
    (embeddings : List Embedding) (pages : List PageBoundary)
    → IsSplitter c.splitter
    → IsSentences c.sentence_spans
    → IsDict metadata
    → chunk_document_text c strategy_name whole metadata ≡ some docs
    → Recorded c.chunk_size whole pages 0 (build_chunk_records docs embeddings pages)
unfolding build_chunk_records
build_chunk_records-Recorded c strategy_name whole metadata docs embeddings pages lawful sentences
      dict e =
    records_from-Recorded c.chunk_size whole pages 0 docs embeddings
      (chunk_document_text-IsChunk c lawful sentences strategy_name whole metadata dict e)
