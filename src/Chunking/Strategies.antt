-- ===== src/Chunking/Strategies.antt =====
-- The chunking strategies (backend/services/ingestion_pipeline.py). The splitter and the sentences of
-- a text (NLTK's, or those of a regular expression) are arguments.
pub mod Places
pub mod Chunks
pub mod Spans
pub mod Sentences
use chatvector_ai.Text.{strip, lower, codes, same_text}
use chatvector_ai.Chunking.Lines.{is_blank}
use chatvector_ai.Chunking.Blocks.{TextBlock, iter_text_blocks}
use chatvector_ai.Chunking.Documents.{
  Metadata, Document, Splitter, slice, merge_metadata, rebase_documents,
  split_with_recursive_splitter,
}
use chatvector_ai.Prelude.{
  zero, suc, ℕ, ◌+◌, ◌-◌, ◌++◌, Bool, true, false, ◌&&◌, Option, none, some, List, [], ◌∷◌, map,
  length, drop, max, leb, ltb, ◌==◌, if◌then◌else◌,
}

pub record SentenceSpan : Type 0 where
  pub start_index : ℕ
  pub end_index : ℕ

-- `spans[i]`; that `i` is in range is part of what is proved of the loops.
abbrev pub get_elem? {ℓ} : {A : Type ℓ} → List A → ℕ → Option A
get_elem? [] i = none
get_elem? (x ∷ xs) zero = some x
get_elem? (x ∷ xs) (suc i) = get_elem? xs i

-- The collaborators and settings of a strategy; `chunk_overlap` is not negative.
pub record Strategy : Type 0 where
  pub splitter : Splitter
  pub sentence_spans : List ℕ → List SentenceSpan
  pub chunk_size : ℕ
  pub chunk_overlap : ℕ

module _ (c : Strategy) where
  -- `FixedChunkingStrategy.chunk_text`
  unfoldable pub chunk_fixed : List ℕ → Metadata → List Document
  chunk_fixed text metadata =
      split_with_recursive_splitter c.splitter text c.chunk_size c.chunk_overlap metadata

  -- A block as one chunk.
  block_document : TextBlock → Metadata → Document
  block_document block base_metadata = record {
    page_content = block.text;
    metadata = merge_metadata base_metadata [] (some block.start_index) block.heading;
  }

  -- The body of the loop over the blocks.
  chunk_block : Metadata → TextBlock → List Document
  unfolding block_document
  chunk_block base_metadata block =
      if leb (length block.text) c.chunk_size
      then block_document block base_metadata ∷ []
      else rebase_documents
          (split_with_recursive_splitter c.splitter block.text c.chunk_size c.chunk_overlap
            base_metadata)
          block.start_index base_metadata block.heading

  chunk_blocks : (Metadata → TextBlock → List Document) → Metadata → List TextBlock → List Document
  chunk_blocks chunk base_metadata [] = []
  chunk_blocks chunk base_metadata (block ∷ blocks) =
      chunk base_metadata block ++ chunk_blocks chunk base_metadata blocks

  -- `ParagraphChunkingStrategy.chunk_text`
  unfoldable pub chunk_paragraphs : List ℕ → Metadata → List Document
  unfolding chunk_block chunk_blocks
  chunk_paragraphs text metadata =
      if is_blank text then [] else chunk_blocks chunk_block metadata (iter_text_blocks text)

  -- `while overlap_start_idx > chunk_start_idx and ...`, from `overlap_start_idx` down
  overlap_start : List SentenceSpan → (chunk_start end_index : ℕ) → ℕ → ℕ
  overlap_start spans chunk_start end_index zero = zero
  overlap_start spans chunk_start end_index (suc i) =
      let earlier = overlap_start spans chunk_start end_index i in
      elim (get_elem? spans (suc i)) [
        | none ↦ suc i
        | some span ↦
            if ltb chunk_start (suc i) && ltb (end_index - span.start_index) c.chunk_overlap
            then earlier
            else suc i
      ]

  -- `_next_start_index`
  unfoldable pub next_start_index : List SentenceSpan → (chunk_start_idx chunk_end_idx : ℕ) → ℕ
  unfolding overlap_start
  next_start_index spans chunk_start_idx chunk_end_idx =
      if c.chunk_overlap == 0 then chunk_end_idx + 1 else elim (get_elem? spans chunk_end_idx) [
        | none ↦ chunk_end_idx + 1
        | some span ↦
            max (chunk_start_idx + 1)
              (overlap_start spans chunk_start_idx span.end_index chunk_end_idx)
      ]

  -- `while chunk_end_idx + 1 < len(spans)`: the spans behind the end of the chunk, and its end as an
  -- index of a span and as an offset.
  unfoldable pub extend_chunk : (chunk_start : ℕ) → List SentenceSpan → ℕ → ℕ → ℕ × ℕ
  extend_chunk chunk_start [] chunk_end_idx chunk_end = (chunk_end_idx, chunk_end)
  extend_chunk chunk_start (next ∷ spans) chunk_end_idx chunk_end =
      let longer = extend_chunk chunk_start spans (chunk_end_idx + 1) next.end_index in
      if ltb c.chunk_size (next.end_index - chunk_start) then (chunk_end_idx, chunk_end) else longer

  module _ (base_metadata : Metadata) (block : TextBlock) where
    -- `_split_large_sentence`, at its place in the text
    split_large_sentence : SentenceSpan → List Document
    split_large_sentence span =
        rebase_documents
          (split_with_recursive_splitter c.splitter
            (slice block.text span.start_index span.end_index) c.chunk_size c.chunk_overlap
            base_metadata)
          (block.start_index + span.start_index) base_metadata block.heading

    -- The chunk of the sentences between two offsets.
    sentences_document : (chunk_start chunk_end : ℕ) → Document
    sentences_document chunk_start chunk_end = record {
      page_content = slice block.text chunk_start chunk_end;
      metadata =
          merge_metadata base_metadata [] (some (block.start_index + chunk_start)) block.heading;
    }

    -- `while sentence_idx < len(spans)`, with fuel for the sentences left.
    sentence_loop : ℕ → List SentenceSpan → ℕ → List Document
    unfolding split_large_sentence sentences_document extend_chunk next_start_index
    sentence_loop zero spans i = []
    sentence_loop (suc fuel) spans i = elim (get_elem? spans i) [
      | none ↦ []
      | some first ↦
          let (chunk_end_idx, chunk_end) =
            extend_chunk first.start_index (drop (i + 1) spans) i first.end_index in
          let after_large = sentence_loop fuel spans (i + 1) in
          let after_chunk = sentence_loop fuel spans (next_start_index spans i chunk_end_idx) in
          if ltb c.chunk_size (first.end_index - first.start_index)
          then split_large_sentence first ++ after_large
          else sentences_document first.start_index chunk_end
            ∷ (if leb (length spans) (chunk_end_idx + 1) then [] else after_chunk)
    ]

    chunk_spans : List SentenceSpan → List Document
    unfolding sentence_loop block_document
    chunk_spans [] = block_document block base_metadata ∷ []
    chunk_spans (span ∷ spans) = sentence_loop (length (span ∷ spans)) (span ∷ spans) 0

  chunk_sentences : Metadata → TextBlock → List Document
  unfolding chunk_spans
  chunk_sentences base_metadata block =
      chunk_spans base_metadata block (c.sentence_spans block.text)

  -- `SemanticChunkingStrategy.chunk_text`
  unfoldable pub chunk_semantic : List ℕ → Metadata → List Document
  unfolding chunk_sentences chunk_blocks
  chunk_semantic text metadata =
      if is_blank text then [] else chunk_blocks chunk_sentences metadata (iter_text_blocks text)

  -- `build_chunking_strategy` and `chunk_text` of its result; `none` is the ValueError.
  unfoldable pub chunk_document_text : List ℕ → List ℕ → Metadata → Option (List Document)
  unfolding chunk_fixed chunk_paragraphs chunk_semantic
  chunk_document_text strategy_name text metadata =
      let selected = map lower (strip strategy_name) in
      if same_text selected (codes "fixed")
      then some (chunk_fixed text metadata)
      else if same_text selected (codes "paragraph")
      then some (chunk_paragraphs text metadata)
      else if same_text selected (codes "semantic")
      then some (chunk_semantic text metadata)
      else none
