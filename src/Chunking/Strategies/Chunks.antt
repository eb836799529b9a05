-- ===== src/Chunking/Strategies/Chunks.antt =====
-- Every chunk of every strategy is a piece of the text, marked with its position and of at most the
-- chunk size.
use mathlib.Core.Path.{subst}
use chatvector_ai.Text.{strip, lower, codes, same_text}
use chatvector_ai.Chunking.Lines.{is_blank}
use chatvector_ai.Chunking.Blocks.{TextBlock, is_kept, iter_text_blocks}
use chatvector_ai.Chunking.Blocks.Layout.{iter_text_blocks-Laid}
use chatvector_ai.Chunking.Documents.{Metadata, Document, IsChunk, IsSplitter}
use chatvector_ai.Chunking.Documents.Rebase.{
  split-IsChunk, rebase_documents-IsChunk, slice-IsAt, length-slice, IsAt-trans,
  merge_metadata-IsDict, start_index-merge_metadata,
}
use chatvector_ai.Chunking.Strategies.{
  SentenceSpan, Strategy, get_elem?, chunk_fixed, chunk_block, chunk_blocks, block_document,
  chunk_paragraphs, extend_chunk, split_large_sentence, sentences_document, sentence_loop,
  chunk_spans, chunk_sentences, chunk_semantic, chunk_document_text,
}
use chatvector_ai.Chunking.Strategies.Places.{
  IsBlock, blocks_laid, Within, IsSentences, span-Within,
}
use chatvector_ai.Prelude.{
  map, ◌≡◌, ◌≢◌, refl, ◌≤◌, arith, zero, suc, ℕ, ◌+◌, ◌-◌, Bool, true, false, Option, none, some,
  List, [], ◌∷◌, length, All, All-append, drop, leb, ltb, if◌then◌else◌, Bool-cases, Option-cases,
  inl, inr,
}
use chatvector_ai.Prelude.Dict.{IsDict}

All-unless {ℓ κ} :
    {A : Type ℓ} (P : A → Type κ) (b : Bool) (xs : List A) → All P xs → All P (if b then [] else xs)
All-unless P true xs h = tt
All-unless P false xs h = h

module _ (c : Strategy) (lawful : IsSplitter c.splitter)
    (sentences : IsSentences c.sentence_spans) where
  extend_chunk-fits :
      (chunk_start : ℕ) (spans : List SentenceSpan) (i end : ℕ)
      → end - chunk_start ≤ c.chunk_size
      → (extend_chunk c chunk_start spans i end).1 - chunk_start ≤ c.chunk_size
  unfolding extend_chunk
  extend_chunk-fits chunk_start [] i end h = h
  extend_chunk-fits chunk_start (next ∷ spans) i end h =
      ground (arith, extend_chunk-fits chunk_start spans (i + 1) next.end_index)

  module _ (whole : List ℕ) (metadata : Metadata) (dict : IsDict metadata) (block : TextBlock)
      (at : IsBlock whole block) where
    whole_block :
        length block.text ≤ c.chunk_size
        → IsChunk c.chunk_size whole (block_document c block metadata)
    unfolding block_document
    whole_block fits = record {
      position = block.start_index;
      marked = start_index-merge_metadata metadata [] block.start_index block.heading;
      stands = at.place;
      fits = fits;
      dict = merge_metadata-IsDict metadata [] (some block.start_index) block.heading dict;
    }

    chunk_block-IsChunk : All (IsChunk c.chunk_size whole) (chunk_block c metadata block)
    unfolding chunk_block
    chunk_block-IsChunk = elim (Bool-cases (leb (length block.text) c.chunk_size)) [
      | inl fits ↦ rw fits (whole_block (ground arith), tt)
      | inr long ↦ rw long (
          rebase_documents-IsChunk c.chunk_size _ metadata block.heading at.place dict
            (split-IsChunk block.text c.chunk_size c.chunk_overlap metadata lawful dict))
    ]

    sentences_document-IsChunk :
        (start end : ℕ)
        → start ≤ length block.text
        → end - start ≤ c.chunk_size
        → IsChunk c.chunk_size whole (sentences_document c metadata block start end)
    unfolding sentences_document
    sentences_document-IsChunk start end inside fits = record {
      position = block.start_index + start;
      marked = start_index-merge_metadata metadata [] (block.start_index + start) block.heading;
      stands = IsAt-trans at.place (slice-IsAt block.text start end inside);
      fits = omega (arith, length-slice block.text start end);
      dict =
          merge_metadata-IsDict metadata [] (some (block.start_index + start)) block.heading dict;
    }

    split_large_sentence-IsChunk :
        (s : SentenceSpan)
        → Within block.text s
        → All (IsChunk c.chunk_size whole) (split_large_sentence c metadata block s)
    unfolding split_large_sentence
    split_large_sentence-IsChunk s h =
        rebase_documents-IsChunk c.chunk_size _ metadata block.heading
          (IsAt-trans at.place (slice-IsAt block.text s.start_index s.end_index (omega arith))) dict
          (split-IsChunk _ c.chunk_size c.chunk_overlap metadata lawful dict)

    sentence_loop-IsChunk :
        (fuel : ℕ) (spans : List SentenceSpan) (i : ℕ)
        → All (Within block.text) spans
        → All (IsChunk c.chunk_size whole) (sentence_loop c metadata block fuel spans i)
    unfolding sentence_loop
    sentence_loop-IsChunk zero spans i h = tt
    sentence_loop-IsChunk (suc fuel) spans i h = elim (Option-cases (get_elem? spans i)) [
      | inl none_left ↦ rw (none_left, sentence_loop) tt
      | inr (first, e) ↦
          let (first_start, first_end) = span-Within block.text spans i h e in
          rw (e, sentence_loop)
            (elim (Bool-cases (ltb c.chunk_size (first.end_index - first.start_index))) [
              | inl large ↦ rw large (
                  All-append _ (split_large_sentence c metadata block first) _
                    (split_large_sentence-IsChunk first (first_start, first_end))
                    (sentence_loop-IsChunk fuel spans (i + 1) h))
              | inr fits ↦ rw fits (
                sentences_document-IsChunk first.start_index _ (omega arith) (
                    extend_chunk-fits first.start_index (drop (i + 1) spans) i first.end_index
                      (ground arith)),
                All-unless (IsChunk c.chunk_size whole) (leb (length spans) _) _
                    (sentence_loop-IsChunk fuel spans _ h),
              )
            ])
    ]

    chunk_spans-IsChunk :
        (spans : List SentenceSpan)
        → All (Within block.text) spans
        → spans ≢ []
        → All (IsChunk c.chunk_size whole) (chunk_spans c metadata block spans)
    unfolding chunk_spans
    chunk_spans-IsChunk [] h some_span = absurd (some_span refl)
    chunk_spans-IsChunk (s ∷ spans) h some_span =
        sentence_loop-IsChunk (length (s ∷ spans)) (s ∷ spans) 0 h

    not_blank : is_blank block.text ≡ false
    unfolding is_kept
    not_blank = let kept = at.kept in ground arith

    chunk_sentences-IsChunk : All (IsChunk c.chunk_size whole) (chunk_sentences c metadata block)
    unfolding chunk_sentences
    chunk_sentences-IsChunk =
        chunk_spans-IsChunk (c.sentence_spans block.text) (sentences.within block.text)
          (sentences.any_sentence block.text not_blank)

  chunk_blocks-IsChunk :
      (chunk : Metadata → TextBlock → List Document) (whole : List ℕ) (metadata : Metadata)
      (blocks : List TextBlock)
      → ((b : TextBlock) → IsBlock whole b → All (IsChunk c.chunk_size whole) (chunk metadata b))
      → All (IsBlock whole) blocks
      → All (IsChunk c.chunk_size whole) (chunk_blocks c chunk metadata blocks)
  unfolding chunk_blocks
  chunk_blocks-IsChunk chunk whole metadata [] each h = tt
  chunk_blocks-IsChunk chunk whole metadata (b ∷ blocks) each (h, hs) =
      All-append _ (chunk metadata b) _ (each b h)
        (chunk_blocks-IsChunk chunk whole metadata blocks each hs)

  abbrev AllChunks : List ℕ → Option (List Document) → Type 0
  AllChunks whole none = Unit
  AllChunks whole (some docs) = All (IsChunk c.chunk_size whole) docs

  AllChunks-chunk_document_text :
      (strategy_name whole : List ℕ) (metadata : Metadata)
      → IsDict metadata
      → AllChunks whole (chunk_document_text c strategy_name whole metadata)
  unfolding chunk_document_text chunk_fixed chunk_paragraphs chunk_semantic
  AllChunks-chunk_document_text strategy_name whole metadata dict =
      let selected = map lower (strip strategy_name) in
      let blocks = blocks_laid (iter_text_blocks-Laid whole) in
      elim (Bool-cases (same_text selected (codes "fixed"))) [
        | inl fixed ↦
            rw fixed (split-IsChunk whole c.chunk_size c.chunk_overlap metadata lawful dict)
        | inr other ↦ rw other (elim (Bool-cases (same_text selected (codes "paragraph"))) [
          | inl paragraph ↦ rw paragraph (
              All-unless (IsChunk c.chunk_size whole) (is_blank whole) _ (
                chunk_blocks-IsChunk (chunk_block c) whole metadata (iter_text_blocks whole)
                  (chunk_block-IsChunk whole metadata dict) blocks))
          | inr neither ↦ rw neither (elim (Bool-cases (same_text selected (codes "semantic"))) [
            | inl semantic ↦ rw semantic (
                All-unless (IsChunk c.chunk_size whole) (is_blank whole) _ (
                  chunk_blocks-IsChunk (chunk_sentences c) whole metadata (iter_text_blocks whole)
                    (chunk_sentences-IsChunk whole metadata dict) blocks))
            | inr unknown ↦ rw unknown tt
          ])
        ])
      ]

  -- Whatever the strategy, every chunk is a piece of the text that stands where the chunk's
  -- start_index says, and it has at most `chunk_size` characters. The splitter is assumed to give such
  -- chunks of what it is given, and the sentences of a text to lie in it, in order, at least one in
  -- a text that is not blank.
  pub chunk_document_text-IsChunk :
      (strategy_name whole : List ℕ) (metadata : Metadata)
      → IsDict metadata
      → {docs : List Document} → chunk_document_text c strategy_name whole metadata ≡ some docs
      → All (IsChunk c.chunk_size whole) docs
  unfolding chunk_document_text
  chunk_document_text-IsChunk strategy_name whole metadata dict e =
      subst (AllChunks whole) e (AllChunks-chunk_document_text strategy_name whole metadata dict)
