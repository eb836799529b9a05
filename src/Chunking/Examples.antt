-- ===== src/Chunking/Examples.antt =====
-- A text of two blocks with a heading, cut with the splitter that the code brings and with every
-- character as a sentence.
use chatvector_ai.Text.{codes, drop_spaces}
use chatvector_ai.Chunking.Lines.{
  joined, rstrip_breaks, is_blank, extract_heading, is_heading_only_block,
}
use chatvector_ai.Chunking.Blocks.{TextBlock, iter_text_blocks}
use chatvector_ai.Chunking.Blocks.Layout.{Laid, iter_text_blocks-Laid}
use chatvector_ai.Chunking.Documents.{IsChunk, slice, Document}
use chatvector_ai.Chunking.Documents.Fallback.{rejoin-fallback_splitter, rejoin, fallback_splitter}
use chatvector_ai.Chunking.Strategies.{SentenceSpan, Strategy, chunk_semantic}
use chatvector_ai.Chunking.Strategies.Places.{Within, FromOn, IsSentences}
use chatvector_ai.Chunking.Strategies.Sentences.{Kept, chunk_semantic-Kept}
use chatvector_ai.Prelude.{
  ◌<◌, ◌≡◌, ◌≢◌, refl, ◌≤◌, arith, ℕ, ◌+◌, false, List, [], ◌∷◌, length, All, map,
}

abbrev pub sample : List ℕ
sample = codes "# T\nab cd\n\n## U\n\nefg\r\n"

abbrev pub spans_from : ℕ → List ℕ → List SentenceSpan
spans_from n [] = []
spans_from n (c ∷ s) = record { start_index = n; end_index = n + 1 } ∷ spans_from (n + 1) s

spans-Within :
    (text : List ℕ) (n : ℕ) (s : List ℕ)
    → n + length s ≤ length text
    → All (Within text) (spans_from n s)
spans-Within text n [] h = tt
spans-Within text n (c ∷ s) h =
    ((omega arith, omega arith), spans-Within text (n + 1) s (omega arith))

spans_ordered : (n : ℕ) (s : List ℕ) → FromOn n (spans_from n s)
spans_ordered n [] = tt
spans_ordered n (c ∷ s) = (omega arith, spans_ordered (n + 1) s)

any_span : (text : List ℕ) → is_blank text ≡ false → spans_from 0 text ≢ []
unfolding is_blank drop_spaces
any_span [] h e = cc
any_span (c ∷ s) h e = cc

pub characters-IsSentences : IsSentences (spans_from 0)
characters-IsSentences = record {
  within = λ text. spans-Within text 0 text (omega arith);
  ordered = λ text. spans_ordered 0 text;
  any_sentence = any_span;
}

abbrev pub strategy : Strategy
strategy = record {
  splitter = fallback_splitter;
  sentence_spans = spans_from 0;
  chunk_size = 4;
  chunk_overlap = 1;
}

blocks_of_sample : map (λ (b : TextBlock). b.start_index) (iter_text_blocks sample) ≡ 0 ∷ 17 ∷ []
unfolding iter_text_blocks extract_heading rstrip_breaks is_blank joined is_heading_only_block
blocks_of_sample = refl

chunks_of_sample :
    map (λ (d : Document). d.page_content) (chunk_semantic strategy sample [])
    ≡ codes "# T\n" ∷ codes "\nab " ∷ codes " cd\n" ∷ codes "efg\r" ∷ codes "\r\n" ∷ []
unfolding chunk_semantic iter_text_blocks is_blank extract_heading rstrip_breaks joined
    is_heading_only_block slice
chunks_of_sample = refl

iter_text_blocks-Laid_example : Laid sample (iter_text_blocks sample)
iter_text_blocks-Laid_example = iter_text_blocks-Laid sample

chunk_semantic-Kept_example :
    All
      (Kept strategy characters-IsSentences [] (chunk_semantic strategy sample []))
      (iter_text_blocks sample)
unfolding is_blank
chunk_semantic-Kept_example = chunk_semantic-Kept strategy characters-IsSentences [] sample refl

smaller : 1 < 4
smaller = omega arith

rejoin-fallback_splitter_example :
    let docs = fallback_splitter.create_documents 4 1 sample [] in
    All (IsChunk 4 sample) docs × (rejoin 1 docs ≡ sample)
rejoin-fallback_splitter_example = rejoin-fallback_splitter 4 1 sample [] smaller tt
