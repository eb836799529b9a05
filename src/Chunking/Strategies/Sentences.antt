-- ===== src/Chunking/Strategies/Sentences.antt =====
-- The semantic strategy loses no sentence.

use chatvector_ai.Chunking.Lines.{is_blank}
use chatvector_ai.Chunking.Blocks.{TextBlock, iter_text_blocks}
use chatvector_ai.Chunking.Documents.{index, Metadata, Document}
use chatvector_ai.Chunking.Documents.Rebase.{length-slice, start_index-merge_metadata}
use chatvector_ai.Chunking.Strategies.{
  SentenceSpan, Strategy, get_elem?, extend_chunk, split_large_sentence, sentences_document,
  sentence_loop, chunk_spans, chunk_blocks, chunk_sentences, chunk_semantic,
}
use chatvector_ai.Chunking.Strategies.Spans.{
  get_elem?-lt-length, length-le_of_none, get_elem?-drop, spans_ordered, next_start_index_bounds,
  extend_chunk_end,
}
use chatvector_ai.Chunking.Strategies.Places.{Within, FromOn, IsSentences, span-Within}
use chatvector_ai.Prelude.{
  ap, ◌≡◌, ◌⊎◌, ◌≤◌, ◌<◌, arith, zero, suc, ℕ, ◌+◌, ◌-◌, ◌++◌, false, some, List, [], ◌∷◌, length,
  All, drop, leb, ltb, if◌then◌else◌, Bool-cases, Option-cases, inl, inr,
}
use chatvector_ai.Prelude.Dict.{lookup}

-- Some chunk, by its start_index and length, spans the positions from `a` to `b`.
abbrev pub Spans : ℕ → ℕ → Document → Type 0
Spans a b d =
    (n : ℕ) × (lookup "start_index" d.metadata ≡ some (index n))
    × (n ≤ a)
    × (b ≤ n + length d.page_content)

abbrev pub Any {ℓ} : {A : Type ℓ} → (A → Type 0) → List A → Type 0
Any P [] = ⊥
Any P (x ∷ xs) = P x ⊎ Any P xs

Any-append_left {ℓ} : {A : Type ℓ} (P : A → Type 0) (xs ys : List A) → Any P xs → Any P (xs ++ ys)
Any-append_left P (x ∷ xs) ys (inl h) = inl h
Any-append_left P (x ∷ xs) ys (inr h) = inr (Any-append_left P xs ys h)
Any-append_left P [] ys h = absurd h

Any-append_right {ℓ} : {A : Type ℓ} (P : A → Type 0) (xs ys : List A) → Any P ys → Any P (xs ++ ys)
Any-append_right P [] ys h = h
Any-append_right P (x ∷ xs) ys h = inr (Any-append_right P xs ys h)

lt_of_not_leb : (a b : ℕ) → leb a b ≡ false → b < a
lt_of_not_leb a b h = ground arith

Any-unless {ℓ} :
    {A : Type ℓ} (P : A → Type 0) (a b : ℕ) (xs : List A)
    → b < a
    → Any P xs
    → Any P (if leb a b then [] else xs)
Any-unless P a b xs h any = let e : leb a b ≡ false = ground arith in rw e any

module _ (c : Strategy) (metadata : Metadata) (block : TextBlock) (spans : List SentenceSpan)
    (within : All (Within block.text) spans) (ordered : FromOn 0 spans) where
  -- A chunk of sentences holds those from its first to its last one.
  sentences_document-Spans :
      (i k e : ℕ) {first s last : SentenceSpan}
      → get_elem? spans i ≡ some first
      → get_elem? spans k ≡ some s
      → get_elem? spans e ≡ some last
      → i ≤ k
      → k ≤ e
      → Spans
          (block.start_index + s.start_index)
          (block.start_index + s.end_index)
          (sentences_document c metadata block first.start_index last.end_index)
  unfolding sentences_document
  sentences_document-Spans i k e {first} {s} {last} at_i at_k at_e h g =
      let (first_start, first_end) = span-Within block.text spans i within at_i in
      let (last_start, last_end) = span-Within block.text spans e within at_e in
      let (starts, ends) = spans_ordered block.text 0 spans i k ordered within h at_i at_k in
      let (starts', ends') = spans_ordered block.text 0 spans k e ordered within g at_k at_e in
      (
        block.start_index + first.start_index,
        start_index-merge_metadata metadata [] (block.start_index + first.start_index)
            block.heading,
        omega arith,
        omega (arith, length-slice block.text first.start_index last.end_index),
      )

  -- Behind a sentence that does not fit comes the one that does.
  lt_of_large :
      (i k : ℕ) {first s : SentenceSpan}
      → i ≤ k
      → get_elem? spans i ≡ some first
      → get_elem? spans k ≡ some s
      → c.chunk_size < first.end_index - first.start_index
      → s.end_index - s.start_index ≤ c.chunk_size
      → i < k
  lt_of_large i k {first} {s} h at_i at_k large fits = elim (Bool-cases (ltb i k)) [
    | inl lt ↦ ground arith
    | inr ge ↦
        let q : i ≡ k = ground arith in
        let same : first ≡ s = cc in
        absurd (omega (arith, ap (λ (t : SentenceSpan). t.end_index - t.start_index) same))
  ]

  -- With a round of fuel for each sentence from `i` on, each of them that fits into a chunk is in one.
  sentence_loop-Any :
      (fuel i k : ℕ) {s : SentenceSpan}
      → length spans ≤ i + fuel
      → i ≤ k
      → get_elem? spans k ≡ some s
      → s.end_index - s.start_index ≤ c.chunk_size
      → Any
          (Spans (block.start_index + s.start_index) (block.start_index + s.end_index))
          (sentence_loop c metadata block fuel spans i)
  unfolding sentence_loop
  sentence_loop-Any zero i k enough h found fits =
      absurd (omega (arith, get_elem?-lt-length spans k found))
  sentence_loop-Any (suc fuel) i k {s} enough h found fits =
      elim (Option-cases (get_elem? spans i)) [
        | inl none_left ↦
            absurd (
              omega (arith, get_elem?-lt-length spans k found, length-le_of_none spans i none_left))
        | inr (first, e) ↦
            rw (e, sentence_loop)
              (elim (Bool-cases (ltb c.chunk_size (first.end_index - first.start_index))) [
                | inl large ↦ rw large (
                    Any-append_right _ (split_large_sentence c metadata block first) _ (
                      sentence_loop-Any fuel (i + 1) k (omega arith)
                        (let l = lt_of_large i k h e found (ground arith) fits in omega arith) found
                        fits))
                | inr small ↦
                    let (further, (last, at_last, ends)) =
                      extend_chunk_end c spans first.start_index (drop (i + 1) spans) i first
                        (get_elem?-drop (i + 1) spans) e in
                    let (later, next) =
                      next_start_index_bounds c spans i
                        (extend_chunk c first.start_index (drop (i + 1) spans) i first.end_index).0
                        further in
                    rw small
                      (elim (Bool-cases (
                        leb k
                          (extend_chunk c first.start_index (drop (i + 1) spans) i
                            first.end_index).0)) [
                              | inl inside ↦ inl (
                                  rw (← ends) (
                                    sentences_document-Spans i k _ e found at_last h
                                      (ground arith)))
                              | inr beyond ↦ inr (
                                  Any-unless _ (length spans) _ _
                                    (omega (
                                      arith,
                                      get_elem?-lt-length spans k found,
                                      lt_of_not_leb k _ beyond,
                                    ))
                                    (sentence_loop-Any fuel _ k (omega arith)
                                      (omega (arith, lt_of_not_leb k _ beyond)) found fits))
                            ])
              ])
      ]

module _ (c : Strategy) (sentences : IsSentences c.sentence_spans) (metadata : Metadata) where
  -- The sentence `s` of a block, if it fits into a chunk, is in one of `docs`.
  abbrev pub Kept : List Document → TextBlock → Type 0
  Kept docs b =
      (k : ℕ) (s : SentenceSpan)
      → get_elem? (c.sentence_spans b.text) k ≡ some s
      → s.end_index - s.start_index ≤ c.chunk_size
      → Any (Spans (b.start_index + s.start_index) (b.start_index + s.end_index)) docs

  chunk_spans-Any :
      (b : TextBlock) (spans : List SentenceSpan)
      → All (Within b.text) spans
      → FromOn 0 spans
      → (k : ℕ) (s : SentenceSpan) → get_elem? spans k ≡ some s
      → s.end_index - s.start_index ≤ c.chunk_size
      → Any
          (Spans (b.start_index + s.start_index) (b.start_index + s.end_index))
          (chunk_spans c metadata b spans)
  unfolding chunk_spans
  chunk_spans-Any b [] within ordered k s found fits = absurd (cc found)
  chunk_spans-Any b (t ∷ spans) within ordered k s found fits =
      sentence_loop-Any c metadata b (t ∷ spans) within ordered (length (t ∷ spans)) 0 k
        (omega arith) (omega arith) found fits

  Kept-append_left :
      (docs more : List Document) (blocks : List TextBlock)
      → All (Kept docs) blocks
      → All (Kept (more ++ docs)) blocks
  Kept-append_left docs more [] h = tt
  Kept-append_left docs more (b ∷ blocks) (h, hs) = (
    λ k s found fits. Any-append_right _ more docs (h k s found fits),
    Kept-append_left docs more blocks hs,
  )

  chunk_blocks-Kept :
      (blocks : List TextBlock)
      → All (Kept (chunk_blocks c (chunk_sentences c) metadata blocks)) blocks
  unfolding chunk_blocks chunk_sentences
  chunk_blocks-Kept [] = tt
  chunk_blocks-Kept (b ∷ blocks) = (
    λ k s found fits. Any-append_left _ (chunk_sentences c metadata b) _ (
        chunk_spans-Any b (c.sentence_spans b.text) (sentences.within b.text)
          (sentences.ordered b.text) k s found fits),
    Kept-append_left (chunk_blocks c (chunk_sentences c) metadata blocks)
        (chunk_sentences c metadata b) blocks (chunk_blocks-Kept blocks),
  )

  -- The semantic strategy ends with every sentence of at most `chunk_size` characters, of every
  -- block of the text, whole within one chunk, whatever the overlap: the loop over the sentences of a
  -- block needs no more rounds than there are sentences, and skips none. Of the sentences it is
  -- assumed that they lie in the text, in order.
  pub chunk_semantic-Kept :
      (whole : List ℕ)
      → is_blank whole ≡ false
      → All (Kept (chunk_semantic c whole metadata)) (iter_text_blocks whole)
  unfolding chunk_semantic
  chunk_semantic-Kept whole text = rw text (chunk_blocks-Kept (iter_text_blocks whole))
