-- ===== src/Chunking/Documents/Fallback.antt =====
-- The splitter that stands in for LangChain's where that is missing
-- (backend/services/ingestion_pipeline.py, `RecursiveCharacterTextSplitter`).
use chatvector_ai.Chunking.Documents.{
  drop, index, Metadata, Document, slice, IsChunk, Splitter, IsSplitter,
}
use chatvector_ai.Chunking.Documents.Rebase.{slice-IsAt, length-slice}
use chatvector_ai.Prelude.{
  ◌≡◌, ◌≤◌, ◌<◌, ◌++◌, ◌∙◌, sym, ap, drop, take-append-drop, false, refl, ◌-◌, arith, zero, suc, ℕ,
  ◌+◌, List, [], ◌∷◌, length, All, max, min, leb, if◌then◌else◌, Bool-cases, inl, inr,
}
use chatvector_ai.Prelude.Dict.{IsDict, assign, IsDict-assign, lookup-assign}

-- The `while` loop on one text, with fuel above the number of characters left.
create_from : ℕ → (chunk_size step : ℕ) → List ℕ → Metadata → ℕ → List Document
unfolding slice assign
create_from zero chunk_size step whole metadata start = []
create_from (suc fuel) chunk_size step whole metadata start =
    let end = min (length whole) (start + chunk_size) in
    let doc : Document = record {
      page_content = slice whole start end;
      metadata = assign "start_index" (index start) metadata;
    } in
    let rest = create_from fuel chunk_size step whole metadata (start + step) in
    if leb (length whole) start then [] else doc ∷ (if leb (length whole) end then [] else rest)

-- `create_documents` on one text, with `add_start_index`.
unfoldable pub fallback_splitter : Splitter
unfolding create_from
fallback_splitter = record {
  create_documents = λ chunk_size chunk_overlap whole metadata.
      create_from (length whole) chunk_size (max 1 (chunk_size - chunk_overlap)) whole metadata 0;
}

create_from-IsChunk :
    (fuel chunk_size step : ℕ) (whole : List ℕ) (metadata : Metadata) (start : ℕ)
    → IsDict metadata
    → All (IsChunk chunk_size whole) (create_from fuel chunk_size step whole metadata start)
unfolding create_from
create_from-IsChunk zero chunk_size step whole metadata start h = tt
create_from-IsChunk (suc fuel) chunk_size step whole metadata start h =
    elim (Bool-cases (leb (length whole) start)) [
      | inl over ↦ rw over tt
      | inr inside ↦ rw inside (
        record {
          position = start;
          marked = rw lookup-assign refl;
          stands = slice-IsAt whole start _ (ground arith);
          fits = omega (arith, length-slice whole start (min (length whole) (start + chunk_size)));
          dict = IsDict-assign "start_index" (index start) metadata h;
        },
        elim (Bool-cases (leb (length whole) (min (length whole) (start + chunk_size)))) [
          | inl last ↦ rw last tt
          | inr more ↦
              rw more (create_from-IsChunk fuel chunk_size step whole metadata (start + step) h)
        ],
      )
    ]

-- The splitter that the code brings itself keeps what is asked of a splitter: its chunks are pieces of
-- the text, marked with their positions and no longer than the chunk size.
pub fallback_splitter-IsSplitter : IsSplitter fallback_splitter
unfolding fallback_splitter
fallback_splitter-IsSplitter = record {
  creates_chunks = λ size overlap whole metadata h.
      create_from-IsChunk (length whole) size (max 1 (size - overlap)) whole metadata 0 h;
}

-- The contents of chunks that follow another one, each without its first characters.
abbrev without_overlap : ℕ → List Document → List ℕ
without_overlap overlap [] = []
without_overlap overlap (d ∷ ds) = drop overlap d.page_content ++ without_overlap overlap ds

-- The chunks put together, with what each repeats of the one before left out.
abbrev pub rejoin : ℕ → List Document → List ℕ
rejoin overlap [] = []
rejoin overlap (d ∷ ds) = d.page_content ++ without_overlap overlap ds

-- `overlap` characters at least are in the first chunk.
abbrev Begins : ℕ → List Document → Type 0
Begins overlap [] = ⊥
Begins overlap (d ∷ ds) = overlap ≤ length d.page_content

drop-drop : (m n k : ℕ) (s : List ℕ) → k ≡ m + n → drop n (drop m s) ≡ drop k s
drop-drop zero n k s e = ap (λ (i : ℕ). drop i s) (omega (arith, e))
drop-drop (suc m) zero zero s e = absurd (omega (arith, e))
drop-drop (suc m) zero (suc k) [] e = refl
drop-drop (suc m) (suc n) zero s e = absurd (omega (arith, e))
drop-drop (suc m) (suc n) (suc k) [] e = refl
drop-drop (suc m) n (suc k) (c ∷ s) e = drop-drop m n k s (omega (arith, e))

drop-left : (n : ℕ) (s t : List ℕ) → n ≤ length s → drop n (s ++ t) ≡ drop n s ++ t
drop-left zero s t h = refl
drop-left (suc n) [] t h = absurd (omega (arith, h))
drop-left (suc n) (c ∷ s) t h = drop-left n s t (omega (arith, h))

drop-all : (n : ℕ) (s : List ℕ) → length s ≤ n → drop n s ≡ []
drop-all zero [] h = refl
drop-all zero (c ∷ s) h = absurd (omega (arith, h))
drop-all (suc n) [] h = refl
drop-all (suc n) (c ∷ s) h = drop-all n s (omega (arith, h))

slice-drop : (s : List ℕ) (a b : ℕ) → a ≤ b → slice s a b ++ drop b s ≡ drop a s
unfolding slice
slice-drop s a b h =
    ap (λ t. slice s a b ++ t) (sym (drop-drop a (b - a) b s (omega (arith, h))))
    ∙ take-append-drop (b - a) (drop a s)

without_overlap-drop :
    (overlap : ℕ) (ds : List Document)
    → Begins overlap ds
    → without_overlap overlap ds ≡ drop overlap (rejoin overlap ds)
without_overlap-drop overlap [] h = absurd h
without_overlap-drop overlap (d ∷ ds) h =
    sym (drop-left overlap d.page_content (without_overlap overlap ds) h)

module _ (overlap size : ℕ) (whole : List ℕ) (metadata : Metadata) (smaller : overlap < size) where
  from : ℕ → ℕ → List Document
  unfolding create_from
  from fuel start = create_from fuel size (size - overlap) whole metadata start

  create_from-Begins :
      (fuel start : ℕ)
      → start + overlap < length whole
      → length whole ≤ start + fuel
      → Begins overlap (from fuel start)
  unfolding from create_from
  create_from-Begins zero start h enough = absurd (omega (arith, h, enough))
  create_from-Begins (suc fuel) start h enough =
      let inside : leb (length whole) start ≡ false = ground arith in
      rw inside
        (omega (arith, h, smaller, length-slice whole start (min (length whole) (start + size))))

  rejoin-create_from :
      (fuel start : ℕ)
      → start < length whole
      → length whole ≤ start + fuel
      → rejoin overlap (from fuel start) ≡ drop start whole
  unfolding from create_from
  rejoin-create_from zero start h enough = absurd (omega (arith, h, enough))
  rejoin-create_from (suc fuel) start h enough =
      let inside : leb (length whole) start ≡ false = ground arith in
      let end = min (length whole) (start + size) in
      let pieces : slice whole start end ++ drop end whole ≡ drop start whole =
        slice-drop whole start end (omega (arith, h)) in
      elim (Bool-cases (leb (length whole) end)) [
        | inl last ↦
            rw (inside, last)
              (ap (λ t. slice whole start end ++ t) (sym (drop-all end whole (ground arith)))
                ∙ pieces)
        | inr more ↦
            let later = start + (size - overlap) in
            let within : later + overlap < length whole = ground arith in
            let end_is : end ≡ start + size = ground arith in
            let begins = create_from-Begins fuel later within (omega (arith, smaller, enough)) in
            let rest =
              rejoin-create_from fuel later (omega (arith, within))
                (omega (arith, smaller, enough)) in
            rw (inside, more)
              (ap (λ t. slice whole start end ++ t)
                  (without_overlap-drop overlap (from fuel later) begins
                    ∙ ap (drop overlap) rest
                    ∙ drop-drop later overlap end whole (omega (arith, within, smaller, end_is)))
                ∙ pieces)
      ]

-- With an overlap below the chunk size, and metadata whose keys are distinct, the chunks of the splitter
-- that the code brings itself are pieces of the text, marked with their positions and no longer than
-- the chunk size, and together they are the text: it is what they make one after the other, with the
-- overlap left out of each but the first.
pub rejoin-fallback_splitter :
    (size overlap : ℕ) (whole : List ℕ) (metadata : Metadata)
    → overlap < size
    → IsDict metadata
    → let docs = fallback_splitter.create_documents size overlap whole metadata in
      All (IsChunk size whole) docs × (rejoin overlap docs ≡ whole)
unfolding fallback_splitter from
rejoin-fallback_splitter size overlap [] metadata smaller dict = (tt, refl)
rejoin-fallback_splitter size overlap (c ∷ s) metadata smaller dict =
    let step : max 1 (size - overlap) ≡ size - overlap = omega (arith, smaller) in
    (
      fallback_splitter-IsSplitter.creates_chunks size overlap (c ∷ s) metadata dict,
      rw step (
          rejoin-create_from overlap size (c ∷ s) metadata smaller (length (c ∷ s)) 0 (omega arith)
            (omega arith)),
    )
