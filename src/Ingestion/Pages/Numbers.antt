-- ===== src/Ingestion/Pages/Numbers.antt =====
-- Page numbers of offsets in the prepared text.
use mathlib.Core.Path.{subst}
use mathlib.Core.List.{append_assoc}
use chatvector_ai.Text.{join, codes}
use chatvector_ai.Chunking.Documents.{slice}
use chatvector_ai.Chunking.Strategies.{get_elem?}
use chatvector_ai.Ingestion.Records.{PageBoundary}
use chatvector_ai.Ingestion.Pages.{
  extract_from, extract_pages, prepare_pages, prepare_extracted_document_for_chunking,
}
use chatvector_ai.Ingestion.Pages.Tiles.{
  Source, Placed, Numbered, Tiled-prepare_pages, Placed-join, Numbered-all,
}
use chatvector_ai.Prelude.{
  ◌≡◌, refl, ap, arith, ℕ, ◌+◌, ◌-◌, ◌++◌, false, some, List, [], ◌∷◌, length, length-append, take,
  drop, All,
}

drop-append : (before rest : List ℕ) → drop (length before) (before ++ rest) ≡ rest
drop-append [] rest = refl
drop-append (c ∷ before) rest = drop-append before rest

take-append : (part rest : List ℕ) → take (length part) (part ++ rest) ≡ part
take-append [] rest = refl
take-append (c ∷ part) rest = ap (λ s. c ∷ s) (take-append part rest)

slice-append :
    (before part after : List ℕ) (n : ℕ)
    → n ≡ length before
    → slice (before ++ (part ++ after)) n (n + length part) ≡ part
unfolding slice
slice-append before part after n h =
    let e : n + length part - n ≡ length part = omega arith in
    let dropped : drop n (before ++ (part ++ after)) ≡ part ++ after =
      rw h (drop-append before (part ++ after)) in
    rw (e, dropped) (take-append part after)

get_elem?-append :
    (read rest : List (List ℕ)) (text : List ℕ)
    → get_elem? (read ++ text ∷ rest) (length read) ≡ some text
get_elem?-append [] rest text = refl
get_elem?-append (t ∷ read) rest text = get_elem?-append read rest text

module _ (clean : List ℕ → List ℕ) (texts : List (List ℕ)) where
  -- The raw text of a page lies between its boundaries.
  sources :
      (read rest : List (List ℕ)) (before : List ℕ) (n cursor : ℕ)
      → texts ≡ read ++ rest
      → n ≡ length read + 1
      → cursor ≡ length before
      → All
          (Source clean texts (before ++ (extract_from n cursor rest).0))
          (extract_from n cursor rest).1
  unfolding extract_from Source
  sources read [] before n cursor e number start = tt
  sources read (text ∷ rest) before n cursor e number start =
      let page = text ++ codes "\n" in
      let more = extract_from (n + 1) (cursor + length page) rest in
      (
        (
          length read,
          text,
          number,
          rw e (get_elem?-append read rest text),
          slice-append before page more.0 cursor start,
        ),
        subst (λ whole. All (Source clean texts whole) more.1) (append_assoc before page more.0)
            (sources (read ++ text ∷ []) rest (before ++ page) (n + 1) (cursor + length page)
              (rw (append_assoc read (text ∷ []) rest) e)
              (omega (arith, length-append read (text ∷ [])))
              (omega (arith, length-append before page))),
      )

  -- A page's part of the prepared text, and the page number of its offsets.
  pub HasPage : List ℕ → List PageBoundary → PageBoundary → Type 0
  HasPage whole pages b = Placed clean texts whole b × Numbered clean texts 0 pages b

  has_pages :
      (whole : List ℕ) (pages bs : List PageBoundary)
      → All (Placed clean texts whole) bs
      → All (Numbered clean texts 0 pages) bs
      → All (HasPage whole pages) bs
  unfolding HasPage
  has_pages whole pages [] h k = tt
  has_pages whole pages (b ∷ bs) (h, hs) (k, ks) = ((h, k), has_pages whole pages bs hs ks)

  prepared_pages :
      (raw : List ℕ) (bs : List PageBoundary)
      → All (Source clean texts raw) bs
      → let prepared = prepare_extracted_document_for_chunking clean raw bs in
        All (HasPage prepared.0 prepared.1) prepared.1
  unfolding prepare_extracted_document_for_chunking
  prepared_pages raw [] h = tt
  prepared_pages raw (b ∷ bs) h =
      let prepared = prepare_pages clean raw false 0 (b ∷ bs) in
      let tiled = Tiled-prepare_pages clean texts raw false 0 (b ∷ bs) h in
      has_pages (join (codes " ") prepared.0) prepared.1 prepared.1
        (Placed-join clean texts [] 0 prepared.0 prepared.1 refl tiled)
        (Numbered-all clean texts 0 prepared.0 prepared.1 tiled)

-- Of a PDF's pages, whatever the cleaning: each boundary of the prepared text names a page, the text
-- between its offsets is the cleaned text of that very page, and an offset there is resolved to
-- that page's number.
pub prepare-extract_pages :
    (clean : List ℕ → List ℕ) (texts : List (List ℕ))
    → let raw = extract_pages texts in
      let prepared = prepare_extracted_document_for_chunking clean raw.0 raw.1 in
      All (HasPage clean texts prepared.0 prepared.1) prepared.1
unfolding extract_pages
prepare-extract_pages clean texts =
    prepared_pages clean texts _ _ (sources clean texts [] texts [] 1 0 refl refl refl)
