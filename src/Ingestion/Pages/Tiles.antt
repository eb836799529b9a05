-- ===== src/Ingestion/Pages/Tiles.antt =====
-- The parts of the prepared text: where they stand, and the page numbers of their offsets.
use mathlib.Core.Path.{subst}
use mathlib.Core.List.{append_assoc, append-nil}
use chatvector_ai.Text.{join, codes}
use chatvector_ai.Chunking.Documents.{slice, IsAt}
use chatvector_ai.Chunking.Strategies.{get_elem?}
use chatvector_ai.Ingestion.Records.{PageBoundary, bisect_right, page_at, resolve_page_number}
use chatvector_ai.Ingestion.Pages.{prepare_pages}
use chatvector_ai.Prelude.{
  le→leb, ◌≡◌, refl, ◌∙◌, ◌≤◌, ◌<◌, arith, ℕ, ◌+◌, ◌++◌, Bool, true, false, some, List, [], ◌∷◌,
  map, length, length-append, is_empty, if◌then◌else◌, All, Bool-cases, inl, inr,
}

-- The part of page `n`.
abbrev pub IsPart : (List ℕ → List ℕ) → List (List ℕ) → ℕ → List ℕ → Type 0
IsPart clean texts n part =
    (k : ℕ) × (text : List ℕ) × (n ≡ k + 1)
    × (get_elem? texts k ≡ some text)
    × (part ≡ clean (text ++ codes "\n"))

module _ (clean : List ℕ → List ℕ) (texts : List (List ℕ)) where
  -- A boundary of the raw text, by its page.
  unfoldable pub Source : List ℕ → PageBoundary → Type 0
  Source raw b =
      (k : ℕ) × (text : List ℕ) × (b.page_number ≡ k + 1)
      × (get_elem? texts k ≡ some text)
      × (slice raw b.start_offset b.end_offset ≡ text ++ codes "\n")

  -- Parts that are not empty, one behind the other from `pos` on, with a place between them.
  unfoldable pub Tiled : ℕ → List (List ℕ) → List PageBoundary → Type 0
  Tiled pos [] [] = Unit
  Tiled pos (p ∷ ps) (b ∷ bs) =
      IsPart clean texts b.page_number p
      × (b.start_offset ≡ pos)
      × (b.end_offset ≡ pos + length p)
      × (is_empty p ≡ false)
      × Tiled (pos + length p + 1) ps bs
  Tiled pos [] (b ∷ bs) = ⊥
  Tiled pos (p ∷ ps) [] = ⊥

  pub Tiled-prepare_pages :
      (raw : List ℕ) (any_part : Bool) (cursor : ℕ) (bs : List PageBoundary)
      → All (Source raw) bs
      → Tiled
          (if any_part then cursor + 1 else cursor)
          (prepare_pages clean raw any_part cursor bs).0
          (prepare_pages clean raw any_part cursor bs).1
  unfolding prepare_pages Tiled Source
  Tiled-prepare_pages raw any_part cursor [] h = tt
  Tiled-prepare_pages raw any_part cursor (b ∷ bs) ((k, text, number, found, spelled), h) =
      elim (Bool-cases (is_empty (clean (slice raw b.start_offset b.end_offset)))) [
        | inl blank ↦ rw blank (Tiled-prepare_pages raw any_part cursor bs h)
        | inr some_text ↦ rw some_text (
          (k, text, number, found, rw spelled refl),
          refl,
          refl,
          some_text,
          Tiled-prepare_pages raw true _ bs h,
        )
      ]

  -- Each part stands at its place.
  unfoldable pub Placed : List ℕ → PageBoundary → Type 0
  Placed whole b =
      (part : List ℕ) × IsPart clean texts b.page_number part
      × IsAt whole b.start_offset part
      × (b.end_offset ≡ b.start_offset + length part)

  pub Placed-join :
      (before : List ℕ) (pos : ℕ) (ps : List (List ℕ)) (bs : List PageBoundary)
      → length before ≡ pos
      → Tiled pos ps bs
      → All (Placed (before ++ join (codes " ") ps)) bs
  unfolding join Tiled Placed
  Placed-join before pos [] [] e h = tt
  Placed-join before pos [] (b ∷ bs) e h = elim h [ ]
  Placed-join before pos (p ∷ []) [] e h = elim h [ ]
  Placed-join before pos (p ∷ q ∷ ps) [] e h = elim h [ ]
  Placed-join before pos (p ∷ []) (b ∷ []) e (part, start, end, _, _) = (
    (
      p,
      part,
      record {
        before = before;
        after = [];
        spelled = rw (append-nil p) refl;
        counted = rw start e;
      },
      rw start end,
    ),
    tt,
  )
  Placed-join before pos (p ∷ []) (b ∷ c ∷ bs) e (part, start, end, _, h) = elim h [ ]
  Placed-join before pos (p ∷ q ∷ ps) (b ∷ bs) e (part, start, end, _, h) = (
    (
      p,
      part,
      record {
        before = before;
        after = codes " " ++ join (codes " ") (q ∷ ps);
        spelled = refl;
        counted = rw start e;
      },
      rw start end,
    ),
    subst (λ whole. All (Placed whole) bs) (simp append_assoc)
        (Placed-join (before ++ (p ++ codes " ")) (pos + length p + 1) (q ∷ ps) bs
          (omega (arith, length-append before (p ++ codes " "), length-append p (codes " "))) h),
  )

  -- An offset within a part has the part's page number.
  unfoldable pub Numbered : ℕ → List PageBoundary → PageBoundary → Type 0
  Numbered pos bs b =
      (pos ≤ b.start_offset)
      × ((offset : ℕ)
          → b.start_offset ≤ offset
          → offset < b.end_offset
          → resolve_page_number offset bs ≡ some b.page_number)

  abbrev starts : List PageBoundary → List ℕ
  starts = map (λ (b : PageBoundary). b.start_offset)

  bisect_right-Tiled :
      (pos : ℕ) (ps : List (List ℕ)) (bs : List PageBoundary) (offset : ℕ)
      → Tiled pos ps bs
      → offset < pos
      → bisect_right (starts bs) offset ≡ 0
  unfolding bisect_right Tiled
  bisect_right-Tiled pos [] [] offset h lt = refl
  bisect_right-Tiled pos [] (b ∷ bs) offset h lt = elim h [ ]
  bisect_right-Tiled pos (p ∷ ps) [] offset h lt = elim h [ ]
  bisect_right-Tiled pos (p ∷ ps) (b ∷ bs) offset (part, start, end, _, h) lt = ground arith

  resolve-later :
      (first b : PageBoundary) (bs : List PageBoundary) (offset : ℕ)
      → first.start_offset ≤ offset
      → b.start_offset ≤ offset
      → resolve_page_number offset (first ∷ b ∷ bs) ≡ resolve_page_number offset (b ∷ bs)
  unfolding resolve_page_number bisect_right page_at
  resolve-later first b bs offset h k =
      ground (arith, le→leb first.start_offset offset h, le→leb b.start_offset offset k)

  Numbered-first :
      (pos : ℕ) (p : List ℕ) (ps : List (List ℕ)) (b : PageBoundary) (bs : List PageBoundary)
      → Tiled pos (p ∷ ps) (b ∷ bs)
      → Numbered pos (b ∷ bs) b
  unfolding Numbered Tiled resolve_page_number bisect_right page_at
  Numbered-first pos p ps b bs (part, start, end, _, h) = (
    omega arith,
    λ offset lo hi.
        rw
          (
            le→leb b.start_offset offset lo,
            bisect_right-Tiled (pos + length p + 1) ps bs offset h (omega arith),
          )
          refl,
  )

  Numbered-rest :
      (pos pos' : ℕ) (first b : PageBoundary) (bs more : List PageBoundary)
      → pos ≤ pos'
      → first.start_offset ≤ pos'
      → b.start_offset ≡ pos'
      → All (Numbered pos' (b ∷ bs)) more
      → All (Numbered pos (first ∷ b ∷ bs)) more
  unfolding Numbered
  Numbered-rest pos pos' first b bs [] h k e all = tt
  Numbered-rest pos pos' first b bs (c ∷ more) h k e ((from, numbered), all) = (
    (
      omega arith,
      λ offset lo hi.
          resolve-later first b bs offset (omega arith) (omega arith) ∙ numbered offset lo hi,
    ),
    Numbered-rest pos pos' first b bs more h k e all,
  )

  pub Numbered-all :
      (pos : ℕ) (ps : List (List ℕ)) (bs : List PageBoundary)
      → Tiled pos ps bs
      → All (Numbered pos bs) bs
  unfolding Tiled
  Numbered-all pos [] [] h = tt
  Numbered-all pos [] (b ∷ bs) h = elim h [ ]
  Numbered-all pos (p ∷ ps) [] h = elim h [ ]
  Numbered-all pos (p ∷ []) (b ∷ []) h = (Numbered-first pos p [] b [] h, tt)
  Numbered-all pos (p ∷ q ∷ ps) (b ∷ []) (part, start, end, _, h) = elim h [ ]
  Numbered-all pos (p ∷ []) (b ∷ c ∷ bs) (part, start, end, _, h) = elim h [ ]
  Numbered-all pos (p ∷ q ∷ ps) (b ∷ c ∷ bs) (part, start, end, filled, h) = (
    Numbered-first pos p (q ∷ ps) b (c ∷ bs) (part, start, end, filled, h),
    Numbered-rest pos (pos + length p + 1) b c bs (c ∷ bs) (omega arith) (omega arith) (h.1)
        (Numbered-all (pos + length p + 1) (q ∷ ps) (c ∷ bs) h),
  )
