-- ===== src/Retrieval/Context/Budget.antt =====
-- How much of what was retrieved the context holds (`build_context_from_chunks` of
-- backend/services/context_service.py).
use mathlib.Core.List.{append_assoc, append-nil}
use chatvector_ai.Prelude.{
  ℕ, suc, ◌+◌, ◌≤◌, ◌<◌, ◌≡◌, ◌⊎◌, refl, sym, ap, ◌∙◌, true, false, Option, List, [], ◌∷◌, ◌++◌,
  map, arith, ltb, length, length-append, is_empty, take, if◌then◌else◌, Bool-cases, inl, inr,
}
use chatvector_ai.Text.{join}
use chatvector_ai.Retrieval.Context.{
  Chunk, SessionContext, chunk_part, session_parts, separator, add_chunks,
  build_context_from_chunks,
}

-- The parts of the first chunks.
abbrev pub parts_of : ℕ → List Chunk → List (List ℕ)
parts_of k chunks = map chunk_part (take k chunks)

length-join-snoc :
    (parts : List (List ℕ)) (part : List ℕ)
    → length (join separator (parts ++ part ∷ []))
      ≡ length (join separator parts) + (if is_empty parts then length part else 2 + length part)
unfolding join
length-join-snoc [] part = omega arith
length-join-snoc (p ∷ []) part =
    omega (arith, length-append p (separator ++ part), length-append separator part)
length-join-snoc (p ∷ q ∷ parts) part = omega (
  arith,
  length-append p (separator ++ join separator (q ∷ (parts ++ part ∷ []))),
  length-append separator (join separator (q ∷ (parts ++ part ∷ []))),
  length-append p (separator ++ join separator (q ∷ parts)),
  length-append separator (join separator (q ∷ parts)),
  length-join-snoc (q ∷ parts) part,
)

length-join-first :
    (part : List ℕ) (parts : List (List ℕ)) → length part ≤ length (join separator (part ∷ parts))
unfolding join
length-join-first part [] = omega arith
length-join-first part (q ∷ parts) =
    omega (arith, length-append part (separator ++ join separator (q ∷ parts)))

-- How the loop ends that adds chunks to parts: it keeps the first `kept` chunks, and those after
-- them would exceed the limit; what it keeps is within the limit, unless it added nothing, or only
-- one chunk to no parts.
record Ends (limit : ℕ) (parts : List (List ℕ)) (chunks : List Chunk) (result : List (List ℕ))
    : Type 0 where
  kept : ℕ
  within : kept ≤ length chunks
  result_eq : result ≡ parts ++ parts_of kept chunks
  fits :
      (length (join separator result) ≤ limit)
      ⊎ ((kept ≡ 0) ⊎ ((is_empty parts ≡ true) × (kept ≡ 1)))
  no_more :
      (kept ≡ length chunks)
      ⊎ (limit < length (join separator (parts ++ parts_of (suc kept) chunks)))

is_empty-snoc {ℓ} : {A : Type ℓ} (xs : List A) (x : A) → is_empty (xs ++ x ∷ []) ≡ false
is_empty-snoc [] x = refl
is_empty-snoc (y ∷ xs) x = refl

is_empty-eq {ℓ} : {A : Type ℓ} (xs : List A) → is_empty xs ≡ true → xs ≡ []
is_empty-eq [] h = refl
is_empty-eq (x ∷ xs) h = absurd (ground arith)

-- One more chunk fits.
Ends-more :
    (limit : ℕ) (parts : List (List ℕ)) (chunk : Chunk) (chunks : List Chunk)
    (result : List (List ℕ))
    → length (join separator (parts ++ chunk_part chunk ∷ [])) ≤ limit
    → Ends limit (parts ++ chunk_part chunk ∷ []) chunks result
    → Ends limit parts (chunk ∷ chunks) result
Ends-more limit parts chunk chunks result fit e =
    let part = chunk_part chunk in
    record {
      kept = suc e.kept;
      within = omega (arith, e.within);
      result_eq = e.result_eq ∙ append_assoc parts (part ∷ []) (parts_of e.kept chunks);
      fits = elim e.fits [
        | inl le ↦ inl le
        | inr (inl none_kept) ↦ inl (
            rw
              (e.result_eq
                ∙ ap (λ k. parts ++ part ∷ [] ++ parts_of k chunks) none_kept
                ∙ append-nil (parts ++ part ∷ []))
              fit)
        | inr (inr (empty, one)) ↦ absurd (ground (arith, empty, is_empty-snoc parts part))
      ];
      no_more = elim e.no_more [
        | inl all ↦ inl (omega (arith, all))
        | inr over ↦
            inr (rw (sym (append_assoc parts (part ∷ []) (parts_of (suc e.kept) chunks))) over)
      ];
    }

-- One more chunk does not fit.
Ends-stop :
    (limit : ℕ) (parts : List (List ℕ)) (chunk : Chunk) (chunks : List Chunk)
    → limit < length (join separator (parts ++ chunk_part chunk ∷ []))
    → Ends limit parts (chunk ∷ chunks) (if is_empty parts then chunk_part chunk ∷ [] else parts)
unfolding join
Ends-stop limit [] chunk chunks over = record {
  kept = 1;
  within = omega arith;
  result_eq = refl;
  fits = inr (inr (refl, refl));
  no_more = inr (omega (arith, over, length-join-first (chunk_part chunk) (parts_of 1 chunks)));
}
Ends-stop limit (p ∷ parts) chunk chunks over = record {
  kept = 0;
  within = omega arith;
  result_eq = sym (append-nil (p ∷ parts));
  fits = inr (inl refl);
  no_more = inr over;
}

add_chunks-Ends :
    (limit : ℕ) (parts : List (List ℕ)) (chunks : List Chunk)
    → Ends limit parts chunks (add_chunks limit parts (length (join separator parts)) chunks)
unfolding add_chunks
add_chunks-Ends limit parts [] = record {
  kept = 0;
  within = omega arith;
  result_eq = sym (append-nil parts);
  fits = inr (inl refl);
  no_more = inl refl;
}
add_chunks-Ends limit parts (chunk ∷ chunks) =
    let grown = parts ++ chunk_part chunk ∷ [] in
    rw (sym (length-join-snoc parts (chunk_part chunk)))
      (elim (Bool-cases (ltb limit (length (join separator grown)))) [
        | inl over ↦ rw over (Ends-stop limit parts chunk chunks (ground (arith, over)))
        | inr fit ↦ rw fit (
            Ends-more limit parts chunk chunks
              (add_chunks limit grown (length (join separator grown)) chunks) (ground (arith, fit))
              (add_chunks-Ends limit grown chunks))
      ])

-- The context is the session's part, if there is one, followed by the whole first chunks, for some
-- number of them; it is within the limit, unless it holds no chunk, or no session and one chunk; and
-- it holds all chunks, or one chunk more would exceed the limit.
pub build_context_from_chunks_lem :
    (limit : ℕ) (session_context : Option SessionContext) (chunks : List Chunk)
    → let parts = session_parts session_context in
      let context = build_context_from_chunks limit session_context chunks in
      (kept : ℕ) × (context ≡ join separator (parts ++ parts_of kept chunks))
      × (kept ≤ length chunks)
      × ((length context ≤ limit) ⊎ ((kept ≡ 0) ⊎ ((is_empty parts ≡ true) × (kept ≡ 1))))
      × ((kept ≡ length chunks)
          ⊎ (limit < length (join separator (parts ++ parts_of (suc kept) chunks))))
unfolding build_context_from_chunks
build_context_from_chunks_lem limit session_context chunks =
    let e = add_chunks-Ends limit (session_parts session_context) chunks in
    (e.kept, ap (join separator) e.result_eq, e.within, e.fits, e.no_more)
