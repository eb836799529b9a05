-- ===== src/Chunking/Strategies/Spans.antt =====
-- Sentences by their index, and where a chunk of sentences ends and the next one begins.
use mathlib.Core.Path.{subst}
use chatvector_ai.Chunking.Strategies.{
  SentenceSpan, Strategy, get_elem?, overlap_start, next_start_index, extend_chunk,
}
use chatvector_ai.Chunking.Strategies.Places.{Within, FromOn, span-Within}
use chatvector_ai.Prelude.{
  ◌≡◌, refl, sym, ◌≤◌, ◌<◌, arith, zero, suc, ℕ, ◌+◌, ◌-◌, none, some, List, [], ◌∷◌, length, All,
  drop, ltb, Bool-cases, Option-cases, inl, inr,
}

module _ {ℓ} {A : Type ℓ} where
  pub get_elem?-lt-length : (xs : List A) (i : ℕ) {x : A} → get_elem? xs i ≡ some x → i < length xs
  get_elem?-lt-length [] i e = absurd (cc e)
  get_elem?-lt-length (x ∷ xs) zero e = omega arith
  get_elem?-lt-length (x ∷ xs) (suc i) e = omega (arith, get_elem?-lt-length xs i e)

  pub length-le_of_none : (xs : List A) (i : ℕ) → get_elem? xs i ≡ none → length xs ≤ i
  length-le_of_none [] i e = omega arith
  length-le_of_none (x ∷ xs) zero e = absurd (cc e)
  length-le_of_none (x ∷ xs) (suc i) e = omega (arith, length-le_of_none xs i e)

  pub get_elem?-drop :
      (n : ℕ) (xs : List A) (i : ℕ) → get_elem? (drop n xs) i ≡ get_elem? xs (n + i)
  get_elem?-drop zero xs i = let e : 0 + i ≡ i = omega arith in rw e refl
  get_elem?-drop (suc n) [] i = refl
  get_elem?-drop (suc n) (x ∷ xs) i =
      let e : suc n + i ≡ suc (n + i) = omega arith in rw e (get_elem?-drop n xs i)

-- Sentences in order begin and end in order.
FromOn-le :
    (text : List ℕ) (n : ℕ) (spans : List SentenceSpan) (k : ℕ) {s : SentenceSpan}
    → FromOn n spans
    → All (Within text) spans
    → get_elem? spans k ≡ some s
    → n ≤ s.start_index
FromOn-le text n [] k o w e = absurd (cc e)
FromOn-le text n (t ∷ spans) zero {s = s} o w e =
    let q : t ≡ s = cc in subst (λ (s : SentenceSpan). n ≤ s.start_index) q o.0
FromOn-le text n (t ∷ spans) (suc k) o w e =
    let rest = FromOn-le text t.end_index spans k o.1 w.1 e in omega arith

pub spans_ordered :
    (text : List ℕ) (n : ℕ) (spans : List SentenceSpan) (i k : ℕ) {a b : SentenceSpan}
    → FromOn n spans
    → All (Within text) spans
    → i ≤ k
    → get_elem? spans i ≡ some a
    → get_elem? spans k ≡ some b
    → (a.start_index ≤ b.start_index) × (a.end_index ≤ b.end_index)
spans_ordered text n [] i k o w h e f = absurd (cc e)
spans_ordered text n (t ∷ spans) zero zero {a = a} {b = b} o w h e f =
    let q : a ≡ b = cc in
    subst (λ (b : SentenceSpan). (a.start_index ≤ b.start_index) × (a.end_index ≤ b.end_index)) q
      (omega arith)
spans_ordered text n (t ∷ spans) zero (suc k) {a = a} {b = b} o w h e f =
    let q : t ≡ a = cc in
    let later = FromOn-le text t.end_index spans k o.1 w.1 f in
    let (b_start, b_end) = span-Within text spans k w.1 f in
    subst (λ (a : SentenceSpan). (a.start_index ≤ b.start_index) × (a.end_index ≤ b.end_index)) q
      (omega arith)
spans_ordered text n (t ∷ spans) (suc i) zero o w h e f = absurd (omega arith)
spans_ordered text n (t ∷ spans) (suc i) (suc k) o w h e f =
    spans_ordered text t.end_index spans i k o.1 w.1 (omega arith) e f

module _ (c : Strategy) where
  overlap_start-le :
      (spans : List SentenceSpan) (chunk_start end i : ℕ)
      → overlap_start c spans chunk_start end i ≤ i
  unfolding overlap_start
  overlap_start-le spans chunk_start end zero = omega arith
  overlap_start-le spans chunk_start end (suc i) =
      ground (arith, overlap_start-le spans chunk_start end i)

  -- The next chunk begins behind the beginning of this one, and leaves no sentence out.
  pub next_start_index_bounds :
      (spans : List SentenceSpan) (i e : ℕ)
      → i ≤ e
      → (i < next_start_index c spans i e) × (next_start_index c spans i e ≤ e + 1)
  unfolding next_start_index
  next_start_index_bounds spans i e h = elim (Option-cases (get_elem? spans e)) [
    | inl missing ↦ rw (missing, next_start_index) (ground arith)
    | inr (span, found) ↦
        rw (found, next_start_index) (ground (arith, overlap_start-le spans i span.end_index e))
  ]

  -- A chunk ends with the sentence of the index at which `extend_chunk` stops.
  pub extend_chunk_end :
      (spans : List SentenceSpan) (chunk_start : ℕ) (rest : List SentenceSpan) (e : ℕ)
      (last : SentenceSpan)
      → ((j : ℕ) → get_elem? rest j ≡ get_elem? spans (e + 1 + j))
      → get_elem? spans e ≡ some last
      → (e ≤ (extend_chunk c chunk_start rest e last.end_index).0)
        × ((t : SentenceSpan) × (get_elem? spans
                (extend_chunk c chunk_start rest e last.end_index).0
              ≡ some t)
            × (t.end_index ≡ (extend_chunk c chunk_start rest e last.end_index).1))
  unfolding extend_chunk
  extend_chunk_end spans chunk_start [] e last h found = (omega arith, (last, found, refl))
  extend_chunk_end spans chunk_start (next ∷ rest) e last h found =
      elim (Bool-cases (ltb c.chunk_size (next.end_index - chunk_start))) [
        | inl full ↦ rw full (omega arith, (last, found, refl))
        | inr fits ↦
            let q : e + 1 + 0 ≡ e + 1 = omega arith in
            let (further, ends) =
              extend_chunk_end spans chunk_start rest (e + 1) next
                (λ j. let r : e + 1 + suc j ≡ e + 1 + 1 + j = omega arith in rw (← r) (h (suc j)))
                (rw (← q) (sym (h 0))) in
            rw fits (omega arith, ends)
      ]
