-- ===== src/Chunking/Strategies/Places.antt =====
-- Blocks at their places in a text, and what is asked of the sentences of a text.
use mathlib.Core.Path.{subst}
use mathlib.Core.List.{append_assoc, append-nil}
use chatvector_ai.Chunking.Lines.{is_blank}
use chatvector_ai.Chunking.Blocks.{TextBlock, is_kept}
use chatvector_ai.Chunking.Blocks.Layout.{Laid}
use chatvector_ai.Chunking.Documents.{IsAt}
use chatvector_ai.Chunking.Strategies.{SentenceSpan, get_elem?}
use chatvector_ai.Prelude.{
  ◌≡◌, ◌≢◌, refl, sym, ◌≤◌, ◌<◌, zero, suc, ℕ, ◌++◌, true, false, some, List, [], ◌∷◌, length, All,
  All-append,
}

-- A block at its place.
pub record IsBlock (whole : List ℕ) (b : TextBlock) : Type 0 where
  pub place : IsAt whole b.start_index b.text
  pub kept : is_kept b.text ≡ true

IsBlock-append :
    {whole : List ℕ} {b : TextBlock} (more : List ℕ) → IsBlock whole b → IsBlock (whole ++ more) b
IsBlock-append {b = b} more h = record {
  place = record {
    before = h.place.before;
    after = h.place.after ++ more;
    spelled = simp (h.place.spelled, append_assoc);
    counted = h.place.counted;
  };
  kept = h.kept;
}

blocks-append :
    (whole more : List ℕ) (blocks : List TextBlock)
    → All (IsBlock whole) blocks
    → All (IsBlock (whole ++ more)) blocks
blocks-append whole more [] h = tt
blocks-append whole more (b ∷ blocks) (h, hs) =
    (IsBlock-append more h, blocks-append whole more blocks hs)

pub blocks_laid :
    {whole : List ℕ} {blocks : List TextBlock} → Laid whole blocks → All (IsBlock whole) blocks
blocks_laid Laid.nothing = tt
blocks_laid (Laid.leave_out {blocks = blocks} piece e laid) =
    blocks-append _ piece blocks (blocks_laid laid)
blocks_laid (Laid.block {text = text} {blocks = blocks} b k e laid) =
    All-append (IsBlock (text ++ b.text)) blocks (b ∷ [])
      (blocks-append text b.text blocks (blocks_laid laid))
      (
        record {
          place = record {
            before = text;
            after = [];
            spelled = rw (append-nil b.text) refl;
            counted = sym e;
          };
          kept = k;
        },
        tt,
      )

-- What is asked of the sentences of a text: they are not empty, in order, within the text, and there
-- is one unless the text is blank.
abbrev pub Within : List ℕ → SentenceSpan → Type 0
Within text s = (s.start_index < s.end_index) × (s.end_index ≤ length text)

abbrev pub FromOn : ℕ → List SentenceSpan → Type 0
FromOn n [] = Unit
FromOn n (s ∷ spans) = (n ≤ s.start_index) × FromOn s.end_index spans

pub record IsSentences (sentence_spans : List ℕ → List SentenceSpan) : Type 0 where
  pub within : (text : List ℕ) → All (Within text) (sentence_spans text)
  pub ordered : (text : List ℕ) → FromOn 0 (sentence_spans text)
  pub any_sentence : (text : List ℕ) → is_blank text ≡ false → sentence_spans text ≢ []

pub span-Within :
    (text : List ℕ) (spans : List SentenceSpan) (i : ℕ) {s : SentenceSpan}
    → All (Within text) spans
    → get_elem? spans i ≡ some s
    → Within text s
span-Within text [] i h e = absurd (cc e)
span-Within text (s ∷ spans) zero {s = t} h e = let q : s ≡ t = cc in subst (Within text) q h.0
span-Within text (s ∷ spans) (suc i) h e = span-Within text spans i h.1 e
