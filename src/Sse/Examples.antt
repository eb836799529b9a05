-- ===== src/Sse/Examples.antt =====
-- A stream of two events (backend/services/chat_service.py, sdk/python/chatvector/_sse.py).
use chatvector_ai.Prelude.{
  ℕ, ◌≡◌, refl, Option, List, [], ◌∷◌, ◌++◌, All, arith, ◌==◌, if◌then◌else◌,
}
use chatvector_ai.Text.{strip, codes}
use chatvector_ai.Sse.{
  iter_document_status_events, async_iter_document_status_events, Line, Dispatched, event,
  iter_stream_chat_events, async_iter_stream_chat_events,
}
use chatvector_ai.Sse.RoundTrip.{
  Frame, unlines, format_all, IsClean, IsPrintable, IsPrintableFrame, by_test, dispatch_all,
  iter_stream_chat_events-format_all,
}

-- `split` at line feeds, as far as it is needed: the text up to the first, and what follows.
abbrev put : ℕ → List Line → List Line
put c [] = (c ∷ []) ∷ []
put c (l ∷ ls) = (c ∷ l) ∷ ls

abbrev split : Line → List Line
split [] = []
split (c ∷ s) = if c == 10 then [] ∷ split s else put c (split s)

split-line : (l : Line) (s : Line) → IsPrintable l → split (l ++ (10 ∷ s)) ≡ l ∷ split s
split-line [] s h = refl
split-line (c ∷ l) s h = ground (arith, split-line l s h.1)

split-unlines : (ls : List Line) → All IsPrintable ls → split (unlines ls) ≡ ls
split-unlines [] h = refl
split-unlines (l ∷ ls) h = ground (arith, split-line l (unlines ls) h.0, split-unlines ls h.1)

-- The dispatch here hands on the name and the payload.
abbrev keep : Option Line → Line → Dispatched (Option Line × Line) Line
keep name payload = event (name, payload)

abbrev frames : List Frame
frames = (codes "token", codes "{}") ∷ (codes "complete", codes "[1, 2]") ∷ []

frames-IsClean : All IsClean frames
unfolding strip
frames-IsClean = ((λ e. cc, refl, refl), ((λ e. cc, refl, refl), tt))

frames-IsPrintableFrame : All IsPrintableFrame frames
frames-IsPrintableFrame = (
  (by_test (codes "token") refl, by_test (codes "{}") refl),
  ((by_test (codes "complete") refl, by_test (codes "[1, 2]") refl), tt),
)

iter_stream_chat_events-format_all_example :
    (iter_stream_chat_events keep (split (format_all frames)) ≡ dispatch_all keep frames)
    × (async_iter_stream_chat_events keep (split (format_all frames)) ≡ dispatch_all keep frames)
    × (iter_document_status_events keep (split (format_all frames)) ≡ dispatch_all keep frames)
    × (async_iter_document_status_events keep (split (format_all frames))
        ≡ dispatch_all keep frames)
iter_stream_chat_events-format_all_example =
    iter_stream_chat_events-format_all keep split split-unlines frames frames-IsClean
      frames-IsPrintableFrame
