-- ===== src/Sse/RoundTrip.antt =====
-- What the server writes as an event, the client reads as that event
-- (backend/services/chat_service.py, sdk/python/chatvector/_sse.py).
use mathlib.Core.List.{append_assoc}
use chatvector_ai.Prelude.{
  ◌&&◌, ltb, leb, leb, arith, ℕ, All-append, true, Bool, ◌∙◌, ◌≤◌, ◌<◌, ◌≡◌, ◌≢◌, refl, ap, Option,
  none, some, List, [], ◌∷◌, ◌++◌, All, is_empty, if◌then◌else◌,
}
use chatvector_ai.Text.{codes, starts_with, strip}
use chatvector_ai.Sse.{
  iter_document_status_events, async_iter_document_status_events, async_iter_stream_chat_events,
  iter_stream_chat_events, Line, format_sse_event, event_name_of, meaning, blank, name_line,
  data_line, Dispatched, Stream, nothing_pending, no_events, yield_then, iter_events,
}

-- An event's name and its payload, and the lines that it is written as.
abbrev pub Frame : Type 0
Frame = Line × Line

abbrev pub frame_lines : List Frame → List Line
frame_lines [] = []
frame_lines ((name, payload) ∷ fs) =
    (codes "event: " ++ name) ∷ (codes "data: " ++ payload) ∷ [] ∷ frame_lines fs

-- Every line with its line feed.
abbrev pub unlines : List Line → Line
unlines [] = []
unlines (l ∷ ls) = l ++ (10 ∷ unlines ls)

-- The text of the events, one after the other.
abbrev pub format_all : List Frame → Line
format_all [] = []
format_all ((name, payload) ∷ fs) = format_sse_event name payload ++ format_all fs

-- A name is not empty, and neither text begins or ends with a space.
abbrev pub IsClean : Frame → Type 0
IsClean (name, payload) = (name ≢ []) × (strip name ≡ name) × (strip payload ≡ payload)

abbrev pub IsCode : ℕ → Type 0
IsCode c = (32 ≤ c) × (c < 127)

abbrev pub all_codes : Line → Bool
all_codes [] = true
all_codes (c ∷ l) = (leb 32 c && ltb c 127) && all_codes l

-- Printable ASCII, such as `json.dumps` writes.
abbrev pub IsPrintable : Line → Type 0
IsPrintable l = All IsCode l

abbrev pub IsPrintableFrame : Frame → Type 0
IsPrintableFrame (name, payload) = IsPrintable name × IsPrintable payload

module _ {ℓ} {E X : Type ℓ} where
  -- One event after the other, up to the first that is raised.
  abbrev pub dispatch_all : (Option Line → Line → Dispatched E X) → List Frame → Stream E X
  dispatch_all dispatch [] = no_events
  dispatch_all dispatch ((name, payload) ∷ fs) =
      yield_then (dispatch (some name) payload) (dispatch_all dispatch fs)

meaning-name :
    (name : Line)
    → name ≢ []
    → strip name ≡ name
    → meaning (codes "event: " ++ name) ≡ name_line (some name)
unfolding meaning starts_with strip event_name_of
meaning-name [] ne e = absurd (ne refl)
meaning-name (c ∷ cs) ne e = ap (λ n. name_line (if is_empty n then none else some n)) e

meaning-data :
    (payload : Line)
    → strip payload ≡ payload
    → meaning (codes "data: " ++ payload) ≡ data_line payload
unfolding meaning starts_with strip
meaning-data payload e = ap data_line e

meaning-blank : meaning [] ≡ blank
unfolding meaning
meaning-blank = refl

unlines-frame_lines : (fs : List Frame) → format_all fs ≡ unlines (frame_lines fs)
unfolding format_sse_event
unlines-frame_lines [] = refl
unlines-frame_lines ((name, payload) ∷ fs) = simp (append_assoc, unlines-frame_lines fs)

module _ {ℓ} {E X : Type ℓ} (dispatch : Option Line → Line → Dispatched E X) where
  iter_events-frame :
      (name payload : Line) (n d b : Line) (ls : List Line)
      → meaning n ≡ name_line (some name)
      → meaning d ≡ data_line payload
      → meaning b ≡ blank
      → iter_events dispatch none [] (n ∷ d ∷ b ∷ ls)
        ≡ yield_then (dispatch (some name) payload) (iter_events dispatch none [] ls)
  unfolding iter_events nothing_pending
  iter_events-frame name payload n d b ls hn hd hb =
      rw (iter_events, hn, iter_events, hd, iter_events, hb, nothing_pending) refl

  iter_events-frame_lines :
      (fs : List Frame)
      → All IsClean fs
      → iter_events dispatch none [] (frame_lines fs) ≡ dispatch_all dispatch fs
  unfolding iter_events
  iter_events-frame_lines [] h = refl
  iter_events-frame_lines ((name, payload) ∷ fs) ((ne, n, p), h) =
      iter_events-frame name payload (codes "event: " ++ name) (codes "data: " ++ payload) []
        (frame_lines fs) (meaning-name name ne n) (meaning-data payload p) meaning-blank
      ∙ ap (yield_then (dispatch (some name) payload)) (iter_events-frame_lines fs h)

-- A text is printable when each of its codes passes the test.
pub by_test : (l : Line) → all_codes l ≡ true → IsPrintable l
by_test [] h = tt
by_test (c ∷ l) h = (ground arith, by_test l (ground arith))

All-cons :
    (a : Line) (ls : List Line) → IsPrintable a → All IsPrintable ls → All IsPrintable (a ∷ ls)
All-cons a ls h hs = (h, hs)

cons3 :
    (a b : Line) (ls : List Line)
    → IsPrintable a
    → IsPrintable b
    → All IsPrintable ls
    → All IsPrintable (a ∷ b ∷ [] ∷ ls)
cons3 a b ls ha hb hs = All-cons a (b ∷ [] ∷ ls) ha (All-cons b ([] ∷ ls) hb (All-cons [] ls tt hs))

frame_lines-IsPrintable :
    (fs : List Frame) → All IsPrintableFrame fs → All IsPrintable (frame_lines fs)
frame_lines-IsPrintable [] h = tt
frame_lines-IsPrintable ((name, payload) ∷ fs) ((n, p), h) =
    cons3 (codes "event: " ++ name) (codes "data: " ++ payload) (frame_lines fs)
      (All-append IsCode (codes "event: ") name (by_test (codes "event: ") refl) n)
      (All-append IsCode (codes "data: ") payload (by_test (codes "data: ") refl) p)
      (frame_lines-IsPrintable fs h)

-- A client that reads the text of any list of events gets the dispatch of each event, in the order
-- written, up to the first whose dispatch raises, from each of the four generators. The events'
-- names are not empty, and names and payloads are printable ASCII with no space at either end.
-- `iter_lines` is httpx's, of which only this is used: it splits printable lines at line feeds.
pub iter_stream_chat_events-format_all {ℓ} :
    {E X : Type ℓ} (dispatch : Option Line → Line → Dispatched E X) (iter_lines : Line → List Line)
    (splits : (ls : List Line) → All IsPrintable ls → iter_lines (unlines ls) ≡ ls)
    (fs : List Frame)
    → All IsClean fs
    → All IsPrintableFrame fs
    → (iter_stream_chat_events dispatch (iter_lines (format_all fs)) ≡ dispatch_all dispatch fs)
      × (async_iter_stream_chat_events dispatch (iter_lines (format_all fs))
          ≡ dispatch_all dispatch fs)
      × (iter_document_status_events dispatch (iter_lines (format_all fs))
          ≡ dispatch_all dispatch fs)
      × (async_iter_document_status_events dispatch (iter_lines (format_all fs))
          ≡ dispatch_all dispatch fs)
unfolding iter_stream_chat_events async_iter_stream_chat_events iter_document_status_events
    async_iter_document_status_events
iter_stream_chat_events-format_all dispatch iter_lines splits fs clean printable =
    let lines =
      ap iter_lines (unlines-frame_lines fs)
      ∙ splits (frame_lines fs) (frame_lines-IsPrintable fs printable) in
    let reads =
      ap (iter_events dispatch none []) lines ∙ iter_events-frame_lines dispatch fs clean in
    (reads, reads, reads, reads)
