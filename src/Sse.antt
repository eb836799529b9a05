-- ===== src/Sse.antt =====
-- Server-sent events, as the server writes them (backend/services/chat_service.py) and as the client
-- takes them apart (sdk/python/chatvector/_sse.py). What a client does with one event is an argument.
pub mod RoundTrip
mod Examples
use chatvector_ai.Prelude.{
  ℕ, Bool, true, false, not, ◌&&◌, Option, none, some, List, [], ◌∷◌, ◌++◌, drop, is_empty,
  if◌then◌else◌,
}
use chatvector_ai.Text.{codes, starts_with, strip}

abbrev pub Line : Type 0
Line = List ℕ

-- `"\n".join(ls)`
abbrev pub join_lines : List Line → Line
join_lines [] = []
join_lines (l ∷ []) = l
join_lines (l ∷ m ∷ ls) = l ++ 10 ∷ join_lines (m ∷ ls)

-- `_format_sse_event`, of a payload that is a text
unfoldable pub format_sse_event : Line → Line → Line
format_sse_event event payload =
    codes "event: " ++ (event ++ (10 ∷ (codes "data: " ++ (payload ++ 10 ∷ 10 ∷ []))))

-- `line[len("event:"):].strip() or None`
unfoldable pub event_name_of : Line → Option Line
event_name_of line = let name = strip (drop 6 line) in if is_empty name then none else some name

-- What one line means: a blank line, an event's name, a part of its data, or nothing.
pub data Meaning : Type 0 where
  blank : Meaning
  name_line : Option Line → Meaning
  data_line : Line → Meaning
  noise : Meaning

unfoldable pub meaning : Line → Meaning
unfolding event_name_of
meaning line =
    if is_empty line
    then blank
    else if starts_with (codes "event:") line
    then name_line (event_name_of line)
    else if starts_with (codes "data:") line
    then data_line (strip (drop 5 line))
    else noise

-- How the dispatch of one event ends: with an event for the caller, with nothing, or by a raise.
pub data Dispatched {ℓ} (E X : Type ℓ) : Type ℓ where
  event : E → Dispatched E X
  skipped : Dispatched E X
  raised : X → Dispatched E X

-- What a caller of the generator gets: the events, and the error that ends the stream, if any.
pub record Stream {ℓ} (E X : Type ℓ) : Type ℓ where
  pub events : List E
  pub error : Option X

-- `event_name is None and not data_lines`
unfoldable pub nothing_pending : Option Line → List Line → Bool
nothing_pending none [] = true
nothing_pending name data_lines = false

module _ {ℓ} {E X : Type ℓ} where
  abbrev pub no_events : Stream E X
  no_events = record { events = []; error = none }

  -- The rest of the stream is not looked at after a raise.
  unfoldable pub yield_then : Dispatched E X → Stream E X → Stream E X
  yield_then (event e) rest = record rest { events = e ∷ rest.events }
  yield_then skipped rest = rest
  yield_then (raised x) rest = record { events = []; error = some x }

  -- The loop of the generators: the event's name and its data lines so far, and the lines to come.
  unfoldable pub iter_events :
      (Option Line → Line → Dispatched E X) → Option Line → List Line → List Line → Stream E X
  unfolding yield_then nothing_pending
  iter_events dispatch name data_lines [] =
      if nothing_pending name data_lines
      then no_events
      else yield_then (dispatch name (join_lines data_lines)) no_events
  iter_events dispatch name data_lines (line ∷ lines) = elim (meaning line) [
    | blank ↦
        (let rest = iter_events dispatch none [] lines in
          if nothing_pending name data_lines
          then rest
          else yield_then (dispatch name (join_lines data_lines)) rest)
    | name_line n ↦ iter_events dispatch n data_lines lines
    | data_line d ↦ iter_events dispatch name (data_lines ++ d ∷ []) lines
    | noise ↦ iter_events dispatch name data_lines lines
  ]

  unfoldable pub iter_stream_chat_events :
      (Option Line → Line → Dispatched E X) → List Line → Stream E X
  unfolding iter_events
  iter_stream_chat_events dispatch lines = iter_events dispatch none [] lines

  unfoldable pub async_iter_stream_chat_events :
      (Option Line → Line → Dispatched E X) → List Line → Stream E X
  unfolding iter_events
  async_iter_stream_chat_events dispatch lines = iter_events dispatch none [] lines

  unfoldable pub iter_document_status_events :
      (Option Line → Line → Dispatched E X) → List Line → Stream E X
  unfolding iter_events
  iter_document_status_events dispatch lines = iter_events dispatch none [] lines

  unfoldable pub async_iter_document_status_events :
      (Option Line → Line → Dispatched E X) → List Line → Stream E X
  unfolding iter_events
  async_iter_document_status_events dispatch lines = iter_events dispatch none [] lines
