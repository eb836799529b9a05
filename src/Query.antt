-- ===== src/Query.antt =====
-- The transformation of a question into queries (backend/services/query_service.py). The model
-- provider and the regular expressions of the need-resolution gate are arguments; texts are ASCII.
pub mod Expand
pub mod Transform
mod Examples
use chatvector_ai.Text.{lower, strip, same_text, drop_spaces, is_space}
use chatvector_ai.Chunking.Lines.{splitlines, non_empty_lines}
use chatvector_ai.History.Windows.{Message}
use chatvector_ai.Prelude.{
  ◌+◌, zero, suc, ℕ, ◌++◌, Bool, true, false, not, ◌&&◌, ◌||◌, Option, none, some, List, [], ◌∷◌,
  map, reverse, is_empty, leb, ltb, ◌==◌, if◌then◌else◌,
}

-- The calls of the model, by what they ask.
pub data Prompt : Type 0 where
  rewrite expand stepback : (question : List ℕ) → Prompt
  resolve : (question : List ℕ) → (history : List Message) → Prompt

-- What the model answers: `none` for an exception or None.
abbrev pub Provider : Type 0
Provider = Prompt → Option (List ℕ)

-- `_llm_transform`
unfoldable pub llm_transform : Provider → Prompt → Option (List ℕ)
llm_transform generate prompt = elim (generate prompt) [
  | none ↦ none
  | some text ↦ if is_empty (strip text) then none else some (strip text)
]

-- `casefold`
abbrev pub casefold : List ℕ → List ℕ
casefold = map lower

-- `rewrite_query`
unfoldable pub rewrite_query : Provider → List ℕ → List ℕ
rewrite_query generate question = elim (llm_transform generate (rewrite question)) [
  | none ↦ question
  | some rewritten ↦ rewritten
]

is_digit : ℕ → Bool
is_digit c = leb b'0' c && leb c b'9'

-- What follows `[\d]+` in `[\d]+[.)]\s*`
after_digits : List ℕ → Option (List ℕ)
unfolding is_digit drop_spaces
after_digits [] = none
after_digits (c ∷ s) =
    if is_digit c
    then after_digits s
    else if c == b'.' || c == b')'
    then some (drop_spaces s)
    else none

begins_with_space : List ℕ → Bool
unfolding is_space
begins_with_space [] = false
begins_with_space (c ∷ s) = is_space c

-- `_LIST_MARKER_PATTERN.sub("", s)`
without_marker : List ℕ → List ℕ
unfolding is_digit after_digits begins_with_space drop_spaces
without_marker [] = []
without_marker (c ∷ s) =
    if is_digit c
    then elim (after_digits s) [ none ↦ c ∷ s | some rest ↦ rest ]
    else if (c == b'-' || c == b'*') && begins_with_space s
    then drop_spaces s
    else c ∷ s

-- `_strip_list_marker`
unfoldable pub strip_list_marker : List ℕ → List ℕ
unfolding without_marker
strip_list_marker line = strip (without_marker (strip line))

-- `normalized in seen`
unfoldable pub is_seen : List ℕ → List (List ℕ) → Bool
is_seen s [] = false
is_seen s (t ∷ seen) = same_text s t || is_seen s seen

-- The loop of `_collect_unique_alternatives`, with the number of alternatives that it may still take.
unfoldable pub collect : ℕ → List (List ℕ) → List (List ℕ) → List (List ℕ)
unfolding strip_list_marker is_seen
collect zero seen lines = []
collect (suc left) seen [] = []
collect (suc left) seen (line ∷ lines) =
    let cleaned = strip_list_marker line in
    let skipped = collect (suc left) seen lines in
    let rest = collect left (casefold cleaned ∷ seen) lines in
    if is_empty cleaned
    then skipped
    else if is_seen (casefold cleaned) seen
    then skipped
    else cleaned ∷ rest

-- `_collect_unique_alternatives`
unfoldable pub collect_unique_alternatives : List ℕ → List (List ℕ) → List (List ℕ)
unfolding collect
collect_unique_alternatives question lines = collect 2 (casefold question ∷ []) lines

-- `expand_query`
unfoldable pub expand_query : Provider → List ℕ → List (List ℕ)
unfolding collect_unique_alternatives llm_transform non_empty_lines splitlines
expand_query generate question = elim (llm_transform generate (expand question)) [
  | none ↦ question ∷ []
  | some raw ↦ question ∷ collect_unique_alternatives question (non_empty_lines (splitlines raw))
]

-- `stepback_query`
unfoldable pub stepback_query : Provider → List ℕ → List (List ℕ)
unfolding llm_transform
stepback_query generate question = elim (llm_transform generate (stepback question)) [
  | none ↦ question ∷ []
  | some broader ↦
      if is_empty (strip broader)
        || same_text (casefold (strip broader)) (casefold (strip question))
      then question ∷ []
      else question ∷ strip broader ∷ []
]
