-- ===== src/History/Windows.antt =====
-- `slice_history` and `trim_generation_history` (backend/services/history_config.py).
pub mod Trim
use chatvector_ai.Prelude.{
  ℕ, zero, suc, ◌+◌, ◌-◌, Bool, true, false, Option, none, some, List, [], ◌∷◌, ◌++◌, reverse, ◌||◌,
  ◌==◌, leb, ltb, length, is_empty, take_last, if◌then◌else◌, String,
}

-- A message by its `content`, a text as its code points, and its other entries.
pub record Message : Type 0 where
  pub content : Option (List ℕ)
  pub rest : List (String × String)

-- `msg.get("content") or ""`
unfoldable pub content_of : Message → List ℕ
content_of m = elim m.content [ none ↦ [] | some t ↦ t ]

unfoldable pub slice_history : List Message → ℕ → List Message
slice_history history window =
    if is_empty history || window == 0 then [] else take_last window history

-- `trimmed["content"] = content[-remaining:]` on a copy
unfoldable pub trim_message : ℕ → Message → Message
unfolding content_of
trim_message remaining m = record m { content = some (take_last remaining (content_of m)) }

-- The loop over the messages from the newest on, with `kept`, `total` and what it leaves in
-- `truncated`. `remaining` is `max_chars - total`, which `-` reads as 0 where it is negative.
unfoldable pub trim_loop : ℕ → List Message → List Message → ℕ → List Message × Bool
trim_loop max_chars [] kept total = (kept, false)
trim_loop max_chars (m ∷ ms) kept total =
    let remaining = max_chars - total in
    let next = trim_loop max_chars ms (kept ++ m ∷ []) (total + length (content_of m)) in
    if remaining == 0
    then (kept, true)
    else if leb (length (content_of m)) remaining
    then next
    else (kept ++ trim_message remaining m ∷ [], true)

finish_trim : List Message → List Message × Bool → List Message × Bool
finish_trim messages (kept, truncated) =
    (reverse kept, if ltb (length (reverse kept)) (length messages) then true else truncated)

unfoldable pub trim_generation_history : List Message → Option ℕ → List Message × Bool
unfolding trim_loop finish_trim
trim_generation_history messages none = (messages, false)
trim_generation_history messages (some max_chars) =
    if is_empty messages
    then (messages, false)
    else finish_trim messages (trim_loop max_chars (reverse messages) [] 0)
