-- ===== src/Retrieval/Context.antt =====
-- The context that an answer is generated from (`build_context_from_chunks` of
-- backend/services/context_service.py).
pub mod Budget
use chatvector_ai.Prelude.{
  ℕ, ◌+◌, Bool, true, false, Option, none, some, List, [], ◌∷◌, ◌++◌, map, ltb, length, is_empty,
  if◌then◌else◌,
}
use chatvector_ai.Text.{codes, decimal, join, same_text}

pub record Chunk : Type 0 where
  pub file_name : Option (List ℕ)
  pub page_number : Option ℕ
  pub chunk_text : Option (List ℕ)

-- A message of the history, by what `get` gives for its keys.
pub record HistoryMessage : Type 0 where
  pub role : Option (List ℕ)
  pub content : Option (List ℕ)

pub record SessionContext : Type 0 where
  pub recent_queries : List (List ℕ)
  pub active_documents : List (List ℕ)
  pub chat_history : List HistoryMessage

-- `text or default`
or_default : Option (List ℕ) → List ℕ → List ℕ
or_default none default = default
or_default (some s) default = if is_empty s then default else s

-- The label and the text of a chunk.
unfoldable pub chunk_part : Chunk → List ℕ
unfolding or_default decimal
chunk_part chunk =
    codes "[Source: "
    ++ (or_default chunk.file_name (codes "unknown")
        ++ ((elim chunk.page_number [ none ↦ [] | some n ↦ codes ", page " ++ decimal n ])
            ++ (codes "]\n" ++ or_default chunk.chunk_text [])))

message_line : HistoryMessage → List ℕ
message_line msg =
    codes "["
    ++ ((elim msg.role [
      | none ↦ codes "Assistant"
      | some role ↦ if same_text role (codes "user") then codes "User" else codes "Assistant"
    ])
        ++ (codes "]: " ++ (elim msg.content [ none ↦ codes "None" | some s ↦ s ])))

-- `if texts:` a line of them
list_line : List ℕ → List (List ℕ) → List (List ℕ)
unfolding join
list_line title texts = if is_empty texts then [] else (title ++ join (codes ", ") texts) ∷ []

session_lines : SessionContext → List (List ℕ)
unfolding list_line message_line
session_lines context =
    list_line (codes "Recent queries: ") context.recent_queries
    ++ (list_line (codes "Active documents: ") context.active_documents
        ++ map message_line context.chat_history)

-- The parts before the chunks: one if there is a session with anything to say, and else none.
unfoldable pub session_parts : Option SessionContext → List (List ℕ)
unfolding session_lines join
session_parts none = []
session_parts (some context) =
    let lines = session_lines context in
    if is_empty lines
    then []
    else join (codes "\n")
        (codes "[Session History]" ∷ (lines ++ codes "\n[Retrieved Context]" ∷ []))
      ∷ []

abbrev pub separator : List ℕ
separator = codes "\n\n"

-- The loop over the chunks, with the parts and their length so far.
unfoldable pub add_chunks : ℕ → List (List ℕ) → ℕ → List Chunk → List (List ℕ)
unfolding chunk_part
add_chunks limit parts total_chars [] = parts
add_chunks limit parts total_chars (chunk ∷ chunks) =
    let part = chunk_part chunk in
    let total = total_chars + (if is_empty parts then length part else 2 + length part) in
    let next = add_chunks limit (parts ++ part ∷ []) total chunks in
    if ltb limit total then (if is_empty parts then part ∷ [] else parts) else next

unfoldable pub build_context_from_chunks : ℕ → Option SessionContext → List Chunk → List ℕ
unfolding session_parts add_chunks join
build_context_from_chunks limit session_context chunks =
    let parts = session_parts session_context in
    join separator (add_chunks limit parts (length (join separator parts)) chunks)
