-- ===== src/Chunking/Blocks.antt =====
-- The blocks of a text (backend/services/ingestion_pipeline.py, `_iter_text_blocks`): maximal runs of
-- lines between blank lines and headings.
pub mod Layout
use mathlib.Core.List.{foldl}
use chatvector_ai.Chunking.Lines.{
  splitlines, joined, extract_heading, rstrip_breaks, is_blank, is_heading_only_block,
}
use chatvector_ai.Prelude.{
  ℕ, ◌+◌, ◌++◌, Bool, true, false, not, ◌&&◌, Option, none, some, List, [], ◌∷◌, length,
  if◌then◌else◌,
}

pub record TextBlock : Type 0 where
  pub text : List ℕ
  pub start_index : ℕ
  pub heading : Option (List ℕ)

-- The variables of the loop.
pub record Scan : Type 0 where
  pub blocks : List TextBlock
  pub current_heading : Option (List ℕ)
  pub current_parts : List (List ℕ)
  pub current_start : Option ℕ
  pub cursor : ℕ

-- `if block_text.strip(): if not _is_heading_only_block(block_text)`
unfoldable pub is_kept : List ℕ → Bool
is_kept text = not (is_blank text) && not (is_heading_only_block text)

-- `flush_current_block`
unfoldable pub flush_current_block : Scan → Scan
unfolding is_kept
flush_current_block sc = elim sc.current_start [
  | none ↦ record sc { current_parts = [] }
  | some start ↦
      let text = joined sc.current_parts in
      let block : TextBlock = record {
        text = text;
        start_index = start;
        heading = sc.current_heading;
      } in
      record sc {
        blocks = if is_kept text then sc.blocks ++ block ∷ [] else sc.blocks;
        current_parts = [];
        current_start = none;
      }
]

-- `if current_start is None: current_start = line_start`
start_or : ℕ → Option ℕ → Option ℕ
start_or line_start none = some line_start
start_or line_start (some start) = some start

-- A line that is no heading, after `cursor += len(line)`.
add_line : Scan → ℕ → List ℕ → Scan
unfolding start_or flush_current_block
add_line sc line_start line = if is_blank line then flush_current_block sc else record sc {
  current_start = start_or line_start sc.current_start;
  current_parts = sc.current_parts ++ line ∷ [];
}

-- One round of the loop.
unfoldable pub scan_line : Scan → List ℕ → Scan
unfolding flush_current_block add_line
scan_line sc line =
    let moved = record sc { cursor = sc.cursor + length line } in
    elim (extract_heading (rstrip_breaks line)) [
      | some heading ↦ record (flush_current_block moved) {
        current_heading = some heading;
        current_start = some sc.cursor;
        current_parts = line ∷ [];
      }
      | none ↦ add_line moved sc.cursor line
    ]

abbrev pub start_scan : Scan
start_scan = record {
  blocks = [];
  current_heading = none;
  current_parts = [];
  current_start = none;
  cursor = 0;
}

-- `_iter_text_blocks`
unfoldable pub iter_text_blocks : List ℕ → List TextBlock
unfolding scan_line flush_current_block splitlines
iter_text_blocks text = (flush_current_block (foldl scan_line start_scan (splitlines text))).blocks
