-- ===== src/Chunking/Blocks/Layout.antt =====
-- What the blocks of a text are of the text (`_iter_text_blocks`).
use mathlib.Core.Path.{subst}
use mathlib.Core.List.{foldl, append_assoc, append-nil}
use chatvector_ai.Chunking.Lines.{
  splitlines, joined, joined-append, joined-splitlines, is_blank, extract_heading, rstrip_breaks,
}
use chatvector_ai.Chunking.Blocks.{
  TextBlock, Scan, is_kept, flush_current_block, scan_line, add_line, start_or, iter_text_blocks,
}
use chatvector_ai.Prelude.{
  ◌⊎◌, ◌≡◌, refl, ap, arith, ℕ, ◌+◌, ◌++◌, true, false, none, some, List, [], ◌∷◌, length,
  length-append, Bool-cases, Option-cases, inl, inr,
}

-- `Laid text blocks`: from its start on, `text` is made of the texts of the blocks, each at its
-- start_index, and of what is left out between them.
pub data Laid : List ℕ → List TextBlock → Type 0 where
  nothing : Laid [] []
  leave_out :
      {text : List ℕ} {blocks : List TextBlock} (piece : List ℕ)
      → is_kept piece ≡ false
      → Laid text blocks
      → Laid (text ++ piece) blocks
  block :
      {text : List ℕ} {blocks : List TextBlock} (b : TextBlock)
      → is_kept b.text ≡ true
      → b.start_index ≡ length text
      → Laid text blocks
      → Laid (text ++ b.text) (blocks ++ b ∷ [])

-- The loop after the lines that make up `seen`, of which `done` are flushed.
record Scanned (seen done : List ℕ) (sc : Scan) : Type 0 where
  laid : Laid done sc.blocks
  spelled : done ++ joined sc.current_parts ≡ seen
  started :
      (sc.current_start ≡ none) × (sc.current_parts ≡ []) ⊎ (sc.current_start ≡ some (length done))

module _ {seen done : List ℕ} {sc : Scan} (scanned : Scanned seen done sc) where
  open scanned use {laid, spelled, started}

  flushed_block : TextBlock
  flushed_block = record {
    text = joined sc.current_parts;
    start_index = length done;
    heading = sc.current_heading;
  }

  done_all : sc.current_parts ≡ [] → done ≡ seen
  unfolding joined
  done_all e = cc (spelled, ap (λ parts. done ++ joined parts) e, append-nil done)

  Laid-flush_current_block : Laid seen (flush_current_block sc).blocks
  unfolding flush_current_block flushed_block
  Laid-flush_current_block = elim started [
    | inl (none_yet, no_parts) ↦
        rw none_yet (subst (λ text. Laid text sc.blocks) (done_all no_parts) laid)
    | inr e ↦ rw e (elim (Bool-cases (is_kept (joined sc.current_parts))) [
      | inl kept ↦ rw kept (
          subst (λ text. Laid text (sc.blocks ++ flushed_block ∷ [])) spelled
            (block flushed_block kept refl laid))
      | inr left_out ↦
          rw left_out (subst (λ text. Laid text sc.blocks) spelled (leave_out _ left_out laid))
    ])
  ]

  flush_current_block_parts : (flush_current_block sc).current_parts ≡ []
  unfolding flush_current_block
  flush_current_block_parts = ground arith

  flush_current_block_start : (flush_current_block sc).current_start ≡ none
  unfolding flush_current_block
  flush_current_block_start = ground arith

  flush_current_block_cursor : (flush_current_block sc).cursor ≡ sc.cursor
  unfolding flush_current_block
  flush_current_block_cursor = ground arith

  -- A blank line is left out.
  is_kept-blank : (line : List ℕ) → is_blank line ≡ true → is_kept line ≡ false
  unfolding is_kept
  is_kept-blank line e = rw e refl

  moved-Scanned : (n : ℕ) → Scanned seen done (record sc { cursor = n })
  moved-Scanned n = record { laid = laid; spelled = spelled; started = started }

-- One round of the loop on a line.
module _ {seen done : List ℕ} {sc : Scan} (line : List ℕ) (scanned : Scanned seen done sc) where
  open scanned use {laid, spelled, started}

  abbrev moved : Scan
  moved = record sc { cursor = sc.cursor + length line }

  Scanned-heading :
      (heading : List ℕ)
      → sc.cursor ≡ length seen
      → Scanned (seen ++ line) seen (record (flush_current_block moved) {
        current_heading = some heading;
        current_start = some sc.cursor;
        current_parts = line ∷ [];
      })
  unfolding joined
  Scanned-heading heading counted = record {
    laid = Laid-flush_current_block (moved-Scanned scanned (sc.cursor + length line));
    spelled = rw (append-nil line) refl;
    started = inr (rw counted refl);
  }

  Scanned-blank :
      is_blank line ≡ true → Scanned (seen ++ line) (seen ++ line) (flush_current_block moved)
  unfolding joined
  Scanned-blank blank =
      let s = moved-Scanned scanned (sc.cursor + length line) in
      record {
        laid = leave_out line (is_kept-blank s line blank) (Laid-flush_current_block s);
        spelled = rw (flush_current_block_parts s) (append-nil (seen ++ line));
        started = inl (flush_current_block_start s, flush_current_block_parts s);
      }

  started_with : sc.cursor ≡ length seen → start_or sc.cursor sc.current_start ≡ some (length done)
  unfolding start_or
  started_with counted = elim started [
    | inl (none_yet, no_parts) ↦ rw none_yet (rw (done_all scanned no_parts) (rw counted refl))
    | inr e ↦ rw e refl
  ]

  Scanned-more :
      sc.cursor ≡ length seen
      → Scanned (seen ++ line) done (record moved {
        current_start = start_or sc.cursor sc.current_start;
        current_parts = sc.current_parts ++ line ∷ [];
      })
  unfolding joined
  Scanned-more counted = record {
    laid = laid;
    spelled =
        rw
          (
            joined-append sc.current_parts (line ∷ []),
            append-nil line,
            ← (append_assoc done _ line),
            spelled,
          )
          refl;
    started = inr (started_with counted);
  }

  scan_line-Scanned :
      sc.cursor ≡ length seen → (done' : List ℕ) × Scanned (seen ++ line) done' (scan_line sc line)
  unfolding scan_line add_line
  scan_line-Scanned counted = elim (Option-cases (extract_heading (rstrip_breaks line))) [
    | inr (heading, e) ↦ rw (e, scan_line) (seen, Scanned-heading heading counted)
    | inl e ↦
        rw (e, scan_line)
          (elim (Bool-cases (is_blank line)) [
            | inl blank ↦ rw (blank, add_line) (seen ++ line, Scanned-blank blank)
            | inr text ↦ rw (text, add_line) (done, Scanned-more counted)
          ])
  ]

  scan_line_cursor : sc.cursor ≡ length seen → (scan_line sc line).cursor ≡ length (seen ++ line)
  unfolding scan_line add_line
  scan_line_cursor counted = ground (
    arith,
    flush_current_block_cursor (moved-Scanned scanned (sc.cursor + length line)),
    length-append seen line,
  )

scan_lines-Laid :
    (lines : List (List ℕ)) {seen done : List ℕ} {sc : Scan}
    → Scanned seen done sc
    → sc.cursor ≡ length seen
    → Laid (seen ++ joined lines) (flush_current_block (foldl scan_line sc lines)).blocks
unfolding joined
scan_lines-Laid [] {seen} scanned counted = rw (append-nil seen) (Laid-flush_current_block scanned)
scan_lines-Laid (line ∷ lines) {seen} scanned counted =
    let (done', next) = scan_line-Scanned line scanned counted in
    rw (← (append_assoc seen line (joined lines)))
      (scan_lines-Laid lines next (scan_line_cursor line scanned counted))

-- The blocks of a text are, in order, pieces of the text, each at its start_index, and none of them
-- is blank or a heading alone. What is left out before, between and behind them are blank pieces and
-- headings alone.
pub iter_text_blocks-Laid : (text : List ℕ) → Laid text (iter_text_blocks text)
unfolding iter_text_blocks joined
iter_text_blocks-Laid text =
    subst (λ t. Laid t (iter_text_blocks text)) (joined-splitlines text)
      (scan_lines-Laid (splitlines text)
        (record { laid = nothing; spelled = refl; started = inl (refl, refl) }) refl)
