-- ===== src/Chunking/Lines.antt =====
-- Lines and headings of a text (backend/services/ingestion_pipeline.py): `str.splitlines`,
-- `_extract_heading` and `_is_heading_only_block`. Texts are lists of code points; of the characters
-- that `\s` and `strip` take for white space, the ASCII ones are modelled.
use mathlib.Core.List.{append_assoc}
use chatvector_ai.Text.{is_space, drop_spaces, strip}
use chatvector_ai.Prelude.{
  ◌≡◌, refl, arith, zero, suc, ◌++◌, ℕ, Bool, true, false, not, ◌&&◌, ◌||◌, Option, none, some,
  List, [], ◌∷◌, reverse, leb, ◌==◌, if◌then◌else◌, is_some, is_empty,
}

-- the characters at which `splitlines` ends a line
is_line_break : ℕ → Bool
is_line_break c =
    (leb 10 c && leb c 13) || (leb 28 c && leb c 30) || c == 133 || c == 8232 || c == 8233

begins_with : ℕ → List ℕ → Bool
begins_with c [] = false
begins_with c (d ∷ s) = d == c

-- Whether a line ends with `c`, before `s`: `\r\n` is one break.
ends_line : ℕ → List ℕ → Bool
unfolding is_line_break begins_with
ends_line c s = is_line_break c && not (c == b'\r' && begins_with b'\n' s)

lines_from : List ℕ → List ℕ → List (List ℕ)
lines_from line [] = if is_empty line then [] else line ∷ []
lines_from line (c ∷ s) = elim (ends_line c s) [
  | true ↦ (line ++ c ∷ []) ∷ lines_from [] s
  | false ↦ lines_from (line ++ c ∷ []) s
]

-- `text.splitlines(keepends=True)`
unfoldable pub splitlines : List ℕ → List (List ℕ)
unfolding lines_from ends_line
splitlines text = lines_from [] text

-- `"".join(parts)`
unfoldable pub joined : List (List ℕ) → List ℕ
joined [] = []
joined (part ∷ parts) = part ++ joined parts

pub joined-append :
    (parts more : List (List ℕ)) → joined (parts ++ more) ≡ joined parts ++ joined more
unfolding joined
joined-append [] more = refl
joined-append (part ∷ parts) more = rw (joined-append parts more, append_assoc) refl

joined-lines_from : (line s : List ℕ) → joined (lines_from line s) ≡ line ++ s
unfolding joined lines_from
joined-lines_from [] [] = refl
joined-lines_from (d ∷ line) [] = refl
joined-lines_from line (c ∷ s) = ground (
  arith,
  joined-lines_from [] s,
  joined-lines_from (line ++ c ∷ []) s,
  append_assoc line (c ∷ []) s,
)

pub joined-splitlines : (text : List ℕ) → joined (splitlines text) ≡ text
unfolding splitlines
joined-splitlines text = joined-lines_from [] text

-- `re.match`'s greedy `{0,n}` of one class of characters; the classes of HEADING_PATTERN that follow
-- one another have no character in common, so that it never has to give one back.
drop_at_most : ℕ → (ℕ → Bool) → List ℕ → List ℕ
drop_at_most zero p s = s
drop_at_most (suc n) p [] = []
drop_at_most (suc n) p (c ∷ s) = if p c then drop_at_most n p s else c ∷ s

-- `\s+(?P<heading>.+?)\s*$` and `strip`: a white space, and at least one more character.
heading_after : List ℕ → Option (List ℕ)
unfolding is_space strip
heading_after [] = none
heading_after (c ∷ []) = none
heading_after (c ∷ d ∷ s) = if is_space c then some (strip (d ∷ s)) else none

-- `_extract_heading`
unfoldable pub extract_heading : List ℕ → Option (List ℕ)
unfolding drop_at_most heading_after begins_with is_space
extract_heading line =
    let s = drop_at_most 3 is_space line in
    if begins_with b'#' s then heading_after (drop_at_most 6 (λ c. c == b'#') s) else none

drop_breaks : List ℕ → List ℕ
drop_breaks [] = []
drop_breaks (c ∷ s) = if c == b'\r' || c == b'\n' then drop_breaks s else c ∷ s

-- `line.rstrip("\r\n")`
unfoldable pub rstrip_breaks : List ℕ → List ℕ
unfolding drop_breaks
rstrip_breaks line = reverse (drop_breaks (reverse line))

drop_return : List ℕ → List ℕ
drop_return [] = []
drop_return (c ∷ s) = if c == b'\r' then s else c ∷ s

drop_break : List ℕ → List ℕ
unfolding is_line_break drop_return
drop_break [] = []
drop_break (c ∷ s) = if c == b'\n' then drop_return s else if is_line_break c then s else c ∷ s

-- a line of `splitlines()`, from one of `splitlines(keepends=True)`
without_break : List ℕ → List ℕ
unfolding drop_break
without_break line = reverse (drop_break (reverse line))

-- `not s.strip()`
unfoldable pub is_blank : List ℕ → Bool
unfolding drop_spaces
is_blank s = is_empty (drop_spaces s)

-- `[line for line in block_text.splitlines() if line.strip()]`
unfoldable pub non_empty_lines : List (List ℕ) → List (List ℕ)
unfolding is_blank without_break
non_empty_lines [] = []
non_empty_lines (line ∷ lines) =
    if is_blank (without_break line)
    then non_empty_lines lines
    else without_break line ∷ non_empty_lines lines

only_heading : List (List ℕ) → Bool
only_heading [] = false
only_heading (line ∷ []) = is_some (extract_heading line)
only_heading (line ∷ next ∷ lines) = false

-- `_is_heading_only_block`
unfoldable pub is_heading_only_block : List ℕ → Bool
unfolding non_empty_lines only_heading splitlines extract_heading
is_heading_only_block block_text = only_heading (non_empty_lines (splitlines block_text))
