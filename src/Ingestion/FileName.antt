-- ===== src/Ingestion/FileName.antt =====
-- The name under which a document is stored (`_sanitize_filename` of
-- backend/services/ingestion_pipeline.py). The characters of `\w` are an argument; besides them only
-- the space, the hyphen and the dot stay.
use chatvector_ai.Text.{codes, same_text, strip}
use chatvector_ai.Prelude.{ℕ, Bool, ◌||◌, ◌==◌, List, [], ◌∷◌, ◌++◌, take, is_empty, if◌then◌else◌}

-- `s.split("/")`, with the part so far
split_slashes : List ℕ → List ℕ → List (List ℕ)
split_slashes part [] = part ∷ []
split_slashes part (c ∷ s) =
    let more = split_slashes (part ++ c ∷ []) s in
    if c == b'/' then part ∷ split_slashes [] s else more

-- `pathlib.Path(name).name`: the last part that is neither empty nor a single dot
last_part : List ℕ → List (List ℕ) → List ℕ
last_part found [] = found
last_part found (part ∷ parts) =
    last_part (if is_empty part || same_text part (codes ".") then found else part) parts

-- `re.sub(r"[^\w \-.]", "", name)`
kept_characters : (ℕ → Bool) → List ℕ → List ℕ
kept_characters is_word [] = []
kept_characters is_word (c ∷ s) =
    let rest = kept_characters is_word s in
    if is_word c || c == b' ' || c == b'-' || c == b'.' then c ∷ rest else rest

-- `_sanitize_filename`
unfoldable pub sanitize_filename : (ℕ → Bool) → List ℕ → List ℕ
unfolding split_slashes last_part kept_characters strip
sanitize_filename is_word file_name =
    let name =
      take 255 (strip (kept_characters is_word (last_part [] (split_slashes [] file_name)))) in
    if same_text name (codes ".") || same_text name (codes "..")
    then codes "upload"
    else if is_empty name
    then codes "upload"
    else name
