-- ===== src/Chunking/Documents.antt =====
-- Chunk documents, their metadata, and the splitter (backend/services/ingestion_pipeline.py).
pub mod Fallback
pub mod Rebase
use chatvector_ai.Prelude.{
  ◌≡◌, ◌≤◌, ℕ, ◌+◌, ◌++◌, String, Option, none, some, List, [], ◌∷◌, length, All, take, drop, ◌-◌,
}
use chatvector_ai.Prelude.Dict.{Dict, IsDict, lookup, assign, update}

-- The values of a chunk's metadata.
pub data Meta : Type 0 where
  text : List ℕ → Meta
  index : ℕ → Meta

abbrev pub Metadata : Type 0
Metadata = Dict Meta

pub record Document : Type 0 where
  pub page_content : List ℕ
  pub metadata : Metadata

-- `if value is not None: metadata[key] = value`
unfoldable pub assign_given {ℓ} :
    {A : Type ℓ} → String → (A → Meta) → Option A → Metadata → Metadata
unfolding assign
assign_given key make none metadata = metadata
assign_given key make (some value) metadata = assign key (make value) metadata

-- `_merge_metadata`: the base, the extra metadata, the start index and the heading.
unfoldable pub merge_metadata : Metadata → Metadata → Option ℕ → Option (List ℕ) → Metadata
unfolding assign_given update
merge_metadata base extra start_index heading =
    assign_given "heading" text heading
      (assign_given "start_index" index start_index (update base extra))

-- `int(metadata.get("start_index", 0))`; splitters put a number there.
unfoldable pub start_of : Metadata → ℕ
unfolding lookup
start_of metadata = elim (lookup "start_index" metadata) [
  | some (index n) ↦ n
  | some (text s) ↦ 0
  | none ↦ 0
]

-- `text[a:b]`
unfoldable pub slice : List ℕ → ℕ → ℕ → List ℕ
slice s a b = take (b - a) (drop a s)

-- `content` stands in `whole` from position `n` on.
pub record IsAt (whole : List ℕ) (n : ℕ) (content : List ℕ) : Type 0 where
  pub before : List ℕ
  pub after : List ℕ
  pub spelled : whole ≡ before ++ (content ++ after)
  pub counted : length before ≡ n

-- A piece of `whole` of at most `size` characters, with its position in its metadata.
pub record IsChunk (size : ℕ) (whole : List ℕ) (d : Document) : Type 0 where
  pub position : ℕ
  pub marked : lookup "start_index" d.metadata ≡ some (index position)
  pub stands : IsAt whole position d.page_content
  pub fits : length d.page_content ≤ size
  pub dict : IsDict d.metadata

-- `RecursiveCharacterTextSplitter` of LangChain with `add_start_index`, called by
-- `create_documents([text], metadatas=[metadata])`, and what its documentation says of it.
pub record Splitter : Type 0 where
  pub create_documents : (chunk_size chunk_overlap : ℕ) → List ℕ → Metadata → List Document

pub record IsSplitter (s : Splitter) : Type 0 where
  pub creates_chunks :
      (size overlap : ℕ) (whole : List ℕ) (metadata : Metadata)
      → IsDict metadata
      → All (IsChunk size whole) (s.create_documents size overlap whole metadata)

-- `_rebase_documents`
unfoldable pub rebase_documents : List Document → ℕ → Metadata → Option (List ℕ) → List Document
unfolding merge_metadata start_of
rebase_documents [] base_start_index base_metadata heading = []
rebase_documents (doc ∷ docs) base_start_index base_metadata heading =
    record {
      page_content = doc.page_content;
      metadata =
          merge_metadata base_metadata doc.metadata
            (some (base_start_index + start_of doc.metadata)) heading;
    }
    ∷ rebase_documents docs base_start_index base_metadata heading

merge_each : Metadata → List Document → List Document
unfolding merge_metadata
merge_each metadata [] = []
merge_each metadata (doc ∷ docs) =
    record {
      page_content = doc.page_content;
      metadata = merge_metadata metadata doc.metadata none none;
    }
    ∷ merge_each metadata docs

-- `_split_with_recursive_splitter`
unfoldable pub split_with_recursive_splitter : Splitter → List ℕ → ℕ → ℕ → Metadata → List Document
unfolding merge_each
split_with_recursive_splitter splitter whole chunk_size chunk_overlap metadata =
    merge_each metadata (splitter.create_documents chunk_size chunk_overlap whole metadata)
