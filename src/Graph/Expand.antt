-- ===== src/Graph/Expand.antt =====
-- Retrieved chunks and their neighbours in the graph (backend/services/graph_retrieval.py).
pub mod Visits
pub mod Neighbors
pub mod Limit
use chatvector_ai.Prelude.{
  ℕ, ◌≡◌, ◌<◌, ◌-◌, refl, String, str_eq, Bool, true, false, not, ◌||◌, ◌&&◌, Option, none, some,
  List, [], ◌∷◌, ◌++◌, leb, ◌==◌, length, take, is_empty, inl, inr, Bool-cases, Option-cases, arith,
  if◌then◌else◌,
}
use chatvector_ai.Prelude.Int.{ℤ, clamp_zero}
use chatvector_ai.Tenant.Names.{contains, add, sorted}
use chatvector_ai.Graph.{
  ChunkKey, contains_key, add_key, get, key_eq, mentions, related, chunks_of, sorted_keys,
  EntityChunkGraph, GraphChunk,
}

-- A retrieved chunk, as far as this code reads or sets it; `scores` is all else, and `none` where the
-- scores are 0 and nothing else is set.
pub record ChunkMatch (S : Type 0) : Type 0 where
  pub id : String
  pub chunk_text : String
  pub document_id : Option String
  pub chunk_index : Option ℤ
  pub file_name : Option String
  pub scores : Option S

abbrev pub chunk_key : Option String → Option ℤ → Option ChunkKey
chunk_key none index = none
chunk_key (some d) none = none
chunk_key (some d) (some index) = some (d, index)

-- `xs.update(ys)`
abbrev pub add_each : List String → List String → List String
add_each [] xs = xs
add_each (y ∷ ys) xs = add_each ys (add y xs)

module _ {S : Type 0} where
  abbrev pub seed_keys : List (ChunkMatch S) → List ChunkKey
  seed_keys [] = []
  seed_keys (chunk ∷ seeds) =
      let rest = seed_keys seeds in
      elim (chunk_key chunk.document_id chunk.chunk_index) [
        | none ↦ rest
        | some key ↦ add_key key rest
      ]

abbrev pub seed_entities : EntityChunkGraph → List ChunkKey → List String
seed_entities graph [] = []
seed_entities graph (key ∷ keys) = add_each (mentions graph key) (seed_entities graph keys)

abbrev pub with_related : EntityChunkGraph → List String → List String → List String
with_related graph [] entities = entities
with_related graph (e ∷ es) entities = with_related graph es (add_each (related graph e) entities)

-- The keys seen, and those kept in their order.
pub record Visit : Type 0 where
  pub seen : List ChunkKey
  pub ordered : List ChunkKey

unfoldable pub visit_keys : List ChunkKey → Visit → Visit
visit_keys [] v = v
visit_keys (key ∷ keys) v = visit_keys keys (
    if contains_key key v.seen
    then v
    else record { seen = add_key key v.seen; ordered = v.ordered ++ key ∷ [] })

unfoldable pub visit_entities : EntityChunkGraph → List String → Visit → Visit
unfolding visit_keys sorted_keys
visit_entities graph [] v = v
visit_entities graph (e ∷ es) v =
    visit_entities graph es (visit_keys (sorted_keys (chunks_of graph e)) v)

abbrev pub neighbor_entities : EntityChunkGraph → List ChunkKey → List String
neighbor_entities graph keys =
    let entities = seed_entities graph keys in with_related graph entities entities

unfoldable pub neighbor_keys : {S : Type 0} → List (ChunkMatch S) → EntityChunkGraph → List ChunkKey
unfolding visit_entities sorted
neighbor_keys seeds graph =
    let keys = seed_keys seeds in
    let v =
      visit_entities graph (sorted (neighbor_entities graph keys))
        (record { seen = keys; ordered = [] }) in
    v.ordered

abbrev pub chunk_match_from_payload : {S : Type 0} → GraphChunk → ChunkMatch S
chunk_match_from_payload payload = record {
  id = payload.chunk_id;
  chunk_text = payload.chunk_text;
  document_id = some payload.document_id;
  chunk_index = some payload.chunk_index;
  file_name = payload.file_name;
  scores = none;
}

unfoldable pub expand_loop :
    {S : Type 0}
    → EntityChunkGraph
    → List String
    → ℕ
    → List (ChunkMatch S)
    → List ChunkKey
    → List (ChunkMatch S)
expand_loop graph allowed extra_limit extras [] = extras
expand_loop graph allowed extra_limit extras (key ∷ keys) =
    elim (get key_eq key graph.chunk_payloads) [
      | none ↦ expand_loop graph allowed extra_limit extras keys
      | some payload ↦
          (let skip = expand_loop graph allowed extra_limit extras keys in
            let appended = extras ++ chunk_match_from_payload payload ∷ [] in
            let rest = expand_loop graph allowed extra_limit appended keys in
            if contains payload.document_id allowed
            then if leb extra_limit (length appended) then appended else rest
            else skip)
    ]

unfoldable pub expand_chunks :
    {S : Type 0} → List (ChunkMatch S) → EntityChunkGraph → List String → ℤ → List (ChunkMatch S)
unfolding neighbor_keys expand_loop
expand_chunks seeds graph allowed extra_limit =
    if is_empty seeds || is_empty graph.chunk_payloads || clamp_zero extra_limit == 0
    then seeds
    else seeds ++ expand_loop graph allowed (clamp_zero extra_limit) [] (neighbor_keys seeds graph)

-- `graph` is what `_load_configured_graph` gives, which reads a file.
unfoldable pub expand_chunks_if_enabled :
    {S : Type 0}
    → Bool
    → Option EntityChunkGraph
    → List (ChunkMatch S)
    → List String
    → ℤ
    → List (ChunkMatch S)
unfolding expand_chunks
expand_chunks_if_enabled enabled none seeds allowed extra_limit = seeds
expand_chunks_if_enabled enabled (some graph) seeds allowed extra_limit =
    if enabled then expand_chunks seeds graph allowed extra_limit else seeds
