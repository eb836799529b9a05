-- ===== src/Graph/Examples.antt =====
-- A small graph and its expansion (backend/services/graph_retrieval.py).
use chatvector_ai.Prelude.{ℕ, String, ◌≡◌, refl, none, List, [], ◌∷◌, ◌++◌, take}
use chatvector_ai.Prelude.Int.{pos}
use chatvector_ai.Graph.{
  load_chunk, load_mention, load_relation, GraphChunk, ChunkKey, EntityChunkGraph,
  load_fixture_graph,
}
use chatvector_ai.Graph.Expand.{ChunkMatch, neighbor_keys, expand_chunks, chunk_match_from_payload}
use chatvector_ai.Graph.Expand.Limit.{in_scope, expand_chunks_lem}

abbrev chunk : String → GraphChunk
chunk d = record {
  document_id = d;
  chunk_index = pos 0;
  chunk_id = d;
  chunk_text = d;
  file_name = none;
}

-- Document `a` mentions Ada, `b` and `x` mention Babbage, and the two are related.
abbrev chunks : List GraphChunk
chunks = chunk "a" ∷ chunk "b" ∷ chunk "x" ∷ []

abbrev mention_rows : List (String × ChunkKey)
mention_rows = ("ada", ("a", pos 0)) ∷ ("babbage", ("x", pos 0)) ∷ ("babbage", ("b", pos 0)) ∷ []

abbrev relations : List (String × String)
relations = ("ada", "babbage") ∷ []

abbrev graph : EntityChunkGraph
graph = load_fixture_graph chunks mention_rows relations

abbrev seeds : List (ChunkMatch ℕ)
seeds = chunk_match_from_payload (chunk "a") ∷ []

-- Document `x` is not allowed.
abbrev allowed : List String
allowed = "a" ∷ "b" ∷ []

neighbors_are : neighbor_keys seeds graph ≡ ("b", pos 0) ∷ ("x", pos 0) ∷ []
unfolding neighbor_keys load_fixture_graph load_relation load_mention load_chunk
neighbors_are = refl

one_added :
    expand_chunks seeds graph allowed (pos 5) ≡ seeds ++ chunk_match_from_payload (chunk "b") ∷ []
unfolding expand_chunks load_fixture_graph load_relation load_mention load_chunk
one_added = refl

expand_chunks_lem_example :
    expand_chunks seeds graph allowed (pos 5)
    ≡ seeds ++ take 5 (in_scope graph allowed (neighbor_keys seeds graph))
expand_chunks_lem_example = expand_chunks_lem seeds graph allowed (pos 5)
