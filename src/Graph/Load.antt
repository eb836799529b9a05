-- ===== src/Graph/Load.antt =====
-- The graph that a fixture's rows build (backend/services/graph_retrieval.py).
use chatvector_ai.Prelude.{
  Bool-cases, inl, inr, ◌↔◌, arith, ◌≡◌, refl, ap, ◌∙◌, Bool, true, false, ◌||◌, ◌&&◌, String,
  str_eq, eq_iff, List, [], ◌∷◌, if◌then◌else◌,
}
use chatvector_ai.Tenant.Names.{contains, add, contains-add}
use chatvector_ai.Graph.{
  GraphChunk, ChunkKey, contains_key, add_key, key_eq, key_eq_iff, contains_key-add_key, get_or,
  update, mentions, related, chunks_of, EntityChunkGraph, empty_graph, load_chunk, load_mention,
  load_relation, load_each, load_fixture_graph,
}

-- What a dictionary gives after an update of one key.
get_or-update {ℓ κ} :
    {K : Type ℓ} {V : Type κ} (eq : K → K → Bool) (v : V) (f : V → V) (k j : K) (d : List (K × V))
    → ((a b : K) → (eq a b ≡ true) ↔ (a ≡ b))
    → get_or eq v j (update eq v f k d) ≡ (if eq k j then f (get_or eq v k d) else get_or eq v j d)
get_or-update eq v f k j [] eq_iff' = refl
get_or-update eq v f k j ((i, w) ∷ d) eq_iff' = elim (Bool-cases (eq i k)) [
  | inl same ↦ rw (same, update) (ground (arith, eq_iff' i k, eq_iff' k j, eq_iff' i j))
  | inr other ↦
      rw (other, update)
        (elim (Bool-cases (eq i j)) [
          | inl here ↦ rw here (
              let no : eq k j ≡ false = ground (arith, eq_iff' i j, eq_iff' k j, eq_iff' i k) in
              rw no refl)
          | inr there ↦ rw there (get_or-update eq v f k j d eq_iff')
        ])
]

-- What a row of mentions adds, and a row of relations.
contains-mentions :
    (entity : String) (key : ChunkKey) (graph : EntityChunkGraph) (k : ChunkKey) (e : String)
    → contains e (mentions (load_mention (entity, key) graph) k)
      ≡ ((str_eq entity e && key_eq key k) || contains e (mentions graph k))
unfolding load_mention
contains-mentions entity key graph k e = ground (
  arith,
  get_or-update key_eq [] (add entity) key k graph.mentions_by_chunk key_eq_iff,
  key_eq_iff key k,
  contains-add entity e (mentions graph key),
)

contains_key-chunks_of :
    (entity : String) (key : ChunkKey) (graph : EntityChunkGraph) (k : ChunkKey) (e : String)
    → contains_key k (chunks_of (load_mention (entity, key) graph) e)
      ≡ ((str_eq entity e && key_eq key k) || contains_key k (chunks_of graph e))
unfolding load_mention
contains_key-chunks_of entity key graph k e = ground (
  arith,
  get_or-update str_eq [] (add_key key) entity e graph.chunks_by_entity eq_iff,
  eq_iff entity e,
  contains_key-add_key key k (chunks_of graph entity),
)

contains-add_related :
    (d : List (String × List String)) (s t e f : String)
    → contains e (get_or str_eq [] f (update str_eq [] (add t) s d))
      ≡ ((str_eq s f && str_eq t e) || contains e (get_or str_eq [] f d))
contains-add_related d s t e f =
    ap (contains e) (get_or-update str_eq [] (add t) s f d eq_iff)
    ∙ ground (arith, eq_iff s f, contains-add t e (get_or str_eq [] s d))

contains-related :
    (s t : String) (graph : EntityChunkGraph) (e f : String)
    → contains e (related (load_relation (s, t) graph) f)
      ≡ ((str_eq t f && str_eq s e) || ((str_eq s f && str_eq t e) || contains e (related graph f)))
unfolding load_relation
contains-related s t graph e f =
    contains-add_related (update str_eq [] (add t) s graph.related_entities) t s e f
    ∙ ap (λ b. (str_eq t f && str_eq s e) || b)
        (contains-add_related graph.related_entities s t e f)

-- A chunk is listed under an entity exactly when the entity is listed under the chunk, and relations
-- go both ways.
abbrev pub IsCoherent : EntityChunkGraph → Type 0
IsCoherent graph =
    ((k : ChunkKey) (e : String)
      → contains_key k (chunks_of graph e) ≡ contains e (mentions graph k))
    × ((e f : String) → contains e (related graph f) ≡ contains f (related graph e))

load_mention-IsCoherent :
    (row : String × ChunkKey) (graph : EntityChunkGraph)
    → IsCoherent graph
    → IsCoherent (load_mention row graph)
unfolding load_mention
load_mention-IsCoherent (entity, key) graph (both, sides) = (
  λ k e. ground (
    arith,
    contains-mentions entity key graph k e,
    contains_key-chunks_of entity key graph k e,
    both k e,
  ),
  sides,
)

load_relation-IsCoherent :
    (row : String × String) (graph : EntityChunkGraph)
    → IsCoherent graph
    → IsCoherent (load_relation row graph)
unfolding load_relation
load_relation-IsCoherent (source, target) graph (both, sides) = (
  both,
  λ e f. ground (
    arith,
    contains-related source target graph e f,
    contains-related source target graph f e,
    sides e f,
  ),
)

load_each-IsCoherent {ℓ} :
    {R : Type ℓ} (load : R → EntityChunkGraph → EntityChunkGraph)
    → ((row : R) (graph : EntityChunkGraph) → IsCoherent graph → IsCoherent (load row graph))
    → (rows : List R) (graph : EntityChunkGraph) → IsCoherent graph
    → IsCoherent (load_each load rows graph)
load_each-IsCoherent load keeps [] graph h = h
load_each-IsCoherent load keeps (row ∷ rows) graph h =
    load_each-IsCoherent load keeps rows (load row graph) (keeps row graph h)

load_chunk-IsCoherent :
    (row : GraphChunk) (graph : EntityChunkGraph)
    → IsCoherent graph
    → IsCoherent (load_chunk row graph)
unfolding load_chunk
load_chunk-IsCoherent row graph h = h

-- In the graph of any fixture a chunk is listed under an entity exactly when the entity is listed
-- under the chunk, and an entity is related to another exactly when the other is related to it.
pub load_fixture_graph-IsCoherent :
    (chunks : List GraphChunk) (mention_rows : List (String × ChunkKey))
    (relations : List (String × String))
    → IsCoherent (load_fixture_graph chunks mention_rows relations)
unfolding load_fixture_graph
load_fixture_graph-IsCoherent chunks mention_rows relations =
    let held =
      load_each-IsCoherent load_chunk load_chunk-IsCoherent chunks empty_graph
        ((λ k e. refl), (λ e f. refl)) in
    let mentioned =
      load_each-IsCoherent load_mention load_mention-IsCoherent mention_rows
        (load_each load_chunk chunks empty_graph) held in
    load_each-IsCoherent load_relation load_relation-IsCoherent relations
      (load_each load_mention mention_rows (load_each load_chunk chunks empty_graph)) mentioned
