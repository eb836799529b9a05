-- ===== src/Graph.antt =====
-- The graph that retrieval is widened with (backend/services/graph_retrieval.py): sets of chunk keys,
-- and the graph that a fixture's rows build.
pub mod Expand
pub mod Load
mod Examples
use Prim.Native.String.{String, [], compare}
use Prim.Native.Nat.{Ordering}
use chatvector_ai.Prelude.Int.{ℤ, pos, negsuc}
use chatvector_ai.Prelude.{
  ℕ, ltb, String, str_eq, eq_iff, Bool, true, false, not, ◌||◌, ◌&&◌, ◌≡◌, ◌↔◌, refl, ap, Option,
  none, some, List, [], ◌∷◌, leb, ◌==◌, arith, if◌then◌else◌,
}
use chatvector_ai.Tenant.Names.{contains, add}

-- A document's id and the index of a chunk in it.
abbrev pub ChunkKey : Type 0
ChunkKey = String × ℤ

abbrev pub int_eq : ℤ → ℤ → Bool
int_eq (pos m) (pos n) = m == n
int_eq (negsuc m) (negsuc n) = m == n
int_eq (pos m) (negsuc n) = false
int_eq (negsuc m) (pos n) = false

abbrev pub key_eq : ChunkKey → ChunkKey → Bool
key_eq (d, i) (e, j) = str_eq d e && int_eq i j

int_eq_iff : (i j : ℤ) → (int_eq i j ≡ true) ↔ (i ≡ j)
int_eq_iff (pos m) (pos n) = ground arith
int_eq_iff (negsuc m) (negsuc n) = ground arith
int_eq_iff (pos m) (negsuc n) = ground arith
int_eq_iff (negsuc m) (pos n) = ground arith

pub key_eq_iff : (k l : ChunkKey) → (key_eq k l ≡ true) ↔ (k ≡ l)
key_eq_iff (d, i) (e, j) = ground (arith, eq_iff d e, int_eq_iff i j)

-- `key in keys`
abbrev pub contains_key : ChunkKey → List ChunkKey → Bool
contains_key k [] = false
contains_key k (x ∷ xs) = key_eq x k || contains_key k xs

abbrev pub add_key : ChunkKey → List ChunkKey → List ChunkKey
add_key k xs = if contains_key k xs then xs else k ∷ xs

abbrev pub int_leb : ℤ → ℤ → Bool
int_leb (pos m) (pos n) = leb m n
int_leb (negsuc m) (negsuc n) = leb n m
int_leb (pos m) (negsuc n) = false
int_leb (negsuc m) (pos n) = true

-- The order of tuples.
key_leb : ChunkKey → ChunkKey → Bool
key_leb (d, i) (e, j) = elim (compare d e) [
  | Ordering.lt ↦ true
  | Ordering.eq ↦ int_leb i j
  | Ordering.gt ↦ false
]

insert_key : ChunkKey → List ChunkKey → List ChunkKey
unfolding key_leb
insert_key k [] = k ∷ []
insert_key k (x ∷ xs) = if key_leb k x then k ∷ x ∷ xs else x ∷ insert_key k xs

-- `sorted(keys)`
unfoldable pub sorted_keys : List ChunkKey → List ChunkKey
unfolding insert_key
sorted_keys [] = []
sorted_keys (x ∷ xs) = insert_key x (sorted_keys xs)

pub record GraphChunk : Type 0 where
  pub document_id : String
  pub chunk_index : ℤ
  pub chunk_id : String
  pub chunk_text : String
  pub file_name : Option String

-- Dictionaries as association lists.
pub record EntityChunkGraph : Type 0 where
  pub mentions_by_chunk : List (ChunkKey × List String)
  pub chunks_by_entity : List (String × List ChunkKey)
  pub related_entities : List (String × List String)
  pub chunk_payloads : List (ChunkKey × GraphChunk)

abbrev pub empty_graph : EntityChunkGraph
empty_graph = record {
  mentions_by_chunk = [];
  chunks_by_entity = [];
  related_entities = [];
  chunk_payloads = [];
}

module _ {ℓ κ} {K : Type ℓ} {V : Type κ} (eq : K → K → Bool) where
  -- `d.get(k)`
  abbrev pub get : K → List (K × V) → Option V
  get k [] = none
  get k ((j, v) ∷ d) = if eq j k then some v else get k d

  -- `d.get(k, default)`
  abbrev pub get_or : V → K → List (K × V) → V
  get_or v k [] = v
  get_or v k ((j, w) ∷ d) = if eq j k then w else get_or v k d

  -- `d[k] = f(d.setdefault(k, v))`
  abbrev pub update : V → (V → V) → K → List (K × V) → List (K × V)
  update v f k [] = (k, f v) ∷ []
  update v f k ((j, w) ∷ d) = if eq j k then (j, f w) ∷ d else (j, w) ∷ update v f k d

-- `graph.mentions_by_chunk.get(key, set())`
abbrev pub mentions : EntityChunkGraph → ChunkKey → List String
mentions graph key = get_or key_eq [] key graph.mentions_by_chunk

-- `graph.chunks_by_entity.get(entity_id, set())`
abbrev pub chunks_of : EntityChunkGraph → String → List ChunkKey
chunks_of graph entity = get_or str_eq [] entity graph.chunks_by_entity

-- `graph.related_entities.get(entity_id, set())`
abbrev pub related : EntityChunkGraph → String → List String
related graph entity = get_or str_eq [] entity graph.related_entities

unfoldable pub load_chunk : GraphChunk → EntityChunkGraph → EntityChunkGraph
load_chunk row graph = record graph {
  chunk_payloads =
      update key_eq row (λ _. row) (row.document_id, row.chunk_index) graph.chunk_payloads;
}

unfoldable pub load_mention : String × ChunkKey → EntityChunkGraph → EntityChunkGraph
load_mention (entity, key) graph = record graph {
  mentions_by_chunk = update key_eq [] (add entity) key graph.mentions_by_chunk;
  chunks_by_entity = update str_eq [] (add_key key) entity graph.chunks_by_entity;
}

unfoldable pub load_relation : String × String → EntityChunkGraph → EntityChunkGraph
load_relation (source, target) graph = record graph {
  related_entities =
      update str_eq [] (add source) target
        (update str_eq [] (add target) source graph.related_entities);
}

abbrev pub load_each {ℓ} :
    {R : Type ℓ}
    → (R → EntityChunkGraph → EntityChunkGraph)
    → List R
    → EntityChunkGraph
    → EntityChunkGraph
load_each load [] graph = graph
load_each load (row ∷ rows) graph = load_each load rows (load row graph)

-- The rows of the fixture, parsed, with each chunk's id filled in.
unfoldable pub load_fixture_graph :
    List GraphChunk → List (String × ChunkKey) → List (String × String) → EntityChunkGraph
load_fixture_graph chunks mention_rows relations =
    load_each load_relation relations
      (load_each load_mention mention_rows (load_each load_chunk chunks empty_graph))

pub contains_key-add_key :
    (k l : ChunkKey) (xs : List ChunkKey)
    → contains_key l (add_key k xs) ≡ (key_eq k l || contains_key l xs)
contains_key-add_key k l xs = ground (arith, key_eq_iff k l)

contains_key-insert_key :
    (k l : ChunkKey) (xs : List ChunkKey)
    → contains_key l (insert_key k xs) ≡ (key_eq k l || contains_key l xs)
unfolding insert_key
contains_key-insert_key k l [] = refl
contains_key-insert_key k l (x ∷ xs) = ground (arith, contains_key-insert_key k l xs)

pub contains_key-sorted_keys :
    (k : ChunkKey) (xs : List ChunkKey) → contains_key k (sorted_keys xs) ≡ contains_key k xs
unfolding sorted_keys
contains_key-sorted_keys k [] = refl
contains_key-sorted_keys k (x ∷ xs) =
    ground (arith, contains_key-insert_key x k (sorted_keys xs), contains_key-sorted_keys k xs)
