-- ===== src/Graph/Expand/Visits.antt =====
-- What the walk over the neighbours' entities keeps (backend/services/graph_retrieval.py).
use chatvector_ai.Prelude.{
  arith, Bool-cases, inl, inr, ◌≡◌, refl, Bool, false, not, ◌||◌, ◌&&◌, String, List, [], ◌∷◌, ◌++◌,
}
use chatvector_ai.Graph.{
  contains_key-add_key, ChunkKey, contains_key, add_key, key_eq_iff, chunks_of, sorted_keys,
  contains_key-sorted_keys, EntityChunkGraph,
}
use chatvector_ai.Graph.Expand.{Bool-cases, Visit, visit_keys, visit_entities}

-- One of the entities is mentioned in the chunk.
abbrev pub mentioned_in : EntityChunkGraph → List String → ChunkKey → Bool
mentioned_in graph [] key = false
mentioned_in graph (e ∷ es) key = contains_key key (chunks_of graph e) || mentioned_in graph es key

contains_key-append :
    (k : ChunkKey) (xs ys : List ChunkKey)
    → contains_key k (xs ++ ys) ≡ (contains_key k xs || contains_key k ys)
contains_key-append k [] ys = refl
contains_key-append k (x ∷ xs) ys = ground (arith, contains_key-append k xs ys)

-- What was seen, and what was kept, decide a visit.
visit_keys-seen :
    (k : ChunkKey) (keys : List ChunkKey) (v : Visit)
    → contains_key k (visit_keys keys v).seen ≡ (contains_key k v.seen || contains_key k keys)
unfolding visit_keys
visit_keys-seen k [] v = ground arith
visit_keys-seen k (x ∷ keys) v = elim (Bool-cases (contains_key x v.seen)) [
  | inl again ↦ rw (again, visit_keys) (ground (arith, key_eq_iff x k, visit_keys-seen k keys v))
  | inr first ↦
      (let w : Visit = record { seen = add_key x v.seen; ordered = v.ordered ++ x ∷ [] } in
        rw (first, visit_keys)
          (ground (
            arith,
            key_eq_iff x k,
            visit_keys-seen k keys w,
            contains_key-add_key x k v.seen,
            contains_key-append k v.ordered (x ∷ []),
          )))
]

visit_keys-ordered :
    (k : ChunkKey) (keys : List ChunkKey) (v : Visit)
    → contains_key k (visit_keys keys v).ordered
      ≡ (contains_key k v.ordered || (contains_key k keys && not (contains_key k v.seen)))
unfolding visit_keys
visit_keys-ordered k [] v = ground arith
visit_keys-ordered k (x ∷ keys) v = elim (Bool-cases (contains_key x v.seen)) [
  | inl again ↦ rw (again, visit_keys) (ground (arith, key_eq_iff x k, visit_keys-ordered k keys v))
  | inr first ↦
      (let w : Visit = record { seen = add_key x v.seen; ordered = v.ordered ++ x ∷ [] } in
        rw (first, visit_keys)
          (ground (
            arith,
            key_eq_iff x k,
            visit_keys-ordered k keys w,
            contains_key-add_key x k v.seen,
            contains_key-append k v.ordered (x ∷ []),
          )))
]

pub visit_entities-seen :
    (k : ChunkKey) (graph : EntityChunkGraph) (es : List String) (v : Visit)
    → contains_key k (visit_entities graph es v).seen
      ≡ (contains_key k v.seen || mentioned_in graph es k)
unfolding visit_entities
visit_entities-seen k graph [] v = ground arith
visit_entities-seen k graph (e ∷ es) v =
    let w = visit_keys (sorted_keys (chunks_of graph e)) v in
    ground (
      arith,
      visit_entities-seen k graph es w,
      visit_keys-seen k (sorted_keys (chunks_of graph e)) v,
      contains_key-sorted_keys k (chunks_of graph e),
    )

pub visit_entities-ordered :
    (k : ChunkKey) (graph : EntityChunkGraph) (es : List String) (v : Visit)
    → contains_key k (visit_entities graph es v).ordered
      ≡ (contains_key k v.ordered || (mentioned_in graph es k && not (contains_key k v.seen)))
unfolding visit_entities
visit_entities-ordered k graph [] v = ground arith
visit_entities-ordered k graph (e ∷ es) v =
    let w = visit_keys (sorted_keys (chunks_of graph e)) v in
    ground (
      arith,
      visit_entities-ordered k graph es w,
      visit_keys-seen k (sorted_keys (chunks_of graph e)) v,
      visit_keys-ordered k (sorted_keys (chunks_of graph e)) v,
      contains_key-sorted_keys k (chunks_of graph e),
    )
