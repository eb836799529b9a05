-- ===== src/Graph/Expand/Neighbors.antt =====
-- Which chunks are neighbours (backend/services/graph_retrieval.py).
use chatvector_ai.Prelude.{
  arith, Bool-cases, inl, inr, ◌↔◌, ◌⊎◌, ◌≡◌, refl, sym, ◌∙◌, Bool, true, false, not, ◌||◌, ◌&&◌,
  String, str_eq, eq_iff, List, [], ◌∷◌,
}
use chatvector_ai.Tenant.Names.{contains, add, sorted, contains-add, contains-sorted}
use chatvector_ai.Graph.{ChunkKey, contains_key, mentions, related, chunks_of, EntityChunkGraph}
use chatvector_ai.Graph.Expand.{
  Bool-cases, ChunkMatch, add_each, seed_keys, seed_entities, with_related, neighbor_entities,
  neighbor_keys,
}
use chatvector_ai.Graph.Expand.Visits.{mentioned_in, visit_entities-ordered}

-- Some chunk of the keys mentions the entity.
abbrev pub mentioned_by : EntityChunkGraph → List ChunkKey → String → Bool
mentioned_by graph [] e = false
mentioned_by graph (key ∷ keys) e = contains e (mentions graph key) || mentioned_by graph keys e

-- Some entity that a chunk of the keys mentions is related to the entity.
abbrev pub IsRelated : EntityChunkGraph → List ChunkKey → String → Type 0
IsRelated graph keys e =
    (f : String) × (mentioned_by graph keys f ≡ true) × (contains e (related graph f) ≡ true)

contains-add_each :
    (e : String) (ys xs : List String)
    → contains e (add_each ys xs) ≡ (contains e xs || contains e ys)
contains-add_each e [] xs = ground arith
contains-add_each e (y ∷ ys) xs =
    ground (arith, contains-add_each e ys (add y xs), contains-add y e xs)

contains-seed_entities :
    (graph : EntityChunkGraph) (keys : List ChunkKey) (e : String)
    → contains e (seed_entities graph keys) ≡ mentioned_by graph keys e
contains-seed_entities graph [] e = refl
contains-seed_entities graph (key ∷ keys) e = ground (
  arith,
  contains-add_each e (mentions graph key) (seed_entities graph keys),
  contains-seed_entities graph keys e,
)

-- An entity of a larger set was in it, or is related to one of those that were gone through.
with_related-cases :
    (graph : EntityChunkGraph) (es xs : List String) (e : String)
    → contains e (with_related graph es xs) ≡ true
    → (contains e xs ≡ true)
      ⊎ ((f : String) × (contains f es ≡ true) × (contains e (related graph f) ≡ true))
with_related-cases graph [] xs e h = inl h
with_related-cases graph (x ∷ es) xs e h =
    elim (with_related-cases graph es (add_each (related graph x) xs) e h) [
      | inl c ↦ elim (Bool-cases (contains e xs)) [
        | inl old ↦ inl old
        | inr new ↦ inr (
          x,
          ground (arith, eq_iff x x),
          ground (arith, contains-add_each e (related graph x) xs),
        )
      ]
      | inr (f, m, r) ↦ inr (f, ground arith, r)
    ]

with_related-keeps :
    (graph : EntityChunkGraph) (es xs : List String) (e : String)
    → contains e xs ≡ true
    → contains e (with_related graph es xs) ≡ true
with_related-keeps graph [] xs e h = h
with_related-keeps graph (x ∷ es) xs e h =
    with_related-keeps graph es (add_each (related graph x) xs) e
      (ground (arith, contains-add_each e (related graph x) xs))

with_related-adds :
    (graph : EntityChunkGraph) (es xs : List String) (e f : String)
    → contains f es ≡ true
    → contains e (related graph f) ≡ true
    → contains e (with_related graph es xs) ≡ true
with_related-adds graph [] xs e f m r = absurd (ground arith)
with_related-adds graph (x ∷ es) xs e f m r = elim (Bool-cases (str_eq x f)) [
  | inl same ↦
      with_related-keeps graph es (add_each (related graph x) xs) e
        (ground (arith, eq_iff x f, contains-add_each e (related graph x) xs))
  | inr other ↦ with_related-adds graph es (add_each (related graph x) xs) e f (ground arith) r
]

mentioned_in-some :
    (graph : EntityChunkGraph) (es : List String) (k : ChunkKey)
    → mentioned_in graph es k ≡ true
    → (e : String) × (contains e es ≡ true) × (contains_key k (chunks_of graph e) ≡ true)
mentioned_in-some graph [] k h = absurd (ground arith)
mentioned_in-some graph (x ∷ es) k h = elim (Bool-cases (contains_key k (chunks_of graph x))) [
  | inl here ↦ (x, ground (arith, eq_iff x x), here)
  | inr there ↦ (let m = mentioned_in-some graph es k (ground arith) in (m.0, ground arith, m.2))
]

mentioned_in-any :
    (graph : EntityChunkGraph) (es : List String) (k : ChunkKey) (e : String)
    → contains e es ≡ true
    → contains_key k (chunks_of graph e) ≡ true
    → mentioned_in graph es k ≡ true
mentioned_in-any graph [] k e m c = absurd (ground arith)
mentioned_in-any graph (x ∷ es) k e m c = elim (Bool-cases (str_eq x e)) [
  | inl same ↦ ground (arith, eq_iff x e)
  | inr other ↦ ground (arith, mentioned_in-any graph es k e (ground arith) c)
]

neighbor_keys-mentioned_in :
    {S : Type 0} (seeds : List (ChunkMatch S)) (graph : EntityChunkGraph) (k : ChunkKey)
    → contains_key k (neighbor_keys seeds graph) ≡ (
        mentioned_in graph (sorted (neighbor_entities graph (seed_keys seeds))) k
        && not (contains_key k (seed_keys seeds)))
unfolding neighbor_keys
neighbor_keys-mentioned_in seeds graph k =
    visit_entities-ordered k graph (sorted (neighbor_entities graph (seed_keys seeds)))
      (record { seen = seed_keys seeds; ordered = [] })

-- Which entities a search from the keys goes through.
neighbor_entities-cases :
    (graph : EntityChunkGraph) (keys : List ChunkKey) (e : String)
    → contains e (neighbor_entities graph keys) ≡ true
    → (mentioned_by graph keys e ≡ true) ⊎ IsRelated graph keys e
neighbor_entities-cases graph keys e h =
    let entities = seed_entities graph keys in
    elim (with_related-cases graph entities entities e h) [
      | inl c ↦ inl (sym (contains-seed_entities graph keys e) ∙ c)
      | inr (f, m, r) ↦ inr (f, sym (contains-seed_entities graph keys f) ∙ m, r)
    ]

neighbor_entities-any :
    (graph : EntityChunkGraph) (keys : List ChunkKey) (e : String)
    → (mentioned_by graph keys e ≡ true) ⊎ IsRelated graph keys e
    → contains e (neighbor_entities graph keys) ≡ true
neighbor_entities-any graph keys e (inl m) =
    let entities = seed_entities graph keys in
    with_related-keeps graph entities entities e (contains-seed_entities graph keys e ∙ m)
neighbor_entities-any graph keys e (inr (f, m, r)) =
    let entities = seed_entities graph keys in
    with_related-adds graph entities entities e f (contains-seed_entities graph keys f ∙ m) r

-- A chunk is a neighbour of the retrieved ones exactly when it is not one of them and some entity
-- mentioned in it is mentioned in one of them or related to an entity mentioned in one of them.
pub neighbor_keys_iff :
    {S : Type 0} (seeds : List (ChunkMatch S)) (graph : EntityChunkGraph) (k : ChunkKey)
    → (contains_key k (neighbor_keys seeds graph) ≡ true) ↔ (
        (contains_key k (seed_keys seeds) ≡ false)
        × ((e : String) × ((mentioned_by graph (seed_keys seeds) e ≡ true)
              ⊎ IsRelated graph (seed_keys seeds) e)
            × (contains_key k (chunks_of graph e) ≡ true)))
neighbor_keys_iff seeds graph k =
    let keys = seed_keys seeds in
    let es = neighbor_entities graph keys in
    (
      λ h.
          (let (e, m, c) =
              mentioned_in-some graph (sorted es) k
                (ground (arith, neighbor_keys-mentioned_in seeds graph k)) in
            (
              ground (arith, neighbor_keys-mentioned_in seeds graph k),
              (e, neighbor_entities-cases graph keys e (sym (contains-sorted e es) ∙ m), c),
            )),
      λ p.
          (let (fresh, (e, how, c)) = p in
            let m =
              mentioned_in-any graph (sorted es) k e
                (contains-sorted e es ∙ neighbor_entities-any graph keys e how) c in
            ground (arith, neighbor_keys-mentioned_in seeds graph k)),
    )
