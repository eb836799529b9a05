-- ===== src/Graph/Expand/Limit.antt =====
-- What the expansion adds (backend/services/graph_retrieval.py).
use mathlib.Core.List.{append-nil, append_assoc}
use chatvector_ai.Prelude.Int.{ℤ, clamp_zero}
use chatvector_ai.Prelude.{
  All, is_some, length-take, ◌≤◌, sym, zero, suc, length-append, ap, ◌∙◌, ℕ, ◌≡◌, ◌<◌, ◌-◌, refl,
  String, Bool, true, false, ◌&&◌, Option, none, some, List, [], ◌∷◌, ◌++◌, leb, ◌==◌, length, take,
  is_empty, inl, inr, Bool-cases, Option-cases, arith, if◌then◌else◌,
}
use chatvector_ai.Graph.{GraphChunk, ChunkKey, get, key_eq, EntityChunkGraph}
use chatvector_ai.Tenant.Names.{contains}
use chatvector_ai.Graph.Expand.{
  expand_chunks_if_enabled, ChunkMatch, expand_loop, expand_chunks, chunk_match_from_payload,
  neighbor_keys,
}

-- The chunks of the keys that the graph holds and that are in scope.
abbrev pub in_scope :
    {S : Type 0} → EntityChunkGraph → List String → List ChunkKey → List (ChunkMatch S)
in_scope graph allowed [] = []
in_scope graph allowed (key ∷ keys) =
    let rest = in_scope graph allowed keys in
    elim (get key_eq key graph.chunk_payloads) [
      | none ↦ rest
      | some payload ↦
          if contains payload.document_id allowed
          then chunk_match_from_payload payload ∷ rest
          else rest
    ]

abbrev nothing {ℓ} : {A : Type ℓ} → List A
nothing = []

take-nil {ℓ} : {A : Type ℓ} (n : ℕ) → take n (nothing {A = A}) ≡ []
take-nil zero = refl
take-nil (suc n) = refl

nothing_left : (m n : ℕ) → leb m n ≡ true → 0 ≡ m - n
nothing_left m n h = ground arith

leb-false : (m n : ℕ) → leb m n ≡ false → n < m
leb-false m n h = ground arith

-- One more element, and then as many as are left.
append-take {ℓ} :
    {A : Type ℓ} (n : ℕ) (xs ys : List A) (y : A)
    → length xs < n
    → (xs ++ y ∷ []) ++ take (n - length (xs ++ y ∷ [])) ys ≡ xs ++ take (n - length xs) (y ∷ ys)
append-take n xs ys y h =
    let left : n - length xs ≡ suc (n - length (xs ++ y ∷ [])) =
      omega (arith, length-append xs (y ∷ [])) in
    rw left (append_assoc xs (y ∷ []) (take (n - length (xs ++ y ∷ [])) ys))

module _ {S : Type 0} (graph : EntityChunkGraph) (allowed : List String) (limit : ℕ) where
  expand_loop-take :
      (extras : List (ChunkMatch S)) (keys : List ChunkKey)
      → length extras < limit
      → expand_loop graph allowed limit extras keys
        ≡ extras ++ take (limit - length extras) (in_scope graph allowed keys)
  unfolding expand_loop
  expand_loop-take extras [] h =
      rw (take-nil {A = ChunkMatch S} (limit - length extras)) (sym (append-nil extras))
  expand_loop-take extras (key ∷ keys) h =
      elim (Option-cases (get key_eq key graph.chunk_payloads)) [
        | inl missing ↦ rw (missing, expand_loop, in_scope) (expand_loop-take extras keys h)
        | inr (p, found) ↦ elim (Bool-cases (contains p.document_id allowed)) [
          | inr out ↦ rw (found, out, expand_loop, in_scope) (expand_loop-take extras keys h)
          | inl inside ↦
              let appended = extras ++ chunk_match_from_payload p ∷ [] in
              elim (Bool-cases (leb limit (length appended))) [
                | inl full ↦
                    rw (found, inside, full, expand_loop, in_scope)
                      (sym (append-nil appended)
                        ∙ ap (λ n. appended ++ take n (in_scope graph allowed keys))
                            (nothing_left limit (length appended) full)
                        ∙ append-take limit extras (in_scope graph allowed keys)
                            (chunk_match_from_payload p) h)
                | inr room ↦
                    rw (found, inside, room, expand_loop, in_scope)
                      (expand_loop-take appended keys (leb-false limit (length appended) room)
                        ∙ append-take limit extras (in_scope graph allowed keys)
                            (chunk_match_from_payload p) h)
              ]
        ]
      ]

get-empty :
    (key : ChunkKey) (d : List (ChunkKey × GraphChunk))
    → is_empty d ≡ true
    → get key_eq key d ≡ none
get-empty key [] h = refl
get-empty key (x ∷ d) h = absurd (ground arith)

in_scope-empty :
    {S : Type 0} (graph : EntityChunkGraph) (allowed : List String) (keys : List ChunkKey)
    → is_empty graph.chunk_payloads ≡ true
    → in_scope {S = S} graph allowed keys ≡ []
in_scope-empty graph allowed [] h = refl
in_scope-empty graph allowed (key ∷ keys) h =
    rw (get-empty key graph.chunk_payloads h, in_scope) (in_scope-empty graph allowed keys h)

-- The expansion leaves the retrieved chunks as they are, and adds the first neighbours that are in
-- scope, up to the limit: what is out of scope takes no place. Nothing retrieved, nothing added.
pub expand_chunks_lem :
    {S : Type 0} (seeds : List (ChunkMatch S)) (graph : EntityChunkGraph) (allowed : List String)
    (extra_limit : ℤ)
    → expand_chunks seeds graph allowed extra_limit
      ≡ seeds
        ++ (if is_empty seeds
            then []
            else take (clamp_zero extra_limit) (in_scope graph allowed (neighbor_keys seeds graph)))
unfolding expand_chunks
expand_chunks_lem [] graph allowed extra_limit = refl
expand_chunks_lem {S = S} (s ∷ ss) graph allowed extra_limit =
    let seeds = s ∷ ss in
    elim (Bool-cases (is_empty graph.chunk_payloads)) [
      | inl none_held ↦
          rw
            (
              none_held,
              in_scope-empty graph allowed (neighbor_keys seeds graph) none_held,
              take-nil {A = ChunkMatch S} (clamp_zero extra_limit),
            )
            (sym (append-nil seeds))
      | inr held ↦ elim (Bool-cases (clamp_zero extra_limit == 0)) [
        | inl zero_limit ↦
            (let no_limit : clamp_zero extra_limit ≡ 0 = ground arith in
              rw (held, no_limit, expand_chunks) (sym (append-nil seeds)))
        | inr some_limit ↦
            (let more : 0 < clamp_zero extra_limit = ground arith in
              let whole : clamp_zero extra_limit - 0 ≡ clamp_zero extra_limit = omega arith in
              rw (held, some_limit, expand_chunks)
                (ap (λ t. seeds ++ t)
                  (expand_loop-take graph allowed (clamp_zero extra_limit) []
                      (neighbor_keys seeds graph) more
                    ∙ ap (λ n. take n (in_scope graph allowed (neighbor_keys seeds graph))) whole)))
      ]
    ]

abbrev pub IsInScope : {S : Type 0} → List String → ChunkMatch S → Type 0
IsInScope allowed chunk = (d : String) × (chunk.document_id ≡ some d) × (contains d allowed ≡ true)

in_scope-IsInScope :
    (S : Type 0) (graph : EntityChunkGraph) (allowed : List String) (keys : List ChunkKey)
    → All (IsInScope {S = S} allowed) (in_scope graph allowed keys)
in_scope-IsInScope S graph allowed [] = tt
in_scope-IsInScope S graph allowed (key ∷ keys) =
    elim (Option-cases (get key_eq key graph.chunk_payloads)) [
      | inl missing ↦ rw (missing, in_scope) (in_scope-IsInScope S graph allowed keys)
      | inr (p, found) ↦ elim (Bool-cases (contains p.document_id allowed)) [
        | inr out ↦ rw (found, out, in_scope) (in_scope-IsInScope S graph allowed keys)
        | inl inside ↦
            rw (found, inside, in_scope)
              ((p.document_id, refl, inside), in_scope-IsInScope S graph allowed keys)
      ]
    ]

All-take {ℓ κ} : {A : Type ℓ} (P : A → Type κ) (n : ℕ) (xs : List A) → All P xs → All P (take n xs)
All-take P zero xs h = tt
All-take P (suc n) [] h = tt
All-take P (suc n) (x ∷ xs) h = (h.0, All-take P n xs h.1)

-- Whatever the graph holds, all that the expansion adds to the retrieved chunks is from the allowed
-- documents, and no more than the limit is added; a limit below 0 counts as 0. With the setting off
-- or with no graph nothing is added.
pub expand_chunks_if_enabled-IsInScope :
    {S : Type 0} (enabled : Bool) (configured : Option EntityChunkGraph)
    (seeds : List (ChunkMatch S)) (allowed : List String) (extra_limit : ℤ)
    → (extras : List (ChunkMatch S)) × (expand_chunks_if_enabled enabled configured seeds allowed
          extra_limit
        ≡ seeds ++ extras)
      × (length extras ≤ (if enabled && is_some configured then clamp_zero extra_limit else 0))
      × All (IsInScope allowed) extras
unfolding expand_chunks_if_enabled
expand_chunks_if_enabled-IsInScope enabled none seeds allowed extra_limit =
    ([], sym (append-nil seeds), ground arith, tt)
expand_chunks_if_enabled-IsInScope false (some graph) seeds allowed extra_limit =
    ([], sym (append-nil seeds), ground arith, tt)
expand_chunks_if_enabled-IsInScope true (some graph) [] allowed extra_limit =
    ([], expand_chunks_lem [] graph allowed extra_limit, ground arith, tt)
expand_chunks_if_enabled-IsInScope {S = S} true (some graph) (s ∷ ss) allowed extra_limit =
    let found = in_scope graph allowed (neighbor_keys (s ∷ ss) graph) in
    (
      take (clamp_zero extra_limit) found,
      expand_chunks_lem (s ∷ ss) graph allowed extra_limit,
      omega (arith, length-take (clamp_zero extra_limit) found),
      All-take (IsInScope allowed) (clamp_zero extra_limit) found
          (in_scope-IsInScope S graph allowed (neighbor_keys (s ∷ ss) graph)),
    )
