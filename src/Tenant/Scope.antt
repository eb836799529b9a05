-- ===== src/Tenant/Scope.antt =====
-- Which documents a retrieval may search (backend/services/retrieval_service.py), and how a chat turn
-- puts it together with the tenant's documents (backend/services/chat_service.py).
pub mod Isolation
use chatvector_ai.Prelude.{
  leb, ◌==◌, reverse, ℕ, String, str_eq, Bool, true, false, not, ◌&&◌, ◌||◌, Option, none, some,
  List, [], ◌∷◌, ◌++◌, map, is_empty, if◌then◌else◌,
}
use chatvector_ai.Text.{lower, codes, strip, same_text}
use chatvector_ai.Tenant.Names.{contains, keep_in, sorted, truthy}
use chatvector_ai.Tenant.Registry.{TenantLookup, get_tenant_document_ids}

pub data RetrievalScope : Type 0 where
  session tenant : RetrievalScope

-- InvalidRetrievalScopeError, and the ValueError of `assert_tenant_isolation` with its documents.
pub data ScopeError : Type 0 where
  invalid_scope : List ℕ → ScopeError
  leaked : List String → ScopeError

pub data Result {ℓ} (A : Type ℓ) : Type ℓ where
  ok : A → Result A
  failed : ScopeError → Result A

infixl 5 ◌>>=◌
abbrev pub ◌>>=◌ {ℓ κ} : {A : Type ℓ} {B : Type κ} (r : Result A) (go : A → Result B) → Result B
ok found >>= go = go found
failed e >>= go = failed e

unfoldable pub parse_retrieval_scope : Option (List ℕ) → Result RetrievalScope
unfolding strip lower
parse_retrieval_scope none = ok session
parse_retrieval_scope (some value) =
    let normalized = map lower (strip value) in
    if same_text normalized (codes "session")
    then ok session
    else if same_text normalized (codes "tenant")
    then ok tenant
    else failed (invalid_scope value)

-- `docs or []`
abbrev pub or_empty : Option (List String) → List String
or_empty none = []
or_empty (some ds) = ds

unfoldable pub resolve_scoped_doc_ids :
    RetrievalScope → List String → Option (List String) → Option (List String) → List String
resolve_scoped_doc_ids session requested session_doc_ids tenant_doc_ids =
    if is_empty (or_empty session_doc_ids)
    then requested
    else if is_empty requested
    then or_empty session_doc_ids
    else keep_in (or_empty session_doc_ids) requested
resolve_scoped_doc_ids tenant requested session_doc_ids tenant_doc_ids =
    if is_empty (or_empty tenant_doc_ids) then requested else or_empty tenant_doc_ids

-- `not tenant_id`
abbrev pub no_tenant : Option String → Bool
no_tenant none = true
no_tenant (some t) = not (truthy t)

unfoldable pub filter_doc_ids_for_tenant :
    List String → Option (List String) → Option String → List String
filter_doc_ids_for_tenant doc_ids tenant_doc_ids tenant_id =
    if no_tenant tenant_id || is_empty (or_empty tenant_doc_ids)
    then doc_ids
    else keep_in (or_empty tenant_doc_ids) doc_ids

-- `[d for d in doc_ids if d not in tenant_set]`
abbrev pub keep_out : List String → List String → List String
keep_out allowed [] = []
keep_out allowed (d ∷ ds) =
    if contains d allowed then keep_out allowed ds else d ∷ keep_out allowed ds

unfoldable pub assert_tenant_isolation :
    List String → Option (List String) → Option String → Result (Unit {0})
assert_tenant_isolation doc_ids tenant_doc_ids tenant_id =
    if no_tenant tenant_id || is_empty (or_empty tenant_doc_ids)
    then ok tt
    else (let out = keep_out (or_empty tenant_doc_ids) doc_ids in
        if is_empty out then ok tt else failed (leaked (sorted out)))

-- `_resolve_retrieval_doc_ids`: `session_docs` is what the session lookup gives and `by_metadata` is
-- `filter_document_ids_by_metadata` of the database.
unfoldable pub resolve_retrieval_doc_ids :
    Option (List ℕ)
    → (requested session_docs : List String) → TenantLookup
    → Option String
    → (has_filter : Bool) → (by_metadata : List String → List String) → Result (List String)
unfolding get_tenant_document_ids
resolve_retrieval_doc_ids scope requested session_docs l tenant_id has_filter by_metadata = do
  retrieval_scope ← parse_retrieval_scope scope
  let tenant_docs = get_tenant_document_ids l tenant_id
  let doc_ids =
      filter_doc_ids_for_tenant
        (resolve_scoped_doc_ids retrieval_scope requested (some session_docs) (some tenant_docs))
        (some tenant_docs) tenant_id
  ok (if has_filter && not (is_empty doc_ids) then by_metadata doc_ids else doc_ids)
