-- ===== src/Tenant/Scope/Isolation.antt =====
-- Tenant isolation of a retrieval's documents (backend/services/retrieval_service.py,
-- backend/services/chat_service.py).
use chatvector_ai.Prelude.{
  ◌∙◌, ℕ, ◌≡◌, refl, ◌⊎◌, inl, inr, String, Bool, true, false, not, ◌&&◌, ◌||◌, Option, some, List,
  [], ◌∷◌, arith, is_empty, if◌then◌else◌, Bool-cases,
}
use chatvector_ai.Tenant.Names.{
  contains, keep_in, contains-keep_in, truthy, sorted, contains-sorted,
}
use chatvector_ai.Tenant.Registry.{
  Registry, TenantLookup, get_tenant_document_ids, begin_lookup, finish_lookup, add_all, answer,
  query,
}
use chatvector_ai.Tenant.Registry.Complete.{contains-add_all}
use chatvector_ai.Tenant.Scope.{
  ScopeError, RetrievalScope, session, tenant, Result, ok, failed, parse_retrieval_scope,
  resolve_scoped_doc_ids, no_tenant, or_empty, filter_doc_ids_for_tenant, keep_out,
  assert_tenant_isolation, resolve_retrieval_doc_ids,
}

-- What session scope searches: the documents that are both requested and the session's, or all of
-- one kind where there is none of the other. Tenant scope searches the tenant's documents, or those
-- requested where the tenant has none.
pub contains-resolve_scoped_doc_ids :
    (scope : RetrievalScope) (requested session_docs tenant_docs : List String) (d : String)
    → contains d (resolve_scoped_doc_ids scope requested (some session_docs) (some tenant_docs))
      ≡ elim scope [
        | session ↦
            (is_empty session_docs || contains d session_docs)
            && ((is_empty requested && not (is_empty session_docs)) || contains d requested)
        | tenant ↦ if is_empty tenant_docs then contains d requested else contains d tenant_docs
      ]
unfolding resolve_scoped_doc_ids
contains-resolve_scoped_doc_ids session requested session_docs tenant_docs d =
    ground (arith, contains-keep_in session_docs requested d)
contains-resolve_scoped_doc_ids tenant requested session_docs tenant_docs d = ground arith

Result-cases {ℓ} :
    {A : Type ℓ} (r : Result A) → ((a : A) × (r ≡ ok a)) ⊎ ((x : ScopeError) × (r ≡ failed x))
Result-cases (ok a) = inl (a, refl)
Result-cases (failed x) = inr (x, refl)

keep_out-keep_in : (allowed ds : List String) → keep_out allowed (keep_in allowed ds) ≡ []
keep_out-keep_in allowed [] = refl
keep_out-keep_in allowed (d ∷ ds) = ground (arith, keep_out-keep_in allowed ds)

-- After the tenant filter the isolation check cannot fail, whatever the documents are.
pub assert_tenant_isolation-filter :
    (doc_ids : List String) (tenant_doc_ids : Option (List String)) (tenant_id : Option String)
    → assert_tenant_isolation
        (filter_doc_ids_for_tenant doc_ids tenant_doc_ids tenant_id)
        tenant_doc_ids
        tenant_id
      ≡ ok tt
unfolding assert_tenant_isolation filter_doc_ids_for_tenant
assert_tenant_isolation-filter doc_ids tenant_doc_ids tenant_id =
    elim (Bool-cases (no_tenant tenant_id || is_empty (or_empty tenant_doc_ids))) [
      | inl unchecked ↦ rw unchecked
      | inr checked ↦ rw checked (rw (keep_out-keep_in (or_empty tenant_doc_ids) doc_ids))
    ]

-- The lookup learns of a document of the tenant: by the cache where it trusts that, and else by the
-- database, whose query must not raise.
pub record Learns (l : TenantLookup) (t e : String) : Type 0 where
  pub from_cache :
      not l.disabled && contains t l.before.loaded ≡ true → contains e (l.before.documents t) ≡ true
  pub from_database :
      not l.disabled && contains t l.before.loaded ≡ false
      → (ds : List String) × (l.answered ≡ some ds) × (contains e ds ≡ true)

contains-finish_lookup :
    (disabled : Bool) (t e : String) (ds : List String) (r : Registry)
    → contains e ds ≡ true
    → contains e (finish_lookup disabled t (some ds) r).0 ≡ true
unfolding finish_lookup
contains-finish_lookup true t e ds r h = contains-sorted e ds ∙ h
contains-finish_lookup false t e ds r h =
    contains-sorted e (add_all ds (r.documents t))
    ∙ ground (arith, contains-add_all e ds (r.documents t), h)

contains-get_tenant_document_ids :
    (l : TenantLookup) (t e : String)
    → truthy t ≡ true
    → Learns l t e
    → contains e (get_tenant_document_ids l (some t)) ≡ true
unfolding get_tenant_document_ids begin_lookup
contains-get_tenant_document_ids l t e named learns =
    elim (Bool-cases (not l.disabled && contains t l.before.loaded)) [
      | inl cached ↦
          let begun : begin_lookup l.disabled (some t) l.before
              ≡ answer (sorted (l.before.documents t)) =
            ground (arith, named, cached) in
          rw (begun, get_tenant_document_ids)
            (contains-sorted e (l.before.documents t) ∙ learns.from_cache cached)
      | inr asked ↦
          let begun : begin_lookup l.disabled (some t) l.before ≡ query t =
            ground (arith, named, asked) in
          let (ds, answered, found) = learns.from_database asked in
          rw (begun, get_tenant_document_ids)
            (rw answered (contains-finish_lookup l.disabled t e ds l.behind found))
    ]

-- For a request with a tenant: if the lookup of the tenant's documents learns of any, from its trusted
-- cache or from a query that does not raise, every document that the turn may search is among those
-- that the lookup gives for the tenant; the metadata filter is only assumed to add none.
pub resolve_retrieval_doc_ids-isolated :
    (scope : Option (List ℕ)) (requested session_docs : List String) (l : TenantLookup)
    (t e : String) (has_filter : Bool) (by_metadata : List String → List String)
    (result : List String) (d : String)
    → ((ds : List String) (e : String) → contains e (by_metadata ds) ≡ true → contains e ds ≡ true)
    → truthy t ≡ true
    → Learns l t e
    → resolve_retrieval_doc_ids scope requested session_docs l (some t) has_filter by_metadata
      ≡ ok result
    → contains d result ≡ true
    → contains d (get_tenant_document_ids l (some t)) ≡ true
unfolding resolve_retrieval_doc_ids filter_doc_ids_for_tenant
resolve_retrieval_doc_ids-isolated scope requested session_docs l t e has_filter by_metadata result
      d narrows named learns h c =
    let tenant_docs = get_tenant_document_ids l (some t) in
    let some_docs = contains-get_tenant_document_ids l t e named learns in
    elim (Result-cases (parse_retrieval_scope scope)) [
      | inl (s, p) ↦
          (let scoped = resolve_scoped_doc_ids s requested (some session_docs) (some tenant_docs) in
            ground (
              arith,
              p,
              some_docs,
              narrows (keep_in tenant_docs scoped) d,
              contains-keep_in tenant_docs scoped d,
            ))
      | inr (x, p) ↦ absurd (ground (arith, p))
    ]
