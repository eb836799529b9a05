-- ===== src/Tenant/Examples.antt =====
-- A tenant's registry and the documents of a turn (backend/services/tenant_registry.py,
-- backend/services/retrieval_service.py).
use chatvector_ai.Prelude.{
  Option, arith, eq_iff, String, str_eq, ◌≡◌, ◌≢◌, refl, true, false, none, some, List, [], ◌∷◌,
  if◌then◌else◌,
}
use chatvector_ai.Tenant.Names.{contains, sorted}
use chatvector_ai.Tenant.Registry.{
  TenantLookup, get_tenant_document_ids, clear_tenant_registry, register_tenant_document,
  finish_lookup, begin_lookup, answer,
}
use chatvector_ai.Tenant.Registry.Steps.{
  World, restarted, create_document, read_documents, merge_read, register_due, Reach, start, next,
  create, register, read, merge,
}
use chatvector_ai.Tenant.Registry.Complete.{
  begin_lookup_complete, delete_during_read, delete_during_read_stale,
}
use chatvector_ai.Tenant.Scope.{
  parse_retrieval_scope, ok, resolve_scoped_doc_ids, filter_doc_ids_for_tenant,
  resolve_retrieval_doc_ids,
}
use chatvector_ai.Tenant.Scope.Isolation.{Learns, resolve_retrieval_doc_ids-isolated}

-- Tenant `acme` has one document before the restart.
abbrev stored : String → List String
stored t = if str_eq t "acme" then "old" ∷ [] else []

-- A read is answered before an upload is created and registered, and merged after it.
abbrev overlapping : World
overlapping = merge_read "acme" ("old" ∷ []) [] (
    register_due "acme" "new" []
      (create_document "acme" "new" (read_documents "acme" (restarted stored))))

overlapping-Reach : Reach overlapping
unfolding create_document read_documents register_due
overlapping-Reach =
    next
      (next
        (next (next (start stored) (read (restarted stored) "acme"))
          (create (read_documents "acme" (restarted stored)) "acme" "new" refl))
        (register (create_document "acme" "new" (read_documents "acme" (restarted stored))) "acme"
          "new" [] [] refl refl))
      (merge
        (register_due "acme" "new" []
          (create_document "acme" "new" (read_documents "acme" (restarted stored))))
        "acme" ("old" ∷ []) [] [] refl)

is_loaded : contains "acme" overlapping.registry.loaded ≡ true
unfolding merge_read finish_lookup register_due register_tenant_document create_document
    read_documents
is_loaded = refl

is_stored : contains "new" (overlapping.db "acme") ≡ true
unfolding merge_read register_due create_document read_documents
is_stored = refl

none_due : overlapping.due ≡ []
unfolding merge_read register_due
none_due = refl

begin_lookup_complete_example :
    (begin_lookup false (some "acme") overlapping.registry
      ≡ answer (sorted (overlapping.registry.documents "acme")))
    × (contains "new" (sorted (overlapping.registry.documents "acme")) ≡ true)
unfolding merge_read register_due
begin_lookup_complete_example =
    begin_lookup_complete "acme" "new" overlapping overlapping-Reach refl is_loaded is_stored refl

abbrev old : String
old = "old"

abbrev new : String
new = "new"

old-ne-new : old ≢ new
old-ne-new e = ground (arith, eq_iff old new)

delete_during_read_stale_example :
    let w = delete_during_read "acme" "old" "new" (restarted stored) in
    (contains "acme" w.registry.loaded ≡ true)
    × (contains "old" (w.registry.documents "acme") ≡ true)
    × (contains "new" (w.registry.documents "acme") ≡ false)
    × (contains "old" (w.db "acme") ≡ false)
    × (contains "new" (w.db "acme") ≡ true)
delete_during_read_stale_example =
    delete_during_read_stale "acme" "old" "new" stored refl old-ne-new refl refl

-- A request for its own document and another tenant's, with a filter that keeps all, after a restart.
abbrev keep_all : List String → List String
keep_all ds = ds

abbrev asking : Option (List String) → TenantLookup
asking answered = record {
  disabled = false;
  before = clear_tenant_registry;
  behind = clear_tenant_registry;
  answered = answered;
}

asking-Learns : Learns (asking (some ("a" ∷ []))) "acme" "a"
asking-Learns = record {
  from_cache = λ h. absurd (ground (arith, h));
  from_database = λ h. ("a" ∷ [], refl, refl);
}

only_own :
    resolve_retrieval_doc_ids none
      ("a" ∷ "x" ∷ [])
      []
      (asking (some ("a" ∷ [])))
      (some "acme")
      true
      keep_all
    ≡ ok ("a" ∷ [])
unfolding resolve_retrieval_doc_ids parse_retrieval_scope filter_doc_ids_for_tenant
    resolve_scoped_doc_ids get_tenant_document_ids begin_lookup finish_lookup sorted
only_own = refl

resolve_retrieval_doc_ids-isolated_example :
    contains "a" (get_tenant_document_ids (asking (some ("a" ∷ []))) (some "acme")) ≡ true
resolve_retrieval_doc_ids-isolated_example =
    resolve_retrieval_doc_ids-isolated none ("a" ∷ "x" ∷ []) [] (asking (some ("a" ∷ []))) "acme"
      "a" true keep_all ("a" ∷ []) "a" (λ ds e h. h) refl asking-Learns only_own refl

-- A query that raises behind an empty cache lets every requested document pass.
fails_open :
    resolve_retrieval_doc_ids none ("a" ∷ "x" ∷ []) [] (asking none) (some "acme") true keep_all
    ≡ ok ("a" ∷ "x" ∷ [])
unfolding resolve_retrieval_doc_ids parse_retrieval_scope filter_doc_ids_for_tenant
    resolve_scoped_doc_ids get_tenant_document_ids begin_lookup finish_lookup sorted
fails_open = refl
