-- ===== src/Tenant/Registry.antt =====
-- The process-local registry of each tenant's documents, and the reads that fill it from the
-- database (backend/services/tenant_registry.py).
pub mod Steps
pub mod Complete
use chatvector_ai.Prelude.{
  String, str_eq, Bool, true, false, not, ◌&&◌, Option, none, some, List, [], ◌∷◌, ◌++◌,
  if◌then◌else◌,
}
use chatvector_ai.Tenant.Names.{contains, add, discard, sorted, truthy}

-- `_TENANT_DOCUMENTS`, where a missing tenant reads as the empty set, and `_TENANT_REGISTRY_LOADED`.
pub record Registry : Type 0 where
  pub documents : String → List String
  pub loaded : List String

-- `documents[t] = ds`
abbrev pub update : (String → List String) → String → List String → String → List String
update documents t ds u = if str_eq t u then ds else documents u

unfoldable pub register_tenant_document : Option String → String → Registry → Registry
register_tenant_document none doc_id r = r
register_tenant_document (some t) doc_id r =
    if truthy t && truthy doc_id
    then record r { documents = update r.documents t (add doc_id (r.documents t)) }
    else r

unfoldable pub get_tenant_document_ids_cached : Option String → Registry → List String
get_tenant_document_ids_cached none r = []
get_tenant_document_ids_cached (some t) r = if truthy t then sorted (r.documents t) else []

-- What `get_tenant_document_ids` does before it waits for the database: it answers, or it asks for
-- the documents of a tenant.
pub data Lookup : Type 0 where
  answer : List String → Lookup
  query : String → Lookup

unfoldable pub begin_lookup : Bool → Option String → Registry → Lookup
begin_lookup disabled none r = answer []
begin_lookup disabled (some t) r =
    if not (truthy t)
    then answer []
    else if not disabled && contains t r.loaded
    then answer (sorted (r.documents t))
    else query t

-- the loop that merges what the database returned
unfoldable pub add_all : List String → List String → List String
add_all [] xs = xs
add_all (d ∷ ds) xs = add_all ds (add d xs)

-- What it does with the database's answer; nothing is an answer where the query raised.
unfoldable pub finish_lookup :
    Bool → String → Option (List String) → Registry → List String × Registry
unfolding add_all
finish_lookup disabled t none r = (sorted (r.documents t), r)
finish_lookup disabled t (some ds) r =
    if disabled
    then (sorted ds, r)
    else (let merged = add_all ds (r.documents t) in
        (
          sorted merged,
          record { documents = update r.documents t merged; loaded = add t r.loaded },
        ))

-- One call of `get_tenant_document_ids`: the setting, the registry before and behind the wait for the
-- database, and its answer, which is nothing where the query raised.
pub record TenantLookup : Type 0 where
  pub disabled : Bool
  pub before : Registry
  pub behind : Registry
  pub answered : Option (List String)

unfoldable pub get_tenant_document_ids : TenantLookup → Option String → List String
unfolding begin_lookup finish_lookup
get_tenant_document_ids l tenant_id = elim (begin_lookup l.disabled tenant_id l.before) [
  | answer ds ↦ ds
  | query t ↦ (finish_lookup l.disabled t l.answered l.behind).0
]

unfoldable pub invalidate_tenant_cache : String → Registry → Registry
invalidate_tenant_cache t r = record {
  documents = update r.documents t [];
  loaded = discard t r.loaded;
}

abbrev pub clear_tenant_registry : Registry
clear_tenant_registry = record { documents = λ t. []; loaded = [] }
