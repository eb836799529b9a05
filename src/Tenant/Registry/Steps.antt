-- ===== src/Tenant/Registry/Steps.antt =====
-- The registry and the database as they change while requests run side by side
-- (backend/services/tenant_registry.py, backend/routes/upload.py, backend/routes/documents.py).
-- The database is its documents by tenant; a step runs between two waits of one request.
use chatvector_ai.Prelude.{◌≡◌, ◌≢◌, String, true, false, ◌&&◌, some, List, [], ◌∷◌, ◌++◌, All}
use chatvector_ai.Tenant.Names.{add, discard, truthy}
use chatvector_ai.Tenant.Registry.{
  Registry, update, register_tenant_document, finish_lookup, invalidate_tenant_cache,
  clear_tenant_registry,
}

-- `due` are the documents that are created and not registered yet, `reads` the queries that the
-- database has answered and whose answer is not merged yet.
pub record World : Type 0 where
  pub db : String → List String
  pub registry : Registry
  pub due : List (String × String)
  pub reads : List (String × List String)

-- After a restart.
abbrev pub restarted : (String → List String) → World
restarted db = record { db = db; registry = clear_tenant_registry; due = []; reads = [] }

-- `db.create_document` for a tenant.
unfoldable pub create_document : String → String → World → World
create_document t d w = record w { db = update w.db t (add d (w.db t)); due = (t, d) ∷ w.due }

-- The database answers a query for a tenant's documents.
unfoldable pub read_documents : String → World → World
read_documents t w = record w { reads = (t, w.db t) ∷ w.reads }

-- `delete_document` of the routes: the row goes, then the tenant's cache.
unfoldable pub delete_document : String → String → World → World
delete_document t d w = record w {
  db = update w.db t (discard d (w.db t));
  registry = invalidate_tenant_cache t w.registry;
}

-- The answer `ds` for tenant `t` is merged; the other reads stay.
unfoldable pub merge_read : String → List String → List (String × List String) → World → World
merge_read t ds others w = record w {
  registry = (finish_lookup false t (some ds) w.registry).1;
  reads = others;
}

unfoldable pub register_due : String → String → List (String × String) → World → World
register_due t d others w = record w {
  registry = register_tenant_document (some t) d w.registry;
  due = others;
}

-- A tenant's document is deleted only while no read of that tenant is under way.
pub data Step : World → World → Type 0 where
  create : (w : World) (t d : String) → truthy t && truthy d ≡ true → Step w (create_document t d w)
  register :
      (w : World) (t d : String) (before after : List (String × String))
      → truthy t && truthy d ≡ true
      → w.due ≡ before ++ (t, d) ∷ after
      → Step w (register_due t d (before ++ after) w)
  read : (w : World) (t : String) → Step w (read_documents t w)
  merge :
      (w : World) (t : String) (ds : List String) (before after : List (String × List String))
      → w.reads ≡ before ++ (t, ds) ∷ after
      → Step w (merge_read t ds (before ++ after) w)
  delete : (w : World) (t d : String) → All (λ r. r.0 ≢ t) w.reads → Step w (delete_document t d w)

pub data Reach : World → Type 0 where
  start : (db : String → List String) → Reach (restarted db)
  next : {w v : World} → Reach w → Step w v → Reach v
