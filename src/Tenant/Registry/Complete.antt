-- ===== src/Tenant/Registry/Complete.antt =====
-- When the registry may be trusted to hold all of a tenant's documents, and the interleaving in which
-- it may not (backend/services/tenant_registry.py).
use mathlib.Core.Path.{subst}
use text.Mathlib.TextPositions.{eq_refl}
use chatvector_ai.Prelude.{
  ◌≡◌, ◌≢◌, refl, ap, ◌∙◌, String, str_eq, eq_iff, Bool, true, false, not, ◌&&◌, ◌||◌, some, List,
  [], ◌∷◌, ◌++◌, All, arith, Bool-cases, inl, inr,
}
use chatvector_ai.Tenant.Names.{
  contains, add, sorted, truthy, contains-add, contains-discard, contains-sorted,
}
use chatvector_ai.Tenant.Registry.{
  register_tenant_document, add_all, begin_lookup, answer, finish_lookup, invalidate_tenant_cache,
}
use chatvector_ai.Tenant.Registry.Steps.{
  World, restarted, create_document, read_documents, delete_document, merge_read, register_due,
  Step, create, register, read, merge, delete, Reach, start, next,
}

abbrev pub due_in : String → String → List (String × String) → Bool
due_in t d [] = false
due_in t d ((u, e) ∷ due) = (str_eq u t && str_eq e d) || due_in t d due

due_in-remove :
    (t d u e : String) (before after : List (String × String))
    → due_in t d (before ++ (u, e) ∷ after)
      ≡ ((str_eq u t && str_eq e d) || due_in t d (before ++ after))
due_in-remove t d u e [] after = refl
due_in-remove t d u e ((v, f) ∷ before) after = ground (arith, due_in-remove t d u e before after)

pub contains-add_all :
    (d : String) (ds xs : List String)
    → contains d (add_all ds xs) ≡ (contains d ds || contains d xs)
unfolding add_all
contains-add_all d [] xs = refl
contains-add_all d (e ∷ ds) xs =
    ground (arith, contains-add_all d ds (add e xs), contains-add e d xs)

-- The document is in the cache, or its registration is due.
abbrev pub covered : String → String → World → Bool
covered t d w = contains d (w.registry.documents t) || due_in t d w.due

-- A read of the tenant has seen the document, if the tenant has it and it is not covered anyway.
abbrev read_ok : String → String → Bool → Bool → String × List String → Bool
read_ok t d has cov (u, ds) = not (str_eq u t) || not has || contains d ds || cov

record IsComplete (t d : String) (w : World) : Type 0 where
  loaded_ok :
      (not (contains t w.registry.loaded) || not (contains d (w.db t)) || covered t d w) ≡ true
  reads_ok : All (λ r. read_ok t d (contains d (w.db t)) (covered t d w) r ≡ true) w.reads

module _ (t d : String) where
  -- A read stays good while the tenant gains no document that is not covered.
  reads_ok_mono :
      (has cov has' cov' : Bool) (reads : List (String × List String))
      → (not has' || has || cov') ≡ true
      → (not cov || cov') ≡ true
      → All (λ r. read_ok t d has cov r ≡ true) reads
      → All (λ r. read_ok t d has' cov' r ≡ true) reads
  reads_ok_mono has cov has' cov' [] p q h = tt
  reads_ok_mono has cov has' cov' ((u, ds) ∷ reads) p q h =
      (ground (arith, h.0), reads_ok_mono has cov has' cov' reads p q h.1)

  reads_ok-remove :
      (has cov : Bool) (r : String × List String) (before after : List (String × List String))
      → All (λ r. read_ok t d has cov r ≡ true) (before ++ r ∷ after)
      → (read_ok t d has cov r ≡ true) × All (λ r. read_ok t d has cov r ≡ true) (before ++ after)
  reads_ok-remove has cov r [] after h = (h.0, h.1)
  reads_ok-remove has cov r (b ∷ before) after h =
      let (good, rest) = reads_ok-remove has cov r before after h.1 in (good, (h.0, rest))

  reads_ok-other :
      (has cov : Bool) (reads : List (String × List String))
      → All (λ r. r.0 ≢ t) reads
      → All (λ r. read_ok t d has cov r ≡ true) reads
  reads_ok-other has cov [] h = tt
  reads_ok-other has cov ((u, ds) ∷ reads) h =
      (ground (arith, eq_iff u t, h.0), reads_ok-other has cov reads h.1)

  create-IsComplete :
      (w : World) (u e : String) → IsComplete t d w → IsComplete t d (create_document u e w)
  unfolding create_document
  create-IsComplete w u e v = record {
    loaded_ok = ground (arith, v.loaded_ok, contains-add e d (w.db u), eq_iff u t, eq_iff e d);
    reads_ok =
        reads_ok_mono (contains d (w.db t)) (covered t d w) _ _ w.reads
          (ground (arith, contains-add e d (w.db u), eq_iff u t, eq_iff e d)) (ground arith)
          v.reads_ok;
  }

  register-IsComplete :
      (w : World) (u e : String) (before after : List (String × String))
      → truthy u && truthy e ≡ true
      → w.due ≡ before ++ (u, e) ∷ after
      → IsComplete t d w
      → IsComplete t d (register_due u e (before ++ after) w)
  unfolding register_due register_tenant_document
  register-IsComplete w u e before after named h v =
      let same : due_in t d w.due ≡ ((str_eq u t && str_eq e d) || due_in t d (before ++ after)) =
        ap (due_in t d) h ∙ due_in-remove t d u e before after in
      rw named (record {
        loaded_ok = ground (
          arith,
          v.loaded_ok,
          same,
          contains-add e d (w.registry.documents u),
          eq_iff u t,
          eq_iff e d,
        );
        reads_ok =
            reads_ok_mono (contains d (w.db t)) (covered t d w) _ _ w.reads (ground arith)
              (ground
                (arith, same, contains-add e d (w.registry.documents u), eq_iff u t, eq_iff e d))
              v.reads_ok;
      })

  read-IsComplete :
      (w : World) (u : String) → IsComplete t d w → IsComplete t d (read_documents u w)
  unfolding read_documents
  read-IsComplete w u v = record {
    loaded_ok = v.loaded_ok;
    reads_ok = (ground (arith, eq_iff u t), v.reads_ok);
  }

  merge-IsComplete :
      (w : World) (u : String) (ds : List String) (before after : List (String × List String))
      → w.reads ≡ before ++ (u, ds) ∷ after
      → IsComplete t d w
      → IsComplete t d (merge_read u ds (before ++ after) w)
  unfolding merge_read finish_lookup
  merge-IsComplete w u ds before after h v =
      let (good, rest) =
        reads_ok-remove (contains d (w.db t)) (covered t d w) (u, ds) before after
          (subst (All (λ r. read_ok t d (contains d (w.db t)) (covered t d w) r ≡ true)) h
            v.reads_ok) in
      record {
        loaded_ok = ground (
          arith,
          v.loaded_ok,
          good,
          contains-add u t w.registry.loaded,
          contains-add_all d ds (w.registry.documents u),
          eq_iff u t,
        );
        reads_ok =
            reads_ok_mono (contains d (w.db t)) (covered t d w) _ _ (before ++ after) (ground arith)
              (ground (arith, contains-add_all d ds (w.registry.documents u), eq_iff u t)) rest;
      }

  delete-IsComplete :
      (w : World) (u e : String)
      → All (λ r. r.0 ≢ u) w.reads
      → IsComplete t d w
      → IsComplete t d (delete_document u e w)
  unfolding delete_document invalidate_tenant_cache
  delete-IsComplete w u e quiet v = elim (Bool-cases (str_eq u t)) [
    | inl same ↦ record {
      loaded_ok = ground (arith, contains-discard u t w.registry.loaded);
      reads_ok = reads_ok-other _ _ w.reads (
          subst (λ (s : String). All (λ (r : String × List String). r.0 ≢ s) w.reads)
            ((eq_iff u t).0 same) quiet);
    }
    | inr other ↦ record {
      loaded_ok = ground (arith, v.loaded_ok, contains-discard u t w.registry.loaded);
      reads_ok =
          reads_ok_mono (contains d (w.db t)) (covered t d w) _ _ w.reads (ground arith)
            (ground arith) v.reads_ok;
    }
  ]

  Step-IsComplete : {w v : World} → Step w v → IsComplete t d w → IsComplete t d v
  Step-IsComplete (create w u e named) v = create-IsComplete w u e v
  Step-IsComplete (register w u e before after named h) v =
      register-IsComplete w u e before after named h v
  Step-IsComplete (read w u) v = read-IsComplete w u v
  Step-IsComplete (merge w u ds before after h) v = merge-IsComplete w u ds before after h v
  Step-IsComplete (delete w u e quiet) v = delete-IsComplete w u e quiet v

  Reach-IsComplete : {w : World} → Reach w → IsComplete t d w
  Reach-IsComplete (start db) = record { loaded_ok = refl; reads_ok = tt }
  Reach-IsComplete (next r step) = Step-IsComplete step (Reach-IsComplete r)

-- However uploads, reads and deletions interleave after a restart, as long as no document is deleted
-- while a read of its tenant is under way: once a tenant counts as loaded, a lookup answers from the
-- cache, and the answer holds every document of the tenant whose registration is not still due.
pub begin_lookup_complete :
    (t d : String) (w : World)
    → Reach w
    → truthy t ≡ true
    → contains t w.registry.loaded ≡ true
    → contains d (w.db t) ≡ true
    → due_in t d w.due ≡ false
    → (begin_lookup false (some t) w.registry ≡ answer (sorted (w.registry.documents t)))
      × (contains d (sorted (w.registry.documents t)) ≡ true)
unfolding begin_lookup
begin_lookup_complete t d w r named loaded has registered =
    let v = Reach-IsComplete t d r in
    (rw (named, loaded), contains-sorted d (w.registry.documents t) ∙ ground (arith, v.loaded_ok))

-- A read is answered, a new document is created and registered, the old one is deleted, and only then
-- is the answer merged.
abbrev pub delete_during_read : String → String → String → World → World
delete_during_read t old new w =
    merge_read t (w.db t) []
      (delete_document t old (register_due t new [] (create_document t new (read_documents t w))))

-- After a restart, for a tenant that has the old document and not the new one: if a read of its
-- documents is answered, then the new document is created and registered, then the old one is
-- deleted, and only then the answer merged, the tenant counts as loaded, while its cache holds the
-- deleted document and lacks the new one, the reverse of the database.
pub delete_during_read_stale :
    (t old new : String) (db : String → List String)
    → truthy t && truthy new ≡ true
    → old ≢ new
    → contains old (db t) ≡ true
    → contains new (db t) ≡ false
    → let w = delete_during_read t old new (restarted db) in
      (contains t w.registry.loaded ≡ true)
      × (contains old (w.registry.documents t) ≡ true)
      × (contains new (w.registry.documents t) ≡ false)
      × (contains old (w.db t) ≡ false)
      × (contains new (w.db t) ≡ true)
unfolding merge_read finish_lookup delete_document invalidate_tenant_cache register_due
    register_tenant_document create_document read_documents
delete_during_read_stale t old new db named ne has lacks = (
  ground (arith, eq_refl t),
  ground (arith, eq_refl t, contains-add_all old (db t) [], has),
  ground (arith, eq_refl t, contains-add_all new (db t) [], lacks),
  ground (arith, eq_refl t, eq_refl old, contains-discard old old (add new (db t))),
  ground (
    arith,
    eq_refl t,
    eq_refl new,
    eq_iff old new,
    contains-discard old new (add new (db t)),
    contains-add new new (db t),
  ),
)
