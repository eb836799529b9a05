-- ===== src/Sessions/Steps.antt =====
-- Requests of several tenants on one table of sessions.
use chatvector_ai.Prelude.{
  ◌≡◌, ◌++◌, refl, ◌⊎◌, arith, String, false, not, Option, none, some, [], ◌∷◌, str_eq, eq_iff,
  Option-cases, Bool-cases, inl, inr,
}
use chatvector_ai.Prelude.Dict.{lookup, lookup-assign, lookup-only}
use chatvector_ai.Sessions.{
  SessionRecord, Session, Sessions, is_mismatch, seen_by, session_from_record, new_record,
  get_session_record, insert_session, get_or_create_session_record, Created, created,
  already_exists, id_taken, create_session_record, create_session, or_mint, get_or_create_session,
  delete_session_record, add_session_document, register_session_document,
}

-- The requests of a tenant that change the table.
pub data Request (t : String) : Sessions → Sessions → Type 0 where
  creates :
      {s : Sessions} (fresh : String) (id : Option String)
      → Request t s (create_session fresh id (some t) s).1
  gets_or_creates :
      {s : Sessions} (fresh : String) (id : Option String)
      → Request t s (get_or_create_session fresh id (some t) s).1
  deletes : {s : Sessions} (id : String) → Request t s (delete_session_record id (some t) s).1
  registers :
      {s : Sessions} (id document_id : String)
      → Request t s (register_session_document id document_id (some t) s)

-- A record of tenant `u` under `id`.
module _ (id : String) (r : SessionRecord) (u : String) (owned : r.tenant_id ≡ some u) where
  abbrev Holds : Sessions → Type 0
  Holds s = lookup id s ≡ some r

  Holds-insert_session :
      (other : String) (tenant_id : Option String) (s : Sessions)
      → Holds s
      → Holds (insert_session other tenant_id s)
  unfolding insert_session
  Holds-insert_session other tenant_id s h =
      ground (arith, lookup-assign other id (new_record tenant_id) s, eq_iff other id)

  Holds-create_session_record :
      (fresh : String) (tenant_id : Option String) (s : Sessions)
      → Holds s
      → Holds (create_session_record fresh tenant_id s).1
  unfolding create_session_record
  Holds-create_session_record fresh tenant_id s h =
      ground (arith, lookup-assign fresh id (new_record tenant_id) s, eq_iff fresh id)

  Holds-create_session :
      (fresh : String) (asked tenant_id : Option String) (s : Sessions)
      → Holds s
      → Holds (create_session fresh asked tenant_id s).1
  unfolding create_session get_or_create_session_record
  Holds-create_session fresh none tenant_id s h = Holds-create_session_record fresh tenant_id s h
  Holds-create_session fresh (some asked) tenant_id s h = ground (
    arith,
    Holds-create_session_record fresh tenant_id s h,
    Holds-insert_session asked tenant_id s h,
    Holds-create_session_record fresh tenant_id (insert_session asked tenant_id s),
  )

  Holds-get_or_create_session :
      (fresh : String) (asked tenant_id : Option String) (s : Sessions)
      → Holds s
      → Holds (get_or_create_session fresh asked tenant_id s).1
  unfolding get_or_create_session get_or_create_session_record
  Holds-get_or_create_session fresh none tenant_id s h =
      Holds-create_session_record fresh tenant_id s h
  Holds-get_or_create_session fresh (some asked) tenant_id s h = ground (
    arith,
    Holds-create_session_record fresh tenant_id s h,
    Holds-insert_session asked tenant_id s h,
    Holds-create_session_record fresh tenant_id (insert_session asked tenant_id s),
  )

  Holds-delete_session_record :
      (asked t : String) (s : Sessions)
      → str_eq u t ≡ false
      → Holds s
      → Holds (delete_session_record asked (some t) s).1
  unfolding delete_session_record is_mismatch
  Holds-delete_session_record asked t s other h =
      ground (arith, lookup-only id (λ name. not (str_eq name asked)) s, eq_iff id asked, owned)

  Holds-add_session_document :
      (asked document_id : String) (s : Sessions)
      → str_eq asked id ≡ false
      → Holds s
      → Holds (add_session_document asked document_id s)
  unfolding add_session_document
  Holds-add_session_document asked document_id s other h = elim (Option-cases (lookup asked s)) [
    | inl missing ↦ rw (missing, add_session_document) h
    | inr (r', found) ↦
        rw (found, add_session_document)
          (ground (
            arith,
            h,
            lookup-assign asked id
                (record r' { document_ids = r'.document_ids ++ document_id ∷ [] }) s,
          ))
  ]

  -- The tenant of the record is another: it is not seen.
  unseen :
      (t : String) (s : Sessions)
      → str_eq u t ≡ false
      → Holds s
      → get_session_record id (some t) s ≡ none
  unfolding get_session_record seen_by is_mismatch
  unseen t s other h = rw (h, get_session_record) (ground (arith, owned))

  Holds-register_session_document :
      (asked document_id t : String) (s : Sessions)
      → str_eq u t ≡ false
      → Holds s
      → Holds (register_session_document asked document_id (some t) s)
  unfolding register_session_document
  Holds-register_session_document asked document_id t s other h =
      elim (Bool-cases (str_eq asked id)) [
        | inl same ↦
            let q : asked ≡ id = (eq_iff asked id).0 same in
            rw q (rw (unseen t s other h, register_session_document) h)
        | inr differs ↦ ground (arith, Holds-add_session_document asked document_id s differs h)
      ]

-- No request of a tenant, with a new UUID or an old one, changes or deletes a session of another tenant.
pub Request-keeps :
    {t : String} {s s' : Sessions} (id : String) (r : SessionRecord) (u : String)
    → r.tenant_id ≡ some u
    → str_eq u t ≡ false
    → Request t s s'
    → lookup id s ≡ some r
    → lookup id s' ≡ some r
Request-keeps id r u owned other (Request.creates {s = s} fresh asked) h =
    Holds-create_session id r u owned fresh asked _ s h
Request-keeps id r u owned other (Request.gets_or_creates {s = s} fresh asked) h =
    Holds-get_or_create_session id r u owned fresh asked _ s h
Request-keeps {t} id r u owned other (Request.deletes {s = s} asked) h =
    Holds-delete_session_record id r u owned asked t s other h
Request-keeps {t} id r u owned other (Request.registers {s = s} asked document_id) h =
    Holds-register_session_document id r u owned asked document_id t s other h

-- What a request is given: a session of its own tenant, or one that has none.
abbrev pub IsAllowed : String → Created → Type 0
IsAllowed t (created session) = (session.tenant_id ≡ some t) ⊎ (session.tenant_id ≡ none)
IsAllowed t already_exists = Unit
IsAllowed t id_taken = Unit

abbrev Allowed : String → Session → Type 0
Allowed t session = (session.tenant_id ≡ some t) ⊎ (session.tenant_id ≡ none)

seen_by-Allowed :
    (t id : String) (r : SessionRecord) (session : Session)
    → seen_by (some t) id r ≡ some session
    → Allowed t session
unfolding seen_by is_mismatch session_from_record
seen_by-Allowed t id r session e = elim (Option-cases r.tenant_id) [
  | inl free ↦ inr (ground arith)
  | inr (u, held) ↦ inl (ground (arith, held, eq_iff u t))
]

get_session_record-Allowed :
    (t id : String) (s : Sessions) (session : Session)
    → get_session_record id (some t) s ≡ some session
    → Allowed t session
unfolding get_session_record
get_session_record-Allowed t id s session e = elim (Option-cases (lookup id s)) [
  | inl missing ↦ absurd (ground (arith, missing, e))
  | inr (r, found) ↦ seen_by-Allowed t id r session (ground (arith, found, e))
]

create_session_record-IsAllowed :
    (fresh t : String) (s : Sessions) → IsAllowed t (create_session_record fresh (some t) s).0
unfolding create_session_record session_from_record new_record
create_session_record-IsAllowed fresh t s = elim (Option-cases (lookup fresh s)) [
  | inl missing ↦ rw (missing, create_session_record) (inl refl)
  | inr (r, found) ↦ rw (found, create_session_record) tt
]

-- After the insert, and after a failed read.
tried-IsAllowed :
    (fresh t : String) (tried : Option Session) (s : Sessions)
    → ((session : Session) → tried ≡ some session → Allowed t session)
    → IsAllowed t (or_mint fresh (some t) (tried, s)).0
unfolding or_mint
tried-IsAllowed fresh t none s h = create_session_record-IsAllowed fresh t s
tried-IsAllowed fresh t (some session) s h = h session refl

-- Whatever session id a request of a tenant names, the session that it gets is one of that tenant, or
-- one that belongs to no tenant.
pub get_or_create_session-IsAllowed :
    (t fresh : String) (asked : Option String) (s : Sessions)
    → IsAllowed t (get_or_create_session fresh asked (some t) s).0
unfolding get_or_create_session get_or_create_session_record
get_or_create_session-IsAllowed t fresh none s = create_session_record-IsAllowed fresh t s
get_or_create_session-IsAllowed t fresh (some asked) s = elim (Bool-cases (str_eq asked "")) [
  | inl empty ↦ rw empty (create_session_record-IsAllowed fresh t s)
  | inr named ↦
      rw (named, get_or_create_session)
        (elim (Option-cases (get_session_record asked (some t) s)) [
          | inr (session, found) ↦
              rw (found, get_or_create_session) (get_session_record-Allowed t asked s session found)
          | inl missing ↦
              rw (missing, get_or_create_session)
                (tried-IsAllowed fresh t
                  (get_session_record asked (some t) (insert_session asked (some t) s))
                  (insert_session asked (some t) s)
                  (get_session_record-Allowed t asked (insert_session asked (some t) s)))
        ])
]

-- Requests of tenants other than `u`, in any order.
pub data Others (u : String) (s : Sessions) : Sessions → Type 0 where
  none_yet : Others u s s
  request :
      {s' s'' : Sessions} {t : String}
      → str_eq u t ≡ false
      → Others u s s'
      → Request t s' s''
      → Others u s s''

-- However many requests other tenants make, with whatever session ids: a session of a tenant keeps its
-- tenant and its documents, and no such request changes or deletes it.
pub Others-keep :
    (id u : String) (r : SessionRecord) {s s' : Sessions}
    → r.tenant_id ≡ some u
    → Others u s s'
    → lookup id s ≡ some r
    → lookup id s' ≡ some r
Others-keep id u r owned Others.none_yet h = h
Others-keep id u r owned (Others.request other before step) h =
    Request-keeps id r u owned other step (Others-keep id u r owned before h)
