-- ===== src/Sessions.antt =====
-- Sessions (backend/services/session_service.py), and the transactions on their records
-- (backend/db/sqlalchemy_service.py). The table is a dictionary by id, its primary key; times, labels and
-- messages are left out. New UUIDs are arguments.
pub mod Steps
mod Examples
use chatvector_ai.Prelude.{
  String, Bool, true, false, ◌&&◌, not, Option, none, some, List, [], ◌∷◌, ◌++◌, ◌||◌, str_eq,
  is_some, if◌then◌else◌,
}
use chatvector_ai.Prelude.Dict.{Dict, lookup, assign, only}

pub record SessionRecord : Type 0 where
  pub tenant_id : Option String
  pub document_ids : List String

pub record Session : Type 0 where
  pub id : String
  pub tenant_id : Option String
  pub document_ids : List String

abbrev pub Sessions : Type 0
Sessions = Dict SessionRecord

-- `tenant_id is not None and record.tenant_id is not None and record.tenant_id != tenant_id`
unfoldable pub is_mismatch : Option String → Option String → Bool
is_mismatch (some t) (some u) = not (str_eq u t)
is_mismatch (some t) none = false
is_mismatch none foundtenant = false

-- `_session_from_record`
unfoldable pub session_from_record : String → SessionRecord → Session
session_from_record id found = record {
  id = id;
  tenant_id = found.tenant_id;
  document_ids = found.document_ids;
}

-- A record that the tenant may see.
seen_by : Option String → String → SessionRecord → Option Session
unfolding is_mismatch session_from_record
seen_by tenant_id id found =
    if is_mismatch tenant_id found.tenant_id then none else some (session_from_record id found)

-- `get_session_record`
unfoldable pub get_session_record : String → Option String → Sessions → Option Session
unfolding seen_by lookup
get_session_record id tenant_id sessions = elim (lookup id sessions) [
  | none ↦ none
  | some found ↦ seen_by tenant_id id found
]

new_record : Option String → SessionRecord
new_record tenant_id = record { tenant_id = tenant_id; document_ids = [] }

-- `insert ... on_conflict_do_nothing`
unfoldable pub insert_session : String → Option String → Sessions → Sessions
unfolding new_record lookup assign
insert_session id tenant_id sessions = elim (lookup id sessions) [
  | none ↦ assign id (new_record tenant_id) sessions
  | some found ↦ sessions
]

-- `get_or_create_session_record`: the insert, and the read behind it.
unfoldable pub get_or_create_session_record :
    String → Option String → Sessions → Option Session × Sessions
unfolding insert_session get_session_record
get_or_create_session_record id tenant_id sessions =
    let inserted = insert_session id tenant_id sessions in
    (get_session_record id tenant_id inserted, inserted)

-- Why there is no session: the ValueError of `create_session`, or the IntegrityError of an id that
-- exists.
pub data Created : Type 0 where
  created : Session → Created
  already_exists : Created
  id_taken : Created

-- `create_session_record`
unfoldable pub create_session_record : String → Option String → Sessions → Created × Sessions
unfolding new_record session_from_record lookup assign
create_session_record id tenant_id sessions = elim (lookup id sessions) [
  | none ↦ (
    created (session_from_record id (new_record tenant_id)),
    assign id (new_record tenant_id) sessions,
  )
  | some found ↦ (id_taken, sessions)
]

-- `if created is not None: return created`, and a new session otherwise
unfoldable pub or_mint : String → Option String → Option Session × Sessions → Created × Sessions
or_mint fresh tenant_id (some session, sessions) = (created session, sessions)
or_mint fresh tenant_id (none, sessions) = create_session_record fresh tenant_id sessions

-- `create_session`; no id, or an empty one, mints one.
unfoldable pub create_session :
    (fresh : String) → Option String → Option String → Sessions → Created × Sessions
unfolding create_session_record get_session_record get_or_create_session_record or_mint
create_session fresh none tenant_id sessions = create_session_record fresh tenant_id sessions
create_session fresh (some id) tenant_id sessions =
    if str_eq id ""
    then create_session_record fresh tenant_id sessions
    else elim (get_session_record id tenant_id sessions) [
      | some session ↦ (already_exists, sessions)
      | none ↦ or_mint fresh tenant_id (get_or_create_session_record id tenant_id sessions)
    ]

-- `get_or_create_session`
unfoldable pub get_or_create_session :
    (fresh : String) → Option String → Option String → Sessions → Created × Sessions
unfolding create_session_record get_session_record get_or_create_session_record or_mint
get_or_create_session fresh none tenant_id sessions = create_session_record fresh tenant_id sessions
get_or_create_session fresh (some id) tenant_id sessions =
    if str_eq id ""
    then create_session_record fresh tenant_id sessions
    else elim (get_session_record id tenant_id sessions) [
      | some session ↦ (created session, sessions)
      | none ↦ or_mint fresh tenant_id (get_or_create_session_record id tenant_id sessions)
    ]

-- `delete_session_record`
unfoldable pub delete_session_record : String → Option String → Sessions → Bool × Sessions
unfolding lookup only is_mismatch
delete_session_record id tenant_id sessions = elim (lookup id sessions) [
  | none ↦ (false, sessions)
  | some found ↦
      if is_mismatch tenant_id found.tenant_id
      then (false, sessions)
      else (true, only (λ name. not (str_eq name id)) sessions)
]

contains : String → List String → Bool
contains d [] = false
contains d (e ∷ ds) = str_eq d e || contains d ds

-- `add_session_document`, `on_conflict_do_nothing`; a session that is not there has no documents.
unfoldable pub add_session_document : String → String → Sessions → Sessions
unfolding contains lookup assign
add_session_document id document_id sessions = elim (lookup id sessions) [
  | none ↦ sessions
  | some found ↦
      if contains document_id found.document_ids
      then sessions
      else assign id (record found { document_ids = found.document_ids ++ document_id ∷ [] })
          sessions
]

-- `register_session_document`
unfoldable pub register_session_document : String → String → Option String → Sessions → Sessions
unfolding add_session_document get_session_record
register_session_document id document_id tenant_id sessions =
    elim (get_session_record id tenant_id sessions) [
      | none ↦ sessions
      | some session ↦ add_session_document id document_id sessions
    ]
