-- ===== src/Sessions/Examples.antt =====
-- Two tenants and one session id.
use chatvector_ai.Sessions.{
  SessionRecord, Sessions, get_or_create_session, delete_session_record, created,
}
use chatvector_ai.Sessions.Steps.{
  Request, Others, Others-keep, IsAllowed, get_or_create_session-IsAllowed,
}
use chatvector_ai.Prelude.{◌≡◌, refl, some, [], ◌∷◌}
use chatvector_ai.Prelude.Dict.{lookup}

abbrev first_session : SessionRecord
first_session = record { tenant_id = some "ann"; document_ids = "d" ∷ [] }

abbrev table : Sessions
table = ("s", first_session) ∷ []

-- The tenant "bob" deletes it, and then asks for it.
abbrev after_delete : Sessions
after_delete = (delete_session_record "s" (some "bob") table).1

Others-keep_example :
    lookup "s" (get_or_create_session "new" (some "s") (some "bob") after_delete).1
    ≡ some first_session
unfolding lookup
Others-keep_example =
    Others-keep "s" "ann" first_session refl
      (Others.request {t = "bob"} refl
        (Others.request {t = "bob"} refl Others.none_yet (Request.deletes "s"))
        (Request.gets_or_creates "new" (some "s")))
      refl

get_or_create_session-IsAllowed_example :
    IsAllowed "bob" (get_or_create_session "new" (some "s") (some "bob") table).0
get_or_create_session-IsAllowed_example =
    get_or_create_session-IsAllowed "bob" "new" (some "s") table

-- It gets a new one.
minted :
    (get_or_create_session "new" (some "s") (some "bob") table).0
    ≡ created (record { id = "new"; tenant_id = some "bob"; document_ids = [] })
unfolding get_or_create_session
minted = refl
