-- ===== src/Queue/Contract/Examples.antt =====
-- Both queue backends on one job, the Redis queue on lists in the place of a server and a storage
-- (backend/services/queue_redis.py).
use mathlib.Core.Option
use chatvector_ai.Prelude.{
  ℕ, ◌≤◌, ◌<◌, ◌≡◌, refl, sym, ap, String, true, false, Option, none, some, List, [], ◌∷◌, ◌++◌,
  take_last, arith,
}
use chatvector_ai.Text.{codes}
use chatvector_ai.Failures.{timeout_error}
use chatvector_ai.Queue.Jobs.{QueueJob, DlqEntry, Settings}
use chatvector_ai.Queue.Asyncio
use chatvector_ai.Queue.Asyncio.{AsyncioQueue, fail_job}
use chatvector_ai.Queue.Redis.{
  RedisQueue, fail_attempt, requeue_job, enqueue, execute_job, push_dlq_entry,
}
use chatvector_ai.Queue.Redis.Jobs.{rq_job, dead_letter}
use chatvector_ai.Queue.Redis.Interface.{Fetched, found, artifact_missing, Services, IsLawful}
use chatvector_ai.Queue.Redis.Artifacts.{IsSettled, artifact_lem}
use chatvector_ai.Queue.Contract.{failed, woken, submitted}
use chatvector_ai.Queue.Contract.InMemory.{asyncio_view, handled_of, asyncio_queue_refines}
use chatvector_ai.Queue.Contract.Persistent.{
  IsUp, redis_view, accepted_view, progress_of, redis_queue_refines,
}

abbrev ListServer : Type 0
ListServer = List (List ℕ) × List DlqEntry

-- A server that answers always, and a storage of one upload.
abbrev list_services : Services
list_services = record {
  Server = ListServer;
  rq_enqueue = λ jid job v. some (v.0 ++ jid ∷ [], v.1);
  job_ids = λ v. v.0;
  remove_job = λ jid v. none;
  push_and_trim = λ entry n v. some (v.0, take_last n (v.1 ++ entry ∷ []));
  dead_letters = λ v. v.1;
  Storage = Option (List ℕ);
  put = λ doc_id bytes stored. some ("file:///tmp/d", some bytes);
  get = λ uri stored. elim stored [ none ↦ artifact_missing | some bytes ↦ found bytes ];
  delete = λ uri stored. some none;
}

abbrev settings : Settings
settings = record {
  max_size = 1;
  dlq_max_entries = 1;
  job_max_retries = 1;
  webhook_enabled = true;
  queue_full_message = codes "Ingestion queue is at capacity (1)";
}

abbrev job : QueueJob
job = record {
  doc_id = "d";
  file_name = "a.txt";
  content_type = "text/plain";
  file_bytes = 1 ∷ 2 ∷ [];
  tenant_id = some "acme";
  attempt = 0;
  replace = false;
  metadata = none;
}

abbrev uri : String
uri = "file:///tmp/d"

abbrev in_memory : AsyncioQueue
in_memory = record { queue = []; unfinished = 1; pending_doc_ids = []; dlq = []; effects = [] }

abbrev queue_of : List (List ℕ) → RedisQueue list_services
queue_of ids = record {
  server = (ids, []);
  storage = some (1 ∷ 2 ∷ []);
  effects = [];
  artifact_uris = [];
}

list_services-IsUp : IsUp list_services
list_services-IsUp = record {
  pushes = λ entry n v. ((v.0, take_last n (v.1 ++ entry ∷ [])), refl);
  enqueues = λ jid j v. ((v.0 ++ jid ∷ [], v.1), refl);
}

unwrap : Option ListServer → ListServer
unwrap none = ([], [])
unwrap (some v) = v

-- What the storage of an answer has.
emptied : Option (Option (List ℕ)) → Fetched
emptied none = artifact_missing
emptied (some none) = artifact_missing
emptied (some (some bytes)) = found bytes

list_services-IsLawful : IsLawful list_services
unfolding unwrap
list_services-IsLawful = record {
  rq_enqueue-job_ids =
      λ jid j v w e. (ap (λ o. (unwrap o).0) (sym e), ap (λ o. (unwrap o).1) (sym e));
  push_and_trim-dead_letters =
      λ entry n v w h e. (ap (λ o. (unwrap o).1) (sym e), ap (λ o. (unwrap o).0) (sym e));
}

one : 0 < 1
one = omega arith

full_at_one : 1 ≤ 1
full_at_one = omega arith

asyncio_queue_refines_example :
    let (h, t) = fail_job settings timeout_error true job in_memory in
    let (o, b) = failed settings timeout_error true job (asyncio_view in_memory) in
    (h ≡ handled_of o)
    × (asyncio_view t ≡ b)
    × (asyncio_view (Asyncio.requeue_job settings true job in_memory)
        ≡ woken settings true job (asyncio_view in_memory))
    × (Option.map
          (λ (p : AsyncioQueue × ℕ). asyncio_view p.0)
          (Asyncio.enqueue settings job in_memory)
        ≡ submitted settings job (asyncio_view in_memory))
asyncio_queue_refines_example = asyncio_queue_refines settings timeout_error true job in_memory one

redis_queue_refines_example :
    let s = queue_of [] in
    let (p, t) = fail_attempt list_services settings timeout_error true (rq_job job uri) s in
    let (o, b) = failed settings timeout_error true job (redis_view list_services s) in
    (p ≡ progress_of uri o)
    × (redis_view list_services t ≡ b)
    × (redis_view list_services (requeue_job list_services settings true (rq_job job uri) s)
        ≡ woken settings true job (redis_view list_services s))
    × (accepted_view list_services (enqueue list_services settings true job s)
        ≡ submitted settings job (redis_view list_services s))
redis_queue_refines_example =
    redis_queue_refines list_services settings list_services-IsLawful list_services-IsUp
      timeout_error true job uri (queue_of []) uri (some (1 ∷ 2 ∷ [])) one refl

artifact_lem_example :
    IsSettled list_services (some (1 ∷ 2 ∷ [])) none (
      execute_job list_services settings
        (λ bytes. some timeout_error)
        true
        (rq_job job uri)
        (queue_of []))
    × ((requeue_job list_services settings true (rq_job job uri) (queue_of ([] ∷ []))).storage
        ≡ some (1 ∷ 2 ∷ []))
    × ((t : RedisQueue list_services) × (requeue_job list_services settings true
            (rq_job job uri)
            (queue_of ([] ∷ []))
          ≡ push_dlq_entry list_services settings
              (dead_letter (rq_job job uri) (codes "Ingestion queue is at capacity (1)"))
              t)
        × (t.storage ≡ some (1 ∷ 2 ∷ []))
        × (t.artifact_uris ≡ []))
artifact_lem_example =
    artifact_lem list_services settings (λ bytes. some timeout_error) true (rq_job job uri)
      (queue_of []) (queue_of ([] ∷ [])) (1 ∷ 2 ∷ []) none refl refl full_at_one
