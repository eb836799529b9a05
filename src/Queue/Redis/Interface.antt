-- ===== src/Queue/Redis/Interface.antt =====
-- What the Redis queue uses of RQ, Redis (both through their Python clients) and the artifact
-- storage (`ArtifactStorage` of backend/services/artifact_storage.py), as a record of operations, and
-- what it relies on of them, as a record of laws.
use chatvector_ai.Prelude.{
  ◌⊎◌, ℕ, ◌<◌, ◌≡◌, String, Bool, Option, some, List, [], ◌∷◌, ◌++◌, take_last,
}
use chatvector_ai.Failures.{Exc}
use chatvector_ai.Queue.Jobs.{DlqEntry}

-- The arguments of `_execute_job`.
pub record RqJob : Type 0 where
  pub doc_id : String
  pub file_name : String
  pub content_type : String
  pub artifact_uri : String
  pub attempt : ℕ
  pub tenant_id : Option String
  pub replace : Bool
  pub metadata : Option (List (String × String))

-- `ArtifactStorage.get`: the bytes, ArtifactMissingError, ArtifactUnreadableError or another exception.
pub data Fetched : Type 0 where
  found : List ℕ → Fetched
  artifact_missing : Fetched
  artifact_unreadable : Fetched
  fetch_failed : Exc → Fetched

-- Where an operation may raise, nothing stands for the exception.
pub record Services : Type 1 where
  pub Server : Type 0
  pub rq_enqueue : List ℕ → RqJob → Server → Option Server
  pub job_ids : Server → List (List ℕ)
  pub remove_job : List ℕ → Server → Option Server
  pub push_and_trim : DlqEntry → ℕ → Server → Option Server
  pub dead_letters : Server → List DlqEntry
  pub Storage : Type 0
  pub put : String → List ℕ → Storage → Option (String × Storage)
  pub get : String → Storage → Fetched
  pub delete : String → Storage → Option Storage

-- RQ adds at the end of its list of ids; RPUSH with LTRIM `-n` `-1` keeps the last `n` entries of the
-- list with the new one, for an `n` above 0; neither touches the other list.
pub record IsLawful (r : Services) : Type 0 where
  pub rq_enqueue-job_ids :
      (jid : List ℕ) (job : RqJob) (v w : r.Server)
      → r.rq_enqueue jid job v ≡ some w
      → (r.job_ids w ≡ r.job_ids v ++ jid ∷ []) × (r.dead_letters w ≡ r.dead_letters v)
  pub push_and_trim-dead_letters :
      (entry : DlqEntry) (n : ℕ) (v w : r.Server)
      → 0 < n
      → r.push_and_trim entry n v ≡ some w
      → (r.dead_letters w ≡ take_last n (r.dead_letters v ++ entry ∷ []))
        × (r.job_ids w ≡ r.job_ids v)

-- What is deleted is missing afterwards, or its deletion failed, which the storages log and do not raise.
pub record IsLawfulStorage (r : Services) : Type 0 where
  pub get-delete :
      (uri : String) (stored kept : r.Storage)
      → r.delete uri stored ≡ some kept
      → (r.get uri kept ≡ artifact_missing) ⊎ (kept ≡ stored)
