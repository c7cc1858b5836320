-- ===== src/Uploader/Coordinator.antt =====
-- uploader/upload_coordinator.py, `UploadCoordinator`: the upload of chunks to storage nodes, with a
-- quorum and retries, and the end of an upload. What the servers answer is an argument; the
-- uploads of different chunks do not touch each other, so they are taken one after the other. The
-- progress reports, the waits between tries and the log lines are left out.
pub mod Placement
pub mod Batch
use vstack.Prelude.{
  ℕ, zero, suc, ◌+◌, String, Bool, true, false, ◌&&◌, ◌||◌, Option, none, some, List, [], ◌∷◌, ◌++◌,
  length, keep, any, ltb, leb, min, ◌==◌, number_key, if◌then◌else◌,
}

-- `VideoChunk` of uploader/video_processor.py
pub record VideoChunk : Type 0 where
  pub chunk_id : String
  pub video_id : String
  pub sequence_num : ℕ
  pub payload : List ℕ
  pub size_bytes : ℕ
  pub checksum : String

-- The answers to the requests for one chunk, by the attempt: the status of the PUT to a node, and
-- the `success` of the commit for some nodes. There is none where the request, or the check of the
-- status that the HTTP library makes of a commit, raises.
pub record Servers : Type 0 where
  pub put_status : ℕ → String → Option ℕ
  pub commit_success : ℕ → List String → Option Bool

-- What `_upload_chunk_to_node` comes to: False where it raises.
unfoldable pub upload_chunk_to_node : Option ℕ → Bool
upload_chunk_to_node none = false
upload_chunk_to_node (some status) = status == 200 || status == 201

-- What `_commit_chunk_placement` comes to: False where it raises.
unfoldable pub commit_chunk_placement : Option Bool → Bool
commit_chunk_placement none = false
commit_chunk_placement (some success) = success

unfoldable pub successful_nodes : Servers → ℕ → List String → List String
unfolding upload_chunk_to_node
successful_nodes servers attempt target_nodes =
    keep (λ url. upload_chunk_to_node (servers.put_status attempt url)) target_nodes

unfoldable pub min_replicas : ℕ → ℕ
min_replicas replicas_per_chunk = min 2 replicas_per_chunk

-- The body of the `try`: whether it returns.
unfoldable pub try_upload : Servers → ℕ → ℕ → List String → Bool
unfolding successful_nodes min_replicas commit_chunk_placement
try_upload servers replicas_per_chunk attempt target_nodes =
    let nodes = successful_nodes servers attempt target_nodes in
    leb (min_replicas replicas_per_chunk) (length nodes)
    && commit_chunk_placement (servers.commit_success attempt nodes)

-- `for attempt in range(self.max_retries)`, by the attempts that are left: the nodes of the result,
-- or none where the last attempt raises, or where there was none.
unfoldable pub upload_attempts : Servers → ℕ → List String → ℕ → ℕ → Option (List String)
unfolding try_upload successful_nodes
upload_attempts servers replicas_per_chunk target_nodes zero attempt = none
upload_attempts servers replicas_per_chunk target_nodes (suc left) attempt =
    let rest = upload_attempts servers replicas_per_chunk target_nodes left (attempt + 1) in
    if try_upload servers replicas_per_chunk attempt target_nodes
    then some (successful_nodes servers attempt target_nodes)
    else rest

-- The settings, and what the environment gives: `sample` is random.sample, by the chunk that it
-- draws for.
pub record UploadCoordinator : Type 0 where
  pub replicas_per_chunk : ℕ
  pub max_retries : ℕ
  pub sample : VideoChunk → List String → ℕ → List String
  pub servers : VideoChunk → Servers

unfoldable pub upload_single_chunk :
    UploadCoordinator → VideoChunk → List String → Option (List String)
unfolding upload_attempts
upload_single_chunk u chunk storage_nodes =
    upload_attempts (u.servers chunk) u.replicas_per_chunk
      (u.sample chunk storage_nodes (min u.replicas_per_chunk (length storage_nodes))) u.max_retries
      0

unfoldable pub failed_of : VideoChunk → Option (List String) → List String
failed_of chunk none = chunk.chunk_id ∷ []
failed_of chunk (some nodes) = []

unfoldable pub failed_chunks : UploadCoordinator → List String → List VideoChunk → List String
unfolding upload_single_chunk failed_of
failed_chunks u storage_nodes [] = []
failed_chunks u storage_nodes (chunk ∷ chunks) =
    failed_of chunk (upload_single_chunk u chunk storage_nodes)
    ++ failed_chunks u storage_nodes chunks

pub data UploadResult : Type 0 where
  uploaded : UploadResult
  insufficient_nodes : UploadResult
  failed_to_upload : List String → UploadResult

unfoldable pub check_failures : List String → UploadResult
check_failures [] = uploaded
check_failures (chunk_id ∷ rest) = failed_to_upload (chunk_id ∷ rest)

-- `upload_chunks`, with the healthy nodes that the metadata service names
unfoldable pub upload_chunks : UploadCoordinator → List String → List VideoChunk → UploadResult
unfolding failed_chunks check_failures
upload_chunks u storage_nodes chunks =
    if ltb (length storage_nodes) u.replicas_per_chunk
    then insufficient_nodes
    else check_failures (failed_chunks u storage_nodes chunks)

-- A chunk of the manifest: `chunk_info.get("replicas")` may be missing or empty.
pub record ChunkInfo : Type 0 where
  pub chunk_id : String
  pub replicas : Option (List String)

pub record Manifest : Type 0 where
  pub total_chunks : ℕ
  pub chunks : List ChunkInfo

unfoldable pub has_replicas : Option (List String) → Bool
has_replicas none = false
has_replicas (some []) = false
has_replicas (some (url ∷ urls)) = true

unfoldable pub all_have_replicas : List ChunkInfo → Bool
unfolding has_replicas
all_have_replicas [] = true
all_have_replicas (c ∷ chunks) = has_replicas c.replicas && all_have_replicas chunks

-- A request for a new status of the video.
pub data StatusRequest : Type 0 where
  activate delete : StatusRequest

-- The `except` block: it asks for the deletion and raises.
unfoldable pub abandon : List StatusRequest → Option Manifest × List StatusRequest
abandon sent = (none, sent ++ delete ∷ [])

unfoldable pub activated : Bool → Manifest → Option Manifest × List StatusRequest
unfolding abandon
activated true manifest = (some manifest, activate ∷ [])
activated false manifest = abandon (activate ∷ [])

-- `finalize_video`: the manifest that it returns, if it does not raise, and the requests that it
-- sends. `read` is the manifest, if it could be read; `accepts` says whether the service takes the
-- status. The chunks that were uploaded are only counted, for a warning.
unfoldable pub finalize_video :
    Option Manifest → Bool → List VideoChunk → Option Manifest × List StatusRequest
unfolding abandon activated all_have_replicas
finalize_video none accepts chunks = abandon []
finalize_video (some manifest) accepts chunks =
    if all_have_replicas manifest.chunks then activated accepts manifest else abandon []
