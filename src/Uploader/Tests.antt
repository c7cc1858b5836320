-- ===== src/Uploader/Tests.antt =====
-- A video of two chunks, on three nodes of which one is down.
use vstack.Prelude.{
  ℕ, ◌≤◌, ◌≡◌, ◌↔◌, ◌⊎◌, refl, String, true, Option, none, some, List, [], ◌∷◌, ◌++◌, length, All,
  take, ◌==◌, text_key, number_key, if◌then◌else◌,
}
use vstack.Uploader.Coordinator.{
  VideoChunk, Servers, UploadCoordinator, upload_single_chunk, upload_attempts, try_upload,
  successful_nodes, min_replicas, upload_chunk_to_node, commit_chunk_placement, upload_chunks,
  uploaded, Manifest, finalize_video, all_have_replicas, StatusRequest, activate, delete, abandon,
}
use vstack.Uploader.Coordinator.Placement.{IsPlaced, upload_single_chunk-IsPlaced}
use vstack.Uploader.Coordinator.Batch.{
  IsUploaded, upload_chunks_iff, finalize_video_cases, Succeeds,
}

-- "n2" is down; the service commits at the second attempt.
abbrev put_status : ℕ → String → Option ℕ
put_status attempt url = if url == "n2" then none else some 201

abbrev servers : Servers
servers = record {
  put_status = put_status;
  commit_success = λ attempt nodes. if attempt == 0 then none else some true;
}

abbrev coordinator : UploadCoordinator
coordinator = record {
  replicas_per_chunk = 3;
  max_retries = 3;
  sample = λ chunk nodes count. take count nodes;
  servers = λ chunk. servers;
}

abbrev chunk_0 : VideoChunk
chunk_0 = record {
  chunk_id = "v1-chunk-000";
  video_id = "v1";
  sequence_num = 0;
  payload = 1 ∷ 2 ∷ [];
  size_bytes = 2;
  checksum = "ab";
}

abbrev nodes : List String
nodes = "n1" ∷ "n2" ∷ "n3" ∷ []

uploaded_to_two : upload_single_chunk coordinator chunk_0 nodes ≡ some ("n1" ∷ "n3" ∷ [])
unfolding upload_single_chunk upload_attempts try_upload successful_nodes min_replicas
    upload_chunk_to_node commit_chunk_placement
uploaded_to_two = refl

upload_single_chunk-IsPlaced_example : IsPlaced servers 3 3 nodes ("n1" ∷ "n3" ∷ [])
upload_single_chunk-IsPlaced_example =
    upload_single_chunk-IsPlaced coordinator chunk_0 nodes ("n1" ∷ "n3" ∷ []) uploaded_to_two

upload_chunks_iff_example :
    (upload_chunks coordinator nodes (chunk_0 ∷ []) ≡ uploaded)
    ↔ ((3 ≤ length nodes) × All (IsUploaded coordinator nodes) (chunk_0 ∷ []))
upload_chunks_iff_example = upload_chunks_iff coordinator nodes (chunk_0 ∷ [])

-- A chunk without replicas.
abbrev lost : Manifest
lost = record {
  total_chunks = 1;
  chunks = record { chunk_id = "v1-chunk-000"; replicas = some [] } ∷ [];
}

finalize_video_cases_example :
    let (r, sent) = finalize_video (some lost) true (chunk_0 ∷ []) in
    (Succeeds (some lost) true × (r ≡ some lost) × (sent ≡ activate ∷ []))
    ⊎ ((¬ Succeeds (some lost) true)
        × (r ≡ none)
        × ((before : List StatusRequest) × (sent ≡ before ++ delete ∷ [])))
finalize_video_cases_example = finalize_video_cases (some lost) true (chunk_0 ∷ [])

finalize_lost : (finalize_video (some lost) true (chunk_0 ∷ [])).0 ≡ none
unfolding finalize_video all_have_replicas abandon
finalize_lost = refl
