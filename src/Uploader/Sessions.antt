-- ===== src/Uploader/Sessions.antt =====
-- uploader/main.py: the upload sessions, and the background task that takes a video through its upload.
-- What the video processor and the servers come to is an argument. The handling of the request's file
-- and the time stamps are left out.
mod Store
pub mod Endings
pub mod Outcome
mod Tests
unfoldable pub use Store.*
use vstack.Prelude.{
  ℕ, zero, suc, ◌+◌, ◌-◌, ◌*◌, ◌/◌, String, Bool, true, false, ◌&&◌, Option, none, some, List, [],
  ◌∷◌, length, map, min, ltb, ◌==◌, text_key, if◌then◌else◌,
}
use vstack.Prelude.Dict.{Dict, lookup, insert}
use vstack.Uploader.Coordinator.{
  VideoChunk, UploadCoordinator, UploadResult, uploaded, insufficient_nodes, failed_to_upload,
  failed_chunks, upload_chunks, Manifest, StatusRequest, finalize_video,
}

-- What the steps of an upload come to, and nothing where they raise: the chunks of the video, the id
-- that the metadata service assigns, the upload with its healthy nodes, the reading of the manifest and
-- the acceptance of the status, and the removal of the temporary files.
pub record Steps : Type 0 where
  pub processed : Option (List VideoChunk)
  pub registered : Option String
  pub coordinator : UploadCoordinator
  pub storage_nodes : Option (List String)
  pub manifest : Option Manifest
  pub accepts : Bool
  pub cleaned : Bool

abbrev pub reassigned : String → VideoChunk → VideoChunk
reassigned video_id c = record c { video_id = video_id }

-- `50 + int(p * 0.4)` with `p` the share of the chunks that are done
unfoldable pub reported : ℕ → ℕ → ℕ
reported completed total = 50 + 4 * completed / (10 * total)

-- The calls of the progress callback, one for each chunk that is done
unfoldable pub report_progress : String → ℕ → ℕ → Sessions → Sessions
unfolding update_progress reported
report_progress session_id total zero sessions = sessions
report_progress session_id total (suc completed) sessions =
    update_progress session_id (reported (suc completed) total)
      (report_progress session_id total completed sessions)

-- The `except` block: the session, and the id that the clean-up is asked for. The text of the error is
-- that of the step that raised, in a word.
unfoldable pub fail_session : String → String → String → Sessions → Sessions × Option String
unfolding update_status
fail_session session_id video_id message sessions =
    (update_status session_id deleted none (some message) sessions, some video_id)

-- The end of a task that has finalized its video
unfoldable pub complete : Bool → String → String → String → Sessions → Sessions × Option String
unfolding update_status modify fail_session
complete false session_id video_id server_id sessions =
    fail_session session_id video_id "cleanup" sessions
complete true session_id video_id server_id sessions = (
  modify session_id (with_manifest_url server_id)
      (update_status session_id active (some 100) none sessions),
  none,
)

unfoldable pub after_finalizing :
    Steps → Option Manifest → String → String → String → Sessions → Sessions × Option String
unfolding complete fail_session
after_finalizing e none session_id video_id server_id sessions =
    fail_session session_id video_id "finalize" sessions
after_finalizing e (some manifest) session_id video_id server_id sessions =
    complete e.cleaned session_id video_id server_id sessions

unfoldable pub after_uploading :
    Steps
    → UploadResult
    → List VideoChunk
    → String
    → String
    → String
    → Sessions
    → Sessions × Option String
unfolding after_finalizing fail_session finalize_video update_status update_progress
after_uploading e uploaded chunks session_id video_id server_id sessions =
    after_finalizing e (finalize_video e.manifest e.accepts chunks).0 session_id video_id server_id
      (update_status session_id finalizing none none (update_progress session_id 90 sessions))
after_uploading e insufficient_nodes chunks session_id video_id server_id sessions =
    fail_session session_id video_id "nodes" sessions
after_uploading e (failed_to_upload ids) chunks session_id video_id server_id sessions =
    fail_session session_id video_id "chunks" sessions

-- With the healthy nodes, which may not be had; the chunks that found their nodes are reported.
unfoldable pub upload_to :
    Steps
    → Option (List String)
    → List VideoChunk
    → String
    → String
    → String
    → Sessions
    → Sessions × Option String
unfolding after_uploading fail_session upload_chunks failed_chunks report_progress
upload_to e none chunks session_id video_id server_id sessions =
    fail_session session_id video_id "metadata" sessions
upload_to e (some nodes) chunks session_id video_id server_id sessions =
    let done =
      if ltb (length nodes) e.coordinator.replicas_per_chunk
      then 0
      else length chunks - length (failed_chunks e.coordinator nodes chunks) in
    after_uploading e (upload_chunks e.coordinator nodes chunks) chunks session_id video_id
      server_id (report_progress session_id (length chunks) done sessions)

unfoldable pub with_server_id :
    Steps
    → List VideoChunk
    → String
    → String
    → String
    → Sessions
    → Option Sessions
    → Sessions × Option String
unfolding upload_to fail_session update_progress update_status
with_server_id e chunks session_id video_id server_id sessions none =
    fail_session session_id video_id "session" sessions
with_server_id e chunks session_id video_id server_id sessions (some sessions') =
    upload_to e e.storage_nodes (map (reassigned server_id) chunks) session_id video_id server_id (
      update_status session_id uploading_chunks none none (update_progress session_id 50 sessions'))

unfoldable pub after_registering :
    Steps → Option String → List VideoChunk → String → String → Sessions → Sessions × Option String
unfolding with_server_id fail_session update_video_id
after_registering e none chunks session_id video_id sessions =
    fail_session session_id video_id "register" sessions
after_registering e (some server_id) chunks session_id video_id sessions =
    with_server_id e chunks session_id video_id server_id sessions
      (update_video_id session_id server_id sessions)

unfoldable pub after_processing :
    Steps → Option (List VideoChunk) → String → String → Sessions → Sessions × Option String
unfolding after_registering fail_session update_status modify
after_processing e none session_id video_id sessions =
    fail_session session_id video_id "process" sessions
after_processing e (some chunks) session_id video_id sessions =
    after_registering e e.registered chunks session_id video_id (
      update_status session_id registering none none (
        modify session_id (with_total_chunks (length chunks))
          (update_status session_id chunking (some 40) none sessions)))

unfoldable pub process_and_upload_video :
    Steps → String → String → Sessions → Sessions × Option String
unfolding after_processing update_status
process_and_upload_video e session_id video_id sessions =
    after_processing e e.processed session_id video_id
      (update_status session_id chunking (some 20) none sessions)
