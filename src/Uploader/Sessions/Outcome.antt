-- ===== src/Uploader/Sessions/Outcome.antt =====
-- How the background task leaves its session.
use vstack.Prelude.{
  ℕ, zero, suc, ◌-◌, ◌≤◌, ◌≡◌, refl, sym, ap, String, Bool, true, false, ◌&&◌, Option, none, some,
  List, length, map, ltb, text_key, if◌then◌else◌, arith,
}
use mathlib.Core.Path.{subst}
use vstack.Prelude.Dict.{lookup}
use vstack.Uploader.Coordinator.{
  VideoChunk, UploadResult, uploaded, insufficient_nodes, failed_to_upload, failed_chunks,
  upload_chunks, Manifest, finalize_video,
}
use vstack.Uploader.Sessions.{
  active, deleted, chunking, registering, uploading_chunks, finalizing, Session, Sessions, modify,
  with_status, update_status, with_progress, update_progress, with_total_chunks, with_manifest_url,
  with_video_id, update_video_id, Steps, reassigned, reported, report_progress, fail_session,
  complete, after_finalizing, after_uploading, upload_to, with_server_id, after_registering,
  after_processing, process_and_upload_video,
}
use vstack.Uploader.Sessions.Endings.{
  Has, Has-modify, Reached, IsEnded, Ends, is_uploaded, is_finalized, uploads, all_return,
  reported_lem,
}

module _ (e : Steps) (id video_id : String) where
  fail_session-Ends :
      (message : String) (sessions : Sessions)
      → Has id (Reached 90) sessions
      → Ends false id video_id (fail_session id video_id message sessions)
  unfolding fail_session update_status
  fail_session-Ends message sessions h = record {
    ended =
        Has-modify id (Reached 90) (IsEnded false) (with_status deleted none (some message))
          sessions (λ s p. (refl, p)) h;
    cleanup = refl;
  }

  complete-Ends :
      (server_id : String) (b : Bool) (sessions : Sessions)
      → Has id (Reached 90) sessions
      → Ends b id video_id (complete b id video_id server_id sessions)
  unfolding complete update_status
  complete-Ends server_id false sessions h = fail_session-Ends "cleanup" sessions h
  complete-Ends server_id true sessions h = record {
    ended =
        Has-modify id (IsEnded true) (IsEnded true) (with_manifest_url server_id) _ (λ s p. p)
          (Has-modify id (Reached 90) (IsEnded true) (with_status active (some 100) none) sessions
            (λ s p. (refl, omega arith)) h);
    cleanup = refl;
  }

  after_finalizing-Ends :
      (o : Option Manifest) (server_id : String) (sessions : Sessions)
      → Has id (Reached 90) sessions
      → Ends
          (is_finalized o && e.cleaned)
          id
          video_id
          (after_finalizing e o id video_id server_id sessions)
  unfolding after_finalizing
  after_finalizing-Ends none server_id sessions h = fail_session-Ends "finalize" sessions h
  after_finalizing-Ends (some m) server_id sessions h = complete-Ends server_id e.cleaned sessions h

  after_uploading-Ends :
      (r : UploadResult) (chunks : List VideoChunk) (server_id : String) (sessions : Sessions)
      → Has id (Reached 90) sessions
      → Ends
          (is_uploaded r
            && is_finalized (finalize_video e.manifest e.accepts chunks).0
            && e.cleaned)
          id
          video_id
          (after_uploading e r chunks id video_id server_id sessions)
  unfolding after_uploading update_status update_progress
  after_uploading-Ends insufficient_nodes chunks server_id sessions h =
      fail_session-Ends "nodes" sessions h
  after_uploading-Ends (failed_to_upload ids) chunks server_id sessions h =
      fail_session-Ends "chunks" sessions h
  after_uploading-Ends uploaded chunks server_id sessions h =
      after_finalizing-Ends (finalize_video e.manifest e.accepts chunks).0 server_id _ (
        Has-modify id (Reached 90) (Reached 90) (with_status finalizing none none) _ (λ s p. p)
          (Has-modify id (Reached 90) (Reached 90) (with_progress 90) sessions (λ s p. omega arith)
            h))

  report_progress-Has :
      (total completed : ℕ) (sessions : Sessions)
      → completed ≤ total
      → Has id (Reached 90) sessions
      → Has id (Reached 90) (report_progress id total completed sessions)
  unfolding report_progress update_progress
  report_progress-Has total zero sessions h k = k
  report_progress-Has total (suc completed) sessions h k =
      Has-modify id (Reached 90) (Reached 90) (with_progress (reported (suc completed) total)) _
        (λ s p. omega (arith, reported_lem (suc completed) total h))
        (report_progress-Has total completed sessions (omega arith) k)

  upload_to-Ends :
      (o : Option (List String)) (chunks : List VideoChunk) (server_id : String)
      (sessions : Sessions)
      → Has id (Reached 90) sessions
      → Ends (uploads e o chunks) id video_id (upload_to e o chunks id video_id server_id sessions)
  unfolding upload_to
  upload_to-Ends none chunks server_id sessions h = fail_session-Ends "metadata" sessions h
  upload_to-Ends (some nodes) chunks server_id sessions h =
      after_uploading-Ends (upload_chunks e.coordinator nodes chunks) chunks server_id _ (
        report_progress-Has (length chunks)
          (if ltb (length nodes) e.coordinator.replicas_per_chunk
            then 0
            else length chunks - length (failed_chunks e.coordinator nodes chunks))
          sessions (ground arith) h)

  found_session :
      (server_id : String) (sessions : Sessions)
      → Has id (Reached 90) sessions
      → update_video_id id server_id sessions ≡ some (modify id (with_video_id server_id) sessions)
  unfolding update_video_id
  found_session server_id sessions h =
      ap
        (λ (o : Option Session). elim o [
          | none ↦ none
          | some s ↦ some (modify id (with_video_id server_id) sessions)
        ])
        h.found

  with_server_id-Ends :
      (chunks : List VideoChunk) (server_id : String) (sessions sessions' : Sessions)
      → Has id (Reached 90) sessions'
      → Ends
          (uploads e e.storage_nodes (map (reassigned server_id) chunks))
          id
          video_id
          (with_server_id e chunks id video_id server_id sessions (some sessions'))
  unfolding with_server_id update_status update_progress
  with_server_id-Ends chunks server_id sessions sessions' h =
      upload_to-Ends e.storage_nodes (map (reassigned server_id) chunks) server_id _ (
        Has-modify id (Reached 90) (Reached 90) (with_status uploading_chunks none none) _
          (λ s p. p)
          (Has-modify id (Reached 90) (Reached 90) (with_progress 50) sessions' (λ s p. omega arith)
            h))

  after_registering-Ends :
      (o : Option String) (chunks : List VideoChunk) (sessions : Sessions)
      → Has id (Reached 90) sessions
      → Ends
          (all_return e (some chunks) o)
          id
          video_id
          (after_registering e o chunks id video_id sessions)
  unfolding after_registering
  after_registering-Ends none chunks sessions h = fail_session-Ends "register" sessions h
  after_registering-Ends (some server_id) chunks sessions h =
      subst
        (λ (found : Option Sessions).
          Ends (all_return e (some chunks) (some server_id)) id video_id
            (with_server_id e chunks id video_id server_id sessions found))
        (sym (found_session server_id sessions h))
        (with_server_id-Ends chunks server_id sessions
          (modify id (with_video_id server_id) sessions)
          (Has-modify id (Reached 90) (Reached 90) (with_video_id server_id) sessions (λ s p. p) h))

  after_processing-Ends :
      (o : Option (List VideoChunk)) (sessions : Sessions)
      → Has id (Reached 90) sessions
      → Ends (all_return e o e.registered) id video_id (after_processing e o id video_id sessions)
  unfolding after_processing update_status
  after_processing-Ends none sessions h = fail_session-Ends "process" sessions h
  after_processing-Ends (some chunks) sessions h = after_registering-Ends e.registered chunks _ (
      Has-modify id (Reached 90) (Reached 90) (with_status registering none none) _ (λ s p. p)
        (Has-modify id (Reached 90) (Reached 90) (with_total_chunks (length chunks)) _ (λ s p. p)
          (Has-modify id (Reached 90) (Reached 90) (with_status chunking (some 40) none) sessions
            (λ s p. omega arith) h)))

-- The task on a session that exists ends it: as active with its progress at 100, and with no clean-up
-- asked for, if every step returns; and else as deleted with its progress at 90 at most, and with the
-- clean-up asked for the id that the task was given, not for the one that the service assigned.
pub process_and_upload_video-Ends :
    (e : Steps) (id video_id : String) (s : Session) (sessions : Sessions)
    → lookup id sessions ≡ some s
    → Ends
        (all_return e e.processed e.registered)
        id
        video_id
        (process_and_upload_video e id video_id sessions)
unfolding process_and_upload_video update_status
process_and_upload_video-Ends e id video_id s sessions h =
    after_processing-Ends e id video_id e.processed _ (
      Has-modify id (λ t. Unit) (Reached 90) (with_status chunking (some 20) none) sessions
        (λ t p. omega arith) (record { session = s; found = h; holds = tt }))
