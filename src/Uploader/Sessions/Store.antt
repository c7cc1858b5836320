-- ===== src/Uploader/Sessions/Store.antt =====
-- uploader/main.py, `SessionManager`: the sessions.
use vstack.Prelude.{
  ℕ, String, Option, none, some, [], ◌∷◌, length, min, ◌==◌, text_key, if◌then◌else◌,
}
use vstack.Prelude.Dict.{Dict, lookup, insert}

pub data SessionStatus : Type 0 where
  uploading processing chunking registering uploading_chunks finalizing active deleted :
      SessionStatus

pub record Session : Type 0 where
  pub video_id : String
  pub title : String
  pub filename : String
  pub status : SessionStatus
  pub progress : ℕ
  pub error : Option String
  pub total_chunks : Option ℕ
  pub manifest_video : Option String

-- `SessionManager`, by the sessions that it keeps
abbrev pub Sessions : Type 0
Sessions = Dict String Session

-- `if session_id in self._sessions: ...`
unfoldable pub modify : String → (Session → Session) → Sessions → Sessions
modify session_id f [] = []
modify session_id f ((id, s) ∷ sessions) =
    if id == session_id then (id, f s) ∷ sessions else (id, s) ∷ modify session_id f sessions

-- `create_session`, with the id that uuid4 gives
unfoldable pub create_session : String → String → String → String → Sessions → Sessions
unfolding insert
create_session session_id video_id title filename = insert session_id (record {
  video_id = video_id;
  title = title;
  filename = filename;
  status = uploading;
  progress = 0;
  error = none;
  total_chunks = none;
  manifest_video = none;
})

-- `if progress is not None: ...` and `if error: ...`
abbrev pub or_same {ℓ} : {A : Type ℓ} → Option A → A → A
or_same none old = old
or_same (some new) old = new

abbrev pub or_kept : Option String → Option String → Option String
or_kept none old = old
or_kept (some new) old = some new

abbrev pub capped : Option ℕ → Option ℕ
capped none = none
capped (some progress) = some (min progress 100)

abbrev pub with_status : SessionStatus → Option ℕ → Option String → Session → Session
with_status status progress error s = record s {
  status = status;
  progress = or_same (capped progress) s.progress;
  error = or_kept error s.error;
}

unfoldable pub update_status :
    String → SessionStatus → Option ℕ → Option String → Sessions → Sessions
unfolding modify
update_status session_id status progress error =
    modify session_id (with_status status progress error)

abbrev pub with_progress : ℕ → Session → Session
with_progress progress s = record s { progress = min progress 100 }

unfoldable pub update_progress : String → ℕ → Sessions → Sessions
unfolding modify
update_progress session_id progress = modify session_id (with_progress progress)

-- `add_metadata`, of the two keys that are added
abbrev pub with_total_chunks : ℕ → Session → Session
with_total_chunks total s = record s { total_chunks = some total }

abbrev pub with_manifest_url : String → Session → Session
with_manifest_url video_id s = record s { manifest_video = some video_id }

abbrev pub with_video_id : String → Session → Session
with_video_id video_id s = record s { video_id = video_id }

-- No result where the session is missing, which raises.
unfoldable pub update_video_id : String → String → Sessions → Option Sessions
unfolding lookup modify
update_video_id session_id video_id sessions = elim (lookup session_id sessions) [
  | none ↦ none
  | some s ↦ some (modify session_id (with_video_id video_id) sessions)
]

unfoldable pub get_active_count : Sessions → ℕ
get_active_count sessions = length sessions
