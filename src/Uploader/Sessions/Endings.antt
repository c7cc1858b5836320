-- ===== src/Uploader/Sessions/Endings.antt =====
-- uploader/main.py: how a session can end, and what its steps have to come to for that.
use vstack.Prelude.{
  ℕ, zero, suc, ◌+◌, ◌*◌, ◌≤◌, ◌<◌, ◌≡◌, refl, ap, ◌∙◌, String, Bool, true, false, ◌&&◌, Option,
  none, some, List, [], ◌∷◌, map, ◌==◌, text_key, if◌then◌else◌, Bool-cases, inl, inr, arith,
}
use native.Mathlib.Nat.{div-zero, div-eq_of_lt}
use vstack.Prelude.Dict.{lookup}
use vstack.Uploader.Coordinator.{
  VideoChunk, UploadResult, uploaded, insufficient_nodes, failed_to_upload, upload_chunks, Manifest,
  finalize_video,
}
use vstack.Uploader.Sessions.{
  active, deleted, Session, Sessions, modify, Steps, reassigned, reported,
}

-- The session is there, with this property.
pub record Has (id : String) (P : Session → Type 0) (sessions : Sessions) : Type 0 where
  pub session : Session
  pub found : lookup id sessions ≡ some session
  pub holds : P session

abbrev pub map_some : (Session → Session) → Option Session → Option Session
map_some f none = none
map_some f (some s) = some (f s)

pub lookup-modify :
    (id : String) (f : Session → Session) (sessions : Sessions)
    → lookup id (modify id f sessions) ≡ map_some f (lookup id sessions)
unfolding lookup modify
lookup-modify id f [] = refl
lookup-modify id f ((j, s) ∷ sessions) = elim (Bool-cases (j == id)) [
  | inl e ↦ rw (e, e) refl
  | inr e ↦ rw (e, e) (lookup-modify id f sessions)
]

module _ (id : String) where
  pub Has-modify :
      (P Q : Session → Type 0) (f : Session → Session) (sessions : Sessions)
      → ((s : Session) → P s → Q (f s))
      → Has id P sessions
      → Has id Q (modify id f sessions)
  Has-modify P Q f sessions k h = record {
    session = f h.session;
    found = lookup-modify id f sessions ∙ ap (map_some f) h.found;
    holds = k h.session h.holds;
  }

-- The session has come as far as this, and no further.
abbrev pub Reached : ℕ → Session → Type 0
Reached n s = s.progress ≤ n

-- How a session ends, by whether all went well.
abbrev pub IsEnded : Bool → Session → Type 0
IsEnded true s = (s.status ≡ active) × (s.progress ≡ 100)
IsEnded false s = (s.status ≡ deleted) × (s.progress ≤ 90)

pub record Ends (ok : Bool) (id video_id : String) (out : Sessions × Option String) : Type 0 where
  pub ended : Has id (IsEnded ok) out.0
  pub cleanup : out.1 ≡ (if ok then none else some video_id)

-- Whether an upload has no failures.
abbrev pub is_uploaded : UploadResult → Bool
is_uploaded uploaded = true
is_uploaded insufficient_nodes = false
is_uploaded (failed_to_upload ids) = false

abbrev pub is_finalized : Option Manifest → Bool
is_finalized none = false
is_finalized (some manifest) = true

-- Whether the rest of the task returns, from the upload on.
abbrev pub uploads : Steps → Option (List String) → List VideoChunk → Bool
uploads e none chunks = false
uploads e (some nodes) chunks =
    is_uploaded (upload_chunks e.coordinator nodes chunks)
    && is_finalized (finalize_video e.manifest e.accepts chunks).0
    && e.cleaned

-- Whether every step of the task returns.
abbrev pub all_return : Steps → Option (List VideoChunk) → Option String → Bool
all_return e none registered = false
all_return e (some chunks) none = false
all_return e (some chunks) (some server_id) =
    uploads e e.storage_nodes (map (reassigned server_id) chunks)

-- The reports of the upload, by the code's formula, leave the progress where it is.
pub reported_lem : (completed total : ℕ) → completed ≤ total → reported completed total ≡ 50
unfolding reported
reported_lem completed zero h = ground (arith, div-zero (4 * completed))
reported_lem completed (suc total) h =
    let less : 4 * completed < 10 * suc total = omega arith in
    ap (λ (q : ℕ). 50 + q) (div-eq_of_lt less)
