-- ===== src/Uploader/Sessions/Tests.antt =====
-- A session whose video is processed, registered under another id, and then finds no nodes.
use vstack.Prelude.{text_key, ◌≡◌, refl, true, false, none, some, [], ◌∷◌, take}
use vstack.Prelude.Dict.{lookup}
use vstack.Uploader.Sessions.{
  uploading, Session, Sessions, Steps, create_session, get_active_count, process_and_upload_video,
}
use vstack.Uploader.Sessions.Endings.{Ends, all_return}
use vstack.Uploader.Sessions.Outcome.{process_and_upload_video-Ends}

abbrev session : Session
session = record {
  video_id = "local";
  title = "A film";
  filename = "film.mp4";
  status = uploading;
  progress = 0;
  error = none;
  total_chunks = none;
  manifest_video = none;
}

abbrev one_session : Sessions
one_session = ("s1", session) ∷ []

created : create_session "s1" "local" "A film" "film.mp4" [] ≡ one_session
unfolding create_session
created = refl

abbrev steps : Steps
steps = record {
  processed = some [];
  registered = some "v1";
  coordinator = record {
    replicas_per_chunk = 3;
    max_retries = 3;
    sample = λ chunk nodes count. take count nodes;
    servers = λ chunk. record {
      put_status = λ attempt url. none;
      commit_success = λ attempt nodes. none;
    };
  };
  storage_nodes = some ("n1" ∷ []);
  manifest = none;
  accepts = false;
  cleaned = true;
}

there : lookup "s1" one_session ≡ some session
unfolding lookup
there = refl

process_and_upload_video-Ends_example :
    Ends
      (all_return steps steps.processed steps.registered)
      "s1"
      "local"
      (process_and_upload_video steps "s1" "local" one_session)
process_and_upload_video-Ends_example =
    process_and_upload_video-Ends steps "s1" "local" session one_session there

-- The session that has ended still counts as active, and the clean-up names the local id.
still_counted : get_active_count (process_and_upload_video steps "s1" "local" one_session).0 ≡ 1
unfolding get_active_count process_and_upload_video lookup
still_counted = refl

local_id : (process_and_upload_video steps "s1" "local" one_session).1 ≡ some "local"
unfolding process_and_upload_video lookup
local_id = refl
