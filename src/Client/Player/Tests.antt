-- ===== src/Client/Player/Tests.antt =====
-- A client that plays a video of two chunks.
use vstack.Prelude.{
  ℕ, ◌+◌, ◌<◌, ◌≡◌, refl, String, Bool, true, false, none, some, [], ◌∷◌, any, ◌==◌, number_key,
  text_key, arith,
}
use vstack.Metadata.Tables.{
  VideoRow, ChunkRow, ReplicaRow, Tables, no_rows, HasKeys, active, ReplicaStatus, replication,
  same_chunk, same_replica,
}
use vstack.Prelude.Table.{order_by}
use vstack.Metadata.Database.{get_video}
use vstack.Metadata.Manifest.{ManifestChunk, VideoManifest, get_video_manifest}
use vstack.Client.Buffer.{BufferManager, init, needs_more_chunks, is_buffered, add_chunk}
use vstack.Client.Buffer.Invariant.{init-IsValid}
use vstack.Client.Scheduler.{Network, response, read_body}
use vstack.Client.Scheduler.Failover.{first_result}
use vstack.Client.Scheduler.Sources.{OfData}
use vstack.Client.Player.{
  SmartClient, Surroundings, WantedChunk, get_chunk_info, extract_sequence_number, asked_for,
  download_turn, may_play, stream_turn, returned,
}
use vstack.Client.Player.Numbers.{extract_sequence_number-get_chunk_info}
use vstack.Client.Player.Arrivals.{SpillWorks, HasChunk}
use vstack.Client.Player.Served.{IsServed}
use vstack.Client.Player.Downloads.{download_turn-HasChunk}
use vstack.Client.Player.Streams.{stream_turn-spilled}
use vstack.Client.Player.Turns.{none_yet, one_more, downloads, HasValidBuffer, Turns-HasValidBuffer}

abbrev video : VideoRow
video = record {
  video_id = "v1";
  title = "A film";
  duration_sec = 20;
  total_chunks = 2;
  chunk_size_bytes = 2097152;
  created_at = 1000;
  status = active;
}

abbrev chunk : String → ℕ → ChunkRow
chunk id n = record {
  chunk_id = id;
  video_id = "v1";
  sequence_num = n;
  size_bytes = 2;
  checksum = [];
  redundancy_mode = replication;
  created_at = 1000;
}

abbrev replica : String → ReplicaRow
replica id = record {
  chunk_id = id;
  node_url = "http://n1";
  status = ReplicaStatus.active;
  ballot_number = 1;
  created_at = 1000;
}

abbrev stored_video : Tables
stored_video = record no_rows {
  videos = video ∷ [];
  chunks = chunk "c0" 0 ∷ chunk "c1" 1 ∷ [];
  chunk_replicas = replica "c0" ∷ replica "c1" ∷ [];
}

stored_video-HasKeys : HasKeys stored_video
unfolding same_chunk same_replica
stored_video-HasKeys = record {
  videos_key = (tt, tt);
  chunks_key = ((refl, tt), (tt, tt));
  replicas_key = ((refl, tt), (tt, tt));
  nodes_key = tt;
  consensus_key = tt;
  fragments_key = tt;
  stats_key = tt;
}

abbrev entry : String → ℕ → ManifestChunk
entry id n = record {
  chunk_id = id;
  sequence_num = n;
  size_bytes = 2;
  checksum = [];
  redundancy_mode = replication;
  replicas = "http://n1" ∷ [];
  fragments = none;
}

abbrev manifest : VideoManifest
manifest = record { video = video; chunks = entry "c0" 0 ∷ entry "c1" 1 ∷ [] }

made : get_video_manifest "v1" stored_video ≡ some manifest
unfolding get_video_manifest get_video order_by
made = refl

abbrev network : Network
network = record {
  reply = λ node attempt. response 200 (7 ∷ 8 ∷ []);
  is_node_healthy = λ turn node. true;
  beats = λ turn a b. false;
  time = 100;
}

abbrev surroundings : Surroundings
surroundings = record {
  net = λ id. network;
  spill = λ id. some "/tmp/chunk";
  unlink = λ path. true;
  now = 100;
  max_retries = 3;
  parsed_number = λ id. none;
}

abbrev client : BufferManager → SmartClient
client m = record {
  video_id = some "v1";
  manifest = some manifest;
  scheduler = record {
    active_downloads = [];
    node_load = λ node. 0;
    download_history = λ node. [];
    chunk_sources = [];
    total_downloads = 0;
    failed_downloads = 0;
    failover_count = 0;
    has_session = true;
  };
  buffer_manager = m;
  playing = true;
  has_session = true;
}

-- Room for a single byte in memory.
abbrev empty_buffer : BufferManager
empty_buffer = init 30 15 10 10 1

abbrev works : SpillWorks surroundings
works = record { path_of = λ id. "/tmp/chunk"; spills = λ id. refl }

abbrev second : WantedChunk
second = record { chunk_id = "c1"; replicas = "http://n1" ∷ [] }

replies-same :
    (session : Bool) → OfData (λ b. b ≡ 7 ∷ 8 ∷ []) (read_body session (response 200 (7 ∷ 8 ∷ [])))
unfolding read_body
replies-same true = refl
replies-same false = tt

second-IsServed : IsServed surroundings (7 ∷ 8 ∷ []) second
unfolding first_result read_body
second-IsServed = record {
  same = record { body_of = λ session node attempt. replies-same session };
  full = refl;
  named = refl;
  delivered = refl;
}

low : needs_more_chunks empty_buffer ≡ true
unfolding init needs_more_chunks
low = refl

asked : any (λ n. n == 1) (asked_for (client empty_buffer)) ≡ true
unfolding init asked_for
asked = refl

known : get_chunk_info 1 (some manifest) ≡ some second
unfolding get_chunk_info
known = refl

lasts : (empty_buffer.chunk_duration_sec == 0) ≡ false
unfolding init
lasts = refl

download_turn-HasChunk_example :
    HasChunk "c1" 1
      (7 ∷ 8 ∷ [])
      "/tmp/chunk"
      (download_turn surroundings (client empty_buffer)).buffer_manager
download_turn-HasChunk_example =
    download_turn-HasChunk surroundings (client empty_buffer) "v1" stored_video manifest 1 second
      (7 ∷ 8 ∷ []) works stored_video-HasKeys made refl refl refl (init-IsValid 30 15 10 10 1) low
      lasts asked known second-IsServed

extract_sequence_number-get_chunk_info_example :
    extract_sequence_number surroundings "c1" (some manifest) ≡ some 1
extract_sequence_number-get_chunk_info_example =
    extract_sequence_number-get_chunk_info surroundings "v1" stored_video manifest 1 second
      stored_video-HasKeys made known

nothing_buffered : is_buffered empty_buffer.current_position empty_buffer.buffer ≡ false
unfolding init is_buffered
nothing_buffered = refl

ready :
    may_play
      (add_chunk "c0" empty_buffer.current_position
        (7 ∷ 8 ∷ [])
        100
        (some "/tmp/chunk")
        empty_buffer).1
    ≡ true
unfolding init may_play add_chunk
ready = refl

too_much : empty_buffer.max_memory_bytes < empty_buffer.current_memory_usage + 2
unfolding init
too_much = omega arith

stream_turn-spilled_example :
    let m =
      (add_chunk "c0" empty_buffer.current_position
        (7 ∷ 8 ∷ [])
        100
        (some "/tmp/chunk")
        empty_buffer).1 in
    let (r, c') = stream_turn surroundings (client m) in
    (r ≡ returned none) × (c'.buffer_manager.current_position ≡ empty_buffer.current_position + 1)
stream_turn-spilled_example =
    stream_turn-spilled surroundings (client empty_buffer) "c0" (7 ∷ 8 ∷ []) 100 "/tmp/chunk" refl
      (init-IsValid 30 15 10 10 1) nothing_buffered too_much ready

Turns-HasValidBuffer_example : HasValidBuffer (download_turn surroundings (client empty_buffer))
Turns-HasValidBuffer_example =
    Turns-HasValidBuffer (one_more none_yet (downloads {c = client empty_buffer} surroundings))
      (record { buffer_IsValid = init-IsValid 30 15 10 10 1 })
