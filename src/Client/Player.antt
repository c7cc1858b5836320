-- ===== src/Client/Player.antt =====
-- client/main.py, `SmartClient`: the loops that join the manifest, the scheduler and the buffer, one
-- turn of each at a time. A turn that waits for the buffer changes nothing. The network monitor's
-- tasks and the readings of clocks for display are left out.
mod Wanted
pub mod Numbers
pub mod Arrivals
pub mod Results
pub mod Served
pub mod Downloads
pub mod Streams
pub mod Turns
mod Tests
unfoldable pub use Wanted.*
use vstack.Prelude.{
  ℕ, zero, suc, ◌+◌, ◌-◌, ◌/◌, String, Bool, true, false, not, ◌&&◌, ◌||◌, Option, none, some, List,
  [], ◌∷◌, ◌++◌, length, ltb, leb, ◌==◌, number_key, text_key, if◌then◌else◌, max, min,
}
use vstack.Prelude.Dict.{Dict, insert}
use vstack.Metadata.Manifest.{ManifestChunk, VideoManifest}
use vstack.Client.Buffer.{
  BufferedChunk, BufferManager, Bytes, needs_more_chunks, can_start_playback,
  get_buffer_level_seconds, get_next_chunk_sequences, add_chunk, get_next_chunk_for_playback,
  record_buffer_level, reset,
}
use vstack.Client.Scheduler.{Network, ChunkScheduler, distinct_nodes, download_chunk}

-- `download_chunks_parallel`, with its workers' downloads one after another
unfoldable pub download_chunks :
    Surroundings
    → List WantedChunk
    → Dict String (Option Bytes)
    → ChunkScheduler
    → Dict String (Option Bytes) × ChunkScheduler
unfolding insert download_chunk
download_chunks s [] results scheduler = (results, scheduler)
download_chunks s (info ∷ infos) results scheduler =
    let (chunk_data, scheduler') =
      download_chunk (s.net info.chunk_id) info.chunk_id info.replicas s.max_retries scheduler in
    download_chunks s infos (insert info.chunk_id chunk_data results) scheduler'

-- `if chunk_data:` is false for None and for no bytes
unfoldable pub add_numbered :
    Surroundings → String → Option ℕ → Bytes → BufferManager → BufferManager
unfolding add_chunk
add_numbered s chunk_id none bytes m = m
add_numbered s chunk_id (some seq_num) bytes m =
    (add_chunk chunk_id seq_num bytes s.now (s.spill chunk_id) m).1

unfoldable pub add_result :
    Surroundings → Option VideoManifest → String → Option Bytes → BufferManager → BufferManager
unfolding add_numbered extract_sequence_number
add_result s manifest chunk_id none m = m
add_result s manifest chunk_id (some bytes) m =
    if ltb 0 (length bytes)
    then add_numbered s chunk_id (extract_sequence_number s chunk_id manifest) bytes m
    else m

unfoldable pub add_results :
    Surroundings → Option VideoManifest → Dict String (Option Bytes) → BufferManager → BufferManager
unfolding add_result
add_results s manifest [] m = m
add_results s manifest ((chunk_id, chunk_data) ∷ results) m =
    add_results s manifest results (add_result s manifest chunk_id chunk_data m)

unfoldable pub asked_for : SmartClient → List ℕ
unfolding get_next_chunk_sequences chunks_to_download
asked_for c = get_next_chunk_sequences (chunks_to_download c.buffer_manager) c.buffer_manager

-- The body of a turn that finds the buffer low.
unfoldable pub refilled : Surroundings → SmartClient → SmartClient
unfolding download_chunks add_results download_list asked_for
refilled s c =
    let (results, scheduler') =
      download_chunks s (download_list (asked_for c) c.manifest) [] c.scheduler in
    record c {
      scheduler = scheduler';
      buffer_manager = add_results s c.manifest results c.buffer_manager;
    }

-- A chunk duration of 0 is a division that raises.
unfoldable pub will_refill : SmartClient → Bool
unfolding needs_more_chunks
will_refill c =
    c.playing
    && needs_more_chunks c.buffer_manager
    && not (c.buffer_manager.chunk_duration_sec == 0)

-- One turn of `_download_loop`
unfoldable pub download_turn : Surroundings → SmartClient → SmartClient
unfolding refilled will_refill
download_turn s c = if will_refill c then refilled s c else c

-- Playback does not wait any more for its beginning.
unfoldable pub may_play : BufferManager → Bool
unfolding can_start_playback
may_play m = can_start_playback m || m.playback_started || m.playback_ready

-- `chunk.sequence_num >= self.manifest.get('total_chunks', 0) - 1`; without a manifest this raises, the
-- loop catches it, and playing goes on.
unfoldable pub is_last : BufferedChunk → Option VideoManifest → Bool
is_last chunk none = false
is_last chunk (some manifest) = leb manifest.video.total_chunks (chunk.sequence_num + 1)

-- The turn after the chunk is taken from the buffer, or is not there.
unfoldable pub play_taken :
    Surroundings → Option BufferedChunk → BufferManager → SmartClient → SmartClient
unfolding record_buffer_level is_last
play_taken s none m c = record c { buffer_manager = m }
play_taken s (some chunk) m c = record c {
  buffer_manager = record_buffer_level s.now m;
  playing = not (is_last chunk c.manifest);
}

unfoldable pub play_next : Surroundings → SmartClient → SmartClient
unfolding play_taken get_next_chunk_for_playback
play_next s c =
    let (chunk, m) = get_next_chunk_for_playback s.now s.unlink c.buffer_manager in
    play_taken s chunk m c

-- One turn of `_playback_loop`
unfoldable pub playback_turn : Surroundings → SmartClient → SmartClient
unfolding may_play play_next
playback_turn s c = if c.playing && may_play c.buffer_manager then play_next s c else c

-- What `get_stream_chunk` returns from a turn: the data of a chunk, which may be None, or nothing yet.
pub data Streamed : Type 0 where
  returned : Option Bytes → Streamed
  waiting : Streamed

unfoldable pub stream_taken :
    Surroundings → Option BufferedChunk → BufferManager → SmartClient → Streamed × SmartClient
unfolding record_buffer_level
stream_taken s none m c = (waiting, record c { buffer_manager = m })
stream_taken s (some chunk) m c =
    (returned chunk.payload, record c { buffer_manager = record_buffer_level s.now m })

unfoldable pub stream_next : Surroundings → SmartClient → Streamed × SmartClient
unfolding stream_taken get_next_chunk_for_playback
stream_next s c =
    let (chunk, m) = get_next_chunk_for_playback s.now s.unlink c.buffer_manager in
    stream_taken s chunk m c

-- One turn of `get_stream_chunk`; no stream is started without a manifest, which the log line at its
-- end reads
unfoldable pub stream_turn : Surroundings → SmartClient → Streamed × SmartClient
unfolding may_play stream_next
stream_turn s c =
    if not c.playing
    then (returned none, c)
    else if may_play c.buffer_manager
    then stream_next s c
    else (waiting, c)

unfoldable pub stop_first : Surroundings → SmartClient → SmartClient
unfolding reset
stop_first s c =
    if c.playing
    then record c { playing = false; buffer_manager = reset s.unlink c.buffer_manager }
    else c

-- The rest of `start_stream`, with the nodes of the manifest
unfoldable pub start_with : List String → SmartClient → Bool × SmartClient
start_with [] c = (false, c)
start_with (n ∷ nodes) c =
    (true, record c { scheduler = record c.scheduler { has_session = true }; playing = true })

abbrev pub with_manifest : String → Option VideoManifest → SmartClient → SmartClient
with_manifest video_id manifest c = record c {
  video_id = some video_id;
  manifest = manifest;
  has_session = true;
}

unfoldable pub start_stream :
    Surroundings → String → ManifestReply → SmartClient → Bool × SmartClient
unfolding stop_first fetch_manifest start_with get_all_storage_nodes
start_stream s video_id reply c =
    let manifest = fetch_manifest true reply in
    start_with (get_all_storage_nodes manifest) (with_manifest video_id manifest (stop_first s c))

unfoldable pub stop : Surroundings → SmartClient → SmartClient
unfolding reset
stop s c = record c {
  playing = false;
  has_session = false;
  buffer_manager = reset s.unlink c.buffer_manager;
}
