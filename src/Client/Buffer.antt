-- ===== src/Client/Buffer.antt =====
-- client/buffer_manager.py: the playback buffer. The proofs are in the modules below.
-- `now` is a reading of time.time(), which is stored and never compared. `spill` is what the
-- temporary file comes to: its path, or nothing where making or writing it raises (a file that was
-- made by then stays, and no state refers to it). `unlink` says
-- whether os.remove succeeds. The paths that exist are kept in `temp_files`.
mod State
pub mod Order
pub mod Invariant
pub mod Addition
pub mod Found
pub mod Playback
pub mod Requests
unfoldable pub use State.*
use vstack.Prelude.{
  ℕ, zero, suc, ◌+◌, ◌-◌, ◌*◌, ltb, leb, ◌==◌, Bool, true, false, not, ◌&&◌, Option, none, some,
  List, [], ◌∷◌, ◌++◌, String, length, drop, keep, any, if◌then◌else◌, max, number_key, text_key,
}

-- The loop that looks for a buffered chunk of the same number.
unfoldable pub is_buffered : ℕ → List BufferedChunk → Bool
is_buffered seq chunks = any (λ c. c.sequence_num == seq) chunks

-- The loop that inserts before the first chunk with a greater number, or at the end.
unfoldable pub insert_sorted : BufferedChunk → List BufferedChunk → List BufferedChunk
insert_sorted b [] = b ∷ []
insert_sorted b (c ∷ rest) =
    if ltb b.sequence_num c.sequence_num then b ∷ c ∷ rest else c ∷ insert_sorted b rest

-- The part of `add_chunk` after the chunk is stored, in memory or in a file.
unfoldable pub put : BufferedChunk → BufferManager → BufferManager
unfolding insert_sorted can_start_playback
put b m =
    let m' = record m {
      buffer = insert_sorted b m.buffer;
      total_chunks_buffered = m.total_chunks_buffered + 1;
      buffer_updated = true;
    } in
    if can_start_playback m' then record m' { playback_ready = true } else m'

-- The chunk that is kept in memory, and the one that is spilled to a file.
abbrev pub in_memory : String → ℕ → Bytes → ℕ → BufferedChunk
in_memory chunk_id seq bytes now = record {
  chunk_id = chunk_id;
  sequence_num = seq;
  payload = some bytes;
  size_bytes = length bytes;
  buffered_at = now;
  temp_file_path = none;
}

abbrev pub on_disk : String → ℕ → Bytes → ℕ → String → BufferedChunk
on_disk chunk_id seq bytes now path = record {
  chunk_id = chunk_id;
  sequence_num = seq;
  payload = none;
  size_bytes = length bytes;
  buffered_at = now;
  temp_file_path = some path;
}

unfoldable pub spill_chunk :
    String → ℕ → Bytes → ℕ → Option String → BufferManager → Bool × BufferManager
unfolding put
spill_chunk chunk_id seq bytes now none m = (false, m)
spill_chunk chunk_id seq bytes now (some path) m = (
  true,
  put (on_disk chunk_id seq bytes now path) (record m { temp_files = path ∷ m.temp_files }),
)

unfoldable pub add_chunk :
    String → ℕ → Bytes → ℕ → Option String → BufferManager → Bool × BufferManager
unfolding is_buffered spill_chunk put
add_chunk chunk_id seq bytes now spill m =
    if ltb seq m.current_position
    then (false, m)
    else if is_buffered seq m.buffer
    then (false, m)
    else if ltb m.max_memory_bytes (m.current_memory_usage + length bytes)
    then spill_chunk chunk_id seq bytes now spill m
    else (
      true,
      put (in_memory chunk_id seq bytes now)
          (record m { current_memory_usage = m.current_memory_usage + length bytes }),
    )

-- `if next_chunk.data:` is false for None and for no bytes
unfoldable pub has_data : BufferedChunk → Bool
has_data c = elim (c.payload) [ none ↦ false | some bytes ↦ ltb 0 (length bytes) ]

-- os.path.exists, then os.remove; an OSError is ignored
unfoldable pub remove_temp : (String → Bool) → Option String → List String → List String
remove_temp unlink none files = files
remove_temp unlink (some path) files =
    if unlink path then keep (λ f. not (f == path)) files else files

-- The branch of `get_next_chunk_for_playback` that takes the first chunk.
unfoldable pub play_chunk :
    ℕ → (String → Bool) → BufferedChunk → List BufferedChunk → BufferManager → BufferManager
unfolding has_data remove_temp
play_chunk now unlink c rest m = record m {
  buffer = rest;
  current_memory_usage =
      if has_data c then m.current_memory_usage - c.size_bytes else m.current_memory_usage;
  temp_files = remove_temp unlink c.temp_file_path m.temp_files;
  current_position = m.current_position + 1;
  total_chunks_played = m.total_chunks_played + 1;
  last_chunk_played_time = some now;
  playback_started = true;
  playback_start_time = if m.playback_started then m.playback_start_time else some now;
  buffer_updated = true;
}

-- The branch of an empty buffer.
unfoldable pub underrun : ℕ → BufferManager → BufferManager
underrun now m =
    if m.playback_started
    then record m {
      rebuffering_events = m.rebuffering_events + 1;
      last_rebuffer_time = now;
      playback_ready = false;
    }
    else m

unfoldable pub take_next :
    ℕ → (String → Bool) → List BufferedChunk → BufferManager → Option BufferedChunk × BufferManager
unfolding underrun play_chunk
take_next now unlink [] m = (none, underrun now m)
take_next now unlink (c ∷ rest) m =
    if c.sequence_num == m.current_position
    then (some c, play_chunk now unlink c rest m)
    else (none, m)

unfoldable pub get_next_chunk_for_playback :
    ℕ → (String → Bool) → BufferManager → Option BufferedChunk × BufferManager
unfolding take_next
get_next_chunk_for_playback now unlink m = take_next now unlink m.buffer m

-- The first buffered chunk with the number `seq`.
unfoldable pub find_chunk : ℕ → List BufferedChunk → Option BufferedChunk
find_chunk seq [] = none
find_chunk seq (c ∷ rest) = if c.sequence_num == seq then some c else find_chunk seq rest

unfoldable pub peek_next_chunk : BufferManager → Option BufferedChunk
unfolding find_chunk
peek_next_chunk m = find_chunk m.current_position m.buffer

pub data BufferState : Type 0 where
  is_empty initializing low full healthy : BufferState

-- The `state` of `get_buffer_status`.
unfoldable pub buffer_state : BufferManager → BufferState
unfolding get_buffer_level_seconds
buffer_state m =
    let level = get_buffer_level_seconds m in
    if level == 0
    then is_empty
    else if ltb level m.start_playback_sec
    then initializing
    else if ltb level m.low_water_mark_sec
    then low
    else if leb m.target_buffer_sec level
    then full
    else healthy

-- `l[-1000:]` where the list is longer than 1000
unfoldable pub last_1000 : List Snapshot → List Snapshot
last_1000 l = if ltb 1000 (length l) then drop (length l - 1000) l else l

unfoldable pub record_buffer_level : ℕ → BufferManager → BufferManager
unfolding get_buffer_level_seconds last_1000
record_buffer_level now m =
    let here : Snapshot = record {
      timestamp = now;
      buffer_level_sec = get_buffer_level_seconds m;
      position = m.current_position;
    } in
    record m { buffer_level_history = last_1000 (m.buffer_level_history ++ here ∷ []) }

-- The loop of `reset` over the buffered chunks.
unfoldable pub remove_all : (String → Bool) → List BufferedChunk → List String → List String
unfolding remove_temp
remove_all unlink [] files = files
remove_all unlink (c ∷ rest) files =
    remove_all unlink rest (remove_temp unlink c.temp_file_path files)

unfoldable pub reset : (String → Bool) → BufferManager → BufferManager
unfolding remove_all
reset unlink m = record m {
  temp_files = remove_all unlink m.buffer m.temp_files;
  buffer = [];
  current_memory_usage = 0;
  current_position = 0;
  playback_started = false;
  total_chunks_buffered = 0;
  total_chunks_played = 0;
  rebuffering_events = 0;
  last_rebuffer_time = 0;
  playback_start_time = none;
  last_chunk_played_time = none;
  buffer_level_history = [];
  buffer_updated = false;
  playback_ready = false;
}
