-- ===== src/Client/Buffer/State.antt =====
-- client/buffer_manager.py: the state of the playback buffer, and the readings of its level.
use vstack.Prelude.{
  ℕ, zero, suc, ◌+◌, ◌*◌, ltb, leb, Bool, false, Option, none, List, [], ◌∷◌, String, length, max,
  number_key, text_key,
}

abbrev pub Bytes : Type 0
Bytes = List ℕ

pub record BufferedChunk : Type 0 where
  pub chunk_id : String
  pub sequence_num : ℕ
  pub payload : Option Bytes
  pub size_bytes : ℕ
  pub buffered_at : ℕ
  pub temp_file_path : Option String

pub record Snapshot : Type 0 where
  pub timestamp : ℕ
  pub buffer_level_sec : ℕ
  pub position : ℕ

pub record BufferManager : Type 0 where
  pub target_buffer_sec : ℕ
  pub low_water_mark_sec : ℕ
  pub chunk_duration_sec : ℕ
  pub start_playback_sec : ℕ
  pub max_memory_bytes : ℕ
  pub buffer : List BufferedChunk
  pub current_memory_usage : ℕ
  pub current_position : ℕ
  pub playback_started : Bool
  pub buffer_updated : Bool
  pub playback_ready : Bool
  pub total_chunks_buffered : ℕ
  pub total_chunks_played : ℕ
  pub rebuffering_events : ℕ
  pub last_rebuffer_time : ℕ
  pub buffer_level_history : List Snapshot
  pub playback_start_time : Option ℕ
  pub last_chunk_played_time : Option ℕ
  pub temp_files : List String

-- `BufferManager()`, with the values that it reads from the configuration.
unfoldable pub init : (target low duration start memory : ℕ) → BufferManager
init target low duration start memory = record {
  target_buffer_sec = target;
  low_water_mark_sec = low;
  chunk_duration_sec = duration;
  start_playback_sec = start;
  max_memory_bytes = memory;
  buffer = [];
  current_memory_usage = 0;
  current_position = 0;
  playback_started = false;
  buffer_updated = false;
  playback_ready = false;
  total_chunks_buffered = 0;
  total_chunks_played = 0;
  rebuffering_events = 0;
  last_rebuffer_time = 0;
  buffer_level_history = [];
  playback_start_time = none;
  last_chunk_played_time = none;
  temp_files = [];
}

unfoldable pub get_buffer_level_seconds : BufferManager → ℕ
get_buffer_level_seconds m = length m.buffer * m.chunk_duration_sec

unfoldable pub needs_more_chunks : BufferManager → Bool
unfolding get_buffer_level_seconds
needs_more_chunks m = ltb (get_buffer_level_seconds m) m.low_water_mark_sec

unfoldable pub can_start_playback : BufferManager → Bool
unfolding get_buffer_level_seconds
can_start_playback m = leb m.start_playback_sec (get_buffer_level_seconds m)

unfoldable pub is_buffer_healthy : BufferManager → Bool
unfolding get_buffer_level_seconds
is_buffer_healthy m = leb m.low_water_mark_sec (get_buffer_level_seconds m)

-- `max(chunk.sequence_num for chunk in self.buffer)` of the chunk `c` and those behind it
unfoldable pub highest : BufferedChunk → List BufferedChunk → ℕ
highest c [] = c.sequence_num
highest c (d ∷ rest) = max c.sequence_num (highest d rest)

unfoldable pub buffer_end : ℕ → List BufferedChunk → ℕ
unfolding highest
buffer_end position [] = position
buffer_end position (c ∷ rest) = highest c rest + 1

-- `list(range(first, first + count))`
unfoldable pub range_from : ℕ → ℕ → List ℕ
range_from first zero = []
range_from first (suc count) = first ∷ range_from (suc first) count

unfoldable pub get_next_chunk_sequences : ℕ → BufferManager → List ℕ
unfolding buffer_end range_from
get_next_chunk_sequences count m = range_from (buffer_end m.current_position m.buffer) count
