-- ===== src/Client/Buffer/Invariant.antt =====
-- client/buffer_manager.py: the invariant of the buffer.
use vstack.Prelude.{
  ℕ, ◌+◌, ◌-◌, ◌≤◌, ◌≡◌, refl, Bool, false, List, [], ◌∷◌, ◌++◌, Option, none, some, String, length,
  length-drop, All, number_key, arith,
}
use vstack.Client.Buffer.{
  BufferedChunk, Bytes, BufferManager, Snapshot, init, put, in_memory, on_disk, spill_chunk,
  add_chunk, is_buffered, has_data, play_chunk, underrun, take_next, get_next_chunk_for_playback,
  last_1000, record_buffer_level, get_buffer_level_seconds, reset,
}
use vstack.Client.Buffer.Order.{
  Ascending, held, memory, IsSized, insert_sorted-Ascending, memory-insert_sorted,
  insert_sorted-All,
}

-- The chunks are strictly ascending from the playback position on; the memory counter is what the
-- chunks in memory hold, within the limit; and the chunks played are those below the position.
pub record IsValid (m : BufferManager) : Type 0 where
  pub ordered : Ascending m.current_position m.buffer
  pub sized : All IsSized m.buffer
  pub accounted : m.current_memory_usage ≡ memory m.buffer
  pub bounded : m.current_memory_usage ≤ m.max_memory_bytes
  pub counted : m.total_chunks_played ≡ m.current_position
  pub recent : length m.buffer_level_history ≤ 1000

pub init-IsValid :
    (target low duration start limit : ℕ) → IsValid (init target low duration start limit)
unfolding init
init-IsValid target low duration start limit = record {
  ordered = tt;
  sized = tt;
  accounted = refl;
  bounded = omega arith;
  counted = refl;
  recent = omega arith;
}

module _ (b : BufferedChunk) (m : BufferManager) where
  pub put-IsValid :
      IsSized b
      → m.current_position ≤ b.sequence_num
      → is_buffered b.sequence_num m.buffer ≡ false
      → Ascending m.current_position m.buffer
      → All IsSized m.buffer
      → m.current_memory_usage ≡ held b + memory m.buffer
      → m.current_memory_usage ≤ m.max_memory_bytes
      → m.total_chunks_played ≡ m.current_position
      → length m.buffer_level_history ≤ 1000
      → IsValid (put b m)
  unfolding put
  put-IsValid size late new ordered sized accounted bounded counted recent = ground (
    arith,
    insert_sorted-Ascending m.current_position b m.buffer late new ordered,
    insert_sorted-All IsSized b m.buffer size sized,
    memory-insert_sorted b m.buffer,
  )

pub add_chunk-IsValid :
    (chunk_id : String) (seq : ℕ) (bytes : Bytes) (now : ℕ) (spill : Option String)
    (m : BufferManager)
    → IsValid m
    → IsValid (add_chunk chunk_id seq bytes now spill m).1
unfolding add_chunk spill_chunk
add_chunk-IsValid chunk_id seq bytes now none m v = ground (
  arith,
  put-IsValid (in_memory chunk_id seq bytes now)
      (record m { current_memory_usage = m.current_memory_usage + length bytes }),
)
add_chunk-IsValid chunk_id seq bytes now (some path) m v = ground (
  arith,
  put-IsValid (in_memory chunk_id seq bytes now)
      (record m { current_memory_usage = m.current_memory_usage + length bytes }),
  put-IsValid (on_disk chunk_id seq bytes now path) (record m { temp_files = path ∷ m.temp_files }),
)

take_next-IsValid :
    (now : ℕ) (unlink : String → Bool) (l : List BufferedChunk) (m : BufferManager)
    → m.buffer ≡ l
    → IsValid m
    → IsValid (take_next now unlink l m).1
unfolding take_next underrun play_chunk has_data
take_next-IsValid now unlink [] m e v = ground arith
take_next-IsValid now unlink (c ∷ rest) m e v = ground arith

pub get_next_chunk_for_playback-IsValid :
    (now : ℕ) (unlink : String → Bool) (m : BufferManager)
    → IsValid m
    → IsValid (get_next_chunk_for_playback now unlink m).1
unfolding get_next_chunk_for_playback
get_next_chunk_for_playback-IsValid now unlink m v = take_next-IsValid now unlink m.buffer m refl v

length-last_1000 : (l : List Snapshot) → length (last_1000 l) ≤ 1000
unfolding last_1000
length-last_1000 l = ground (arith, length-drop (length l - 1000) l)

pub record_buffer_level-IsValid :
    (now : ℕ) (m : BufferManager) → IsValid m → IsValid (record_buffer_level now m)
unfolding record_buffer_level
record_buffer_level-IsValid now m v =
    let here : Snapshot = record {
      timestamp = now;
      buffer_level_sec = get_buffer_level_seconds m;
      position = m.current_position;
    } in
    record {
      ordered = v.ordered;
      sized = v.sized;
      accounted = v.accounted;
      bounded = v.bounded;
      counted = v.counted;
      recent = length-last_1000 (m.buffer_level_history ++ here ∷ []);
    }

pub reset-IsValid : (unlink : String → Bool) (m : BufferManager) → IsValid (reset unlink m)
unfolding reset
reset-IsValid unlink m = record {
  ordered = tt;
  sized = tt;
  accounted = refl;
  bounded = omega arith;
  counted = refl;
  recent = omega arith;
}
