-- ===== src/Client/Buffer/Addition.antt =====
-- What `add_chunk` accepts, and what the buffer holds afterwards.
use vstack.Prelude.{
  ℕ, ◌+◌, ◌≤◌, ◌≡◌, ◌≢◌, ◌⊎◌, ◌↔◌, refl, Bool, true, false, Option, none, some, String, length, ltb,
  ◌==◌, number_key, if◌then◌else◌, ◌||◌, arith,
}
use vstack.Client.Buffer.{
  BufferedChunk, Bytes, BufferManager, put, in_memory, on_disk, spill_chunk, add_chunk, is_buffered,
  find_chunk, insert_sorted,
}
use vstack.Client.Buffer.Order.{
  find_chunk-insert_sorted, insert_sorted_comm, is_buffered-insert_sorted,
}

-- There is room in memory, or a file takes the chunk.
abbrev pub HasRoom : ℕ → Option String → BufferManager → Type 0
HasRoom size spill m =
    (m.current_memory_usage + size ≤ m.max_memory_bytes) ⊎ ((path : String) × (spill ≡ some path))

-- `add_chunk` returns True exactly for a chunk that is not yet played, is not buffered, and has
-- room in memory or in a file that could be written.
pub add_chunk_iff :
    (chunk_id : String) (seq : ℕ) (bytes : Bytes) (now : ℕ) (spill : Option String)
    (m : BufferManager)
    → ((add_chunk chunk_id seq bytes now spill m).0 ≡ true) ↔ (
        (m.current_position ≤ seq)
        × (is_buffered seq m.buffer ≡ false)
        × HasRoom (length bytes) spill m)
unfolding add_chunk spill_chunk
add_chunk_iff chunk_id seq bytes now none m = (λ h. ground arith, λ h. ground arith)
add_chunk_iff chunk_id seq bytes now (some path) m = (λ h. ground arith, λ h. ground arith)

-- A refused chunk changes nothing.
pub add_chunk_refused :
    (chunk_id : String) (seq : ℕ) (bytes : Bytes) (now : ℕ) (spill : Option String)
    (m : BufferManager)
    → (add_chunk chunk_id seq bytes now spill m).0 ≡ false
    → (add_chunk chunk_id seq bytes now spill m).1 ≡ m
unfolding add_chunk spill_chunk
add_chunk_refused chunk_id seq bytes now none m h = ground arith
add_chunk_refused chunk_id seq bytes now (some path) m h = ground arith

-- The chunk that an accepted call stores.
abbrev pub stored : String → ℕ → Bytes → ℕ → Option String → BufferManager → BufferedChunk
stored chunk_id seq bytes now none m = in_memory chunk_id seq bytes now
stored chunk_id seq bytes now (some path) m =
    if ltb m.max_memory_bytes (m.current_memory_usage + length bytes)
    then on_disk chunk_id seq bytes now path
    else in_memory chunk_id seq bytes now

pub buffer-add_chunk :
    (chunk_id : String) (seq : ℕ) (bytes : Bytes) (now : ℕ) (spill : Option String)
    (m : BufferManager)
    → (add_chunk chunk_id seq bytes now spill m).0 ≡ true
    → (add_chunk chunk_id seq bytes now spill m).1.buffer
      ≡ insert_sorted (stored chunk_id seq bytes now spill m) m.buffer
unfolding add_chunk spill_chunk put
buffer-add_chunk chunk_id seq bytes now none m h = ground arith
buffer-add_chunk chunk_id seq bytes now (some path) m h = ground arith

pub sequence_num-stored :
    (chunk_id : String) (seq : ℕ) (bytes : Bytes) (now : ℕ) (spill : Option String)
    (m : BufferManager)
    → (stored chunk_id seq bytes now spill m).sequence_num ≡ seq
sequence_num-stored chunk_id seq bytes now none m = refl
sequence_num-stored chunk_id seq bytes now (some path) m = ground arith

-- After an accepted call the chunk is found under its number, and under every other number what
-- was found before.
pub find_chunk-add_chunk :
    (other : ℕ) (chunk_id : String) (seq : ℕ) (bytes : Bytes) (now : ℕ) (spill : Option String)
    (m : BufferManager)
    → (add_chunk chunk_id seq bytes now spill m).0 ≡ true
    → find_chunk other (add_chunk chunk_id seq bytes now spill m).1.buffer ≡ (
        if seq == other
        then some (stored chunk_id seq bytes now spill m)
        else find_chunk other m.buffer)
find_chunk-add_chunk other chunk_id seq bytes now spill m h =
    rw (buffer-add_chunk chunk_id seq bytes now spill m h) (
      ground (
        arith,
        find_chunk-insert_sorted other (stored chunk_id seq bytes now spill m) m.buffer,
        sequence_num-stored chunk_id seq bytes now spill m,
        (add_chunk_iff chunk_id seq bytes now spill m).0 h,
      ))

-- Where the bytes fit in memory, the state after a call in one equation for each field.
module _ (chunk_id : String) (seq : ℕ) (bytes : Bytes) (now : ℕ) (spill : Option String) where
  abbrev refuses : BufferManager → Bool
  refuses m = ltb seq m.current_position || is_buffered seq m.buffer

  add_chunk_fitting :
      (m : BufferManager)
      → m.current_memory_usage + length bytes ≤ m.max_memory_bytes
      → let m' = (add_chunk chunk_id seq bytes now spill m).1 in
        (m'.buffer ≡ (
          if refuses m
          then m.buffer
          else insert_sorted (in_memory chunk_id seq bytes now) m.buffer))
        × (m'.current_memory_usage
            ≡ (if refuses m then m.current_memory_usage else m.current_memory_usage + length bytes))
        × (m'.current_position ≡ m.current_position)
        × (m'.max_memory_bytes ≡ m.max_memory_bytes)
  unfolding add_chunk spill_chunk put
  add_chunk_fitting m room = ground arith

-- Two chunks with different numbers that both fit in memory may arrive in either order: the buffer
-- and the memory counter come out the same.
pub add_chunk_comm :
    (id₁ id₂ : String) (seq₁ seq₂ : ℕ) (bytes₁ bytes₂ : Bytes) (now₁ now₂ : ℕ)
    (spill₁ spill₂ : Option String) (m : BufferManager)
    → seq₁ ≢ seq₂
    → m.current_memory_usage + length bytes₁ + length bytes₂ ≤ m.max_memory_bytes
    → let first_1 =
        (add_chunk id₂ seq₂ bytes₂ now₂ spill₂ (add_chunk id₁ seq₁ bytes₁ now₁ spill₁ m).1).1 in
      let first_2 =
        (add_chunk id₁ seq₁ bytes₁ now₁ spill₁ (add_chunk id₂ seq₂ bytes₂ now₂ spill₂ m).1).1 in
      (first_1.buffer ≡ first_2.buffer)
      × (first_1.current_memory_usage ≡ first_2.current_memory_usage)
add_chunk_comm id₁ id₂ seq₁ seq₂ bytes₁ bytes₂ now₁ now₂ spill₁ spill₂ m ne room = ground (
  arith,
  add_chunk_fitting id₁ seq₁ bytes₁ now₁ spill₁ m,
  add_chunk_fitting id₂ seq₂ bytes₂ now₂ spill₂ m,
  add_chunk_fitting id₂ seq₂ bytes₂ now₂ spill₂ (add_chunk id₁ seq₁ bytes₁ now₁ spill₁ m).1,
  add_chunk_fitting id₁ seq₁ bytes₁ now₁ spill₁ (add_chunk id₂ seq₂ bytes₂ now₂ spill₂ m).1,
  is_buffered-insert_sorted seq₂ (in_memory id₁ seq₁ bytes₁ now₁) m.buffer,
  is_buffered-insert_sorted seq₁ (in_memory id₂ seq₂ bytes₂ now₂) m.buffer,
  insert_sorted_comm (in_memory id₁ seq₁ bytes₁ now₁) (in_memory id₂ seq₂ bytes₂ now₂) m.buffer,
)
