-- ===== src/Client/Buffer/Playback.antt =====
-- client/buffer_manager.py: sequences of calls, and what they hand to the player.
use vstack.Prelude.{
  ℕ, zero, suc, ◌+◌, ◌≡◌, refl, Bool, List, [], ◌∷◌, ◌++◌, Option, none, some, ap, String, length,
  length-append, number_key, arith,
}
use vstack.Client.Buffer.{
  BufferedChunk, Bytes, BufferManager, in_memory, on_disk, add_chunk, spill_chunk, put, take_next,
  underrun, play_chunk, get_next_chunk_for_playback, record_buffer_level, range_from,
}
use vstack.Client.Buffer.Order.{length-insert_sorted}
use vstack.Client.Buffer.Invariant.{
  IsValid, add_chunk-IsValid, get_next_chunk_for_playback-IsValid, record_buffer_level-IsValid,
}

-- A call that the client makes.
pub data Call : Type 0 where
  add : String → ℕ → Bytes → ℕ → Option String → Call
  play : ℕ → (String → Bool) → Call
  sample : ℕ → Call

-- The state after a call.
abbrev pub after : Call → BufferManager → BufferManager
after (add chunk_id seq bytes now spill) m = (add_chunk chunk_id seq bytes now spill m).1
after (play now unlink) m = (get_next_chunk_for_playback now unlink m).1
after (sample now) m = record_buffer_level now m

-- The number of the chunk that a call hands to the player, if it does.
abbrev pub number_of : Option BufferedChunk → List ℕ
number_of none = []
number_of (some c) = c.sequence_num ∷ []

abbrev pub played : Call → BufferManager → List ℕ
played (play now unlink) m = number_of (get_next_chunk_for_playback now unlink m).0
played (add chunk_id seq bytes now spill) m = []
played (sample now) m = []

unfoldable pub run : List Call → BufferManager → BufferManager
run [] m = m
run (c ∷ calls) m = run calls (after c m)

unfoldable pub all_played : List Call → BufferManager → List ℕ
all_played [] m = []
all_played (c ∷ calls) m = played c m ++ all_played calls (after c m)

after-IsValid : (c : Call) (m : BufferManager) → IsValid m → IsValid (after c m)
after-IsValid (add chunk_id seq bytes now spill) m v =
    add_chunk-IsValid chunk_id seq bytes now spill m v
after-IsValid (play now unlink) m v = get_next_chunk_for_playback-IsValid now unlink m v
after-IsValid (sample now) m v = record_buffer_level-IsValid now m v

-- The chunks buffered so far are those played and those in the buffer.
abbrev pub HasAll : BufferManager → Type 0
HasAll m = m.total_chunks_buffered ≡ m.total_chunks_played + length m.buffer

put-HasAll : (b : BufferedChunk) (m : BufferManager) → HasAll m → HasAll (put b m)
unfolding put
put-HasAll b m h = ground (arith, h, length-insert_sorted b m.buffer)

add_chunk-HasAll :
    (chunk_id : String) (seq : ℕ) (bytes : Bytes) (now : ℕ) (spill : Option String)
    (m : BufferManager)
    → HasAll m
    → HasAll (add_chunk chunk_id seq bytes now spill m).1
unfolding add_chunk spill_chunk
add_chunk-HasAll chunk_id seq bytes now none m h = ground (
  arith,
  h,
  put-HasAll (in_memory chunk_id seq bytes now)
      (record m { current_memory_usage = m.current_memory_usage + length bytes }),
)
add_chunk-HasAll chunk_id seq bytes now (some path) m h = ground (
  arith,
  h,
  put-HasAll (in_memory chunk_id seq bytes now)
      (record m { current_memory_usage = m.current_memory_usage + length bytes }),
  put-HasAll (on_disk chunk_id seq bytes now path) (record m { temp_files = path ∷ m.temp_files }),
)

take_next-HasAll :
    (now : ℕ) (unlink : String → Bool) (l : List BufferedChunk) (m : BufferManager)
    → m.buffer ≡ l
    → HasAll m
    → HasAll (take_next now unlink l m).1
unfolding take_next underrun play_chunk
take_next-HasAll now unlink [] m e h = ground (arith, h)
take_next-HasAll now unlink (c ∷ rest) m e h =
    let size : length m.buffer ≡ suc (length rest) = ap (length {A = BufferedChunk}) e in
    ground (arith, h, size)

after-HasAll : (c : Call) (m : BufferManager) → HasAll m → HasAll (after c m)
unfolding get_next_chunk_for_playback record_buffer_level
after-HasAll (add chunk_id seq bytes now spill) m h =
    add_chunk-HasAll chunk_id seq bytes now spill m h
after-HasAll (play now unlink) m h = take_next-HasAll now unlink m.buffer m refl h
after-HasAll (sample now) m h = h

-- From a valid buffer that has counted its chunks, after any calls of add_chunk,
-- get_next_chunk_for_playback and record_buffer_level in any order, the buffer is so again: the chunks are strictly ascending from the
-- playback position on, what they hold in memory is what the counter says and within the limit, as
-- many were played as the position says, as many were buffered so far as were played and are in the
-- buffer, and the history of levels has 1000 entries at most.
pub run-IsValid :
    (calls : List Call) (m : BufferManager)
    → IsValid m
    → HasAll m
    → IsValid (run calls m) × HasAll (run calls m)
unfolding run
run-IsValid [] m v h = (v, h)
run-IsValid (c ∷ calls) m v h =
    run-IsValid calls (after c m) (after-IsValid c m v) (after-HasAll c m h)

take_next_played :
    (now : ℕ) (unlink : String → Bool) (l : List BufferedChunk) (m : BufferManager)
    → let (c, m') = take_next now unlink l m in
      (number_of c ≡ range_from m.current_position (length (number_of c)))
      × (m'.current_position ≡ m.current_position + length (number_of c))
unfolding take_next underrun play_chunk range_from
take_next_played now unlink [] m = ground arith
take_next_played now unlink (c ∷ rest) m = ground arith

played_next :
    (c : Call) (m : BufferManager)
    → (played c m ≡ range_from m.current_position (length (played c m)))
      × ((after c m).current_position ≡ m.current_position + length (played c m))
unfolding add_chunk spill_chunk put record_buffer_level get_next_chunk_for_playback range_from
played_next (add chunk_id seq bytes now none) m = ground arith
played_next (add chunk_id seq bytes now (some path)) m = ground arith
played_next (play now unlink) m = take_next_played now unlink m.buffer m
played_next (sample now) m = ground arith

range_from-append :
    (first n k : ℕ) → range_from first n ++ range_from (first + n) k ≡ range_from first (n + k)
unfolding range_from
range_from-append first zero k = ground arith
range_from-append first (suc n) k =
    let outer : suc n + k ≡ suc (n + k) = omega arith in
    let inner : first + suc n ≡ suc first + n = omega arith in
    rw (outer, inner) (ap (◌∷◌ first) (range_from-append (suc first) n k))

range_of_parts :
    (first : ℕ) (xs ys : List ℕ)
    → xs ≡ range_from first (length xs)
    → ys ≡ range_from (first + length xs) (length ys)
    → xs ++ ys ≡ range_from first (length (xs ++ ys))
range_of_parts first xs ys p q =
    rw (length-append xs ys, ← range_from-append first (length xs) (length ys), ← p, ← q)

-- Whatever the order in which chunks arrive, the player gets the chunks from the playback position
-- on, each exactly once and with no number left out.
pub all_played-eq-range :
    (calls : List Call) (m : BufferManager)
    → all_played calls m ≡ range_from m.current_position (length (all_played calls m))
unfolding all_played range_from
all_played-eq-range [] m = refl
all_played-eq-range (c ∷ calls) m =
    range_of_parts m.current_position (played c m) (all_played calls (after c m))
      (played_next c m).0 (rw (← (played_next c m).1) (all_played-eq-range calls (after c m)))
