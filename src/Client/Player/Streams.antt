-- ===== src/Client/Player/Streams.antt =====
-- Turns of a stream that is read from outside.
use vstack.Prelude.{
  ℕ, ◌+◌, ◌<◌, ◌≡◌, refl, sym, ap, ◌∙◌, String, Bool, true, false, not, Option, none, some, List,
  [], ◌∷◌, length, ◌==◌, number_key, eq_refl, if◌then◌else◌, inr, arith,
}
use vstack.Client.Buffer.{
  BufferedChunk, Bytes, BufferManager, is_buffered, insert_sorted, on_disk, put, spill_chunk,
  add_chunk, play_chunk, take_next, get_next_chunk_for_playback, record_buffer_level,
}
use vstack.Client.Buffer.Order.{Ascending}
use vstack.Client.Buffer.Addition.{stored, buffer-add_chunk, add_chunk_iff}
use vstack.Client.Buffer.Invariant.{IsValid}
use vstack.Client.Player.{
  SmartClient, Surroundings, Streamed, returned, waiting, stream_next, may_play, stream_taken,
  stream_turn,
}

-- The chunk at the position goes to the front of the buffer.
insert_sorted-first :
    (b : BufferedChunk) (l : List BufferedChunk)
    → Ascending b.sequence_num l
    → is_buffered b.sequence_num l ≡ false
    → insert_sorted b l ≡ b ∷ l
unfolding insert_sorted is_buffered
insert_sorted-first b [] a h = refl
insert_sorted-first b (c ∷ l) a h = ground (arith, a.0, h)

position-spilled :
    (chunk_id : String) (seq : ℕ) (bytes : Bytes) (now : ℕ) (path : String) (m : BufferManager)
    → (add_chunk chunk_id seq bytes now (some path) m).1.current_position ≡ m.current_position
unfolding add_chunk spill_chunk put
position-spilled chunk_id seq bytes now path m = ground arith

stored-spilled :
    (chunk_id : String) (seq : ℕ) (bytes : Bytes) (now : ℕ) (path : String) (m : BufferManager)
    → m.max_memory_bytes < m.current_memory_usage + length bytes
    → stored chunk_id seq bytes now (some path) m ≡ on_disk chunk_id seq bytes now path
stored-spilled chunk_id seq bytes now path m h = ground arith

-- With the chunk at the position in front, it is what the buffer gives.
take_next-first :
    (now : ℕ) (unlink : String → Bool) (m : BufferManager) (b : BufferedChunk)
    (rest : List BufferedChunk)
    → m.buffer ≡ b ∷ rest
    → b.sequence_num ≡ m.current_position
    → get_next_chunk_for_playback now unlink m ≡ (some b, play_chunk now unlink b rest m)
unfolding get_next_chunk_for_playback take_next
take_next-first now unlink m b rest front number =
    ap (λ (l : List BufferedChunk). take_next now unlink l m) front
    ∙ ap (λ (e : Bool). if e then (some b, play_chunk now unlink b rest m) else (none, m))
        (ap (λ (k : ℕ). k == m.current_position) number ∙ eq_refl m.current_position)

stream_turn-first :
    (s : Surroundings) (c : SmartClient) (b : BufferedChunk) (rest : List BufferedChunk)
    → c.playing ≡ true
    → may_play c.buffer_manager ≡ true
    → c.buffer_manager.buffer ≡ b ∷ rest
    → b.sequence_num ≡ c.buffer_manager.current_position
    → stream_turn s c
      ≡ stream_taken s (some b) (play_chunk s.now s.unlink b rest c.buffer_manager) c
unfolding stream_turn stream_next
stream_turn-first s c b rest playing ready front number =
    let (o, m) = get_next_chunk_for_playback s.now s.unlink c.buffer_manager in
    ap
      (λ (p : Bool).
        if not p
        then (returned none, c)
        else if may_play c.buffer_manager
        then stream_taken s o m c
        else (waiting, c))
      playing
    ∙ ap (λ (q : Bool). if q then stream_taken s o m c else (waiting, c)) ready
    ∙ (ap (λ (r : Option BufferedChunk × BufferManager). stream_taken s r.0 r.1 c)
        (take_next-first s.now s.unlink c.buffer_manager b rest front number))

-- A chunk that is due but does not fit in memory is spilled to a file, and the stream that comes to it
-- is answered None, the sign of its end, while the position goes past the chunk.
pub stream_turn-spilled :
    (s : Surroundings) (c : SmartClient) (chunk_id : String) (bytes : Bytes) (now : ℕ)
    (path : String)
    → let seq = c.buffer_manager.current_position in
      let m = (add_chunk chunk_id seq bytes now (some path) c.buffer_manager).1 in
      c.playing ≡ true
      → IsValid c.buffer_manager
      → is_buffered seq c.buffer_manager.buffer ≡ false
      → c.buffer_manager.max_memory_bytes < c.buffer_manager.current_memory_usage + length bytes
      → may_play m ≡ true
      → let (r, c') = stream_turn s (record c { buffer_manager = m }) in
        (r ≡ returned none) × (c'.buffer_manager.current_position ≡ seq + 1)
unfolding stream_taken play_chunk record_buffer_level
stream_turn-spilled s c chunk_id bytes now path playing valid new full ready =
    let m₀ = c.buffer_manager in
    let seq = m₀.current_position in
    let m = (add_chunk chunk_id seq bytes now (some path) m₀).1 in
    let b = on_disk chunk_id seq bytes now path in
    let accepted =
      (add_chunk_iff chunk_id seq bytes now (some path) m₀).1
        (omega arith, new, inr (path, refl)) in
    let front : m.buffer ≡ b ∷ m₀.buffer =
      buffer-add_chunk chunk_id seq bytes now (some path) m₀ accepted
      ∙ ap (λ (d : BufferedChunk). insert_sorted d m₀.buffer)
          (stored-spilled chunk_id seq bytes now path m₀ full)
      ∙ insert_sorted-first b m₀.buffer valid.ordered new in
    let turn =
      stream_turn-first s (record c { buffer_manager = m }) b m₀.buffer playing ready front
        (sym (position-spilled chunk_id seq bytes now path m₀)) in
    (
      ap (λ (r : Streamed × SmartClient). r.0) turn,
      ap (λ (r : Streamed × SmartClient). r.1.buffer_manager.current_position) turn
          ∙ ap (λ (k : ℕ). k + 1) (position-spilled chunk_id seq bytes now path m₀),
    )
