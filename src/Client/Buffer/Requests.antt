-- ===== src/Client/Buffer/Requests.antt =====
-- The numbers that the client is told to download next.
use vstack.Prelude.{
  ℕ, zero, suc, ◌≤◌, ◌<◌, ◌≡◌, refl, ◌∙◌, Bool, false, List, [], ◌∷◌, Option, none, some, ap,
  String, length, All, All-map, number_key, arith,
}
use vstack.Client.Buffer.{
  BufferedChunk, Bytes, BufferManager, add_chunk, spill_chunk, put, insert_sorted, is_buffered,
  highest, buffer_end, get_next_chunk_sequences, range_from, take_next, get_next_chunk_for_playback,
  in_memory, on_disk,
}
use vstack.Client.Buffer.Order.{Ascending}
use vstack.Client.Buffer.Invariant.{IsValid}

length-range_from : (first n : ℕ) → length (range_from first n) ≡ n
unfolding range_from
length-range_from first zero = refl
length-range_from first (suc n) = ap suc (length-range_from (suc first) n)

range_from-All : (lo first n : ℕ) → lo ≤ first → All (λ s. lo ≤ s) (range_from first n)
unfolding range_from
range_from-All lo first zero h = tt
range_from-All lo first (suc n) h = (h, range_from-All lo (suc first) n (omega arith))

pub le-highest : (c : BufferedChunk) (l : List BufferedChunk) → c.sequence_num ≤ highest c l
unfolding highest
le-highest c [] = omega arith
le-highest c (d ∷ l) = omega arith

not_buffered_above :
    (seq : ℕ) (c : BufferedChunk) (l : List BufferedChunk)
    → highest c l < seq
    → is_buffered seq (c ∷ l) ≡ false
unfolding highest is_buffered
not_buffered_above seq c [] h = ground arith
not_buffered_above seq c (d ∷ l) h = ground (arith, not_buffered_above seq d l)

-- A number from the end of the buffer on is not played and not buffered.
fresh_from_end :
    (position seq : ℕ) (l : List BufferedChunk)
    → Ascending position l
    → buffer_end position l ≤ seq
    → (position ≤ seq) × (is_buffered seq l ≡ false)
unfolding buffer_end is_buffered
fresh_from_end position seq [] a h = (h, refl)
fresh_from_end position seq (c ∷ l) a h =
    (omega (arith, le-highest c l), not_buffered_above seq c l (omega arith))

-- As many numbers as were asked for, and each of them names a chunk that `add_chunk` would not
-- refuse as old or as a duplicate.
pub get_next_chunk_sequences_fresh :
    (count : ℕ) (m : BufferManager)
    → IsValid m
    → (length (get_next_chunk_sequences count m) ≡ count)
      × All
          (λ seq. (m.current_position ≤ seq) × (is_buffered seq m.buffer ≡ false))
          (get_next_chunk_sequences count m)
unfolding get_next_chunk_sequences
get_next_chunk_sequences_fresh count m v =
    let end = buffer_end m.current_position m.buffer in
    (
      length-range_from end count,
      All-map (λ seq. end ≤ seq)
          (λ seq. (m.current_position ≤ seq) × (is_buffered seq m.buffer ≡ false)) _
          (λ seq h. fresh_from_end m.current_position seq m.buffer v.ordered h)
          (range_from-All end end count (omega arith)),
    )

-- The first chunk in the buffer lies behind a gap: the chunk at the playback position is missing.
abbrev pub StartsAfter : ℕ → List BufferedChunk → Type 0
StartsAfter position [] = ⊥
StartsAfter position (c ∷ l) = position < c.sequence_num

abbrev pub IsStalled : BufferManager → Type 0
IsStalled m = StartsAfter m.current_position m.buffer

-- A chunk that a batch of downloads brings.
pub record Arrival : Type 0 where
  pub chunk_id : String
  pub sequence_num : ℕ
  pub bytes : Bytes
  pub now : ℕ
  pub spill : Option String

pub add_all : List Arrival → BufferManager → BufferManager
add_all [] m = m
add_all (a ∷ batch) m =
    add_all batch (add_chunk a.chunk_id a.sequence_num a.bytes a.now a.spill m).1

-- What the client does with the buffer: it adds a batch of chunks, each with a number that lies
-- among those it is told to download next, or it asks for the next chunk to play.
pub data Step (m : BufferManager) : BufferManager → Type 0 where
  download :
      (batch : List Arrival)
      → All (λ a. buffer_end m.current_position m.buffer ≤ a.sequence_num) batch
      → Step m (add_all batch m)
  play : (now : ℕ) (unlink : String → Bool) → Step m (get_next_chunk_for_playback now unlink m).1

pub data Reach (m : BufferManager) : BufferManager → Type 0 where
  begin : Reach m m
  step : {a b : BufferManager} → Step a b → Reach m a → Reach m b

take_next_stalled :
    (now : ℕ) (unlink : String → Bool) (l : List BufferedChunk) (m : BufferManager)
    → StartsAfter m.current_position l
    → take_next now unlink l m ≡ (none, m)
unfolding take_next
take_next_stalled now unlink [] m h = absurd h
take_next_stalled now unlink (c ∷ l) m h = ground arith

play_stalled :
    (now : ℕ) (unlink : String → Bool) (m : BufferManager)
    → IsStalled m
    → get_next_chunk_for_playback now unlink m ≡ (none, m)
unfolding get_next_chunk_for_playback
play_stalled now unlink m h = take_next_stalled now unlink m.buffer m h

insert_sorted_stalled :
    (position : ℕ) (b : BufferedChunk) (l : List BufferedChunk)
    → StartsAfter position l
    → position < b.sequence_num
    → StartsAfter position (insert_sorted b l)
unfolding insert_sorted
insert_sorted_stalled position b [] s h = absurd s
insert_sorted_stalled position b (c ∷ l) s h = ground arith

-- The new position is the old one, and the buffer is still behind a gap.
abbrev StaysStalled : BufferManager → BufferManager → Type 0
StaysStalled m m' = (m'.current_position ≡ m.current_position) × IsStalled m'

add_chunk_stalled :
    (chunk_id : String) (seq : ℕ) (bytes : Bytes) (now : ℕ) (spill : Option String)
    (m : BufferManager)
    → IsStalled m
    → m.current_position < seq
    → StaysStalled m (add_chunk chunk_id seq bytes now spill m).1
unfolding add_chunk spill_chunk put
add_chunk_stalled chunk_id seq bytes now none m s h = ground (
  arith,
  insert_sorted_stalled m.current_position (in_memory chunk_id seq bytes now) m.buffer s h,
)
add_chunk_stalled chunk_id seq bytes now (some path) m s h = ground (
  arith,
  insert_sorted_stalled m.current_position (in_memory chunk_id seq bytes now) m.buffer s h,
  insert_sorted_stalled m.current_position (on_disk chunk_id seq bytes now path) m.buffer s h,
)

add_all_stalled :
    (batch : List Arrival) (m : BufferManager)
    → IsStalled m
    → All (λ a. m.current_position < a.sequence_num) batch
    → StaysStalled m (add_all batch m)
unfolding add_all
add_all_stalled [] m s h = (refl, s)
add_all_stalled (a ∷ batch) m s h =
    let m' = (add_chunk a.chunk_id a.sequence_num a.bytes a.now a.spill m).1 in
    let (same, still) = add_chunk_stalled a.chunk_id a.sequence_num a.bytes a.now a.spill m s h.0 in
    let (same', still') = add_all_stalled batch m' still (rw same h.1) in (same' ∙ same, still')

end_after_gap :
    (position : ℕ) (l : List BufferedChunk)
    → StartsAfter position l
    → position < buffer_end position l
unfolding buffer_end
end_after_gap position [] s = absurd s
end_after_gap position (c ∷ l) s = omega (arith, le-highest c l)

Step-stalled : {m m' : BufferManager} → Step m m' → IsStalled m → StaysStalled m m'
Step-stalled {m} (download batch asked) s = add_all_stalled batch m s (
    All-map (λ a. buffer_end m.current_position m.buffer ≤ a.sequence_num)
      (λ a. m.current_position < a.sequence_num) batch
      (λ a h. omega (arith, end_after_gap m.current_position m.buffer s)) asked)
Step-stalled {m} (play now unlink) s = rw (play_stalled now unlink m s) (refl, s)

Reach-stalled : {m m' : BufferManager} → Reach m m' → IsStalled m → StaysStalled m m'
Reach-stalled begin s = (refl, s)
Reach-stalled (step st r) s =
    let (same, still) = Reach-stalled r s in
    let (same', still') = Step-stalled st still in (same' ∙ same, still')

-- Once the chunk at the playback position is missing while a later one is buffered, no sequence of
-- downloads of the numbers that the buffer asks for, and of attempts to play, ever hands out a
-- chunk again: the position stays where it is.
pub stalled_for_good :
    (now : ℕ) (unlink : String → Bool) {m m' : BufferManager}
    → IsStalled m
    → Reach m m'
    → ((get_next_chunk_for_playback now unlink m').0 ≡ none)
      × (m'.current_position ≡ m.current_position)
stalled_for_good now unlink {m} {m'} s r =
    let (same, still) = Reach-stalled r s in
    (
      ap (λ (p : Option BufferedChunk × BufferManager). p.0) (play_stalled now unlink m' still),
      same,
    )
