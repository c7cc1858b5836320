-- ===== src/Client/Buffer/Found.antt =====
-- client/buffer_manager.py: under which number an added chunk is found, and what it holds.
use vstack.Prelude.{
  ℕ, ◌+◌, ◌≤◌, ◌≡◌, ◌⊎◌, List, refl, sym, ap, ◌∙◌, String, Bool, false, Option, none, some, [], ◌∷◌,
  length, ltb, ◌==◌, number_key, text_key, eq_iff, eq_refl, if◌then◌else◌, Bool-cases, inl, inr,
  arith,
}
use vstack.Client.Buffer.{
  Bytes, BufferedChunk, BufferManager, is_buffered, find_chunk, insert_sorted, put, spill_chunk,
  add_chunk,
}
use vstack.Client.Buffer.Order.{is_buffered-insert_sorted}
use vstack.Client.Buffer.Addition.{
  stored, add_chunk_iff, add_chunk_refused, buffer-add_chunk, find_chunk-add_chunk,
  sequence_num-stored,
}

none≢some_chunk : (b : BufferedChunk) → ◌≡◌ {A = Option BufferedChunk} none (some b) → ⊥
none≢some_chunk b e = cc

find_chunk-none :
    (seq : ℕ) (l : List BufferedChunk) → is_buffered seq l ≡ false → find_chunk seq l ≡ none
unfolding is_buffered find_chunk
find_chunk-none seq [] h = refl
find_chunk-none seq (c ∷ l) h = ground (arith, h, find_chunk-none seq l)

-- What an added chunk leaves of the others, and how it is found itself.
module _ (chunk_id : String) (seq : ℕ) (bytes : Bytes) (now : ℕ) (spill : Option String)
    (m : BufferManager) where
  found-elsewhere :
      (other : ℕ) (b : BufferedChunk)
      → find_chunk other m.buffer ≡ some b
      → is_buffered seq m.buffer ≡ false
      → (seq == other) ≡ false
  found-elsewhere other b h new = elim (Bool-cases (seq == other)) [
    | inl q ↦ absurd (
        none≢some_chunk b (
          sym (find_chunk-none seq m.buffer new)
          ∙ ap (λ (n : ℕ). find_chunk n m.buffer) ((eq_iff seq other).0 q)
          ∙ h))
    | inr q ↦ q
  ]

  pub add_chunk-found-stays :
      (other : ℕ) (b : BufferedChunk)
      → find_chunk other m.buffer ≡ some b
      → find_chunk other (add_chunk chunk_id seq bytes now spill m).1.buffer ≡ some b
  add_chunk-found-stays other b h = elim (Bool-cases (add_chunk chunk_id seq bytes now spill m).0) [
    | inl e ↦
        find_chunk-add_chunk other chunk_id seq bytes now spill m e
        ∙ ap
            (λ (k : Bool).
              if k then some (stored chunk_id seq bytes now spill m) else find_chunk other m.buffer)
            (found-elsewhere other b h ((add_chunk_iff chunk_id seq bytes now spill m).0 e).1)
        ∙ h
    | inr e ↦ rw (add_chunk_refused chunk_id seq bytes now spill m e) h
  ]

  still-absent :
      (other : ℕ) (b : BufferedChunk)
      → b.sequence_num ≡ seq
      → (seq == other) ≡ false
      → is_buffered other m.buffer ≡ false
      → is_buffered other (insert_sorted b m.buffer) ≡ false
  still-absent other b e q h = ground (arith, is_buffered-insert_sorted other b m.buffer, e, q, h)

  pub add_chunk-absent :
      (other : ℕ)
      → (seq == other) ≡ false
      → is_buffered other m.buffer ≡ false
      → is_buffered other (add_chunk chunk_id seq bytes now spill m).1.buffer ≡ false
  add_chunk-absent other q h = elim (Bool-cases (add_chunk chunk_id seq bytes now spill m).0) [
    | inl e ↦ rw (buffer-add_chunk chunk_id seq bytes now spill m e) (
        still-absent other (stored chunk_id seq bytes now spill m)
          (sequence_num-stored chunk_id seq bytes now spill m) q h)
    | inr e ↦ rw (add_chunk_refused chunk_id seq bytes now spill m e) h
  ]

  -- A chunk that is neither played nor buffered, and that a file can take, is found under its number.
  pub add_chunk-found :
      (path : String)
      → spill ≡ some path
      → m.current_position ≤ seq
      → is_buffered seq m.buffer ≡ false
      → find_chunk seq (add_chunk chunk_id seq bytes now spill m).1.buffer
        ≡ some (stored chunk_id seq bytes now spill m)
  add_chunk-found path e late new =
      find_chunk-add_chunk seq chunk_id seq bytes now spill m
        ((add_chunk_iff chunk_id seq bytes now spill m).1 (late, new, inr (path, e)))
      ∙ ap
          (λ (k : Bool).
            if k then some (stored chunk_id seq bytes now spill m) else find_chunk seq m.buffer)
          (eq_refl seq)

-- A buffered chunk has this id and number, and these bytes, in memory or in the file.
pub record IsChunkOf (id : String) (seq : ℕ) (bytes : Bytes) (path : String) (b : BufferedChunk)
    : Type 0 where
  pub its_id : b.chunk_id ≡ id
  pub its_number : b.sequence_num ≡ seq
  pub its_size : b.size_bytes ≡ length bytes
  pub its_data :
      ((b.payload ≡ some bytes) × (b.temp_file_path ≡ none))
      ⊎ ((b.payload ≡ none) × (b.temp_file_path ≡ some path))

pub stored-IsChunkOf :
    (id : String) (seq : ℕ) (bytes : Bytes) (now : ℕ) (path : String) (m : BufferManager)
    → IsChunkOf id seq bytes path (stored id seq bytes now (some path) m)
stored-IsChunkOf id seq bytes now path m =
    elim (Bool-cases (ltb m.max_memory_bytes (m.current_memory_usage + length bytes))) [
      | inl e ↦ rw e (record {
        its_id = refl;
        its_number = refl;
        its_size = refl;
        its_data = inr (refl, refl);
      })
      | inr e ↦ rw e (record {
        its_id = refl;
        its_number = refl;
        its_size = refl;
        its_data = inl (refl, refl);
      })
    ]

pub current_position-add_chunk :
    (chunk_id : String) (seq : ℕ) (bytes : Bytes) (now : ℕ) (spill : Option String)
    (m : BufferManager)
    → (add_chunk chunk_id seq bytes now spill m).1.current_position ≡ m.current_position
unfolding add_chunk spill_chunk put
current_position-add_chunk chunk_id seq bytes now none m = ground arith
current_position-add_chunk chunk_id seq bytes now (some path) m = ground arith
