-- ===== src/Client/Player/Arrivals.antt =====
-- Results of downloads, added to the buffer.
use vstack.Prelude.{
  ℕ, ◌≤◌, ◌≡◌, ◌⊎◌, refl, sym, ap, ◌∙◌, String, Bool, true, false, Option, none, some, [], ◌∷◌,
  length, ltb, ◌==◌, number_key, text_key, eq_iff, if◌then◌else◌, Bool-cases, inl, inr, arith,
}
use mathlib.Core.Path.{subst}
use vstack.Prelude.Dict.{Dict, lookup}
use vstack.Metadata.Manifest.{VideoManifest}
use vstack.Client.Buffer.{Bytes, BufferedChunk, BufferManager, is_buffered, find_chunk}
use vstack.Client.Buffer.Addition.{stored}
use vstack.Client.Player.Results.{AllIds}
use vstack.Client.Player.{
  Surroundings, extract_sequence_number, add_numbered, add_result, add_results,
}
use vstack.Client.Buffer.Found.{
  add_chunk-found-stays, add_chunk-absent, add_chunk-found, IsChunkOf, stored-IsChunkOf,
  current_position-add_chunk,
}

-- Every file can be written.
pub record SpillWorks (s : Surroundings) : Type 0 where
  pub path_of : String → String
  pub spills : (chunk_id : String) → s.spill chunk_id ≡ some (path_of chunk_id)

-- The buffer has the chunk under its number.
abbrev pub HasChunk : String → ℕ → Bytes → String → BufferManager → Type 0
HasChunk id seq bytes path m =
    (b : BufferedChunk) × (find_chunk seq m.buffer ≡ some b) × IsChunkOf id seq bytes path b

same_number : (a b : ℕ) → some a ≡ some b → a ≡ b
same_number a b e = cc

same_bytes : (a : Option Bytes) (b : Bytes) → some a ≡ some (some b) → a ≡ some b
same_bytes a b e = cc

-- An id that is this one, or from which another number is read.
abbrev pub IsOther : Surroundings → Option VideoManifest → String → ℕ → String → Type 0
IsOther s manifest id seq j =
    ((j == id) ≡ true)
    ⊎ ((n : ℕ) → extract_sequence_number s j manifest ≡ some n → (n == seq) ≡ false)

module _ (s : Surroundings) (works : SpillWorks s) (manifest : Option VideoManifest) where
  add_numbered-keeps :
      (other : ℕ) (b : BufferedChunk) (id : String) (n : Option ℕ) (bytes : Bytes)
      (m : BufferManager)
      → find_chunk other m.buffer ≡ some b
      → find_chunk other (add_numbered s id n bytes m).buffer ≡ some b
  unfolding add_numbered
  add_numbered-keeps other b id none bytes m h = h
  add_numbered-keeps other b id (some seq) bytes m h =
      add_chunk-found-stays id seq bytes s.now (s.spill id) m other b h

  add_result-keeps :
      (other : ℕ) (b : BufferedChunk) (id : String) (o : Option Bytes) (m : BufferManager)
      → find_chunk other m.buffer ≡ some b
      → find_chunk other (add_result s manifest id o m).buffer ≡ some b
  unfolding add_result
  add_result-keeps other b id none m h = h
  add_result-keeps other b id (some bytes) m h = elim (Bool-cases (ltb 0 (length bytes))) [
    | inl e ↦ rw e (add_numbered-keeps other b id (extract_sequence_number s id manifest) bytes m h)
    | inr e ↦ rw e h
  ]

  add_results-keeps :
      (other : ℕ) (b : BufferedChunk) (results : Dict String (Option Bytes)) (m : BufferManager)
      → find_chunk other m.buffer ≡ some b
      → find_chunk other (add_results s manifest results m).buffer ≡ some b
  unfolding add_results
  add_results-keeps other b [] m h = h
  add_results-keeps other b ((id, o) ∷ results) m h =
      add_results-keeps other b results (add_result s manifest id o m)
        (add_result-keeps other b id o m h)

  add_numbered-absent :
      (seq : ℕ) (id : String) (n : Option ℕ) (bytes : Bytes) (m : BufferManager)
      → ((k : ℕ) → n ≡ some k → (k == seq) ≡ false)
      → is_buffered seq m.buffer ≡ false
      → is_buffered seq (add_numbered s id n bytes m).buffer ≡ false
  unfolding add_numbered
  add_numbered-absent seq id none bytes m k h = h
  add_numbered-absent seq id (some n) bytes m k h =
      add_chunk-absent id n bytes s.now (s.spill id) m seq (k n refl) h

  add_result-absent :
      (seq : ℕ) (id : String) (o : Option Bytes) (m : BufferManager)
      → ((k : ℕ) → extract_sequence_number s id manifest ≡ some k → (k == seq) ≡ false)
      → is_buffered seq m.buffer ≡ false
      → is_buffered seq (add_result s manifest id o m).buffer ≡ false
  unfolding add_result
  add_result-absent seq id none m k h = h
  add_result-absent seq id (some bytes) m k h = elim (Bool-cases (ltb 0 (length bytes))) [
    | inl e ↦ rw e (add_numbered-absent seq id (extract_sequence_number s id manifest) bytes m k h)
    | inr e ↦ rw e h
  ]

  add_numbered-position :
      (id : String) (n : Option ℕ) (bytes : Bytes) (m : BufferManager)
      → (add_numbered s id n bytes m).current_position ≡ m.current_position
  unfolding add_numbered
  add_numbered-position id none bytes m = refl
  add_numbered-position id (some seq) bytes m =
      current_position-add_chunk id seq bytes s.now (s.spill id) m

  add_result-position :
      (id : String) (o : Option Bytes) (m : BufferManager)
      → (add_result s manifest id o m).current_position ≡ m.current_position
  unfolding add_result
  add_result-position id none m = refl
  add_result-position id (some bytes) m =
      ground (arith, add_numbered-position id (extract_sequence_number s id manifest) bytes m)

  add_numbered-arrives :
      (id : String) (seq : ℕ) (bytes : Bytes) (m : BufferManager)
      → m.current_position ≤ seq
      → is_buffered seq m.buffer ≡ false
      → HasChunk id seq bytes (works.path_of id) (add_numbered s id (some seq) bytes m)
  unfolding add_numbered
  add_numbered-arrives id seq bytes m late new = (
    stored id seq bytes s.now (s.spill id) m,
    add_chunk-found id seq bytes s.now (s.spill id) m (works.path_of id) (works.spills id) late new,
    subst (λ o. IsChunkOf id seq bytes (works.path_of id) (stored id seq bytes s.now o m))
        (sym (works.spills id)) (stored-IsChunkOf id seq bytes s.now (works.path_of id) m),
  )

  -- The chunk of a result with data is in the buffer once the result is added.
  add_result-arrives :
      (id : String) (seq : ℕ) (bytes : Bytes) (m : BufferManager)
      → extract_sequence_number s id manifest ≡ some seq
      → ltb 0 (length bytes) ≡ true
      → m.current_position ≤ seq
      → is_buffered seq m.buffer ≡ false
      → HasChunk id seq bytes (works.path_of id) (add_result s manifest id (some bytes) m)
  unfolding add_result
  add_result-arrives id seq bytes m e full late new =
      rw (full, e) (add_numbered-arrives id seq bytes m late new)

  kept :
      (id : String) (seq : ℕ) (bytes : Bytes) (path : String) (results : Dict String (Option Bytes))
      (m : BufferManager)
      → HasChunk id seq bytes path m
      → HasChunk id seq bytes path (add_results s manifest results m)
  kept id seq bytes path results m (b, e, h) = (b, add_results-keeps seq b results m e, h)

  another_number :
      (id : String) (seq : ℕ) (j : String)
      → IsOther s manifest id seq j
      → (j == id) ≡ false
      → (k : ℕ) → extract_sequence_number s j manifest ≡ some k
      → (k == seq) ≡ false
  another_number id seq j (inl q) r = absurd (ground (arith, q, r))
  another_number id seq j (inr h) r = h

  pub add_results-arrives :
      (id : String) (seq : ℕ) (bytes : Bytes) (results : Dict String (Option Bytes))
      (m : BufferManager)
      → extract_sequence_number s id manifest ≡ some seq
      → AllIds (IsOther s manifest id seq) results
      → lookup id results ≡ some (some bytes)
      → ltb 0 (length bytes) ≡ true
      → m.current_position ≤ seq
      → is_buffered seq m.buffer ≡ false
      → HasChunk id seq bytes (works.path_of id) (add_results s manifest results m)
  unfolding add_results lookup
  add_results-arrives id seq bytes [] m e a f full late new = absurd cc
  add_results-arrives id seq bytes ((j, r) ∷ results) m e a f full late new =
      elim (Bool-cases (j == id)) [
        | inl q ↦
            rw
              (
                (eq_iff j id).0 q,
                same_bytes r bytes
                    (ap (λ (b : Bool). if b then some r else lookup id results) (sym q) ∙ f),
              )
              (kept id seq bytes (works.path_of id) results
                (add_result s manifest id (some bytes) m)
                (add_result-arrives id seq bytes m e full late new))
        | inr q ↦
            add_results-arrives id seq bytes results (add_result s manifest j r m) e a.1
              (ap (λ (b : Bool). if b then some r else lookup id results) (sym q) ∙ f) full
              (rw (add_result-position j r m) late)
              (add_result-absent seq j r m (another_number id seq j a.0 q) new)
      ]
