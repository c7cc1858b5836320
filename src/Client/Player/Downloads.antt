-- ===== src/Client/Player/Downloads.antt =====
-- A turn of the download loop: the chunks that are asked for, through the scheduler, to the buffer.
use vstack.Prelude.{
  ℕ, ◌≤◌, ◌≡◌, ◌⊎◌, refl, sym, ap, ◌∙◌, String, true, false, Option, none, some, List, [], ◌∷◌, any,
  ◌==◌, number_key, text_key, eq_iff, eq_refl, All, Bool-cases, inl, inr, arith,
}
use mathlib.Core.Path.{subst}
use vstack.Prelude.Table.Distinct.{Distinct}
use vstack.Metadata.Tables.{Tables, HasKeys}
use vstack.Metadata.Manifest.{VideoManifest, get_video_manifest}
use vstack.Client.Buffer.{BufferedChunk, Bytes, needs_more_chunks, is_buffered}
use vstack.Client.Buffer.Invariant.{IsValid}
use vstack.Client.Buffer.Requests.{get_next_chunk_sequences_fresh}
use vstack.Client.Player.{
  SmartClient, Surroundings, WantedChunk, get_chunk_info, number_of_id, extract_sequence_number,
  download_list, download_chunks, asked_for, chunks_to_download, refilled, will_refill,
  download_turn,
}
use vstack.Client.Player.Numbers.{same_id, manifest-Distinct, number_of_id-info_of}
use vstack.Client.Player.Results.{AllWanted, download_chunks-AllIds}
use vstack.Client.Player.Arrivals.{SpillWorks, HasChunk, IsOther, add_results-arrives}
use vstack.Client.Player.Served.{IsServed, Serves, download_chunks-Has}

-- In the download list of a manifest, the chunk with a number is the only one under its id.
module _ (s : Surroundings) (manifest : VideoManifest) (d : Distinct same_id manifest.chunks)
    (body : Bytes) (seq : ℕ) (info : WantedChunk)
    (found : get_chunk_info seq (some manifest) ≡ some info) where
  own_number : extract_sequence_number s info.chunk_id (some manifest) ≡ some seq
  unfolding extract_sequence_number get_chunk_info
  own_number = number_of_id-info_of seq info manifest.chunks (s.parsed_number info.chunk_id) d found

  same_number :
      (other : ℕ) (info' : WantedChunk)
      → get_chunk_info other (some manifest) ≡ some info'
      → (info'.chunk_id == info.chunk_id) ≡ true
      → some other ≡ some seq
  unfolding get_chunk_info
  same_number other info' e q =
      sym (number_of_id-info_of other info' manifest.chunks none d e)
      ∙ ap (λ (id : String). number_of_id id manifest.chunks none)
          ((eq_iff info'.chunk_id info.chunk_id).0 q)
      ∙ number_of_id-info_of seq info manifest.chunks none d found

  same_number_inj : (a b : ℕ) → some a ≡ some b → a ≡ b
  same_number_inj a b e = cc

  same_chunk_info : (a b : WantedChunk) → some a ≡ some b → a ≡ b
  same_chunk_info a b e = cc

  entry-IsServed :
      (other : ℕ) (info' : WantedChunk)
      → IsServed s body info
      → get_chunk_info other (some manifest) ≡ some info'
      → ((info'.chunk_id == info.chunk_id) ≡ false) ⊎ IsServed s body info'
  entry-IsServed other info' v e = elim (Bool-cases (info'.chunk_id == info.chunk_id)) [
    | inl q ↦ inr (
        subst (λ (i : WantedChunk). IsServed s body i)
          (same_chunk_info info info' (
            sym found
            ∙ ap (λ (n : ℕ). get_chunk_info n (some manifest))
                (sym (same_number_inj other seq (same_number other info' e q)))
            ∙ e))
          v)
    | inr q ↦ inl q
  ]

  list-Serves :
      (sequences : List ℕ)
      → IsServed s body info
      → Serves s body info.chunk_id (download_list sequences (some manifest))
  unfolding download_list
  list-Serves [] v = tt
  list-Serves (n ∷ sequences) v =
      go (get_chunk_info n (some manifest)) refl (list-Serves sequences v)
    where
      go :
          (o : Option WantedChunk)
          → get_chunk_info n (some manifest) ≡ o
          → Serves s body info.chunk_id (download_list sequences (some manifest))
          → Serves s body info.chunk_id (elim o [
            | none ↦ download_list sequences (some manifest)
            | some i ↦ i ∷ download_list sequences (some manifest)
          ])
      go none e rest = rest
      go (some i) e rest = (entry-IsServed n i v e, rest)

  listed_first :
      (n : ℕ) (rest : List WantedChunk)
      → (n == seq) ≡ true
      → any
          (λ i. i.chunk_id == info.chunk_id)
          (elim (get_chunk_info n (some manifest)) [ none ↦ rest | some i ↦ i ∷ rest ])
        ≡ true
  listed_first n rest q = rw ((eq_iff n seq).0 q, found) (ground (arith, eq_refl info.chunk_id))

  listed_behind :
      (o : Option WantedChunk) (rest : List WantedChunk)
      → any (λ i. i.chunk_id == info.chunk_id) rest ≡ true
      → any (λ i. i.chunk_id == info.chunk_id) (elim o [ none ↦ rest | some i ↦ i ∷ rest ]) ≡ true
  listed_behind none rest h = h
  listed_behind (some i) rest h = ground (arith, h)

  listed-info :
      (sequences : List ℕ)
      → any (λ n. n == seq) sequences ≡ true
      → any (λ i. i.chunk_id == info.chunk_id) (download_list sequences (some manifest)) ≡ true
  unfolding download_list
  listed-info [] h = absurd (ground arith)
  listed-info (n ∷ sequences) h = elim (Bool-cases (n == seq)) [
    | inl q ↦ listed_first n (download_list sequences (some manifest)) q
    | inr q ↦
        listed_behind (get_chunk_info n (some manifest)) (download_list sequences (some manifest))
          (listed-info sequences (ground arith))
  ]

  -- What is read from an id of the list: another number, or it is the chunk's id.
  entry-IsOther :
      (n : ℕ) (i : WantedChunk)
      → get_chunk_info n (some manifest) ≡ some i
      → IsOther s (some manifest) info.chunk_id seq i.chunk_id
  unfolding extract_sequence_number get_chunk_info
  entry-IsOther n i e = elim (Bool-cases (n == seq)) [
    | inl q ↦ inl (
        ground (
          arith,
          eq_iff i.chunk_id info.chunk_id,
          ap (λ (x : WantedChunk). x.chunk_id)
              (same_chunk_info i info (
                sym e
                ∙ ap (λ (k : ℕ). get_chunk_info k (some manifest)) ((eq_iff n seq).0 q)
                ∙ found)),
        ))
    | inr q ↦ inr (λ k r.
        let same : n ≡ k =
          same_number_inj n k
            (sym (number_of_id-info_of n i manifest.chunks (s.parsed_number i.chunk_id) d e) ∙ r) in
        ap (λ (x : ℕ). x == seq) (sym same) ∙ q)
  ]

  list-AllWanted :
      (sequences : List ℕ)
      → AllWanted
          (IsOther s (some manifest) info.chunk_id seq)
          (download_list sequences (some manifest))
  unfolding download_list
  list-AllWanted [] = tt
  list-AllWanted (n ∷ sequences) =
      go (get_chunk_info n (some manifest)) refl (list-AllWanted sequences)
    where
      go :
          (o : Option WantedChunk)
          → get_chunk_info n (some manifest) ≡ o
          → AllWanted
              (IsOther s (some manifest) info.chunk_id seq)
              (download_list sequences (some manifest))
          → AllWanted (IsOther s (some manifest) info.chunk_id seq) (elim o [
            | none ↦ download_list sequences (some manifest)
            | some i ↦ i ∷ download_list sequences (some manifest)
          ])
      go none e rest = rest
      go (some i) e rest = (entry-IsOther n i e, rest)

any-position :
    (position seq : ℕ) (l : List BufferedChunk) (sequences : List ℕ)
    → All (λ n. (position ≤ n) × (is_buffered n l ≡ false)) sequences
    → any (λ n. n == seq) sequences ≡ true
    → (position ≤ seq) × (is_buffered seq l ≡ false)
any-position position seq l [] a h = absurd (ground arith)
any-position position seq l (n ∷ sequences) a h = elim (Bool-cases (n == seq)) [
  | inl q ↦ rw (← (eq_iff n seq).0 q) a.0
  | inr q ↦ any-position position seq l sequences a.1 (ground arith)
]

download_turn-arrives :
    (s : Surroundings) (c : SmartClient) (manifest : VideoManifest) (seq : ℕ) (info : WantedChunk)
    (body : Bytes) (works : SpillWorks s)
    → c.playing ≡ true
    → c.manifest ≡ some manifest
    → c.scheduler.has_session ≡ true
    → IsValid c.buffer_manager
    → needs_more_chunks c.buffer_manager ≡ true
    → (c.buffer_manager.chunk_duration_sec == 0) ≡ false
    → Distinct same_id manifest.chunks
    → any (λ n. n == seq) (asked_for c) ≡ true
    → get_chunk_info seq (some manifest) ≡ some info
    → IsServed s body info
    → HasChunk info.chunk_id seq body
        (works.path_of info.chunk_id)
        (download_turn s c).buffer_manager
unfolding download_turn refilled will_refill asked_for
download_turn-arrives s c manifest seq info body works playing m session valid more duration d asked
      found served =
    let infos = download_list (asked_for c) (some manifest) in
    let own =
      download_chunks-Has s body info.chunk_id infos [] c.scheduler session
        (list-Serves s manifest d body seq info found (asked_for c) served)
        (listed-info s manifest d body seq info found (asked_for c) asked) in
    let fresh =
      (get_next_chunk_sequences_fresh (chunks_to_download c.buffer_manager) c.buffer_manager
        valid).1 in
    let (late, new) =
      any-position c.buffer_manager.current_position seq c.buffer_manager.buffer (asked_for c) fresh
        asked in
    let others =
      download_chunks-AllIds (IsOther s (some manifest) info.chunk_id seq) s infos [] c.scheduler
        (list-AllWanted s manifest d body seq info found (asked_for c)) tt in
    rw (playing, more, duration, m)
      (add_results-arrives s works (some manifest) info.chunk_id seq body
        (download_chunks s infos [] c.scheduler).0 c.buffer_manager
        (own_number s manifest d body seq info found) others own served.full late new)

-- A turn of the download loop of a playing client, with a manifest that the metadata service makes of
-- tables with their keys, a valid buffer that needs more chunks, and files that can be written: a chunk
-- that is asked for, is in the manifest, has no empty text among its replicas, and is delivered by some
-- replica, where every answer for it is the same bytes and not none, is in the buffer afterwards: under
-- its number stands a chunk with its id and the size of those bytes, which are in memory or were written
-- to the file of its id.
pub download_turn-HasChunk :
    (s : Surroundings) (c : SmartClient) (video_id : String) (t : Tables) (manifest : VideoManifest)
    (seq : ℕ) (info : WantedChunk) (body : Bytes) (works : SpillWorks s)
    → HasKeys t
    → get_video_manifest video_id t ≡ some manifest
    → c.playing ≡ true
    → c.manifest ≡ some manifest
    → c.scheduler.has_session ≡ true
    → IsValid c.buffer_manager
    → needs_more_chunks c.buffer_manager ≡ true
    → (c.buffer_manager.chunk_duration_sec == 0) ≡ false
    → any (λ n. n == seq) (asked_for c) ≡ true
    → get_chunk_info seq (some manifest) ≡ some info
    → IsServed s body info
    → HasChunk info.chunk_id seq body
        (works.path_of info.chunk_id)
        (download_turn s c).buffer_manager
download_turn-HasChunk s c video_id t manifest seq info body works keys made playing m session valid
      more duration asked found served =
    download_turn-arrives s c manifest seq info body works playing m session valid more duration
      (manifest-Distinct video_id t manifest keys made) asked found served
