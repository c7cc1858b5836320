-- ===== src/Client/Player/Numbers.antt =====
-- Between the numbers of the chunks and their ids, by the manifest.
use vstack.Prelude.{
  ℕ, ◌≡◌, refl, sym, ap, ◌∙◌, String, Bool, true, false, Option, none, some, List, [], ◌∷◌, map,
  ◌==◌, number_key, text_key, eq_iff, eq_refl, All, if◌then◌else◌, Bool-cases, inl, inr, arith,
}
use vstack.Prelude.Table.Distinct.{Distinct}
use vstack.Prelude.Table.Ordered.{Distinct-order_by, Distinct-select}
use vstack.Metadata.Tables.{ChunkRow, VideoRow, Tables, HasKeys, same_chunk, same_chunk_comm}
use vstack.Metadata.Database.{get_video}
use vstack.Metadata.Manifest.{
  ManifestChunk, VideoManifest, manifest_chunk, manifest_chunks, number_in_video, with_chunks,
  get_video_manifest,
}
use vstack.Client.Player.{
  WantedChunk, Surroundings, info_of, get_chunk_info, number_of_id, extract_sequence_number,
}

-- Whether two chunks of a manifest have one id.
abbrev pub same_id : ManifestChunk → ManifestChunk → Bool
same_id a b = a.chunk_id == b.chunk_id

abbrev here : ManifestChunk → WantedChunk
here c = record { chunk_id = c.chunk_id; replicas = c.replicas }

same_info : (a b : WantedChunk) → some a ≡ some b → a.chunk_id ≡ b.chunk_id
same_info a b e = ap (λ (i : WantedChunk). i.chunk_id) inj
  where
    inj : a ≡ b
    inj = cc

-- The first chunk is the one with the number, or a later one is.
module _ (seq : ℕ) (info : WantedChunk) (c : ManifestChunk) (chunks : List ManifestChunk)
    (e : info_of seq (c ∷ chunks) ≡ some info) where
  found_here : (c.sequence_num == seq) ≡ true → c.chunk_id ≡ info.chunk_id
  unfolding info_of
  found_here q =
      same_info (here c) info
        (ap (λ b. if b then some (here c) else info_of seq chunks) (sym q) ∙ e)

  found_later : (c.sequence_num == seq) ≡ false → info_of seq chunks ≡ some info
  unfolding info_of
  found_later q = ap (λ b. if b then some (here c) else info_of seq chunks) (sym q) ∙ e

info_elsewhere :
    (id : String) (seq : ℕ) (info : WantedChunk) (chunks : List ManifestChunk)
    → All (λ d. (id == d.chunk_id) ≡ false) chunks
    → info_of seq chunks ≡ some info
    → (id == info.chunk_id) ≡ false
info_elsewhere id seq info [] a e = unfold info_of in absurd cc
info_elsewhere id seq info (c ∷ chunks) a e = elim (Bool-cases (c.sequence_num == seq)) [
  | inl q ↦ rw (← found_here seq info c chunks e q) a.0
  | inr q ↦ info_elsewhere id seq info chunks a.1 (found_later seq info c chunks e q)
]

pub number_of_id-info_of :
    (seq : ℕ) (info : WantedChunk) (chunks : List ManifestChunk) (otherwise : Option ℕ)
    → Distinct same_id chunks
    → info_of seq chunks ≡ some info
    → number_of_id info.chunk_id chunks otherwise ≡ some seq
unfolding number_of_id info_of
number_of_id-info_of seq info [] otherwise d e = absurd cc
number_of_id-info_of seq info (c ∷ chunks) otherwise d e =
    elim (Bool-cases (c.sequence_num == seq)) [
      | inl q ↦
          rw
            (
              ← found_here seq info c chunks e q,
              eq_refl c.chunk_id,
              (eq_iff c.sequence_num seq).0 q,
            )
            refl
      | inr q ↦
          rw (info_elsewhere c.chunk_id seq info chunks d.0 (found_later seq info c chunks e q))
            (number_of_id-info_of seq info chunks otherwise d.1 (found_later seq info c chunks e q))
    ]

map-Distinct :
    (t : Tables) (rows : List ChunkRow)
    → Distinct same_chunk rows
    → Distinct same_id (map (manifest_chunk t) rows)
unfolding manifest_chunk same_chunk
map-Distinct t [] h = tt
map-Distinct t (r ∷ rows) h = (go rows h.0, map-Distinct t rows h.1)
  where
    go :
        (l : List ChunkRow)
        → All (λ x. same_chunk r x ≡ false) l
        → All (λ c. (r.chunk_id == c.chunk_id) ≡ false) (map (manifest_chunk t) l)
    go [] k = tt
    go (x ∷ l) k = (ground arith, go l k.1)

manifest_chunks-Distinct :
    (video_id : String) (t : Tables) → HasKeys t → Distinct same_id (manifest_chunks video_id t)
unfolding manifest_chunks
manifest_chunks-Distinct video_id t h = map-Distinct t _ (
    Distinct-order_by same_chunk number_in_video same_chunk_comm _
      (Distinct-select same_chunk _ t.chunks h.chunks_key))

with_chunks_chunks :
    (chunks : List ManifestChunk) (v : Option VideoRow) (manifest : VideoManifest)
    → with_chunks chunks v ≡ some manifest
    → chunks ≡ manifest.chunks
unfolding with_chunks
with_chunks_chunks chunks none manifest e = absurd cc
with_chunks_chunks chunks (some v) manifest e = ap (λ (m : VideoManifest). m.chunks) inj
  where
    inj : record { video = v; chunks = chunks } ≡ manifest
    inj = cc

-- The chunks of a manifest that the metadata service makes have ids that differ.
pub manifest-Distinct :
    (video_id : String) (t : Tables) (manifest : VideoManifest)
    → HasKeys t
    → get_video_manifest video_id t ≡ some manifest
    → Distinct same_id manifest.chunks
unfolding get_video_manifest
manifest-Distinct video_id t manifest h e =
    rw (← with_chunks_chunks (manifest_chunks video_id t) (get_video video_id t) manifest e)
      (manifest_chunks-Distinct video_id t h)

-- With a manifest that the metadata service makes of tables with their keys, the chunk that the
-- client finds for a number has an id from which it reads that number again.
pub extract_sequence_number-get_chunk_info :
    (s : Surroundings) (video_id : String) (t : Tables) (manifest : VideoManifest) (seq : ℕ)
    (info : WantedChunk)
    → HasKeys t
    → get_video_manifest video_id t ≡ some manifest
    → get_chunk_info seq (some manifest) ≡ some info
    → extract_sequence_number s info.chunk_id (some manifest) ≡ some seq
unfolding extract_sequence_number get_chunk_info
extract_sequence_number-get_chunk_info s video_id t manifest seq info h made e =
    number_of_id-info_of seq info manifest.chunks (s.parsed_number info.chunk_id)
      (manifest-Distinct video_id t manifest h made) e
