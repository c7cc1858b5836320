-- ===== src/Client/Player/Served.antt =====
-- The results of a list of downloads, where the replicas of a chunk deliver it.
use vstack.Prelude.{
  ℕ, ◌≡◌, ◌⊎◌, ap, ◌∙◌, String, Bool, true, false, Option, none, some, List, [], ◌∷◌, length, any,
  ltb, ◌==◌, number_key, text_key, if◌then◌else◌, Bool-cases, inl, inr, arith,
}
use vstack.Prelude.Dict.{Dict, insert, lookup, lookup-insert}
use vstack.Client.Buffer.{Bytes}
use vstack.Client.Scheduler.{Network, ChunkScheduler, contains, read_body, download_chunk}
use vstack.Client.Scheduler.Failover.{is_some, delivers, download_chunk_succeeds}
use vstack.Client.Scheduler.Sources.{
  OfData, Replies, download_chunk-OfData, has_session-download_chunk,
}
use vstack.Client.Player.{Surroundings, WantedChunk, download_chunks}

any_body : (o : Option (List ℕ)) → OfData (λ body. Unit) o
any_body none = tt
any_body (some body) = tt

has_session-download :
    (net : Network) (id : String) (replicas : List String) (retries : ℕ) (t : ChunkScheduler)
    → (download_chunk net id replicas retries t).1.has_session ≡ t.has_session
has_session-download net id replicas retries t =
    has_session-download_chunk (λ body. Unit) net
      (record { body_of = λ b n a. any_body (read_body b (net.reply n a)) }) id replicas retries t

same_body :
    (body : Bytes) (o : Option Bytes) → is_some o ≡ true → OfData (λ b. b ≡ body) o → o ≡ some body
same_body body none h p = absurd (ground arith)
same_body body (some b) h p = ap some p

module _ (s : Surroundings) (body : Bytes) where
  -- Some replica delivers the chunk, every answer that a node gives for it is these bytes, which are not
  -- none, and no replica is the empty text.
  pub record IsServed (info : WantedChunk) : Type 0 where
    pub same : Replies (λ b. b ≡ body) (s.net info.chunk_id)
    pub full : ltb 0 (length body) ≡ true
    pub named : contains "" info.replicas ≡ false
    pub delivered : any (delivers (s.net info.chunk_id) true s.max_retries) info.replicas ≡ true

  served-body :
      (info : WantedChunk) (scheduler : ChunkScheduler)
      → scheduler.has_session ≡ true
      → IsServed info
      → (download_chunk (s.net info.chunk_id) info.chunk_id info.replicas s.max_retries scheduler).0
        ≡ some body
  served-body info t h v =
      same_body body _
        (download_chunk_succeeds (s.net info.chunk_id) info.chunk_id info.replicas s.max_retries t
            v.named
          ∙ ap (λ (b : Bool). any (delivers (s.net info.chunk_id) b s.max_retries) info.replicas) h
          ∙ v.delivered)
        (download_chunk-OfData (λ b. b ≡ body) (s.net info.chunk_id) v.same info.chunk_id
          info.replicas s.max_retries t)

module _ (s : Surroundings) (body : Bytes) (id : String) where
  abbrev pub Has : Dict String (Option Bytes) → Type 0
  Has results = lookup id results ≡ some (some body)

  -- Every entry of the list under the id is served.
  abbrev pub Serves : List WantedChunk → Type 0
  Serves [] = Unit
  Serves (info ∷ infos) = (((info.chunk_id == id) ≡ false) ⊎ IsServed s body info) × Serves infos

  Has-insert :
      (j : String) (r : Option Bytes) (results : Dict String (Option Bytes))
      → (j == id) ≡ true
      → r ≡ some body
      → Has (insert j r results)
  Has-insert j r results q n =
      lookup-insert j id r results
      ∙ ap (λ (b : Bool). if b then some r else lookup id results) q
      ∙ ap some n

  Has-past :
      (j : String) (r : Option Bytes) (results : Dict String (Option Bytes))
      → (j == id) ≡ false
      → Has results
      → Has (insert j r results)
  Has-past j r results q e =
      lookup-insert j id r results
      ∙ ap (λ (b : Bool). if b then some r else lookup id results) q
      ∙ e

  abbrev result_of : WantedChunk → ChunkScheduler → Option Bytes
  result_of info t =
      (download_chunk (s.net info.chunk_id) info.chunk_id info.replicas s.max_retries t).0

  -- The entry under the id is data once it is stored.
  own-Has :
      (info : WantedChunk) (results : Dict String (Option Bytes)) (t : ChunkScheduler)
      → t.has_session ≡ true
      → ((info.chunk_id == id) ≡ false) ⊎ IsServed s body info
      → (info.chunk_id == id) ≡ true
      → Has (insert info.chunk_id (result_of info t) results)
  own-Has info results t h (inl other) q = absurd (ground (arith, other, q))
  own-Has info results t h (inr v) q =
      Has-insert info.chunk_id (result_of info t) results q (served-body s body info t h v)

  still-Has :
      (info : WantedChunk) (results : Dict String (Option Bytes)) (t : ChunkScheduler)
      → t.has_session ≡ true
      → ((info.chunk_id == id) ≡ false) ⊎ IsServed s body info
      → Has results
      → Has (insert info.chunk_id (result_of info t) results)
  still-Has info results t h v k = elim (Bool-cases (info.chunk_id == id)) [
    | inl q ↦ own-Has info results t h v q
    | inr q ↦ Has-past info.chunk_id (result_of info t) results q k
  ]

  download_chunks-keeps :
      (infos : List WantedChunk) (results : Dict String (Option Bytes)) (t : ChunkScheduler)
      → t.has_session ≡ true
      → Serves infos
      → Has results
      → Has (download_chunks s infos results t).0
  unfolding download_chunks
  download_chunks-keeps [] results t h v k = k
  download_chunks-keeps (info ∷ infos) results t h v k =
      let (r, t') =
        download_chunk (s.net info.chunk_id) info.chunk_id info.replicas s.max_retries t in
      let session =
        has_session-download (s.net info.chunk_id) info.chunk_id info.replicas s.max_retries t
        ∙ h in
      download_chunks-keeps infos (insert info.chunk_id r results) t' session v.1
        (still-Has info results t h v.0 k)

  pub download_chunks-Has :
      (infos : List WantedChunk) (results : Dict String (Option Bytes)) (t : ChunkScheduler)
      → t.has_session ≡ true
      → Serves infos
      → any (λ i. i.chunk_id == id) infos ≡ true
      → Has (download_chunks s infos results t).0
  unfolding download_chunks
  download_chunks-Has [] results t h v n = absurd (ground arith)
  download_chunks-Has (info ∷ infos) results t h v n =
      let (r, t') =
        download_chunk (s.net info.chunk_id) info.chunk_id info.replicas s.max_retries t in
      let session =
        has_session-download (s.net info.chunk_id) info.chunk_id info.replicas s.max_retries t
        ∙ h in
      elim (Bool-cases (info.chunk_id == id)) [
        | inl q ↦
            download_chunks-keeps infos (insert info.chunk_id r results) t' session v.1
              (own-Has info results t h v.0 q)
        | inr q ↦
            download_chunks-Has infos (insert info.chunk_id r results) t' session v.1 (ground arith)
      ]
