-- ===== src/Metadata/Manifest/Placement.antt =====
-- metadata-service/database.py and metadata-service/consensus.py: a chunk that was placed, in the
-- manifest of its video.
use vstack.Prelude.{
  ℕ, ◌≡◌, refl, sym, ap, ◌∙◌, String, Bool, true, ◌&&◌, ◌||◌, Option, none, some, List, [], ◌∷◌,
  map, any, All, All-map, ◌==◌, text_key, number_key, eq_iff, arith,
}
use mathlib.Core.Path.{subst}
use vstack.Prelude.Table.{select, order_by, any-order_by}
use vstack.Metadata.Tables.{Tables, VideoRow}
use vstack.Metadata.Database.{is_active, get_video}
use vstack.Metadata.Consensus.{
  Nodes, Proposal, Paxos, propose_chunk_placement, fragments_of, same_text,
}
use vstack.Metadata.Consensus.Quorum.{contains}
use vstack.Metadata.Consensus.Outcome.{HasReplica, replica_on}
use vstack.Metadata.Consensus.StoredChunk.{HasChunk}
use vstack.Metadata.Consensus.Recorded.{propose-IsRecorded, replica_urls}
use vstack.Metadata.Manifest.{
  VideoManifest, url_of, active_replicas, manifest_chunk, number_in_video, manifest_chunks,
  with_chunks, get_video_manifest,
}

any-weaken {ℓ} :
    {R : Type ℓ} (p q : R → Bool) (rows : List R)
    → ((r : R) → p r ≡ true → q r ≡ true)
    → any p rows ≡ true
    → any q rows ≡ true
any-weaken p q [] h k = cc
any-weaken p q (r ∷ rows) h k = ground (arith, k, h r, any-weaken p q rows h)

any-map {ℓ} :
    {R S : Type ℓ} (p : S → Bool) (f : R → S) (rows : List R)
    → any p (map f rows) ≡ any (λ r. p (f r)) rows
any-map p f [] = refl
any-map p f (r ∷ rows) = ap (◌||◌ (p (f r))) (any-map p f rows)

any-select {ℓ} :
    {R : Type ℓ} (p q : R → Bool) (rows : List R)
    → any p (select q rows) ≡ any (λ r. q r && p r) rows
unfolding select
any-select p q [] = refl
any-select p q (r ∷ rows) = ground (arith, any-select p q rows)

-- The manifest offers the chunk of a proposal at a node.
abbrev pub offers : Proposal → String → VideoManifest → Bool
offers p url m =
    any
      (λ c.
        (c.chunk_id == p.chunk_id && c.sequence_num == p.sequence_num)
        && (same_text c.checksum p.checksum && contains url c.replicas))
      m.chunks

contains-active_replicas :
    (p : Proposal) (accepted : List String) (ballot : ℕ) (url : String) (t : Tables)
    → HasReplica p accepted ballot url t
    → contains url (active_replicas p.chunk_id t) ≡ true
unfolding active_replicas
contains-active_replicas p accepted ballot url t h =
    any-map (λ u. u == url) url_of
      (select (λ r. r.chunk_id == p.chunk_id && is_active r.status) t.chunk_replicas)
    ∙ any-select (λ r. r.node_url == url) (λ r. r.chunk_id == p.chunk_id && is_active r.status)
        t.chunk_replicas
    ∙ any-weaken (replica_on p accepted ballot url)
        (λ r. (r.chunk_id == p.chunk_id && is_active r.status) && (r.node_url == url))
        t.chunk_replicas (λ r e. ground (arith, e)) h

offers-manifest :
    (p : Proposal) (accepted : List String) (ballot : ℕ) (url : String) (t : Tables)
    (video : VideoRow)
    → HasChunk p accepted ballot t
    → HasReplica p accepted ballot url t
    → offers p url (record { video = video; chunks = manifest_chunks p.video_id t }) ≡ true
unfolding manifest_chunks manifest_chunk
offers-manifest p accepted ballot url t video chunk replica =
    any-map _ (manifest_chunk t)
      (order_by number_in_video (select (λ r. r.video_id == p.video_id) t.chunks))
    ∙ any-order_by _ number_in_video (select (λ r. r.video_id == p.video_id) t.chunks)
    ∙ any-select _ (λ r. r.video_id == p.video_id) t.chunks
    ∙ any-weaken _ _ t.chunks
        (λ r e.
          let same : r.chunk_id ≡ p.chunk_id =
            (eq_iff r.chunk_id p.chunk_id).0 (ground (arith, e)) in
          let there : contains url (active_replicas r.chunk_id t) ≡ true =
            subst (λ id. contains url (active_replicas id t) ≡ true) (sym same)
              (contains-active_replicas p accepted ballot url t replica) in
          ground (arith, e, there))
        chunk

none≢some_manifest : (m : VideoManifest) → ◌≡◌ {A = Option VideoManifest} none (some m) → ⊥
none≢some_manifest m e = cc

some_manifest_inj : (m m' : VideoManifest) → some m ≡ some m' → m ≡ m'
some_manifest_inj m m' e = cc

offers-with_chunks :
    (p : Proposal) (accepted : List String) (ballot : ℕ) (url : String) (t : Tables)
    (o : Option VideoRow) (m : VideoManifest)
    → HasChunk p accepted ballot t
    → with_chunks (manifest_chunks p.video_id t) o ≡ some m
    → HasReplica p accepted ballot url t
    → offers p url m ≡ true
unfolding with_chunks
offers-with_chunks p accepted ballot url t none m chunk e replica = absurd (none≢some_manifest m e)
offers-with_chunks p accepted ballot url t (some video) m chunk e replica =
    subst (λ k. offers p url k ≡ true) (some_manifest_inj _ m e)
      (offers-manifest p accepted ballot url t video chunk replica)

-- Once a proposal has succeeded, the manifest of its video, read from the rows that are committed,
-- offers the chunk, under its number and its checksum, at every node that accepted it, unless its
-- fragments are stored in place of replicas.
pub propose-offers :
    (nodes : Nodes) (p : Proposal) (s s' : Paxos) (accepted : List String) (m : VideoManifest)
    → propose_chunk_placement nodes p s ≡ some ((true, accepted), s')
    → get_video_manifest p.video_id s'.conn.durable ≡ some m
    → All
        (λ url. offers p url m ≡ true)
        (replica_urls (fragments_of p.redundancy_mode p.fragments_metadata) accepted)
unfolding get_video_manifest
propose-offers nodes p s s' accepted m e read =
    let r = propose-IsRecorded nodes p s s' accepted e in
    All-map _ (λ url. offers p url m ≡ true)
      (replica_urls (fragments_of p.redundancy_mode p.fragments_metadata) accepted)
      (λ url replica.
        offers-with_chunks p accepted r.ballot url s'.conn.durable
          (get_video p.video_id s'.conn.durable) m r.chunk read replica)
      r.replicas
