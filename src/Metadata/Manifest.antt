-- ===== src/Metadata/Manifest.antt =====
-- metadata-service/database.py: `get_video_manifest`. GROUP_CONCAT and the split of
-- its text come to the list of the URLs, as no URL holds the separator. A read that raises returns
-- None, as for a video that is not there.
pub mod Placement
use vstack.Prelude.{
  ℕ, String, Bool, true, false, ◌&&◌, not, Option, none, some, List, [], ◌∷◌, map, take, drop, ◌==◌,
  text_key, if◌then◌else◌,
}
use vstack.Prelude.Table.{select, order_by}
use vstack.Metadata.Tables.{
  Text, VideoRow, ChunkRow, ReplicaRow, FragmentRow, RedundancyMode, Tables,
}
use vstack.Metadata.Database.{
  get_video, get_chunk_fragments, is_active, is_deleted, is_erasure_coding,
}

pub record ManifestChunk : Type 0 where
  pub chunk_id : String
  pub sequence_num : ℕ
  pub size_bytes : ℕ
  pub checksum : Text
  pub redundancy_mode : RedundancyMode
  pub replicas : List String
  pub fragments : Option (List FragmentRow)

pub record VideoManifest : Type 0 where
  pub video : VideoRow
  pub chunks : List ManifestChunk

abbrev pub url_of : ReplicaRow → String
url_of r = r.node_url

-- The rows of the join for a chunk.
unfoldable pub active_replicas : String → Tables → List String
active_replicas chunk_id t =
    map url_of (select (λ r. r.chunk_id == chunk_id && is_active r.status) t.chunk_replicas)

-- `if fragments: chunk_dict["fragments"] = fragments`
unfoldable pub if_any : List FragmentRow → Option (List FragmentRow)
if_any [] = none
if_any (f ∷ fragments) = some (f ∷ fragments)

unfoldable pub manifest_chunk : Tables → ChunkRow → ManifestChunk
unfolding active_replicas if_any
manifest_chunk t row = record {
  chunk_id = row.chunk_id;
  sequence_num = row.sequence_num;
  size_bytes = row.size_bytes;
  checksum = row.checksum;
  redundancy_mode = row.redundancy_mode;
  replicas = active_replicas row.chunk_id t;
  fragments =
      if is_erasure_coding row.redundancy_mode
      then if_any (get_chunk_fragments row.chunk_id t)
      else none;
}

abbrev pub number_in_video : ChunkRow → ℕ
number_in_video r = r.sequence_num

unfoldable pub manifest_chunks : String → Tables → List ManifestChunk
unfolding manifest_chunk
manifest_chunks video_id t =
    map (manifest_chunk t)
      (order_by number_in_video (select (λ r. r.video_id == video_id) t.chunks))

unfoldable pub with_chunks : List ManifestChunk → Option VideoRow → Option VideoManifest
with_chunks chunks none = none
with_chunks chunks (some video) = some (record { video = video; chunks = chunks })

unfoldable pub get_video_manifest : String → Tables → Option VideoManifest
unfolding with_chunks manifest_chunks
get_video_manifest video_id t = with_chunks (manifest_chunks video_id t) (get_video video_id t)
