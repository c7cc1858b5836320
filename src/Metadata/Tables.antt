-- ===== src/Metadata/Tables.antt =====
-- metadata-service/database.py, `_create_tables`: a record for the rows of each table, the tables
-- together, and for each table which rows its keys keep apart. Times are whole seconds, as
-- CURRENT_TIMESTAMP writes them; a JSON text is kept as the value that it encodes. The database
-- does not enforce the foreign keys: the program never turns them on.
use vstack.Prelude.{
  ℕ, String, Bool, ◌&&◌, ◌||◌, Option, List, [], ◌≡◌, ◌==◌, number_key, text_key, arith, eq_iff,
}
use vstack.Prelude.Table.Distinct.{Distinct}

-- A text that the program takes apart, as its code points.
abbrev pub Text : Type 0
Text = List ℕ

pub data VideoStatus : Type 0 where
  uploading active deleted : VideoStatus

pub data NodeStatus : Type 0 where
  healthy degraded down : NodeStatus

pub data ReplicaStatus : Type 0 where
  active pending failed : ReplicaStatus

pub data ConsensusPhase : Type 0 where
  not_started prepare accept committed : ConsensusPhase

pub data RedundancyMode : Type 0 where
  replication erasure_coding : RedundancyMode

pub record VideoRow : Type 0 where
  pub video_id : String
  pub title : String
  pub duration_sec : ℕ
  pub total_chunks : ℕ
  pub chunk_size_bytes : ℕ
  pub created_at : ℕ
  pub status : VideoStatus

pub record ChunkRow : Type 0 where
  pub chunk_id : String
  pub video_id : String
  pub sequence_num : ℕ
  pub size_bytes : ℕ
  pub checksum : Text
  pub redundancy_mode : RedundancyMode
  pub created_at : ℕ

pub record ReplicaRow : Type 0 where
  pub chunk_id : String
  pub node_url : String
  pub status : ReplicaStatus
  pub ballot_number : ℕ
  pub created_at : ℕ

pub record NodeRow : Type 0 where
  pub node_url : String
  pub node_id : String
  pub last_heartbeat : ℕ
  pub disk_usage_percent : ℕ
  pub chunk_count : ℕ
  pub status : NodeStatus
  pub version : String

pub record ConsensusRow : Type 0 where
  pub chunk_id : String
  pub promised_ballot : ℕ
  pub accepted_ballot : ℕ
  pub accepted_value : Option (List String)
  pub phase : ConsensusPhase

pub record FragmentRow : Type 0 where
  pub fragment_id : String
  pub chunk_id : String
  pub fragment_index : ℕ
  pub node_url : String
  pub size_bytes : ℕ
  pub checksum : Text
  pub status : ReplicaStatus
  pub created_at : ℕ

pub record StatsRow : Type 0 where
  pub video_id : String
  pub view_count : ℕ
  pub last_viewed : ℕ
  pub total_bytes_served : ℕ

pub record Tables : Type 0 where
  pub videos : List VideoRow
  pub chunks : List ChunkRow
  pub chunk_replicas : List ReplicaRow
  pub storage_nodes : List NodeRow
  pub consensus_state : List ConsensusRow
  pub chunk_fragments : List FragmentRow
  pub video_stats : List StatsRow

abbrev pub no_rows : Tables
no_rows = record {
  videos = [];
  chunks = [];
  chunk_replicas = [];
  storage_nodes = [];
  consensus_state = [];
  chunk_fragments = [];
  video_stats = [];
}

-- Two rows clash if they agree on the primary key or on a UNIQUE constraint.
unfoldable pub same_video : VideoRow → VideoRow → Bool
same_video a b = a.video_id == b.video_id

unfoldable pub same_chunk : ChunkRow → ChunkRow → Bool
same_chunk a b =
    a.chunk_id == b.chunk_id || (a.video_id == b.video_id && a.sequence_num == b.sequence_num)

unfoldable pub same_replica : ReplicaRow → ReplicaRow → Bool
same_replica a b = a.chunk_id == b.chunk_id && a.node_url == b.node_url

unfoldable pub same_node : NodeRow → NodeRow → Bool
same_node a b = a.node_url == b.node_url || a.node_id == b.node_id

unfoldable pub same_consensus : ConsensusRow → ConsensusRow → Bool
same_consensus a b = a.chunk_id == b.chunk_id

unfoldable pub same_fragment : FragmentRow → FragmentRow → Bool
same_fragment a b =
    a.fragment_id == b.fragment_id
    || (a.chunk_id == b.chunk_id && a.fragment_index == b.fragment_index)

unfoldable pub same_stats : StatsRow → StatsRow → Bool
same_stats a b = a.video_id == b.video_id

-- Every key of the schema is a key of the rows.
pub record HasKeys (t : Tables) : Type 0 where
  pub videos_key : Distinct same_video t.videos
  pub chunks_key : Distinct same_chunk t.chunks
  pub replicas_key : Distinct same_replica t.chunk_replicas
  pub nodes_key : Distinct same_node t.storage_nodes
  pub consensus_key : Distinct same_consensus t.consensus_state
  pub fragments_key : Distinct same_fragment t.chunk_fragments
  pub stats_key : Distinct same_stats t.video_stats

pub no_rows-HasKeys : HasKeys no_rows
no_rows-HasKeys = record {
  videos_key = tt;
  chunks_key = tt;
  replicas_key = tt;
  nodes_key = tt;
  consensus_key = tt;
  fragments_key = tt;
  stats_key = tt;
}

-- Which of two rows is the new one does not matter.
pub same_video_comm : (a b : VideoRow) → same_video b a ≡ same_video a b
unfolding same_video
same_video_comm a b = ground (arith, eq_iff a.video_id b.video_id, eq_iff b.video_id a.video_id)

pub same_chunk_comm : (a b : ChunkRow) → same_chunk b a ≡ same_chunk a b
unfolding same_chunk
same_chunk_comm a b = ground (
  arith,
  eq_iff a.chunk_id b.chunk_id,
  eq_iff b.chunk_id a.chunk_id,
  eq_iff a.video_id b.video_id,
  eq_iff b.video_id a.video_id,
)

pub same_replica_comm : (a b : ReplicaRow) → same_replica b a ≡ same_replica a b
unfolding same_replica
same_replica_comm a b = ground (
  arith,
  eq_iff a.chunk_id b.chunk_id,
  eq_iff b.chunk_id a.chunk_id,
  eq_iff a.node_url b.node_url,
  eq_iff b.node_url a.node_url,
)

pub same_node_comm : (a b : NodeRow) → same_node b a ≡ same_node a b
unfolding same_node
same_node_comm a b = ground (
  arith,
  eq_iff a.node_id b.node_id,
  eq_iff b.node_id a.node_id,
  eq_iff a.node_url b.node_url,
  eq_iff b.node_url a.node_url,
)

pub same_consensus_comm : (a b : ConsensusRow) → same_consensus b a ≡ same_consensus a b
unfolding same_consensus
same_consensus_comm a b = ground (arith, eq_iff a.chunk_id b.chunk_id, eq_iff b.chunk_id a.chunk_id)

pub same_fragment_comm : (a b : FragmentRow) → same_fragment b a ≡ same_fragment a b
unfolding same_fragment
same_fragment_comm a b = ground (
  arith,
  eq_iff a.chunk_id b.chunk_id,
  eq_iff b.chunk_id a.chunk_id,
  eq_iff a.fragment_id b.fragment_id,
  eq_iff b.fragment_id a.fragment_id,
)

pub same_stats_comm : (a b : StatsRow) → same_stats b a ≡ same_stats a b
unfolding same_stats
same_stats_comm a b = ground (arith, eq_iff a.video_id b.video_id, eq_iff b.video_id a.video_id)
