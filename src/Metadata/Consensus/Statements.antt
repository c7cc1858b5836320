-- ===== src/Metadata/Consensus/Statements.antt =====
-- metadata-service/consensus.py: the proposal, the rows that it writes, and the statements of
-- the commit phase and of the clean-up.
use vstack.Prelude.{
  ℕ, String, ◌&&◌, Option, none, some, List, [], ◌∷◌, length, ◌==◌, number_key, text_key,
}
use vstack.Prelude.Table.{delete, update, replace, select}
use vstack.Metadata.Tables.{
  Text, ReplicaStatus, ConsensusPhase, not_started, RedundancyMode, erasure_coding, ChunkRow,
  ReplicaRow, ConsensusRow, Tables, same_chunk, same_replica, same_consensus, same_fragment,
}
use vstack.Metadata.Connection.{M, ◌>>=◌, Statement, execute, for_each}
use vstack.Metadata.Database.{FragmentMetadata, fragment_row, node_of}

-- The arguments of `propose_chunk_placement`.
pub record Proposal : Type 0 where
  pub chunk_id : String
  pub node_urls : List String
  pub checksum : Text
  pub size_bytes : ℕ
  pub video_id : String
  pub sequence_num : ℕ
  pub redundancy_mode : RedundancyMode
  pub fragments_metadata : Option (List FragmentMetadata)

abbrev pub consensus_row : String → ℕ → Option (List String) → ConsensusPhase → ConsensusRow
consensus_row chunk_id ballot value phase = record {
  chunk_id = chunk_id;
  promised_ballot = ballot;
  accepted_ballot = ballot;
  accepted_value = value;
  phase = phase;
}

unfoldable pub put_state : String → ℕ → Option (List String) → ConsensusPhase → Statement
unfolding replace
put_state chunk_id ballot value phase now t = some (record t {
  consensus_state =
      replace same_consensus (consensus_row chunk_id ballot value phase) t.consensus_state;
})

abbrev pub chunk_row : Proposal → ℕ → ChunkRow
chunk_row p now = record {
  chunk_id = p.chunk_id;
  video_id = p.video_id;
  sequence_num = p.sequence_num;
  size_bytes = p.size_bytes;
  checksum = p.checksum;
  redundancy_mode = p.redundancy_mode;
  created_at = now;
}

unfoldable pub put_chunk : Proposal → Statement
unfolding replace
put_chunk p now t = some (record t { chunks = replace same_chunk (chunk_row p now) t.chunks })

unfoldable pub put_fragment : FragmentMetadata → String → Statement
unfolding replace
put_fragment frag node_url now t = some (record t {
  chunk_fragments = replace same_fragment (fragment_row frag node_url now) t.chunk_fragments;
})

abbrev pub replica_row : String → ℕ → String → ℕ → ReplicaRow
replica_row chunk_id ballot node_url now = record {
  chunk_id = chunk_id;
  node_url = node_url;
  status = ReplicaStatus.active;
  ballot_number = ballot;
  created_at = now;
}

unfoldable pub put_replica : String → ℕ → String → Statement
unfolding replace
put_replica chunk_id ballot node_url now t = some (record t {
  chunk_replicas = replace same_replica (replica_row chunk_id ballot node_url now) t.chunk_replicas;
})

-- `SELECT COUNT(DISTINCT chunk_id) FROM chunks WHERE video_id = ?`: `chunk_id` is the primary key,
-- so the rows are as many as their distinct keys
unfoldable pub chunk_count : String → Tables → ℕ
unfolding select
chunk_count video_id t = length (select (λ r. r.video_id == video_id) t.chunks)

unfoldable pub put_total : String → Statement
unfolding update chunk_count
put_total video_id now t = some (record t {
  videos =
      update (λ v. v.video_id == video_id) (λ v. record v { total_chunks = chunk_count video_id t })
        t.videos;
})

-- `if redundancy_mode == "erasure_coding" and fragments_metadata`: the fragments to store, if any
unfoldable pub fragments_of :
    RedundancyMode → Option (List FragmentMetadata) → List FragmentMetadata
fragments_of erasure_coding (some frags) = frags
fragments_of _ _ = []

unfoldable pub commit_fragment : FragmentMetadata → M (Unit {0})
commit_fragment frag = do node_url ← node_of frag.node_url; execute (put_fragment frag node_url)

unfoldable pub put_placement : List FragmentMetadata → String → ℕ → List String → M (Unit {0})
put_placement [] chunk_id ballot accepted =
    for_each (λ url. execute (put_replica chunk_id ballot url)) accepted
put_placement (frag ∷ frags) chunk_id ballot accepted = for_each commit_fragment (frag ∷ frags)

unfoldable pub delete_replicas : String → ℕ → Statement
unfolding delete
delete_replicas chunk_id ballot now t = some (record t {
  chunk_replicas =
      delete (λ r. r.chunk_id == chunk_id && r.ballot_number == ballot) t.chunk_replicas;
})

unfoldable pub delete_fragments : String → Statement
unfolding delete
delete_fragments chunk_id now t =
    some (record t { chunk_fragments = delete (λ f. f.chunk_id == chunk_id) t.chunk_fragments })

unfoldable pub reset_state : String → Statement
unfolding update
reset_state chunk_id now t = some (record t {
  consensus_state =
      update (λ s. s.chunk_id == chunk_id)
        (λ s. record s { phase = not_started; accepted_value = none }) t.consensus_state;
})
