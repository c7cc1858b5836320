-- ===== src/Metadata/Consensus/Keys.antt =====
-- metadata-service/consensus.py: the keys of the schema through a proposal.
use vstack.Prelude.{ℕ, String, Option, some, List, ◌≡◌, refl}
use vstack.Prelude.Table.Distinct.{Distinct-delete, Distinct-replace, Distinct-update}
use vstack.Metadata.Tables.{
  HasKeys, ConsensusPhase, same_video, same_chunk, same_replica, same_consensus, same_fragment,
  same_chunk_comm, same_replica_comm, same_consensus_comm, same_fragment_comm,
}
use vstack.Metadata.Connection.Keeps.{Preserves, Preserves-total, Holds}
use vstack.Metadata.Database.{FragmentMetadata, fragment_row}
use vstack.Metadata.Consensus.{
  Nodes, Proposal, Paxos, Answer, put_state, put_chunk, put_replica, put_fragment, put_total,
  delete_replicas, delete_fragments, reset_state, propose_chunk_placement, chunk_row, replica_row,
  consensus_row,
}
use vstack.Metadata.Consensus.Steps.{propose-keeps}

put_state-keeps :
    (chunk_id : String) (ballot : ℕ) (value : Option (List String)) (phase : ConsensusPhase)
    → Preserves HasKeys (put_state chunk_id ballot value phase)
unfolding put_state
put_state-keeps chunk_id ballot value phase = Preserves-total _ λ now t h. record {
  videos_key = h.videos_key;
  chunks_key = h.chunks_key;
  replicas_key = h.replicas_key;
  nodes_key = h.nodes_key;
  consensus_key =
      Distinct-replace same_consensus (consensus_row chunk_id ballot value phase) t.consensus_state
        (same_consensus_comm (consensus_row chunk_id ballot value phase)) h.consensus_key;
  fragments_key = h.fragments_key;
  stats_key = h.stats_key;
}

put_chunk-keeps : (p : Proposal) → Preserves HasKeys (put_chunk p)
unfolding put_chunk
put_chunk-keeps p = Preserves-total _ λ now t h. record {
  videos_key = h.videos_key;
  chunks_key =
      Distinct-replace same_chunk (chunk_row p now) t.chunks (same_chunk_comm (chunk_row p now))
        h.chunks_key;
  replicas_key = h.replicas_key;
  nodes_key = h.nodes_key;
  consensus_key = h.consensus_key;
  fragments_key = h.fragments_key;
  stats_key = h.stats_key;
}

put_replica-keeps :
    (chunk_id : String) (ballot : ℕ) (url : String)
    → Preserves HasKeys (put_replica chunk_id ballot url)
unfolding put_replica
put_replica-keeps chunk_id ballot url = Preserves-total _ λ now t h. record {
  videos_key = h.videos_key;
  chunks_key = h.chunks_key;
  replicas_key =
      Distinct-replace same_replica (replica_row chunk_id ballot url now) t.chunk_replicas
        (same_replica_comm (replica_row chunk_id ballot url now)) h.replicas_key;
  nodes_key = h.nodes_key;
  consensus_key = h.consensus_key;
  fragments_key = h.fragments_key;
  stats_key = h.stats_key;
}

put_fragment-keeps :
    (frag : FragmentMetadata) (url : String) → Preserves HasKeys (put_fragment frag url)
unfolding put_fragment
put_fragment-keeps frag url = Preserves-total _ λ now t h. record {
  videos_key = h.videos_key;
  chunks_key = h.chunks_key;
  replicas_key = h.replicas_key;
  nodes_key = h.nodes_key;
  consensus_key = h.consensus_key;
  fragments_key =
      Distinct-replace same_fragment (fragment_row frag url now) t.chunk_fragments
        (same_fragment_comm (fragment_row frag url now)) h.fragments_key;
  stats_key = h.stats_key;
}

put_total-keeps : (video_id : String) → Preserves HasKeys (put_total video_id)
unfolding put_total same_video
put_total-keeps video_id = Preserves-total _ λ now t h. record {
  videos_key = Distinct-update same_video _ _ t.videos (λ x y. refl) (λ x y. refl) h.videos_key;
  chunks_key = h.chunks_key;
  replicas_key = h.replicas_key;
  nodes_key = h.nodes_key;
  consensus_key = h.consensus_key;
  fragments_key = h.fragments_key;
  stats_key = h.stats_key;
}

delete_replicas-keeps :
    (chunk_id : String) (ballot : ℕ) → Preserves HasKeys (delete_replicas chunk_id ballot)
unfolding delete_replicas
delete_replicas-keeps chunk_id ballot = Preserves-total _ λ now t h. record {
  videos_key = h.videos_key;
  chunks_key = h.chunks_key;
  replicas_key = Distinct-delete same_replica _ t.chunk_replicas h.replicas_key;
  nodes_key = h.nodes_key;
  consensus_key = h.consensus_key;
  fragments_key = h.fragments_key;
  stats_key = h.stats_key;
}

delete_fragments-keeps : (chunk_id : String) → Preserves HasKeys (delete_fragments chunk_id)
unfolding delete_fragments
delete_fragments-keeps chunk_id = Preserves-total _ λ now t h. record {
  videos_key = h.videos_key;
  chunks_key = h.chunks_key;
  replicas_key = h.replicas_key;
  nodes_key = h.nodes_key;
  consensus_key = h.consensus_key;
  fragments_key = Distinct-delete same_fragment _ t.chunk_fragments h.fragments_key;
  stats_key = h.stats_key;
}

reset_state-keeps : (chunk_id : String) → Preserves HasKeys (reset_state chunk_id)
unfolding reset_state same_consensus
reset_state-keeps chunk_id = Preserves-total _ λ now t h. record {
  videos_key = h.videos_key;
  chunks_key = h.chunks_key;
  replicas_key = h.replicas_key;
  nodes_key = h.nodes_key;
  consensus_key =
      Distinct-update same_consensus _ _ t.consensus_state (λ x y. refl) (λ x y. refl)
        h.consensus_key;
  fragments_key = h.fragments_key;
  stats_key = h.stats_key;
}

-- However the nodes reply and whichever statements raise, a proposal leaves every key of the
-- schema a key of the rows, of those that the connection sees and of those that are committed.
pub propose-HasKeys :
    (nodes : Nodes) (p : Proposal) (s : Paxos) (a : Answer)
    → Holds HasKeys s.conn
    → propose_chunk_placement nodes p s ≡ some a
    → Holds HasKeys a.1.conn
propose-HasKeys nodes p s a h e =
    propose-keeps
      (record {
        state = put_state-keeps p.chunk_id;
        chunk = put_chunk-keeps p;
        replica = put_replica-keeps p.chunk_id;
        fragment = put_fragment-keeps;
        total = put_total-keeps p.video_id;
        no_replicas = delete_replicas-keeps p.chunk_id;
        no_fragments = delete_fragments-keeps p.chunk_id;
        reset = reset_state-keeps p.chunk_id;
      })
      nodes s a e h
