-- ===== src/Metadata/Consensus/Frame.antt =====
-- metadata-service/consensus.py: what a proposal does to the rows of other chunks.
use vstack.Prelude.{
  ℕ, String, Bool, not, ◌&&◌, Option, none, some, List, ◌≡◌, ◌≢◌, refl, ◌∙◌, ◌==◌, number_key,
  text_key, eq_iff, arith,
}
use vstack.Prelude.Table.{select, select-replace, select-delete, select-update}
use vstack.Metadata.Tables.{
  Tables, ChunkRow, ReplicaRow, ConsensusRow, ConsensusPhase, not_started, same_chunk, same_replica,
  same_consensus,
}
use vstack.Metadata.Connection.Keeps.{Preserves, Preserves-total}
use vstack.Metadata.Consensus.{
  Nodes, Proposal, Paxos, Answer, put_state, put_chunk, put_replica, put_fragment, put_total,
  delete_replicas, delete_fragments, reset_state, propose_chunk_placement, chunk_row, replica_row,
  consensus_row,
}
use vstack.Metadata.Consensus.Steps.{StatementsKeep, propose-keeps}

abbrev pub replicas_of : String → Tables → List ReplicaRow
replicas_of chunk_id t = select (λ r. r.chunk_id == chunk_id) t.chunk_replicas

abbrev pub state_of : String → Tables → List ConsensusRow
state_of chunk_id t = select (λ r. r.chunk_id == chunk_id) t.consensus_state

abbrev pub is_elsewhere : String → Proposal → ChunkRow → Bool
is_elsewhere chunk_id p r =
    r.chunk_id == chunk_id && not (r.video_id == p.video_id && r.sequence_num == p.sequence_num)

-- The rows of a chunk that do not stand at the proposal's place in its video.
abbrev pub chunks_elsewhere : String → Proposal → Tables → List ChunkRow
chunks_elsewhere chunk_id p t = select (is_elsewhere chunk_id p) t.chunks

pub record SameRows (chunk_id : String) (p : Proposal) (t t' : Tables) : Type 0 where
  pub replicas : replicas_of chunk_id t' ≡ replicas_of chunk_id t
  pub state : state_of chunk_id t' ≡ state_of chunk_id t
  pub chunks : chunks_elsewhere chunk_id p t' ≡ chunks_elsewhere chunk_id p t

module _ (other : String) (p : Proposal) (ne : other ≢ p.chunk_id) (t₀ : Tables) where
  put_state-same :
      (ballot : ℕ) (value : Option (List String)) (phase : ConsensusPhase)
      → Preserves (SameRows other p t₀) (put_state p.chunk_id ballot value phase)
  unfolding put_state same_consensus
  put_state-same ballot value phase = Preserves-total _ λ now t h. record {
    replicas = h.replicas;
    state =
        select-replace (λ r. r.chunk_id == other) same_consensus
          (consensus_row p.chunk_id ballot value phase) t.consensus_state
          (ground (arith, eq_iff p.chunk_id other))
          (λ x q. ground (arith, eq_iff x.chunk_id other, eq_iff p.chunk_id x.chunk_id))
        ∙ h.state;
    chunks = h.chunks;
  }

  put_chunk-same : Preserves (SameRows other p t₀) (put_chunk p)
  unfolding put_chunk same_chunk
  put_chunk-same = Preserves-total _ λ now t h. record {
    replicas = h.replicas;
    state = h.state;
    chunks =
        select-replace (is_elsewhere other p) same_chunk (chunk_row p now) t.chunks
          (ground (arith, eq_iff p.chunk_id other))
          (λ x q. ground (
            arith,
            eq_iff x.chunk_id other,
            eq_iff p.chunk_id x.chunk_id,
            eq_iff p.video_id x.video_id,
            eq_iff x.video_id p.video_id,
          ))
        ∙ h.chunks;
  }

  put_replica-same :
      (ballot : ℕ) (url : String)
      → Preserves (SameRows other p t₀) (put_replica p.chunk_id ballot url)
  unfolding put_replica same_replica
  put_replica-same ballot url = Preserves-total _ λ now t h. record {
    replicas =
        select-replace (λ r. r.chunk_id == other) same_replica
          (replica_row p.chunk_id ballot url now) t.chunk_replicas
          (ground (arith, eq_iff p.chunk_id other))
          (λ x q. ground (arith, eq_iff x.chunk_id other, eq_iff p.chunk_id x.chunk_id))
        ∙ h.replicas;
    state = h.state;
    chunks = h.chunks;
  }

  delete_replicas-same :
      (ballot : ℕ) → Preserves (SameRows other p t₀) (delete_replicas p.chunk_id ballot)
  unfolding delete_replicas
  delete_replicas-same ballot = Preserves-total _ λ now t h. record {
    replicas =
        select-delete (λ r. r.chunk_id == other)
          (λ r. r.chunk_id == p.chunk_id && r.ballot_number == ballot) t.chunk_replicas
          (λ x q. ground (arith, eq_iff x.chunk_id other, eq_iff x.chunk_id p.chunk_id))
        ∙ h.replicas;
    state = h.state;
    chunks = h.chunks;
  }

  reset_state-same : Preserves (SameRows other p t₀) (reset_state p.chunk_id)
  unfolding reset_state
  reset_state-same = Preserves-total _ λ now t h. record {
    replicas = h.replicas;
    state =
        select-update (λ r. r.chunk_id == other) (λ r. r.chunk_id == p.chunk_id)
          (λ r. record r { phase = not_started; accepted_value = none }) t.consensus_state
          (λ x q. ground (arith, eq_iff x.chunk_id other, eq_iff x.chunk_id p.chunk_id))
          (λ x q. ground (arith, eq_iff x.chunk_id other, eq_iff x.chunk_id p.chunk_id))
        ∙ h.state;
    chunks = h.chunks;
  }

  -- The statements that touch none of the three tables.
  statements-same : StatementsKeep (SameRows other p t₀) p
  unfolding put_fragment put_total delete_fragments
  statements-same = record {
    state = put_state-same;
    chunk = put_chunk-same;
    replica = put_replica-same;
    fragment = λ frag url.
        Preserves-total _
          λ now t h. record { replicas = h.replicas; state = h.state; chunks = h.chunks };
    total =
        Preserves-total _
          λ now t h. record { replicas = h.replicas; state = h.state; chunks = h.chunks };
    no_replicas = delete_replicas-same;
    no_fragments =
        Preserves-total _
          λ now t h. record { replicas = h.replicas; state = h.state; chunks = h.chunks };
    reset = reset_state-same;
  }

-- Take another chunk whose rows are committed. A proposal, however the nodes reply and whichever
-- statements raise, leaves its replicas and its consensus state as they are, and its rows among
-- the chunks but for one that stands at the proposal's place in the same video: both those that
-- the connection sees and those that are committed.
pub propose-SameRows :
    (nodes : Nodes) (p : Proposal) (s : Paxos) (a : Answer) (other : String)
    → other ≢ p.chunk_id
    → SameRows other p s.conn.working s.conn.durable
    → propose_chunk_placement nodes p s ≡ some a
    → SameRows other p s.conn.working a.1.conn.working
      × SameRows other p s.conn.working a.1.conn.durable
propose-SameRows nodes p s a other ne committed e =
    propose-keeps (statements-same other p ne s.conn.working) nodes s a e
      (record { replicas = refl; state = refl; chunks = refl }, committed)
