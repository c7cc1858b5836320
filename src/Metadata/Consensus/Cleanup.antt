-- ===== src/Metadata/Consensus/Cleanup.antt =====
-- What the clean-up after a failed commit phase leaves behind.
use vstack.Prelude.{
  ℕ, ◌≡◌, refl, String, Bool, true, false, ◌&&◌, List, [], ◌∷◌, any, ◌==◌, number_key, text_key,
  eq_refl, arith,
}
use vstack.Prelude.Table.{select, delete, any-replace_new}
use vstack.Metadata.Tables.{ChunkRow, ReplicaRow, same_chunk}
use vstack.Metadata.Connection.{
  Conn, operational_error, raised, ◌>>=◌, execute, commit, for_each, or_else,
}
use vstack.Metadata.Consensus.{
  Proposal, put_chunk, put_replica, put_placement, commit_phase, fragments_of,
  cleanup_failed_consensus, delete_replicas, delete_fragments, reset_state, chunk_row,
}

-- No row is left of those that a deletion picks.
select-delete_self {ℓ} : {R : Type ℓ} (p : R → Bool) (rows : List R) → select p (delete p rows) ≡ []
unfolding select delete
select-delete_self p [] = refl
select-delete_self p (r ∷ rows) = ground (arith, select-delete_self p rows)

-- The connection's next statement succeeds, the one after it raises, and no later one does.
abbrev pub second_raises : Conn → Conn
second_raises c = record c { faults = false ∷ true ∷ [] }

abbrev pub chunk_of : Proposal → ChunkRow → Bool
chunk_of p r =
    r.chunk_id == p.chunk_id && (r.video_id == p.video_id && r.sequence_num == p.sequence_num)

abbrev pub replica_under : Proposal → ℕ → ReplicaRow → Bool
replica_under p ballot r = r.chunk_id == p.chunk_id && r.ballot_number == ballot

-- The insertion of the first replica raises, after the row of the chunk was written. The clean-up
-- removes the replicas, but it commits the row of the chunk with them gone: the chunk is durable
-- with no replica under the ballot.
pub failed_commit_keeps_chunk :
    (p : Proposal) (url : String) (accepted : List String) (ballot : ℕ) (c : Conn)
    → fragments_of p.redundancy_mode p.fragments_metadata ≡ []
    → let (r, c₁) = commit_phase p (url ∷ accepted) ballot (second_raises c) in
      let (_, c₂) = cleanup_failed_consensus p.chunk_id ballot c₁ in
      (r ≡ raised operational_error)
      × (any (chunk_of p) c₂.durable.chunks ≡ true)
      × (select (replica_under p ballot) c₂.durable.chunk_replicas ≡ [])
unfolding commit_phase cleanup_failed_consensus execute commit ◌>>=◌ for_each or_else put_placement
    put_chunk put_replica delete_replicas delete_fragments reset_state
failed_commit_keeps_chunk p url accepted ballot c none_left =
    rw (none_left, put_placement)
      (
        refl,
        any-replace_new (chunk_of p) same_chunk (chunk_row p c.now) c.working.chunks
            (ground (arith, eq_refl p.chunk_id, eq_refl p.video_id, eq_refl p.sequence_num)),
        select-delete_self (replica_under p ballot) c.working.chunk_replicas,
      )
