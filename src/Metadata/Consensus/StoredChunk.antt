-- ===== src/Metadata/Consensus/StoredChunk.antt =====
-- The row of the chunk that a successful proposal has written.
use mathlib.Core.Path.{subst}
use vstack.Prelude.{
  Option, none, ℕ, ◌≡◌, refl, String, Bool, true, false, ◌&&◌, some, List, [], ◌∷◌, any, ◌==◌,
  number_key, text_key, eq_refl, arith,
}
use vstack.Prelude.Table.{any-replace_new}
use vstack.Metadata.Tables.{
  Tables, committed, same_chunk, Text, RedundancyMode, replication, erasure_coding,
}
use vstack.Metadata.Connection.{execute}
use vstack.Metadata.Connection.Keeps.{Keeps, Preserves, Preserves-total, keeps_rules}
use vstack.Metadata.Connection.Reaches.{some_inj, Reaches, Reaches-then, Reaches-execute}
use vstack.Metadata.Database.{FragmentMetadata, node_of}
use vstack.Metadata.Consensus.{
  Proposal, put_state, put_chunk, put_replica, put_total, put_placement, commit_phase, put_fragment,
  commit_fragment, same_text, chunk_row,
}

same_text_refl : (s : Text) → same_text s s ≡ true
unfolding same_text
same_text_refl [] = refl
same_text_refl (c ∷ s) = ground (arith, same_text_refl s)

-- Whether two modes are one.
pub same_mode : RedundancyMode → RedundancyMode → Bool
same_mode replication replication = true
same_mode erasure_coding erasure_coding = true
same_mode _ _ = false

same_mode_refl : (mode : RedundancyMode) → same_mode mode mode ≡ true
unfolding same_mode
same_mode_refl replication = refl
same_mode_refl erasure_coding = refl

module _ (p : Proposal) (accepted : List String) (ballot : ℕ) where
  -- The row of the chunk, as it was proposed.
  abbrev pub HasChunk : Tables → Type 0
  HasChunk t =
      any
        (λ r.
          (r.chunk_id == p.chunk_id
            && (r.video_id == p.video_id && r.sequence_num == p.sequence_num))
          && (r.size_bytes == p.size_bytes
              && (same_text r.checksum p.checksum
                  && same_mode r.redundancy_mode p.redundancy_mode)))
        t.chunks
      ≡ true

  put_chunk-Reaches : Reaches HasChunk (execute (put_chunk p))
  unfolding put_chunk
  put_chunk-Reaches = Reaches-execute _ λ now t t' e. subst HasChunk (some_inj _ t' e) (
      any-replace_new _ same_chunk (chunk_row p now) t.chunks (
        ground (
          arith,
          eq_refl p.chunk_id,
          eq_refl p.video_id,
          eq_refl p.sequence_num,
          eq_refl p.size_bytes,
          same_text_refl p.checksum,
          same_mode_refl p.redundancy_mode,
        )))

  put_replica-chunk : (url : String) → Preserves HasChunk (put_replica p.chunk_id ballot url)
  unfolding put_replica
  put_replica-chunk url = Preserves-total _ λ now t h. h

  put_fragment-chunk :
      (frag : FragmentMetadata) (url : String) → Preserves HasChunk (put_fragment frag url)
  unfolding put_fragment
  put_fragment-chunk frag url = Preserves-total _ λ now t h. h

  put_total-chunk : Preserves HasChunk (put_total p.video_id)
  unfolding put_total
  put_total-chunk = Preserves-total _ λ now t h. h

  put_state-chunk : Preserves HasChunk (put_state p.chunk_id ballot (some accepted) committed)
  unfolding put_state
  put_state-chunk = Preserves-total _ λ now t h. h

  node_of-chunk : (o : Option String) → Keeps HasChunk (node_of o)
  unfolding node_of
  node_of-chunk none = search keeps_rules
  node_of-chunk (some url) = search keeps_rules

  commit_fragment-chunk : (frag : FragmentMetadata) → Keeps HasChunk (commit_fragment frag)
  unfolding commit_fragment
  commit_fragment-chunk frag = search (keeps_rules, node_of-chunk, put_fragment-chunk)

  put_placement-chunk :
      (frags : List FragmentMetadata)
      → Keeps HasChunk (put_placement frags p.chunk_id ballot accepted)
  unfolding put_placement
  put_placement-chunk [] = search (keeps_rules, put_replica-chunk)
  put_placement-chunk (frag ∷ frags) = search (keeps_rules, commit_fragment-chunk)

  pub commit_phase-chunk : Reaches HasChunk (commit_phase p accepted ballot)
  unfolding commit_phase
  commit_phase-chunk =
      Reaches-then (execute (put_chunk p)) _ put_chunk-Reaches
        λ _. search (keeps_rules, put_placement-chunk, put_total-chunk, put_state-chunk)
