-- ===== src/Metadata/Consensus/Outcome.antt =====
-- What a successful proposal has written.
use mathlib.Core.Path.{subst}
use vstack.Prelude.{
  ℕ, ◌≡◌, refl, sym, String, Bool, true, false, ◌&&◌, some, List, [], ◌∷◌, any, All, ◌==◌,
  number_key, text_key, eq_iff, eq_refl, arith, Bool-cases, inl, inr,
}
use vstack.Prelude.Table.{select, update, any-replace_new, any-replace_old, select-replace_self}
use vstack.Metadata.Tables.{Tables, ReplicaRow, VideoRow, committed, same_replica, same_consensus}
use vstack.Metadata.Connection.{execute, for_each}
use vstack.Metadata.Connection.Keeps.{
  Preserves, Preserves-total, Keeps-execute, Keeps-for_each, keeps_rules,
}
use vstack.Metadata.Connection.Reaches.{
  some_inj, Reaches, Reaches-then, Reaches-later, Reaches-execute, Commits, commits_rules,
}
use vstack.Metadata.Database.{FragmentMetadata, is_active}
use vstack.Metadata.Consensus.{
  Proposal, put_state, put_chunk, put_replica, put_total, put_placement, commit_phase, fragments_of,
  replica_row, consensus_row, chunk_count,
}
use vstack.Metadata.Consensus.Frame.{state_of}
use vstack.Metadata.Consensus.Quorum.{contains}

module _ (p : Proposal) (accepted : List String) (ballot : ℕ) where
  -- The tables hold an active replica of the chunk on the node, under the ballot.
  abbrev pub replica_on : String → ReplicaRow → Bool
  replica_on url r =
      (r.chunk_id == p.chunk_id && r.node_url == url)
      && (is_active r.status && r.ballot_number == ballot)

  abbrev pub HasReplica : String → Tables → Type 0
  HasReplica url t = any (replica_on url) t.chunk_replicas ≡ true

  put_replica-Reaches :
      (url : String) → Reaches (HasReplica url) (execute (put_replica p.chunk_id ballot url))
  unfolding put_replica
  put_replica-Reaches url = Reaches-execute _ λ now t t' e. ground (
    arith,
    any-replace_new (replica_on url) same_replica (replica_row p.chunk_id ballot url now)
        t.chunk_replicas,
    eq_refl p.chunk_id,
    eq_refl url,
    eq_refl ballot,
  )

  put_replica-keeps :
      (url url' : String) → Preserves (HasReplica url) (put_replica p.chunk_id ballot url')
  unfolding put_replica same_replica
  put_replica-keeps url url' = Preserves-total _ λ now t h. elim (Bool-cases (url' == url)) [
    | inl same ↦
        any-replace_new (replica_on url) same_replica (replica_row p.chunk_id ballot url' now)
          t.chunk_replicas (ground (arith, eq_refl p.chunk_id, eq_refl ballot))
    | inr other ↦
        any-replace_old (replica_on url) same_replica (replica_row p.chunk_id ballot url' now)
          t.chunk_replicas
          (λ x q. ground (arith, eq_iff x.node_url url, eq_iff url' x.node_url, eq_iff url' url)) h
  ]

  for_each-Reaches :
      (url : String) (urls : List String)
      → contains url urls ≡ true
      → Reaches (HasReplica url) (for_each (λ u. execute (put_replica p.chunk_id ballot u)) urls)
  unfolding for_each
  for_each-Reaches url [] h = absurd (no h)
    where
      no : ◌≡◌ {A = Bool} false true → ⊥
      no e = cc
  for_each-Reaches url (u ∷ urls) h = elim (Bool-cases (u == url)) [
    | inl here ↦
        Reaches-then (execute (put_replica p.chunk_id ballot u)) _
          (subst (λ v. Reaches (HasReplica url) (execute (put_replica p.chunk_id ballot v)))
            (sym ((eq_iff u url).0 here)) (put_replica-Reaches url))
          (λ _. Keeps-for_each _ urls λ v. Keeps-execute _ (put_replica-keeps url v))
    | inr there ↦
        Reaches-later (execute (put_replica p.chunk_id ballot u)) _
          (λ _. for_each-Reaches url urls (ground arith))
  ]

  -- Statements on other tables.
  put_total-replica : (url : String) → Preserves (HasReplica url) (put_total p.video_id)
  unfolding put_total
  put_total-replica url = Preserves-total _ λ now t h. h

  put_state-replica :
      (url : String)
      → Preserves (HasReplica url) (put_state p.chunk_id ballot (some accepted) committed)
  unfolding put_state
  put_state-replica url = Preserves-total _ λ now t h. h

  placement-Reaches :
      (url : String) (frags : List FragmentMetadata)
      → frags ≡ []
      → contains url accepted ≡ true
      → Reaches (HasReplica url) (put_placement frags p.chunk_id ballot accepted)
  unfolding put_placement
  placement-Reaches url [] none_left h = for_each-Reaches url accepted h
  placement-Reaches url (frag ∷ frags) none_left h = absurd (cons≢nil none_left)
    where
      cons≢nil : ◌≡◌ {A = List FragmentMetadata} (frag ∷ frags) [] → ⊥
      cons≢nil e = cc

  pub commit_phase-replica :
      (url : String)
      → fragments_of p.redundancy_mode p.fragments_metadata ≡ []
      → contains url accepted ≡ true
      → Reaches (HasReplica url) (commit_phase p accepted ballot)
  unfolding commit_phase
  commit_phase-replica url none_left h = Reaches-later (execute (put_chunk p)) _ λ _.
      Reaches-then
        (put_placement (fragments_of p.redundancy_mode p.fragments_metadata) p.chunk_id ballot
          accepted)
        _ (placement-Reaches url _ none_left h)
        λ _. search (keeps_rules, put_total-replica url, put_state-replica url)

  -- The consensus state of the chunk: one row, which says what was agreed.
  abbrev pub HasState : Tables → Type 0
  HasState t =
      state_of p.chunk_id t ≡ consensus_row p.chunk_id ballot (some accepted) committed ∷ []

  put_state-Reaches :
      Reaches HasState (execute (put_state p.chunk_id ballot (some accepted) committed))
  unfolding put_state same_consensus
  put_state-Reaches = Reaches-execute _ λ now t t' e. ground (
    arith,
    select-replace_self (λ r. r.chunk_id == p.chunk_id) same_consensus
        (consensus_row p.chunk_id ballot (some accepted) committed) t.consensus_state
        (eq_refl p.chunk_id)
        (λ x q. ground (arith, eq_iff x.chunk_id p.chunk_id, eq_iff p.chunk_id x.chunk_id)),
  )

  pub commit_phase-state : Reaches HasState (commit_phase p accepted ballot)
  unfolding commit_phase
  commit_phase-state = Reaches-later (execute (put_chunk p)) _ λ _.
      Reaches-later
        (put_placement (fragments_of p.redundancy_mode p.fragments_metadata) p.chunk_id ballot
          accepted)
        _
        λ _. Reaches-later (execute (put_total p.video_id)) _ λ _.
          Reaches-then (execute (put_state p.chunk_id ballot (some accepted) committed)) _
            put_state-Reaches (λ _. search keeps_rules)

  -- Every row of the proposal's video shows as many chunks as the chunks table has for it.
  abbrev pub HasTotal : Tables → Type 0
  HasTotal t =
      All (λ v. v.total_chunks ≡ chunk_count p.video_id t)
        (select (λ v. v.video_id == p.video_id) t.videos)

  update-total :
      (n : ℕ) (rows : List VideoRow)
      → All
          (λ v. v.total_chunks ≡ n)
          (select
            (λ v. v.video_id == p.video_id)
            (update (λ v. v.video_id == p.video_id) (λ v. record v { total_chunks = n }) rows))
  unfolding update select
  update-total n [] = tt
  update-total n (v ∷ rows) = elim (Bool-cases (v.video_id == p.video_id)) [
    | inl ours ↦ rw (ours, ours) (refl, update-total n rows)
    | inr other ↦ rw (other, other) (update-total n rows)
  ]

  put_total-Reaches : Reaches HasTotal (execute (put_total p.video_id))
  unfolding put_total chunk_count
  put_total-Reaches = Reaches-execute _ λ now t t' e.
      subst HasTotal (some_inj _ t' e) (update-total (chunk_count p.video_id t) t.videos)

  put_state-total : Preserves HasTotal (put_state p.chunk_id ballot (some accepted) committed)
  unfolding put_state chunk_count
  put_state-total = Preserves-total _ λ now t h. h

  pub commit_phase-total : Reaches HasTotal (commit_phase p accepted ballot)
  unfolding commit_phase
  commit_phase-total = Reaches-later (execute (put_chunk p)) _ λ _.
      Reaches-later
        (put_placement (fragments_of p.redundancy_mode p.fragments_metadata) p.chunk_id ballot
          accepted)
        _
        λ _.
          Reaches-then (execute (put_total p.video_id)) _ put_total-Reaches
            λ _. search (keeps_rules, put_state-total)

  pub commit_phase-Commits : Commits (commit_phase p accepted ballot)
  unfolding commit_phase
  commit_phase-Commits = search commits_rules
