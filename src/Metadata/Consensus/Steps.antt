-- ===== src/Metadata/Consensus/Steps.antt =====
-- metadata-service/consensus.py: properties of the rows, from the statements of a proposal to the
-- whole of it.
use vstack.Prelude.{
  ℕ, zero, suc, ◌+◌, String, Bool, true, false, Option, none, some, List, [], ◌∷◌, ◌≡◌, length, ltb,
  ◌==◌, number_key, if◌then◌else◌, Bool-cases, inl, inr,
}
use mathlib.Core.Path.{subst}
use vstack.Metadata.Tables.{Tables, ConsensusPhase, prepare, accept, committed}
use vstack.Metadata.Connection.{Conn, execute}
use vstack.Metadata.Connection.Keeps.{
  Keeps, Maintains, Preserves, Holds, Keeps-pure, Keeps-raise, Keeps-bind, Keeps-execute,
  Keeps-for_each, keeps_rules,
}
use vstack.Metadata.Database.{FragmentMetadata, node_of}
use vstack.Metadata.Consensus.{
  Nodes, Proposal, put_state, update_consensus_state, prepare_phase, accept_phase, put_chunk,
  put_fragment, put_replica, put_total, fragments_of, commit_fragment, put_placement, commit_phase,
  delete_replicas, delete_fragments, reset_state, cleanup_failed_consensus, Turn, done, retry,
  failing, turn_of_commit, quorum_size, too_few, turn, handle_error, Paxos, Answer, give_up,
  conclude, attempts, generate_ballot_number, propose_chunk_placement,
}

-- Each statement of a proposal keeps the property.
pub record StatementsKeep (P : Tables → Type 0) (p : Proposal) : Type 0 where
  pub state :
      (ballot : ℕ) (value : Option (List String)) (phase : ConsensusPhase)
      → Preserves P (put_state p.chunk_id ballot value phase)
  pub chunk : Preserves P (put_chunk p)
  pub replica : (ballot : ℕ) (url : String) → Preserves P (put_replica p.chunk_id ballot url)
  pub fragment : (frag : FragmentMetadata) (url : String) → Preserves P (put_fragment frag url)
  pub total : Preserves P (put_total p.video_id)
  pub no_replicas : (ballot : ℕ) → Preserves P (delete_replicas p.chunk_id ballot)
  pub no_fragments : Preserves P (delete_fragments p.chunk_id)
  pub reset : Preserves P (reset_state p.chunk_id)

pick :
    (P : Tables → Type 0) (x y z : Turn × Conn) (b b' : Bool)
    → Holds P x.1
    → Holds P y.1
    → Holds P z.1
    → Holds P (if b then x else if b' then y else z).1
pick P x y z true b' hx hy hz = hx
pick P x y z false true hx hy hz = hy
pick P x y z false false hx hy hz = hz

some_inj : (a b : Answer) → some a ≡ some b → a ≡ b
some_inj a b e = cc

none≢some : (a : Answer) → none ≡ some a → ⊥
none≢some a e = cc

-- A proposal that names a node is the loop of three attempts.
pub propose-eq-attempts :
    (nodes : Nodes) (p : Proposal) (s : Paxos) (a : Answer)
    → propose_chunk_placement nodes p s ≡ some a
    → attempts nodes p 3 0 s ≡ a
unfolding propose_chunk_placement
propose-eq-attempts nodes p s a e = go (length p.node_urls == 0) e
  where
    go :
        (b : Bool)
        → (if b then none else some (attempts nodes p 3 0 s)) ≡ some a
        → attempts nodes p 3 0 s ≡ a
    go true q = absurd (none≢some a q)
    go false q = some_inj (attempts nodes p 3 0 s) a q

module _ {P : Tables → Type 0} {p : Proposal} (k : StatementsKeep P p) where
  update_consensus_state-keeps :
      (ballot : ℕ) (value : Option (List String)) (phase : ConsensusPhase)
      → Maintains P (update_consensus_state p.chunk_id ballot value phase)
  unfolding update_consensus_state
  update_consensus_state-keeps ballot value phase = search (keeps_rules, k.state ballot value phase)

  prepare_phase-keeps :
      (nodes : Nodes) (attempt ballot : ℕ) → Maintains P (prepare_phase nodes attempt p ballot)
  unfolding prepare_phase
  prepare_phase-keeps nodes attempt ballot = record {
    always = (update_consensus_state-keeps ballot none prepare).always;
  }

  accept_phase-keeps :
      (nodes : Nodes) (attempt : ℕ) (prepared : List String) (ballot : ℕ)
      → Maintains P (accept_phase nodes attempt p prepared ballot)
  unfolding accept_phase
  accept_phase-keeps nodes attempt prepared ballot = record {
    always = (update_consensus_state-keeps ballot (some prepared) accept).always;
  }

  node_of-Keeps : (o : Option String) → Keeps P (node_of o)
  unfolding node_of
  node_of-Keeps none = Keeps-raise _
  node_of-Keeps (some url) = Keeps-pure url

  commit_fragment-Keeps : (frag : FragmentMetadata) → Keeps P (commit_fragment frag)
  unfolding commit_fragment
  commit_fragment-Keeps frag =
      Keeps-bind (node_of frag.node_url) _ (node_of-Keeps frag.node_url)
        λ url. Keeps-execute _ (k.fragment frag url)

  pub put_placement-Keeps :
      (frags : List FragmentMetadata) (ballot : ℕ) (accepted : List String)
      → Keeps P (put_placement frags p.chunk_id ballot accepted)
  unfolding put_placement
  put_placement-Keeps [] ballot accepted =
      Keeps-for_each _ accepted λ url. Keeps-execute _ (k.replica ballot url)
  put_placement-Keeps (frag ∷ frags) ballot accepted =
      Keeps-for_each _ (frag ∷ frags) commit_fragment-Keeps

  pub commit_phase-Keeps :
      (accepted : List String) (ballot : ℕ) → Keeps P (commit_phase p accepted ballot)
  unfolding commit_phase
  commit_phase-Keeps accepted ballot =
      Keeps-bind (execute (put_chunk p)) _ (Keeps-execute _ k.chunk) λ _.
        Keeps-bind
          (put_placement (fragments_of p.redundancy_mode p.fragments_metadata) p.chunk_id ballot
            accepted)
          _
          (put_placement-Keeps (fragments_of p.redundancy_mode p.fragments_metadata) ballot
            accepted)
          λ _. search (keeps_rules, k.total, k.state ballot (some accepted) committed)

  pub cleanup_failed_consensus-keeps :
      (ballot : ℕ) → Maintains P (cleanup_failed_consensus p.chunk_id ballot)
  unfolding cleanup_failed_consensus
  cleanup_failed_consensus-keeps ballot =
      search (keeps_rules, k.no_replicas ballot, k.no_fragments, k.reset) depth 9

  turn-keeps : (nodes : Nodes) (attempt ballot : ℕ) → Maintains P (turn nodes attempt p ballot)
  unfolding turn
  turn-keeps nodes attempt ballot = record {
    always = λ c h.
        let (prepared, c₁) = prepare_phase nodes attempt p ballot c in
        let (accepted, c₂) = accept_phase nodes attempt p prepared ballot c₁ in
        let (r, c₃) = commit_phase p accepted ballot c₂ in
        let h₁ = (prepare_phase-keeps nodes attempt ballot).always c h in
        let h₂ = (accept_phase-keeps nodes attempt prepared ballot).always c₁ h₁ in
        pick P (too_few attempt, c₁) (too_few attempt, c₂) (turn_of_commit accepted r, c₃)
          (ltb (length prepared) (quorum_size p.node_urls))
          (ltb (length accepted) (quorum_size p.node_urls)) h₁ h₂
          ((commit_phase-Keeps accepted ballot).at c₂ h₂);
  }

  -- The answer's rows have the property.
  abbrev AnswerHolds : Answer → Type 0
  AnswerHolds (r, s) = Holds P s.conn

  give_up-keeps : (ballot : ℕ) (s : Paxos) → Holds P s.conn → AnswerHolds (give_up p ballot s)
  unfolding give_up
  give_up-keeps ballot s h = (cleanup_failed_consensus-keeps ballot).always s.conn h

  conclude-keeps :
      (attempt ballot : ℕ) (again : Paxos → Answer) (t : Turn) (s : Paxos)
      → ((s' : Paxos) → Holds P s'.conn → AnswerHolds (again s'))
      → Holds P s.conn
      → AnswerHolds (conclude attempt p ballot again t s)
  unfolding conclude
  conclude-keeps attempt ballot again (done accepted) s more h = h
  conclude-keeps attempt ballot again retry s more h = more s h
  conclude-keeps attempt ballot again (failing e) s more h =
      elim (Bool-cases (handle_error attempt e)) [
        | inl another ↦ rw another (more s h)
        | inr last ↦ rw last (give_up-keeps ballot s h)
      ]

  attempts-keeps :
      (nodes : Nodes) (left attempt : ℕ) (s : Paxos)
      → Holds P s.conn
      → AnswerHolds (attempts nodes p left attempt s)
  unfolding attempts
  attempts-keeps nodes zero attempt s h = h
  attempts-keeps nodes (suc left) attempt s h =
      let (ballot, counter) = generate_ballot_number (nodes.millis attempt) s.ballot_counter in
      let (t, c) = turn nodes attempt p ballot s.conn in
      conclude-keeps attempt ballot _ t (record { conn = c; ballot_counter = counter })
        (λ s' h'. attempts-keeps nodes left (attempt + 1) s' h')
        ((turn-keeps nodes attempt ballot).always s.conn h)

  pub propose-keeps :
      (nodes : Nodes) (s : Paxos) (a : Answer)
      → propose_chunk_placement nodes p s ≡ some a
      → Holds P s.conn
      → AnswerHolds a
  propose-keeps nodes s a e h =
      subst AnswerHolds (propose-eq-attempts nodes p s a e) (attempts-keeps nodes 3 0 s h)
