-- ===== src/Metadata/Consensus/Recorded.antt =====
-- metadata-service/consensus.py: the rows after a successful proposal.
use mathlib.Core.Path.{subst}
use vstack.Prelude.{
  All, ◌∷◌, text_key, eq_refl, arith, ℕ, zero, suc, ◌+◌, ◌≡◌, refl, sym, String, Bool, true, false,
  some, List, [], length, ltb, number_key, if◌then◌else◌, Bool-cases, inl, inr,
}
use vstack.Metadata.Connection.{Conn, Error, Result, ok, raised}
use vstack.Metadata.Database.{FragmentMetadata}
use vstack.Metadata.Consensus.{
  Nodes, Proposal, prepare_phase, accept_phase, commit_phase, fragments_of, Turn, done, retry,
  failing, turn_of_commit, quorum_size, too_few, turn, handle_error, Paxos, Answer, give_up,
  conclude, attempts, generate_ballot_number, propose_chunk_placement,
}
use vstack.Metadata.Consensus.Steps.{propose-eq-attempts}
use vstack.Metadata.Consensus.Quorum.{contains, too_few-ne_done}
use vstack.Metadata.Consensus.StoredChunk.{HasChunk, commit_phase-chunk}
use vstack.Metadata.Consensus.Outcome.{
  HasReplica, HasState, HasTotal, commit_phase-replica, commit_phase-state, commit_phase-total,
  commit_phase-Commits,
}

-- The connection is what a commit phase for these nodes left when it returned.
record IsCommit (p : Proposal) (accepted : List String) (c : Conn) : Type 0 where
  ballot : ℕ
  before : Conn
  returned : (commit_phase p accepted ballot before).0 ≡ ok tt
  left : c ≡ (commit_phase p accepted ballot before).1

turn_of_commit-ok :
    (accepted found : List String) (r : Result (Unit {0}))
    → turn_of_commit accepted r ≡ done found
    → (r ≡ ok tt) × (found ≡ accepted)
unfolding turn_of_commit
turn_of_commit-ok accepted found (ok u) e = (refl, cc)
turn_of_commit-ok accepted found (raised x) e = absurd (never x e)
  where
    never : (x : Error) → failing x ≡ done found → ⊥
    never x q = cc

turn_cases :
    (attempt : ℕ) (accepted found : List String) (r : Result (Unit {0})) (b b' : Bool)
    (c₁ c₂ c₃ : Conn)
    → let t =
        if◌then◌else◌ {A = Turn × Conn} b
          (too_few attempt, c₁)
          (if b' then (too_few attempt, c₂) else (turn_of_commit accepted r, c₃)) in
      t.0 ≡ done found → (t.1 ≡ c₃) × (r ≡ ok tt) × (found ≡ accepted)
turn_cases attempt accepted found r true b' c₁ c₂ c₃ e = absurd (too_few-ne_done attempt found e)
turn_cases attempt accepted found r false true c₁ c₂ c₃ e = absurd (too_few-ne_done attempt found e)
turn_cases attempt accepted found r false false c₁ c₂ c₃ e =
    let (returned, same) = turn_of_commit-ok accepted found r e in (refl, returned, same)

module _ (nodes : Nodes) (p : Proposal) where
  turn-IsCommit :
      (attempt ballot : ℕ) (c : Conn) (found : List String)
      → (turn nodes attempt p ballot c).0 ≡ done found
      → IsCommit p found (turn nodes attempt p ballot c).1
  unfolding turn
  turn-IsCommit attempt ballot c found e =
      let (prepared, c₁) = prepare_phase nodes attempt p ballot c in
      let (accepted, c₂) = accept_phase nodes attempt p prepared ballot c₁ in
      let (r, c₃) = commit_phase p accepted ballot c₂ in
      let (left, returned, same) =
        turn_cases attempt accepted found r (ltb (length prepared) (quorum_size p.node_urls))
          (ltb (length accepted) (quorum_size p.node_urls)) c₁ c₂ c₃ e in
      record {
        ballot = ballot;
        before = c₂;
        returned = subst (λ a. (commit_phase p a ballot c₂).0 ≡ ok tt) (sym same) returned;
        left =
            subst (λ a. (turn nodes attempt p ballot c).1 ≡ (commit_phase p a ballot c₂).1)
              (sym same) left;
      }

  abbrev CommitsTo : Answer → Type 0
  CommitsTo ((success, accepted), s) = success ≡ true → IsCommit p accepted s.conn

  conclude-CommitsTo :
      (attempt ballot : ℕ) (again : Paxos → Answer) (t : Turn) (s : Paxos)
      → ((accepted : List String) → t ≡ done accepted → IsCommit p accepted s.conn)
      → ((s' : Paxos) → CommitsTo (again s'))
      → CommitsTo (conclude attempt p ballot again t s)
  unfolding conclude give_up
  conclude-CommitsTo attempt ballot again (done accepted) s now more = λ e. now accepted refl
  conclude-CommitsTo attempt ballot again retry s now more = more s
  conclude-CommitsTo attempt ballot again (failing x) s now more =
      elim (Bool-cases (handle_error attempt x)) [
        | inl another ↦ rw another (more s)
        | inr last ↦ rw last (λ e. cc)
      ]

  attempts-CommitsTo : (left attempt : ℕ) (s : Paxos) → CommitsTo (attempts nodes p left attempt s)
  unfolding attempts
  attempts-CommitsTo zero attempt s = λ e. cc
  attempts-CommitsTo (suc left) attempt s =
      let (ballot, counter) = generate_ballot_number (nodes.millis attempt) s.ballot_counter in
      let (t, c) = turn nodes attempt p ballot s.conn in
      conclude-CommitsTo attempt ballot _ t (record { conn = c; ballot_counter = counter })
        (λ accepted e. turn-IsCommit attempt ballot s.conn accepted e)
        (λ s'. attempts-CommitsTo left (attempt + 1) s')

-- The nodes that hold the chunk whole: all that accepted it, or none where its fragments are stored.
abbrev pub replica_urls : List FragmentMetadata → List String → List String
replica_urls [] accepted = accepted
replica_urls (frag ∷ frags) accepted = []

-- What is on disk for the chunk of a successful proposal.
pub record IsRecorded (p : Proposal) (accepted : List String) (c : Conn) : Type 0 where
  pub ballot : ℕ
  pub saved : c.durable ≡ c.working
  pub chunk : HasChunk p accepted ballot c.durable
  pub state : HasState p accepted ballot c.durable
  pub total : HasTotal p accepted ballot c.durable
  pub replicas :
      All
        (λ url. HasReplica p accepted ballot url c.durable)
        (replica_urls (fragments_of p.redundancy_mode p.fragments_metadata) accepted)

All-contains :
    (P : String → Type 0) (urls : List String)
    → ((url : String) → contains url urls ≡ true → P url)
    → All P urls
All-contains P [] h = tt
All-contains P (u ∷ urls) h = (
  h u (ground (arith, eq_refl u)),
  All-contains P urls (λ url there. h url (ground (arith, there))),
)

All-replica_urls :
    (P : String → Type 0) (frags : List FragmentMetadata) (urls : List String)
    → (frags ≡ [] → All P urls)
    → All P (replica_urls frags urls)
All-replica_urls P [] urls h = h refl
All-replica_urls P (frag ∷ frags) urls h = tt

recorded :
    (p : Proposal) (accepted : List String) (c : Conn)
    → IsCommit p accepted c
    → IsRecorded p accepted c
recorded p accepted c m = subst (IsRecorded p accepted) (sym m.left) (record {
  ballot = m.ballot;
  saved = saved;
  chunk =
      subst (HasChunk p accepted m.ballot) (sym saved)
        ((commit_phase-chunk p accepted m.ballot).return m.before tt m.returned);
  state =
      subst (HasState p accepted m.ballot) (sym saved)
        ((commit_phase-state p accepted m.ballot).return m.before tt m.returned);
  total =
      subst (HasTotal p accepted m.ballot) (sym saved)
        ((commit_phase-total p accepted m.ballot).return m.before tt m.returned);
  replicas =
      All-replica_urls _ (fragments_of p.redundancy_mode p.fragments_metadata) accepted
        (λ none_left. All-contains _ accepted (λ url there.
          subst (HasReplica p accepted m.ballot url) (sym saved) (
            (commit_phase-replica p accepted m.ballot url none_left there).return m.before tt
              m.returned)));
})
  where
    saved :
        (commit_phase p accepted m.ballot m.before).1.durable
        ≡ (commit_phase p accepted m.ballot m.before).1.working
    saved = (commit_phase-Commits p accepted m.ballot).saved m.before tt m.returned

-- Once a proposal has succeeded, whatever statements raised on the way, what the connection sees
-- is what is committed. There the chunk has a row as it was proposed, its consensus state is one
-- row that names the accepted nodes as committed, the rows of the proposal's video show the number
-- of chunks that the table has for it, and, where no fragments are stored in place of replicas,
-- every accepted node has an active replica under the ballot.
pub propose-IsRecorded :
    (nodes : Nodes) (p : Proposal) (s s' : Paxos) (accepted : List String)
    → propose_chunk_placement nodes p s ≡ some ((true, accepted), s')
    → IsRecorded p accepted s'.conn
propose-IsRecorded nodes p s s' accepted e = recorded p accepted s'.conn (
    subst (CommitsTo nodes p) (propose-eq-attempts nodes p s _ e) (attempts-CommitsTo nodes p 3 0 s)
      refl)
