-- ===== src/Metadata/Consensus.antt =====
-- metadata-service/consensus.py, `ChunkPaxos`: agreement on the nodes that hold a chunk. The
-- storage nodes are the environment: `Nodes` gives the reply to each HEAD request, by the attempt
-- and the node's URL (a node that is named twice replies alike), and the clock in milliseconds at
-- which each attempt makes its ballot. The waiting between attempts changes nothing here.
mod Requests
mod Statements
pub mod Steps
pub mod Ballots
pub mod Keys
pub mod Replies
pub mod Quorum
pub mod Frame
pub mod Outcome
pub mod StoredChunk
pub mod Recorded
pub mod Cleanup
mod Tests
unfoldable pub use Requests.*
unfoldable pub use Statements.*
use vstack.Prelude.{
  ℕ, zero, suc, ◌+◌, ◌*◌, ◌/◌, ◌%◌, ◌^◌, String, Bool, true, false, not, ◌&&◌, Option, none, some,
  List, [], ◌∷◌, length, ltb, leb, keep, ◌==◌, number_key, text_key, nat_beq, if◌then◌else◌,
}
use mathlib.Core.List.{reverse}
use vstack.Prelude.Table.{delete, update, replace, select}
use vstack.Metadata.Tables.{
  Text, ReplicaStatus, ConsensusPhase, not_started, prepare, accept, committed, RedundancyMode,
  replication, erasure_coding, VideoRow, ChunkRow, ReplicaRow, ConsensusRow, FragmentRow, Tables,
  same_chunk, same_replica, same_consensus, same_fragment,
}
use vstack.Metadata.Connection.{
  Conn, Error, quorum_not_reached, ballot_conflict, Result, ok, raised, M, pure, raise, query,
  ◌>>=◌, ◌>>◌, Statement, execute, commit, for_each, or_else,
}
use vstack.Metadata.Database.{FragmentMetadata, fragment_row, node_of, is_erasure_coding}

pub record Nodes : Type 0 where
  pub on_prepare : ℕ → String → Reply
  pub on_accept : ℕ → String → Reply
  pub millis : ℕ → ℕ

unfoldable pub update_consensus_state :
    String → ℕ → Option (List String) → ConsensusPhase → Conn → Unit {0} × Conn
update_consensus_state chunk_id ballot value phase =
    or_else tt do execute (put_state chunk_id ballot value phase); commit

unfoldable pub prepared_nodes : Nodes → ℕ → ℕ → List String → List String
unfolding send_prepare_request is_yes
prepared_nodes nodes attempt ballot urls =
    keep (λ url. is_yes (send_prepare_request ballot (nodes.on_prepare attempt url))) urls

unfoldable pub prepare_phase : Nodes → ℕ → Proposal → ℕ → Conn → List String × Conn
prepare_phase nodes attempt p ballot c =
    let (_, c') = update_consensus_state p.chunk_id ballot none prepare c in
    (prepared_nodes nodes attempt ballot p.node_urls, c')

unfoldable pub accepting_nodes : Nodes → ℕ → Text → List String → List String
unfolding send_accept_request
accepting_nodes nodes attempt checksum urls =
    keep (λ url. send_accept_request checksum (nodes.on_accept attempt url)) urls

unfoldable pub accept_phase : Nodes → ℕ → Proposal → List String → ℕ → Conn → List String × Conn
accept_phase nodes attempt p prepared ballot c =
    let (_, c') = update_consensus_state p.chunk_id ballot (some prepared) accept c in
    (accepting_nodes nodes attempt p.checksum prepared, c')

unfoldable pub commit_phase : Proposal → List String → ℕ → M (Unit {0})
commit_phase p accepted ballot = do
  execute (put_chunk p)
  put_placement (fragments_of p.redundancy_mode p.fragments_metadata) p.chunk_id ballot accepted
  execute (put_total p.video_id)
  execute (put_state p.chunk_id ballot (some accepted) committed)
  commit

unfoldable pub cleanup_failed_consensus : String → ℕ → Conn → Unit {0} × Conn
cleanup_failed_consensus chunk_id ballot = or_else tt do
  execute (delete_replicas chunk_id ballot)
  execute (delete_fragments chunk_id)
  execute (reset_state chunk_id)
  commit

-- One turn of the loop: it returns the nodes, asks for another turn, or raises.
pub data Turn : Type 0 where
  done : List String → Turn
  retry : Turn
  failing : Error → Turn

unfoldable pub turn_of_commit : List String → Result (Unit {0}) → Turn
turn_of_commit accepted (ok _) = done accepted
turn_of_commit accepted (raised e) = failing e

unfoldable pub quorum_size : List String → ℕ
quorum_size urls = length urls / 2 + 1

-- Too few nodes: another turn, unless this is the last one.
unfoldable pub too_few : ℕ → Turn
too_few attempt = if ltb attempt 2 then retry else failing quorum_not_reached

-- The body of the `try`.
unfoldable pub turn : Nodes → ℕ → Proposal → ℕ → Conn → Turn × Conn
turn nodes attempt p ballot c =
    let (prepared, c₁) = prepare_phase nodes attempt p ballot c in
    let (accepted, c₂) = accept_phase nodes attempt p prepared ballot c₁ in
    let (r, c₃) = commit_phase p accepted ballot c₂ in
    if ltb (length prepared) (quorum_size p.node_urls)
    then (too_few attempt, c₁)
    else if ltb (length accepted) (quorum_size p.node_urls)
    then (too_few attempt, c₂)
    else (turn_of_commit accepted r, c₃)

-- The handlers: a missing quorum or a ballot conflict allows another turn before the last one.
unfoldable pub handle_error : ℕ → Error → Bool
handle_error attempt quorum_not_reached = ltb attempt 2
handle_error attempt ballot_conflict = ltb attempt 2
handle_error attempt _ = false

pub record Paxos : Type 0 where
  pub conn : Conn
  pub ballot_counter : ℕ

-- The result of `propose_chunk_placement`, and the state that it leaves.
abbrev pub Answer : Type 0
Answer = (Bool × List String) × Paxos

-- The return after a failure that ends the loop.
unfoldable pub give_up : Proposal → ℕ → Paxos → Answer
give_up p ballot s =
    ((false, []), record s { conn = (cleanup_failed_consensus p.chunk_id ballot s.conn).1 })

-- `for attempt in range(3)`, by the turns that are left after this one; `again` is the rest of the
-- loop with the ballot of the next attempt.
unfoldable pub conclude : ℕ → Proposal → ℕ → (Paxos → Answer) → Turn → Paxos → Answer
conclude attempt p ballot again (done accepted) s = ((true, accepted), s)
conclude attempt p ballot again retry s = again s
conclude attempt p ballot again (failing e) s =
    if handle_error attempt e then again s else give_up p ballot s

unfoldable pub attempts : Nodes → Proposal → ℕ → ℕ → Paxos → Answer
attempts nodes p zero attempt s = ((false, []), s)
attempts nodes p (suc left) attempt s =
    let (ballot, counter) = generate_ballot_number (nodes.millis attempt) s.ballot_counter in
    let (t, c) = turn nodes attempt p ballot s.conn in
    conclude attempt p ballot (λ s'. attempts nodes p left (attempt + 1) s') t
      (record { conn = c; ballot_counter = counter })

unfoldable pub propose_chunk_placement : Nodes → Proposal → Paxos → Option Answer
propose_chunk_placement nodes p s =
    if length p.node_urls == 0 then none else some (attempts nodes p 3 0 s)

-- `get_consensus_state`; a read that raises returns None too
unfoldable pub get_consensus_state : String → Tables → Option ConsensusRow
unfolding select
get_consensus_state chunk_id t = elim (select (λ s. s.chunk_id == chunk_id) t.consensus_state) [
  | [] ↦ none
  | r ∷ rest ↦ some r
]
