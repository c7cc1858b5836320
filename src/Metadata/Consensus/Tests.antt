-- ===== src/Metadata/Consensus/Tests.antt =====
-- A proposal for one chunk on three nodes, of which the third refuses.
use vstack.Prelude.{
  ◌↔◌, ◌%◌, ◌^◌, All, ℕ, eq_iff, if◌then◌else◌, ◌+◌, ◌<◌, ◌≡◌, ◌≢◌, refl, true, none, some, List,
  [], ◌∷◌, String, any, ◌==◌, number_key, text_key, arith, inl,
}
use vstack.Prelude.Table.{select}
use vstack.Metadata.Tables.{
  VideoRow, VideoStatus, Text, no_rows, no_rows-HasKeys, HasKeys, replication,
}
use vstack.Metadata.Connection.{
  Conn, operational_error, raised, next_fault, later_faults, or_else, execute, commit, ◌>>=◌,
  follow, run_statement, written, commit_now, settle, for_each,
}
use vstack.Metadata.Connection.Keeps.{Holds}
use vstack.Metadata.Consensus.{
  Nodes, Reply, response, failed, missing, number, Proposal, Paxos, Answer, propose_chunk_placement,
  attempts, turn, conclude, prepare_phase, accept_phase, commit_phase, update_consensus_state,
  prepared_nodes, accepting_nodes, quorum_size, turn_of_commit, put_placement, fragments_of,
  generate_ballot_number, put_chunk, put_replica, put_total, put_state, cleanup_failed_consensus,
}
use vstack.Metadata.Consensus.Quorum.{successes_meet, contains}
use vstack.Metadata.Consensus.Recorded.{IsRecorded, propose-IsRecorded}
use vstack.Metadata.Consensus.Frame.{SameRows, propose-SameRows}
use vstack.Metadata.Consensus.Keys.{propose-HasKeys}
use vstack.Metadata.Consensus.Cleanup.{
  chunk_of, replica_under, second_raises, failed_commit_keeps_chunk,
}
use vstack.Metadata.Manifest.{VideoManifest, manifest_chunks, get_video_manifest, with_chunks}
use vstack.Metadata.Manifest.Placement.{offers, propose-offers}
use vstack.Metadata.Database.{get_video}
use vstack.Metadata.Consensus.Ballots.{generate_ballot_number-lt, generate_ballot_number_iff}

-- The checksum "ab", as the nodes quote it.
abbrev quoted : Text
quoted = 34 ∷ 97 ∷ 98 ∷ 34 ∷ []

abbrev on_prepare : ℕ → String → Reply
on_prepare attempt url = if url == "n3" then failed else response 404 missing none

abbrev on_accept : ℕ → String → Reply
on_accept attempt url = response 200 (number 7) (some quoted)

abbrev three_nodes : Nodes
three_nodes = record {
  on_prepare = on_prepare;
  on_accept = on_accept;
  millis = λ attempt. 1000 + attempt;
}

abbrev chunk_0 : Proposal
chunk_0 = record {
  chunk_id = "v1-chunk-0";
  node_urls = "n1" ∷ "n2" ∷ "n3" ∷ [];
  checksum = 97 ∷ 98 ∷ [];
  size_bytes = 2097152;
  video_id = "v1";
  sequence_num = 0;
  redundancy_mode = replication;
  fragments_metadata = none;
}

abbrev fresh : Conn
fresh = record { working = no_rows; durable = no_rows; faults = []; now = 1000 }

abbrev idle : Paxos
idle = record { conn = fresh; ballot_counter = 0 }

abbrev answer : Answer
answer = attempts three_nodes chunk_0 3 0 idle

abbrev two_nodes : List String
two_nodes = "n1" ∷ "n2" ∷ []

proposed_ok : propose_chunk_placement three_nodes chunk_0 idle ≡ some ((true, two_nodes), answer.1)
unfolding propose_chunk_placement attempts conclude turn prepare_phase accept_phase commit_phase
    update_consensus_state prepared_nodes accepting_nodes quorum_size turn_of_commit put_placement
    fragments_of generate_ballot_number or_else execute commit ◌>>=◌ follow run_statement written
    commit_now settle for_each next_fault later_faults put_chunk put_replica put_total put_state
proposed_ok = refl

propose-IsRecorded_example : IsRecorded chunk_0 two_nodes answer.1.conn
propose-IsRecorded_example =
    propose-IsRecorded three_nodes chunk_0 idle answer.1 two_nodes proposed_ok

successes_meet_example :
    (url : String) × (contains url two_nodes ≡ true) × (contains url two_nodes ≡ true)
successes_meet_example =
    successes_meet three_nodes three_nodes chunk_0 chunk_0 idle idle answer.1 answer.1 two_nodes
      two_nodes refl proposed_ok proposed_ok

another_chunk : ◌≢◌ {A = String} "v1-chunk-1" "v1-chunk-0"
another_chunk e = ground (arith, (eq_iff {K = String} "v1-chunk-1" "v1-chunk-0").1 e)

propose-SameRows_example :
    SameRows "v1-chunk-1" chunk_0 fresh.working answer.1.conn.working
    × SameRows "v1-chunk-1" chunk_0 fresh.working answer.1.conn.durable
propose-SameRows_example =
    propose-SameRows three_nodes chunk_0 idle ((true, two_nodes), answer.1) "v1-chunk-1"
      another_chunk (record { replicas = refl; state = refl; chunks = refl }) proposed_ok

proposal_keeps_keys : Holds HasKeys answer.1.conn
proposal_keeps_keys =
    propose-HasKeys three_nodes chunk_0 idle ((true, two_nodes), answer.1)
      (no_rows-HasKeys, no_rows-HasKeys) proposed_ok

failed_commit_keeps_chunk_example :
    let (r, c₁) = commit_phase chunk_0 two_nodes 9 (second_raises fresh) in
    let (_, c₂) = cleanup_failed_consensus "v1-chunk-0" 9 c₁ in
    (r ≡ raised operational_error)
    × (any (chunk_of chunk_0) c₂.durable.chunks ≡ true)
    × (select (replica_under chunk_0 9) c₂.durable.chunk_replicas ≡ [])
unfolding fragments_of
failed_commit_keeps_chunk_example = failed_commit_keeps_chunk chunk_0 "n1" ("n2" ∷ []) 9 fresh refl

generate_ballot_number-lt_example :
    (generate_ballot_number 1000 4).0 < (generate_ballot_number 1001 2).0
generate_ballot_number-lt_example = generate_ballot_number-lt 1000 1001 4 2 (inl (omega arith))

generate_ballot_number_iff_example :
    ((generate_ballot_number 1000 (3 + 65536)).0 ≡ (generate_ballot_number 1000 3).0)
    ↔ ((3 + 65536) % 2 ^ 16 ≡ 3 % 2 ^ 16)
generate_ballot_number_iff_example = generate_ballot_number_iff 1000 (3 + 65536) 3

-- The same, for a video that is registered.
abbrev film : VideoRow
film = record {
  video_id = "v1";
  title = "A film";
  duration_sec = 90;
  total_chunks = 0;
  chunk_size_bytes = 2097152;
  created_at = 900;
  status = VideoStatus.uploading;
}

abbrev with_film : Paxos
with_film = record {
  conn = record fresh {
    working = record no_rows { videos = film ∷ [] };
    durable = record no_rows { videos = film ∷ [] };
  };
  ballot_counter = 0;
}

abbrev film_answer : Answer
film_answer = attempts three_nodes chunk_0 3 0 with_film

film_proposed :
    propose_chunk_placement three_nodes chunk_0 with_film ≡ some ((true, two_nodes), film_answer.1)
unfolding propose_chunk_placement attempts conclude turn prepare_phase accept_phase commit_phase
    update_consensus_state prepared_nodes accepting_nodes quorum_size turn_of_commit put_placement
    fragments_of generate_ballot_number or_else execute commit ◌>>=◌ follow run_statement written
    commit_now settle for_each next_fault later_faults put_chunk put_replica put_total put_state
film_proposed = refl

abbrev film_manifest : VideoManifest
film_manifest = record {
  video = record film { total_chunks = 1 };
  chunks = manifest_chunks "v1" film_answer.1.conn.durable;
}

film_read : get_video_manifest "v1" film_answer.1.conn.durable ≡ some film_manifest
unfolding get_video_manifest get_video with_chunks attempts conclude turn prepare_phase accept_phase
    commit_phase update_consensus_state prepared_nodes accepting_nodes quorum_size turn_of_commit
    put_placement fragments_of generate_ballot_number or_else execute commit ◌>>=◌ follow
    run_statement written commit_now settle for_each next_fault later_faults put_chunk put_replica
    put_total put_state
film_read = refl

propose-offers_example : All (λ url. offers chunk_0 url film_manifest ≡ true) two_nodes
unfolding fragments_of
propose-offers_example =
    propose-offers three_nodes chunk_0 with_film film_answer.1 two_nodes film_manifest film_proposed
      film_read
