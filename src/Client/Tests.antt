-- ===== src/Client/Tests.antt =====
-- The playback buffer on a few chunks, and a download.
use vstack.Prelude.{
  if◌then◌else◌, ◌==◌, text_key, number_key, ℕ, ◌+◌, ◌≡◌, ◌≢◌, ◌↔◌, ◌≤◌, refl, Bool, true, false,
  none, some, List, [], ◌∷◌, String, length, All, arith,
}
use vstack.Client.Scheduler.{
  Network, Response, response, failed, ChunkScheduler, download_chunk, select_best_node, read_body,
  failover, with_node, or_failover, try_node, download_from_node, or_retry,
  record_successful_download, mark_busy, mark_available, remaining_replicas, best_node,
}
use vstack.Client.Scheduler.Selection.{found_in, select_best_node-found_in}
use vstack.Client.Scheduler.Load.{IsCounted, download_chunk-IsCounted}
use vstack.Client.Scheduler.Failover.{is_some, first_result, download_chunk_succeeds}
use vstack.Client.Scheduler.Failover.Termination.{download_chunk-failover}
use vstack.Client.Buffer.{
  BufferManager, init, add_chunk, spill_chunk, put, insert_sorted, is_buffered, find_chunk,
  get_next_chunk_for_playback, take_next, play_chunk, range_from, get_next_chunk_sequences,
  buffer_end, can_start_playback, buffer_state, is_empty, low, needs_more_chunks,
}
use vstack.Client.Buffer.Invariant.{IsValid, init-IsValid, add_chunk-IsValid}
use vstack.Client.Buffer.Addition.{
  HasRoom, add_chunk_iff, add_chunk_refused, find_chunk-add_chunk, add_chunk_comm,
}
use vstack.Client.Buffer.Playback.{
  Call, add, play, run, all_played, HasAll, run-IsValid, all_played-eq-range,
}
use vstack.Client.Buffer.Requests.{
  get_next_chunk_sequences_fresh, IsStalled, Arrival, download, begin, step, add_all,
  stalled_for_good,
}

abbrev start : BufferManager
start = init 30 15 10 10 5

abbrev keep_files : String → Bool
keep_files path = true

-- Chunk 1 arrives before chunk 0, which goes to a file as there is no memory left for it.
abbrev out_of_order : List Call
out_of_order =
    add "c1" 1 (1 ∷ 2 ∷ 3 ∷ []) 100 none
    ∷ play 101 keep_files
    ∷ add "c0" 0 (4 ∷ 5 ∷ 6 ∷ []) 102 (some "/tmp/c0")
    ∷ play 103 keep_files
    ∷ play 104 keep_files
    ∷ play 105 keep_files
    ∷ []

all_played-eq-range_example : all_played out_of_order start ≡ 0 ∷ 1 ∷ []
unfolding all_played init add_chunk spill_chunk put insert_sorted get_next_chunk_for_playback
    take_next play_chunk range_from is_buffered can_start_playback
all_played-eq-range_example = all_played-eq-range out_of_order start

run-IsValid_example : IsValid (run out_of_order start) × HasAll (run out_of_order start)
unfolding init
run-IsValid_example = run-IsValid out_of_order start (init-IsValid 30 15 10 10 5) refl

add_chunk_iff_example :
    ((add_chunk "c0" 0 (1 ∷ 2 ∷ []) 7 none start).0 ≡ true)
    ↔ ((start.current_position ≤ 0) × (is_buffered 0 start.buffer ≡ false) × HasRoom 2 none start)
add_chunk_iff_example = add_chunk_iff "c0" 0 (1 ∷ 2 ∷ []) 7 none start

abbrev one_chunk : BufferManager
one_chunk = (add_chunk "c2" 2 (1 ∷ 2 ∷ []) 7 none start).1

one_chunk-IsValid : IsValid one_chunk
one_chunk-IsValid = add_chunk-IsValid "c2" 2 (1 ∷ 2 ∷ []) 7 none start (init-IsValid 30 15 10 10 5)

buffered_already : (add_chunk "c2" 2 (9 ∷ []) 8 none one_chunk).0 ≡ false
unfolding init add_chunk put insert_sorted is_buffered can_start_playback
buffered_already = refl

duplicate_refused : (add_chunk "c2" 2 (9 ∷ []) 8 none one_chunk).1 ≡ one_chunk
duplicate_refused = add_chunk_refused "c2" 2 (9 ∷ []) 8 none one_chunk buffered_already

accepted : (add_chunk "c1" 1 (9 ∷ []) 8 none one_chunk).0 ≡ true
unfolding init add_chunk put insert_sorted is_buffered can_start_playback
accepted = refl

find_chunk-add_chunk_example :
    find_chunk 2 (add_chunk "c1" 1 (9 ∷ []) 8 none one_chunk).1.buffer
    ≡ find_chunk 2 one_chunk.buffer
find_chunk-add_chunk_example = find_chunk-add_chunk 2 "c1" 1 (9 ∷ []) 8 none one_chunk accepted

one_is_not_zero : ◌≢◌ {A = ℕ} 1 0
one_is_not_zero e = omega arith

room : one_chunk.current_memory_usage + 1 + 1 ≤ one_chunk.max_memory_bytes
unfolding init add_chunk put is_buffered can_start_playback
room = omega arith

add_chunk_comm_example :
    let m₁ = (add_chunk "c0" 0 (9 ∷ []) 8 none (add_chunk "c1" 1 (7 ∷ []) 8 none one_chunk).1).1 in
    let m₂ = (add_chunk "c1" 1 (7 ∷ []) 8 none (add_chunk "c0" 0 (9 ∷ []) 8 none one_chunk).1).1 in
    (m₁.buffer ≡ m₂.buffer) × (m₁.current_memory_usage ≡ m₂.current_memory_usage)
add_chunk_comm_example =
    add_chunk_comm "c1" "c0" 1 0 (7 ∷ []) (9 ∷ []) 8 8 none none one_chunk one_is_not_zero room

get_next_chunk_sequences_fresh_example :
    (length (get_next_chunk_sequences 3 one_chunk) ≡ 3)
    × All
        (λ seq. (one_chunk.current_position ≤ seq) × (is_buffered seq one_chunk.buffer ≡ false))
        (get_next_chunk_sequences 3 one_chunk)
get_next_chunk_sequences_fresh_example =
    get_next_chunk_sequences_fresh 3 one_chunk one_chunk-IsValid

asked_for : get_next_chunk_sequences 3 one_chunk ≡ 3 ∷ 4 ∷ 5 ∷ []
unfolding init add_chunk put insert_sorted is_buffered can_start_playback get_next_chunk_sequences
asked_for = refl

-- Chunk 2 is buffered and chunk 0 is missing: chunk 3 arrives, and chunk 0 is not asked for.
abbrev chunk_3 : Arrival
chunk_3 = record { chunk_id = "c3"; sequence_num = 3; bytes = 9 ∷ []; now = 9; spill = none }

one_chunk-IsStalled : IsStalled one_chunk
unfolding init add_chunk put insert_sorted is_buffered can_start_playback
one_chunk-IsStalled = omega arith

chunk_3_asked :
    All
      (λ a. buffer_end one_chunk.current_position one_chunk.buffer ≤ a.sequence_num)
      (chunk_3 ∷ [])
unfolding init add_chunk put insert_sorted is_buffered can_start_playback buffer_end
chunk_3_asked = (omega arith, tt)

stalled_for_good_example :
    ((get_next_chunk_for_playback 10 keep_files (add_all (chunk_3 ∷ []) one_chunk)).0 ≡ none)
    × ((add_all (chunk_3 ∷ []) one_chunk).current_position ≡ one_chunk.current_position)
stalled_for_good_example =
    stalled_for_good 10 keep_files one_chunk-IsStalled
      (step (download (chunk_3 ∷ []) chunk_3_asked) begin)

level_states :
    (buffer_state start ≡ is_empty)
    × (buffer_state one_chunk ≡ low)
    × (needs_more_chunks one_chunk ≡ true)
unfolding init add_chunk put insert_sorted is_buffered can_start_playback buffer_state
    needs_more_chunks
level_states = (refl, refl, refl)

-- Two replicas: the first is preferred and fails, the second delivers at its second try.
abbrev flaky : String → ℕ → Response
flaky node attempt =
    if node == "n2" then response (if attempt == 1 then 200 else 503) (7 ∷ 8 ∷ []) else failed

abbrev two_nodes : Network
two_nodes = record {
  reply = flaky;
  is_node_healthy = λ turn node. true;
  beats = λ turn a b. false;
  time = 100;
}

abbrev idle : ChunkScheduler
idle = record {
  active_downloads = [];
  node_load = λ node. 0;
  download_history = λ node. [];
  chunk_sources = [];
  total_downloads = 0;
  failed_downloads = 0;
  failover_count = 0;
  has_session = true;
}

abbrev replicas : List String
replicas = "n1" ∷ "n2" ∷ []

download_chunk-failover_example :
    failover two_nodes "c0" 3 replicas (5 + length replicas) 0 [] idle
    ≡ download_chunk two_nodes "c0" replicas 3 idle
download_chunk-failover_example = download_chunk-failover two_nodes "c0" 3 replicas 5 idle

download_chunk_succeeds_example : is_some (download_chunk two_nodes "c0" replicas 3 idle).0 ≡ true
unfolding first_result read_body
download_chunk_succeeds_example = download_chunk_succeeds two_nodes "c0" replicas 3 idle refl

download_chunk-IsCounted_example :
    IsCounted
      (download_chunk two_nodes "c0" replicas 3 idle).0
      idle
      (download_chunk two_nodes "c0" replicas 3 idle).1
download_chunk-IsCounted_example = download_chunk-IsCounted two_nodes "c0" replicas 3 idle

select_best_node-found_in_example :
    (found_in (select_best_node two_nodes 0 replicas idle) replicas ≡ true)
    × (found_in (select_best_node two_nodes 0 replicas idle) replicas ≡ true)
select_best_node-found_in_example = select_best_node-found_in two_nodes 0 replicas idle

failed_over : (download_chunk two_nodes "c0" replicas 3 idle).1.failover_count ≡ 1
unfolding download_chunk failover with_node or_failover try_node download_from_node or_retry
    record_successful_download read_body mark_busy mark_available select_best_node
    remaining_replicas best_node
failed_over = refl
