-- ===== src/Client/Scheduler.antt =====
-- client/scheduler.py, `ChunkScheduler`: which node a chunk is downloaded from, and the failover to
-- others. One download at a time; the semaphore, the queue of download_chunks_parallel and the
-- waits between retries are left out. The defaultdicts are functions, so that a count of 0 and a
-- missing key are one.
pub mod Selection
pub mod Failover
pub mod Load
pub mod Sources
use vstack.Prelude.{
  ℕ, zero, suc, ◌+◌, ◌-◌, String, Bool, true, false, not, Option, none, some, List, [], ◌∷◌, ◌++◌,
  length, keep, any, ltb, ◌==◌, number_key, text_key, if◌then◌else◌,
}
use vstack.Prelude.Dict.{Dict, insert, erase}

-- An HTTP reply with its status and body, or a request that raised.
pub data Response : Type 0 where
  response : ℕ → List ℕ → Response
  failed : Response

-- The environment of one download: what each node replies to each try, and what the network
-- monitor says at each selection. `beats` compares the scores of two nodes under their loads,
-- which are floating point, by `>`.
pub record Network : Type 0 where
  pub reply : String → ℕ → Response
  pub is_node_healthy : ℕ → String → Bool
  pub beats : ℕ → String × ℕ → String × ℕ → Bool
  pub time : ℕ

pub record ChunkScheduler : Type 0 where
  pub active_downloads : Dict String String
  pub node_load : String → ℕ
  pub download_history : String → List ℕ
  pub chunk_sources : Dict String String
  pub total_downloads : ℕ
  pub failed_downloads : ℕ
  pub failover_count : ℕ
  pub has_session : Bool

-- `d[node] = v` on a defaultdict
abbrev pub set_at {ℓ} : {V : Type ℓ} → String → V → (String → V) → String → V
set_at node v d n = if node == n then v else d n

-- The keys of `node_scores`, in the order in which they are first set.
unfoldable pub distinct_nodes : List String → List String → List String
distinct_nodes seen [] = []
distinct_nodes seen (n ∷ nodes) =
    let later = distinct_nodes (n ∷ seen) nodes in
    let same = distinct_nodes seen nodes in if any (λ m. m == n) seen then same else n ∷ later

-- `max(node_scores.keys(), key=...)`: the first of the best
unfoldable pub best_node : (String → String → Bool) → String → List String → String
best_node higher best [] = best
best_node higher best (n ∷ nodes) = best_node higher (if higher n best then n else best) nodes

unfoldable pub best_of : (String → String → Bool) → List String → Option String
best_of higher [] = none
best_of higher (n ∷ nodes) = some (best_node higher n nodes)

-- `if not healthy_replicas: healthy_replicas = available_replicas`
unfoldable pub or_all : List String → List String → List String
or_all [] available = available
or_all (n ∷ healthy) available = n ∷ healthy

unfoldable pub select_best_node : Network → ℕ → List String → ChunkScheduler → Option String
unfolding distinct_nodes best_of or_all
select_best_node net turn available s =
    let healthy = keep (net.is_node_healthy turn) available in
    best_of (λ a b. net.beats turn (a, s.node_load a) (b, s.node_load b))
      (distinct_nodes [] (or_all healthy available))

-- What `_download_from_node` reads; no result where it raises.
unfoldable pub read_body : Bool → Response → Option (List ℕ)
read_body false r = none
read_body true failed = none
read_body true (response status body) = if status == 200 then some body else none

unfoldable pub mark_busy : String → String → ChunkScheduler → ChunkScheduler
mark_busy chunk_id node s = record s {
  active_downloads = insert chunk_id node s.active_downloads;
  node_load = set_at node (s.node_load node + 1) s.node_load;
}

-- The `finally` block; `max(0, load - 1)` is subtraction that stops at 0.
unfoldable pub mark_available : String → String → ChunkScheduler → ChunkScheduler
mark_available chunk_id node s = record s {
  active_downloads = erase chunk_id s.active_downloads;
  node_load = set_at node (s.node_load node - 1) s.node_load;
}

unfoldable pub download_from_node :
    Network → String → String → ℕ → ChunkScheduler → Option (List ℕ) × ChunkScheduler
unfolding read_body mark_busy mark_available
download_from_node net chunk_id node attempt s = (
  read_body s.has_session (net.reply node attempt),
  mark_available chunk_id node (mark_busy chunk_id node s),
)

unfoldable pub record_successful_download :
    Network → String → String → ChunkScheduler → ChunkScheduler
record_successful_download net chunk_id node s = record s {
  total_downloads = s.total_downloads + 1;
  download_history = set_at node (s.download_history node ++ net.time ∷ []) s.download_history;
  chunk_sources = insert chunk_id node s.chunk_sources;
}

-- The return after a try that succeeded, or the tries that are left.
unfoldable pub or_retry :
    Network
    → String
    → String
    → Option (List ℕ)
    → ChunkScheduler
    → Option (List ℕ) × ChunkScheduler
    → Option (List ℕ) × ChunkScheduler
unfolding record_successful_download
or_retry net chunk_id node none s rest = rest
or_retry net chunk_id node (some body) s rest =
    (some body, record_successful_download net chunk_id node s)

-- `for attempt in range(retry_count)`, by the tries that are left
unfoldable pub try_node :
    Network → String → String → ℕ → ℕ → ChunkScheduler → Option (List ℕ) × ChunkScheduler
unfolding download_from_node or_retry
try_node net chunk_id node zero attempt s = (none, s)
try_node net chunk_id node (suc left) attempt s =
    let (r, s') = download_from_node net chunk_id node attempt s in
    or_retry net chunk_id node r s' (try_node net chunk_id node left (attempt + 1) s')

abbrev pub contains : String → List String → Bool
contains node nodes = any (λ n. n == node) nodes

unfoldable pub remaining_replicas : List String → List String → List String
remaining_replicas attempted available = keep (λ n. not (contains n attempted)) available

-- All replicas failed.
unfoldable pub fail : ChunkScheduler → Option (List ℕ) × ChunkScheduler
fail s = (none, record s { failed_downloads = s.failed_downloads + 1 })

-- The end of an iteration: the return of a node that delivered, or the next iteration.
unfoldable pub or_failover :
    Option (List ℕ)
    → ChunkScheduler
    → (ChunkScheduler → Option (List ℕ) × ChunkScheduler)
    → Option (List ℕ) × ChunkScheduler
or_failover none s again = again (record s { failover_count = s.failover_count + 1 })
or_failover (some body) s again = (some body, s)

-- The rest of an iteration, with the node that was selected; `again` is the next iteration.
-- `if not node_url` is true of None and of the empty text.
unfoldable pub with_node :
    Network
    → String
    → ℕ
    → Option String
    → ChunkScheduler
    → (String → ChunkScheduler → Option (List ℕ) × ChunkScheduler)
    → Option (List ℕ) × ChunkScheduler
with_node net chunk_id retries none s again = fail s
with_node net chunk_id retries (some node) s again =
    let (r, s') = try_node net chunk_id node retries 0 s in
    let tried = or_failover r s' (again node) in if node == "" then fail s else tried

-- The `while` loop, on fuel; `turn` counts the selections.
unfoldable pub failover :
    Network
    → String
    → ℕ
    → List String
    → ℕ
    → ℕ
    → List String
    → ChunkScheduler
    → Option (List ℕ) × ChunkScheduler
failover net chunk_id retries available zero turn attempted s = fail s
failover net chunk_id retries available (suc fuel) turn attempted s =
    let selected = select_best_node net turn (remaining_replicas attempted available) s in
    let go =
      with_node net chunk_id retries selected s (λ node s'.
        failover net chunk_id retries available fuel (turn + 1) (node ∷ attempted) s') in
    if ltb (length attempted) (length available) then go else fail s

-- `download_chunk`: there are as many iterations as replicas at most
unfoldable pub download_chunk :
    Network → String → List String → ℕ → ChunkScheduler → Option (List ℕ) × ChunkScheduler
download_chunk net chunk_id available retries s =
    failover net chunk_id retries available (length available) 0 [] s
