-- ===== src/Metadata/HealthMonitor.antt =====
-- metadata-service/health_monitor.py: nodes that have not been heard of are marked as down, nodes
-- that answer a probe are marked as healthy again, and unknown nodes are registered. The probes of
-- one pass go to different nodes; they are taken in the order of the rows. The figures that a node
-- reports are whole percents and counts.
pub mod Rows
pub mod RowAfter
pub mod Passes
pub mod Keys
pub mod Registration
mod Tests
use vstack.Prelude.{
  ℕ, zero, suc, ◌+◌, String, Bool, true, false, not, ◌&&◌, ◌||◌, Option, none, some, List, [], ◌∷◌,
  ◌++◌, length, if◌then◌else◌, ◌==◌, number_key, text_key, ltb,
}
use vstack.Prelude.Dict.{Dict, insert as put}
use vstack.Prelude.Table.{select, update, insert}
use vstack.Metadata.Tables.{NodeStatus, healthy, degraded, down, NodeRow, Tables, same_node}
use vstack.Metadata.Connection.{
  Conn, M, pure, query, ◌>>=◌, ◌>>◌, Statement, execute, commit, for_each, or_else, checked,
}
use vstack.Metadata.Database.{first_row, is_healthy, is_down}

-- `datetime(last_heartbeat) < datetime(?)` with the time of the service's own clock less the
-- timeout
unfoldable pub is_overdue : ℕ → ℕ → NodeRow → Bool
is_overdue heartbeat_timeout local_now n = ltb (n.last_heartbeat + heartbeat_timeout) local_now

unfoldable pub stale_nodes : ℕ → ℕ → Tables → List NodeRow
unfolding select is_overdue
stale_nodes heartbeat_timeout local_now t =
    select (λ n. is_overdue heartbeat_timeout local_now n && not (is_down n.status)) t.storage_nodes

-- `UPDATE storage_nodes SET ... WHERE node_id = ?`
unfoldable pub change_node : String → (ℕ → NodeRow → NodeRow) → Statement
unfolding update
change_node node_id change now t =
    some
      (record t { storage_nodes = update (λ n. n.node_id == node_id) (change now) t.storage_nodes })

abbrev pub as_down : ℕ → NodeRow → NodeRow
as_down now n = record n { status = down }

abbrev pub as_recovered : ℕ → NodeRow → NodeRow
as_recovered now n = record n { status = healthy; last_heartbeat = now }

abbrev pub with_stats : ℕ → ℕ → ℕ → NodeRow → NodeRow
with_stats disk_usage chunk_count now n = record n {
  disk_usage_percent = disk_usage;
  chunk_count = chunk_count;
}

unfoldable pub set_node_down : NodeRow → M (Unit {0})
unfolding change_node
set_node_down n = execute (change_node n.node_id as_down)

-- `_mark_unhealthy_nodes`
unfoldable pub mark_unhealthy : ℕ → ℕ → Conn → ℕ × Conn
unfolding stale_nodes set_node_down
mark_unhealthy heartbeat_timeout local_now = or_else 0 do
  stale ← query (stale_nodes heartbeat_timeout local_now)
  for_each set_node_down stale
  commit
  pure (length stale)

unfoldable pub mark_node_recovered : String → Conn → Unit {0} × Conn
unfolding change_node
mark_node_recovered node_id =
    or_else tt do execute (change_node node_id as_recovered); commit; pure tt

unfoldable pub update_node_stats : String → ℕ → ℕ → Conn → Unit {0} × Conn
unfolding change_node
update_node_stats node_id disk_usage chunk_count =
    or_else tt do execute (change_node node_id (with_stats disk_usage chunk_count)); commit; pure tt

-- What came of `client.get(f"{node_url}/health")`: a status code, with the disk usage and the chunk
-- count where the body could be read, or an exception.
pub data Probe : Type 0 where
  answered : ℕ → Option (ℕ × ℕ) → Probe
  unreachable : Probe

-- `if current_status == 'down': ...`
unfoldable pub recover_if_down : Bool → String → Conn → Conn
unfolding mark_node_recovered
recover_if_down true node_id c = (mark_node_recovered node_id c).1
recover_if_down false node_id c = c

-- `try: health_data = response.json() ...`
unfoldable pub take_stats : Option (ℕ × ℕ) → String → Conn → Conn
unfolding update_node_stats
take_stats none node_id c = c
take_stats (some (disk_usage, chunk_count)) node_id c =
    (update_node_stats node_id disk_usage chunk_count c).1

unfoldable pub after_probe : Probe → NodeRow → Conn → Conn
unfolding recover_if_down take_stats
after_probe unreachable n c = c
after_probe (answered status_code body) n c =
    if status_code == 200
    then take_stats body n.node_id (recover_if_down (is_down n.status) n.node_id c)
    else c

unfoldable pub probe_single_node : (String → Probe) → NodeRow → Conn → Conn
unfolding after_probe
probe_single_node health n = after_probe (health n.node_url) n

unfoldable pub probe_each : (String → Probe) → List NodeRow → Conn → Conn
unfolding probe_single_node
probe_each health [] c = c
probe_each health (n ∷ nodes) c = probe_each health nodes (probe_single_node health n c)

unfoldable pub probe_all_nodes : (String → Probe) → Conn → Conn
unfolding probe_each
probe_all_nodes health c = probe_each health c.working.storage_nodes c

-- One turn of `_monitoring_loop`
unfoldable pub monitor_pass : ℕ → ℕ → (String → Probe) → Conn → Conn
unfolding mark_unhealthy probe_all_nodes
monitor_pass heartbeat_timeout local_now health c =
    probe_all_nodes health (mark_unhealthy heartbeat_timeout local_now c).1

unfoldable pub known_node : String → String → Tables → Option NodeRow
unfolding first_row select
known_node node_url node_id t =
    first_row (select (λ n. n.node_id == node_id || n.node_url == node_url) t.storage_nodes)

unfoldable pub insert_node : String → String → String → Statement
unfolding insert
insert_node node_url node_id version now t =
    let row : NodeRow = record {
      node_url = node_url;
      node_id = node_id;
      last_heartbeat = now;
      disk_usage_percent = 0;
      chunk_count = 0;
      status = healthy;
      version = version;
    } in
    checked (insert same_node row t.storage_nodes) (λ rows. record t { storage_nodes = rows })

-- `if not existing: ... return True else: return False`
unfoldable pub register_unless : Option NodeRow → String → String → String → M Bool
unfolding insert_node
register_unless (some n) node_url node_id version = pure false
register_unless none node_url node_id version = do
  execute (insert_node node_url node_id version)
  commit
  pure true

unfoldable pub register_node_if_new : String → String → String → Conn → Bool × Conn
unfolding known_node register_unless
register_node_if_new node_url node_id version = or_else false do
  existing ← query (known_node node_url node_id)
  register_unless existing node_url node_id version

abbrev pub is_degraded : NodeStatus → Bool
is_degraded healthy = false
is_degraded degraded = true
is_degraded down = false

-- `SELECT status, COUNT(*) ... GROUP BY status`: no row for a status that no node has
unfoldable pub group_of : String → ℕ → Dict String ℕ
group_of status zero = []
group_of status (suc n) = (status, suc n) ∷ []

unfoldable pub nodes_by_status : Tables → Dict String ℕ
unfolding select group_of
nodes_by_status t =
    group_of "degraded" (length (select (λ n. is_degraded n.status) t.storage_nodes))
    ++ group_of "down" (length (select (λ n. is_down n.status) t.storage_nodes))
    ++ group_of "healthy" (length (select (λ n. is_healthy n.status) t.storage_nodes))

-- `for status, count in results: summary[status] = count`
unfoldable pub take_counts : Dict String ℕ → Dict String ℕ → Dict String ℕ
unfolding put
take_counts summary [] = summary
take_counts summary ((status, count) ∷ results) = take_counts (put status count summary) results

unfoldable pub get_node_health_summary : Tables → Dict String ℕ
unfolding nodes_by_status take_counts
get_node_health_summary t =
    take_counts (("healthy", 0) ∷ ("degraded", 0) ∷ ("down", 0) ∷ []) (nodes_by_status t)
