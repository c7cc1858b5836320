-- ===== src/Metadata/HealthMonitor/Tests.antt =====
-- The health monitor on two nodes.
use vstack.Prelude.{
  ◌≡◌, refl, true, false, some, [], ◌∷◌, ◌++◌, map, if◌then◌else◌, String, ◌==◌, text_key,
}
use vstack.Metadata.Tables.{NodeRow, NodeStatus, healthy, down, Tables, no_rows, HasKeys, same_node}
use vstack.Metadata.Connection.Keeps.{Holds}
use vstack.Metadata.Database.{mark_unhealthy_nodes}
use vstack.Metadata.HealthMonitor.{
  Probe, answered, unreachable, mark_unhealthy, monitor_pass, register_node_if_new,
  get_node_health_summary,
}
use vstack.Metadata.HealthMonitor.RowAfter.{row_after}
use vstack.Metadata.HealthMonitor.Passes.{quiet, with_nodes, mark_unhealthy-eq, monitor_pass-eq}
use vstack.Metadata.HealthMonitor.Keys.{monitor_pass-HasKeys}
use vstack.Metadata.HealthMonitor.Registration.{is_known, new_node, register_node_if_new-eq}

abbrev node : String → String → NodeStatus → NodeRow
node url id status = record {
  node_url = url;
  node_id = id;
  last_heartbeat = 1000;
  disk_usage_percent = 10;
  chunk_count = 4;
  status = status;
  version = "1.0";
}

-- n1 is healthy so far, n2 is down.
abbrev two_nodes : Tables
two_nodes = with_nodes (node "http://n1" "n1" healthy ∷ node "http://n2" "n2" down ∷ []) no_rows

two_nodes-HasKeys : HasKeys two_nodes
unfolding same_node
two_nodes-HasKeys = record {
  videos_key = tt;
  chunks_key = tt;
  replicas_key = tt;
  nodes_key = ((refl, tt), (tt, tt));
  consensus_key = tt;
  fragments_key = tt;
  stats_key = tt;
}

-- Only n2 answers.
abbrev health : String → Probe
health url = if url == "http://n2" then answered 200 (some (20, 5)) else unreachable

mark_unhealthy-eq_example :
    (mark_unhealthy 60 2000 (quiet two_nodes no_rows 2000)).1
    ≡ (mark_unhealthy_nodes (quiet two_nodes no_rows 2000)).1
mark_unhealthy-eq_example = mark_unhealthy-eq two_nodes no_rows 2000 two_nodes-HasKeys.nodes_key

monitor_pass-eq_example :
    let t' = with_nodes (map (row_after 60 2000 health 2000) two_nodes.storage_nodes) two_nodes in
    monitor_pass 60 2000 health (quiet two_nodes no_rows 2000) ≡ quiet t' t' 2000
monitor_pass-eq_example =
    monitor_pass-eq 60 2000 health two_nodes no_rows 2000 two_nodes-HasKeys.nodes_key

pass_keeps_keys : Holds HasKeys (
    monitor_pass 60 2000 health
      (record (quiet two_nodes two_nodes 2000) { faults = false ∷ true ∷ [] }))
pass_keeps_keys =
    monitor_pass-HasKeys 60 2000 health
      (record (quiet two_nodes two_nodes 2000) { faults = false ∷ true ∷ [] })
      (two_nodes-HasKeys, two_nodes-HasKeys)

register_node_if_new-eq_example :
    let t' =
      with_nodes (two_nodes.storage_nodes ++ new_node "http://n3" "n3" "1.1" 2000 ∷ []) two_nodes in
    register_node_if_new "http://n3" "n3" "1.1" (quiet two_nodes no_rows 2000) ≡ (
      if is_known "http://n3" "n3" two_nodes
      then (false, quiet two_nodes no_rows 2000)
      else (true, quiet t' t' 2000))
register_node_if_new-eq_example =
    register_node_if_new-eq "http://n3" "n3" "1.1" two_nodes no_rows 2000

summary_of_two :
    get_node_health_summary two_nodes ≡ ("healthy", 1) ∷ ("degraded", 0) ∷ ("down", 1) ∷ []
unfolding get_node_health_summary
summary_of_two = refl
