-- ===== src/Metadata/Tests.antt =====
-- The database and the redundancy manager on a few rows.
use vstack.Prelude.{
  ◌&&◌, ◌+◌, ◌≡◌, ◌≢◌, refl, true, false, none, some, List, [], ◌∷◌, any, ◌==◌, number_key,
  text_key, arith,
}
use vstack.Prelude.Dict.{lookup}
use vstack.Metadata.Tables.{
  NodeRow, NodeStatus, healthy, down, Tables, no_rows, no_rows-HasKeys, HasKeys, active,
  replication, erasure_coding, same_video, same_node, same_stats,
}
use vstack.Metadata.Connection.{
  query, Conn, next_fault, later_faults, or_else, execute, commit, ◌>>=◌, pure, run_statement,
  written, commit_now, follow, settle,
}
use vstack.Metadata.Connection.Keeps.{Holds}
use vstack.Metadata.Database.{
  create_video, register_storage_node, update_node_heartbeat, get_healthy_nodes, set_stale_down,
  update_video_stats, get_video_popularity, update_video_status,
}
use vstack.Metadata.Database.Keys.{call, call-HasKeys, create_video_call}
use vstack.Metadata.Database.Videos.{update_video_status-durable, update_video_stats-popularity}
use vstack.Metadata.Database.Nodes.Heartbeats.{has_figures, update_node_heartbeat-listed}
use vstack.Metadata.Database.Nodes.{
  listed, register_storage_node-listed, update_node_heartbeat_known, set_stale_down-healthy,
}
use vstack.Metadata.Redundancy.{
  RedundancyManager, new_manager, determine_redundancy_mode, recommend_migration, by_popularity,
  get_required_nodes, can_tolerate_failures, config_of, set_manual_override, clear_manual_override,
}
use vstack.Metadata.Redundancy.Overrides.{
  Call, determine, set, clear, run, mode_of, determine_redundancy_mode-run,
}
use vstack.Metadata.Redundancy.Policy.{
  recommend_migration_settles, get_required_nodes-eq, enough_to_read,
}

-- An empty database at second 1000, where nothing raises.
abbrev fresh : Conn
fresh = record { working = no_rows; durable = no_rows; faults = []; now = 1000 }

abbrev with_node : Conn
with_node = (register_storage_node "http://n1" "n1" "1.0" fresh).1

created_video_keeps_keys : Holds HasKeys (call (create_video_call "v1" "A film" 90) fresh)
created_video_keeps_keys =
    call-HasKeys (create_video_call "v1" "A film" 90) fresh (no_rows-HasKeys, no_rows-HasKeys)

created_once : (create_video "v1" "A film" 90 (create_video "v1" "A film" 90 fresh).1).0 ≡ false
unfolding create_video same_video or_else execute commit ◌>>=◌ follow run_statement written
    commit_now settle pure next_fault later_faults
created_once = refl

update_video_status-durable_example :
    (update_video_status "v1" active (create_video "v1" "A film" 90 fresh).1).1.durable
    ≡ (create_video "v1" "A film" 90 fresh).1.durable
update_video_status-durable_example =
    update_video_status-durable "v1" active (create_video "v1" "A film" 90 fresh).1

registered_ok : (register_storage_node "http://n1" "n1" "1.0" fresh).0 ≡ true
unfolding register_storage_node same_node or_else execute commit ◌>>=◌ follow run_statement written
    commit_now settle pure next_fault later_faults
registered_ok = refl

register_storage_node-listed_example :
    (listed "http://n1" 1059 with_node.working ≡ true)
    × (listed "http://n1" 1059 with_node.durable ≡ true)
register_storage_node-listed_example =
    register_storage_node-listed "http://n1" "n1" "1.0" fresh 1059 registered_ok

beat_of_unknown_node :
    (update_node_heartbeat "n2" 5 7 fresh).0
    ≡ any (λ n. n.node_id == "n2") fresh.working.storage_nodes
unfolding next_fault later_faults
beat_of_unknown_node = update_node_heartbeat_known "n2" 5 7 fresh refl refl

-- It is heard of at second 1030.
abbrev at_1030 : Conn
at_1030 = record with_node { now = 1030 }

there :
    any (λ n. n.node_url == "http://n1" && n.node_id == "n1") at_1030.working.storage_nodes ≡ true
unfolding register_storage_node same_node or_else execute commit ◌>>=◌ follow run_statement written
    commit_now settle pure next_fault later_faults
there = refl

beat_ok : (update_node_heartbeat "n1" 5 7 at_1030).0 ≡ true
unfolding update_node_heartbeat register_storage_node same_node or_else execute commit query ◌>>=◌
    follow run_statement written commit_now settle pure next_fault later_faults
beat_ok = refl

update_node_heartbeat-listed_example :
    let c' = (update_node_heartbeat "n1" 5 7 at_1030).1 in
    (any (has_figures "http://n1" 5 7) (get_healthy_nodes 1080 c'.working) ≡ true)
    × (any (has_figures "http://n1" 5 7) (get_healthy_nodes 1080 c'.durable) ≡ true)
update_node_heartbeat-listed_example =
    update_node_heartbeat-listed "http://n1" "n1" 5 7 at_1030 1080 there beat_ok (omega arith)

-- A node last heard of at second 1000, as it is then and as it is after the sweep at second 2000.
abbrev node_1 : NodeStatus → NodeRow
node_1 status = record {
  node_url = "http://n1";
  node_id = "n1";
  last_heartbeat = 1000;
  disk_usage_percent = 0;
  chunk_count = 0;
  status = status;
  version = "1.0";
}

abbrev nodes : NodeStatus → Tables
nodes status = record no_rows { storage_nodes = node_1 status ∷ [] }

set_stale_down-healthy_example :
    get_healthy_nodes 2000 (nodes down) ≡ get_healthy_nodes 2000 (nodes healthy)
unfolding set_stale_down
set_stale_down-healthy_example = set_stale_down-healthy 2000 (nodes healthy) (nodes down) refl

viewed_ok : (update_video_stats "v1" true fresh).0 ≡ true
unfolding update_video_stats same_stats or_else execute commit ◌>>=◌ follow run_statement written
    commit_now settle pure next_fault later_faults
viewed_ok = refl

update_video_stats-popularity_example :
    let c' = (update_video_stats "v1" true fresh).1 in
    (get_video_popularity "v1" c'.working ≡ 1) × (c'.durable ≡ c'.working)
unfolding get_video_popularity
update_video_stats-popularity_example = update_video_stats-popularity "v1" "v1" true fresh viewed_ok

abbrev settings : RedundancyManager
settings = new_manager 1000 3 3 2

-- The override of v1 is set, replaced by one that names no mode, and that of v2 is cleared.
abbrev requests : List Call
requests =
    set "v1" replication ∷ set "v2" replication ∷ determine "v1" 5 (some "mirror") ∷ clear "v2" ∷ []

determine_redundancy_mode-run_example :
    mode_of (determine_redundancy_mode "v1" 5 none (run requests settings)) ≡ some replication
determine_redundancy_mode-run_example = determine_redundancy_mode-run requests "v1" 5 settings

cleared_again :
    mode_of (determine_redundancy_mode "v2" 5 none (run requests settings)) ≡ some erasure_coding
unfolding determine_redundancy_mode new_manager set_manual_override clear_manual_override lookup
cleared_again = refl

recommend_migration_settles_example :
    (by_popularity 400 settings ≡ erasure_coding)
    × (replication ≢ erasure_coding)
    × (recommend_migration erasure_coding 400 "increasing" settings ≡ none)
unfolding recommend_migration new_manager
recommend_migration_settles_example =
    recommend_migration_settles replication erasure_coding 400 "decreasing" "increasing" settings
      refl

nodes_for_replication :
    get_required_nodes replication settings
    ≡ can_tolerate_failures replication settings + enough_to_read (config_of replication settings)
nodes_for_replication = get_required_nodes-eq replication 1000 3 3 2 (omega arith)
