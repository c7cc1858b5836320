-- ===== src/Metadata/Database.antt =====
-- metadata-service/database.py, `DatabaseManager`: each method is an action on the connection;
-- a method that catches every exception returns its fallback value. Rows that ORDER BY
-- holds equal keep their order here.
mod Fragments
pub mod Keys
pub mod Videos
pub mod Nodes
unfoldable pub use Fragments.*
use vstack.Prelude.{
  ℕ, suc, ◌+◌, ◌*◌, String, Bool, true, false, not, ◌&&◌, ◌||◌, Option, none, some, List, [], ◌∷◌,
  ◌++◌, map, length, take, drop, ltb, leb, ◌==◌, number_key, text_key, if◌then◌else◌,
}
use vstack.Prelude.Table.{order_by, select, delete, update, insert, replace}
use vstack.Metadata.Tables.{
  Text, VideoStatus, uploading, active, deleted, NodeStatus, healthy, degraded, down, ReplicaStatus,
  RedundancyMode, replication, erasure_coding, VideoRow, ChunkRow, ReplicaRow, NodeRow, FragmentRow,
  StatsRow, Tables, same_video, same_node, same_fragment, same_stats,
}
use vstack.Metadata.Connection.{
  Conn, Error, key_error, Result, ok, raised, M, pure, raise, query, ◌>>=◌, ◌>>◌, Statement,
  execute, commit, for_each, or_else, checked,
}

-- The comparisons that SQL makes with a literal.
abbrev pub is_deleted : VideoStatus → Bool
is_deleted uploading = false
is_deleted active = false
is_deleted deleted = true

abbrev pub is_healthy : NodeStatus → Bool
is_healthy healthy = true
is_healthy degraded = false
is_healthy down = false

abbrev pub is_down : NodeStatus → Bool
is_down healthy = false
is_down degraded = false
is_down down = true

abbrev pub is_erasure_coding : RedundancyMode → Bool
is_erasure_coding replication = false
is_erasure_coding erasure_coding = true

unfoldable pub insert_video : String → String → ℕ → Statement
unfolding insert
insert_video video_id title duration_sec now t =
    let row : VideoRow = record {
      video_id = video_id;
      title = title;
      duration_sec = duration_sec;
      total_chunks = 0;
      chunk_size_bytes = 2097152;
      created_at = now;
      status = uploading;
    } in
    checked (insert same_video row t.videos) (λ rows. record t { videos = rows })

unfoldable pub create_video : String → String → ℕ → Conn → Bool × Conn
unfolding insert_video
create_video video_id title duration_sec =
    or_else false do execute (insert_video video_id title duration_sec); commit; pure true

unfoldable pub first_row {ℓ} : {R : Type ℓ} → List R → Option R
first_row [] = none
first_row (r ∷ rows) = some r

-- `get_video`; a read that raises returns None too
unfoldable pub get_video : String → Tables → Option VideoRow
unfolding first_row select
get_video video_id t = first_row (select (λ v. v.video_id == video_id) t.videos)

unfoldable pub replace_node : String → String → String → Statement
unfolding replace
replace_node node_url node_id version now t =
    let row : NodeRow = record {
      node_url = node_url;
      node_id = node_id;
      last_heartbeat = now;
      disk_usage_percent = 0;
      chunk_count = 0;
      status = healthy;
      version = version;
    } in
    some (record t { storage_nodes = replace same_node row t.storage_nodes })

unfoldable pub register_storage_node : String → String → String → Conn → Bool × Conn
unfolding replace_node
register_storage_node node_url node_id version =
    or_else false do execute (replace_node node_url node_id version); commit; pure true

unfoldable pub set_heartbeat : String → ℕ → ℕ → Statement
unfolding update
set_heartbeat node_id disk_usage chunk_count now t = some (record t {
  storage_nodes =
      update (λ n. n.node_id == node_id)
        (λ n. record n {
          last_heartbeat = now;
          disk_usage_percent = disk_usage;
          chunk_count = chunk_count;
          status = healthy;
        })
        t.storage_nodes;
})

-- `cursor.rowcount`: the rows that the UPDATE picks
unfoldable pub nodes_with_id : String → Tables → ℕ
unfolding select
nodes_with_id node_id t = length (select (λ n. n.node_id == node_id) t.storage_nodes)

unfoldable pub update_node_heartbeat : String → ℕ → ℕ → Conn → Bool × Conn
unfolding set_heartbeat nodes_with_id
update_node_heartbeat node_id disk_usage chunk_count = or_else false do
  rowcount ← query (nodes_with_id node_id)
  execute (set_heartbeat node_id disk_usage chunk_count)
  commit
  pure (not (rowcount == 0))

-- `datetime(last_heartbeat) > datetime('now', '-60 seconds')`
unfoldable pub beats_recently : ℕ → NodeRow → Bool
beats_recently now n = ltb now (n.last_heartbeat + 60)

abbrev pub disk_usage : NodeRow → ℕ
disk_usage n = n.disk_usage_percent

unfoldable pub get_healthy_nodes : ℕ → Tables → List NodeRow
unfolding select beats_recently
get_healthy_nodes now t =
    order_by disk_usage (select (λ n. is_healthy n.status && beats_recently now n) t.storage_nodes)

-- `datetime(last_heartbeat) < datetime('now', '-60 seconds')`
unfoldable pub is_stale : ℕ → NodeRow → Bool
is_stale now n = ltb (n.last_heartbeat + 60) now

unfoldable pub set_stale_down : Statement
unfolding update is_stale
set_stale_down now t = some (record t {
  storage_nodes =
      update (λ n. is_stale now n && not (is_down n.status)) (λ n. record n { status = down })
        t.storage_nodes;
})

unfoldable pub mark_unhealthy_nodes : Conn → Unit {0} × Conn
unfolding set_stale_down
mark_unhealthy_nodes = or_else tt do execute set_stale_down; commit; pure tt

abbrev pub first_view : String → ℕ → StatsRow
first_view video_id now = record {
  video_id = video_id;
  view_count = 1;
  last_viewed = now;
  total_bytes_served = 0;
}

-- `INSERT ... ON CONFLICT(video_id) DO UPDATE SET view_count = view_count + 1`, by what the
-- insertion comes to
unfoldable pub or_count : String → ℕ → List StatsRow → Option (List StatsRow) → List StatsRow
unfolding update
or_count video_id now rows (some rows') = rows'
or_count video_id now rows none =
    update (λ s. s.video_id == video_id)
      (λ s. record s { view_count = s.view_count + 1; last_viewed = now }) rows

unfoldable pub count_view : String → Statement
unfolding insert or_count
count_view video_id now t = some (record t {
  video_stats =
      or_count video_id now t.video_stats
        (insert same_stats (first_view video_id now) t.video_stats);
})

unfoldable pub update_video_stats : String → Bool → Conn → Bool × Conn
unfolding count_view
update_video_stats video_id increment_views =
    or_else false
      do if increment_views then execute (count_view video_id) else pure tt; commit; pure true

unfoldable pub views_of : Option StatsRow → ℕ
views_of none = 0
views_of (some s) = s.view_count

unfoldable pub get_video_popularity : String → Tables → ℕ
unfolding views_of first_row select
get_video_popularity video_id t =
    views_of (first_row (select (λ s. s.video_id == video_id) t.video_stats))

unfoldable pub set_video_status : String → VideoStatus → Statement
unfolding update
set_video_status video_id status now t = some (record t {
  videos = update (λ v. v.video_id == video_id) (λ v. record v { status = status }) t.videos;
})

unfoldable pub videos_with_id : String → Tables → ℕ
unfolding select
videos_with_id video_id t = length (select (λ v. v.video_id == video_id) t.videos)

-- There is no commit in this method.
unfoldable pub update_video_status : String → VideoStatus → Conn → Bool × Conn
unfolding set_video_status videos_with_id
update_video_status video_id status = or_else false do
  rowcount ← query (videos_with_id video_id)
  execute (set_video_status video_id status)
  pure (ltb 0 rowcount)
