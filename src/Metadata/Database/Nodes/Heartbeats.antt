-- ===== src/Metadata/Database/Nodes/Heartbeats.antt =====
-- What a heartbeat makes of a storage node.
use vstack.Prelude.{
  ℕ, ◌+◌, ◌<◌, ◌≡◌, refl, ap, ◌∙◌, String, Bool, true, not, ◌&&◌, List, [], ◌∷◌, any, ◌==◌,
  number_key, text_key, eq_refl, arith,
}
use vstack.Prelude.Table.{any-order_by, select, update}
use vstack.Metadata.Tables.{Tables, NodeRow, healthy}
use vstack.Metadata.Connection.{Conn, query, ◌>>=◌, follow, or_else}
use vstack.Metadata.Connection.Saves.{save_lem}
use vstack.Metadata.Database.{
  disk_usage, set_heartbeat, nodes_with_id, update_node_heartbeat, beats_recently,
  get_healthy_nodes, is_healthy,
}
use vstack.Metadata.Database.Nodes.{set_heartbeat_lem}

any-select :
    (p q : NodeRow → Bool) (rows : List NodeRow)
    → any p (select q rows) ≡ any (λ n. p n && q n) rows
unfolding select
any-select p q [] = refl
any-select p q (n ∷ rows) = ground (arith, any-select p q rows)

abbrev pub has_figures : String → ℕ → ℕ → NodeRow → Bool
has_figures url usage chunks n =
    n.node_url == url && (n.disk_usage_percent == usage && n.chunk_count == chunks)

abbrev beaten : ℕ → ℕ → ℕ → NodeRow → NodeRow
beaten usage chunks now n = record n {
  last_heartbeat = now;
  disk_usage_percent = usage;
  chunk_count = chunks;
  status = healthy;
}

any-beaten :
    (url node_id : String) (usage chunks now later : ℕ) (rows : List NodeRow)
    → any (λ n. n.node_url == url && n.node_id == node_id) rows ≡ true
    → later < now + 60
    → any
        (λ n. has_figures url usage chunks n && (is_healthy n.status && beats_recently later n))
        (update (λ n. n.node_id == node_id) (beaten usage chunks now) rows)
      ≡ true
unfolding update beats_recently
any-beaten url node_id usage chunks now later [] there soon = absurd (ground arith)
any-beaten url node_id usage chunks now later (n ∷ rows) there soon = ground (
  arith,
  there,
  soon,
  eq_refl usage,
  eq_refl chunks,
  any-beaten url node_id usage chunks now later rows,
)

-- A node that is registered with a URL, and whose heartbeat is answered True, is listed as healthy with
-- the figures of the heartbeat until sixty seconds have gone by, whatever its status was before.
pub update_node_heartbeat-listed :
    (url node_id : String) (usage chunks : ℕ) (c : Conn) (later : ℕ)
    → any (λ n. n.node_url == url && n.node_id == node_id) c.working.storage_nodes ≡ true
    → (update_node_heartbeat node_id usage chunks c).0 ≡ true
    → later < c.now + 60
    → let c' = (update_node_heartbeat node_id usage chunks c).1 in
      (any (has_figures url usage chunks) (get_healthy_nodes later c'.working) ≡ true)
      × (any (has_figures url usage chunks) (get_healthy_nodes later c'.durable) ≡ true)
unfolding update_node_heartbeat query ◌>>=◌ follow or_else get_healthy_nodes
update_node_heartbeat-listed url node_id usage chunks c later there answered soon =
    let rows =
      update (λ n. n.node_id == node_id) (beaten usage chunks c.now) c.working.storage_nodes in
    let (at_work, kept, _) =
      save_lem (set_heartbeat node_id usage chunks) (not (nodes_with_id node_id c.working == 0)) c
        (record c.working { storage_nodes = rows })
        (set_heartbeat_lem node_id usage chunks c.now c.working) answered in
    let found =
      any-order_by (has_figures url usage chunks) disk_usage
        (select (λ n. is_healthy n.status && beats_recently later n) rows)
      ∙ any-select (has_figures url usage chunks)
          (λ n. is_healthy n.status && beats_recently later n) rows
      ∙ any-beaten url node_id usage chunks c.now later c.working.storage_nodes there soon in
    (
      ap (λ (t : Tables). any (has_figures url usage chunks) (get_healthy_nodes later t)) at_work
          ∙ found,
      ap (λ (t : Tables). any (has_figures url usage chunks) (get_healthy_nodes later t)) kept
          ∙ found,
    )
