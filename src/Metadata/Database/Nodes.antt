-- ===== src/Metadata/Database/Nodes.antt =====
-- The storage nodes: registration, heartbeats, and which of them count as healthy.
pub mod Heartbeats
use vstack.Prelude.{
  ℕ, ◌+◌, ◌≡◌, refl, ap, ◌∙◌, String, Bool, true, false, not, ◌&&◌, some, List, [], ◌∷◌, length,
  any, ◌==◌, number_key, text_key, eq_iff, eq_refl, ltb, arith,
}
use vstack.Prelude.Table.{order_by, any-order_by, select, update, delete, replace, select-update}
use vstack.Metadata.Tables.{Tables, NodeRow, healthy, down, same_node}
use vstack.Metadata.Connection.{Conn, query, ◌>>=◌, follow, next_fault, later_faults, or_else}
use vstack.Metadata.Connection.Saves.{save_lem, save_succeeds}
use vstack.Metadata.Database.{
  disk_usage, replace_node, register_storage_node, set_heartbeat, nodes_with_id,
  update_node_heartbeat, beats_recently, get_healthy_nodes, is_stale, is_healthy, is_down,
  set_stale_down,
}

-- Whether a URL is among the nodes that `get_healthy_nodes` lists at a time.
abbrev pub listed : String → ℕ → Tables → Bool
listed url now t = any (λ n. n.node_url == url) (get_healthy_nodes now t)

-- The rows for a URL, as `get_healthy_nodes` lists them.
listed_any :
    (url : String) (now : ℕ) (rows : List NodeRow)
    → any (λ n. n.node_url == url) (select (λ n. is_healthy n.status && beats_recently now n) rows)
      ≡ any (λ n. (n.node_url == url) && (is_healthy n.status && beats_recently now n)) rows
unfolding select
listed_any url now [] = refl
listed_any url now (n ∷ rows) = ground (arith, listed_any url now rows)

same_url :
    (url : String) (r n : NodeRow) (b : Bool)
    → r.node_url ≡ url
    → ((n.node_url == url) && b) ≡ true
    → same_node r n ≡ true
unfolding same_node
same_url url r n b e h = ground (arith, h, eq_iff n.node_url url, eq_iff r.node_url n.node_url)

any_replaced :
    (p : NodeRow → Bool) (r : NodeRow) (rows : List NodeRow)
    → ((n : NodeRow) → p n ≡ true → same_node r n ≡ true)
    → any p (replace same_node r rows) ≡ p r
unfolding replace delete
any_replaced p r [] h = ground arith
any_replaced p r (n ∷ rows) h = ground (arith, h n, any_replaced p r rows h)

registered : String → String → String → Tables → ℕ → Tables
registered url node_id version t now =
    let row : NodeRow = record {
      node_url = url;
      node_id = node_id;
      last_heartbeat = now;
      disk_usage_percent = 0;
      chunk_count = 0;
      status = healthy;
      version = version;
    } in
    record t { storage_nodes = replace same_node row t.storage_nodes }

replace_node_lem :
    (url node_id version : String) (now : ℕ) (t : Tables)
    → replace_node url node_id version now t ≡ some (registered url node_id version t now)
unfolding replace_node registered
replace_node_lem url node_id version now t = refl

listed-registered :
    (url node_id version : String) (now later : ℕ) (t : Tables)
    → listed url later (registered url node_id version t now) ≡ ltb later (now + 60)
unfolding registered get_healthy_nodes beats_recently
listed-registered url node_id version now later t =
    let row : NodeRow = record {
      node_url = url;
      node_id = node_id;
      last_heartbeat = now;
      disk_usage_percent = 0;
      chunk_count = 0;
      status = healthy;
      version = version;
    } in
    any-order_by (λ n. n.node_url == url) disk_usage
      (select (λ n. is_healthy n.status && beats_recently later n)
        (replace same_node row t.storage_nodes))
    ∙ listed_any url later (replace same_node row t.storage_nodes)
    ∙ any_replaced (λ n. (n.node_url == url) && (is_healthy n.status && beats_recently later n)) row
        t.storage_nodes
        (λ n h. same_url url row n (is_healthy n.status && beats_recently later n) refl h)
    ∙ ground (arith, eq_refl url)

-- A node that registers is listed as healthy until sixty seconds have gone by, and no longer
-- unless it is heard of again.
pub register_storage_node-listed :
    (url node_id version : String) (c : Conn) (later : ℕ)
    → let (success, c') = register_storage_node url node_id version c in
      success ≡ true
      → (listed url later c'.working ≡ ltb later (c.now + 60))
        × (listed url later c'.durable ≡ ltb later (c.now + 60))
unfolding register_storage_node
register_storage_node-listed url node_id version c later h =
    let (at_work, kept, _) =
      save_lem (replace_node url node_id version) true c
        (registered url node_id version c.working c.now)
        (replace_node_lem url node_id version c.now c.working) h in
    (
      ap (listed url later) at_work ∙ listed-registered url node_id version c.now later c.working,
      ap (listed url later) kept ∙ listed-registered url node_id version c.now later c.working,
    )

length-select :
    (p : NodeRow → Bool) (rows : List NodeRow) → not (length (select p rows) == 0) ≡ any p rows
unfolding select
length-select p [] = refl
length-select p (n ∷ rows) = ground (arith, length-select p rows)

set_heartbeat_lem :
    (node_id : String) (disk_usage chunk_count now : ℕ) (t : Tables)
    → set_heartbeat node_id disk_usage chunk_count now t
      ≡ some (record t {
        storage_nodes =
            update
              (λ n. n.node_id == node_id)
              (λ n. record n {
                last_heartbeat = now;
                disk_usage_percent = disk_usage;
                chunk_count = chunk_count;
                status = healthy;
              })
              t.storage_nodes;
      })
unfolding set_heartbeat
set_heartbeat_lem node_id disk_usage chunk_count now t = refl

-- A heartbeat on a connection that does not raise is answered True just when a node of that id is
-- registered.
pub update_node_heartbeat_known :
    (node_id : String) (disk_usage chunk_count : ℕ) (c : Conn)
    → next_fault c.faults ≡ false
    → next_fault (later_faults c.faults) ≡ false
    → (update_node_heartbeat node_id disk_usage chunk_count c).0
      ≡ any (λ n. n.node_id == node_id) c.working.storage_nodes
unfolding update_node_heartbeat query ◌>>=◌ follow or_else nodes_with_id
update_node_heartbeat_known node_id disk_usage chunk_count c f₁ f₂ =
    save_succeeds (set_heartbeat node_id disk_usage chunk_count) _ c _
      (set_heartbeat_lem node_id disk_usage chunk_count c.now c.working) f₁ f₂
    ∙ length-select (λ n. n.node_id == node_id) c.working.storage_nodes

stale_unlisted :
    (now : ℕ) (n : NodeRow)
    → (is_stale now n && not (is_down n.status)) ≡ true
    → (is_healthy n.status && beats_recently now n) ≡ false
unfolding is_stale beats_recently
stale_unlisted now n h = ground arith

-- Marking the stale nodes as down changes nothing about which nodes count as healthy then: those
-- that it marks were not listed any more.
pub set_stale_down-healthy :
    (now : ℕ) (t t' : Tables)
    → set_stale_down now t ≡ some t'
    → get_healthy_nodes now t' ≡ get_healthy_nodes now t
unfolding set_stale_down get_healthy_nodes
set_stale_down-healthy now t t' e = rw (← e') (
    ap (order_by disk_usage) (
      select-update (λ n. is_healthy n.status && beats_recently now n)
        (λ n. is_stale now n && not (is_down n.status)) (λ n. record n { status = down })
        t.storage_nodes (λ n h. stale_unlisted now n h) (λ n h. refl)))
  where
    e' :
        record t {
          storage_nodes =
              update
                (λ n. is_stale now n && not (is_down n.status))
                (λ n. record n { status = down })
                t.storage_nodes;
        }
        ≡ t'
    e' = cc
