-- ===== src/Metadata/HealthMonitor/Keys.antt =====
-- The keys of the schema through the monitor's methods.
use vstack.Prelude.{
  ℕ, String, Bool, true, false, Option, none, some, List, [], ◌∷◌, refl, if◌then◌else◌, ◌==◌,
  number_key,
}
use vstack.Prelude.Table.Distinct.{Distinct-insert, Distinct-update}
use vstack.Metadata.Tables.{NodeRow, same_node, HasKeys, same_node_comm}
use vstack.Metadata.Connection.{Conn}
use vstack.Metadata.Connection.Keeps.{
  Holds, Keeps, Maintains, Preserves, Preserves-checked, Keeps-pure, keeps_rules,
}
use vstack.Metadata.Database.Keys.{Preserves-nodes}
use vstack.Metadata.HealthMonitor.{
  change_node, as_down, as_recovered, with_stats, set_node_down, mark_unhealthy,
  mark_node_recovered, update_node_stats, Probe, answered, unreachable, recover_if_down, take_stats,
  after_probe, probe_single_node, probe_each, probe_all_nodes, monitor_pass, insert_node,
  register_unless, register_node_if_new,
}

set_down-Preserves : (node_id : String) → Preserves HasKeys (change_node node_id as_down)
unfolding change_node same_node
set_down-Preserves node_id =
    Preserves-nodes _ λ now rows h. Distinct-update same_node _ _ rows (λ x y. refl) (λ x y. refl) h

set_recovered-Preserves : (node_id : String) → Preserves HasKeys (change_node node_id as_recovered)
unfolding change_node same_node
set_recovered-Preserves node_id =
    Preserves-nodes _ λ now rows h. Distinct-update same_node _ _ rows (λ x y. refl) (λ x y. refl) h

set_stats-Preserves :
    (node_id : String) (disk_usage chunk_count : ℕ)
    → Preserves HasKeys (change_node node_id (with_stats disk_usage chunk_count))
unfolding change_node same_node
set_stats-Preserves node_id disk_usage chunk_count =
    Preserves-nodes _ λ now rows h. Distinct-update same_node _ _ rows (λ x y. refl) (λ x y. refl) h

insert_node-Preserves :
    (node_url node_id version : String) → Preserves HasKeys (insert_node node_url node_id version)
unfolding insert_node
insert_node-Preserves node_url node_id version = Preserves-checked _ _ λ now t rows e h. record {
  videos_key = h.videos_key;
  chunks_key = h.chunks_key;
  replicas_key = h.replicas_key;
  nodes_key = Distinct-insert same_node _ t.storage_nodes (same_node_comm _) e h.nodes_key;
  consensus_key = h.consensus_key;
  fragments_key = h.fragments_key;
  stats_key = h.stats_key;
}

set_node_down-Keeps : (n : NodeRow) → Keeps HasKeys (set_node_down n)
unfolding set_node_down
set_node_down-Keeps n = search (keeps_rules, set_down-Preserves)

pub mark_unhealthy-HasKeys :
    (heartbeat_timeout local_now : ℕ)
    → Maintains HasKeys (mark_unhealthy heartbeat_timeout local_now)
unfolding mark_unhealthy
mark_unhealthy-HasKeys heartbeat_timeout local_now = search (keeps_rules, set_node_down-Keeps)

mark_node_recovered-HasKeys : (node_id : String) → Maintains HasKeys (mark_node_recovered node_id)
unfolding mark_node_recovered
mark_node_recovered-HasKeys node_id = search (keeps_rules, set_recovered-Preserves)

update_node_stats-HasKeys :
    (node_id : String) (disk_usage chunk_count : ℕ)
    → Maintains HasKeys (update_node_stats node_id disk_usage chunk_count)
unfolding update_node_stats
update_node_stats-HasKeys node_id disk_usage chunk_count = search (keeps_rules, set_stats-Preserves)

register_unless-Keeps :
    (o : Option NodeRow) (node_url node_id version : String)
    → Keeps HasKeys (register_unless o node_url node_id version)
unfolding register_unless
register_unless-Keeps (some n) node_url node_id version = Keeps-pure false
register_unless-Keeps none node_url node_id version = search (keeps_rules, insert_node-Preserves)

pub register_node_if_new-HasKeys :
    (node_url node_id version : String)
    → Maintains HasKeys (register_node_if_new node_url node_id version)
unfolding register_node_if_new
register_node_if_new-HasKeys node_url node_id version = search (keeps_rules, register_unless-Keeps)

recover_if_down-HasKeys :
    (b : Bool) (node_id : String) (c : Conn)
    → Holds HasKeys c
    → Holds HasKeys (recover_if_down b node_id c)
unfolding recover_if_down
recover_if_down-HasKeys true node_id c h = (mark_node_recovered-HasKeys node_id).always c h
recover_if_down-HasKeys false node_id c h = h

take_stats-HasKeys :
    (body : Option (ℕ × ℕ)) (node_id : String) (c : Conn)
    → Holds HasKeys c
    → Holds HasKeys (take_stats body node_id c)
unfolding take_stats
take_stats-HasKeys none node_id c h = h
take_stats-HasKeys (some (disk_usage, chunk_count)) node_id c h =
    (update_node_stats-HasKeys node_id disk_usage chunk_count).always c h

if-Holds :
    (b : Bool) (c c' : Conn)
    → Holds HasKeys c
    → Holds HasKeys c'
    → Holds HasKeys (if b then c else c')
if-Holds true c c' h h' = h
if-Holds false c c' h h' = h'

after_probe-HasKeys :
    (p : Probe) (n : NodeRow) (c : Conn) → Holds HasKeys c → Holds HasKeys (after_probe p n c)
unfolding after_probe
after_probe-HasKeys unreachable n c h = h
after_probe-HasKeys (answered status_code body) n c h =
    if-Holds (status_code == 200) _ c
      (take_stats-HasKeys body n.node_id _ (recover_if_down-HasKeys _ n.node_id c h)) h

probe_each-HasKeys :
    (health : String → Probe) (xs : List NodeRow) (c : Conn)
    → Holds HasKeys c
    → Holds HasKeys (probe_each health xs c)
unfolding probe_each probe_single_node
probe_each-HasKeys health [] c h = h
probe_each-HasKeys health (x ∷ xs) c h =
    probe_each-HasKeys health xs _ (after_probe-HasKeys (health x.node_url) x c h)

-- A pass, whichever of its statements raise, leaves every key of the schema a key of the rows, of
-- those that the connection sees and of those that are committed.
pub monitor_pass-HasKeys :
    (heartbeat_timeout local_now : ℕ) (health : String → Probe) (c : Conn)
    → Holds HasKeys c
    → Holds HasKeys (monitor_pass heartbeat_timeout local_now health c)
unfolding monitor_pass probe_all_nodes
monitor_pass-HasKeys heartbeat_timeout local_now health c h =
    let marked = (mark_unhealthy heartbeat_timeout local_now c).1 in
    probe_each-HasKeys health marked.working.storage_nodes marked
      ((mark_unhealthy-HasKeys heartbeat_timeout local_now).always c h)
