-- ===== src/Metadata/Database/Keys.antt =====
-- metadata-service/database.py: the keys of the schema through the methods that write.
use vstack.Prelude.{ℕ, String, Bool, Option, none, some, List, ◌≡◌, refl, number_key, text_key}
use vstack.Prelude.Table.{insert}
use vstack.Prelude.Table.Distinct.{Distinct, Distinct-replace, Distinct-insert, Distinct-update}
use vstack.Metadata.Tables.{
  VideoStatus, NodeRow, StatsRow, same_video, same_node, same_fragment, same_stats, HasKeys,
  same_video_comm, same_node_comm, same_fragment_comm, same_stats_comm,
}
use vstack.Metadata.Connection.{Conn}
use vstack.Metadata.Connection.Keeps.{
  Keeps, Preserves, Preserves-total, Preserves-checked, Keeps-pure, Keeps-raise, Keeps-bind,
  Keeps-execute, Holds, Maintains, keeps_rules,
}
use vstack.Metadata.Database.{
  insert_video, create_video, replace_node, register_storage_node, set_heartbeat,
  update_node_heartbeat, set_stale_down, mark_unhealthy_nodes, FragmentMetadata, insert_fragment,
  node_of, store_fragment, store_chunk_fragments, first_view, or_count, count_view,
  update_video_stats, set_video_status, update_video_status,
}

insert_video-keeps :
    (video_id title : String) (duration_sec : ℕ)
    → Preserves HasKeys (insert_video video_id title duration_sec)
unfolding insert_video
insert_video-keeps video_id title duration_sec = Preserves-checked _ _ λ now t rows e h. record {
  videos_key = Distinct-insert same_video _ t.videos (same_video_comm _) e h.videos_key;
  chunks_key = h.chunks_key;
  replicas_key = h.replicas_key;
  nodes_key = h.nodes_key;
  consensus_key = h.consensus_key;
  fragments_key = h.fragments_key;
  stats_key = h.stats_key;
}

-- The tables other than the nodes stay as they are.
pub Preserves-nodes :
    (f : ℕ → List NodeRow → List NodeRow)
    → ((now : ℕ) (rows : List NodeRow) → Distinct same_node rows → Distinct same_node (f now rows))
    → Preserves HasKeys (λ now t. some (record t { storage_nodes = f now t.storage_nodes }))
Preserves-nodes f k = Preserves-total _ λ now t h. record {
  videos_key = h.videos_key;
  chunks_key = h.chunks_key;
  replicas_key = h.replicas_key;
  nodes_key = k now t.storage_nodes h.nodes_key;
  consensus_key = h.consensus_key;
  fragments_key = h.fragments_key;
  stats_key = h.stats_key;
}

replace_node-keeps :
    (node_url node_id version : String) → Preserves HasKeys (replace_node node_url node_id version)
unfolding replace_node
replace_node-keeps node_url node_id version =
    Preserves-nodes _ λ now rows h. Distinct-replace same_node _ rows (same_node_comm _) h

set_heartbeat-keeps :
    (node_id : String) (disk count : ℕ) → Preserves HasKeys (set_heartbeat node_id disk count)
unfolding set_heartbeat same_node
set_heartbeat-keeps node_id disk count =
    Preserves-nodes _ λ now rows h. Distinct-update same_node _ _ rows (λ x y. refl) (λ x y. refl) h

set_stale_down-keeps : Preserves HasKeys set_stale_down
unfolding set_stale_down same_node
set_stale_down-keeps =
    Preserves-nodes _ λ now rows h. Distinct-update same_node _ _ rows (λ x y. refl) (λ x y. refl) h

insert_fragment-keeps :
    (frag : FragmentMetadata) (node_url : String)
    → Preserves HasKeys (insert_fragment frag node_url)
unfolding insert_fragment
insert_fragment-keeps frag node_url = Preserves-checked _ _ λ now t rows e h. record {
  videos_key = h.videos_key;
  chunks_key = h.chunks_key;
  replicas_key = h.replicas_key;
  nodes_key = h.nodes_key;
  consensus_key = h.consensus_key;
  fragments_key =
      Distinct-insert same_fragment _ t.chunk_fragments (same_fragment_comm _) e h.fragments_key;
  stats_key = h.stats_key;
}

store_fragment-Keeps : (frag : FragmentMetadata) → Keeps HasKeys (store_fragment frag)
unfolding store_fragment
store_fragment-Keeps frag =
    Keeps-bind (node_of frag.node_url) _ (node_of-Keeps frag.node_url)
      λ node_url. Keeps-execute _ (insert_fragment-keeps frag node_url)
  where
    node_of-Keeps : (o : Option String) → Keeps HasKeys (node_of o)
    node_of-Keeps none = unfold node_of in Keeps-raise _
    node_of-Keeps (some s) = unfold node_of in Keeps-pure s

or_count-Distinct :
    (video_id : String) (now : ℕ) (rows : List StatsRow) (o : Option (List StatsRow))
    → insert same_stats (first_view video_id now) rows ≡ o
    → Distinct same_stats rows
    → Distinct same_stats (or_count video_id now rows o)
unfolding or_count same_stats
or_count-Distinct video_id now rows none e h =
    Distinct-update same_stats _ _ rows (λ x y. refl) (λ x y. refl) h
or_count-Distinct video_id now rows (some rows') e h =
    Distinct-insert same_stats (first_view video_id now) rows
      (same_stats_comm (first_view video_id now)) e h

count_view-keeps : (video_id : String) → Preserves HasKeys (count_view video_id)
unfolding count_view
count_view-keeps video_id = Preserves-total _ λ now t h. record {
  videos_key = h.videos_key;
  chunks_key = h.chunks_key;
  replicas_key = h.replicas_key;
  nodes_key = h.nodes_key;
  consensus_key = h.consensus_key;
  fragments_key = h.fragments_key;
  stats_key = or_count-Distinct video_id now t.video_stats _ refl h.stats_key;
}

set_video_status-keeps :
    (video_id : String) (status : VideoStatus)
    → Preserves HasKeys (set_video_status video_id status)
unfolding set_video_status same_video
set_video_status-keeps video_id status = Preserves-total _ λ now t h. record {
  videos_key = Distinct-update same_video _ _ t.videos (λ x y. refl) (λ x y. refl) h.videos_key;
  chunks_key = h.chunks_key;
  replicas_key = h.replicas_key;
  nodes_key = h.nodes_key;
  consensus_key = h.consensus_key;
  fragments_key = h.fragments_key;
  stats_key = h.stats_key;
}

-- A call of a method that writes.
pub data Method : Type 0 where
  create_video_call : String → String → ℕ → Method
  register_storage_node_call : String → String → String → Method
  update_node_heartbeat_call : String → ℕ → ℕ → Method
  mark_unhealthy_nodes_call : Method
  store_chunk_fragments_call : List FragmentMetadata → Method
  update_video_stats_call : String → Bool → Method
  update_video_status_call : String → VideoStatus → Method

abbrev pub call : Method → Conn → Conn
call (create_video_call video_id title duration) c = (create_video video_id title duration c).1
call (register_storage_node_call url id version) c = (register_storage_node url id version c).1
call (update_node_heartbeat_call id disk count) c = (update_node_heartbeat id disk count c).1
call mark_unhealthy_nodes_call c = (mark_unhealthy_nodes c).1
call (store_chunk_fragments_call frags) c = (store_chunk_fragments frags c).1
call (update_video_stats_call video_id increment) c = (update_video_stats video_id increment c).1
call (update_video_status_call video_id status) c = (update_video_status video_id status c).1

ruleset statement_rules = (
  keeps_rules, insert_video-keeps, replace_node-keeps, set_heartbeat-keeps, set_stale_down-keeps,
  store_fragment-Keeps, count_view-keeps, set_video_status-keeps,
)

-- Every method, whichever of its statements raise, leaves every key of the schema a key of the
-- rows, of those that the connection sees and of those that are committed.
pub call-HasKeys : (k : Method) (c : Conn) → Holds HasKeys c → Holds HasKeys (call k c)
unfolding create_video register_storage_node update_node_heartbeat mark_unhealthy_nodes
    store_chunk_fragments update_video_stats update_video_status
call-HasKeys (create_video_call video_id title duration) c h = keeps.always c h
  where
    keeps : Maintains HasKeys (create_video video_id title duration)
    keeps = search statement_rules
call-HasKeys (register_storage_node_call url id version) c h = keeps.always c h
  where
    keeps : Maintains HasKeys (register_storage_node url id version)
    keeps = search statement_rules
call-HasKeys (update_node_heartbeat_call id disk count) c h = keeps.always c h
  where
    keeps : Maintains HasKeys (update_node_heartbeat id disk count)
    keeps = search statement_rules
call-HasKeys mark_unhealthy_nodes_call c h = keeps.always c h
  where
    keeps : Maintains HasKeys mark_unhealthy_nodes
    keeps = search statement_rules
call-HasKeys (store_chunk_fragments_call frags) c h = keeps.always c h
  where
    keeps : Maintains HasKeys (store_chunk_fragments frags)
    keeps = search statement_rules
call-HasKeys (update_video_stats_call video_id increment) c h = keeps.always c h
  where
    keeps : Maintains HasKeys (update_video_stats video_id increment)
    keeps = search statement_rules
call-HasKeys (update_video_status_call video_id status) c h = keeps.always c h
  where
    keeps : Maintains HasKeys (update_video_status video_id status)
    keeps = search statement_rules
