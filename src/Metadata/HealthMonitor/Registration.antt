-- ===== src/Metadata/HealthMonitor/Registration.antt =====
-- The registration of nodes that are not known yet.
use vstack.Prelude.{
  ℕ, ◌≡◌, refl, ap, ◌∙◌, String, Bool, true, false, ◌||◌, Option, none, some, List, [], ◌∷◌, ◌++◌,
  any, if◌then◌else◌, ◌==◌, text_key, arith, eq_iff, Bool-cases, inl, inr,
}
use vstack.Prelude.Table.{select, insert}
use vstack.Metadata.Tables.{NodeRow, healthy, Tables, same_node}
use vstack.Metadata.Connection.{
  Conn, pure, query, ◌>>=◌, follow, execute, commit, run_statement, written, commit_now, next_fault,
  later_faults, settle, or_else,
}
use vstack.Metadata.Database.{first_row}
use vstack.Metadata.HealthMonitor.{known_node, insert_node, register_unless, register_node_if_new}
use vstack.Metadata.HealthMonitor.Passes.{quiet, with_nodes}

abbrev pub new_node : String → String → String → ℕ → NodeRow
new_node node_url node_id version now = record {
  node_url = node_url;
  node_id = node_id;
  last_heartbeat = now;
  disk_usage_percent = 0;
  chunk_count = 0;
  status = healthy;
  version = version;
}

-- Whether a node of the id, or at the URL, has a row.
abbrev pub is_known : String → String → Tables → Bool
is_known node_url node_id t =
    any (λ n. n.node_id == node_id || n.node_url == node_url) t.storage_nodes

any_clash :
    (node_url node_id version : String) (now : ℕ) (rows : List NodeRow)
    → any (same_node (new_node node_url node_id version now)) rows
      ≡ any (λ n. n.node_id == node_id || n.node_url == node_url) rows
unfolding same_node
any_clash node_url node_id version now [] = refl
any_clash node_url node_id version now (n ∷ rows) = ground (
  arith,
  any_clash node_url node_id version now rows,
  eq_iff n.node_id node_id,
  eq_iff node_id n.node_id,
  eq_iff n.node_url node_url,
  eq_iff node_url n.node_url,
)

first_row-none :
    (p : NodeRow → Bool) (rows : List NodeRow)
    → any p rows ≡ false
    → first_row (select p rows) ≡ none
unfolding first_row select
first_row-none p [] h = refl
first_row-none p (n ∷ rows) h = ground (arith, first_row-none p rows)

is_some : Option NodeRow → Bool
is_some none = false
is_some (some n) = true

first_row-some :
    (p : NodeRow → Bool) (rows : List NodeRow) → is_some (first_row (select p rows)) ≡ any p rows
unfolding first_row select is_some
first_row-some p [] = refl
first_row-some p (n ∷ rows) = ground (arith, first_row-some p rows)

-- A node that is known stays as it is.
known_left :
    (found : Option NodeRow) (node_url node_id version : String) (c : Conn)
    → is_some found ≡ true
    → or_else false (register_unless found node_url node_id version) c ≡ (false, c)
unfolding register_unless is_some or_else settle pure
known_left none node_url node_id version c h = absurd cc
known_left (some n) node_url node_id version c h = refl

unknown_added :
    (node_url node_id version : String) (t d : Tables) (now : ℕ)
    → any (same_node (new_node node_url node_id version now)) t.storage_nodes ≡ false
    → let t' = with_nodes (t.storage_nodes ++ new_node node_url node_id version now ∷ []) t in
      or_else false (register_unless none node_url node_id version) (quiet t d now)
      ≡ (true, quiet t' t' now)
unfolding register_unless insert_node insert pure ◌>>=◌ follow execute run_statement written commit
    commit_now next_fault later_faults or_else settle
unknown_added node_url node_id version t d now h = rw h refl

-- Registration on a connection that does not raise: a node whose id or URL has a row already is
-- answered False and nothing changes; any other has one row more after it, healthy and heard of
-- now, committed, and is answered True. The constraints of the table never stop it.
pub register_node_if_new-eq :
    (node_url node_id version : String) (t d : Tables) (now : ℕ)
    → let t' = with_nodes (t.storage_nodes ++ new_node node_url node_id version now ∷ []) t in
      register_node_if_new node_url node_id version (quiet t d now)
      ≡ (if is_known node_url node_id t then (false, quiet t d now) else (true, quiet t' t' now))
unfolding register_node_if_new known_node query ◌>>=◌ follow or_else
register_node_if_new-eq node_url node_id version t d now =
    let p = λ (n : NodeRow). n.node_id == node_id || n.node_url == node_url in
    let found = first_row (select p t.storage_nodes) in
    elim (Bool-cases (is_known node_url node_id t)) [
      | inl e ↦ rw e (
          known_left found node_url node_id version (quiet t d now)
            (first_row-some p t.storage_nodes ∙ e))
      | inr e ↦ rw e (
          ap
            (λ (o : Option NodeRow).
              or_else false (register_unless o node_url node_id version) (quiet t d now))
            (first_row-none p t.storage_nodes e)
          ∙ unknown_added node_url node_id version t d now
              (any_clash node_url node_id version now t.storage_nodes ∙ e))
    ]
