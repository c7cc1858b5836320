-- ===== src/Metadata/HealthMonitor/Passes.antt =====
-- A pass of the monitor over a connection that does not raise.
use vstack.Prelude.{
  ℕ, ◌+◌, ltb, ◌||◌, ◌≡◌, refl, sym, ap, ◌∙◌, String, Bool, true, false, not, ◌&&◌, Option, none,
  some, List, [], ◌∷◌, map, length, if◌then◌else◌, ◌==◌, number_key, text_key, arith,
}
use vstack.Prelude.Table.{update}
use vstack.Prelude.Table.Distinct.{Distinct, Distinct-update}
use vstack.Metadata.HealthMonitor.RowAfter.{is_gone, expected, row_after}
use vstack.Metadata.Tables.{NodeStatus, healthy, degraded, down, NodeRow, Tables, same_node}
use vstack.Metadata.Connection.{
  Conn, Result, ok, pure, query, ◌>>=◌, follow, execute, commit, run_statement, written, commit_now,
  next_fault, later_faults, settle, for_each, or_else,
}
use vstack.Metadata.Database.{is_down, is_stale, set_stale_down, mark_unhealthy_nodes}
use vstack.Metadata.HealthMonitor.{
  is_overdue, stale_nodes, change_node, as_down, as_recovered, with_stats, set_node_down,
  mark_unhealthy, mark_node_recovered, update_node_stats, Probe, answered, unreachable,
  recover_if_down, take_stats, after_probe, probe_single_node, probe_each, probe_all_nodes,
  monitor_pass,
}
use vstack.Metadata.HealthMonitor.Rows.{
  update_each, update_each-select, update_each-all, update-eq-map, update-twice, update-same,
}

-- A connection on which nothing raises.
abbrev pub quiet : Tables → Tables → ℕ → Conn
quiet t d now = record { working = t; durable = d; faults = []; now = now }

abbrev pub with_nodes : List NodeRow → Tables → Tables
with_nodes rows t = record t { storage_nodes = rows }

set_each_down :
    (xs : List NodeRow) (t d : Tables) (now : ℕ)
    → for_each set_node_down xs (quiet t d now)
      ≡ (ok tt, quiet (with_nodes (update_each (λ x. as_down now) xs t.storage_nodes) t) d now)
unfolding for_each set_node_down change_node update_each pure ◌>>=◌ follow execute run_statement
    written next_fault later_faults
set_each_down [] t d now = refl
set_each_down (x ∷ xs) t d now =
    set_each_down xs
      (with_nodes (update (λ n. n.node_id == x.node_id) (as_down now) t.storage_nodes) t) d now

-- What the marking makes of a row.
unfoldable pub after_marking : ℕ → ℕ → ℕ → NodeRow → NodeRow
after_marking heartbeat_timeout local_now now n =
    if is_overdue heartbeat_timeout local_now n && not (is_down n.status) then as_down now n else n

mark_unhealthy_lem :
    (heartbeat_timeout local_now : ℕ) (t d : Tables) (now : ℕ)
    → Distinct same_node t.storage_nodes
    → let t' = with_nodes (map (after_marking heartbeat_timeout local_now now) t.storage_nodes) t in
      mark_unhealthy heartbeat_timeout local_now (quiet t d now)
      ≡ (length (stale_nodes heartbeat_timeout local_now t), quiet t' t' now)
unfolding mark_unhealthy set_node_down stale_nodes after_marking query pure ◌>>=◌ follow commit
    commit_now next_fault later_faults or_else settle
mark_unhealthy_lem heartbeat_timeout local_now t d now h =
    let stale = stale_nodes heartbeat_timeout local_now t in
    let same_rows =
      update_each-select (λ x. as_down now) (λ x n. refl)
        (λ n. is_overdue heartbeat_timeout local_now n && not (is_down n.status)) t.storage_nodes
        h in
    ap
      (λ (r : Result (Unit {0}) × Conn).
        let (r', c') = follow r.0 (λ _. commit >>= λ _. pure (length stale)) r.1 in
        (settle 0 r', c'))
      (set_each_down stale t d now)
    ∙ ap
        (λ (rows : List NodeRow). (length stale, quiet (with_nodes rows t) (with_nodes rows t) now))
        same_rows

-- With the service's clock on the database's, and the timeout at sixty seconds, the monitor's
-- marking, one statement for each silent node, leaves the connection as the one statement of
-- the database's `mark_unhealthy_nodes` does, where the nodes have distinct keys and nothing raises.
pub mark_unhealthy-eq :
    (t d : Tables) (now : ℕ)
    → Distinct same_node t.storage_nodes
    → (mark_unhealthy 60 now (quiet t d now)).1 ≡ (mark_unhealthy_nodes (quiet t d now)).1
unfolding mark_unhealthy_nodes set_stale_down is_stale is_overdue after_marking pure ◌>>=◌ follow
    execute run_statement written commit commit_now next_fault later_faults or_else settle
mark_unhealthy-eq t d now h =
    ap (λ (r : ℕ × Conn). r.1) (mark_unhealthy_lem 60 now t d now h)
    ∙ ap (λ (rows : List NodeRow). quiet (with_nodes rows t) (with_nodes rows t) now)
        (sym (
          update-eq-map (λ n. is_stale now n && not (is_down n.status)) (as_down now)
            t.storage_nodes))

-- What an answer makes of a row, by the status that the probe was sent with.
unfoldable pub revived : Bool → ℕ → NodeRow → NodeRow
revived was_down now n = if was_down then as_recovered now n else n

unfoldable pub counted : Option (ℕ × ℕ) → ℕ → NodeRow → NodeRow
counted none now n = n
counted (some (disk_usage, chunk_count)) now n = with_stats disk_usage chunk_count now n

unfoldable pub after_answer : Probe → ℕ → NodeRow → NodeRow → NodeRow
unfolding revived counted
after_answer unreachable now x n = n
after_answer (answered status_code body) now x n =
    if status_code == 200 then counted body now (revived (is_down x.status) now n) else n

answer_keeps_id :
    (p : Probe) (now : ℕ) (x n : NodeRow) → (after_answer p now x n).node_id ≡ n.node_id
unfolding after_answer counted revived
answer_keeps_id unreachable now x n = refl
answer_keeps_id (answered status_code none) now x n = ground arith
answer_keeps_id (answered status_code (some figures)) now x n = ground arith

abbrev changed : String → (NodeRow → NodeRow) → Tables → Tables
changed node_id f t = with_nodes (update (λ n. n.node_id == node_id) f t.storage_nodes) t

abbrev settled : Tables → ℕ → Conn
settled t now = quiet t t now

recover_if_down_lem :
    (b : Bool) (node_id : String) (t : Tables) (now : ℕ)
    → recover_if_down b node_id (settled t now) ≡ settled (changed node_id (revived b now) t) now
unfolding recover_if_down revived mark_node_recovered change_node pure ◌>>=◌ follow execute
    run_statement written commit commit_now next_fault later_faults or_else
recover_if_down_lem true node_id t now = refl
recover_if_down_lem false node_id t now =
    ap (λ (rows : List NodeRow). settled (with_nodes rows t) now)
      (sym (update-same (λ n. n.node_id == node_id) t.storage_nodes))

take_stats_lem :
    (body : Option (ℕ × ℕ)) (node_id : String) (t : Tables) (now : ℕ)
    → take_stats body node_id (settled t now) ≡ settled (changed node_id (counted body now) t) now
unfolding take_stats counted update_node_stats change_node pure ◌>>=◌ follow execute run_statement
    written commit commit_now next_fault later_faults or_else
take_stats_lem (some figures) node_id t now = refl
take_stats_lem none node_id t now =
    ap (λ (rows : List NodeRow). settled (with_nodes rows t) now)
      (sym (update-same (λ n. n.node_id == node_id) t.storage_nodes))

revived_keeps_id : (b : Bool) (now : ℕ) (n : NodeRow) → (revived b now n).node_id ≡ n.node_id
unfolding revived
revived_keeps_id b now n = ground arith

answered_lem :
    (is_ok : Bool) (body : Option (ℕ × ℕ)) (x : NodeRow) (t : Tables) (now : ℕ)
    → (if is_ok
        then take_stats body x.node_id
            (recover_if_down (is_down x.status) x.node_id (settled t now))
        else settled t now)
      ≡ settled
          (changed x.node_id
            (λ n. if is_ok then counted body now (revived (is_down x.status) now n) else n)
            t)
          now
answered_lem true body x t now =
    ap (take_stats body x.node_id) (recover_if_down_lem (is_down x.status) x.node_id t now)
    ∙ take_stats_lem body x.node_id (changed x.node_id (revived (is_down x.status) now) t) now
    ∙ ap (λ (rows : List NodeRow). settled (with_nodes rows t) now)
        (update-twice (λ n. n.node_id == x.node_id) (revived (is_down x.status) now)
          (counted body now) t.storage_nodes
          (λ r. ap (λ (id : String). id == x.node_id) (revived_keeps_id (is_down x.status) now r)))
answered_lem false body x t now =
    ap (λ (rows : List NodeRow). settled (with_nodes rows t) now)
      (sym (update-same (λ n. n.node_id == x.node_id) t.storage_nodes))

after_probe_lem :
    (p : Probe) (x : NodeRow) (t : Tables) (now : ℕ)
    → after_probe p x (settled t now) ≡ settled (changed x.node_id (after_answer p now x) t) now
unfolding after_probe after_answer
after_probe_lem unreachable x t now =
    ap (λ (rows : List NodeRow). settled (with_nodes rows t) now)
      (sym (update-same (λ n. n.node_id == x.node_id) t.storage_nodes))
after_probe_lem (answered status_code body) x t now = answered_lem (status_code == 200) body x t now

probe_each_lem :
    (health : String → Probe) (xs : List NodeRow) (t : Tables) (now : ℕ)
    → probe_each health xs (settled t now)
      ≡ settled
          (with_nodes
            (update_each (λ x. after_answer (health x.node_url) now x) xs t.storage_nodes)
            t)
          now
unfolding probe_each probe_single_node update_each
probe_each_lem health [] t now = refl
probe_each_lem health (x ∷ xs) t now =
    ap (probe_each health xs) (after_probe_lem (health x.node_url) x t now)
    ∙ probe_each_lem health xs (changed x.node_id (after_answer (health x.node_url) now x) t) now

-- What a pass makes of a row.
abbrev pub after_pass : ℕ → ℕ → (String → Probe) → ℕ → NodeRow → NodeRow
after_pass heartbeat_timeout local_now health now n =
    let marked = after_marking heartbeat_timeout local_now now n in
    after_answer (health marked.node_url) now marked marked

map-map :
    (f g : NodeRow → NodeRow) (rows : List NodeRow) → map g (map f rows) ≡ map (λ n. g (f n)) rows
map-map f g [] = refl
map-map f g (n ∷ rows) = ap (◌∷◌ (g (f n))) (map-map f g rows)

marking_keeps_keys :
    (heartbeat_timeout local_now now : ℕ) (rows : List NodeRow)
    → Distinct same_node rows
    → Distinct same_node (map (after_marking heartbeat_timeout local_now now) rows)
unfolding after_marking same_node
marking_keeps_keys heartbeat_timeout local_now now rows h =
    rw
      (← update-eq-map (λ n. is_overdue heartbeat_timeout local_now n && not (is_down n.status))
        (as_down now) rows)
      (Distinct-update same_node _ _ rows (λ x y. refl) (λ x y. refl) h)

map-same :
    {f g : NodeRow → NodeRow} (same : (n : NodeRow) → f n ≡ g n) (rows : List NodeRow)
    → map f rows ≡ map g rows
map-same same [] = refl
map-same {g = g} same (n ∷ rows) = rw (same n) (ap (◌∷◌ (g n)) (map-same same rows))

-- The two steps of a pass make the row that is expected, whichever status it has.
answer-expected :
    (p : Probe) (overdue : Bool) (now : ℕ) (url id version : String) (beat disk chunks : ℕ)
    (s : NodeStatus)
    → let n : NodeRow = record {
      node_url = url;
      node_id = id;
      last_heartbeat = beat;
      disk_usage_percent = disk;
      chunk_count = chunks;
      status = s;
      version = version;
    } in
      let marked = if overdue && not (is_down s) then as_down now n else n in
      after_answer p now marked marked ≡ expected p (overdue || is_gone s) now n
unfolding after_answer counted revived expected is_gone
answer-expected unreachable true now url id version beat disk chunks healthy = refl
answer-expected unreachable true now url id version beat disk chunks degraded = refl
answer-expected unreachable true now url id version beat disk chunks down = refl
answer-expected unreachable false now url id version beat disk chunks healthy = refl
answer-expected unreachable false now url id version beat disk chunks degraded = refl
answer-expected unreachable false now url id version beat disk chunks down = refl
answer-expected (answered c none) true now url id version beat disk chunks healthy = refl
answer-expected (answered c none) true now url id version beat disk chunks degraded = refl
answer-expected (answered c none) true now url id version beat disk chunks down = refl
answer-expected (answered c none) false now url id version beat disk chunks healthy = refl
answer-expected (answered c none) false now url id version beat disk chunks degraded = refl
answer-expected (answered c none) false now url id version beat disk chunks down = refl
answer-expected (answered c (some figures)) true now url id version beat disk chunks healthy = refl
answer-expected (answered c (some figures)) true now url id version beat disk chunks degraded = refl
answer-expected (answered c (some figures)) true now url id version beat disk chunks down = refl
answer-expected (answered c (some figures)) false now url id version beat disk chunks healthy = refl
answer-expected (answered c (some figures)) false now url id version beat disk chunks degraded =
    refl
answer-expected (answered c (some figures)) false now url id version beat disk chunks down = refl

marking_keeps_url :
    (heartbeat_timeout local_now now : ℕ) (n : NodeRow)
    → (after_marking heartbeat_timeout local_now now n).node_url ≡ n.node_url
unfolding after_marking
marking_keeps_url heartbeat_timeout local_now now n = ground arith

pass_lem :
    (heartbeat_timeout local_now : ℕ) (health : String → Probe) (now : ℕ) (n : NodeRow)
    → after_pass heartbeat_timeout local_now health now n
      ≡ row_after heartbeat_timeout local_now health now n
unfolding after_marking is_overdue
pass_lem heartbeat_timeout local_now health now n =
    let marked = after_marking heartbeat_timeout local_now now n in
    ap (λ (p : Probe). after_answer p now marked marked)
      (ap health (marking_keeps_url heartbeat_timeout local_now now n))
    ∙ answer-expected (health n.node_url) (ltb (n.last_heartbeat + heartbeat_timeout) local_now) now
        n.node_url n.node_id n.version n.last_heartbeat n.disk_usage_percent n.chunk_count n.status

-- A pass on a connection that does not raise, over nodes with distinct keys: every statement of
-- it together makes one map over the nodes, row by row, committed. A node not heard of within the
-- timeout goes down; then a node that answers its probe with status 200 has the figures that it
-- reports, and is healthy and heard of now if it was down; every other row stays.
pub monitor_pass-eq :
    (heartbeat_timeout local_now : ℕ) (health : String → Probe) (t d : Tables) (now : ℕ)
    → Distinct same_node t.storage_nodes
    → let t' =
        with_nodes (map (row_after heartbeat_timeout local_now health now) t.storage_nodes) t in
      monitor_pass heartbeat_timeout local_now health (quiet t d now) ≡ quiet t' t' now
unfolding monitor_pass probe_all_nodes
monitor_pass-eq heartbeat_timeout local_now health t d now h =
    let marked = map (after_marking heartbeat_timeout local_now now) t.storage_nodes in
    ap (λ (r : ℕ × Conn). probe_all_nodes health r.1)
      (mark_unhealthy_lem heartbeat_timeout local_now t d now h)
    ∙ probe_each_lem health marked (with_nodes marked t) now
    ∙ ap (λ (rows : List NodeRow). settled (with_nodes rows t) now)
        (update_each-all (λ x. after_answer (health x.node_url) now x)
            (λ x n. answer_keeps_id (health x.node_url) now x n) marked
            (marking_keeps_keys heartbeat_timeout local_now now t.storage_nodes h)
          ∙ map-map (after_marking heartbeat_timeout local_now now)
              (λ n. after_answer (health n.node_url) now n n) t.storage_nodes
          ∙ map-same (pass_lem heartbeat_timeout local_now health now) t.storage_nodes)
