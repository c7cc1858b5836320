-- ===== src/Metadata/HealthMonitor/RowAfter.antt =====
-- What a pass of the monitor should make of a row, field by field.
use vstack.Prelude.{
  ℕ, ◌+◌, String, Bool, true, false, ◌||◌, none, some, ltb, ◌==◌, number_key, if◌then◌else◌,
}
use vstack.Metadata.Tables.{NodeStatus, healthy, degraded, down, NodeRow}
use vstack.Metadata.HealthMonitor.{Probe, answered, unreachable}

-- A row after a pass, by what its node answers and whether it is down before the probe. A probe that
-- no answer or another status than 200 comes back to leaves it down, if it is; an answer with status
-- 200 makes a node that is down healthy and heard of now, and brings its figures if it has them.
unfoldable pub expected : Probe → Bool → ℕ → NodeRow → NodeRow
expected unreachable was_down now n = record n { status = if was_down then down else n.status }
expected (answered status_code none) was_down now n =
    if status_code == 200
    then record n {
      status = if was_down then healthy else n.status;
      last_heartbeat = if was_down then now else n.last_heartbeat;
    }
    else record n { status = if was_down then down else n.status }
expected (answered status_code (some (disk_usage, chunk_count))) was_down now n =
    if status_code == 200
    then record n {
      status = if was_down then healthy else n.status;
      last_heartbeat = if was_down then now else n.last_heartbeat;
      disk_usage_percent = disk_usage;
      chunk_count = chunk_count;
    }
    else record n { status = if was_down then down else n.status }

unfoldable pub is_gone : NodeStatus → Bool
is_gone healthy = false
is_gone degraded = false
is_gone down = true

-- A row after a pass: its node is down before the probe if it was so already, or if it has not been
-- heard of for longer than the timeout.
abbrev pub row_after : ℕ → ℕ → (String → Probe) → ℕ → NodeRow → NodeRow
row_after heartbeat_timeout local_now health now n =
    expected (health n.node_url)
      (ltb (n.last_heartbeat + heartbeat_timeout) local_now || is_gone n.status) now n
