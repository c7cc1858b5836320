-- ===== src/Client/NetworkMonitor.antt =====
-- client/network_monitor.py: what the client measures of the storage nodes, and which of them count as
-- healthy. The defaultdicts are functions; times are whole seconds and 0 stands for never, as in the
-- code. A success is `true`. The scores, which are floating point, are left out.
pub mod History
mod Tests
use vstack.Prelude.{
  ℕ, zero, suc, ◌+◌, ◌-◌, ◌*◌, String, Bool, true, false, not, ◌&&◌, Option, none, some, List, [],
  ◌∷◌, ◌++◌, length, drop, keep, ltb, ◌==◌, number_key, text_key, if◌then◌else◌,
}
use vstack.Client.Scheduler.{set_at}

pub record NetworkMonitor : Type 0 where
  pub history_size : ℕ
  pub latencies : String → List ℕ
  pub bandwidths : String → List ℕ
  pub success_rates : String → List Bool
  pub last_update : String → ℕ
  pub monitoring : Bool
  pub node_urls : List String
  pub has_session : Bool

unfoldable pub new_monitor : ℕ → NetworkMonitor
new_monitor history_size = record {
  history_size = history_size;
  latencies = λ node. [];
  bandwidths = λ node. [];
  success_rates = λ node. [];
  last_update = λ node. 0;
  monitoring = false;
  node_urls = [];
  has_session = false;
}

-- `l[-n:]`
abbrev pub last_of {ℓ} : {A : Type ℓ} → ℕ → List A → List A
last_of n l = drop (length l - n) l

-- `append` to a deque of a maximal length
unfoldable pub push {ℓ} : {A : Type ℓ} → ℕ → A → List A → List A
push maxlen x l = last_of maxlen (l ++ x ∷ [])

-- What comes of a ping: the emulator raises, the request raises, or there is an answer after some
-- milliseconds.
pub data Ping : Type 0 where
  emulated_failure : Ping
  request_failed : Ping
  answered : ℕ → Ping

unfoldable pub record_failure : String → NetworkMonitor → NetworkMonitor
unfolding push
record_failure node_url m = record m {
  success_rates = set_at node_url (push 20 false (m.success_rates node_url)) m.success_rates;
}

-- `if not self.bandwidths[node_url]: ... append(50.0)`
unfoldable pub or_default : ℕ → List ℕ → List ℕ
unfolding push
or_default history_size [] = push history_size 50 []
or_default history_size (b ∷ bandwidths) = b ∷ bandwidths

unfoldable pub record_success : String → ℕ → ℕ → NetworkMonitor → NetworkMonitor
unfolding push or_default
record_success node_url latency now m = record m {
  latencies = set_at node_url (push m.history_size latency (m.latencies node_url)) m.latencies;
  success_rates = set_at node_url (push 20 true (m.success_rates node_url)) m.success_rates;
  last_update = set_at node_url now m.last_update;
  bandwidths = set_at node_url (or_default m.history_size (m.bandwidths node_url)) m.bandwidths;
}

-- `_ping_node`
unfoldable pub ping_node : String → Ping → ℕ → NetworkMonitor → NetworkMonitor
unfolding record_failure record_success
ping_node node_url emulated_failure now m = record_failure node_url m
ping_node node_url request_failed now m = if m.has_session then record_failure node_url m else m
ping_node node_url (answered latency) now m =
    if m.has_session then record_success node_url latency now m else m

unfoldable pub update_bandwidth : String → ℕ → NetworkMonitor → NetworkMonitor
unfolding push
update_bandwidth node_url bandwidth_mbps m = record m {
  bandwidths =
      set_at node_url (push m.history_size bandwidth_mbps (m.bandwidths node_url)) m.bandwidths;
}

unfoldable pub start_monitoring : List String → NetworkMonitor → NetworkMonitor
start_monitoring node_urls m =
    if m.monitoring
    then m
    else record m { node_urls = node_urls; has_session = true; monitoring = true }

unfoldable pub stop_monitoring : NetworkMonitor → NetworkMonitor
stop_monitoring m = if m.monitoring then record m { monitoring = false; has_session = false } else m

unfoldable pub successes : List Bool → ℕ
successes [] = 0
successes (b ∷ results) = (if b then 1 else 0) + successes results

-- `statistics.mean(...) > 0.5`, of the last five; with no results at all the answer is False
unfoldable pub mostly_successful : List Bool → Bool
unfolding successes
mostly_successful results =
    let recent = last_of 5 results in ltb (length recent) (2 * successes recent)

unfoldable pub is_node_healthy : String → ℕ → ℕ → NetworkMonitor → Bool
unfolding mostly_successful
is_node_healthy node_url timeout_sec now m =
    let last_seen = m.last_update node_url in
    if last_seen == 0
    then false
    else if ltb timeout_sec (now - last_seen)
    then false
    else mostly_successful (m.success_rates node_url)

-- `get_healthy_nodes`
unfoldable pub healthy_node_urls : ℕ → ℕ → NetworkMonitor → List String
unfolding is_node_healthy
healthy_node_urls timeout_sec now m =
    keep (λ node_url. is_node_healthy node_url timeout_sec now m) m.node_urls
