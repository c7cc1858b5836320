-- ===== src/Client/NetworkMonitor/Tests.antt =====
-- Two nodes, one of which fails half of its pings.
use vstack.Prelude.{
  ◌-◌, ◌*◌, length, keep, ◌≡◌, refl, String, not, ◌&&◌, List, [], ◌∷◌, ltb, ◌==◌, number_key,
}
use vstack.Client.NetworkMonitor.{
  new_monitor, start_monitoring, answered, request_failed, ping_node, update_bandwidth,
  record_success, record_failure, is_node_healthy, healthy_node_urls, last_of,
}
use vstack.Client.NetworkMonitor.History.{
  Measurement, pinged, downloaded, measured, started, last_seen, outcomes, is_node_healthy-measured,
}

abbrev nodes : List String
nodes = "n1" ∷ "n2" ∷ []

abbrev log : List Measurement
log =
    pinged "n2" request_failed 12
    ∷ pinged "n1" (answered 30) 12
    ∷ downloaded "n1" 40
    ∷ pinged "n2" (answered 20) 11
    ∷ []

is_node_healthy-measured_example : is_node_healthy "n1" 10 20 (measured log (started 10 nodes)) ≡ (
    not (last_seen "n1" log == 0)
    && (not (ltb 10 (20 - last_seen "n1" log))
        && ltb
            (length (last_of 5 (outcomes "n1" log)))
            (2 * length (keep (λ b. b) (last_of 5 (outcomes "n1" log))))))
is_node_healthy-measured_example = is_node_healthy-measured 10 nodes "n1" log 10 20

-- One success in two pings is not enough.
half_is_unhealthy : healthy_node_urls 10 20 (measured log (started 10 nodes)) ≡ "n1" ∷ []
unfolding healthy_node_urls update_bandwidth ping_node record_success record_failure
    start_monitoring new_monitor
half_is_unhealthy = refl
