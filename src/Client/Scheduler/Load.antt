-- ===== src/Client/Scheduler/Load.antt =====
-- What a download leaves in the scheduler: its counters, and the load of the nodes.
use vstack.Prelude.{
  ℕ, zero, suc, ◌+◌, ◌==◌, ◌≡◌, refl, ◌∙◌, String, Option, none, some, List, [], ◌∷◌, length, ltb,
  text_key, number_key, eq_iff, arith, Bool-cases, inl, inr,
}
use vstack.Client.Scheduler.{
  Network, ChunkScheduler, mark_busy, mark_available, download_from_node,
  record_successful_download, or_retry, try_node, fail, or_failover, with_node, failover,
  select_best_node, remaining_replicas, download_chunk,
}

-- Whether there is a result, as a count.
abbrev pub delivered : Option (List ℕ) → ℕ
delivered none = 0
delivered (some body) = 1

-- A state after tries that had this result: the loads are as before, and a success is counted.
record Tried (r : Option (List ℕ)) (s s' : ChunkScheduler) : Type 0 where
  load : (node : String) → s'.node_load node ≡ s.node_load node
  total : s'.total_downloads ≡ s.total_downloads + delivered r
  failures : s'.failed_downloads ≡ s.failed_downloads

-- A state after a download that had this result: the loads of the nodes are as before, and the
-- download is counted once, as a success or as a failure.
pub record IsCounted (r : Option (List ℕ)) (s s' : ChunkScheduler) : Type 0 where
  pub load : (node : String) → s'.node_load node ≡ s.node_load node
  pub total : s'.total_downloads ≡ s.total_downloads + delivered r
  pub failures : s'.failed_downloads + delivered r ≡ s.failed_downloads + 1

load-download :
    (net : Network) (chunk_id node : String) (attempt : ℕ) (s : ChunkScheduler) (other : String)
    → (download_from_node net chunk_id node attempt s).1.node_load other ≡ s.node_load other
unfolding download_from_node mark_busy mark_available
load-download net chunk_id node attempt s other =
    ground (arith, eq_iff node other, eq_iff node node)

module _ (net : Network) (chunk_id node : String) where
  or_retry-Tried :
      (attempt : ℕ) (r : Option (List ℕ)) (s s' : ChunkScheduler)
      (rest : Option (List ℕ) × ChunkScheduler)
      → Tried none s s'
      → Tried rest.0 s' rest.1
      → Tried (or_retry net chunk_id node r s' rest).0 s (or_retry net chunk_id node r s' rest).1
  unfolding or_retry record_successful_download
  or_retry-Tried attempt none s s' rest h k = record {
    load = λ n. k.load n ∙ h.load n;
    total = omega (arith, h.total, k.total);
    failures = k.failures ∙ h.failures;
  }
  or_retry-Tried attempt (some body) s s' rest h k = record {
    load = h.load;
    total = omega (arith, h.total);
    failures = h.failures;
  }

  try_node-Tried :
      (left attempt : ℕ) (s : ChunkScheduler)
      → Tried
          (try_node net chunk_id node left attempt s).0
          s
          (try_node net chunk_id node left attempt s).1
  unfolding try_node download_from_node mark_busy mark_available
  try_node-Tried zero attempt s = record { load = λ n. refl; total = omega arith; failures = refl }
  try_node-Tried (suc left) attempt s =
      let (r, s') = download_from_node net chunk_id node attempt s in
      or_retry-Tried attempt r s s' (try_node net chunk_id node left (attempt + 1) s')
        (downloaded attempt s) (try_node-Tried left (attempt + 1) s')
    where
      downloaded :
          (attempt : ℕ) (s : ChunkScheduler)
          → Tried none s (download_from_node net chunk_id node attempt s).1
      downloaded attempt s = record {
        load = load-download net chunk_id node attempt s;
        total = omega arith;
        failures = refl;
      }

abbrev Counts : ChunkScheduler → Option (List ℕ) × ChunkScheduler → Type 0
Counts s out = IsCounted out.0 s out.1

fail-Counts : (s : ChunkScheduler) → Counts s (fail s)
unfolding fail
fail-Counts s = record { load = λ n. refl; total = omega arith; failures = omega arith }

or_failover-Counts :
    (r : Option (List ℕ)) (s s' : ChunkScheduler)
    (again : ChunkScheduler → Option (List ℕ) × ChunkScheduler)
    → Tried r s s'
    → ((t : ChunkScheduler) → Counts t (again t))
    → Counts s (or_failover r s' again)
unfolding or_failover
or_failover-Counts none s s' again h k =
    let c = k (record s' { failover_count = s'.failover_count + 1 }) in
    record {
      load = λ n. c.load n ∙ h.load n;
      total = omega (arith, c.total, h.total);
      failures = omega (arith, c.failures, h.failures);
    }
or_failover-Counts (some body) s s' again h k = record {
  load = h.load;
  total = h.total;
  failures = omega (arith, h.failures);
}

with_node-Counts :
    (net : Network) (chunk_id : String) (retries : ℕ) (o : Option String) (s : ChunkScheduler)
    (again : String → ChunkScheduler → Option (List ℕ) × ChunkScheduler)
    → ((node : String) (t : ChunkScheduler) → Counts t (again node t))
    → Counts s (with_node net chunk_id retries o s again)
unfolding with_node
with_node-Counts net chunk_id retries none s again k = fail-Counts s
with_node-Counts net chunk_id retries (some node) s again k =
    let (r, s') = try_node net chunk_id node retries 0 s in
    elim (Bool-cases (node == "")) [
      | inl e ↦ rw e (fail-Counts s)
      | inr e ↦ rw e (
          or_failover-Counts r s s' (again node) (try_node-Tried net chunk_id node retries 0 s)
            (k node))
    ]

failover-Counts :
    (net : Network) (chunk_id : String) (retries : ℕ) (available : List String) (fuel turn : ℕ)
    (attempted : List String) (s : ChunkScheduler)
    → Counts s (failover net chunk_id retries available fuel turn attempted s)
unfolding failover
failover-Counts net chunk_id retries available zero turn attempted s = fail-Counts s
failover-Counts net chunk_id retries available (suc fuel) turn attempted s =
    elim (Bool-cases (ltb (length attempted) (length available))) [
      | inl more ↦ rw more (
          with_node-Counts net chunk_id retries
            (select_best_node net turn (remaining_replicas attempted available) s) s _
            (λ node t.
              failover-Counts net chunk_id retries available fuel (turn + 1) (node ∷ attempted) t))
      | inr over ↦ rw over (fail-Counts s)
    ]

-- Whatever the nodes reply, a download leaves the load of every node as it found it, and counts
-- itself once: as a success if it returns data, else as a failure.
pub download_chunk-IsCounted :
    (net : Network) (chunk_id : String) (available : List String) (retries : ℕ) (s : ChunkScheduler)
    → let (r, s') = download_chunk net chunk_id available retries s in IsCounted r s s'
unfolding download_chunk
download_chunk-IsCounted net chunk_id available retries s =
    failover-Counts net chunk_id retries available (length available) 0 [] s
