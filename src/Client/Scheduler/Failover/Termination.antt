-- ===== src/Client/Scheduler/Failover/Termination.antt =====
-- client/scheduler.py: the end of the failover loop.
use vstack.Prelude.{
  ℕ, zero, suc, ◌+◌, ◌≤◌, ◌≡◌, refl, ap, ◌∙◌, String, true, Option, none, some, List, [], ◌∷◌,
  length, ltb, ◌==◌, text_key, if◌then◌else◌, arith, Bool-cases, inl, inr,
}
use vstack.Client.Scheduler.{
  Network, ChunkScheduler, contains, try_node, fail, or_failover, with_node, failover,
  select_best_node, remaining_replicas, download_chunk,
}
use vstack.Client.Scheduler.Selection.{found_in, select_best_node-found_in}
use vstack.Client.Scheduler.Failover.{length-remaining, length-keep_all}

module _ (net : Network) (chunk_id : String) (retries : ℕ) where
  or_failover-cong :
      (r : Option (List ℕ)) (s : ChunkScheduler)
      (again again' : ChunkScheduler → Option (List ℕ) × ChunkScheduler)
      → ((t : ChunkScheduler) → again t ≡ again' t)
      → or_failover r s again ≡ or_failover r s again'
  unfolding or_failover
  or_failover-cong none s again again' h = h (record s { failover_count = s.failover_count + 1 })
  or_failover-cong (some body) s again again' h = refl

  -- Only what comes after a node that is among the replicas matters.
  with_node-cong :
      (o : Option String) (nodes : List String) (s : ChunkScheduler)
      (again again' : String → ChunkScheduler → Option (List ℕ) × ChunkScheduler)
      → found_in o nodes ≡ true
      → ((node : String) (t : ChunkScheduler)
          → contains node nodes ≡ true
          → again node t ≡ again' node t)
      → with_node net chunk_id retries o s again ≡ with_node net chunk_id retries o s again'
  unfolding with_node
  with_node-cong none nodes s again again' there h = refl
  with_node-cong (some node) nodes s again again' there h =
      let (r, s') = try_node net chunk_id node retries 0 s in
      ap (λ go. if node == "" then fail s else go)
        (or_failover-cong r s' (again node) (again' node) (λ t. h node t there))

  with_nobody :
      (o : Option String) (nodes : List String) (s : ChunkScheduler)
      (again : String → ChunkScheduler → Option (List ℕ) × ChunkScheduler)
      → found_in o nodes ≡ true
      → length nodes ≡ 0
      → with_node net chunk_id retries o s again ≡ fail s
  unfolding with_node
  with_nobody none nodes s again there e = refl
  with_nobody (some node) [] s again there e = absurd (ground arith)
  with_nobody (some node) (n ∷ nodes) s again there e = absurd (omega arith)

  module _ (available : List String) where
    -- With as much fuel as there are replicas left, one more unit makes no difference.
    failover-suc :
        (fuel turn : ℕ) (attempted : List String) (s : ChunkScheduler)
        → length (remaining_replicas attempted available) ≤ fuel
        → failover net chunk_id retries available (suc fuel) turn attempted s
          ≡ failover net chunk_id retries available fuel turn attempted s
    unfolding failover
    failover-suc zero turn attempted s enough =
        elim (Bool-cases (ltb (length attempted) (length available))) [
          | inl more ↦ rw more (
              with_nobody (select_best_node net turn (remaining_replicas attempted available) s)
                (remaining_replicas attempted available) s _
                (select_best_node-found_in net turn (remaining_replicas attempted available) s).0
                (omega arith))
          | inr over ↦ rw over refl
        ]
    failover-suc (suc fuel) turn attempted s enough =
        ap (λ go. if ltb (length attempted) (length available) then go else fail s)
          (with_node-cong (select_best_node net turn (remaining_replicas attempted available) s)
            (remaining_replicas attempted available) s _ _
            (select_best_node-found_in net turn (remaining_replicas attempted available) s).0
            (λ node t there.
              failover-suc fuel (turn + 1) (node ∷ attempted) t
                (ground (arith, length-remaining node attempted available, there, enough))))

    failover-more :
        (extra fuel : ℕ) (s : ChunkScheduler)
        → length available ≤ fuel
        → failover net chunk_id retries available (extra + fuel) 0 [] s
          ≡ failover net chunk_id retries available fuel 0 [] s
    failover-more zero fuel s h =
        ap (λ (n : ℕ). failover net chunk_id retries available n 0 [] s) (omega arith)
    failover-more (suc extra) fuel s h =
        let e : suc extra + fuel ≡ suc (extra + fuel) = omega arith in
        ap (λ (n : ℕ). failover net chunk_id retries available n 0 [] s) e
        ∙ failover-suc (extra + fuel) 0 [] s (omega (arith, length-keep_all available))
        ∙ failover-more extra fuel s h

  -- The failover loop ends by itself after as many iterations as there are replicas: with any more fuel
  -- it comes to the same result and the same state.
  pub download_chunk-failover :
      (available : List String) (extra : ℕ) (s : ChunkScheduler)
      → failover net chunk_id retries available (extra + length available) 0 [] s
        ≡ download_chunk net chunk_id available retries s
  unfolding download_chunk
  download_chunk-failover available extra s =
      failover-more available extra (length available) s (omega arith)
