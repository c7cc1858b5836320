-- ===== src/Client/Scheduler/Sources.antt =====
-- Where the data of a download comes from: a reply that a node has given.
use vstack.Prelude.{
  ℕ, zero, suc, ◌+◌, ◌==◌, text_key, ◌≡◌, refl, ◌∙◌, String, Bool, Option, none, some, List, [],
  ◌∷◌, length, ltb, Bool-cases, inl, inr,
}
use vstack.Client.Scheduler.{
  Network, ChunkScheduler, read_body, mark_busy, mark_available, download_from_node,
  record_successful_download, or_retry, try_node, fail, or_failover, with_node, failover,
  select_best_node, remaining_replicas, download_chunk,
}

module _ (P : List ℕ → Type 0) where
  -- The property holds of the data, if there is any.
  abbrev pub OfData : Option (List ℕ) → Type 0
  OfData none = Unit
  OfData (some body) = P body

  -- Of the data, and the session is as before.
  record Stays (s : ChunkScheduler) (out : Option (List ℕ) × ChunkScheduler) : Type 0 where
    holds : OfData out.0
    session : out.1.has_session ≡ s.has_session

  -- Every body that a node's reply holds has the property.
  pub record Replies (net : Network) : Type 0 where
    pub body_of :
        (session : Bool) (node : String) (attempt : ℕ)
        → OfData (read_body session (net.reply node attempt))

  module _ (net : Network) (replies : Replies net) (chunk_id : String) where
    or_retry-Stays :
        (node : String) (r : Option (List ℕ)) (s s' : ChunkScheduler)
        (rest : Option (List ℕ) × ChunkScheduler)
        → OfData r
        → s'.has_session ≡ s.has_session
        → Stays s' rest
        → Stays s (or_retry net chunk_id node r s' rest)
    unfolding or_retry record_successful_download
    or_retry-Stays node none s s' rest p h k = record { holds = k.holds; session = k.session ∙ h }
    or_retry-Stays node (some body) s s' rest p h k = record { holds = p; session = h }

    try_node-Stays :
        (node : String) (left attempt : ℕ) (s : ChunkScheduler)
        → Stays s (try_node net chunk_id node left attempt s)
    unfolding try_node download_from_node mark_busy mark_available
    try_node-Stays node zero attempt s = record { holds = tt; session = refl }
    try_node-Stays node (suc left) attempt s =
        let (r, s') = download_from_node net chunk_id node attempt s in
        or_retry-Stays node r s s' (try_node net chunk_id node left (attempt + 1) s')
          (replies.body_of s.has_session node attempt) refl
          (try_node-Stays node left (attempt + 1) s')

    fail-Stays : (s : ChunkScheduler) → Stays s (fail s)
    unfolding fail
    fail-Stays s = record { holds = tt; session = refl }

    or_failover-Stays :
        (s : ChunkScheduler) (out : Option (List ℕ) × ChunkScheduler)
        (again : ChunkScheduler → Option (List ℕ) × ChunkScheduler)
        → Stays s out
        → ((t : ChunkScheduler) → Stays t (again t))
        → Stays s (or_failover out.0 out.1 again)
    unfolding or_failover
    or_failover-Stays s (none, s') again h k =
        let c = k (record s' { failover_count = s'.failover_count + 1 }) in
        record { holds = c.holds; session = c.session ∙ h.session }
    or_failover-Stays s (some body, s') again h k = h

    with_node-Stays :
        (retries : ℕ) (o : Option String) (s : ChunkScheduler)
        (again : String → ChunkScheduler → Option (List ℕ) × ChunkScheduler)
        → ((node : String) (t : ChunkScheduler) → Stays t (again node t))
        → Stays s (with_node net chunk_id retries o s again)
    unfolding with_node
    with_node-Stays retries none s again k = fail-Stays s
    with_node-Stays retries (some node) s again k = elim (Bool-cases (node == "")) [
      | inl e ↦ rw e (fail-Stays s)
      | inr e ↦ rw e (
          or_failover-Stays s (try_node net chunk_id node retries 0 s) (again node)
            (try_node-Stays node retries 0 s) (k node))
    ]

    failover-Stays :
        (retries : ℕ) (available : List String) (fuel turn : ℕ) (attempted : List String)
        (s : ChunkScheduler)
        → Stays s (failover net chunk_id retries available fuel turn attempted s)
    unfolding failover
    failover-Stays retries available zero turn attempted s = fail-Stays s
    failover-Stays retries available (suc fuel) turn attempted s =
        elim (Bool-cases (ltb (length attempted) (length available))) [
          | inl more ↦ rw more (
              with_node-Stays retries
                (select_best_node net turn (remaining_replicas attempted available) s) s _
                (λ node t. failover-Stays retries available fuel (turn + 1) (node ∷ attempted) t))
          | inr over ↦ rw over (fail-Stays s)
        ]

    -- The data of a download is the body of a reply.
    pub download_chunk-OfData :
        (available : List String) (retries : ℕ) (s : ChunkScheduler)
        → OfData (download_chunk net chunk_id available retries s).0
    unfolding download_chunk
    download_chunk-OfData available retries s =
        (failover-Stays retries available (length available) 0 [] s).holds

    pub has_session-download_chunk :
        (available : List String) (retries : ℕ) (s : ChunkScheduler)
        → (download_chunk net chunk_id available retries s).1.has_session ≡ s.has_session
    unfolding download_chunk
    has_session-download_chunk available retries s =
        (failover-Stays retries available (length available) 0 [] s).session
