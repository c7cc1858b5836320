-- ===== src/Client/Scheduler/Failover.antt =====
-- client/scheduler.py: when a download returns data.
pub mod Termination
use mathlib.Core.Path.{subst}
use vstack.Prelude.{
  ℕ, zero, suc, ◌+◌, ◌≤◌, ◌≡◌, refl, sym, ap, ◌∙◌, String, Bool, true, false, not, Option, none,
  some, List, [], ◌∷◌, length, any, ltb, ◌==◌, text_key, eq_iff, if◌then◌else◌, arith, Bool-cases,
  inl, inr, Option-cases,
}
use vstack.Client.Scheduler.{
  Network, ChunkScheduler, contains, read_body, mark_busy, mark_available, download_from_node,
  record_successful_download, or_retry, try_node, fail, or_failover, with_node, failover,
  select_best_node, remaining_replicas, download_chunk,
}
use vstack.Client.Scheduler.Selection.{found_in, select_best_node-found_in, contains-keep}

-- The first result among the tries that a node is given.
unfoldable pub first_result : Network → Bool → String → ℕ → ℕ → Option (List ℕ)
first_result net session node zero attempt = none
first_result net session node (suc left) attempt =
    let rest = first_result net session node left (attempt + 1) in
    elim (read_body session (net.reply node attempt)) [ none ↦ rest | some body ↦ some body ]

abbrev pub is_some : Option (List ℕ) → Bool
is_some none = false
is_some (some body) = true

-- Whether a node delivers in one of its tries.
abbrev pub delivers : Network → Bool → ℕ → String → Bool
delivers net session retries node = is_some (first_result net session node retries 0)

try_node_result :
    (net : Network) (chunk_id node : String) (left attempt : ℕ) (s : ChunkScheduler)
    → ((try_node net chunk_id node left attempt s).0
        ≡ first_result net s.has_session node left attempt)
      × ((try_node net chunk_id node left attempt s).1.has_session ≡ s.has_session)
unfolding try_node first_result download_from_node or_retry mark_busy mark_available
    record_successful_download
try_node_result net chunk_id node zero attempt s = (refl, refl)
try_node_result net chunk_id node (suc left) attempt s = ground (
  arith,
  Option-cases (read_body s.has_session (net.reply node attempt)),
  try_node_result net chunk_id node left (attempt + 1)
      (mark_available chunk_id node (mark_busy chunk_id node s)),
)

-- A node that is left falls out once it is attempted, and no other comes back.
length-remaining :
    (node : String) (attempted available : List String)
    → (length (remaining_replicas (node ∷ attempted) available)
          + (if contains node (remaining_replicas attempted available) then 1 else 0)
        ≤ length (remaining_replicas attempted available))
unfolding remaining_replicas
length-remaining node attempted [] = omega arith
length-remaining node attempted (n ∷ available) =
    ground (arith, eq_iff node n, eq_iff n node, length-remaining node attempted available)

any-contains :
    (p : String → Bool) (node : String) (l : List String)
    → contains node l ≡ true
    → p node ≡ true
    → any p l ≡ true
any-contains p node [] h k = cc
any-contains p node (n ∷ l) h k = ground (arith, eq_iff n node, any-contains p node l)

contains-remaining :
    (node : String) (attempted available : List String)
    → contains node (remaining_replicas attempted available) ≡ true
    → contains node available ≡ true
unfolding remaining_replicas
contains-remaining node attempted available h =
    ground (arith, h, contains-keep (λ n. not (contains n attempted)) node available)

-- With no node left, every replica has been attempted.
any-remaining :
    (p : String → Bool) (attempted available : List String)
    → length (remaining_replicas attempted available) ≡ 0
    → any p attempted ≡ false
    → any p available ≡ false
unfolding remaining_replicas
any-remaining p attempted [] none_left tried = refl
any-remaining p attempted (n ∷ available) none_left tried =
    ground
      (arith, none_left, tried, any-contains p n attempted, any-remaining p attempted available)

found_in-none : (l : List String) → found_in none l ≡ true → length l ≡ 0
found_in-none [] h = refl
found_in-none (n ∷ l) h = ground (arith, h)

-- A node among replicas that all have an address is not the empty text.
has_name :
    (node : String) (available : List String)
    → contains node available ≡ true
    → contains "" available ≡ false
    → (node == "") ≡ false
has_name node [] there named = cc
has_name node (n ∷ available) there named =
    ground
      (arith, there, named, eq_iff n node, eq_iff node "", eq_iff n "", has_name node available)

module _ (net : Network) (chunk_id : String) (retries : ℕ) (available : List String) where
  -- Some replica delivers, with a session or without one.
  abbrev anyone : Bool → Bool
  anyone session = any (delivers net session retries) available

  -- What an iteration starts from: the nodes attempted did not deliver, and there are no more of
  -- them and of those that are left than replicas.
  abbrev Tried : ChunkScheduler → List String → Type 0
  Tried s attempted =
      (any (delivers net s.has_session retries) attempted ≡ false)
      × (length (remaining_replicas attempted available) + length attempted ≤ length available)

  or_failover_result :
      (r : Option (List ℕ)) (s' : ChunkScheduler)
      (again : ChunkScheduler → Option (List ℕ) × ChunkScheduler) (answer : Bool)
      → (is_some r ≡ true → answer ≡ true)
      → (is_some r ≡ false
          → is_some (again (record s' { failover_count = s'.failover_count + 1 })).0 ≡ answer)
      → is_some (or_failover r s' again).0 ≡ answer
  unfolding or_failover
  or_failover_result none s' again answer some_body nobody = nobody refl
  or_failover_result (some body) s' again answer some_body nobody = sym (some_body refl)

  with_node_result :
      (o : Option String) (s : ChunkScheduler) (attempted : List String)
      (again : String → ChunkScheduler → Option (List ℕ) × ChunkScheduler)
      → found_in o (remaining_replicas attempted available) ≡ true
      → Tried s attempted
      → ((node : String) (t : ChunkScheduler)
          → t.has_session ≡ s.has_session
          → delivers net s.has_session retries node ≡ false
          → contains node (remaining_replicas attempted available) ≡ true
          → is_some (again node t).0 ≡ anyone s.has_session)
      → contains "" available ≡ false
      → is_some (with_node net chunk_id retries o s again).0 ≡ anyone s.has_session
  unfolding with_node fail
  with_node_result none s attempted again there tried k named =
      sym (any-remaining _ attempted available (found_in-none _ there) tried.0)
  with_node_result (some node) s attempted again there tried k named =
      let (r, s') = try_node net chunk_id node retries 0 s in
      let (same, kept) = try_node_result net chunk_id node retries 0 s in
      let listed = contains-remaining node attempted available there in
      rw (has_name node available listed named) (
        or_failover_result r s' (again node) (anyone s.has_session)
          (λ h.
            any-contains (delivers net s.has_session retries) node available listed
              (ap is_some (sym same) ∙ h))
          (λ h.
            k node (record s' { failover_count = s'.failover_count + 1 }) kept
              (ap is_some (sym same) ∙ h) there))

  failover_result :
      (fuel turn : ℕ) (attempted : List String) (s : ChunkScheduler)
      → contains "" available ≡ false
      → Tried s attempted
      → length (remaining_replicas attempted available) ≤ fuel
      → is_some (failover net chunk_id retries available fuel turn attempted s).0
        ≡ anyone s.has_session
  unfolding failover fail
  failover_result zero turn attempted s named tried enough =
      sym (any-remaining _ attempted available (omega arith) tried.0)
  failover_result (suc fuel) turn attempted s named tried enough =
      elim (Bool-cases (ltb (length attempted) (length available))) [
        | inl more ↦ rw more (
            with_node_result (select_best_node net turn (remaining_replicas attempted available) s)
              s attempted _
              (select_best_node-found_in net turn (remaining_replicas attempted available) s).0
              tried
              (λ node t same not_it there.
                failover_result fuel (turn + 1) (node ∷ attempted) t named
                  (
                    subst (λ b. any (delivers net b retries) (node ∷ attempted) ≡ false) (sym same)
                        (ground (arith, not_it, tried.0)),
                    ground (arith, length-remaining node attempted available, there, tried.1),
                  )
                  (ground (arith, length-remaining node attempted available, there, enough))
                ∙ ap anyone same)
              named)
        | inr over ↦
            rw over
              (sym (any-remaining _ attempted available (ground (arith, over, tried.1)) tried.0))
      ]

length-keep_all :
    (available : List String) → length (remaining_replicas [] available) ≡ length available
unfolding remaining_replicas
length-keep_all [] = refl
length-keep_all (n ∷ available) = ap suc (length-keep_all available)

-- With replicas none of which is the empty text, a download returns data just when some replica, in
-- as many tries as each is given, would deliver the chunk: no replica is left out while the others fail, however the nodes are ranked.
pub download_chunk_succeeds :
    (net : Network) (chunk_id : String) (available : List String) (retries : ℕ) (s : ChunkScheduler)
    → contains "" available ≡ false
    → is_some (download_chunk net chunk_id available retries s).0
      ≡ any (delivers net s.has_session retries) available
unfolding download_chunk
download_chunk_succeeds net chunk_id available retries s named =
    failover_result net chunk_id retries available (length available) 0 [] s named
      (refl, omega (arith, length-keep_all available)) (omega (arith, length-keep_all available))
