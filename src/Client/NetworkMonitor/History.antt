-- ===== src/Client/NetworkMonitor/History.antt =====
-- The bounded histories against the whole log of what has been measured.
use vstack.Prelude.{
  ℕ, ◌+◌, ◌-◌, ◌*◌, ◌≤◌, ◌≡◌, refl, sym, ap, ◌∙◌, String, Bool, true, false, not, ◌&&◌, List, [],
  ◌∷◌, ◌++◌, length, keep, drop, drop-drop, drop-append, length-append, length-drop, ltb, ◌==◌,
  number_key, text_key, eq_iff, if◌then◌else◌, arith, Bool-cases, inl, inr,
}
use vstack.Client.NetworkMonitor.{
  NetworkMonitor, new_monitor, last_of, push, Ping, emulated_failure, request_failed, answered,
  record_failure, record_success, ping_node, update_bandwidth, start_monitoring, successes,
  mostly_successful, is_node_healthy,
}

-- A measurement: a ping of a node at a time, or the bandwidth of a download.
pub data Measurement : Type 0 where
  pinged : String → Ping → ℕ → Measurement
  downloaded : String → ℕ → Measurement

abbrev pub measure : Measurement → NetworkMonitor → NetworkMonitor
measure (pinged node p now) m = ping_node node p now m
measure (downloaded node mbps) m = update_bandwidth node mbps m

-- The measurements in order, the latest first.
abbrev pub measured : List Measurement → NetworkMonitor → NetworkMonitor
measured [] m = m
measured (e ∷ earlier) m = measure e (measured earlier m)

abbrev pub succeeds : Ping → Bool
succeeds emulated_failure = false
succeeds request_failed = false
succeeds (answered latency) = true

-- Every outcome of the pings of a node, in order.
pub outcomes : String → List Measurement → List Bool
outcomes node [] = []
outcomes node (pinged n p now ∷ earlier) =
    let before = outcomes node earlier in if n == node then before ++ succeeds p ∷ [] else before
outcomes node (downloaded n mbps ∷ earlier) = outcomes node earlier

-- The time of the last successful ping of a node, or 0.
pub last_seen : String → List Measurement → ℕ
last_seen node [] = 0
last_seen node (pinged n p now ∷ earlier) =
    let before = last_seen node earlier in if n == node && succeeds p then now else before
last_seen node (downloaded n mbps ∷ earlier) = last_seen node earlier

module _ {ℓ} {A : Type ℓ} where
  -- The end of an end is the end.
  last_of-last_of : (m n : ℕ) (l : List A) → m ≤ n → last_of m (last_of n l) ≡ last_of m l
  last_of-last_of m n l h =
      let a = length l - n in
      let same : a + (length (drop a l) - m) ≡ length l - m = omega (arith, length-drop a l) in
      drop-drop a (length (drop a l) - m) l ∙ ap (λ k. drop k l) same

  -- A bounded history is the end of all that has been appended to it.
  push-last_of :
      (n : ℕ) (x : A) (l : List A) → 1 ≤ n → push n x (last_of n l) ≡ last_of n (l ++ x ∷ [])
  unfolding push
  push-last_of n x l h =
      let a = length l - n in
      let within : a ≤ length l = omega arith in
      let same : a + (length (drop a (l ++ x ∷ [])) - n) ≡ length (l ++ x ∷ []) - n =
        omega (arith, length-append l (x ∷ []), length-drop a (l ++ x ∷ [])) in
      ap (λ (k : List A). last_of n k) (sym (drop-append a l (x ∷ []) within))
      ∙ drop-drop a (length (drop a (l ++ x ∷ [])) - n) (l ++ x ∷ [])
      ∙ ap (λ k. drop k (l ++ x ∷ [])) same

successes-keep : (l : List Bool) → successes l ≡ length (keep (λ b. b) l)
unfolding successes
successes-keep [] = refl
successes-keep (b ∷ l) = ground (arith, successes-keep l)

-- The monitor that has just been started on some nodes.
abbrev pub started : ℕ → List String → NetworkMonitor
started history_size nodes = start_monitoring nodes (new_monitor history_size)

has_session-measured :
    (size : ℕ) (nodes : List String) (log : List Measurement)
    → (measured log (started size nodes)).has_session ≡ true
unfolding start_monitoring new_monitor ping_node record_failure record_success update_bandwidth
has_session-measured size nodes [] = refl
has_session-measured size nodes (pinged n emulated_failure now ∷ log) =
    has_session-measured size nodes log
has_session-measured size nodes (pinged n request_failed now ∷ log) =
    ground (arith, has_session-measured size nodes log)
has_session-measured size nodes (pinged n (answered latency) now ∷ log) =
    ground (arith, has_session-measured size nodes log)
has_session-measured size nodes (downloaded n mbps ∷ log) = has_session-measured size nodes log

-- One ping, with a session.
success_rates-ping :
    (n node : String) (p : Ping) (now : ℕ) (m : NetworkMonitor)
    → m.has_session ≡ true
    → (ping_node n p now m).success_rates node
      ≡ (if n == node then push 20 (succeeds p) (m.success_rates n) else m.success_rates node)
unfolding ping_node record_failure record_success
success_rates-ping n node emulated_failure now m h = refl
success_rates-ping n node request_failed now m h = ground (arith, h)
success_rates-ping n node (answered latency) now m h = ground (arith, h)

last_update-ping :
    (n node : String) (p : Ping) (now : ℕ) (m : NetworkMonitor)
    → m.has_session ≡ true
    → (ping_node n p now m).last_update node
      ≡ (if n == node && succeeds p then now else m.last_update node)
unfolding ping_node record_failure record_success
last_update-ping n node emulated_failure now m h = ground arith
last_update-ping n node request_failed now m h = ground (arith, h)
last_update-ping n node (answered latency) now m h = ground (arith, h)

module _ (size : ℕ) (nodes : List String) (node : String) where
  -- One more outcome of a node.
  pushed :
      (n : String) (b : Bool) (m : NetworkMonitor) (before : List Bool)
      → m.success_rates node ≡ last_of 20 before
      → (if n == node then push 20 b (m.success_rates n) else m.success_rates node)
        ≡ last_of 20 (if n == node then before ++ b ∷ [] else before)
  pushed n b m before e = elim (Bool-cases (n == node)) [
    | inl q ↦ rw q (
        ap (push 20 b) (ap m.success_rates ((eq_iff n node).0 q) ∙ e)
        ∙ push-last_of 20 b before (omega arith))
    | inr q ↦ rw q e
  ]

  success_rates-measured :
      (log : List Measurement)
      → (measured log (started size nodes)).success_rates node ≡ last_of 20 (outcomes node log)
  unfolding outcomes start_monitoring new_monitor update_bandwidth
  success_rates-measured [] = refl
  success_rates-measured (pinged n p now ∷ log) =
      let m = measured log (started size nodes) in
      success_rates-ping n node p now m (has_session-measured size nodes log)
      ∙ pushed n (succeeds p) m (outcomes node log) (success_rates-measured log)
  success_rates-measured (downloaded n mbps ∷ log) = success_rates-measured log

  last_update-measured :
      (log : List Measurement)
      → (measured log (started size nodes)).last_update node ≡ last_seen node log
  unfolding last_seen start_monitoring new_monitor update_bandwidth
  last_update-measured [] = refl
  last_update-measured (pinged n p now ∷ log) =
      last_update-ping n node p now (measured log (started size nodes))
        (has_session-measured size nodes log)
      ∙ ap (λ (k : ℕ). if n == node && succeeds p then now else k) (last_update-measured log)
  last_update-measured (downloaded n mbps ∷ log) = last_update-measured log

  mostly_successful-last_of :
      (l : List Bool)
      → mostly_successful (last_of 20 l)
        ≡ ltb (length (last_of 5 l)) (2 * length (keep (λ b. b) (last_of 5 l)))
  unfolding mostly_successful
  mostly_successful-last_of l =
      ap (λ (recent : List Bool). ltb (length recent) (2 * successes recent))
        (last_of-last_of 5 20 l (omega arith))
      ∙ ap (λ (k : ℕ). ltb (length (last_of 5 l)) (2 * k)) (successes-keep (last_of 5 l))

  -- After any measurements since the monitor was started, the health of a node is what the whole log of
  -- its pings says, though only twenty outcomes are kept: it has been reached, not longer ago than the
  -- timeout, and more than half of its last five pings succeeded.
  pub is_node_healthy-measured :
      (log : List Measurement) (timeout now : ℕ)
      → is_node_healthy node timeout now (measured log (started size nodes)) ≡ (
          not (last_seen node log == 0)
          && (not (ltb timeout (now - last_seen node log))
              && ltb
                  (length (last_of 5 (outcomes node log)))
                  (2 * length (keep (λ b. b) (last_of 5 (outcomes node log))))))
  unfolding is_node_healthy
  is_node_healthy-measured log timeout now = ground (
    arith,
    last_update-measured log,
    success_rates-measured log,
    mostly_successful-last_of (outcomes node log),
  )
