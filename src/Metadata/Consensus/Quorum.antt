-- ===== src/Metadata/Consensus/Quorum.antt =====
-- metadata-service/consensus.py: the nodes of a successful proposal.
use vstack.Prelude.{
  ℕ, zero, suc, ◌+◌, ◌*◌, ◌<◌, ◌≤◌, ◌≡◌, refl, ap, sym, ◌∙◌, String, Bool, true, false, ◌&&◌, some,
  List, [], ◌∷◌, length, any, All, keep, ltb, ◌==◌, number_key, text_key, eq_refl, eq_iff,
  if◌then◌else◌, arith, Bool-cases, inl, inr,
}
use mathlib.Core.Path.{subst}
use vstack.Metadata.Consensus.Steps.{propose-eq-attempts}
use vstack.Metadata.Consensus.Replies.{
  Promises, Shows, reply-Promises, reply-Shows, keep-All, All-keep,
}
use vstack.Metadata.Tables.{Text}
use vstack.Metadata.Connection.{Conn, Result, ok, raised}
use vstack.Metadata.Consensus.{
  Nodes, Proposal, prepared_nodes, accepting_nodes, prepare_phase, accept_phase, commit_phase,
  send_prepare_request, is_yes, send_accept_request, Turn, done, retry, failing, turn_of_commit,
  quorum_size, too_few, turn, handle_error, Paxos, Answer, give_up, conclude, attempts,
  generate_ballot_number, propose_chunk_placement,
}

-- The nodes that a turn commits to: they are among those that were named, and more than half of them;
-- each has promised the ballot and shown the chunk; and no node that did both is left out.
pub record IsMajority (nodes : Nodes) (p : Proposal) (accepted : List String) : Type 0 where
  pub attempt : ℕ
  pub ballot : ℕ
  pub in_time : attempt < 3
  pub chosen :
      accepted
      ≡ accepting_nodes nodes attempt p.checksum (prepared_nodes nodes attempt ballot p.node_urls)
  pub promised : All (λ url. Promises ballot (nodes.on_prepare attempt url)) accepted
  pub shown : All (λ url. Shows p.checksum (nodes.on_accept attempt url)) accepted
  pub enough : length p.node_urls < 2 * length accepted

turn_of_commit-done :
    (accepted found : List String) (r : Result (Unit {0}))
    → turn_of_commit accepted r ≡ done found
    → found ≡ accepted
unfolding turn_of_commit
turn_of_commit-done accepted found (ok u) e = cc
turn_of_commit-done accepted found (raised x) e = cc

pub too_few-ne_done : (attempt : ℕ) (found : List String) → too_few attempt ≡ done found → ⊥
unfolding too_few
too_few-ne_done attempt found e = ground arith

turn_cases :
    (attempt : ℕ) (accepted found : List String) (r : Result (Unit {0})) (b b' : Bool)
    (c₁ c₂ c₃ : Conn)
    → (if◌then◌else◌ {A = Turn × Conn} b
        (too_few attempt, c₁)
        (if b' then (too_few attempt, c₂) else (turn_of_commit accepted r, c₃))).0
      ≡ done found
    → (b' ≡ false) × (found ≡ accepted)
turn_cases attempt accepted found r true b' c₁ c₂ c₃ e = absurd (too_few-ne_done attempt found e)
turn_cases attempt accepted found r false true c₁ c₂ c₃ e = absurd (too_few-ne_done attempt found e)
turn_cases attempt accepted found r false false c₁ c₂ c₃ e =
    (refl, turn_of_commit-done accepted found r e)

module _ (nodes : Nodes) (p : Proposal) where
  accepted-Promises :
      (attempt ballot : ℕ)
      → All
          (λ url. Promises ballot (nodes.on_prepare attempt url))
          (accepting_nodes nodes attempt p.checksum
            (prepared_nodes nodes attempt ballot p.node_urls))
  unfolding accepting_nodes prepared_nodes
  accepted-Promises attempt ballot = All-keep _ _ _ (
      keep-All (λ url. Promises ballot (nodes.on_prepare attempt url)) _ p.node_urls
        (λ url e. reply-Promises ballot (nodes.on_prepare attempt url) e))

  accepted-Shows :
      (attempt : ℕ) (prepared : List String)
      → All
          (λ url. Shows p.checksum (nodes.on_accept attempt url))
          (accepting_nodes nodes attempt p.checksum prepared)
  unfolding accepting_nodes
  accepted-Shows attempt prepared =
      keep-All (λ url. Shows p.checksum (nodes.on_accept attempt url)) _ prepared
        (λ url e. reply-Shows p.checksum (nodes.on_accept attempt url) e)

  half : (n : ℕ) → quorum_size p.node_urls ≤ n → length p.node_urls < 2 * n
  unfolding quorum_size
  half n h = omega arith

  turn-IsMajority :
      (attempt ballot : ℕ) (c : Conn) (found : List String)
      → attempt < 3
      → (turn nodes attempt p ballot c).0 ≡ done found
      → IsMajority nodes p found
  unfolding turn prepare_phase accept_phase
  turn-IsMajority attempt ballot c found early e =
      let (prepared, c₁) = prepare_phase nodes attempt p ballot c in
      let (accepted, c₂) = accept_phase nodes attempt p prepared ballot c₁ in
      let (r, c₃) = commit_phase p accepted ballot c₂ in
      let (enough, same) =
        turn_cases attempt accepted found r (ltb (length prepared) (quorum_size p.node_urls))
          (ltb (length accepted) (quorum_size p.node_urls)) c₁ c₂ c₃ e in
      record {
        attempt = attempt;
        ballot = ballot;
        in_time = early;
        chosen = same;
        promised = rw same (accepted-Promises attempt ballot);
        shown = rw same (accepted-Shows attempt (prepared_nodes nodes attempt ballot p.node_urls));
        enough = rw same (half (length accepted) (ground arith));
      }

  -- The rest of the loop: whatever it returns with success is a majority.
  abbrev Succeeds : Answer → Type 0
  Succeeds ((success, accepted), s) = success ≡ true → IsMajority nodes p accepted

  conclude-Succeeds :
      (attempt ballot : ℕ) (again : Paxos → Answer) (t : Turn) (s : Paxos)
      → ((accepted : List String) → t ≡ done accepted → IsMajority nodes p accepted)
      → ((s' : Paxos) → Succeeds (again s'))
      → Succeeds (conclude attempt p ballot again t s)
  unfolding conclude give_up
  conclude-Succeeds attempt ballot again (done accepted) s now more = λ e. now accepted refl
  conclude-Succeeds attempt ballot again retry s now more = more s
  conclude-Succeeds attempt ballot again (failing x) s now more =
      elim (Bool-cases (handle_error attempt x)) [
        | inl another ↦ rw another (more s)
        | inr last ↦ rw last (λ e. cc)
      ]

  attempts-Succeeds :
      (left attempt : ℕ) (s : Paxos)
      → attempt + left ≤ 3
      → Succeeds (attempts nodes p left attempt s)
  unfolding attempts
  attempts-Succeeds zero attempt s early = λ e. cc
  attempts-Succeeds (suc left) attempt s early =
      let (ballot, counter) = generate_ballot_number (nodes.millis attempt) s.ballot_counter in
      let (t, c) = turn nodes attempt p ballot s.conn in
      conclude-Succeeds attempt ballot _ t (record { conn = c; ballot_counter = counter })
        (λ accepted e. turn-IsMajority attempt ballot s.conn accepted (omega arith) e)
        (λ s'. attempts-Succeeds left (attempt + 1) s' (omega arith))

pub propose-IsMajority :
    (nodes : Nodes) (p : Proposal) (s s' : Paxos) (accepted : List String)
    → propose_chunk_placement nodes p s ≡ some ((true, accepted), s')
    → IsMajority nodes p accepted
propose-IsMajority nodes p s s' accepted e =
    subst (Succeeds nodes p) (propose-eq-attempts nodes p s _ e)
      (attempts-Succeeds nodes p 3 0 s (omega arith)) refl

-- Membership as a test.
abbrev pub contains : String → List String → Bool
contains url urls = any (λ u. u == url) urls

contains-keep :
    (f : String → Bool) (url : String) (urls : List String)
    → contains url urls ≡ true
    → f url ≡ true
    → contains url (keep f urls) ≡ true
contains-keep f url [] h k = cc
contains-keep f url (u ∷ urls) h k = ground (arith, eq_iff u url, contains-keep f url urls)

-- Two tests that together pass more often than the list is long pass together somewhere.
meet :
    (f g : String → Bool) (urls : List String)
    → length urls < length (keep f urls) + length (keep g urls)
    → (url : String) × (contains url urls ≡ true) × (f url ≡ true) × (g url ≡ true)
meet f g [] h = absurd (omega arith)
meet f g (u ∷ urls) h = elim (Bool-cases (f u && g u)) [
  | inl both ↦ (u, ground (arith, eq_refl u), ground arith, ground arith)
  | inr other ↦
      let (url, there, hf, hg) = meet f g urls (ground arith) in
      (url, ground (arith, eq_iff u url), hf, hg)
]

-- A test after another is one test.
keep-keep :
    (f g : String → Bool) (urls : List String) → keep f (keep g urls) ≡ keep (λ u. g u && f u) urls
keep-keep f g [] = refl
keep-keep f g (u ∷ urls) = ground (arith, keep-keep f g urls)

-- The nodes of a majority, as one test on the nodes that were named.
chooses : Nodes → ℕ → ℕ → Text → String → Bool
chooses nodes attempt ballot checksum url =
    is_yes (send_prepare_request ballot (nodes.on_prepare attempt url))
    && send_accept_request checksum (nodes.on_accept attempt url)

accepted-eq-keep :
    (nodes : Nodes) (p : Proposal) (accepted : List String) (m : IsMajority nodes p accepted)
    → accepted ≡ keep (chooses nodes m.attempt m.ballot p.checksum) p.node_urls
unfolding chooses accepting_nodes prepared_nodes
accepted-eq-keep nodes p accepted m =
    m.chosen
    ∙ keep-keep (λ url. send_accept_request p.checksum (nodes.on_accept m.attempt url))
        (λ url. is_yes (send_prepare_request m.ballot (nodes.on_prepare m.attempt url))) p.node_urls

majorities_meet :
    (nodes nodes' : Nodes) (p p' : Proposal) (accepted accepted' : List String)
    → p'.node_urls ≡ p.node_urls
    → IsMajority nodes p accepted
    → IsMajority nodes' p' accepted'
    → (url : String) × (contains url accepted ≡ true) × (contains url accepted' ≡ true)
majorities_meet nodes nodes' p p' accepted accepted' same m m' =
    let f = chooses nodes m.attempt m.ballot p.checksum in
    let g = chooses nodes' m'.attempt m'.ballot p'.checksum in
    let e : accepted ≡ keep f p.node_urls = accepted-eq-keep nodes p accepted m in
    let e' : accepted' ≡ keep g p.node_urls =
      accepted-eq-keep nodes' p' accepted' m' ∙ ap (keep g) same in
    let (url, there, hf, hg) = meet f g p.node_urls (
      omega (
        arith,
        m.enough,
        m'.enough,
        ap (length {A = String}) e,
        ap (length {A = String}) e',
        ap (length {A = String}) same,
      )) in
    (
      url,
      subst (λ l. contains url l ≡ true) (sym e) (contains-keep f url p.node_urls there hf),
      subst (λ l. contains url l ≡ true) (sym e') (contains-keep g url p.node_urls there hg),
    )

-- Two proposals that name the same nodes and both succeed, at any times and whatever the nodes
-- reply in each, have a node in common.
pub successes_meet :
    (nodes nodes' : Nodes) (p p' : Proposal) (s s' t t' : Paxos) (accepted accepted' : List String)
    → p'.node_urls ≡ p.node_urls
    → propose_chunk_placement nodes p s ≡ some ((true, accepted), t)
    → propose_chunk_placement nodes' p' s' ≡ some ((true, accepted'), t')
    → (url : String) × (contains url accepted ≡ true) × (contains url accepted' ≡ true)
successes_meet nodes nodes' p p' s s' t t' accepted accepted' same e e' =
    majorities_meet nodes nodes' p p' accepted accepted' same
      (propose-IsMajority nodes p s t accepted e) (propose-IsMajority nodes' p' s' t' accepted' e')
