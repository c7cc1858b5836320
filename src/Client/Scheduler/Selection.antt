-- ===== src/Client/Scheduler/Selection.antt =====
-- client/scheduler.py: the node that is selected.
use vstack.Prelude.{
  if◌then◌else◌, if◌then◌else◌, if◌then◌else◌, ℕ, ◌≡◌, refl, String, Bool, true, false, ◌&&◌,
  Option, none, some, List, [], ◌∷◌, keep, any, text_key, eq_iff, eq_refl, arith, Bool-cases, inl,
  inr,
}
use vstack.Client.Scheduler.{
  Network, ChunkScheduler, contains, distinct_nodes, best_node, best_of, or_all, select_best_node,
}

pub contains-keep :
    (p : String → Bool) (node : String) (l : List String)
    → contains node (keep p l) ≡ (contains node l && p node)
contains-keep p node [] = refl
contains-keep p node (n ∷ l) = ground (arith, eq_iff n node, contains-keep p node l)

contains-distinct_nodes :
    (node : String) (seen l : List String)
    → contains node (distinct_nodes seen l) ≡ true
    → contains node l ≡ true
unfolding distinct_nodes
contains-distinct_nodes node seen [] h = h
contains-distinct_nodes node seen (n ∷ l) h =
    ground
      (arith, h, contains-distinct_nodes node seen l, contains-distinct_nodes node (n ∷ seen) l)

contains-best_node :
    (higher : String → String → Bool) (best : String) (l : List String)
    → contains (best_node higher best l) (best ∷ l) ≡ true
unfolding best_node
contains-best_node higher best [] = ground (arith, eq_refl best)
contains-best_node higher best (n ∷ l) =
    ground (arith, contains-best_node higher best l, contains-best_node higher n l)

-- Whether a result lies in a list: nothing lies only in the empty list.
abbrev pub found_in : Option String → List String → Bool
found_in none [] = true
found_in none (n ∷ l) = false
found_in (some node) l = contains node l

best_of-found_in :
    (higher : String → String → Bool) (l : List String) → found_in (best_of higher l) l ≡ true
unfolding best_of
best_of-found_in higher [] = refl
best_of-found_in higher (n ∷ l) = contains-best_node higher n l

picked-found_in :
    (higher : String → String → Bool) (pool : List String)
    → found_in (best_of higher (distinct_nodes [] pool)) pool ≡ true
unfolding best_of distinct_nodes
picked-found_in higher [] = refl
picked-found_in higher (n ∷ l) =
    let node = best_node higher n (distinct_nodes (n ∷ []) l) in
    ground (
      arith,
      contains-best_node higher n (distinct_nodes (n ∷ []) l),
      contains-distinct_nodes node (n ∷ []) l,
    )

keep-none : (p : String → Bool) (l : List String) → any p l ≡ false → keep p l ≡ []
keep-none p [] h = refl
keep-none p (n ∷ l) h = ground (arith, h, keep-none p l)

or_all-keep :
    (p : String → Bool) (l available : List String)
    → any p l ≡ true
    → or_all (keep p l) available ≡ keep p l
unfolding or_all
or_all-keep p [] available h = absurd (no h)
  where
    no : ◌≡◌ {A = Bool} false true → ⊥
    no e = cc
or_all-keep p (n ∷ l) available h = elim (Bool-cases (p n)) [
  | inl is ↦ rw is refl
  | inr isnt ↦ rw isnt (or_all-keep p l available (ground (arith, h, isnt)))
]

found_in-keep :
    (p : String → Bool) (o : Option String) (l : List String)
    → any p l ≡ true
    → found_in o (keep p l) ≡ true
    → found_in o l ≡ true
found_in-keep p (some node) l some_there h = ground (arith, h, contains-keep p node l)
found_in-keep p none [] some_there h = refl
found_in-keep p none (n ∷ l) some_there h = elim (Bool-cases (p n)) [
  | inl is ↦ ground (arith, h, is)
  | inr isnt ↦ ground (arith, h, isnt, some_there, found_in-keep p none l, keep-none p l, nothing l)
]
  where
    nothing : (l : List String) → found_in none l ≡ true → any p l ≡ false
    nothing [] e = refl
    nothing (m ∷ l) e = ground (arith, e)

-- A node is selected just when there is a replica at all; it is one of the replicas, and a healthy
-- one if any replica is healthy.
pub select_best_node-found_in :
    (net : Network) (turn : ℕ) (available : List String) (s : ChunkScheduler)
    → let o = select_best_node net turn available s in
      let healthy = keep (net.is_node_healthy turn) available in
      (found_in o available ≡ true)
      × (found_in o (if any (net.is_node_healthy turn) available then healthy else available)
          ≡ true)
unfolding select_best_node or_all
select_best_node-found_in net turn available s =
    let p = net.is_node_healthy turn in
    let higher : String → String → Bool =
      λ a b. net.beats turn (a, s.node_load a) (b, s.node_load b) in
    elim (Bool-cases (any p available)) [
      | inl some_there ↦
          let among_healthy : found_in (select_best_node net turn available s) (keep p available)
              ≡ true =
            rw (or_all-keep p available available some_there)
              (picked-found_in higher (keep p available)) in
          (
            found_in-keep p (select_best_node net turn available s) available some_there
                among_healthy,
            rw some_there among_healthy,
          )
      | inr nobody ↦
          let no_healthy : keep p available ≡ [] = keep-none p available nobody in
          let among_all : found_in (select_best_node net turn available s) available ≡ true =
            rw no_healthy (picked-found_in higher available) in
          (among_all, rw nobody among_all)
    ]
