-- ===== src/Metadata/HealthMonitor/Rows.antt =====
-- A run of statements, one for each of some rows, as one map over the table.
use vstack.Prelude.{
  ◌≡◌, refl, ap, ◌∙◌, Bool, false, List, [], ◌∷◌, map, if◌then◌else◌, ◌==◌, text_key, eq_iff,
  eq_refl, All, All-keep, arith,
}
use vstack.Prelude.Table.{select, update}
use vstack.Prelude.Table.Distinct.{Distinct}
use vstack.Metadata.Tables.{NodeRow, same_node}

-- One UPDATE for each of the nodes, by id.
unfoldable pub update_each :
    (NodeRow → NodeRow → NodeRow) → List NodeRow → List NodeRow → List NodeRow
unfolding update
update_each f [] rows = rows
update_each f (x ∷ xs) rows = update_each f xs (update (λ n. n.node_id == x.node_id) (f x) rows)

abbrev pub Apart : NodeRow → List NodeRow → Type 0
Apart r rows = All (λ x. same_node r x ≡ false) rows

module _ (f : NodeRow → NodeRow → NodeRow)
    (keeps_id : (x n : NodeRow) → (f x n).node_id ≡ n.node_id) where
  apart_id : (r x : NodeRow) → same_node r x ≡ false → (x.node_id == r.node_id) ≡ false
  unfolding same_node
  apart_id r x h = ground (arith, h, eq_iff r.node_id x.node_id, eq_iff x.node_id r.node_id)

  update-Apart :
      (r : NodeRow) (g : NodeRow → NodeRow) (rows : List NodeRow)
      → Apart r rows
      → update (λ n. n.node_id == r.node_id) g rows ≡ rows
  unfolding update
  update-Apart r g [] h = refl
  update-Apart r g (x ∷ rows) h = ground (arith, apart_id r x h.0, update-Apart r g rows h.1)

  no_match :
      (x y r : NodeRow)
      → y.node_id ≡ r.node_id
      → same_node r x ≡ false
      → (y.node_id == x.node_id) ≡ false
  unfolding same_node
  no_match x y r e h = ground (arith, e, h, eq_iff y.node_id x.node_id, eq_iff r.node_id x.node_id)

  -- A row that none of the statements is about stays at the head.
  update_each-head :
      (xs : List NodeRow) (y r : NodeRow) (rows : List NodeRow)
      → y.node_id ≡ r.node_id
      → Apart r xs
      → update_each f xs (y ∷ rows) ≡ y ∷ update_each f xs rows
  unfolding update_each update
  update_each-head [] y r rows e h = refl
  update_each-head (x ∷ xs) y r rows e h =
      rw (no_match x y r e h.0)
        (update_each-head xs y r (update (λ n. n.node_id == x.node_id) (f x) rows) e h.1)

  -- A node's own statement changes its row, and the others' statements leave it so.
  update_each-own :
      (r : NodeRow) (xs rows : List NodeRow)
      → Apart r xs
      → Apart r rows
      → update_each f (r ∷ xs) (r ∷ rows) ≡ f r r ∷ update_each f xs rows
  unfolding update_each update
  update_each-own r xs rows hx h =
      rw (eq_refl r.node_id, update-Apart r (f r) rows h)
        (update_each-head xs (f r r) r rows (keeps_id r r) hx)

  -- The nodes that a query has picked, changed one by one, against one map over the rows.
  pub update_each-select :
      (p : NodeRow → Bool) (rows : List NodeRow)
      → Distinct same_node rows
      → update_each f (select p rows) rows ≡ map (λ r. if p r then f r r else r) rows
  unfolding update_each select
  update_each-select p [] h = refl
  update_each-select p (r ∷ rows) h = ground (
    arith,
    update_each-own r (select p rows) rows (All-keep (λ x. same_node r x ≡ false) p rows h.0) h.0,
    update_each-head (select p rows) r r rows refl
        (All-keep (λ x. same_node r x ≡ false) p rows h.0),
    update_each-select p rows h.1,
  )

  -- The same for every node of the table.
  pub update_each-all :
      (rows : List NodeRow)
      → Distinct same_node rows
      → update_each f rows rows ≡ map (λ r. f r r) rows
  unfolding update_each
  update_each-all [] h = refl
  update_each-all (r ∷ rows) h =
      update_each-own r rows rows h.0 h.0 ∙ ap (◌∷◌ (f r r)) (update_each-all rows h.1)

module _ (p : NodeRow → Bool) (f : NodeRow → NodeRow) where
  pub update-eq-map :
      (rows : List NodeRow) → update p f rows ≡ map (λ r. if p r then f r else r) rows
  unfolding update
  update-eq-map [] = refl
  update-eq-map (r ∷ rows) = ap (◌∷◌ (if p r then f r else r)) (update-eq-map rows)

  -- Two statements about the same rows are one.
  pub update-twice :
      (g : NodeRow → NodeRow) (rows : List NodeRow)
      → ((r : NodeRow) → p (f r) ≡ p r)
      → update p g (update p f rows) ≡ update p (λ r. g (f r)) rows
  unfolding update
  update-twice g [] h = refl
  update-twice g (r ∷ rows) h = ground (arith, h r, update-twice g rows h)

pub update-same : (p : NodeRow → Bool) (rows : List NodeRow) → update p (λ r. r) rows ≡ rows
unfolding update
update-same p [] = refl
update-same p (r ∷ rows) = ground (arith, update-same p rows)
