-- ===== src/Prelude/Table/Ordered.antt =====
-- The rows that ORDER BY returns: the same ones, in ascending order where no two keys agree.
use mathlib.Core.Path.{◌≡◌, refl, ◌∙◌}
use mathlib.Core.Logic.{inl, inr}
use Prim.Native.Nat.{ℕ, suc, ◌+◌, ◌<◌}
use mathlib.Core.Bool.{Bool, false}
use mathlib.Core.List.{List, [], ◌∷◌}
use native.Mathlib.Omega.{arith}
use vstack.Prelude.Tests.{ltb, nat_beq, Bool-cases}
use vstack.Prelude.Lists.{All, All-map, All-keep, length}
use vstack.Prelude.Table.{select, insert_by, insert_last, order_by}
use vstack.Prelude.Table.Distinct.{Distinct}

module _ {ℓ} {R : Type ℓ} (key : R → ℕ) where
  abbrev pub Ascending : List R → Type 0
  Ascending [] = Unit
  Ascending (x ∷ rows) = All (λ y. key x < key y) rows × Ascending rows

  module _ {κ} (P : R → Type κ) where
    All-insert_by : (r : R) (rows : List R) → P r → All P rows → All P (insert_by key r rows)
    unfolding insert_by
    All-insert_by r [] p h = (p, tt)
    All-insert_by r (x ∷ rows) p h = elim (Bool-cases (ltb (key r) (key x))) [
      | inl e ↦ rw e (p, h)
      | inr e ↦ rw e (h.0, All-insert_by r rows p h.1)
    ]

    All-insert_last :
        (sorted rows : List R) → All P sorted → All P rows → All P (insert_last key sorted rows)
    unfolding insert_last
    All-insert_last sorted [] k h = k
    All-insert_last sorted (r ∷ rows) k h =
        All-insert_last (insert_by key r sorted) rows (All-insert_by r sorted h.0 k) h.1

    pub All-order_by : (rows : List R) → All P rows → All P (order_by key rows)
    unfolding order_by
    All-order_by rows h = All-insert_last [] rows tt h

  length-insert_by : (r : R) (rows : List R) → length (insert_by key r rows) ≡ suc (length rows)
  unfolding insert_by
  length-insert_by r [] = refl
  length-insert_by r (x ∷ rows) = ground (arith, length-insert_by r rows)

  length-insert_last :
      (sorted rows : List R) → length (insert_last key sorted rows) ≡ length sorted + length rows
  unfolding insert_last
  length-insert_last sorted [] = omega arith
  length-insert_last sorted (r ∷ rows) =
      omega (arith, length-insert_last (insert_by key r sorted) rows, length-insert_by r sorted)

  pub length-order_by : (rows : List R) → length (order_by key rows) ≡ length rows
  unfolding order_by
  length-order_by rows = omega (arith, length-insert_last [] rows)

  abbrev Differs : R → List R → Type 0
  Differs r rows = All (λ y. nat_beq (key r) (key y) ≡ false) rows

  insert_by-Ascending :
      (r : R) (rows : List R) → Differs r rows → Ascending rows → Ascending (insert_by key r rows)
  unfolding insert_by
  insert_by-Ascending r [] d h = (tt, tt)
  insert_by-Ascending r (x ∷ rows) d h = elim (Bool-cases (ltb (key r) (key x))) [
    | inl e ↦ rw e (
      (
        ground arith,
        All-map (λ y. key x < key y) (λ y. key r < key y) rows (λ y q. ground arith) h.0,
      ),
      h,
    )
    | inr e ↦ rw e (
      All-insert_by (λ y. key x < key y) r rows (ground (arith, d.0)) h.0,
      insert_by-Ascending r rows d.1 h.1,
    )
  ]

  insert_last-Ascending :
      (sorted rows : List R)
      → All (λ r. Differs r sorted) rows
      → Distinct (λ a b. nat_beq (key b) (key a)) rows
      → Ascending sorted
      → Ascending (insert_last key sorted rows)
  unfolding insert_last
  insert_last-Ascending sorted [] d h k = k
  insert_last-Ascending sorted (r ∷ rows) d h k =
      insert_last-Ascending (insert_by key r sorted) rows (spread rows d.1 h.0) h.1
        (insert_by-Ascending r sorted d.0 k)
    where
      spread :
          (l : List R)
          → All (λ y. Differs y sorted) l
          → All (λ y. nat_beq (key y) (key r) ≡ false) l
          → All (λ y. Differs y (insert_by key r sorted)) l
      spread [] a b = tt
      spread (y ∷ l) a b =
          (All-insert_by (λ z. nat_beq (key y) (key z) ≡ false) r sorted b.0 a.0, spread l a.1 b.1)

  pub order_by-Ascending :
      (rows : List R)
      → Distinct (λ a b. nat_beq (key b) (key a)) rows
      → Ascending (order_by key rows)
  unfolding order_by
  order_by-Ascending rows h = insert_last-Ascending [] rows (none_yet rows) h tt
    where
      none_yet : (l : List R) → All (λ r. Differs r []) l
      none_yet [] = tt
      none_yet (r ∷ l) = (tt, none_yet l)

-- Rows that do not exclude each other still do not in any order, nor do some of them.
module _ {ℓ} {R : Type ℓ} (same : R → R → Bool) (key : R → ℕ)
    (comm : (a b : R) → same b a ≡ same a b) where
  Distinct-insert_by :
      (r : R) (rows : List R)
      → All (λ x. same r x ≡ false) rows
      → Distinct same rows
      → Distinct same (insert_by key r rows)
  unfolding insert_by
  Distinct-insert_by r [] a h = (tt, tt)
  Distinct-insert_by r (x ∷ rows) a h = elim (Bool-cases (ltb (key r) (key x))) [
    | inl e ↦ rw e (a, h)
    | inr e ↦ rw e (
      All-insert_by key (λ y. same x y ≡ false) r rows (comm r x ∙ a.0) h.0,
      Distinct-insert_by r rows a.1 h.1,
    )
  ]

  Distinct-insert_last :
      (sorted rows : List R)
      → All (λ r. All (λ x. same r x ≡ false) sorted) rows
      → Distinct same rows
      → Distinct same sorted
      → Distinct same (insert_last key sorted rows)
  unfolding insert_last
  Distinct-insert_last sorted [] d h k = k
  Distinct-insert_last sorted (r ∷ rows) d h k =
      Distinct-insert_last (insert_by key r sorted) rows (spread rows d.1 h.0) h.1
        (Distinct-insert_by r sorted d.0 k)
    where
      spread :
          (l : List R)
          → All (λ y. All (λ x. same y x ≡ false) sorted) l
          → All (λ y. same r y ≡ false) l
          → All (λ y. All (λ x. same y x ≡ false) (insert_by key r sorted)) l
      spread [] a b = tt
      spread (y ∷ l) a b = (
        All-insert_by key (λ x. same y x ≡ false) r sorted (comm r y ∙ b.0) a.0,
        spread l a.1 b.1,
      )

  pub Distinct-order_by : (rows : List R) → Distinct same rows → Distinct same (order_by key rows)
  unfolding order_by
  Distinct-order_by rows h = Distinct-insert_last [] rows (none_yet rows) h tt
    where
      none_yet : (l : List R) → All (λ r. All (λ x. same r x ≡ false) []) l
      none_yet [] = tt
      none_yet (r ∷ l) = (tt, none_yet l)

pub Distinct-select {ℓ} :
    {R : Type ℓ} (same : R → R → Bool) (p : R → Bool) (rows : List R)
    → Distinct same rows
    → Distinct same (select p rows)
unfolding select
Distinct-select same p [] h = tt
Distinct-select same p (r ∷ rows) h = elim (Bool-cases (p r)) [
  | inl e ↦ rw e (All-keep (λ x. same r x ≡ false) p rows h.0, Distinct-select same p rows h.1)
  | inr e ↦ rw e (Distinct-select same p rows h.1)
]
