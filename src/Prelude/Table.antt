-- ===== src/Prelude/Table.antt =====
-- A table of the database as a list of rows, and the statements that the program runs on one.
-- `same x y` says that two rows cannot stand in the table together: they agree on the primary
-- key or on a UNIQUE constraint.
pub mod Distinct
pub mod Ordered
use mathlib.Core.Path.{◌≡◌, refl}
use Prim.Native.Nat.{ℕ}
use mathlib.Core.Bool.{Bool, true, false, not, ◌||◌}
use mathlib.Core.Option.{Option, none, some}
use mathlib.Core.List.{List, [], ◌∷◌, ◌++◌, append-nil}
use native.Mathlib.Omega.{arith}
use vstack.Prelude.Tests.{if◌then◌else◌, ltb}
use vstack.Prelude.Lists.{keep, any}

module _ {ℓ} {R : Type ℓ} where
  -- `SELECT ... WHERE p`
  unfoldable pub select : (R → Bool) → List R → List R
  select p rows = keep p rows

  -- `DELETE ... WHERE p`
  unfoldable pub delete : (R → Bool) → List R → List R
  delete p rows = keep (λ r. not (p r)) rows

  -- `UPDATE ... SET f WHERE p`
  unfoldable pub update : (R → Bool) → (R → R) → List R → List R
  update p f [] = []
  update p f (r ∷ rows) = (if p r then f r else r) ∷ update p f rows

  -- `INSERT`: refused where a row of the table excludes the new one
  unfoldable pub insert : (R → R → Bool) → R → List R → Option (List R)
  insert same r rows = if any (same r) rows then none else some (rows ++ r ∷ [])

  -- `INSERT OR REPLACE`: the rows that exclude the new one are removed first
  unfoldable pub replace : (R → R → Bool) → R → List R → List R
  unfolding delete
  replace same r rows = delete (same r) rows ++ r ∷ []

  -- `ORDER BY key`
  unfoldable pub insert_by : (R → ℕ) → R → List R → List R
  insert_by key r [] = r ∷ []
  insert_by key r (x ∷ rows) =
      if ltb (key r) (key x) then r ∷ x ∷ rows else x ∷ insert_by key r rows

  insert_last : (R → ℕ) → List R → List R → List R
  unfolding insert_by
  insert_last key sorted [] = sorted
  insert_last key sorted (r ∷ rows) = insert_last key (insert_by key r sorted) rows

  unfoldable pub order_by : (R → ℕ) → List R → List R
  unfolding insert_last
  order_by key rows = insert_last key [] rows

  any-insert_by :
      (p : R → Bool) (key : R → ℕ) (r : R) (rows : List R)
      → any p (insert_by key r rows) ≡ (p r || any p rows)
  unfolding insert_by
  any-insert_by p key r [] = refl
  any-insert_by p key r (x ∷ rows) = ground (arith, any-insert_by p key r rows)

  any-insert_last :
      (p : R → Bool) (key : R → ℕ) (sorted rows : List R)
      → any p (insert_last key sorted rows) ≡ (any p rows || any p sorted)
  unfolding insert_last
  any-insert_last p key sorted [] = refl
  any-insert_last p key sorted (r ∷ rows) =
      ground
        (arith, any-insert_last p key (insert_by key r sorted) rows, any-insert_by p key r sorted)

  -- The order changes nothing about which rows there are.
  pub any-order_by :
      (p : R → Bool) (key : R → ℕ) (rows : List R) → any p (order_by key rows) ≡ any p rows
  unfolding order_by
  any-order_by p key rows = ground (arith, any-insert_last p key [] rows)

  -- The rows that a condition picks are left alone by what touches other rows.
  pub select-delete :
      (p q : R → Bool) (rows : List R)
      → ((r : R) → p r ≡ true → q r ≡ false)
      → select p (delete q rows) ≡ select p rows
  unfolding select delete
  select-delete p q [] h = refl
  select-delete p q (r ∷ rows) h = ground (arith, h r, select-delete p q rows h)

  pub select-update :
      (p q : R → Bool) (f : R → R) (rows : List R)
      → ((r : R) → q r ≡ true → p r ≡ false)
      → ((r : R) → q r ≡ true → p (f r) ≡ false)
      → select p (update q f rows) ≡ select p rows
  unfolding select update
  select-update p q f [] h k = refl
  select-update p q f (r ∷ rows) h k = ground (arith, h r, k r, select-update p q f rows h k)

  pub select-append :
      (p : R → Bool) (r : R) (rows : List R)
      → select p (rows ++ r ∷ []) ≡ (select p rows ++ (if p r then r ∷ [] else []))
  unfolding select
  select-append p r [] = ground arith
  select-append p r (x ∷ rows) = ground (arith, select-append p r rows)

  pub select-replace :
      (p : R → Bool) (same : R → R → Bool) (r : R) (rows : List R)
      → p r ≡ false
      → ((x : R) → p x ≡ true → same r x ≡ false)
      → select p (replace same r rows) ≡ select p rows
  unfolding replace
  select-replace p same r rows out h = ground (
    arith,
    select-append p r (delete (same r) rows),
    append-nil (select p (delete (same r) rows)),
    select-delete p (same r) rows h,
  )

  any_last : (q : R → Bool) (r : R) (rows : List R) → q r ≡ true → any q (rows ++ r ∷ []) ≡ true
  any_last q r [] h = ground arith
  any_last q r (x ∷ rows) h = ground (arith, any_last q r rows h)

  -- The new row is there after the statement.
  pub any-replace_new :
      (q : R → Bool) (same : R → R → Bool) (r : R) (rows : List R)
      → q r ≡ true
      → any q (replace same r rows) ≡ true
  unfolding replace
  any-replace_new q same r rows h = any_last q r (delete (same r) rows) h

  -- An old row is there still, if the new one does not exclude it.
  pub any-replace_old :
      (q : R → Bool) (same : R → R → Bool) (r : R) (rows : List R)
      → ((x : R) → q x ≡ true → same r x ≡ false)
      → any q rows ≡ true
      → any q (replace same r rows) ≡ true
  unfolding replace delete
  any-replace_old q same r [] h k = absurd (no k)
    where
      no : ◌≡◌ {A = Bool} false true → ⊥
      no e = cc
  any-replace_old q same r (x ∷ rows) h k =
      ground (
        arith,
        h x,
        any-replace_old q same r rows h,
        any_last q r (keep (λ y. not (same r y)) rows),
      )

  -- With the rows that a condition picks all excluded, the new row is the one that it picks.
  pub select-replace_self :
      (p : R → Bool) (same : R → R → Bool) (r : R) (rows : List R)
      → p r ≡ true
      → ((x : R) → p x ≡ true → same r x ≡ true)
      → select p (replace same r rows) ≡ r ∷ []
  unfolding replace delete select
  select-replace_self p same r [] h k = ground arith
  select-replace_self p same r (x ∷ rows) h k =
      ground (arith, k x, select-replace_self p same r rows h k)
