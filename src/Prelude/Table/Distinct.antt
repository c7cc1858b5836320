-- ===== src/Prelude/Table/Distinct.antt =====
-- Tables of which no two rows exclude each other.
use mathlib.Core.Path.{◌≡◌, refl, ◌∙◌}
use mathlib.Core.Bool.{Bool, true, false, not}
use mathlib.Core.Option.{some}
use mathlib.Core.List.{List, [], ◌∷◌, ◌++◌}
use mathlib.Core.Logic.{inl, inr}
use native.Mathlib.Omega.{arith}
use vstack.Prelude.Tests.{if◌then◌else◌, Bool-cases}
use vstack.Prelude.Lists.{keep, any, All, All-keep, All-keep_self, All-map}
use vstack.Prelude.Table.{delete, update, insert, replace}

abbrev pub Distinct {ℓ} : {R : Type ℓ} → (R → R → Bool) → List R → Type 0
Distinct same [] = Unit
Distinct same (r ∷ rows) = All (λ x. same r x ≡ false) rows × Distinct same rows

module _ {ℓ} {R : Type ℓ} (same : R → R → Bool) where
  pub Distinct-delete :
      (p : R → Bool) (rows : List R) → Distinct same rows → Distinct same (delete p rows)
  unfolding delete
  Distinct-delete p [] h = tt
  Distinct-delete p (r ∷ rows) h = go (p r) (Distinct-delete p rows h.1)
    where
      go :
          (b : Bool)
          → Distinct same (keep (λ x. not (p x)) rows)
          → Distinct same
              (if not b then r ∷ keep (λ x. not (p x)) rows else keep (λ x. not (p x)) rows)
      go true rest = rest
      go false rest = (All-keep (λ x. same r x ≡ false) (λ x. not (p x)) rows h.0, rest)

  Distinct-append :
      (r : R) (rows : List R)
      → ((x : R) → same x r ≡ same r x)
      → All (λ x. same r x ≡ false) rows
      → Distinct same rows
      → Distinct same (rows ++ r ∷ [])
  Distinct-append r [] sym apart h = (tt, tt)
  Distinct-append r (x ∷ rows) sym apart h = (snoc rows h.0, Distinct-append r rows sym apart.1 h.1)
    where
      snoc :
          (l : List R) → All (λ y. same x y ≡ false) l → All (λ y. same x y ≡ false) (l ++ r ∷ [])
      snoc [] k = (sym x ∙ apart.0, tt)
      snoc (y ∷ l) k = (k.0, snoc l k.1)

  not-eq-true : (b : Bool) → not b ≡ true → b ≡ false
  not-eq-true true h = cc
  not-eq-true false h = refl

  pub Distinct-replace :
      (r : R) (rows : List R)
      → ((x : R) → same x r ≡ same r x)
      → Distinct same rows
      → Distinct same (replace same r rows)
  unfolding replace
  Distinct-replace r rows sym h =
      Distinct-append r (delete (same r) rows) sym apart (Distinct-delete (same r) rows h)
    where
      apart : All (λ x. same r x ≡ false) (delete (same r) rows)
      apart =
          All-map (λ x. not (same r x) ≡ true) (λ x. same r x ≡ false) _
            (λ x. not-eq-true (same r x)) (All-keep_self (λ x. not (same r x)) rows)

  All-of_none :
      (r : R) (rows : List R) → any (same r) rows ≡ false → All (λ x. same r x ≡ false) rows
  All-of_none r [] h = tt
  All-of_none r (x ∷ rows) h = (ground arith, All-of_none r rows (ground arith))

  pub Distinct-insert :
      (r : R) (rows : List R) {rows' : List R}
      → ((x : R) → same x r ≡ same r x)
      → insert same r rows ≡ some rows'
      → Distinct same rows
      → Distinct same rows'
  unfolding insert
  Distinct-insert r rows {rows'} sym e h = elim (Bool-cases (any (same r) rows)) [
    | inl clash ↦ absurd (ground arith)
    | inr free ↦ rw (← added free) (Distinct-append r rows sym (All-of_none r rows free) h)
  ]
    where
      added : any (same r) rows ≡ false → rows ++ r ∷ [] ≡ rows'
      added free = ground arith

  -- An update that leaves the keys alone.
  pub Distinct-update :
      (p : R → Bool) (f : R → R) (rows : List R)
      → ((x y : R) → same (f x) y ≡ same x y)
      → ((x y : R) → same x (f y) ≡ same x y)
      → Distinct same rows
      → Distinct same (update p f rows)
  unfolding update
  Distinct-update p f [] left right h = tt
  Distinct-update p f (r ∷ rows) left right h =
      (go (p r) rows h.0, Distinct-update p f rows left right h.1)
    where
      go :
          (b : Bool) (l : List R)
          → All (λ x. same r x ≡ false) l
          → All (λ x. same (if b then f r else r) x ≡ false) (update p f l)
      go b [] k = tt
      go true (x ∷ l) k = (ground (arith, left r (f x), left r x, right r x), go true l k.1)
      go false (x ∷ l) k = (ground (arith, right r x), go false l k.1)
