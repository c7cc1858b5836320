-- ===== src/Metadata/Erasure/Missing.antt =====
-- The map of the fragments at hand, and the fragments that it lacks.
use vstack.Prelude.{
  ℕ, zero, suc, ◌+◌, ◌≤◌, ◌<◌, ◌≡◌, refl, sym, ap, ◌∙◌, Bool, true, false, not, ◌&&◌, some, List,
  [], ◌∷◌, map, length, keep, All, upto, arith, if◌then◌else◌, ◌==◌, number_key, eq_iff, Bool-cases,
  inl, inr,
}
use vstack.Prelude.Dict.{Dict, lookup, insert, contains, lookup-insert, contains-insert}
use vstack.Prelude.Table.Ordered.{Ascending}
use vstack.Metadata.Erasure.{ErasureCoder, total_shards, map_fragments, erasures}
use vstack.Metadata.Erasure.Slots.{Fragment, index, content}

some_inj : (f g : List ℕ) → some f ≡ some g → f ≡ g
some_inj f g e = cc

inserted :
    (P : ℕ → List ℕ → Type 0) (j i : ℕ) (g f : List ℕ) (m : Dict ℕ (List ℕ))
    → P j g
    → ((k : ℕ) (h : List ℕ) → lookup k m ≡ some h → P k h)
    → lookup i (insert j g m) ≡ some f
    → P i f
inserted P j i g f m p h e = elim (Bool-cases (j == i)) [
  | inl q ↦
      rw
        (
          ← (eq_iff j i).0 q,
          ← some_inj g f (
              ap (λ b. if b then some g else lookup i m) (sym q) ∙ sym (lookup-insert j i g m) ∙ e),
        )
        p
  | inr q ↦
      h i f (ap (λ b. if b then some g else lookup i m) (sym q) ∙ sym (lookup-insert j i g m) ∙ e)
]

-- What the map holds is among the fragments.
pub map_fragments-genuine :
    (P : ℕ → List ℕ → Type 0) (m : Dict ℕ (List ℕ)) (fragments : List Fragment)
    → ((i : ℕ) (f : List ℕ) → lookup i m ≡ some f → P i f)
    → All (λ g. P (index g) (content g)) fragments
    → (i : ℕ) (f : List ℕ)
    → lookup i (map_fragments m (map index fragments) (map content fragments)) ≡ some f
    → P i f
unfolding map_fragments
map_fragments-genuine P m [] h k = h
map_fragments-genuine P m ((j, g) ∷ fragments) h k =
    map_fragments-genuine P (insert j g m) fragments (λ i f e. inserted P j i g f m k.0 h e) k.1

-- A test that fails at one more number of a range passes at one less.
module _ (p q : ℕ → Bool) (j : ℕ) (differ : (i : ℕ) → q i ≡ (not (j == i) && p i)) where
  keep-past :
      (start n : ℕ) → j < start → length (keep p (upto start n)) ≡ length (keep q (upto start n))
  keep-past start zero h = refl
  keep-past start (suc n) h =
      ground (arith, differ start, eq_iff j start, keep-past (suc start) n (omega arith))

  keep-less :
      (start n : ℕ)
      → p j ≡ true
      → start ≤ j
      → j < start + n
      → length (keep p (upto start n)) ≡ suc (length (keep q (upto start n)))
  keep-less start zero h a b = absurd (omega arith)
  keep-less start (suc n) h a b = elim (Bool-cases (j == start)) [
    | inl e ↦ ground (
      arith,
      differ start,
      eq_iff j start,
      keep-past (suc start) n (ground (arith, eq_iff j start)),
      h,
      e,
    )
    | inr e ↦ ground (
      arith,
      differ start,
      keep-less (suc start) n h (ground (arith, eq_iff j start, e)) (omega arith),
    )
  ]

module _ (coder : ErasureCoder) where
  not_contained :
      (j i : ℕ) (g : List ℕ) (m : Dict ℕ (List ℕ))
      → not (contains i (insert j g m)) ≡ (not (j == i) && not (contains i m))
  not_contained j i g m = ground (arith, contains-insert j i g m)

  -- Each fragment that the map takes up is one that it lacks no more.
  pub erasures-map_fragments :
      (m : Dict ℕ (List ℕ)) (fragments : List Fragment)
      → Ascending index fragments
      → All (λ f. index f < total_shards coder) fragments
      → All (λ f. contains (index f) m ≡ false) fragments
      → length (erasures coder (map_fragments m (map index fragments) (map content fragments)))
          + length fragments
        ≡ length (erasures coder m)
  unfolding erasures map_fragments
  erasures-map_fragments m [] a r h = omega arith
  erasures-map_fragments m ((j, g) ∷ fragments) a r h = omega (
    arith,
    erasures-map_fragments (insert j g m) fragments a.1 r.1 (new fragments a.0 h.1),
    keep-less (λ i. not (contains i m)) (λ i. not (contains i (insert j g m))) j
        (λ i. not_contained j i g m) 0 (total_shards coder) (ap not h.0) (omega arith)
        (omega (arith, r.0)),
  )
    where
      new :
          (l : List Fragment)
          → All (λ f. j < index f) l
          → All (λ f. contains (index f) m ≡ false) l
          → All (λ f. contains (index f) (insert j g m) ≡ false) l
      new [] a h = tt
      new (f ∷ l) a h = (
        ground (arith, contains-insert j (index f) g m, eq_iff j (index f), a.0, h.0),
        new l a.1 h.1,
      )
