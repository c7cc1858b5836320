-- ===== src/Metadata/Erasure/Slots.antt =====
-- The list with gaps that the fragments at hand are put into.
use vstack.Prelude.{
  ℕ, zero, suc, ◌+◌, ◌<◌, ◌≡◌, refl, sym, ap, ◌∙◌, Option, none, some, List, [], ◌∷◌, ◌++◌, map,
  length, drop, replicate, length-replicate, All, All-map, arith, number_key,
}
use mathlib.Core.List.{append-nil, append_assoc}
use vstack.Prelude.Table.Ordered.{Ascending}
use vstack.Metadata.Erasure.{available, set_slot, set_each, max_index}

abbrev pub Fragment : Type 0
Fragment = ℕ × List ℕ

abbrev pub index : Fragment → ℕ
index f = f.0

abbrev pub content : Fragment → List ℕ
content f = f.1

cons≢nil : (f : List ℕ) (l : List (List ℕ)) → ◌≡◌ {A = List (List ℕ)} (f ∷ l) [] → ⊥
cons≢nil f l e = cc

-- Setting a slot past all that are filled adds a fragment at the end of those available.
available-set_slot :
    (i : ℕ) (f : List ℕ) (slots : List (Option (List ℕ)))
    → i < length slots
    → available (drop i slots) ≡ []
    → available (set_slot i f slots) ≡ available slots ++ f ∷ []
unfolding available set_slot
available-set_slot i f [] h e = absurd (omega arith)
available-set_slot zero f (none ∷ slots) h e = rw e refl
available-set_slot zero f (some g ∷ slots) h e = absurd (cons≢nil g (available slots) e)
available-set_slot (suc i) f (none ∷ slots) h e = available-set_slot i f slots (omega arith) e
available-set_slot (suc i) f (some g ∷ slots) h e =
    ap (◌∷◌ g) (available-set_slot i f slots (omega arith) e)

still_free :
    (k : ℕ) (slots : List (Option (List ℕ))) → available slots ≡ [] → available (drop k slots) ≡ []
unfolding available
still_free zero slots e = e
still_free (suc k) [] e = refl
still_free (suc k) (none ∷ slots) e = still_free k slots e
still_free (suc k) (some g ∷ slots) e = absurd (cons≢nil g (available slots) e)

free-set_slot :
    (i j : ℕ) (f : List ℕ) (slots : List (Option (List ℕ)))
    → i < j
    → available (drop i slots) ≡ []
    → available (drop j (set_slot i f slots)) ≡ []
unfolding set_slot available
free-set_slot i zero f slots h e = absurd (omega arith)
free-set_slot i (suc j) f [] h e = refl
free-set_slot zero (suc j) f (none ∷ slots) h e = still_free j slots e
free-set_slot zero (suc j) f (some g ∷ slots) h e = absurd (cons≢nil g (available slots) e)
free-set_slot (suc i) (suc j) f (x ∷ slots) h e = free-set_slot i j f slots (omega arith) e

length-set_slot :
    (i : ℕ) (f : List ℕ) (slots : List (Option (List ℕ)))
    → length (set_slot i f slots) ≡ length slots
unfolding set_slot
length-set_slot i f [] = refl
length-set_slot zero f (x ∷ slots) = refl
length-set_slot (suc i) f (x ∷ slots) = ap suc (length-set_slot i f slots)

available-set_each :
    (fragments : List Fragment) (slots : List (Option (List ℕ)))
    → Ascending index fragments
    → All (λ f. index f < length slots) fragments
    → All (λ f. available (drop (index f) slots) ≡ []) fragments
    → available (set_each fragments slots) ≡ available slots ++ map content fragments
unfolding set_each
available-set_each [] slots a r e = sym (append-nil (available slots))
available-set_each ((i, f) ∷ fragments) slots a r e =
    available-set_each fragments (set_slot i f slots) a.1
      (All-map (λ g. index g < length slots) (λ g. index g < length (set_slot i f slots)) fragments
        (λ g q. rw (length-set_slot i f slots) q) r.1)
      (All-map (λ g. i < index g) (λ g. available (drop (index g) (set_slot i f slots)) ≡ [])
        fragments (λ g q. free-set_slot i (index g) f slots q e.0) a.0)
    ∙ ap (λ (l : List (List ℕ)). l ++ map content fragments) (available-set_slot i f slots r.0 e.0)
    ∙ append_assoc (available slots) (f ∷ []) (map content fragments)

no_slots : (n : ℕ) → available (replicate n none) ≡ []
unfolding available
no_slots zero = refl
no_slots (suc n) = no_slots n

in_slots :
    (fragments : List Fragment) (n : ℕ) → max_index fragments < n → All (λ f. index f < n) fragments
unfolding max_index
in_slots [] n h = tt
in_slots ((i, f) ∷ fragments) n h = (omega arith, in_slots fragments n (omega arith))

-- The list with gaps holds the contents of the fragments, in order.
pub available-eq :
    (fragments : List Fragment)
    → Ascending index fragments
    → available (set_each fragments (replicate (max_index fragments + 1) none))
      ≡ map content fragments
available-eq fragments a =
    let n = max_index fragments + 1 in
    available-set_each fragments (replicate n none) a
      (rw (length-replicate {A = Option (List ℕ)} n none) (in_slots fragments n (omega arith)))
      (All-map (λ f. index f < n) (λ f. available (drop (index f) (replicate n none)) ≡ [])
        fragments (λ f q. still_free (index f) (replicate n none) (no_slots n))
        (in_slots fragments n (omega arith)))
    ∙ ap (λ (l : List (List ℕ)). l ++ map content fragments) (no_slots n)
