-- ===== src/Metadata/Erasure/Bytes.antt =====
-- Bytes by their position, slices of a chunk, and slices put together again.
use vstack.Prelude.{
  ℕ, zero, suc, ◌+◌, ◌*◌, ◌≤◌, ◌<◌, ◌≡◌, refl, sym, ap, ◌∙◌, some, List, [], ◌∷◌, ◌++◌, map, length,
  get_elem?, take, drop, take-append-drop, drop-drop, All, upto, map-upto_shift, arith,
}
use vstack.Metadata.Erasure.{data_fragment, join}

-- The byte at a position, and 0 past the end.
abbrev pub at : List ℕ → ℕ → ℕ
at [] i = 0
at (x ∷ xs) zero = x
at (x ∷ xs) (suc i) = at xs i

pub get_elem?-at : (xs : List ℕ) (i : ℕ) → i < length xs → get_elem? xs i ≡ some (at xs i)
get_elem?-at [] i h = absurd (omega arith)
get_elem?-at (x ∷ xs) zero h = refl
get_elem?-at (x ∷ xs) (suc i) h = get_elem?-at xs i (omega arith)

-- A byte that is found is the one at its position.
pub at-eq : (xs : List ℕ) (i b : ℕ) → get_elem? xs i ≡ some b → at xs i ≡ b
at-eq [] i b h = absurd cc
at-eq (x ∷ xs) zero b h = cc
at-eq (x ∷ xs) (suc i) b h = at-eq xs i b h

pub All-at : (P : ℕ → Type 0) (xs : List ℕ) → P 0 → All P xs → (i : ℕ) → P (at xs i)
All-at P [] z h i = z
All-at P (x ∷ xs) z h zero = h.0
All-at P (x ∷ xs) z h (suc i) = All-at P xs z h.1 i

drop-next : (xs : List ℕ) (i : ℕ) → i < length xs → drop i xs ≡ at xs i ∷ drop (suc i) xs
drop-next [] i h = absurd (omega arith)
drop-next (x ∷ xs) zero h = refl
drop-next (x ∷ xs) (suc i) h = drop-next xs i (omega arith)

slice-from :
    (xs : List ℕ) (start n : ℕ)
    → start + n ≤ length xs
    → take n (drop start xs) ≡ map (at xs) (upto start n)
slice-from xs start zero h = refl
slice-from xs start (suc n) h =
    rw (drop-next xs start (omega arith))
      (ap (◌∷◌ (at xs start)) (slice-from xs (suc start) n (omega arith)))

-- A slice within the list, byte by byte.
pub slice-eq :
    (xs : List ℕ) (start n : ℕ)
    → start + n ≤ length xs
    → take n (drop start xs) ≡ map (λ j. at xs (start + j)) (upto 0 n)
slice-eq xs start n h =
    slice-from xs start n h
    ∙ ap (λ s. map (at xs) (upto s n)) (omega arith)
    ∙ map-upto_shift (at xs) 0 start n

drop-all : (n : ℕ) (xs : List ℕ) → length xs ≤ n → drop n xs ≡ []
drop-all zero [] h = refl
drop-all zero (x ∷ xs) h = absurd (omega arith)
drop-all (suc n) [] h = refl
drop-all (suc n) (x ∷ xs) h = drop-all n xs (omega arith)

join-from :
    (size : ℕ) (xs : List ℕ) (i n : ℕ)
    → i * size + n * size ≡ length xs
    → join (map (data_fragment size xs) (upto i n)) ≡ drop (i * size) xs
unfolding join data_fragment
join-from size xs i zero h = sym (drop-all (i * size) xs (omega arith))
join-from size xs i (suc n) h =
    ap (◌++◌ (take size (drop (i * size) xs))) (
      join-from size xs (suc i) n (omega arith)
      ∙ ap (λ k. drop k xs) (omega arith)
      ∙ sym (drop-drop (i * size) size xs))
    ∙ take-append-drop size (drop (i * size) xs)

-- The slices one after another are the front of the list.
pub join-data_fragments :
    (size : ℕ) (xs : List ℕ) (n : ℕ)
    → n * size ≡ length xs
    → join (map (data_fragment size xs) (upto 0 n)) ≡ xs
join-data_fragments size xs n h =
    let e : 0 * size ≡ 0 = omega arith in
    join-from size xs 0 n (omega arith) ∙ ap (λ k. drop k xs) e
