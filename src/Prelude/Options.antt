-- ===== src/Prelude/Options.antt =====
-- Options as the outcome of code that may raise, and a loop over such code.
use Prim.Native.Nat.{ℕ, zero, suc, ◌+◌, ◌≤◌, ◌<◌}
use mathlib.Core.Path.{◌≡◌, refl, ap, ◌∙◌}
use mathlib.Core.Option.{Option, none, some}
use mathlib.Core.List.{List, [], ◌∷◌, ◌++◌, map}
use native.Mathlib.Omega.{arith}
use vstack.Prelude.Lists.{All, length, get_elem?}

infixl 10 ◌>>=◌
abbrev pub ◌>>=◌ {ℓ κ} : {A : Type ℓ} {B : Type κ} → Option A → (A → Option B) → Option B
none >>= f = none
some a >>= f = f a

-- The numbers from `start` on, as many as `n`: `range(n)` starts at 0.
abbrev pub upto : ℕ → ℕ → List ℕ
upto start zero = []
upto start (suc n) = start ∷ upto (suc start) n

-- `[f(x) for x in xs]` where `f` may raise
abbrev pub collect {ℓ κ} : {A : Type ℓ} {B : Type κ} → (A → Option B) → List A → Option (List B)
collect f [] = some []
collect f (x ∷ xs) = do y ← f x; ys ← collect f xs; some (y ∷ ys)

module _ {ℓ κ} {A : Type ℓ} {B : Type κ} where
  -- A loop in which nothing raises.
  pub collect-eq-map :
      (f : A → Option B) (g : A → B) (xs : List A)
      → All (λ x. f x ≡ some (g x)) xs
      → collect f xs ≡ some (map g xs)
  collect-eq-map f g [] h = refl
  collect-eq-map f g (x ∷ xs) h = rw (h.0, collect-eq-map f g xs h.1) refl

  pub collect-map {ν} :
      {C : Type ν} (f : B → Option C) (h : A → B) (xs : List A)
      → collect f (map h xs) ≡ collect (λ x. f (h x)) xs
  collect-map f h [] = refl
  collect-map f h (x ∷ xs) = ap (λ ys. do y ← f (h x); zs ← ys; some (y ∷ zs)) (collect-map f h xs)

-- What holds of every number of a range.
pub All-upto {ℓ} :
    (P : ℕ → Type ℓ) (start n : ℕ)
    → ((i : ℕ) → start ≤ i → i < start + n → P i)
    → All P (upto start n)
All-upto P start zero h = tt
All-upto P start (suc n) h = (
  h start (omega arith) (omega arith),
  All-upto P (suc start) n (λ i a b. h i (omega arith) (omega arith)),
)

module _ {ℓ} {A : Type ℓ} (f : ℕ → A) where
  pub get_elem?-upto :
      (start n i : ℕ) → i < n → get_elem? (map f (upto start n)) i ≡ some (f (start + i))
  get_elem?-upto start zero i h = absurd (omega arith)
  get_elem?-upto start (suc n) zero h = ap (λ j. some (f j)) (omega arith)
  get_elem?-upto start (suc n) (suc i) h =
      get_elem?-upto (suc start) n i (omega arith) ∙ ap (λ j. some (f j)) (omega arith)

  pub length-upto : (start n : ℕ) → length (map f (upto start n)) ≡ n
  length-upto start zero = refl
  length-upto start (suc n) = ap suc (length-upto (suc start) n)

pub map-upto_cong {ℓ} :
    {A : Type ℓ} (f g : ℕ → A) (start n : ℕ)
    → ((i : ℕ) → start ≤ i → i < start + n → f i ≡ g i)
    → map f (upto start n) ≡ map g (upto start n)
map-upto_cong f g start zero h = refl
map-upto_cong f g start (suc n) h =
    ap (◌∷◌ (f start)) (map-upto_cong f g (suc start) n (λ i a b. h i (omega arith) (omega arith)))
    ∙ ap (λ x. x ∷ map g (upto (suc start) n)) (h start (omega arith) (omega arith))

pub map-upto_shift {ℓ} :
    {A : Type ℓ} (f : ℕ → A) (start by n : ℕ)
    → map f (upto (by + start) n) ≡ map (λ j. f (by + j)) (upto start n)
map-upto_shift f start by zero = refl
map-upto_shift f start by (suc n) =
    ap (◌∷◌ (f (by + start)))
      (ap (λ s. map f (upto s n)) (omega arith) ∙ map-upto_shift f (suc start) by n)

-- A range in two parts.
pub map-upto_append {ℓ} :
    {A : Type ℓ} (f : ℕ → A) (start m n : ℕ)
    → map f (upto start (m + n)) ≡ map f (upto start m) ++ map f (upto (m + start) n)
map-upto_append f start zero n =
    let e : 0 + n ≡ n = omega arith in
    let e' : start ≡ 0 + start = omega arith in
    ap (λ k. map f (upto start k)) e ∙ ap (λ s. map f (upto s n)) e'
map-upto_append f start (suc m) n =
    let e : suc m + n ≡ suc (m + n) = omega arith in
    let e' : m + suc start ≡ suc m + start = omega arith in
    ap (λ k. map f (upto start k)) e
    ∙ ap (◌∷◌ (f start)) (
        map-upto_append f (suc start) m n
        ∙ ap (λ s. map f (upto (suc start) m) ++ map f (upto s n)) e')

pub All-mapped {ℓ κ ν} :
    {A : Type ℓ} {B : Type κ} (P : B → Type ν) (f : A → B) (xs : List A)
    → ((x : A) → P (f x))
    → All P (map f xs)
All-mapped P f [] h = tt
All-mapped P f (x ∷ xs) h = (h x, All-mapped P f xs h)
