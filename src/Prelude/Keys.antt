-- ===== src/Prelude/Keys.antt =====
-- Python's `==` on the keys that the program compares: numbers and texts.
use Prim.Native.Nat.{ℕ}
use Prim.Native.String.{String}
use mathlib.Core.Path.{◌≡◌, refl}
use mathlib.Core.Logic.{◌↔◌}
use mathlib.Core.Bool.{Bool, true}
use native.Mathlib.Omega.{arith}
use text.Mathlib.Text.{◌==◌ as same_string}
use text.Mathlib.TextEquality.{eq_iff as same_string_iff}
use vstack.Prelude.Tests.{nat_beq}

pub nat_beq_iff : (a b : ℕ) → (nat_beq a b ≡ true) ↔ (a ≡ b)
nat_beq_iff a b = ground arith

-- A type whose values serve as keys: a test, and the equation that it decides.
pub record Key {ℓ} (K : Type ℓ) : Type ℓ where
  pub same_key : K → K → Bool
  pub decides : (j k : K) → (same_key j k ≡ true) ↔ (j ≡ k)

instance abbrev pub text_key : Key String
text_key = record { same_key = same_string; decides = same_string_iff }

instance abbrev pub number_key : Key ℕ
number_key = record { same_key = nat_beq; decides = nat_beq_iff }

infix 50 ◌==◌
abbrev pub ◌==◌ {ℓ} : {K : Type ℓ} ⦃key : Key K⦄ → K → K → Bool
◌==◌ ⦃key⦄ = key.same_key

-- The two halves of the law, for the lists of the tactics.
pub eq_iff {ℓ} : {K : Type ℓ} ⦃key : Key K⦄ (j k : K) → (j == k ≡ true) ↔ (j ≡ k)
eq_iff ⦃key⦄ = key.decides

pub eq_refl {ℓ} : {K : Type ℓ} ⦃key : Key K⦄ (k : K) → (k == k) ≡ true
eq_refl ⦃key⦄ k = (key.decides k k).1 refl
