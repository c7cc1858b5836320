-- ===== src/Metadata/Erasure/Tests.antt =====
-- Three bytes in two data fragments and a parity fragment, with a codec for one erasure: the parity
-- byte is the sum of the others.
use vstack.Prelude.{
  ℕ, zero, suc, ◌+◌, ◌-◌, ◌%◌, ◌≤◌, ◌<◌, ◌≡◌, refl, ap, Bool, true, false, Option, none, some, List,
  [], ◌∷◌, length, take, get_elem?, keep, upto, arith, if◌then◌else◌,
}
use vstack.Metadata.Erasure.{ErasureCoder, padded, encode_chunk, reconstruct_chunk}
use vstack.Metadata.Erasure.Codec.{IsMessage, IsRsCodec}
use vstack.Metadata.Erasure.Slots.{Fragment}
use vstack.Metadata.Erasure.RoundTrip.{reconstruct_chunk-encode_chunk}

abbrev with_sum : List ℕ → List ℕ
with_sum (a ∷ b ∷ []) = a ∷ b ∷ (a + b) % 256 ∷ []
with_sum m = m

abbrev from_sum : List ℕ → List ℕ → Option (List ℕ)
from_sum (x ∷ y ∷ s ∷ []) [] = some (x ∷ y ∷ [])
from_sum (x ∷ y ∷ s ∷ []) (zero ∷ erased) = some ((s + 256 - y) % 256 ∷ y ∷ [])
from_sum (x ∷ y ∷ s ∷ []) (suc zero ∷ erased) = some (x ∷ (s + 256 - x) % 256 ∷ [])
from_sum (x ∷ y ∷ s ∷ []) (suc (suc e) ∷ erased) = some (x ∷ y ∷ [])
from_sum received erased = none

abbrev coder : ErasureCoder
coder = record {
  data_shards = 2;
  parity_shards = 1;
  codec = record { encode = with_sum; decode = from_sum };
}

abbrev picked : Bool → Bool → Bool → List ℕ
picked e₀ e₁ e₂ =
    let last = if e₂ then 2 ∷ [] else [] in
    let middle = if e₁ then 1 ∷ last else last in if e₀ then 0 ∷ middle else middle

from_sum-with_sum :
    (a b x y s : ℕ) (e₀ e₁ e₂ : Bool)
    → a < 256
    → b < 256
    → length (picked e₀ e₁ e₂) ≤ 1
    → (e₀ ≡ false → x ≡ a)
    → (e₁ ≡ false → y ≡ b)
    → (e₂ ≡ false → s ≡ (a + b) % 256)
    → from_sum (x ∷ y ∷ s ∷ []) (picked e₀ e₁ e₂) ≡ some (a ∷ b ∷ [])
from_sum-with_sum a b x y s false false false ha hb n h₀ h₁ h₂ = rw (h₀ refl, h₁ refl) refl
from_sum-with_sum a b x y s false false true ha hb n h₀ h₁ h₂ = rw (h₀ refl, h₁ refl) refl
from_sum-with_sum a b x y s true false false ha hb n h₀ h₁ h₂ =
    rw (h₁ refl, h₂ refl) (ap (λ c. some (c ∷ b ∷ [])) (omega arith))
from_sum-with_sum a b x y s false true false ha hb n h₀ h₁ h₂ =
    rw (h₀ refl, h₂ refl) (ap (λ c. some (a ∷ c ∷ [])) (omega arith))
from_sum-with_sum a b x y s false true true ha hb n h₀ h₁ h₂ = absurd (omega arith)
from_sum-with_sum a b x y s true false true ha hb n h₀ h₁ h₂ = absurd (omega arith)
from_sum-with_sum a b x y s true true false ha hb n h₀ h₁ h₂ = absurd (omega arith)
from_sum-with_sum a b x y s true true true ha hb n h₀ h₁ h₂ = absurd (omega arith)

some_eq : (a b : ℕ) → some a ≡ some b → a ≡ b
some_eq a b e = cc

recovers_sum :
    (m received : List ℕ) (erased : ℕ → Bool)
    → IsMessage coder m
    → length received ≡ 3
    → length (keep erased (upto 0 3)) ≤ 1
    → ((i : ℕ) → i < 3 → erased i ≡ false → get_elem? received i ≡ get_elem? (with_sum m) i)
    → from_sum received (keep erased (upto 0 3)) ≡ some m
recovers_sum [] received erased h l n g = absurd (omega (arith, h.one_each))
recovers_sum (a ∷ []) received erased h l n g = absurd (omega (arith, h.one_each))
recovers_sum (a ∷ b ∷ c ∷ m) received erased h l n g = absurd (omega (arith, h.one_each))
recovers_sum (a ∷ b ∷ []) [] erased h l n g = absurd (omega arith)
recovers_sum (a ∷ b ∷ []) (x ∷ []) erased h l n g = absurd (omega arith)
recovers_sum (a ∷ b ∷ []) (x ∷ y ∷ []) erased h l n g = absurd (omega arith)
recovers_sum (a ∷ b ∷ []) (x ∷ y ∷ s ∷ z ∷ received) erased h l n g = absurd (omega arith)
recovers_sum (a ∷ b ∷ []) (x ∷ y ∷ s ∷ []) erased h l n g =
    from_sum-with_sum a b x y s (erased 0) (erased 1) (erased 2) h.bytes.0 h.bytes.1.0 n
      (λ e. some_eq x a (g 0 (omega arith) e)) (λ e. some_eq y b (g 1 (omega arith) e))
      (λ e. some_eq s _ (g 2 (omega arith) e))

sum_encoded : (m : List ℕ) → IsMessage coder m → length (with_sum m) ≡ 3
sum_encoded [] h = absurd (omega (arith, h.one_each))
sum_encoded (a ∷ []) h = absurd (omega (arith, h.one_each))
sum_encoded (a ∷ b ∷ []) h = refl
sum_encoded (a ∷ b ∷ c ∷ m) h = absurd (omega (arith, h.one_each))

sum_systematic :
    (m : List ℕ) (i : ℕ) → IsMessage coder m → i < 2 → get_elem? (with_sum m) i ≡ get_elem? m i
sum_systematic [] i h k = refl
sum_systematic (a ∷ []) i h k = refl
sum_systematic (a ∷ b ∷ []) zero h k = refl
sum_systematic (a ∷ b ∷ []) (suc zero) h k = refl
sum_systematic (a ∷ b ∷ []) (suc (suc i)) h k = absurd (omega arith)
sum_systematic (a ∷ b ∷ c ∷ m) i h k = refl

coder-IsRsCodec : IsRsCodec coder
coder-IsRsCodec = record {
  encoded = sum_encoded;
  systematic = sum_systematic;
  recovers = recovers_sum;
}

abbrev three_bytes : List ℕ
three_bytes = 5 ∷ 255 ∷ 9 ∷ []

-- The first fragment is lost, and the others come in the wrong order.
abbrev at_hand : List Fragment
at_hand = (2, 14 ∷ 255 ∷ []) ∷ (1, 9 ∷ 0 ∷ []) ∷ []

encoded_three :
    encode_chunk coder three_bytes ≡ some ((5 ∷ 255 ∷ []) ∷ (9 ∷ 0 ∷ []) ∷ (14 ∷ 255 ∷ []) ∷ [])
unfolding encode_chunk
encoded_three = refl

reconstruct_chunk-encode_chunk_example :
    (reconstruct_chunk coder at_hand ≡ some (padded coder three_bytes))
    × (take 3 (padded coder three_bytes) ≡ three_bytes)
reconstruct_chunk-encode_chunk_example =
    reconstruct_chunk-encode_chunk coder three_bytes
      ((5 ∷ 255 ∷ []) ∷ (9 ∷ 0 ∷ []) ∷ (14 ∷ 255 ∷ []) ∷ []) at_hand coder-IsRsCodec (omega arith)
      (omega arith, (omega arith, (omega arith, tt))) (omega arith) encoded_three (refl, (refl, tt))
      ((refl, tt), (tt, tt)) (omega arith)

-- The zero that pads the chunk comes back with it.
padding_stays : reconstruct_chunk coder at_hand ≡ some (5 ∷ 255 ∷ 9 ∷ 0 ∷ [])
unfolding reconstruct_chunk
padding_stays = refl
