-- ===== src/Metadata/Erasure/RoundTrip.antt =====
-- From fragments at hand back to the chunk.
use vstack.Prelude.{
  ℕ, zero, suc, ◌+◌, ◌≤◌, ◌<◌, ◌≡◌, refl, sym, ap, ◌∙◌, Bool, false, not, some, List, [], ◌∷◌, ◌++◌,
  map, length, get_elem?, take, keep, All, All-map, upto, length-upto, get_elem?-upto, arith, ltb,
  ◌==◌, number_key,
}
use vstack.Prelude.Dict.{lookup, contains}
use vstack.Prelude.Table.{order_by}
use vstack.Prelude.Table.Distinct.{Distinct}
use vstack.Prelude.Table.Ordered.{Ascending, All-order_by, length-order_by, order_by-Ascending}
use vstack.Metadata.Erasure.{
  ErasureCoder, total_shards, fragment_size, padded, encode_chunk, map_fragments, erasures,
  decode_available, decode_fragments, decode_mapped, reconstruct_sorted, reconstruct_chunk,
}
use vstack.Metadata.Erasure.Codec.{IsByte, IsRsCodec}
use vstack.Metadata.Erasure.Encoding.{fragment, symbol, encode_chunk-eq}
use vstack.Metadata.Erasure.Decoding.{IsEnough, decode_mapped-eq}
use vstack.Metadata.Erasure.Slots.{Fragment, index, content, available-eq}
use vstack.Metadata.Erasure.Missing.{map_fragments-genuine, erasures-map_fragments}

found_in_range : (l : List (List ℕ)) (i : ℕ) (f : List ℕ) → get_elem? l i ≡ some f → i < length l
found_in_range [] i f e = absurd cc
found_in_range (g ∷ l) zero f e = omega arith
found_in_range (g ∷ l) (suc i) f e = omega (arith, found_in_range l i f e)

length-map : (fragments : List Fragment) → length (map content fragments) ≡ length fragments
length-map [] = refl
length-map (f ∷ fragments) = ap suc (length-map fragments)

nothing_found : (i : ℕ) (f : List ℕ) → lookup i [] ≡ some f → ⊥
unfolding lookup
nothing_found i f e = cc

nothing_contained :
    (fragments : List Fragment) → All (λ f. contains {V = List ℕ} (index f) [] ≡ false) fragments
unfolding contains lookup
nothing_contained [] = tt
nothing_contained (f ∷ fragments) = (refl, nothing_contained fragments)

all_missing :
    (start n : ℕ) → length (keep (λ i. not (contains {V = List ℕ} i [])) (upto start n)) ≡ n
unfolding contains lookup
all_missing start zero = refl
all_missing start (suc n) = ap suc (all_missing (suc start) n)

length-erasures : (coder : ErasureCoder) → length (erasures coder []) ≡ total_shards coder
unfolding erasures
length-erasures coder = all_missing 0 (total_shards coder)

same_list : (l l' : List (List ℕ)) → some l ≡ some l' → l ≡ l'
same_list l l' e = cc

some_inj : (f g : List ℕ) → some f ≡ some g → f ≡ g
some_inj f g e = cc

take-append : (xs ys : List ℕ) → take (length xs) (xs ++ ys) ≡ xs
take-append [] ys = refl
take-append (x ∷ xs) ys = ap (◌∷◌ x) (take-append xs ys)

-- Whether two fragments are given under the same index.
abbrev pub same_index : Fragment → Fragment → Bool
same_index f g = index g == index f

module _ (coder : ErasureCoder) (chunk : List ℕ) (rs : IsRsCodec coder) (k : 1 ≤ coder.data_shards)
    (bytes : All IsByte chunk) where
  abbrev Genuine : Fragment → Type 0
  Genuine f = (index f < total_shards coder) × (content f ≡ fragment coder chunk (index f))

  map-IsEnough :
      (fragments : List Fragment)
      → Ascending index fragments
      → All Genuine fragments
      → coder.data_shards ≤ length fragments
      → IsEnough coder chunk (map_fragments [] (map index fragments) (map content fragments))
  map-IsEnough fragments a g n = record {
    genuine =
        map_fragments-genuine (λ i f. f ≡ fragment coder chunk i) [] fragments
          (λ i f e. absurd (nothing_found i f e))
          (All-map Genuine (λ f. content f ≡ fragment coder chunk (index f)) fragments (λ f h. h.1)
            g);
    few_missing = omega (
      arith,
      n,
      erasures-map_fragments coder [] fragments a
          (All-map Genuine (λ f. index f < total_shards coder) fragments (λ f h. h.0) g)
          (nothing_contained fragments),
      length-erasures coder,
    );
  }

  decode_available-eq :
      (fragments : List Fragment)
      → Ascending index fragments
      → All Genuine fragments
      → coder.data_shards ≤ length fragments
      → decode_available coder (map content fragments) (map index fragments)
        ≡ some (padded coder chunk)
  unfolding decode_available
  decode_available-eq [] a g n = absurd (omega (arith, k))
  decode_available-eq ((i, f) ∷ fragments) a g n =
      let m =
        map_fragments [] (map index ((i, f) ∷ fragments)) (map content ((i, f) ∷ fragments)) in
      ap (λ (size : ℕ). decode_mapped coder size m)
        (ap length g.0.1 ∙ length-upto (symbol coder chunk i) 0 (fragment_size coder chunk))
      ∙ decode_mapped-eq coder chunk rs k bytes m (map-IsEnough ((i, f) ∷ fragments) a g n)

  reconstruct_sorted-eq :
      (fragments : List Fragment)
      → Ascending index fragments
      → All Genuine fragments
      → coder.data_shards ≤ length fragments
      → reconstruct_sorted coder fragments ≡ some (padded coder chunk)
  unfolding reconstruct_sorted decode_fragments
  reconstruct_sorted-eq [] a g n = absurd (omega (arith, k))
  reconstruct_sorted-eq ((i, f) ∷ fragments) a g n =
      rw (available-eq ((i, f) ∷ fragments) a, length-map ((i, f) ∷ fragments), few)
        (decode_available-eq ((i, f) ∷ fragments) a g n)
    where
      few : ltb (length ((i, f) ∷ fragments)) coder.data_shards ≡ false
      few = ground arith

  genuine :
      (frags : List (List ℕ)) (f : Fragment)
      → some frags ≡ some (map (fragment coder chunk) (upto 0 (total_shards coder)))
      → get_elem? frags (index f) ≡ some (content f)
      → Genuine f
  genuine frags f e h =
      let here = found_in_range frags (index f) (content f) h in
      let size : length frags ≡ total_shards coder =
        ap length (same_list frags _ e)
        ∙ length-upto (fragment coder chunk) 0 (total_shards coder) in
      let inside : index f < total_shards coder = rw (← size) here in
      let shifted : 0 + index f ≡ index f = omega arith in
      (
        inside,
        some_inj (content f) (fragment coder chunk (index f)) (
            sym h
            ∙ ap (λ (l : List (List ℕ)). get_elem? l (index f)) (same_list frags _ e)
            ∙ get_elem?-upto (fragment coder chunk) 0 (total_shards coder) (index f) inside
            ∙ ap (λ j. some (fragment coder chunk j)) shifted),
      )

-- A chunk of bytes that is not empty comes back, with the zeros that pad it behind, from any
-- fragments of its encoding, in any order, as many as there are data fragments or more, no two of
-- the same index, with a codec that recovers as many erased bytes as there are parity fragments.
pub reconstruct_chunk-encode_chunk :
    (coder : ErasureCoder) (chunk : List ℕ) (frags : List (List ℕ)) (fragments : List Fragment)
    → IsRsCodec coder
    → 1 ≤ coder.data_shards
    → All IsByte chunk
    → 0 < length chunk
    → encode_chunk coder chunk ≡ some frags
    → All (λ f. get_elem? frags (index f) ≡ some (content f)) fragments
    → Distinct same_index fragments
    → coder.data_shards ≤ length fragments
    → (reconstruct_chunk coder fragments ≡ some (padded coder chunk))
      × (take (length chunk) (padded coder chunk) ≡ chunk)
unfolding reconstruct_chunk padded
reconstruct_chunk-encode_chunk coder chunk frags fragments rs k bytes h e g d n =
    let sorted = order_by index fragments in
    let enough : coder.data_shards ≤ length sorted = rw (length-order_by index fragments) n in
    let few : ltb (length fragments) coder.data_shards ≡ false = ground arith in
    let encoded = sym e ∙ encode_chunk-eq coder chunk rs k bytes h in
    let all_genuine =
      All-map _ (Genuine coder chunk rs k bytes) fragments
        (λ f q. genuine coder chunk rs k bytes frags f encoded q) g in
    (
      rw few (
          reconstruct_sorted-eq coder chunk rs k bytes sorted (order_by-Ascending index fragments d)
            (All-order_by index (Genuine coder chunk rs k bytes) fragments all_genuine) enough),
      take-append chunk _,
    )
