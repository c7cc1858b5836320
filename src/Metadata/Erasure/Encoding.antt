-- ===== src/Metadata/Erasure/Encoding.antt =====
-- The fragments of a chunk: each is, byte by byte, what the codec makes of the messages that the
-- data fragments spell out.
use vstack.Prelude.{
  ℕ, zero, suc, ◌+◌, ◌-◌, ◌*◌, ◌/◌, ◌≤◌, ◌<◌, ◌≡◌, sym, ap, ◌∙◌, some, List, [], ◌∷◌, ◌++◌, map,
  length, get_elem?, replicate, All, All-append, All-mapped, upto, length-upto, get_elem?-upto,
  map-upto_cong, map-upto_append, map-upto_shift, collect-eq-map, collect-map, All-upto, collect,
  arith, eq_iff, number_key, length-append, length-replicate,
}
use vstack.Metadata.Erasure.{
  ErasureCoder, total_shards, fragment_size, padded, data_fragment, data_fragments, parity_byte,
  parity_fragment, all_fragments, encode_chunk,
}
use vstack.Metadata.Erasure.Codec.{IsByte, IsMessage, IsRsCodec}
use vstack.Metadata.Erasure.Bytes.{at, get_elem?-at, at-eq, All-at, slice-eq}

round_up_ge : (n k : ℕ) → 1 ≤ k → n ≤ (n + k - 1) / k * k
round_up_ge n k h = omega arith

pub length-padded :
    (coder : ErasureCoder) (chunk : List ℕ)
    → 1 ≤ coder.data_shards
    → coder.data_shards * fragment_size coder chunk ≡ length (padded coder chunk)
unfolding padded fragment_size
length-padded coder chunk h = ground (
  arith,
  round_up_ge (length chunk) coder.data_shards h,
  length-append chunk (replicate (fragment_size coder chunk * coder.data_shards - length chunk) 0),
  length-replicate {A = ℕ} (fragment_size coder chunk * coder.data_shards - length chunk) 0,
)

All-replicate : (n b : ℕ) → IsByte b → All IsByte (replicate n b)
All-replicate zero b h = tt
All-replicate (suc n) b h = (h, All-replicate n b h)

padded-IsByte :
    (coder : ErasureCoder) (chunk : List ℕ) → All IsByte chunk → All IsByte (padded coder chunk)
unfolding padded
padded-IsByte coder chunk h =
    All-append IsByte chunk _ h
      (All-replicate (fragment_size coder chunk * coder.data_shards - length chunk) 0 (omega arith))

slot_in_range : (i k size : ℕ) → i < k → i * size + size ≤ k * size
slot_in_range i k size h = grind arith

encode_nonempty :
    (coder : ErasureCoder) (chunk : List ℕ)
    → 0 < length chunk
    → 1 ≤ coder.data_shards
    → encode_chunk coder chunk
      ≡ all_fragments coder (fragment_size coder chunk) (data_fragments coder chunk)
unfolding encode_chunk
encode_nonempty coder [] h k = absurd (omega arith)
encode_nonempty coder (b ∷ bytes) h k = ground (arith, eq_iff coder.data_shards 0)

module _ (coder : ErasureCoder) (chunk : List ℕ) where
  -- The bytes of the data fragments at one position.
  abbrev pub message : ℕ → List ℕ
  message pos =
      map (λ i. at (padded coder chunk) (i * fragment_size coder chunk + pos))
        (upto 0 coder.data_shards)

  -- The byte of fragment `i` at a position.
  abbrev pub symbol : ℕ → ℕ → ℕ
  symbol i pos = at (coder.codec.encode (message pos)) i

  abbrev pub fragment : ℕ → List ℕ
  fragment i = map (symbol i) (upto 0 (fragment_size coder chunk))

  module _ (rs : IsRsCodec coder) (enough : 1 ≤ coder.data_shards) (bytes : All IsByte chunk) where
    pub message-IsMessage : (pos : ℕ) → IsMessage coder (message pos)
    message-IsMessage pos = record {
      one_each = length-upto _ 0 coder.data_shards;
      bytes = All-mapped IsByte _ (upto 0 coder.data_shards) λ i.
          All-at IsByte (padded coder chunk) (omega arith) (padded-IsByte coder chunk bytes)
            (i * fragment_size coder chunk + pos);
    }

    symbol-data :
        (i pos : ℕ)
        → i < coder.data_shards
        → at (padded coder chunk) (i * fragment_size coder chunk + pos) ≡ symbol i pos
    symbol-data i pos h = sym (
        at-eq (coder.codec.encode (message pos)) i _ (
          rs.systematic (message pos) i (message-IsMessage pos) h
          ∙ get_elem?-upto (λ i. at (padded coder chunk) (i * fragment_size coder chunk + pos)) 0
              coder.data_shards i h
          ∙ ap (λ i. some (at (padded coder chunk) (i * fragment_size coder chunk + pos)))
              (omega arith)))

    -- The data fragments are the first fragments.
    pub data_fragment-eq :
        (i : ℕ)
        → i < coder.data_shards
        → data_fragment (fragment_size coder chunk) (padded coder chunk) i ≡ fragment i
    unfolding data_fragment
    data_fragment-eq i h =
        slice-eq (padded coder chunk) (i * fragment_size coder chunk) (fragment_size coder chunk) (
          rw (← length-padded coder chunk enough)
            (slot_in_range i coder.data_shards (fragment_size coder chunk) h))
        ∙ map-upto_cong _ (symbol i) 0 (fragment_size coder chunk) (λ pos a b. symbol-data i pos h)

    pub get_elem?-fragment :
        (i pos : ℕ)
        → pos < fragment_size coder chunk
        → get_elem? (fragment i) pos ≡ some (symbol i pos)
    get_elem?-fragment i pos h =
        let e : 0 + pos ≡ pos = omega arith in
        get_elem?-upto (symbol i) 0 (fragment_size coder chunk) pos h
        ∙ ap (λ j. some (symbol i j)) e

    pub get_elem?-encoded :
        (i pos : ℕ)
        → i < total_shards coder
        → get_elem? (coder.codec.encode (message pos)) i ≡ some (symbol i pos)
    get_elem?-encoded i pos h =
        get_elem?-at (coder.codec.encode (message pos)) i
          (rw (rs.encoded (message pos) (message-IsMessage pos)) h)

    pub get_elem?-message :
        (i pos : ℕ) → i < coder.data_shards → get_elem? (message pos) i ≡ some (symbol i pos)
    get_elem?-message i pos h =
        sym (rs.systematic (message pos) i (message-IsMessage pos) h)
        ∙ get_elem?-encoded i pos (omega arith)

    abbrev data_part : List (List ℕ)
    data_part = map fragment (upto 0 coder.data_shards)

    column :
        (pos : ℕ)
        → pos < fragment_size coder chunk
        → collect (λ f. get_elem? f pos) data_part ≡ some (message pos)
    column pos h =
        collect-map (λ f. get_elem? f pos) fragment (upto 0 coder.data_shards)
        ∙ collect-eq-map (λ i. get_elem? (fragment i) pos) (λ i. symbol i pos)
            (upto 0 coder.data_shards)
            (All-upto (λ i. get_elem? (fragment i) pos ≡ some (symbol i pos)) 0 coder.data_shards
              (λ i a b. get_elem?-fragment i pos h))
        ∙ ap some (
            map-upto_cong (λ i. symbol i pos)
              (λ i. at (padded coder chunk) (i * fragment_size coder chunk + pos)) 0
              coder.data_shards (λ i a b. sym (symbol-data i pos (omega arith))))

    parity_byte-eq :
        (j pos : ℕ)
        → j < coder.parity_shards
        → pos < fragment_size coder chunk
        → parity_byte coder data_part j pos ≡ some (symbol (coder.data_shards + j) pos)
    unfolding parity_byte
    parity_byte-eq j pos hj h =
        rw (column pos h) (get_elem?-encoded (coder.data_shards + j) pos (omega arith))

    parity_fragment-eq :
        (j : ℕ)
        → j < coder.parity_shards
        → parity_fragment coder (fragment_size coder chunk) data_part j
          ≡ some (fragment (coder.data_shards + j))
    unfolding parity_fragment
    parity_fragment-eq j hj =
        collect-eq-map (parity_byte coder data_part j) (symbol (coder.data_shards + j))
          (upto 0 (fragment_size coder chunk))
          (All-upto
            (λ pos. parity_byte coder data_part j pos ≡ some (symbol (coder.data_shards + j) pos)) 0
            (fragment_size coder chunk) (λ pos a b. parity_byte-eq j pos hj (omega arith)))

    data_fragments-eq : data_fragments coder chunk ≡ data_part
    unfolding data_fragments
    data_fragments-eq =
        map-upto_cong _ fragment 0 coder.data_shards (λ i a b. data_fragment-eq i (omega arith))

    all_fragments-eq :
        all_fragments coder (fragment_size coder chunk) data_part
        ≡ some (map fragment (upto 0 (total_shards coder)))
    unfolding all_fragments
    all_fragments-eq =
        let parity : collect (parity_fragment coder (fragment_size coder chunk) data_part)
              (upto 0 coder.parity_shards)
            ≡ some (map (λ j. fragment (coder.data_shards + j)) (upto 0 coder.parity_shards)) =
          collect-eq-map (parity_fragment coder (fragment_size coder chunk) data_part)
            (λ j. fragment (coder.data_shards + j)) (upto 0 coder.parity_shards)
            (All-upto
              (λ j.
                parity_fragment coder (fragment_size coder chunk) data_part j
                ≡ some (fragment (coder.data_shards + j)))
              0 coder.parity_shards (λ j a b. parity_fragment-eq j (omega arith))) in
        rw parity (
          ap some (
            sym (
              map-upto_append fragment 0 coder.data_shards coder.parity_shards
              ∙ ap (λ l. data_part ++ l)
                  (map-upto_shift fragment 0 coder.data_shards coder.parity_shards))))

    -- Every chunk that is not empty is encoded, and its fragments are these.
    pub encode_chunk-eq :
        0 < length chunk
        → encode_chunk coder chunk ≡ some (map fragment (upto 0 (total_shards coder)))
    encode_chunk-eq h =
        encode_nonempty coder chunk h enough
        ∙ ap (all_fragments coder (fragment_size coder chunk)) data_fragments-eq
        ∙ all_fragments-eq
