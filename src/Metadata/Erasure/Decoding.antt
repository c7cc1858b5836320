-- ===== src/Metadata/Erasure/Decoding.antt =====
-- Decoding from a map of fragments: each missing data fragment is put together byte by byte, from
-- words that have the encoding's bytes wherever a fragment is there.
use vstack.Prelude.{
  ℕ, zero, suc, ◌+◌, ◌≤◌, ◌<◌, ◌≡◌, refl, sym, ap, ◌∙◌, true, false, not, Option, none, some, List,
  map, length, All, upto, collect, arith, collect-eq-map, All-upto, get_elem?-upto, length-upto,
  map-upto_cong, if◌then◌else◌, number_key, Bool-cases, inl, inr,
}
use vstack.Prelude.Dict.{Dict, lookup, contains, contains-none, contains-some}
use vstack.Metadata.Erasure.{
  ErasureCoder, total_shards, fragment_size, padded, data_fragment, has_all, byte_or_zero,
  available_bytes, erasures, decoded_byte, present_or_decoded, reconstructed_fragment, join,
  decode_mapped,
}
use vstack.Metadata.Erasure.Codec.{IsByte, IsRsCodec}
use vstack.Metadata.Erasure.Bytes.{join-data_fragments}
use vstack.Metadata.Erasure.Encoding.{
  message, symbol, fragment, message-IsMessage, data_fragment-eq, get_elem?-fragment,
  get_elem?-encoded, get_elem?-message, length-padded,
}

-- The map holds fragments of the chunk only, and lacks no more than the codec makes up for.
pub record IsEnough (coder : ErasureCoder) (chunk : List ℕ) (m : Dict ℕ (List ℕ)) : Type 0 where
  pub genuine : (i : ℕ) (f : List ℕ) → lookup i m ≡ some f → f ≡ fragment coder chunk i
  pub few_missing : length (erasures coder m) ≤ coder.parity_shards

module _ (coder : ErasureCoder) (chunk : List ℕ) (rs : IsRsCodec coder) (k : 1 ≤ coder.data_shards)
    (bytes : All IsByte chunk) (m : Dict ℕ (List ℕ)) (enough : IsEnough coder chunk m) where
  -- The byte that the decoder sees of a fragment.
  abbrev seen : ℕ → ℕ → ℕ
  seen pos i = if contains i m then symbol coder chunk i pos else 0

  byte_or_zero-eq :
      (pos i : ℕ) (o : Option (List ℕ))
      → pos < fragment_size coder chunk
      → lookup i m ≡ o
      → byte_or_zero (lookup i m) pos ≡ some (seen pos i)
  unfolding byte_or_zero
  byte_or_zero-eq pos i none h e = rw (e, contains-none i m e) refl
  byte_or_zero-eq pos i (some f) h e =
      rw (e, contains-some i f m e, enough.genuine i f e)
        (get_elem?-fragment coder chunk rs k bytes i pos h)

  available_bytes-eq :
      (pos : ℕ)
      → pos < fragment_size coder chunk
      → available_bytes coder m pos ≡ some (map (seen pos) (upto 0 (total_shards coder)))
  unfolding available_bytes
  available_bytes-eq pos h =
      collect-eq-map (λ i. byte_or_zero (lookup i m) pos) (seen pos) (upto 0 (total_shards coder))
        (All-upto (λ i. byte_or_zero (lookup i m) pos ≡ some (seen pos i)) 0 (total_shards coder)
          (λ i a b. byte_or_zero-eq pos i (lookup i m) h refl))

  seen-symbol : (pos i : ℕ) → not (contains i m) ≡ false → seen pos i ≡ symbol coder chunk i pos
  seen-symbol pos i h = ground arith

  decoded-eq :
      (pos : ℕ)
      → pos < fragment_size coder chunk
      → coder.codec.decode (map (seen pos) (upto 0 (total_shards coder))) (erasures coder m)
        ≡ some (message coder chunk pos)
  unfolding erasures
  decoded-eq pos h =
      rs.recovers (message coder chunk pos) (map (seen pos) (upto 0 (total_shards coder)))
        (λ i. not (contains i m)) (message-IsMessage coder chunk rs k bytes pos)
        (length-upto (seen pos) 0 (total_shards coder)) enough.few_missing
        (λ i a b.
          get_elem?-upto (seen pos) 0 (total_shards coder) i a
          ∙ ap some (shifted i b)
          ∙ sym (get_elem?-encoded coder chunk rs k bytes i pos a))
    where
      shifted : (i : ℕ) → not (contains i m) ≡ false → seen pos (0 + i) ≡ symbol coder chunk i pos
      shifted i b = let e : 0 + i ≡ i = omega arith in ap (seen pos) e ∙ seen-symbol pos i b

  decoded_byte-eq :
      (i pos : ℕ)
      → i < coder.data_shards
      → pos < fragment_size coder chunk
      → decoded_byte coder m i pos ≡ some (symbol coder chunk i pos)
  unfolding decoded_byte
  decoded_byte-eq i pos hi h =
      rw (available_bytes-eq pos h, decoded-eq pos h)
        (get_elem?-message coder chunk rs k bytes i pos hi)

  reconstructed_fragment-eq :
      (i : ℕ) (o : Option (List ℕ))
      → i < coder.data_shards
      → lookup i m ≡ o
      → reconstructed_fragment coder m (fragment_size coder chunk) i ≡ some (fragment coder chunk i)
  unfolding reconstructed_fragment present_or_decoded
  reconstructed_fragment-eq i none h e = rw e (
      collect-eq-map (decoded_byte coder m i) (symbol coder chunk i)
        (upto 0 (fragment_size coder chunk))
        (All-upto (λ pos. decoded_byte coder m i pos ≡ some (symbol coder chunk i pos)) 0
          (fragment_size coder chunk) (λ pos a b. decoded_byte-eq i pos h (omega arith))))
  reconstructed_fragment-eq i (some f) h e = rw e (ap some (enough.genuine i f e))

  contained :
      (i : ℕ) (o : Option (List ℕ))
      → lookup i m ≡ o
      → contains i m ≡ true
      → lookup i m ≡ some (fragment coder chunk i)
  contained i none e h = absurd (ground (arith, contains-none i m e))
  contained i (some f) e h = e ∙ ap some (enough.genuine i f e)

  has_all-lookup :
      (start n : ℕ)
      → has_all m (upto start n) ≡ true
      → collect (λ i. lookup i m) (upto start n) ≡ some (map (fragment coder chunk) (upto start n))
  unfolding has_all
  has_all-lookup start zero h = refl
  has_all-lookup start (suc n) h = elim (Bool-cases (contains start m)) [
    | inl e ↦
        rw (contained start (lookup start m) refl e, has_all-lookup (suc start) n (ground arith))
          refl
    | inr e ↦ absurd (ground arith)
  ]

  reconstructed-all :
      collect
        (reconstructed_fragment coder m (fragment_size coder chunk))
        (upto 0 coder.data_shards)
      ≡ some (map (fragment coder chunk) (upto 0 coder.data_shards))
  reconstructed-all =
      collect-eq-map (reconstructed_fragment coder m (fragment_size coder chunk))
        (fragment coder chunk) (upto 0 coder.data_shards)
        (All-upto
          (λ i.
            reconstructed_fragment coder m (fragment_size coder chunk) i
            ≡ some (fragment coder chunk i))
          0 coder.data_shards
          (λ i a b. reconstructed_fragment-eq i (lookup i m) (omega arith) refl))

  joined : join (map (fragment coder chunk) (upto 0 coder.data_shards)) ≡ padded coder chunk
  joined =
      ap join (
        map-upto_cong (fragment coder chunk)
          (data_fragment (fragment_size coder chunk) (padded coder chunk)) 0 coder.data_shards
          (λ i a b. sym (data_fragment-eq coder chunk rs k bytes i (omega arith))))
      ∙ join-data_fragments (fragment_size coder chunk) (padded coder chunk) coder.data_shards
          (length-padded coder chunk k)

  pub decode_mapped-eq :
      decode_mapped coder (fragment_size coder chunk) m ≡ some (padded coder chunk)
  unfolding decode_mapped
  decode_mapped-eq = elim (Bool-cases (has_all m (upto 0 coder.data_shards))) [
    | inl e ↦ rw (e, has_all-lookup 0 coder.data_shards e) (ap some joined)
    | inr e ↦ rw (e, reconstructed-all) (ap some joined)
  ]
