-- ===== src/Metadata/Erasure/Codec.antt =====
-- What the package reedsolo documents of `RSCodec(nsym)`, for messages of one byte from each data
-- fragment: the message stands in front of the parity bytes, and it is recovered from any word
-- that has the encoding's bytes at all but `nsym` positions, which are given as erased.
use vstack.Prelude.{ℕ, ◌≤◌, ◌<◌, ◌≡◌, Bool, false, some, List, length, get_elem?, keep, All, upto}
use vstack.Metadata.Erasure.{ErasureCoder, total_shards}

abbrev pub IsByte : ℕ → Type 0
IsByte b = b < 256

pub record IsMessage (coder : ErasureCoder) (m : List ℕ) : Type 0 where
  pub one_each : length m ≡ coder.data_shards
  pub bytes : All IsByte m

pub record IsRsCodec (coder : ErasureCoder) : Type 0 where
  pub encoded :
      (m : List ℕ) → IsMessage coder m → length (coder.codec.encode m) ≡ total_shards coder
  pub systematic :
      (m : List ℕ) (i : ℕ)
      → IsMessage coder m
      → i < coder.data_shards
      → get_elem? (coder.codec.encode m) i ≡ get_elem? m i
  pub recovers :
      (m received : List ℕ) (erased : ℕ → Bool)
      → IsMessage coder m
      → length received ≡ total_shards coder
      → length (keep erased (upto 0 (total_shards coder))) ≤ coder.parity_shards
      → ((i : ℕ)
          → i < total_shards coder
          → erased i ≡ false
          → get_elem? received i ≡ get_elem? (coder.codec.encode m) i)
      → coder.codec.decode received (keep erased (upto 0 (total_shards coder))) ≡ some m
