-- ===== src/Metadata/Erasure.antt =====
-- metadata-service/erasure_coding.py: a chunk as data and parity fragments. The Reed-Solomon codec
-- of the package reedsolo is a parameter. `none` stands for the exception that a method raises.
pub mod Codec
pub mod Bytes
pub mod Encoding
pub mod Decoding
pub mod Slots
pub mod Missing
pub mod RoundTrip
mod Tests
use vstack.Prelude.{
  ℕ, zero, suc, ◌+◌, ◌-◌, ◌*◌, ◌/◌, Bool, true, false, not, Option, none, some, List, [], ◌∷◌, ◌++◌,
  map, length, get_elem?, take, drop, replicate, keep, if◌then◌else◌, ◌==◌, number_key, ltb, max,
  upto, collect, ◌>>=◌,
}
use vstack.Prelude.Dict.{Dict, lookup, insert, contains}
use vstack.Prelude.Table.{order_by}

-- `codec.encode(message)`, and `codec.decode(received, erase_pos=erasures)[0]`
pub record RsCodec : Type 0 where
  pub encode : List ℕ → List ℕ
  pub decode : List ℕ → List ℕ → Option (List ℕ)

pub record ErasureCoder : Type 0 where
  pub data_shards : ℕ
  pub parity_shards : ℕ
  pub codec : RsCodec

abbrev pub total_shards : ErasureCoder → ℕ
total_shards coder = coder.data_shards + coder.parity_shards

unfoldable pub fragment_size : ErasureCoder → List ℕ → ℕ
fragment_size coder chunk_data = (length chunk_data + coder.data_shards - 1) / coder.data_shards

unfoldable pub padded : ErasureCoder → List ℕ → List ℕ
unfolding fragment_size
padded coder chunk_data =
    chunk_data
    ++ replicate (fragment_size coder chunk_data * coder.data_shards - length chunk_data) 0

-- `chunk_data[start:end]`
unfoldable pub data_fragment : ℕ → List ℕ → ℕ → List ℕ
data_fragment size chunk_data i = take size (drop (i * size) chunk_data)

unfoldable pub data_fragments : ErasureCoder → List ℕ → List (List ℕ)
unfolding data_fragment padded fragment_size
data_fragments coder chunk_data =
    map (data_fragment (fragment_size coder chunk_data) (padded coder chunk_data))
      (upto 0 coder.data_shards)

unfoldable pub parity_byte : ErasureCoder → List (List ℕ) → ℕ → ℕ → Option ℕ
parity_byte coder fragments parity_idx byte_pos = do
  data_bytes ← collect (λ fragment. get_elem? fragment byte_pos) fragments
  get_elem? (coder.codec.encode data_bytes) (coder.data_shards + parity_idx)

unfoldable pub parity_fragment : ErasureCoder → ℕ → List (List ℕ) → ℕ → Option (List ℕ)
unfolding parity_byte
parity_fragment coder size fragments parity_idx =
    collect (parity_byte coder fragments parity_idx) (upto 0 size)

unfoldable pub all_fragments : ErasureCoder → ℕ → List (List ℕ) → Option (List (List ℕ))
unfolding parity_fragment
all_fragments coder size fragments = do
  parity ← collect (parity_fragment coder size fragments) (upto 0 coder.parity_shards)
  some (fragments ++ parity)

-- An empty chunk is refused, and so is a division by no data shards.
unfoldable pub encode_chunk : ErasureCoder → List ℕ → Option (List (List ℕ))
unfolding all_fragments data_fragments fragment_size
encode_chunk coder [] = none
encode_chunk coder (b ∷ bytes) =
    if coder.data_shards == 0
    then none
    else all_fragments coder (fragment_size coder (b ∷ bytes)) (data_fragments coder (b ∷ bytes))

-- `[f for f in fragments if f is not None]`
unfoldable pub available : List (Option (List ℕ)) → List (List ℕ)
available [] = []
available (none ∷ fragments) = available fragments
available (some f ∷ fragments) = f ∷ available fragments

-- `for idx, frag in zip(indices, fragments): fragment_map[idx] = frag`
unfoldable pub map_fragments : Dict ℕ (List ℕ) → List ℕ → List (List ℕ) → Dict ℕ (List ℕ)
unfolding insert
map_fragments m [] fragments = m
map_fragments m (idx ∷ indices) [] = m
map_fragments m (idx ∷ indices) (frag ∷ fragments) =
    map_fragments (insert idx frag m) indices fragments

unfoldable pub has_all : Dict ℕ (List ℕ) → List ℕ → Bool
unfolding contains
has_all m [] = true
has_all m (i ∷ indices) = if contains i m then has_all m indices else false

-- The byte of a fragment at a position, and 0 where the fragment is missing
unfoldable pub byte_or_zero : Option (List ℕ) → ℕ → Option ℕ
byte_or_zero none byte_pos = some 0
byte_or_zero (some fragment) byte_pos = get_elem? fragment byte_pos

unfoldable pub available_bytes : ErasureCoder → Dict ℕ (List ℕ) → ℕ → Option (List ℕ)
unfolding byte_or_zero lookup
available_bytes coder m byte_pos =
    collect (λ frag_idx. byte_or_zero (lookup frag_idx m) byte_pos) (upto 0 (total_shards coder))

unfoldable pub erasures : ErasureCoder → Dict ℕ (List ℕ) → List ℕ
unfolding contains
erasures coder m = keep (λ frag_idx. not (contains frag_idx m)) (upto 0 (total_shards coder))

unfoldable pub decoded_byte : ErasureCoder → Dict ℕ (List ℕ) → ℕ → ℕ → Option ℕ
unfolding available_bytes erasures
decoded_byte coder m data_idx byte_pos = do
  received ← available_bytes coder m byte_pos
  decoded_bytes ← coder.codec.decode received (erasures coder m)
  get_elem? decoded_bytes data_idx

-- A data fragment that is there, or one that is put together byte by byte
unfoldable pub present_or_decoded :
    Option (List ℕ) → ErasureCoder → Dict ℕ (List ℕ) → ℕ → ℕ → Option (List ℕ)
unfolding decoded_byte
present_or_decoded (some fragment) coder m size data_idx = some fragment
present_or_decoded none coder m size data_idx =
    collect (decoded_byte coder m data_idx) (upto 0 size)

unfoldable pub reconstructed_fragment : ErasureCoder → Dict ℕ (List ℕ) → ℕ → ℕ → Option (List ℕ)
unfolding present_or_decoded lookup
reconstructed_fragment coder m size data_idx =
    present_or_decoded (lookup data_idx m) coder m size data_idx

-- `b''.join(fragments)`
unfoldable pub join : List (List ℕ) → List ℕ
join [] = []
join (f ∷ fragments) = f ++ join fragments

unfoldable pub decode_mapped : ErasureCoder → ℕ → Dict ℕ (List ℕ) → Option (List ℕ)
unfolding has_all join lookup reconstructed_fragment
decode_mapped coder size m =
    let direct = collect (λ i. lookup i m) (upto 0 coder.data_shards) in
    let decoded = collect (reconstructed_fragment coder m size) (upto 0 coder.data_shards) in
    do
      fragments ← if has_all m (upto 0 coder.data_shards) then direct else decoded
      some (join fragments)

-- `fragment_size = len(available_fragments[0])`
unfoldable pub decode_available : ErasureCoder → List (List ℕ) → List ℕ → Option (List ℕ)
unfolding decode_mapped map_fragments
decode_available coder [] fragment_indices = none
decode_available coder (f ∷ fragments) fragment_indices =
    decode_mapped coder (length f) (map_fragments [] fragment_indices (f ∷ fragments))

unfoldable pub decode_fragments : ErasureCoder → List (Option (List ℕ)) → List ℕ → Option (List ℕ)
unfolding decode_available available
decode_fragments coder fragments fragment_indices =
    if ltb (length (available fragments)) coder.data_shards
    then none
    else decode_available coder (available fragments) fragment_indices

-- `fragment_list[idx] = data`
unfoldable pub set_slot : ℕ → List ℕ → List (Option (List ℕ)) → List (Option (List ℕ))
set_slot i fragment [] = []
set_slot zero fragment (x ∷ xs) = some fragment ∷ xs
set_slot (suc i) fragment (x ∷ xs) = x ∷ set_slot i fragment xs

unfoldable pub set_each : List (ℕ × List ℕ) → List (Option (List ℕ)) → List (Option (List ℕ))
unfolding set_slot
set_each [] fragment_list = fragment_list
set_each ((idx, fragment) ∷ fragments) fragment_list =
    set_each fragments (set_slot idx fragment fragment_list)

unfoldable pub max_index : List (ℕ × List ℕ) → ℕ
max_index [] = 0
max_index ((idx, fragment) ∷ fragments) = max idx (max_index fragments)

unfoldable pub reconstruct_sorted : ErasureCoder → List (ℕ × List ℕ) → Option (List ℕ)
unfolding decode_fragments set_each max_index
reconstruct_sorted coder [] = none
reconstruct_sorted coder (f ∷ fragments) =
    decode_fragments coder
      (set_each (f ∷ fragments) (replicate (max_index (f ∷ fragments) + 1) none))
      (map (λ p. p.0) (f ∷ fragments))

unfoldable pub reconstruct_chunk : ErasureCoder → List (ℕ × List ℕ) → Option (List ℕ)
unfolding reconstruct_sorted order_by
reconstruct_chunk coder fragments =
    if ltb (length fragments) coder.data_shards
    then none
    else reconstruct_sorted coder (order_by (λ f. f.0) fragments)
