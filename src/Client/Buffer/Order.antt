-- ===== src/Client/Buffer/Order.antt =====
-- The order of the buffered chunks, and what the insertion does to it.
use vstack.Prelude.{
  ℕ, suc, ◌+◌, ◌≤◌, ◌<◌, ◌≡◌, ◌≢◌, refl, true, false, List, [], ◌∷◌, none, some, length, All, ltb,
  ◌==◌, number_key, if◌then◌else◌, arith, Bool-cases, inl, inr,
}
use vstack.Client.Buffer.{BufferedChunk, insert_sorted, is_buffered, find_chunk}

-- Strictly ascending sequence numbers, none below `lo`.
abbrev pub Ascending : ℕ → List BufferedChunk → Type 0
Ascending lo [] = Unit
Ascending lo (c ∷ rest) = (lo ≤ c.sequence_num) × Ascending (suc c.sequence_num) rest

-- The bytes that a chunk holds in memory.
abbrev pub held : BufferedChunk → ℕ
held c = elim (c.payload) [ none ↦ 0 | some bytes ↦ length bytes ]

abbrev pub memory : List BufferedChunk → ℕ
memory [] = 0
memory (c ∷ rest) = held c + memory rest

-- The recorded size is the number of bytes held, where there are any.
abbrev pub IsSized : BufferedChunk → Type 0
IsSized c = elim (c.payload) [ none ↦ Unit | some bytes ↦ c.size_bytes ≡ length bytes ]

pub Ascending-weaken :
    (lo lo' : ℕ) (l : List BufferedChunk) → lo' ≤ lo → Ascending lo l → Ascending lo' l
Ascending-weaken lo lo' [] h a = tt
Ascending-weaken lo lo' (c ∷ rest) h a = (omega arith, a.1)

pub insert_sorted-Ascending :
    (lo : ℕ) (b : BufferedChunk) (l : List BufferedChunk)
    → lo ≤ b.sequence_num
    → is_buffered b.sequence_num l ≡ false
    → Ascending lo l
    → Ascending lo (insert_sorted b l)
unfolding insert_sorted is_buffered
insert_sorted-Ascending lo b [] h new a = (h, tt)
insert_sorted-Ascending lo b (c ∷ rest) h new a =
    elim (Bool-cases (ltb b.sequence_num c.sequence_num)) [
      | inl before ↦ rw before (h, (ground arith, a.1))
      | inr after ↦ rw after (
        a.0,
        insert_sorted-Ascending (suc c.sequence_num) b rest (ground arith) (ground arith) a.1,
      )
    ]

pub memory-insert_sorted :
    (b : BufferedChunk) (l : List BufferedChunk) → memory (insert_sorted b l) ≡ held b + memory l
unfolding insert_sorted
memory-insert_sorted b [] = refl
memory-insert_sorted b (c ∷ rest) = elim (Bool-cases (ltb b.sequence_num c.sequence_num)) [
  | inl before ↦ rw before
  | inr after ↦ rw after (omega (arith, memory-insert_sorted b rest))
]

pub length-insert_sorted :
    (b : BufferedChunk) (l : List BufferedChunk) → length (insert_sorted b l) ≡ length l + 1
unfolding insert_sorted
length-insert_sorted b [] = refl
length-insert_sorted b (c ∷ rest) = ground (arith, length-insert_sorted b rest)

pub insert_sorted-All {ℓ} :
    (P : BufferedChunk → Type ℓ) (b : BufferedChunk) (l : List BufferedChunk)
    → P b
    → All P l
    → All P (insert_sorted b l)
unfolding insert_sorted
insert_sorted-All P b [] p h = (p, h)
insert_sorted-All P b (c ∷ rest) p h = elim (Bool-cases (ltb b.sequence_num c.sequence_num)) [
  | inl before ↦ rw before (p, h)
  | inr after ↦ rw after (h.0, insert_sorted-All P b rest p h.1)
]

-- What is found after an insertion: the new chunk under its own number, all others as before.
pub find_chunk-insert_sorted :
    (seq : ℕ) (b : BufferedChunk) (l : List BufferedChunk)
    → is_buffered b.sequence_num l ≡ false
    → find_chunk seq (insert_sorted b l)
      ≡ (if b.sequence_num == seq then some b else find_chunk seq l)
unfolding insert_sorted is_buffered find_chunk
find_chunk-insert_sorted seq b [] new = refl
find_chunk-insert_sorted seq b (c ∷ rest) new = ground (arith, find_chunk-insert_sorted seq b rest)

pub is_buffered-insert_sorted :
    (seq : ℕ) (b : BufferedChunk) (l : List BufferedChunk)
    → is_buffered seq (insert_sorted b l)
      ≡ (if b.sequence_num == seq then true else is_buffered seq l)
unfolding insert_sorted is_buffered
is_buffered-insert_sorted seq b [] = ground arith
is_buffered-insert_sorted seq b (c ∷ rest) = ground (arith, is_buffered-insert_sorted seq b rest)

-- Below the lower bound nothing is buffered.
pub is_buffered_below :
    (lo seq : ℕ) (l : List BufferedChunk) → Ascending lo l → seq < lo → is_buffered seq l ≡ false
unfolding is_buffered
is_buffered_below lo seq [] a h = refl
is_buffered_below lo seq (c ∷ rest) a h =
    ground (arith, is_buffered_below (suc c.sequence_num) seq rest a.1)

pub insert_sorted_comm :
    (b d : BufferedChunk) (l : List BufferedChunk)
    → b.sequence_num ≢ d.sequence_num
    → insert_sorted b (insert_sorted d l) ≡ insert_sorted d (insert_sorted b l)
unfolding insert_sorted
insert_sorted_comm b d [] h = ground arith
insert_sorted_comm b d (c ∷ rest) h = ground (arith, insert_sorted_comm b d rest h)
