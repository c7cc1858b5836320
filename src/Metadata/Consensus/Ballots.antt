-- ===== src/Metadata/Consensus/Ballots.antt =====
-- metadata-service/consensus.py: the order of ballot numbers.
use vstack.Prelude.{ℕ, ◌+◌, ◌%◌, ◌^◌, ◌<◌, ◌≡◌, ◌⊎◌, ◌↔◌, arith, inl, inr}
use vstack.Metadata.Consensus.{generate_ballot_number}

-- A later reading of the clock gives a greater ballot, whatever the counters; within one
-- millisecond the ballot grows with the counter unless the low 16 bits wrap around.
pub generate_ballot_number-lt :
    (t t' counter counter' : ℕ)
    → (t < t') ⊎ ((t ≡ t') × ((counter + 1) % 2 ^ 16 < (counter' + 1) % 2 ^ 16))
    → (generate_ballot_number t counter).0 < (generate_ballot_number t' counter').0
unfolding generate_ballot_number
generate_ballot_number-lt t t' counter counter' (inl later) = omega arith
generate_ballot_number-lt t t' counter counter' (inr (same, grows)) = omega arith

-- Two counters give one ballot within a millisecond exactly if they have the same low 16 bits.
pub generate_ballot_number_iff :
    (t counter counter' : ℕ)
    → ((generate_ballot_number t counter).0 ≡ (generate_ballot_number t counter').0)
      ↔ (counter % 2 ^ 16 ≡ counter' % 2 ^ 16)
unfolding generate_ballot_number
generate_ballot_number_iff t counter counter' = ((λ e. omega arith), λ e. omega arith)
