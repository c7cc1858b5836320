-- ===== src/Metadata/Consensus/Requests.antt =====
-- metadata-service/consensus.py: ballots, and what a node's reply to a request of either phase means.
use vstack.Prelude.{
  ℕ, ◌+◌, ◌*◌, ◌%◌, ◌^◌, Bool, true, false, ◌&&◌, Option, none, some, [], ◌∷◌, ltb, ◌==◌,
  number_key, text_key, nat_beq, if◌then◌else◌,
}
use mathlib.Core.List.{reverse}
use vstack.Metadata.Tables.{Text}
use vstack.Metadata.Connection.{ballot_conflict, Result, ok, raised}

-- What `int(response.headers.get("X-Ballot-Number", "0"))` reads.
pub data Header : Type 0 where
  missing : Header
  number : ℕ → Header
  negative : ℕ → Header
  garbage : Header

-- A reply with its status code and its headers, or a request that raised.
pub data Reply : Type 0 where
  response : ℕ → Header → Option Text → Reply
  failed : Reply

-- `(timestamp << 16) | (self.ballot_counter & 0xFFFF)`: the low 16 bits of the first part are 0,
-- so the disjunction is a sum. The counter has been stepped already.
unfoldable pub ballot_of : ℕ → ℕ → ℕ
ballot_of timestamp counter = timestamp * 2 ^ 16 + counter % 2 ^ 16

-- `_generate_ballot_number`: the ballot, and the counter that it leaves
unfoldable pub generate_ballot_number : ℕ → ℕ → ℕ × ℕ
unfolding ballot_of
generate_ballot_number timestamp counter = (ballot_of timestamp (counter + 1), counter + 1)

-- The branch for a chunk that exists: what `asyncio.gather` collects for the node.
unfoldable pub compare_ballots : ℕ → Header → Result Bool
compare_ballots ballot missing =
    if ltb 0 ballot then ok true else if ltb ballot 0 then raised ballot_conflict else ok true
compare_ballots ballot (number existing) =
    if ltb existing ballot
    then ok true
    else if ltb ballot existing
    then raised ballot_conflict
    else ok true
compare_ballots ballot (negative existing) = ok true
compare_ballots ballot garbage = ok false

unfoldable pub send_prepare_request : ℕ → Reply → Result Bool
unfolding compare_ballots
send_prepare_request ballot failed = ok false
send_prepare_request ballot (response status header etag) =
    if status == 404
    then ok true
    else if status == 200
    then compare_ballots ballot header
    else ok false

-- `isinstance(result, bool) and result`: an exception counts as a refusal
unfoldable pub is_yes : Result Bool → Bool
is_yes (ok b) = b
is_yes (raised e) = false

-- `.strip('"')`
unfoldable pub drop_quotes : Text → Text
drop_quotes [] = []
drop_quotes (c ∷ s) = let rest = drop_quotes s in if c == b'"' then rest else c ∷ s

unfoldable pub strip_quotes : Text → Text
unfolding drop_quotes
strip_quotes s = reverse (drop_quotes (reverse (drop_quotes s)))

unfoldable pub same_text : Text → Text → Bool
same_text [] [] = true
same_text (a ∷ s) (b ∷ t) = nat_beq a b && same_text s t
same_text _ _ = false

-- `response.headers.get("ETag", "")`
unfoldable pub etag_text : Option Text → Text
etag_text none = []
etag_text (some s) = s

unfoldable pub send_accept_request : Text → Reply → Bool
unfolding strip_quotes same_text etag_text
send_accept_request checksum failed = false
send_accept_request checksum (response status header etag) =
    if status == 200 then same_text (strip_quotes (etag_text etag)) checksum else false
