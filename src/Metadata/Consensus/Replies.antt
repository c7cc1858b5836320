-- ===== src/Metadata/Consensus/Replies.antt =====
-- What the replies of a node mean, said without the tests of metadata-service/consensus.py.
use vstack.Prelude.{
  ℕ, ◌≤◌, ◌≡◌, ◌⊎◌, if◌then◌else◌, refl, Bool, true, false, Option, List, [], ◌∷◌, All, keep, ◌==◌,
  number_key, eq_iff, arith, Bool-cases, inl, inr, ap,
}
use vstack.Metadata.Tables.{Text}
use vstack.Metadata.Connection.{Result, ok}
use vstack.Metadata.Consensus.{
  Header, missing, number, negative, garbage, Reply, response, failed, compare_ballots,
  send_prepare_request, is_yes, strip_quotes, same_text, etag_text, send_accept_request,
}

-- The header names no ballot above this one.
pub data Allows (ballot : ℕ) : Header → Type 0 where
  unnumbered : Allows ballot missing
  not_above : (existing : ℕ) → existing ≤ ballot → Allows ballot (number existing)
  below : (existing : ℕ) → Allows ballot (negative existing)

-- The node does not have the chunk, or has it under no greater ballot.
pub data Promises (ballot : ℕ) : Reply → Type 0 where
  absent : (header : Header) (etag : Option Text) → Promises ballot (response 404 header etag)
  present :
      (header : Header) (etag : Option Text)
      → Allows ballot header
      → Promises ballot (response 200 header etag)

-- The node has the chunk, and its tag, without the quotes around it, is the checksum.
pub data Shows (checksum : Text) : Reply → Type 0 where
  shown :
      (header : Header) (etag : Option Text)
      → strip_quotes (etag_text etag) ≡ checksum
      → Shows checksum (response 200 header etag)

header-Allows :
    (ballot : ℕ) (header : Header)
    → is_yes (compare_ballots ballot header) ≡ true
    → Allows ballot header
unfolding compare_ballots is_yes
header-Allows ballot missing e = unnumbered
header-Allows ballot (number existing) e = not_above existing (ground (arith, e))
header-Allows ballot (negative existing) e = below existing
header-Allows ballot garbage e = absurd (ground (arith, e))

by_status :
    (b b' : Bool) (r : Result Bool)
    → is_yes (if b then ok true else if b' then r else ok false) ≡ true
    → (b ≡ true) ⊎ ((b' ≡ true) × (is_yes r ≡ true))
unfolding is_yes
by_status true b' r e = inl refl
by_status false true r e = inr (refl, e)
by_status false false r e = absurd (ground (arith, e))

pub reply-Promises :
    (ballot : ℕ) (reply : Reply)
    → is_yes (send_prepare_request ballot reply) ≡ true
    → Promises ballot reply
unfolding send_prepare_request is_yes
reply-Promises ballot failed e = absurd (ground (arith, e))
reply-Promises ballot (response status header etag) e =
    elim (by_status (status == 404) (status == 200) (compare_ballots ballot header) e) [
      | inl gone ↦ rw ((eq_iff status 404).0 gone) (absent header etag)
      | inr found ↦
          rw ((eq_iff status 200).0 found.0)
            (present header etag (header-Allows ballot header found.1))
    ]

same_text-eq : (s t : Text) → same_text s t ≡ true → s ≡ t
unfolding same_text
same_text-eq [] [] e = refl
same_text-eq [] (b ∷ t) e = absurd (ground (arith, e))
same_text-eq (a ∷ s) [] e = absurd (ground (arith, e))
same_text-eq (a ∷ s) (b ∷ t) e =
    let first : a ≡ b = ground (arith, e) in
    rw first (ap (◌∷◌ b) (same_text-eq s t (ground (arith, e))))

checked_tag : (b t : Bool) → (if b then t else false) ≡ true → (b ≡ true) × (t ≡ true)
checked_tag true t e = (refl, e)
checked_tag false t e = absurd (ground (arith, e))

pub reply-Shows :
    (checksum : Text) (reply : Reply)
    → send_accept_request checksum reply ≡ true
    → Shows checksum reply
unfolding send_accept_request
reply-Shows checksum failed e = absurd (ground (arith, e))
reply-Shows checksum (response status header etag) e =
    let h = checked_tag (status == 200) (same_text (strip_quotes (etag_text etag)) checksum) e in
    rw ((eq_iff status 200).0 h.0)
      (shown header etag (same_text-eq (strip_quotes (etag_text etag)) checksum h.1))

-- What passes a test has what the test shows, and stays so in what passes another.
pub keep-All {ℓ} :
    {A : Type ℓ} (P : A → Type 0) (f : A → Bool) (l : List A)
    → ((a : A) → f a ≡ true → P a)
    → All P (keep f l)
keep-All P f [] h = tt
keep-All P f (a ∷ l) h = elim (Bool-cases (f a)) [
  | inl e ↦ rw e (h a e, keep-All P f l h)
  | inr e ↦ rw e (keep-All P f l h)
]

pub All-keep {ℓ} :
    {A : Type ℓ} (P : A → Type 0) (f : A → Bool) (l : List A) → All P l → All P (keep f l)
All-keep P f [] h = tt
All-keep P f (a ∷ l) (h, k) = elim (Bool-cases (f a)) [
  | inl e ↦ rw e (h, All-keep P f l k)
  | inr e ↦ rw e (All-keep P f l k)
]
