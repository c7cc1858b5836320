-- ===== src/Uploader/Coordinator/Placement.antt =====
-- The upload of one chunk.
use vstack.Prelude.{
  ℕ, zero, suc, ◌+◌, ◌≤◌, ◌<◌, ◌≡◌, refl, String, Bool, true, false, Option, none, some, List,
  length, keep, min, if◌then◌else◌, arith, Bool-cases, inl, inr,
}
use mathlib.Core.Path.{subst}
use vstack.Uploader.Coordinator.{
  VideoChunk, Servers, UploadCoordinator, upload_chunk_to_node, commit_chunk_placement,
  successful_nodes, min_replicas, try_upload, upload_attempts, upload_single_chunk,
}

-- The nodes of a result: in one of the attempts each of them took the chunk, they are enough, and
-- the metadata service committed exactly them.
pub record IsPlaced (servers : Servers) (replicas_per_chunk retries : ℕ)
    (targets nodes : List String) : Type 0 where
  pub attempt : ℕ
  pub in_time : attempt < retries
  pub chosen : nodes ≡ keep (λ url. upload_chunk_to_node (servers.put_status attempt url)) targets
  pub enough : min 2 replicas_per_chunk ≤ length nodes
  pub committed : servers.commit_success attempt nodes ≡ some true

commit_true : (r : Option Bool) → commit_chunk_placement r ≡ true → r ≡ some true
unfolding commit_chunk_placement
commit_true none h = cc
commit_true (some true) h = refl
commit_true (some false) h = cc

some_list_inj : (a b : List String) → some a ≡ some b → a ≡ b
some_list_inj a b e = cc

none≢some_list : (b : List String) → ◌≡◌ {A = Option (List String)} none (some b) → ⊥
none≢some_list b e = cc

-- The two ways of a conditional that has a value.
taken :
    (x y : Option (List String)) {b : Bool} {nodes : List String}
    → b ≡ true
    → (if b then x else y) ≡ some nodes
    → x ≡ some nodes
taken x y {b} is e = ground (arith, is, e)

passed :
    (x y : Option (List String)) {b : Bool} {nodes : List String}
    → b ≡ false
    → (if b then x else y) ≡ some nodes
    → y ≡ some nodes
passed x y {b} isnt e = ground (arith, isnt, e)

module _ (servers : Servers) (replicas_per_chunk retries : ℕ) (targets : List String) where
  try_upload-IsPlaced :
      (attempt : ℕ)
      → attempt < retries
      → try_upload servers replicas_per_chunk attempt targets ≡ true
      → IsPlaced servers replicas_per_chunk retries targets
          (successful_nodes servers attempt targets)
  unfolding try_upload successful_nodes min_replicas
  try_upload-IsPlaced attempt early h = record {
    attempt = attempt;
    in_time = early;
    chosen = refl;
    enough = ground (arith, h);
    committed =
        commit_true (servers.commit_success attempt (successful_nodes servers attempt targets))
          (ground (arith, h));
  }

  upload_attempts-IsPlaced :
      (left attempt : ℕ) (nodes : List String)
      → attempt + left ≤ retries
      → upload_attempts servers replicas_per_chunk targets left attempt ≡ some nodes
      → IsPlaced servers replicas_per_chunk retries targets nodes
  unfolding upload_attempts
  upload_attempts-IsPlaced zero attempt nodes early e = absurd (none≢some_list nodes e)
  upload_attempts-IsPlaced (suc left) attempt nodes early e =
      elim (Bool-cases (try_upload servers replicas_per_chunk attempt targets)) [
        | inl now ↦
            subst (IsPlaced servers replicas_per_chunk retries targets)
              (some_list_inj (successful_nodes servers attempt targets) nodes (
                taken (some (successful_nodes servers attempt targets))
                  (upload_attempts servers replicas_per_chunk targets left (attempt + 1)) now e))
              (try_upload-IsPlaced attempt (omega arith) now)
        | inr later ↦ upload_attempts-IsPlaced left (attempt + 1) nodes (omega arith) (
            passed (some (successful_nodes servers attempt targets))
              (upload_attempts servers replicas_per_chunk targets left (attempt + 1)) later e)
      ]

-- A chunk whose upload returns was taken by every node of the result in one attempt, these are at
-- least two (or as many as replicas are wanted, if fewer), and the metadata service has committed
-- exactly them.
pub upload_single_chunk-IsPlaced :
    (u : UploadCoordinator) (chunk : VideoChunk) (storage_nodes nodes : List String)
    → upload_single_chunk u chunk storage_nodes ≡ some nodes
    → IsPlaced
        (u.servers chunk)
        u.replicas_per_chunk
        u.max_retries
        (u.sample chunk storage_nodes (min u.replicas_per_chunk (length storage_nodes)))
        nodes
unfolding upload_single_chunk
upload_single_chunk-IsPlaced u chunk storage_nodes nodes e =
    upload_attempts-IsPlaced (u.servers chunk) u.replicas_per_chunk u.max_retries _ u.max_retries 0
      nodes (omega arith) e
