-- ===== src/Uploader/Coordinator/Batch.antt =====
-- The upload of all chunks, and its end.
use vstack.Prelude.{
  ◌≤◌, ◌≡◌, refl, ap, ◌∙◌, String, Bool, true, false, Option, none, some, List, [], ◌∷◌, ◌++◌,
  length, All, ◌↔◌, ltb, arith, Bool-cases, inl, inr, ◌⊎◌,
}
use vstack.Uploader.Coordinator.{
  VideoChunk, UploadCoordinator, upload_single_chunk, failed_of, failed_chunks, uploaded,
  check_failures, upload_chunks, ChunkInfo, Manifest, has_replicas, all_have_replicas,
  StatusRequest, activate, delete, abandon, activated, finalize_video,
}

-- The chunk found its nodes.
abbrev pub IsUploaded : UploadCoordinator → List String → VideoChunk → Type 0
IsUploaded u storage_nodes chunk =
    (nodes : List String) × (upload_single_chunk u chunk storage_nodes ≡ some nodes)

check_failures-uploaded : (l : List String) → check_failures l ≡ uploaded → l ≡ []
unfolding check_failures
check_failures-uploaded [] e = refl
check_failures-uploaded (x ∷ l) e = cc

failed_of-append :
    (chunk : VideoChunk) (o : Option (List String)) (l : List String)
    → failed_of chunk o ++ l ≡ []
    → ((nodes : List String) × (o ≡ some nodes)) × (l ≡ [])
unfolding failed_of
failed_of-append chunk none l e = absurd (no e)
  where
    no : chunk.chunk_id ∷ l ≡ [] → ⊥
    no q = cc
failed_of-append chunk (some nodes) l e = ((nodes, refl), e)

none_failed :
    (u : UploadCoordinator) (storage_nodes : List String) (chunks : List VideoChunk)
    → failed_chunks u storage_nodes chunks ≡ []
    → All (IsUploaded u storage_nodes) chunks
unfolding failed_chunks
none_failed u storage_nodes [] e = tt
none_failed u storage_nodes (chunk ∷ chunks) e =
    let (here, later) =
      failed_of-append chunk (upload_single_chunk u chunk storage_nodes)
        (failed_chunks u storage_nodes chunks) e in
    (here, none_failed u storage_nodes chunks later)

all_uploaded :
    (u : UploadCoordinator) (storage_nodes : List String) (chunks : List VideoChunk)
    → All (IsUploaded u storage_nodes) chunks
    → failed_chunks u storage_nodes chunks ≡ []
unfolding failed_chunks failed_of
all_uploaded u storage_nodes [] h = refl
all_uploaded u storage_nodes (chunk ∷ chunks) ((nodes, e), h) =
    rw e (all_uploaded u storage_nodes chunks h)

no_failures : check_failures [] ≡ uploaded
unfolding check_failures
no_failures = refl

-- The upload of a video returns exactly if there are as many healthy nodes as replicas are wanted
-- and every chunk found its nodes.
pub upload_chunks_iff :
    (u : UploadCoordinator) (storage_nodes : List String) (chunks : List VideoChunk)
    → (upload_chunks u storage_nodes chunks ≡ uploaded)
      ↔ ((u.replicas_per_chunk ≤ length storage_nodes) × All (IsUploaded u storage_nodes) chunks)
unfolding upload_chunks
upload_chunks_iff u storage_nodes chunks =
    elim (Bool-cases (ltb (length storage_nodes) u.replicas_per_chunk)) [
      | inl few ↦ rw few ((λ e. cc), λ h. ground (arith, few, h.0))
      | inr enough ↦ rw enough (
        (λ e. (
          ground (arith, enough),
          none_failed u storage_nodes chunks
              (check_failures-uploaded (failed_chunks u storage_nodes chunks) e),
        )),
        λ h. ap check_failures (all_uploaded u storage_nodes chunks h.1) ∙ no_failures,
      )
    ]

-- A chunk of the manifest that has a replica.
abbrev pub IsStored : ChunkInfo → Type 0
IsStored c = (url : String) × (urls : List String) × (c.replicas ≡ some (url ∷ urls))

has_replicas_url :
    (o : Option (List String))
    → has_replicas o ≡ true
    → (url : String) × (urls : List String) × (o ≡ some (url ∷ urls))
unfolding has_replicas
has_replicas_url none e = absurd (ground arith)
has_replicas_url (some []) e = absurd (ground arith)
has_replicas_url (some (url ∷ urls)) e = (url, urls, refl)

replicated : (c : ChunkInfo) → IsStored c → has_replicas c.replicas ≡ true
unfolding has_replicas
replicated c (url, urls, e) = rw e refl

all-IsStored : (l : List ChunkInfo) → all_have_replicas l ≡ true → All IsStored l
unfolding all_have_replicas
all-IsStored [] e = tt
all-IsStored (c ∷ l) e =
    (has_replicas_url c.replicas (ground (arith, e)), all-IsStored l (ground (arith, e)))

all_replicated : (l : List ChunkInfo) → All IsStored l → all_have_replicas l ≡ true
unfolding all_have_replicas
all_replicated [] h = refl
all_replicated (c ∷ l) (h, k) = ground (arith, replicated c h, all_replicated l k)

-- All goes well: the manifest could be read, every chunk in it has a replica, and the service takes
-- the new status.
pub record Succeeds (read : Option Manifest) (accepts : Bool) : Type 0 where
  pub manifest : Manifest
  pub is_read : read ≡ some manifest
  pub stored : All IsStored manifest.chunks
  pub accepted : accepts ≡ true

none≢some_manifest : (m : Manifest) → ◌≡◌ {A = Option Manifest} none (some m) → ⊥
none≢some_manifest m e = cc

some_manifest_inj : (m m' : Manifest) → some m ≡ some m' → m ≡ m'
some_manifest_inj m m' e = cc

-- Finalizing returns the manifest, and sends the one request to activate the video, exactly if the
-- manifest could be read, every chunk in it has a replica and the service takes the new status; if not,
-- it raises, and the last request is to delete the video. The chunks that were uploaded make no
-- difference.
pub finalize_video_cases :
    (read : Option Manifest) (accepts : Bool) (chunks : List VideoChunk)
    → let (r, sent) = finalize_video read accepts chunks in
      (Succeeds read accepts × (r ≡ read) × (sent ≡ activate ∷ []))
      ⊎ ((¬ Succeeds read accepts)
          × (r ≡ none)
          × ((before : List StatusRequest) × (sent ≡ before ++ delete ∷ [])))
unfolding finalize_video abandon activated
finalize_video_cases none accepts chunks =
    inr ((λ s. none≢some_manifest s.manifest s.is_read), refl, ([], refl))
finalize_video_cases (some m) accepts chunks = elim (Bool-cases (all_have_replicas m.chunks)) [
  | inl stored ↦ rw stored (by_answer accepts stored)
  | inr missing ↦ rw missing (inr (missing_fails missing, refl, ([], refl)))
]
  where
    missing_fails : all_have_replicas m.chunks ≡ false → ¬ Succeeds (some m) accepts
    missing_fails e s =
        let same : m ≡ s.manifest = some_manifest_inj m s.manifest s.is_read in
        let whole : all_have_replicas m.chunks ≡ true =
          ap (λ (k : Manifest). all_have_replicas k.chunks) same
          ∙ all_replicated s.manifest.chunks s.stored in
        ground (arith, e, whole)

    by_answer :
        (b : Bool)
        → all_have_replicas m.chunks ≡ true
        → (Succeeds (some m) b × ((activated b m).0 ≡ some m) × ((activated b m).1 ≡ activate ∷ []))
          ⊎ ((¬ Succeeds (some m) b)
              × ((activated b m).0 ≡ none)
              × ((before : List StatusRequest) × ((activated b m).1 ≡ before ++ delete ∷ [])))
    by_answer true stored = inl (
      record {
        manifest = m;
        is_read = refl;
        stored = all-IsStored m.chunks stored;
        accepted = refl;
      },
      refl,
      refl,
    )
    by_answer false stored = inr ((λ s. ground (arith, s.accepted)), refl, (activate ∷ [], refl))
