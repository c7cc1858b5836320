-- ===== src/Client/Player/Wanted.antt =====
-- client/main.py: the state of the client, its manifest, and the chunks that a turn asks for.
use vstack.Prelude.{
  ℕ, ◌+◌, ◌-◌, ◌/◌, String, Bool, true, false, Option, none, some, List, [], ◌∷◌, ◌++◌, ◌==◌,
  number_key, text_key, if◌then◌else◌, max,
}
use vstack.Metadata.Manifest.{ManifestChunk, VideoManifest}
use vstack.Client.Buffer.{BufferManager, get_buffer_level_seconds}
use vstack.Client.Scheduler.{Network, ChunkScheduler, distinct_nodes}

pub record SmartClient : Type 0 where
  pub video_id : Option String
  pub manifest : Option VideoManifest
  pub scheduler : ChunkScheduler
  pub buffer_manager : BufferManager
  pub playing : Bool
  pub has_session : Bool

-- What surrounds a turn: the network at the download of each chunk, what spilling a chunk comes to,
-- whether files can be removed, the clock, and what the parsing of a chunk id that is not in the
-- manifest comes to.
pub record Surroundings : Type 0 where
  pub net : String → Network
  pub spill : String → Option String
  pub unlink : String → Bool
  pub now : ℕ
  pub max_retries : ℕ
  pub parsed_number : String → Option ℕ

-- The reply to the request for a manifest: its status and body, or an exception.
pub data ManifestReply : Type 0 where
  manifest_reply : ℕ → VideoManifest → ManifestReply
  no_reply : ManifestReply

unfoldable pub fetch_manifest : Bool → ManifestReply → Option VideoManifest
fetch_manifest false r = none
fetch_manifest true no_reply = none
fetch_manifest true (manifest_reply status body) = if status == 200 then some body else none

pub record WantedChunk : Type 0 where
  pub chunk_id : String
  pub replicas : List String

unfoldable pub all_replicas : List ManifestChunk → List String
all_replicas [] = []
all_replicas (c ∷ chunks) = c.replicas ++ all_replicas chunks

-- A set, as the list of its elements.
unfoldable pub get_all_storage_nodes : Option VideoManifest → List String
unfolding all_replicas
get_all_storage_nodes none = []
get_all_storage_nodes (some manifest) = distinct_nodes [] (all_replicas manifest.chunks)

unfoldable pub info_of : ℕ → List ManifestChunk → Option WantedChunk
info_of sequence_num [] = none
info_of sequence_num (c ∷ chunks) =
    if c.sequence_num == sequence_num
    then some (record { chunk_id = c.chunk_id; replicas = c.replicas })
    else info_of sequence_num chunks

-- `_get_chunk_info`
unfoldable pub get_chunk_info : ℕ → Option VideoManifest → Option WantedChunk
unfolding info_of
get_chunk_info sequence_num none = none
get_chunk_info sequence_num (some manifest) = info_of sequence_num manifest.chunks

unfoldable pub number_of_id : String → List ManifestChunk → Option ℕ → Option ℕ
number_of_id chunk_id [] otherwise = otherwise
number_of_id chunk_id (c ∷ chunks) otherwise =
    if c.chunk_id == chunk_id then some c.sequence_num else number_of_id chunk_id chunks otherwise

-- `_extract_sequence_number`
unfoldable pub extract_sequence_number : Surroundings → String → Option VideoManifest → Option ℕ
unfolding number_of_id
extract_sequence_number s chunk_id none = s.parsed_number chunk_id
extract_sequence_number s chunk_id (some manifest) =
    number_of_id chunk_id manifest.chunks (s.parsed_number chunk_id)

-- `max(1, int(deficit / duration) + 2)`; `int` rounds towards zero
unfoldable pub chunks_to_download : BufferManager → ℕ
unfolding get_buffer_level_seconds
chunks_to_download m =
    let level = get_buffer_level_seconds m in
    let missing = (m.target_buffer_sec - level) / m.chunk_duration_sec in
    let excess = (level - m.target_buffer_sec) / m.chunk_duration_sec in
    max 1 (missing + 2 - excess)

-- The loop that builds the download list.
unfoldable pub download_list : List ℕ → Option VideoManifest → List WantedChunk
unfolding get_chunk_info
download_list [] manifest = []
download_list (seq_num ∷ sequences) manifest =
    let rest = download_list sequences manifest in
    elim (get_chunk_info seq_num manifest) [ none ↦ rest | some info ↦ info ∷ rest ]
