-- ===== src/Client/Player/Turns.antt =====
-- The turns of the loops in any order.
use vstack.Prelude.{
  ℕ, String, Bool, true, false, not, ◌&&◌, Option, none, some, List, [], ◌∷◌, length, ltb,
  number_key, if◌then◌else◌,
}
use vstack.Prelude.Dict.{Dict}
use vstack.Metadata.Manifest.{VideoManifest}
use vstack.Client.Buffer.{BufferedChunk, Bytes, BufferManager, get_next_chunk_for_playback}
use vstack.Client.Buffer.Invariant.{
  IsValid, add_chunk-IsValid, get_next_chunk_for_playback-IsValid, record_buffer_level-IsValid,
  reset-IsValid,
}
use vstack.Client.Player.{
  SmartClient, Surroundings, ManifestReply, Streamed, returned, waiting, add_numbered, add_result,
  add_results, extract_sequence_number, download_turn, download_chunks, download_list, asked_for,
  refilled, will_refill, play_next, stream_next, with_manifest, fetch_manifest,
  get_all_storage_nodes, may_play, play_taken, playback_turn, stream_taken, stream_turn, stop_first,
  start_with, start_stream, stop,
}

add_numbered-IsValid :
    (s : Surroundings) (id : String) (n : Option ℕ) (bytes : Bytes) (m : BufferManager)
    → IsValid m
    → IsValid (add_numbered s id n bytes m)
unfolding add_numbered
add_numbered-IsValid s id none bytes m h = h
add_numbered-IsValid s id (some seq) bytes m h =
    add_chunk-IsValid id seq bytes s.now (s.spill id) m h

if-IsValid : (b : Bool) (m n : BufferManager) → IsValid m → IsValid n → IsValid (if b then m else n)
if-IsValid true m n h k = h
if-IsValid false m n h k = k

add_result-IsValid :
    (s : Surroundings) (manifest : Option VideoManifest) (id : String) (o : Option Bytes)
    (m : BufferManager)
    → IsValid m
    → IsValid (add_result s manifest id o m)
unfolding add_result
add_result-IsValid s manifest id none m h = h
add_result-IsValid s manifest id (some bytes) m h =
    if-IsValid (ltb 0 (length bytes)) _ m
      (add_numbered-IsValid s id (extract_sequence_number s id manifest) bytes m h) h

add_results-IsValid :
    (s : Surroundings) (manifest : Option VideoManifest) (results : Dict String (Option Bytes))
    (m : BufferManager)
    → IsValid m
    → IsValid (add_results s manifest results m)
unfolding add_results
add_results-IsValid s manifest [] m h = h
add_results-IsValid s manifest ((id, o) ∷ results) m h =
    add_results-IsValid s manifest results (add_result s manifest id o m)
      (add_result-IsValid s manifest id o m h)

-- A turn of one of the client's loops, or a call from outside.
pub data Turn : SmartClient → SmartClient → Type 0 where
  downloads : {c : SmartClient} (s : Surroundings) → Turn c (download_turn s c)
  plays : {c : SmartClient} (s : Surroundings) → Turn c (playback_turn s c)
  streams : {c : SmartClient} (s : Surroundings) → Turn c (stream_turn s c).1
  starts :
      {c : SmartClient} (s : Surroundings) (video_id : String) (reply : ManifestReply)
      → Turn c (start_stream s video_id reply c).1
  stops : {c : SmartClient} (s : Surroundings) → Turn c (stop s c)

pub data Turns (c : SmartClient) : SmartClient → Type 0 where
  none_yet : Turns c c
  one_more : {d e : SmartClient} → Turns c d → Turn d e → Turns c e

pub record HasValidBuffer (c : SmartClient) : Type 0 where
  pub buffer_IsValid : IsValid c.buffer_manager

if-HasValidBuffer :
    (b : Bool) (c d : SmartClient)
    → HasValidBuffer c
    → HasValidBuffer d
    → HasValidBuffer (if b then c else d)
if-HasValidBuffer true c d h k = h
if-HasValidBuffer false c d h k = k

start_with-HasValidBuffer :
    (nodes : List String) (c : SmartClient)
    → HasValidBuffer c
    → HasValidBuffer (start_with nodes c).1
unfolding start_with
start_with-HasValidBuffer [] c h = h
start_with-HasValidBuffer (n ∷ nodes) c h = record { buffer_IsValid = h.buffer_IsValid }

taken-HasValidBuffer :
    (s : Surroundings) (o : Option BufferedChunk) (m : BufferManager) (c : SmartClient)
    → IsValid m
    → HasValidBuffer (play_taken s o m c) × HasValidBuffer (stream_taken s o m c).1
unfolding play_taken stream_taken
taken-HasValidBuffer s none m c h = (record { buffer_IsValid = h }, record { buffer_IsValid = h })
taken-HasValidBuffer s (some chunk) m c h =
    let k = record_buffer_level-IsValid s.now m h in
    (record { buffer_IsValid = k }, record { buffer_IsValid = k })

refilled-HasValidBuffer :
    (s : Surroundings) (c : SmartClient) → HasValidBuffer c → HasValidBuffer (refilled s c)
unfolding refilled
refilled-HasValidBuffer s c h = record {
  buffer_IsValid =
      add_results-IsValid s c.manifest
        (download_chunks s (download_list (asked_for c) c.manifest) [] c.scheduler).0
        c.buffer_manager h.buffer_IsValid;
}

next-HasValidBuffer :
    (s : Surroundings) (c : SmartClient)
    → HasValidBuffer c
    → HasValidBuffer (play_next s c) × HasValidBuffer (stream_next s c).1
unfolding play_next stream_next
next-HasValidBuffer s c h =
    let (o, m) = get_next_chunk_for_playback s.now s.unlink c.buffer_manager in
    taken-HasValidBuffer s o m c
      (get_next_chunk_for_playback-IsValid s.now s.unlink c.buffer_manager h.buffer_IsValid)

choice-HasValidBuffer :
    (playing ready : Bool) (next : Streamed × SmartClient) (c : SmartClient)
    → HasValidBuffer c
    → HasValidBuffer next.1
    → HasValidBuffer
        (if not playing then (returned none, c) else if ready then next else (waiting, c)).1
choice-HasValidBuffer false ready next c h k = h
choice-HasValidBuffer true false next c h k = h
choice-HasValidBuffer true true next c h k = k

stream_turn-HasValidBuffer :
    (s : Surroundings) (c : SmartClient) → HasValidBuffer c → HasValidBuffer (stream_turn s c).1
unfolding stream_turn
stream_turn-HasValidBuffer s c h =
    choice-HasValidBuffer c.playing (may_play c.buffer_manager) (stream_next s c) c h
      (next-HasValidBuffer s c h).1

Turn-HasValidBuffer : {c d : SmartClient} → Turn c d → HasValidBuffer c → HasValidBuffer d
unfolding download_turn playback_turn stream_turn start_stream stop_first stop
Turn-HasValidBuffer (downloads {c} s) h =
    if-HasValidBuffer (will_refill c) (refilled s c) c (refilled-HasValidBuffer s c h) h
Turn-HasValidBuffer (plays {c} s) h =
    if-HasValidBuffer (c.playing && may_play c.buffer_manager) (play_next s c) c
      (next-HasValidBuffer s c h).0 h
Turn-HasValidBuffer (streams {c} s) h = stream_turn-HasValidBuffer s c h
Turn-HasValidBuffer (starts {c} s video_id reply) h =
    let manifest = fetch_manifest true reply in
    start_with-HasValidBuffer (get_all_storage_nodes manifest)
      (with_manifest video_id manifest (stop_first s c))
      (record {
        buffer_IsValid =
            (if-HasValidBuffer c.playing _ c
              (record { buffer_IsValid = reset-IsValid s.unlink c.buffer_manager })
              h).buffer_IsValid;
      })
Turn-HasValidBuffer (stops {c} s) h = record {
  buffer_IsValid = reset-IsValid s.unlink c.buffer_manager;
}

-- Whatever turns the client's loops take, in any order and with whatever surroundings, a buffer that is
-- valid at first stays so.
pub Turns-HasValidBuffer : {c d : SmartClient} → Turns c d → HasValidBuffer c → HasValidBuffer d
Turns-HasValidBuffer none_yet h = h
Turns-HasValidBuffer (one_more run turn) h = Turn-HasValidBuffer turn (Turns-HasValidBuffer run h)
