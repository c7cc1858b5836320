-- ===== src/Lib.antt =====
-- V-Stack, a distributed video store: an uploader cuts a video into chunks and sends each to several
-- storage nodes, the metadata service agrees with the nodes on the placement of each chunk and keeps
-- it in a database, and a client downloads chunks from the nodes into a playback buffer.
--
-- The parts, and the files that model them:
--   Prelude        names of the libraries, tests on numbers, lists, options, dicts, tables of rows and
--                  what ORDER BY makes of them
--   Client.Buffer  client/buffer_manager.py, `BufferManager`. The state is the record of the same
--                  name; add_chunk, get_next_chunk_for_playback, record_buffer_level, reset and the
--                  queries are functions of theirs. A temporary file and its removal are what the
--                  call is told about them. Order, Invariant, Addition, Found, Playback and Requests hold
--                  the proofs; a run of the buffer is a list of calls, and what the client may do with it
--                  a step relation.
--   Client.Scheduler
--                  client/scheduler.py, `ChunkScheduler`: selection of a node, retries and failover,
--                  one download at a time. What the nodes reply and how the network monitor ranks
--                  them are an argument, `Network`. The while loop runs on fuel, one unit for each
--                  replica, which is enough as each iteration attempts a replica not attempted before
--                  (Failover/Termination). Sources shows what the bytes of a download are.
--   Client.NetworkMonitor
--                  client/network_monitor.py, `NetworkMonitor`: the histories of each node, the pings
--                  and the test for health
--   Client.Player  client/main.py, `SmartClient`: the manifest, the sequence numbers, and one turn of
--                  the download loop, of the playback loop and of the stream, on the buffer and the
--                  scheduler above. The workers of download_chunks_parallel deliver the chunks of a
--                  turn one after another. A run of the client is a sequence of turns.
--   Metadata.Tables, Metadata.Connection
--                  the schema of metadata-service/database.py and its shared connection. A method is
--                  an action of a state monad on working rows, durable rows and a list that says
--                  which statements and commits to come raise; `except Exception` is `or_else`.
--   Metadata.Database
--                  `DatabaseManager` of metadata-service/database.py
--   Metadata.Manifest
--                  its `get_video_manifest`, read from the rows that a proposal leaves
--   Metadata.Consensus
--                  `ChunkPaxos` of metadata-service/consensus.py, on the same connection. The replies
--                  of the storage nodes and the clock are an argument, `Nodes`, and the theorems hold
--                  for all of them. The three attempts are recursion on the attempts that are left.
--                  Replies describes what a reply means apart from the code's tests of it.
--   Metadata.HealthMonitor
--                  `HealthMonitor` of metadata-service/health_monitor.py: a pass of the monitor over
--                  the nodes, the registration of unknown nodes and the summary, on the same tables.
--                  RowAfter describes field by field what a pass should make of a row.
--   Metadata.Erasure
--                  `ErasureCoder` of metadata-service/erasure_coding.py. The codec of the package
--                  reedsolo is a section parameter, and Codec says what is assumed of it: that a
--                  code word is what was encoded and its parity, and that as many erased bytes as
--                  there are parity bytes are corrected.
--   Metadata.Redundancy
--                  `RedundancyManager` and `RedundancyPolicy` of
--                  metadata-service/redundancy_manager.py
--   Uploader.Coordinator
--                  uploader/upload_coordinator.py, `UploadCoordinator`: the upload of one chunk, of
--                  all chunks, and the end of an upload. What the servers answer is an argument.
--   Uploader.Sessions
--                  uploader/main.py: the sessions and the background task of an upload. What each of
--                  its steps comes to, an exception included, is an argument.
--
-- Numbers are natural numbers; Python's are unbounded, and the sizes, counts and times in question
-- are not negative. Times are whole: of seconds in the database, as CURRENT_TIMESTAMP writes them, of
-- milliseconds in ballots. The low 16 bits of a ballot are written out as a remainder. Every function
-- is total: loops run over lists, over a fixed number of attempts, or on fuel as said above.
--
-- Not modelled: floating-point figures such as storage costs, node scores and statistics; checksums;
-- log lines; the event loop and its waits (a turn of a loop is a function, and what runs together is
-- taken one after another); the endpoints of the metadata service and of the uploader with the web
-- framework; list_videos of the database; ffmpeg; the storage node (a service in Go); configuration,
-- the demonstrations, scripts, dashboards and tests.
pub mod Prelude
pub mod Client
pub mod Metadata
pub mod Uploader
