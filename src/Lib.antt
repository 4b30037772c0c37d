-- ===== src/Lib.antt =====
-- The core of nuvio-engine, a torrent streaming engine: it takes a torrent, selects a file of it,
-- serves the file over a local HTTP server, and fetches the pieces that the readers need first.
--
-- The parts and how they interact. A player reads the file by HTTP requests with `Range` headers
-- (Http). The byte ranges that readers wait for become demands; the schedulers turn them into an
-- order of pieces (Scheduler). The runtime queues the commands of the C interface, carries them
-- out on a worker thread through the protocol backend, and logs the backend's events for the
-- caller (Core.Runtime); to prepare a stream it selects a file by hint, index or size (Torrent).
-- Verified pieces stay in a cache with a budget of bytes, and the torrents' directories on the disk
-- are evicted by their last use (Cache). State files are replaced whole, and payload files are read
-- by range (Storage). The calls of the C interface check their arguments and ask the runtime
-- (Core.Engine).
--
-- Files and the code that they model (paths from the repository's root):
--   Common          lists, order tests, 64-bit words and equality over the native numbers
--   Text            `std::string_view` operations, `std::from_chars`, `std::to_string`
--   Std             results for exceptions, `std::map`, `std::unordered_map`, `std::stable_sort`
--   Http.ByteRange  src/http/byte_range.cpp: `parse_range_header`, `ByteRange::length`
--   Http.Protocol   src/http/http_protocol.cpp: `parse_http_request_head` (Request),
--                   `build_stream_response` and `build_error_response` (Response)
--   Http.Server     src/http/loopback_server.cpp: `send_all` (Send), `receive_request_head`
--                   (Receive), `handle_connection` (Connection), and `accept_loop`, `worker_loop` and
--                   `stop` as turns at the queue (Connections)
--   Torrent.FileSelection     src/torrent/file_selection.cpp: `select_file`
--   Torrent.StreamBridge      src/torrent/libtorrent_stream_bridge.cpp: its rules, the activity of a
--                             stream, `stream_body`, and `serve_piece` (Piece); the state `Impl`
--                             (State), the table of waiters (Waiters), `recompute_schedule` (Recompute)
--                             with its demands (Demands), priorities (Priorities) and deadlines
--                             (Deadlines), `process_piece_request` and the alerts (Requests), the
--                             queue and `poll` (Poll), streams, torrents and `shutdown` (Streams),
--                             `register_stream` (Registering), `handle_http` and `statistics`
--                             (Handling), `progress_for` (Progress); Kept has the steps of a run
--   Torrent.Backend           src/torrent/libtorrent_backend.cpp: `mark_warm`, `activate_torrent`,
--                             `focus_torrent` and `run_warm_quiescence`; Warmth has the steps of a run
--   Scheduler.PieceSchedule   src/scheduler/piece_scheduler.cpp: `build_piece_schedule`
--   Scheduler.DemandWindow    src/scheduler/piece_scheduler.cpp: `blocking_demand_range`
--   Scheduler.DemandPlan      src/scheduler/stream_demand_plan.cpp: `build_stream_demand_plan`
--   Core.Runtime    src/core/engine_runtime.cpp: `EngineRuntime`, with its worker in Worker and the
--                   copies of the statistics in Stats; the records of
--                   src/torrent/protocol_backend.hpp and include/nuvio_engine/nuvio_engine.h in Types
--   Core.Engine     src/core/engine.cpp: the ids and the sizes of the records, the configuration
--                   and `nuvio_engine_create` (Create), the checks of requests (Requests), the calls on an
--                   engine (Calls)
--   Cache.PieceCache          src/cache/verified_piece_cache.cpp: `VerifiedPieceCache`
--   Cache.DiskCache           src/cache/disk_cache_manager.cpp: `DiskCacheManager`, with the visits of
--                             the directories in Survey and the evictions in Enforce
--   Storage         src/storage/atomic_file.cpp: `write_all` (WriteLoop), `write_file_atomically`
--                   (AtomicFile), `read_bounded_file` (BoundedFile);
--                   src/storage/payload_reader.cpp: `PayloadReader`
--   Tests           runs of the model and the theorems at concrete inputs
--
-- State and operations. A method of `EngineRuntime` is a function from the state before to the state
-- after and a reply. Each method holds the mutex of the members that it changes, so calls from
-- several threads are a sequence of such steps. The backend is a record of operations over a state
-- of its own: nothing is assumed of it, and every call may fail. A loop over system calls is a
-- function of the list of their results, and where a theorem needs it, a hypothesis states what is
-- documented of the call, such as that `write` takes no more than it is given. The threads of the
-- server take turns at its queue under the mutex, and close a connection in a turn of its own: a step
-- relation. Files are a function from paths
-- to contents, and the entries of a directory a list.
--
-- The stream bridge is one record; waiters, demand states and activities are shared objects, so a
-- pointer is a number and the objects are a function on the numbers. The torrent library is a
-- parameter: a record of what it answers during an operation, each call of which may be refused by
-- an exception, and the calls that it has taken are a list. Of a call that sets a piece's priority
-- or deadline only what it asks for is written out; what the library makes of a deadline is its
-- own. Of the calls that the code does not guard, `in_session` and `torrent_file` for a read may
-- throw; the exception then leaves `poll`. The operations run on the backend's thread, one after
-- the other, and each is a step; a worker adds commands and gives up waiting as steps of their own.
--
-- Bounds and fuel. A `std::uint64_t` is a natural number; sums that the code lets wrap are reduced
-- modulo 2^64, and where a theorem needs a bound it names `u64_max` or `u32_max`. Printing has fuel
-- for 20 digits, which is enough for 64 bits; the loop over request headers runs on the 64 headers
-- that the code allows; the worker's loop runs over the list of its rounds' times, and a round more
-- than there are commands is enough once the runtime is stopping. A loop over the results of system
-- calls ends as waiting where they run out; as many calls of `send` that make progress as there are
-- bytes are enough. The sizes of the records of the C interface are those of a 64-bit system.
--
-- Not modelled: the set-up of sockets, the monitor of disconnections and the start of threads,
-- which are calls of the system; the Windows branches; of the backend on the torrent library all
-- but the warm and quiesced torrents, for it mostly calls the library; of the stream bridge the
-- wake-up callback, the counter of delivered bytes, the interval at which the progress is sampled,
-- and the server that it owns; the initializers of the C interface that only clear a record; trust
-- stores and random numbers, the platform bindings.
pub mod Common
pub mod Text
pub mod Http
pub mod Torrent
pub mod Std
pub mod Scheduler
pub mod Core
pub mod Cache
pub mod Storage
pub mod Tests
