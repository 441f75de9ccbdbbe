-- ===== src/Lib.antt =====
-- A model of map_reduce_rpc, a map-reduce system of processes that talk by RPC: a coordinator
-- takes downloads into a durable log, uploads the complete ones to a distributed file system and
-- asks a master to process them; the master cuts a file into chunks, gives them to workers and
-- collates their results; a worker maps a chunk, partitions the pairs and reduces them.
--
-- - RingBuffer: mrp/ringbuffer.go. `push_step` and `pop_step` are the atomic actions of `Push` and
--   `Pop` with their loads, compare-and-swap and wrapped sequence numbers; `push`, `pop` and
--   `drain` run them alone, as `DurableBuffer` does under its mutex. Five actions bound a call
--   that runs alone; that it returns is shown. Threads runs any number of calls at once: a
--   schedule says which thread takes the next action, and the bound of 2 ^ 62 actions keeps the
--   counters below their wrap-around.
-- - Utils: mrp/utils.go. The generic helpers on slices (Utils/Slices) and maps (Utils/Maps),
--   `Ihash` (Utils/Hash) and `envOrDefault` (Utils/Env). A map is an association list without
--   double keys.
-- - Durable: mrp/durable_buffer.go. Types and Buffer have the state, the constructor,
--   `GenerateHandle` and `isHandleExpired`; Codec the records of a .dlog file byte by byte with
--   both readers (`Replay`, and `decodeDlogFileContent` of mrp/coordinator.go); Names the names of
--   these files with `fmt.Sscanf`; Disk the directory and the faults of the operating system;
--   Write `Write`; Sync `Flush`; Registry the completed, uploaded and dispatched handles with
--   uploaded_handles.dat; Recovery `Replay` and the start of `monitor`; Retention its periodic
--   work and `Close`. The loops of the readers run on the length of the file as fuel, which is
--   enough since a record has more than one byte.
-- - Rpc: the messages of mrp/rpc_definitions.go and mrp/types.go that the modelled calls exchange.
-- - Listener: mrp/rpc_listener.go. A listener with its socket, channel and wait group; accepting
--   and serving are steps, and `Close` waits for the goroutines that are counted.
-- - Worker: mrp/worker.go. Life has `NewWorker`, `Start` with the loading of a plugin, and
--   `Close`; Task a task from the cleanup of old files to the submission of its result, with every
--   fault of the file system and the network; Chunk is `readChunkData`; Reduce has
--   `arrangeImmediate`, the default map and reduce functions and the reduce loop; Pipeline is
--   `runMapReducePipeline`, for every order in which the partitions arrive.
-- - Master: mrp/master.go. State has the fields, `parseWorkerAddresses`, `Heartbeat` and
--   `getWorkersForPlugin`; Plan `fetchFileMetadataFromDFS`; Dispatch `RPCStartMapReduce`; Submit
--   `RPCSubmitMapReduceResult`, `notifyCoordinator` and `RPCGetJobResult`, with all submissions of
--   a job in Submit/Job; Life `NewMaster`, `Start` and `Close`.
-- - Coordinator: mrp/coordinator.go. Calls has the RPC calls, Upload `uploadFileToStorage`, Poll
--   `startMapReduce` and the tick of the polling loop, Life `NewCoordinator`, `Start` and `Close`
--   with the downloads that come while it runs.
-- - Plugins: the map and reduce functions under plugins/, one module for each; Timing those of
--   mtiming and rtiming.
-- - Uploader: cmd/uploader/main.go. Which files of a folder are uploaded, and how one is sent to
--   the calls of the coordinator.
-- - Tests: a run of every theorem of the list below on concrete data.
--
-- An `int64` or `uint64` is its bit pattern below 2 ^ 64 with the wrap-around written out
-- (Prelude/Words); a text is the list of its bytes. Where a call could fail to return or run out
-- of fuel its model answers `none`, and the theorems show that it does not. A `Close` also answers
-- `none` when it waits for goroutines of which not all end; how many end is a parameter.
--
-- Parameters are what the program calls and does not contain: the client of the distributed file
-- system, the answers of the operating system and of the other processes, encoding/json, the
-- clock, `float64`, and how `sort.Slice` orders equal keys.
--
-- Not modelled: the texts of log lines and of messages to a person, the goroutines that only log
-- errors of a listener, the time that a call sleeps, texts outside ASCII in the functions of
-- package strings, main.go (flags, and one of the three processes run until a signal), and the
-- dashboard (dashboard/): its API simulates figures that nothing else reads, and is otherwise a
-- client of the calls that are modelled here. Calls of the master, and calls of the durable log,
-- run one after the other; two of them at the same time are not modelled.
pub mod Prelude
pub mod RingBuffer
pub mod Utils
pub mod Durable
pub mod Rpc
pub mod Listener
pub mod Worker
pub mod Master
pub mod Coordinator
pub mod Plugins
pub mod Uploader
pub mod Tests
