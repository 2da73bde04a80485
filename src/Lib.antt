-- ===== src/Lib.antt =====
-- The job queue Cue: a model in antt of the state machine that each node keeps, and of the storage
-- of its Raft log.
--
-- A topic has a partition (internal/state/partition.go), which the topic manager
-- (internal/state/topic_manager.go) spawns and kills. Commands that the cluster has committed are
-- decoded (internal/model/command.go) by the agent (internal/cluster/agent_raft_bridge.go) and come
-- through the handler (internal/state/handler.go), by the router of channels
-- (internal/state/router.go), to the partition. There `handleAddJobs` stores new jobs in the job
-- store (job_store.go) and puts references to them into the process queue (process_queue.go);
-- `dispatch`, on the leader, sends due jobs to a proxy that the proxy map (proxy_map.go) picks, and
-- moves jobs without retries left into the buffer of dead letters (dlq.go), whose flush proposes a
-- drop command; `handleDone` and `handleDrop` act on the store. The log itself, with the index of
-- jobs that decides what compaction may drop, is internal/cluster/raft_storage.go; its committed
-- entries go to the segmented write-ahead log, internal/cluster/raft_segment.go, encoded by
-- internal/cluster/helper.go. Jobs that a committed command drops are written to files by
-- internal/cluster/dlq.go.
--
-- The files: Base holds the shared helpers; Model the data of internal/model, Codec the encoding of
-- commands, Bridge the agent's side of the log, Config the checks of internal/config.go, Peers the
-- identities and peers of internal/model/model.go; Queue, Store, Proxies, Dlq, DlqFiles, Partition,
-- Topics, Storage and Wal each the definitions of one part, and their child modules the proofs
-- (Wal/Startup and Wal/Reading also define what starts and reads the write-ahead log). A function
-- of the source keeps its name in snake case (`RemoveCells` is `remove_cells`); where its body is
-- cut into steps, the comment above each step says which.
--
-- Conventions: state is passed explicitly. Go's `int` and `int64`, and the indices of the log, do
-- not wrap around; the conversions to `uint32` are written out. `Run` marks a panic: an index out
-- of range, a nil pointer, a closed channel closed again, or an explicit call. Go maps are
-- association lists, and a statement for all of them covers every order in which `range` may visit
-- a map. The clock, the status of the node and the room in channels come from an `Env`, which
-- stands still while one handler runs. Loops are structural recursion on the list they read;
-- `next_from`, `delete_tail`, `entries_from` and `await_channel` recurse on the number of rounds
-- that the Go loop has, so that no fuel is invented. The loops over a file of the write-ahead log
-- recurse on fuel, one more than the bytes of the file: a round goes at least a byte on, but for a
-- header of size 0, with which the Go loop of `scanLastIndex` stays where it is. That is the one
-- case in which the fuel runs out, as `panics`.
--
-- Not modelled: metrics, logging, pools of slices, sleeps and tickers, failures of the file operations
-- of the write-ahead log, the file of the snapshot (what the storage hands to it is a result of its
-- operation), the arrays that buffers of dead letters share with the batch of a writer, the ready loop of
-- Raft, the network, the HTTP interface and the gateway. `msgpack` and `proto` are
-- parameters where the code calls them.
pub mod Base
pub mod Model
pub mod Codec
pub mod Queue
pub mod Store
pub mod Proxies
pub mod Dlq
pub mod DlqFiles
pub mod Partition
pub mod Storage
pub mod Wal
pub mod Topics
pub mod Bridge
pub mod Config
pub mod Peers
