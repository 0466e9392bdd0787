-- ===== src/Lib.antt =====
-- VeltrixDB: a verification library for the core of the database's Go code.
--
-- The program is a key-value store. A cluster in raft mode runs one Raft node per server (consensus/):
-- commands and configurations are entries of a replicated log, which a store keeps on disk
-- (consensus/raft_storage.go), and the committed entries are applied to the storage engine (storage/). In
-- the other modes a partition map (cluster/) places keys on the nodes of a ring.
--
-- Raft (consensus/). A node is the record `Node` of Raft/Log.antt, which has the fields of `RaftNode` of
-- raft.go, its store among them; each handler is a function from the node, and from the clock where the
-- code reads it, to the reply and the node. The mutex makes each handler atomic; what a handler does
-- after it has released the mutex is another function. Channels are lists: `outbox` holds what waiters
-- were told, `ae_waiters` the parked replies.
--   Raft/Types.antt       the types of messages, entries and waiters (raft.go, pipeline.go, membership.go)
--   Raft/Store.antt       logStore: enqueue, flush, rewrite, saveMeta, replay (raft_storage.go)
--   Raft/Log.antt         RaftNode and the accessors of its log (raft.go)
--   Raft/Config.antt      Configuration and quorums (membership.go)
--   Raft/Effective.antt   the configuration in effect, refreshConfigFromLog (membership.go)
--   Raft/Role.antt        becomeFollower, becomeLeader, stepDownLocked, persistMetaLocked (raft.go)
--   Raft/Vote.antt        HandleRequestVote, preVote, startElection (raft.go)
--   Raft/Append.antt      appendEntriesLocked, takeDecidedWaitersLocked (pipeline.go)
--   Raft/Commit.antt      flushBatch, syncOnce, markDurableLocked, maybeAdvanceCommit (raft.go, pipeline.go)
--   Raft/Replicate.antt   replicate (pipeline.go)
--   Raft/Replies.antt     onAppendReply (pipeline.go)
--   Raft/Applier.antt     applyCommitted, applyOneRun, applyEntries, finishApplied (raft.go, applied.go)
--   Raft/ReadIndex.antt   ReadIndex, WaitLeaderApplied (read_index.go)
--   Raft/Records.antt     encodeRecords and the bytes that replay reads (raft_storage.go)
--   Raft/Membership.antt  AddMember, RemoveMember, maybePromoteLearnersLocked (membership.go)
--   Raft/Restart.antt     loadState (raft.go)
--   Raft/Events.antt      the events of a node and the votes of a run
-- The other files of Raft/, Storage/ and Cluster/ hold proofs, named for what they prove, and tests. Base.antt and
-- its children have the shared names, lists, words of 64 bits, little-endian numbers and the CRC-32C of
-- Go's hash/crc32.
--
-- Storage (storage/). An int64 is the 64-bit word that represents it (Storage/Int64.antt).
--   Storage/Clock.antt    the Raft clock, expiry and version tokens (raft_clock.go, types.go)
--   Storage/WalRecord.antt  the binary records of the write-ahead log (wal_format.go)
--   Storage/WalReplay.antt  walReader.next, replayWAL (wal_format.go, wal_replay.go)
--   Storage/Marker.antt   the bytes of an applied-index marker (raft_applied.go)
--   Storage/Applied.antt  cutWALAtAppliedMarker, writeAppliedMarker, checkpointCut (raft_applied.go)
--
-- Cluster (cluster/). Texts are their bytes, and Go's maps are lists with one element for each key.
--   Cluster/Types.antt    the partition map, its members and partitions (partition_map.go)
--   Cluster/Hash.antt     hashValue and RoutingKey (partition_map.go)
--   Cluster/Ring.antt     ConsistentHashRing (partition_map.go)
--   Cluster/Placement.antt  pickReplicas, Rebalance, GetNodeForKey (partition_map.go)
--   Cluster/Membership.antt  AddNode, RemoveNode, node states, epochs (partition_map.go, epoch.go)
--   Cluster/Detector.antt  RecordHeartbeat, checkNodeHealth (failure_detection.go)
--   Cluster/Recovery.antt  the recovery worker, promoteRecoveredNodes (failure_detection.go)
--   Cluster/Gossip.antt   buildDigest, mergeDigest (gossip.go)
--
-- Parameters. The gob encoding of a configuration in an entry (encoding/gob) is the parameter `decode`,
-- and `encode` in Raft/Membership.antt; nothing is assumed of them. The state machine that entries are
-- applied to is the parameter `sm` of Raft/Applier.antt; that its ApplyBatch has the effect of Apply for each
-- command in turn, as BatchStateMachine asks, is the hypothesis `BatchIsFold`. Times are nanoseconds in ℕ, and a
-- difference of times that would be negative is 0, where the code compares it with a positive bound.
-- Cluster/Detector.antt compares a time with a sum instead. The probe of a node by the failure detector is the
-- parameter `ping`, of which nothing is assumed.
--
-- Failures of the disk. `MetaWrite` lists the outcomes of the atomic replacement of the meta file: it
-- succeeds, it is lost, or the rename is done and the sync of the directory fails. A flush has the
-- outcomes of its write and of its fsync; `synced` is what a good fsync has covered. `Replacement` lists the
-- outcomes of the replacement of the log file. A crash of a node loses all but the files.
--
-- Waits. `waitQuorumLocked` lets go of the mutex between its looks, so `wait_quorum` has a list of turns, each
-- with its time and the node as it is then, whatever other handlers have made of it. ReadIndex has the order
-- in which the answers of the peers arrive. The promotion of a recovered node by the failure detector is in
-- parts, between which other events come, as it takes its locks one after another.
--
-- Bounds and fuel. Indices and terms are uint64: sums wrap (`add64`), and the theorems that need it say
-- that no index reaches 2 ^ 64. Loops are structural, on the log, the batch or the index, but for these:
-- the loop of `replicate` has one unit of fuel more than the window has room, and each turn fills one
-- place of the window; the loops that replay a log file and a write-ahead log have one unit more than the
-- file has bytes, and each record has bytes; the loop over a run of committed entries has one for each
-- entry; the passes of the applier have two, and the second finds nothing to apply; the binary search of
-- the ring has one for each key.
--
-- Not modelled: the header and the legacy form of the Raft log file, snapshots, the transport, and the
-- appends that come between the write and the fsync of `syncOnce`, a rewrite of the log file that comes
-- during an fsync, one whose rename is done and whose sync of the directory fails, and the bytes of a failed
-- write that cannot be cut off again, after which the store takes no more. The decoder of the text records of the
-- write-ahead log is an argument of the reader. The storage engine's devices, caches and indexes, the
-- transport of gossip, partition transfer, the replication engine, the servers, clients and tools are not:
-- they are I/O, wiring or parts of their own.

pub mod Base
pub mod Raft
pub mod Storage
pub mod Cluster
