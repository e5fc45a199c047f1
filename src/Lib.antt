-- ===== src/Lib.antt =====
-- ScrivaDB: a document store that keeps each collection in append-only NDJSON segment files.
--
-- A write encodes an entry as one line (store/ndjson.go), appends it to the active segment
-- (engine/segment.go), syncs, and puts the record's place into the primary index (engine/index.go);
-- engine/collection.go composes the steps, with the fence of engine/fence.go, the quotas of
-- engine/quota.go, the clock of engine/ttl.go and the string keys of engine/keys.go. Transactions
-- over several collections are decided by a journal and recovered by a truth table
-- (internal/xtxspec).
--
-- The files:
--   Prelude: tests, lists over native numbers, maps as association lists.
--   Store: Entry, checksum, Encode, Decode. JSON and CRC32C are the record Codec.
--   Segment: a segment with its file's bytes in the record; Append, rollback, Seal, Sync, the torn
--     tail's recovery, the scans; ReadAt is in Segment/Reading.
--   Index: the index entries, the fast count, the replay of entries, Rebuild, sortSegments.
--   Collection: the state of a collection and its environment. Collection/Commit has the steps of a
--     write and rotateSegment, Collection/Writes Insert, Update and Delete, Collection/Keys the keyed
--     operations and compareAndSwap, Collection/Reads Get and the lookups, Collection/Batch CommitTx
--     with its rollback, Collection/Reaping reapExpired of engine/ttl.go. The secondary indexes are
--     the interface Secondary.
--   SecondaryIndex: engine/secondary_index.go. SecondaryIndex/Rebuild has the range lookups, the
--     rebuild and the replay, SecondaryIndex/Table the indexes of a collection by field, which is the
--     implementation of Secondary.
--   Query: query/filter.go, the filters and the comparison that filters, sorts and indexes share.
--   Auth: internal/auth/policy.go; Auth/Keys is apikey.go with its interceptor, Auth/Follower
--     server/readonly.go.
--   Handles: engine/txmanager.go, server/handle_owner.go and the transaction handlers of
--     server/grpc.go.
--   Xtx/Coordinator, Xtx/Prepare, Xtx/Discovery: the engine's side of transactions over several
--     collections. Coordinator is the decision table of engine/xtx_journal.go,
--     Coordinator/Validation its digests, record tests and load, Coordinator/Deciding its appends;
--     Prepare is engine/xtx_prepare.go with AppendStamped; Discovery is the evidence and the decision
--     of engine/xtx_recovery.go; CrashSafety composes the three.
--   Xtx: Xtx/Journal folds journal records into decisions, Xtx/Recovery is Resolve and EntryVisible.
--   Scenarios: concrete inputs.
--
-- State is passed on explicitly. An operation of a collection runs under its write lock, so it is one
-- step; what the clock and the disk do is an argument (Io, BatchIo, ReapIo, Write, Rotation). A byte
-- is a number. Counters of 64 bits are natural numbers: they count ids, bytes and nanoseconds and are not taken to
-- wrap. The backward search for a line feed runs on fuel, the file's length, which is enough since
-- each round moves back by 512 bytes: Segment/TornTail works with that fuel. The binary search of a
-- sorted view runs on fuel, the view's length.
--
-- In the engine's side of transactions a file is the list of its whole lines with the number of those
-- that were flushed. A failed write may leave its whole line when the truncation fails too; the part of
-- a line that it may leave instead does not count, a size counts lines, and a crash keeps any that are no fewer than the flushed ones. SHA-256 and the hexadecimal code are the record
-- Hash. The segments of a collection are one list of lines.
--
-- Not modelled: encryption, the bytes of stamped lines and of journal lines, the journal's retirement and
-- checkpoint, the locks and checks of a commit over several collections and its handles, the persisted
-- indexes and their coverage, compaction, InsertMany and the atomic route of a batch, scans and
-- aggregates, the database's file handling, replication's transport, the other handlers of the server
-- and the clients.
pub mod Auth
pub mod Collection
pub mod Handles
pub mod Index
pub mod Prelude
pub mod Query
pub mod Scenarios
pub mod SecondaryIndex
pub mod Segment
pub mod Store
pub mod Xtx
