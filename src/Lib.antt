-- ===== src/Lib.antt =====
-- A model of embedspicedb, an embedded SpiceDB server with an in-memory datastore.
--
-- The program's parts. A server (config.go, server.go, health.go) is made from a configuration and
-- owns a datastore. The in-memory datastore (internal/datastore/memdb) keeps rows of relationships
-- in tables, a list of revisions with their snapshots, and a changelog that each read-write
-- transaction builds with the change tracker (internal/datastore/common/changes.go). Revisions and
-- their texts, caches and windows are those of internal/datastore/revisions. Bytes that are larger
-- than a row are kept in chunks (internal/datastore/common/chunkbytes.go). Datastores on SQL share
-- the building of queries (sql.go) and the garbage collection (gc.go) of the same directory.
--
-- The files. Common: Go's integers, strings, maps, sorting, number parsing and (value, error)
-- results. Revisions: hlcrevision.go (Hlc), timestamprevision.go (Timestamp), txidrevision.go
-- (TransactionId), commonrevision.go (Decoder), optimized.go (Optimized: the candidates and
-- OptimizedRevision) and remoteclock.go (RemoteClock). Changes: changes.go, with the methods that
-- add in Tracking and those that read out in Output; Sequences has the calls as a sequence of
-- steps, LastWrite and Drain compare the tracker with simple accounts. Memdb: schema.go (rows),
-- Memdb/Filter: the row tests of readonly.go, Memdb/Table: the interface of the table of
-- relationships, Memdb/Write: write of readwrite.go, Memdb/Delete: the deletion by filter,
-- Memdb/Query: the queries and iterators of readonly.go, Memdb/Datastore: memdb.go and
-- revisions.go, where an operation is one step on the state MemdbDatastore; a read-write transaction
-- holds the lock three times, and what other calls do in between is an argument. Sql: the queries of
-- relationships that sql.go of internal/datastore/common builds, with the filters in Filters, the
-- cursor in Cursor, the columns in Columns and ExecuteQuery in Execute; Meaning says what the
-- conditions mean. Gc: gc.go, a run and the worker that repeats it. Chunks: chunkbytes.go, the
-- executor being a record of operations. Server/Config: config.go with New and createDatastore,
-- Server/Lifecycle: the rest of server.go, with its calls as steps, Server/Health: HealthCheck.
-- Samples: concrete inputs.
--
-- State is passed explicitly: an operation takes the state and gives the new one, beside the error
-- that it returns, because a failed method keeps what it had written. Durations and times are int64
-- nanoseconds with their wrap-around. What comes from elsewhere is a parameter: protobuf messages
-- and their conversions, go-memdb's tables, sort.Search, the meaning of SQL conditions and
-- patterns, the backoff, the SQL executor, package strings and net, the clock and random draws; the
-- laws that a theorem needs of them are records among its hypotheses. Loops are recursion on lists;
-- the dial has its ten attempts; the loop that cuts bytes into chunks has the number of bytes as
-- fuel, which is enough because a positive size takes at least one byte a turn, and ReadWriteTx has
-- its number of attempts.
--
-- Where a method releases a lock on its way, what other calls do meanwhile is an argument: in
-- ReadWriteTx and FilterAndRemoveRevisionChanges. OptimizedRevision is given the answer of the call
-- that it joins, and no other call comes between its two locks; the two read locks of
-- revisionChanges are one. The sizes of chunks are taken so small that an index does not overflow.
--
-- Not modelled: namespaces, caveats, counters and bulk loading of the in-memory datastore, its
-- watch, the contents of its changelog; of sql.go the text that squirrel makes of a query and the
-- executors, and that copies of a filterer share one map; the scan loop of relationships.go and its
-- caveats, schema reloading and file watching, telemetry, logging and other I/O.
pub mod Common
pub mod Revisions
pub mod Changes
pub mod Memdb
pub mod Server
pub mod Gc
pub mod Sql
pub mod Chunks
pub mod Samples
