-- ===== src/Lib.antt =====
-- bqcubbit exports BigQuery tables to Parquet files in an S3 bucket. A scheduler starts runs, a
-- coordinator makes tasks of a run in a state store, workers claim the tasks and export them, and
-- a manifest beside the files lists what was exported.
--
-- Base: Booleans, text as lists of codes, lists, and SQL tables as lists of rows.
--
-- Schema is internal/schema/schema.go: `Fields` is []BQField as a forest, `sort_fields_copy`,
-- `canonical_bytes` and `canonical_hash` are sortFieldsCopy, canonicalBytes and CanonicalHash,
-- `diff_fields` is diffFields, `classify_changes` and `is_type_widening` are classifyChanges and
-- isTypeWidening, `diff` is Diff. SHA-256 is a parameter. sort.Slice may reorder fields of one
-- name; here they keep their order. The recursion of diffFields has a bound on the nesting, the
-- size of the old list, which Schema/Diff/Fuel.antt shows to be enough.
--
-- State is internal/state/store.go and internal/state/sqlite.go: the records, and for each method
-- of SQLiteStore a function from the store to its result and the store after it. A statement of
-- SQL is an operation on the list of rows in the order of the row ids, and each method is one
-- transaction. Times are whole seconds, as datetime() of SQLite has them, and a comparison of
-- time texts is that of the times; but what datetime() makes of the text that the driver stores
-- for a job lock's time is an argument, `Datetime`, which may be NULL. The counters of the
-- database are natural numbers and do not overflow. The strings of the state columns are
-- enumerations of the values that the program writes. Errors of the driver are not modelled, only
-- those that the code or the constraints of the tables make.
--
-- Hash is internal/hash/reader.go: the reader that hashes what it passes on, over a reader and a
-- hash that are parameters. Its total is an int64, here kept modulo 2 ^ 64.
--
-- Parquet is internal/parquet/writer.go: WriteStream and WriteStreamResult over the calls of the
-- Arrow and Parquet libraries, which are a parameter; a writer's outcome is its result and the
-- bytes that it wrote.
--
-- Manifest is internal/manifest/manifest.go: the record, AddFile and Merge, with the counters and
-- sizes as the 64 bits of an int64, which wrap around. Its JSON is that of
-- encoding/json; where a manifest is written or read, it is an argument.
--
-- Storage is internal/storage/cubbit.go: the client of the bucket over a record of the calls of
-- the S3 SDK, which is a parameter. CopySource is handed on as its text, which S3 decodes, and a
-- deletion that succeeds reports the keys that it could not delete. A listing gives its pages as of
-- its start. A body is the
-- bytes that it still gives and how it ends. The loop of UploadMultipart runs on fuel, one more
-- round than the body has bytes, which Storage/Multipart/Ends.antt shows to be enough. The part
-- size is an argument; the program's is 16 MiB.
--
-- Config is internal/config/config.go; what the environment, the file system and the YAML library
-- answer are arguments of `load`.
--
-- BigQuery is internal/bigquery: the reader over the responses of a stream of the Storage API,
-- the export of a partition through Cloud Storage, and the check of late data. The clients are
-- parameters.
--
-- Sync is internal/sync. Sync/Keys has the keys of the objects, Sync/Orchestrator what the
-- orchestrator and the executor work with: a `World` is a bucket and a database. Sync/Discover is
-- partitions.go, Sync/Groups and Sync/Batches are groupByTable and groupIntoBatches, Sync/Export
-- is exportBatch, Sync/Table is syncTable, Sync/All is SyncAll, Sync/Full is SyncTable,
-- Sync/Manifests is mergeManifest, Sync/Executor is executor.go, and Sync/Errors is errors.go.
-- Dates are numbers of days; the loop of groupIntoBatches runs on fuel, two rounds more than the
-- days that are left, and each round moves on by a day at least. The goroutine that writes a
-- Parquet file and the upload that reads it meet in a pipe, which hands its bytes on: `piped` is
-- what the reader gets, and `put_broken` what an upload leaves behind whose body breaks off. The
-- clock gives one value, `Now`, to each call. The order of a loop over a Go map is an argument,
-- `order`.
--
-- Worker is internal/worker: runOnce and the heartbeat over a store given by a record of
-- operations with what they promise, which Worker/Sqlite.antt fills with the SQLite store; Start
-- and Stop of a worker as a step relation in Worker/Life.antt; and the growth of the pool. The
-- executor is an argument; what others do to the store between two ticks of a heartbeat is a
-- function on it.
--
-- Coordinator is internal/coordinator/coordinator.go: RunOnce with the pool as an argument, and
-- waitForCompletion over the stores that its ticks see. A call of the store whose context is done
-- fails and does nothing, as database/sql documents.
--
-- Scheduler is runSync of internal/scheduler/scheduler.go with RunOnce and Cancel as arguments, and
-- whether the context of the firing is done when the lock is asked for and when it is released.
--
-- Rate is internal/rate/limiter.go over the Wait of a limiter. Verify is internal/verify over the
-- answer of its query. Webui is the log buffer of internal/webui/handler.go, whose operations
-- hold its lock, and the data that the pages are made of. Cmd is cmd/bqcubbit/main.go: the
-- commands, runSync and runAckSchemaChange; what the goroutine that cleans up the staging area
-- does to the bucket is an argument.
--
-- Not modelled: runServe, which makes the parts, starts servers and waits for a signal; the
-- routes, templates and the HTTP server of the web interface; internal/metrics, which only
-- declares counters; the goroutines of the pool and of the cron library; and the clients of
-- BigQuery, Cloud Storage and S3, Arrow, Parquet, SHA-256, cron and YAML, which are parameters.
-- Where an interleaving matters, what other goroutines do is an argument.
pub mod Base
pub mod BigQuery
pub mod Cmd
pub mod Config
pub mod Schema
pub mod State
pub mod Hash
pub mod Manifest
pub mod Storage
pub mod Sync
pub mod Parquet
pub mod Rate
pub mod Scheduler
pub mod Coordinator
pub mod Verify
pub mod Webui
pub mod Worker
