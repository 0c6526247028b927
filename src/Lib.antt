-- ===== src/Lib.antt =====
-- The storage engine of HoraeDB: a time-structured merge tree of SST files on an object store.
--
-- Parts, with the files that model them (src/storage/src/... are paths of the repository):
--   * types.rs: `Timestamp` and `TimeRange` (Types.antt; Types/Segment.antt, Types/Range.antt).
--     `StorageSchema` (Schema.antt; Schema/...), with Arrow's schemas and batches as an interface.
--   * sst.rs: `SstFile` with its conversions (Sst.antt; Sst/Convert.antt). The `in_compaction` flag
--     that clones of a file share is a store keyed by the file's id.
--   * src/common/src/size_ext.rs: `ReadableSize` with its printer and its parser (Size.antt, Size/...).
--   * src/common/src/time_ext.rs: `ReadableDuration` with its printer and its parser (Time.antt, Time/...).
--     Texts are lists of code points (Prelude/Chars.antt), the 64-bit floats an interface (Floats.antt).
--   * config.rs: the options of manifest, scheduler and writer (Config.antt).
--   * manifest/encoding.rs: `ManifestUpdate`, and `Snapshot` with its byte format (Manifest/Encoding.antt;
--     Manifest/Encoding/...). `byteorder` is the interface Manifest/Bytes.antt, which
--     Manifest/Bytes/LittleEndian.antt fills.
--   * manifest/mod.rs: `Manifest` (Manifest.antt), the list of files that updates and merges give
--     (Manifest/Merge.antt), and `ManifestMerger` with the start (Manifest/Merger.antt). Object store,
--     protobuf encoding and channel are the interface Manifest/Env.antt. Manifest/Disk.antt says what the
--     calls of the store mean for its objects, a call that fails having no effect: a crash is a store
--     whose later calls all fail. Manifest/Merger/... follow a merge over it (conditions before and
--     after a method are Prelude/Triple.antt).
--   * compaction/picker.rs: `Picker` and its strategy (Compaction/Picker.antt and its children). The
--     unstable sort and the product of floats are the record `Host`.
--   * compaction/executor.rs: `Executor` (Compaction/Executor.antt and its children). Query engine
--     and Parquet writer are the record `Engine`.
--   * compaction/scheduler.rs: the loop that makes tasks (Compaction/Scheduler.antt; Scheduler/Ready.antt has
--     the agreement of picker and executor). The channel of tasks is the record `Channel`. Both loops
--     and the tasks that run are a step relation, in any order (Compaction/Scheduler/System.antt).
--   * operator.rs: `LastValueOperator` (Operator.antt) and `BytesMergeOperator` (Operator/Bytes.antt, over
--     batches as columns).
--   * read.rs: `MergeStream` (Read.antt, Read/Stream.antt), over record batches as sequences of rows
--     (Batches.antt). Read/Key.antt, Read/PrimaryKey.antt and Read/Groups.antt are about its keys
--     and groups, Read/Merge.antt to Read/LastValue.antt about what it puts out. `build_df_plan` of
--     read.rs gives plans as trees (Read/Plan.antt); the calls of `datafusion` are the record `Planner`.
--   * storage.rs: `CloudObjectStorage` with `write` and `scan` (Storage.antt, Storage/Run.antt). The
--     Parquet writer is the record `StorageIo`, the functions of `itertools` are `Grouping`. The
--     properties of the writer, for each column, are Storage/WriteProps.antt and its children.
--   * src/server/src/config.rs: the configuration of the server, with two pieces of main.rs (Server.antt).
--
-- The parts interact as in the code: the picker reads the files that the manifest caches and marks
-- them; the executor checks the marks, writes a new file, and updates the manifest; an update writes
-- a delta file and changes the cache; the merger folds the delta files into the snapshot, which a
-- restart reads. A write checks its segment, writes a file and adds it to the manifest; a scan asks the
-- manifest for files, plans a merge for each segment, and merges the rows of one primary key.
--
-- Stateful methods are functions on the state with a result that is a value, an error or a panic
-- (Prelude/Exec.antt, Prelude/Result.antt). Machine integers are natural numbers or integers with the
-- wrap-around written out; `usize` has 64 bits. The loop that reads the records of a snapshot runs on
-- fuel, one unit for each byte, and each record has 32 bytes. The loops over the rows of a batch run on
-- one unit more than the batch has rows, and a consumer polls a stream once for each poll of its input
-- and twice more. Methods run without interleaving, but the theorems start from any
-- state; the steps of the compaction may come in any order.
--
-- Not modelled: how the library runs a plan, the construction of the storage and of the scheduler, the
-- requests for a compaction by hand, the handlers of the server, the metric engine, whose operations
-- are not written yet, and the benchmarks. Logging has no model. Batches are values, so that only the calls that fail
-- have errors.
pub mod Prelude
pub mod Types
pub mod Config
pub mod Sst
pub mod Floats
pub mod Manifest
pub mod Size
pub mod Time
pub mod Storage
pub mod Schema
pub mod Batches
pub mod Operator
pub mod Read
pub mod Compaction
pub mod Server
pub mod Examples
