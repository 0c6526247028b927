-- ===== src/Storage/Run.antt =====
-- src/storage/src/storage.rs: `write` and `scan` of `CloudObjectStorage`.
use horaedb.Prelude.{◌%◌, ◌^◌, Option, List, [], ◌∷◌, if◌then◌else◌}
use horaedb.Prelude.Result.{ok, ensure, store_failed}
use horaedb.Prelude.Exec.{Exec, pure, lift, ◌>>=◌, ◌>>◌}
use horaedb.Types.{Duration}
use horaedb.Sst.{FileId, FileMeta, allocate_id}
use horaedb.Schema.{StorageSchema, fill_builtin_columns}
use horaedb.Manifest.{Manifest, add_file, find_ssts}
use horaedb.Manifest.Env.{Env}
use horaedb.Read.{some_or_fail}
use horaedb.Read.Plan.{Planner}
use horaedb.Storage.{
  WriteRequest, ScanRequest, WriteResult, Storage, StorageIo, Grouping, check_segment, sort_batch,
  plan_scan, run_plan,
}

module _ {S Q : Type 0} ⦃planner : Planner⦄ ⦃env : Env S Q⦄
    ⦃io : StorageIo S planner.arrow.Batch⦄ where
  abbrev pub on_store : {A : Type 0} → (S → A × S) → Exec (Storage S Q) A
  on_store call x =
      let (a, store) = call x.manifest.store in
      (ok a, record x { manifest = record x.manifest { store = store } })

  abbrev pub on_manifest : {A : Type 0} → Exec (Manifest S Q) A → Exec (Storage S Q) A
  on_manifest method x = let (r, m) = method x.manifest in (r, record x { manifest = m })

  -- The loop over the sorted batches.
  unfoldable pub write_sorted :
      StorageSchema planner.arrow.Field
      → FileId
      → List (Option planner.arrow.Batch)
      → Exec (Storage S Q) (Unit {0})
  write_sorted schema file_id [] = pure tt
  write_sorted schema file_id (res ∷ batches) = do
    batch ← lift (some_or_fail res)
    batch_with_seq ← lift (fill_builtin_columns ⦃arrow = planner.arrow⦄ schema batch file_id)
    written ← on_store (io.write_rows file_id batch_with_seq)
    lift (ensure written store_failed)
    write_sorted schema file_id batches

  -- `write_batch` once the file has its id.
  unfoldable pub write_file :
      StorageSchema planner.arrow.Field
      → planner.arrow.Batch
      → FileId
      → Exec (Storage S Q) WriteResult
  unfolding sort_batch write_sorted
  write_file schema batch file_id = do
    created ← on_store (io.create_writer file_id)
    lift (ensure created store_failed)
    batches ← lift (sort_batch schema batch)
    write_sorted schema file_id batches
    closed ← on_store (io.close file_id)
    lift (ensure closed store_failed)
    size ← on_store (io.head file_id)
    object_size ← lift (some_or_fail size)
    pure (record { id = file_id; seq = file_id; size = object_size })

  unfoldable pub write_batch :
      StorageSchema planner.arrow.Field → planner.arrow.Batch → Exec (Storage S Q) WriteResult
  unfolding write_file allocate_id
  write_batch schema batch x =
      let (id, next) = allocate_id x.next_file_id in
      write_file schema batch id (record x { next_file_id = next })

  -- The file that was written becomes part of the manifest.
  unfoldable pub add_written :
      WriteRequest planner.arrow.Batch → WriteResult → Exec (Storage S Q) (Unit {0})
  add_written req result = do
    let file_meta : FileMeta = record {
      max_sequence = result.seq;
      num_rows = planner.arrow.num_rows req.batch % 2 ^ 32;
      size = result.size % 2 ^ 32;
      time_range = req.time_range;
    }
    on_manifest (add_file result.id file_meta)

  -- `write` behind the check.
  unfoldable pub write_checked :
      StorageSchema planner.arrow.Field
      → WriteRequest planner.arrow.Batch
      → Exec (Storage S Q) (Unit {0})
  unfolding write_batch add_written
  write_checked schema req = do result ← write_batch schema req.batch; add_written req result

  unfoldable pub write :
      StorageSchema planner.arrow.Field
      → Duration
      → WriteRequest planner.arrow.Batch
      → Exec (Storage S Q) (Unit {0})
  unfolding check_segment write_checked
  write schema duration req = do
    lift (
        if req.enable_check
        then check_segment env.debug_assertions duration req.time_range
        else ok tt)
    write_checked schema req

  module _ ⦃grouping : Grouping⦄ where
    unfoldable pub scan :
        StorageSchema planner.arrow.Field
        → Duration
        → ScanRequest planner.Expr
        → Exec (Storage S Q) planner.Stream
    scan schema duration req = do
      total_ssts ← on_manifest (find_ssts req.range)
      plan ← lift (plan_scan schema duration req total_ssts)
      lift (run_plan schema plan)
