-- ===== src/Compaction/Executor.antt =====
-- src/storage/src/compaction/executor.rs: one compaction task, its memory and its marks.
-- The query engine and the Parquet writer are an interface. A task runs without interleaving, but
-- from any state, so from any that other tasks leave.
pub mod Accounting
use horaedb.Prelude.{
  ℕ, ◌+◌, ◌-◌, ◌%◌, ◌^◌, Bool, true, false, not, Option, none, some, List, [], ◌∷◌, ◌++◌, map, leb,
  ◌&&◌, if◌then◌else◌,
}
use horaedb.Prelude.Result.{
  Error, Result, ok, err, panic, ensure, assert, memory_too_high, store_failed,
}
use horaedb.Prelude.Exec.{Exec, pure, lift, gets, attempt, modify, ◌>>=◌, ◌>>◌}
use horaedb.Types.{TimeRange, merge}
use horaedb.Sst.{FileId, FileMeta, SstFile, Marks, is_compaction, unmark_compaction, allocate_id}
use horaedb.Compaction.{Task, input_size}
use horaedb.Manifest.{Manifest, update}
use horaedb.Manifest.Encoding.{ManifestUpdate}
use horaedb.Manifest.Env.{Env, StorePath, data_path}

-- `T` is the channel that asks the picker for more.
pub record Engine (S T : Type 0) : Type 0 where
  -- `build_df_plan` and `execute_stream` on the input files
  pub open_stream : List SstFile → S → Bool × S
  -- writes all batches to the new file, and returns their number of rows
  pub write_rows : FileId → S → Option ℕ × S
  -- the size of the new object
  pub head : FileId → S → Option ℕ × S
  pub try_trigger : T → T

pub record Executor (S Q T : Type 0) : Type 0 where
  pub manifest : Manifest S Q
  pub marks : Marks
  pub next_file_id : ℕ
  pub inused_memory : ℕ
  pub mem_limit : ℕ
  pub trigger_tx : T

unfoldable pub all_marked : Marks → List SstFile → Bool
all_marked marks [] = true
all_marked marks (f ∷ fs) =
    let rest = all_marked marks fs in if is_compaction marks f then rest else false

unfoldable pub unmark_all : List SstFile → Marks → Marks
unmark_all [] marks = marks
unmark_all (f ∷ fs) marks = unmark_all fs (unmark_compaction f marks)

abbrev pub is_nonempty : List SstFile → Bool
is_nonempty [] = false
is_nonempty (f ∷ fs) = true

unfoldable pub merge_ranges : TimeRange → List SstFile → TimeRange
merge_ranges time_range [] = time_range
merge_ranges time_range (f ∷ fs) = merge_ranges (merge time_range f.meta.time_range) fs

-- `inputs[0]`, then the others.
unfoldable pub covering_range : List SstFile → Result TimeRange
unfolding merge_ranges
covering_range [] = panic
covering_range (f ∷ fs) = ok (merge_ranges f.meta.time_range fs)

abbrev pub some_or_fail : {A : Type 0} → Option A → Result A
some_or_fail none = err store_failed
some_or_fail (some a) = ok a

abbrev pub file_ids : List SstFile → List FileId
file_ids = map (λ f. f.id)

module _ {S Q T : Type 0} ⦃env : Env S Q⦄ ⦃engine : Engine S T⦄ where
  abbrev pub on_store : {A : Type 0} → (S → A × S) → Exec (Executor S Q T) A
  on_store call x =
      let (a, store) = call x.manifest.store in
      (ok a, record x { manifest = record x.manifest { store = store } })

  abbrev pub on_manifest : {A : Type 0} → Exec (Manifest S Q) A → Exec (Executor S Q T) A
  on_manifest method x = let (r, m) = method x.manifest in (r, record x { manifest = m })

  unfoldable pub pre_check : Task → Exec (Executor S Q T) (Unit {0})
  unfolding all_marked
  pre_check task = do
    lift (assert (is_nonempty task.inputs))
    marks ← gets (λ x. x.marks)
    lift (assert (all_marked marks task.inputs))
    lift (assert (all_marked marks task.expireds))
    x ← gets (λ x. x)
    let task_size = input_size task
    lift (ensure (leb ((x.inused_memory + task_size) % 2 ^ 64) x.mem_limit) memory_too_high)
    modify (λ y. record y { inused_memory = (y.inused_memory + task_size) % 2 ^ 64 })

  unfoldable pub release_memory : Task → Exec (Executor S Q T) (Unit {0})
  release_memory task =
      modify λ x. record x { inused_memory = (x.inused_memory + 2 ^ 64 - input_size task) % 2 ^ 64 }

  unfoldable pub on_success : Task → Exec (Executor S Q T) (Unit {0})
  unfolding release_memory
  on_success task = release_memory task

  unfoldable pub on_failure : Task → Exec (Executor S Q T) (Unit {0})
  unfolding release_memory unmark_all
  on_failure task = do
    release_memory task
    modify (λ x. record x { marks = unmark_all task.expireds (unmark_all task.inputs x.marks) })

  unfoldable pub trigger_more_task : Exec (Executor S Q T) (Unit {0})
  trigger_more_task = modify λ x. record x { trigger_tx = engine.try_trigger x.trigger_tx }

  unfoldable pub new_file_id : Exec (Executor S Q T) FileId
  unfolding allocate_id
  new_file_id x =
      let (id, next) = allocate_id x.next_file_id in (ok id, record x { next_file_id = next })

  -- A failed deletion is only logged.
  unfoldable pub delete_ssts : List FileId → Exec (Executor S Q T) (Unit {0})
  delete_ssts [] = pure tt
  delete_ssts (id ∷ ids) = do on_store (env.delete (data_path id)); delete_ssts ids

  -- `do_compaction` behind the check.
  unfoldable pub compact_checked : Task → Exec (Executor S Q T) (Unit {0})
  unfolding trigger_more_task covering_range new_file_id delete_ssts
  compact_checked task = do
    trigger_more_task
    time_range ← lift (covering_range task.inputs)
    opened ← on_store (engine.open_stream task.inputs)
    lift (ensure opened store_failed)
    file_id ← new_file_id
    rows ← on_store (engine.write_rows file_id)
    num_rows ← lift (some_or_fail rows)
    size ← on_store (engine.head file_id)
    object_size ← lift (some_or_fail size)
    let file_meta : FileMeta = record {
      max_sequence = file_id;
      num_rows = num_rows % 2 ^ 32;
      size = object_size % 2 ^ 32;
      time_range = time_range;
    }
    let to_deletes = file_ids task.expireds ++ file_ids task.inputs
    on_manifest (
        update (record {
          to_adds = record { id = file_id; meta = file_meta } ∷ [];
          to_deletes = to_deletes;
        }))
    delete_ssts to_deletes

  unfoldable pub do_compaction : Task → Exec (Executor S Q T) (Unit {0})
  do_compaction task = do pre_check task; compact_checked task

  -- After a panic neither handler runs.
  abbrev pub settle : Task → Result (Unit {0}) → Exec (Executor S Q T) (Unit {0})
  settle task (ok u) = on_success task
  settle task (err e) = on_failure task
  settle task panic = lift panic

  -- `Runnable::spawn`
  unfoldable pub run_task : Task → Exec (Executor S Q T) (Unit {0})
  run_task task = do res ← attempt (do_compaction task); settle task res
