-- ===== src/Storage.antt =====
-- src/storage/src/storage.rs: `CloudObjectStorage`: its state, the check of a write and the plans of a
-- scan. Its calls of the store are in Storage/Run.antt. The Parquet writer, `itertools` and `datafusion`
-- are interfaces. The path and the runtimes do not occur; the properties of the writer are in
-- Storage/WriteProps.antt.
pub mod Run
pub mod Segment
pub mod Groups
pub mod Written
pub mod WriteProps
use horaedb.Prelude.{
  ℕ, ◌+◌, ◌-◌, ◌%◌, ◌^◌, ◌≡◌, Bool, true, false, Option, none, some, List, [], ◌∷◌, map,
  if◌then◌else◌,
}
use horaedb.Prelude.Int.{ℤ, pos, ◌-ℤ◌, ◌≤ℤ◌, eqb_ℤ}
use horaedb.Prelude.Result.{Result, ok, panic, ensure, cross_segment, store_failed, ◌>>=◌, ◌>>◌}
use horaedb.Types.{Timestamp, TimeRange, Duration, as_millis, as_i64, i64_min, div_i64}
use horaedb.Sst.{FileId, SstFile}
use horaedb.Schema.{StorageSchema, fill_required_projections}
use horaedb.Manifest.{Manifest}
use horaedb.Read.{some_or_fail}
use horaedb.Read.Runs.{runs}
use mathlib.Core.List.{Permᴰ}
use horaedb.Read.Plan.{
  Planner, PlanOf, ScanPlan, empty_plan, one_plan, union_plan, memory_exec, sort_exec,
  build_sort_exprs, build_df_plan,
}

pub record WriteRequest (B : Type 0) : Type 0 where
  pub batch : B
  pub time_range : TimeRange
  pub enable_check : Bool

pub record ScanRequest (E : Type 0) : Type 0 where
  pub range : TimeRange
  pub predicate : List E
  pub projections : Option (List ℕ)

pub record WriteResult : Type 0 where
  pub id : FileId
  pub seq : ℕ
  pub size : ℕ

-- What changes: the manifest with the store in it, and the counter of `SstFile::allocate_id`.
pub record Storage (S Q : Type 0) : Type 0 where
  pub manifest : Manifest S Q
  pub next_file_id : ℕ

-- The writer of a file.
pub record StorageIo (S B : Type 0) : Type 0 where
  pub create_writer : FileId → S → Bool × S
  pub write_rows : FileId → B → S → Bool × S
  pub close : FileId → S → Bool × S
  pub head : FileId → S → Option ℕ × S

abbrev pub same_segment : ℤ × SstFile → ℤ × SstFile → Bool
same_segment a b = eqb_ℤ a.0 b.0

-- A run of files of one segment, with its key.
abbrev pub keyed_group : List (ℤ × SstFile) → ℤ × List SstFile
keyed_group [] = (pos 0, [])
keyed_group (x ∷ xs) = (x.0, map (λ y. y.1) (x ∷ xs))

abbrev pub IsOrdered : List (ℤ × List SstFile) → Type 0
IsOrdered [] = Unit
IsOrdered (g ∷ []) = Unit
IsOrdered (g ∷ h ∷ gs) = (g.0 ≤ℤ h.0) × IsOrdered (h ∷ gs)

-- `group_by` and `sorted_by` of the crate `itertools`, for files with the key of their segment:
-- consecutive files of one key make a group.
pub record Grouping : Type 0 where
  pub group_by : List (ℤ × SstFile) → List (ℤ × List SstFile)
  pub group_by-runs : (l : List (ℤ × SstFile)) → group_by l ≡ map keyed_group (runs same_segment l)
  pub sorted_by : List (ℤ × List SstFile) → List (ℤ × List SstFile)
  pub sorted_by-perm : (l : List (ℤ × List SstFile)) → Permᴰ (sorted_by l) l
  pub sorted_by-IsOrdered : (l : List (ℤ × List SstFile)) → IsOrdered (sorted_by l)

-- `end - 1` on `i64`: without the checks on overflow it wraps around.
unfoldable pub before : Bool → Timestamp → Result Timestamp
before overflow_checks end =
    if eqb_ℤ end i64_min
    then (if overflow_checks then panic else ok (pos (2 ^ 63 - 1)))
    else ok (end -ℤ pos 1)

unfoldable pub check_segment : Bool → Duration → TimeRange → Result (Unit {0})
unfolding before
check_segment overflow_checks duration time_range = do
  let segment_duration = as_i64 (as_millis duration)
  first ← div_i64 time_range.start segment_duration
  end ← before overflow_checks time_range.end
  last ← div_i64 end segment_duration
  ensure (eqb_ℤ first last) cross_segment

-- The files with their segments, in the order of the manifest.
unfoldable pub keyed : Duration → List SstFile → Result (List (ℤ × SstFile))
keyed duration [] = ok []
keyed duration (f ∷ fs) = do
  key ← div_i64 f.meta.time_range.start (as_i64 (as_millis duration))
  rest ← keyed duration fs
  ok ((key, f) ∷ rest)

module _ ⦃grouping : Grouping⦄ where
  unfoldable pub ssts_by_segment : Duration → List SstFile → Result (List (ℤ × List SstFile))
  unfolding keyed
  ssts_by_segment duration ssts = do
    files ← keyed duration ssts
    ok (grouping.sorted_by (grouping.group_by files))

module _ ⦃planner : Planner⦄ where
  -- The plan that sorts a batch, and what it gives.
  unfoldable pub sort_batch :
      StorageSchema planner.arrow.Field
      → planner.arrow.Batch
      → Result (List (Option planner.arrow.Batch))
  unfolding build_sort_exprs
  sort_batch schema batch = do
    ensure (planner.df_schema schema.arrow_schema) store_failed
    sort_exprs ← build_sort_exprs schema false
    ensure (planner.memory_fits (batch ∷ [])) store_failed
    some_or_fail (planner.sorted_batches (sort_exec sort_exprs (memory_exec (batch ∷ []))))

  unfoldable pub segment_plans :
      StorageSchema planner.arrow.Field
      → Option (List ℕ)
      → List planner.Expr
      → List (ℤ × List SstFile)
      → Result (List (PlanOf))
  unfolding build_df_plan
  segment_plans schema projections predicate [] = ok []
  segment_plans schema projections predicate ((key, ssts) ∷ groups) = do
    plan ← build_df_plan schema ssts projections predicate false
    rest ← segment_plans schema projections predicate groups
    ok (plan ∷ rest)

  abbrev pub union_of :
      List (PlanOf) → ScanPlan planner.Physical planner.Ordering planner.arrow.Batch
  union_of [] = union_plan []
  union_of (plan ∷ []) = one_plan plan
  union_of (plan ∷ other ∷ plans) = union_plan (plan ∷ other ∷ plans)

  module _ ⦃grouping : Grouping⦄ where
    unfoldable pub plan_scan :
        StorageSchema planner.arrow.Field
        → Duration
        → ScanRequest planner.Expr
        → List SstFile
        → Result (ScanPlan planner.Physical planner.Ordering planner.arrow.Batch)
    unfolding ssts_by_segment fill_required_projections segment_plans
    plan_scan schema duration req [] = ok empty_plan
    plan_scan schema duration req (sst ∷ ssts) = do
      groups ← ssts_by_segment duration (sst ∷ ssts)
      plans ←
          segment_plans schema (fill_required_projections schema req.projections) req.predicate
            groups
      ok (union_of plans)

  -- An empty scan does not fail.
  abbrev pub run_plan :
      StorageSchema planner.arrow.Field
      → ScanPlan planner.Physical planner.Ordering planner.arrow.Batch
      → Result planner.Stream
  run_plan schema empty_plan = ok (planner.empty_stream schema.arrow_schema)
  run_plan schema (one_plan plan) = some_or_fail (planner.execute (one_plan plan))
  run_plan schema (union_plan plans) = some_or_fail (planner.execute (union_plan plans))
