-- ===== src/Examples/Storages.antt =====
-- The theorems on writes and scans, on a store in memory and a planner that builds every plan.
use horaedb.Prelude.{ℕ, ◌≡◌, refl, true, false, Option, none, some, List, [], ◌∷◌, ◌++◌, map, arith}
use horaedb.Prelude.Int.{ℤ, pos}
use horaedb.Prelude.Result.{ok}
use horaedb.Types.{TimeRange, as_i64, div_i64, truncate_by}
use horaedb.Sst.{SstFile}
use horaedb.Config.{default_manifest_config}
use horaedb.Schema.{fill_required_projections, push_missing, push_keys}
use horaedb.Manifest.Env.{StorePath}
use horaedb.Read.{maybe_remove_builtin_columns}
use horaedb.Read.Plan.{
  SortExpr, Plan, parquet_exec, filter_exec, sort_preserving_merge_exec, merge_exec, memory_exec,
  sort_exec, Planner,
}
use horaedb.Read.Projected.{requested_column_removed}
use horaedb.Storage.{WriteRequest, Storage, StorageIo, check_segment, before, ssts_by_segment}
use horaedb.Storage.Run.{write}
use horaedb.Storage.Segment.{check_one_segment}
use horaedb.Storage.Groups.{IsSplit, segment_in_two_groups, ssts_by_segment-IsSplit}
use horaedb.Storage.Written.{HasAdded, IsFileOf, write-HasAdded}
use horaedb.Examples.{file, files, second}
use horaedb.Examples.Schemas.{numbers, schema, rows}
use horaedb.Examples.Streams.{tables}
use horaedb.Examples.Updates.{memory}
use horaedb.Examples.Grouped.{grouping}
use mathlib.Core.List.{Permᴰ}

abbrev Columns : Type 0
Columns = List (List ℕ)

-- A sort gives the batch as it is.
abbrev batches : Plan ℕ (List (SortExpr ℕ)) Columns → Option (List (Option Columns))
batches (sort_exec o (memory_exec bs)) = some (map some bs)
batches (sort_exec o p) = none
batches (memory_exec bs) = none
batches (parquet_exec o g p q) = none
batches (filter_exec x p) = none
batches (sort_preserving_merge_exec o p) = none
batches (merge_exec p n v k) = none

abbrev planner : Planner
planner = record {
  arrow = numbers;
  Expr = ℕ;
  Physical = ℕ;
  Ordering = List (SortExpr ℕ);
  Stream = ℕ;
  df_schema = λ fields. true;
  field_ident = λ f. f;
  ident = λ name. 0;
  create_physical_sort_exprs = λ exprs fields. some exprs;
  conjunction = λ exprs. none;
  create_physical_expr = λ expr fields. some expr;
  filter_fits = λ x plan. true;
  memory_fits = λ bs. true;
  execute = λ plan. some 1;
  empty_stream = λ fields. 0;
  sorted_batches = batches;
}

abbrev io : StorageIo (List StorePath) Columns
io = record {
  create_writer = λ id store. (true, store);
  write_rows = λ id b store. (true, store);
  close = λ id store. (true, store);
  head = λ id store. (some 100, store);
}

abbrev range : TimeRange
range = record { start = pos 1000; end = pos 2000 }

abbrev request : WriteRequest Columns
request = record { batch = rows; time_range = range; enable_check = true }

abbrev storage : Storage (List StorePath) ℕ
storage = record {
  manifest = record {
    store = [];
    queue = 0;
    merge_options = default_manifest_config;
    deltas_num = 3;
    ssts = files;
    next_id = 7;
  };
  next_file_id = 4;
}

write-HasAdded_example :
    HasAdded
      (IsFileOf 4 2 range)
      files
      (write ⦃planner = planner⦄ ⦃env = memory⦄ ⦃io = io⦄ schema second request storage).0
      (write ⦃planner = planner⦄ ⦃env = memory⦄ ⦃io = io⦄ schema second request
        storage).1.manifest.ssts
write-HasAdded_example =
    write-HasAdded ⦃planner = planner⦄ ⦃env = memory⦄ ⦃io = io⦄ schema request storage second

passes : check_segment true second range ≡ ok tt
unfolding check_segment before div_i64 as_i64
passes = refl

check_one_segment_example : truncate_by (pos 1500) second ≡ truncate_by (pos 1000) second
check_one_segment_example =
    check_one_segment true second range (pos 1500) (omega arith, omega arith)
      (omega arith, omega arith) (omega arith) (omega arith) passes

ssts_by_segment-IsSplit_example :
    (groups : List (ℤ × List SstFile)) × (ssts_by_segment ⦃grouping = grouping⦄ second files
      ≡ ok groups)
    × IsSplit ⦃grouping = grouping⦄ second files groups
ssts_by_segment-IsSplit_example =
    ssts_by_segment-IsSplit ⦃grouping = grouping⦄ second files (omega arith, omega arith)

segment_in_two_groups_example :
    (groups : List (ℤ × List SstFile)) × (ssts_by_segment ⦃grouping = grouping⦄ second (
        file 1 100 (pos 5) (pos 20)
        ∷ file 2 30 (pos 1200) (pos 1300)
        ∷ file 3 20 (pos 30) (pos 40)
        ∷ [])
      ≡ ok groups)
    × Permᴰ groups (
        (pos 0, file 1 100 (pos 5) (pos 20) ∷ [])
        ∷ (pos 1, file 2 30 (pos 1200) (pos 1300) ∷ [])
        ∷ (pos 0, file 3 20 (pos 30) (pos 40) ∷ [])
        ∷ [])
segment_in_two_groups_example =
    segment_in_two_groups ⦃grouping = grouping⦄ second (file 1 100 (pos 5) (pos 20))
      (file 2 30 (pos 1200) (pos 1300)) (file 3 20 (pos 30) (pos 40)) (omega arith, omega arith)
      refl (λ e. cc)

abbrev proj : List ℕ
proj = 0 ∷ 1 ∷ 2 ∷ []

fills : fill_required_projections schema (some proj) ≡ some (proj ++ 3 ∷ [])
unfolding fill_required_projections push_keys push_missing
fills = refl

requested_column_removed_example :
    (proj ++ 3 ∷ [] ≡ proj ++ 3 ∷ [])
    × (b' : ℕ × List (List ℕ)) × (maybe_remove_builtin_columns ⦃t = tables true⦄ false
          (4, (1 ∷ 2 ∷ 3 ∷ 9 ∷ []) ∷ [])
        ≡ ok b')
    × (b'.1 ≡ (1 ∷ 2 ∷ []) ∷ [])
requested_column_removed_example =
    requested_column_removed ⦃t = tables true⦄ schema proj (proj ++ 3 ∷ [])
      (4, (1 ∷ 2 ∷ 3 ∷ 9 ∷ []) ∷ []) (λ i lt. ground arith) refl (omega arith) fills refl
