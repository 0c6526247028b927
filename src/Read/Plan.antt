-- ===== src/Read/Plan.antt =====
-- src/storage/src/read.rs: `ParquetReader::build_df_plan`, with the plans of the crate `datafusion` as
-- trees of what they are built from.
use horaedb.Prelude.{
  ℕ, zero, suc, String, ◌+◌, Bool, true, Option, none, some, List, [], ◌∷◌, ◌++◌, map,
  if◌then◌else◌,
}
use horaedb.Prelude.Result.{Result, ok, ensure, store_failed, ◌>>=◌, ◌>>◌}
use horaedb.Sst.{SstFile}
use horaedb.Schema.{Arrow, StorageSchema, UpdateMode, overwrite, append, seq_column_name}
use horaedb.Manifest.Env.{StorePath, data_path}
use horaedb.Read.{some_or_fail, row_at}

-- The operators of operator.rs, as a plan names them.
pub data ValueOperator : Type 0 where
  last_value : ValueOperator
  bytes_merge : List ℕ → ValueOperator

pub record SortExpr (E : Type 0) : Type 0 where
  pub expr : E
  pub asc : Bool
  pub nulls_first : Bool

-- A file of a plan: its location and its size.
abbrev pub PartitionedFile : Type 0
PartitionedFile = StorePath × ℕ

-- `E` are logical expressions, `X` physical ones, `O` orderings, `B` batches.
pub data Plan (X O B : Type 0) : Type 0 where
  parquet_exec :
      (output_ordering : List O) (file_groups : List (List PartitionedFile))
      (projection : Option (List ℕ)) (predicate : Option X)
      → Plan X O B
  filter_exec : X → Plan X O B → Plan X O B
  sort_preserving_merge_exec : O → Plan X O B → Plan X O B
  merge_exec :
      (input : Plan X O B) (num_primary_keys : ℕ) (value_operator : ValueOperator)
      (keep_builtin : Bool)
      → Plan X O B
  memory_exec : List B → Plan X O B
  sort_exec : O → Plan X O B → Plan X O B

-- The plans of a scan: none, one, or the union of several.
pub data ScanPlan (X O B : Type 0) : Type 0 where
  empty_plan : ScanPlan X O B
  one_plan : Plan X O B → ScanPlan X O B
  union_plan : List (Plan X O B) → ScanPlan X O B

-- The calls of `datafusion` that may fail, and the running of plans.
pub record Planner : Type 1 where
  pub arrow : Arrow
  pub Expr : Type 0
  pub Physical : Type 0
  pub Ordering : Type 0
  pub Stream : Type 0
  -- `DFSchema::try_from`
  pub df_schema : List arrow.Field → Bool
  -- `ident(field.name())`, `ident(name)`
  pub field_ident : arrow.Field → Expr
  pub ident : String → Expr
  pub create_physical_sort_exprs : List (SortExpr Expr) → List arrow.Field → Option Ordering
  pub conjunction : List Expr → Option Expr
  pub create_physical_expr : Expr → List arrow.Field → Option Physical
  -- `FilterExec::try_new`, `MemoryExec::try_new`
  pub filter_fits : Physical → Plan Physical Ordering arrow.Batch → Bool
  pub memory_fits : List arrow.Batch → Bool
  -- `execute_stream` of a scan
  pub execute : ScanPlan Physical Ordering arrow.Batch → Option Stream
  -- `EmptyRecordBatchStream::new`
  pub empty_stream : List arrow.Field → Stream
  -- the batches of a plan on one batch, each of which may have failed
  pub sorted_batches : Plan Physical Ordering arrow.Batch → Option (List (Option arrow.Batch))

abbrev pub operator_of : {F : Type 0} → StorageSchema F → UpdateMode → ValueOperator
operator_of schema overwrite = last_value
operator_of schema append = bytes_merge schema.value_idxes

abbrev pub file_groups : List SstFile → List (List PartitionedFile)
file_groups = map (λ f. (data_path f.id, f.meta.size) ∷ [])

module _ ⦃planner : Planner⦄ where
  abbrev pub PlanOf : Type 0
  PlanOf = Plan planner.Physical planner.Ordering planner.arrow.Batch

  -- The keys from `from` on.
  unfoldable pub key_sort_exprs :
      List planner.arrow.Field → ℕ → ℕ → Result (List (SortExpr planner.Expr))
  key_sort_exprs fields from zero = ok []
  key_sort_exprs fields from (suc count) = do
    f ← row_at fields from
    rest ← key_sort_exprs fields (from + 1) count
    ok (record { expr = planner.field_ident f; asc = true; nulls_first = true } ∷ rest)

  unfoldable pub build_sort_exprs :
      StorageSchema planner.arrow.Field → Bool → Result planner.Ordering
  unfolding key_sort_exprs
  build_sort_exprs schema sort_seq = do
    keys ← key_sort_exprs schema.arrow_schema 0 schema.num_primary_keys
    let seq : SortExpr planner.Expr = record {
      expr = planner.ident seq_column_name;
      asc = true;
      nulls_first = true;
    }
    let sort_exprs = if sort_seq then keys ++ seq ∷ [] else keys
    some_or_fail (planner.create_physical_sort_exprs sort_exprs schema.arrow_schema)

  -- The plan that reads the files, with a filter if there are predicates.
  abbrev pub base_plan :
      StorageSchema planner.arrow.Field
      → (Option planner.Physical → PlanOf)
      → Option planner.Expr
      → Result (PlanOf)
  base_plan schema scan none = ok (scan none)
  base_plan schema scan (some expr) = do
    filters ← some_or_fail (planner.create_physical_expr expr schema.arrow_schema)
    ensure (planner.filter_fits filters (scan (some filters))) store_failed
    ok (filter_exec filters (scan (some filters)))

  unfoldable pub build_df_plan :
      StorageSchema planner.arrow.Field
      → List SstFile
      → Option (List ℕ)
      → List planner.Expr
      → Bool
      → Result (PlanOf)
  unfolding build_sort_exprs
  build_df_plan schema ssts projection predicates keep_builtin = do
    ensure (planner.df_schema schema.arrow_schema) store_failed
    sort_exprs ← build_sort_exprs schema true
    let groups = file_groups ssts
    let parquet : Option planner.Physical → PlanOf =
        parquet_exec (map (λ g. sort_exprs) groups) groups projection
    base ← base_plan schema parquet (planner.conjunction predicates)
    ok (
        merge_exec (sort_preserving_merge_exec sort_exprs base) schema.num_primary_keys
          (operator_of schema schema.update_mode) keep_builtin)
