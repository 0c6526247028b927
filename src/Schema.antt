-- ===== src/Schema.antt =====
-- src/storage/src/types.rs: `StorageSchema`, the user's columns with the builtin ones behind them.
-- The schemas and batches of the crate `arrow` are an interface. `UpdateMode` is config.rs's.
pub mod Layout
pub mod Projection
use horaedb.Prelude.{
  ℕ, zero, suc, String, ◌+◌, ◌-◌, ◌≡◌, Bool, true, false, not, ◌||◌, Option, none, some, List, [],
  ◌∷◌, ◌++◌, length, any, ltb, ◌==◌, if◌then◌else◌,
}
use horaedb.Prelude.Result.{
  Result, ok, err, ensure, no_primary_key, builtin_column_used, no_value_column, store_failed,
  ◌>>=◌, ◌>>◌,
}

pub data UpdateMode : Type 0 where
  overwrite append : UpdateMode

abbrev pub seq_column_name : String
seq_column_name = "__seq__"

abbrev pub reserved_column_name : String
reserved_column_name = "__reserved__"

-- Fields, columns and batches.
pub record Arrow : Type 1 where
  pub Field : Type 0
  pub Column : Type 0
  pub Batch : Type 0
  -- `f.name() == name`
  pub has_name : String → Field → Bool
  -- `Field::new(name, DataType::UInt64, true)`
  pub u64_field : String → Field
  pub num_rows : Batch → ℕ
  pub columns : Batch → List Column
  -- `UInt64Array::from_iter_values`, `UInt64Array::new_null`
  pub u64_array : List ℕ → Column
  pub null_array : ℕ → Column
  -- `RecordBatch::try_new`
  pub batch : List Field → List Column → Option Batch
  pub columns-batch :
      (fs : List Field) (cs : List Column) (b : Batch) → batch fs cs ≡ some b → columns b ≡ cs

pub record StorageSchema (F : Type 0) : Type 0 where
  pub arrow_schema : List F
  pub num_primary_keys : ℕ
  pub seq_idx : ℕ
  pub reserved_idx : ℕ
  pub value_idxes : List ℕ
  pub update_mode : UpdateMode

-- `from..from + count`
unfoldable pub range : ℕ → ℕ → List ℕ
range from zero = []
range from (suc count) = from ∷ range (from + 1) count

abbrev pub is_nil : {A : Type 0} → List A → Bool
is_nil [] = true
is_nil (x ∷ xs) = false

unfoldable pub replicate : {A : Type 0} → ℕ → A → List A
replicate zero a = []
replicate (suc n) a = a ∷ replicate n a

-- `proj.contains(&i)`
abbrev pub projects : List ℕ → ℕ → Bool
projects proj i = any (λ j. j == i) proj

unfoldable pub push_missing : ℕ → List ℕ → List ℕ
push_missing i proj = if projects proj i then proj else proj ++ i ∷ []

-- The loop over `0..count`.
unfoldable pub push_keys : ℕ → List ℕ → List ℕ
unfolding push_missing
push_keys zero proj = proj
push_keys (suc i) proj = push_missing i (push_keys i proj)

unfoldable pub fill_required_projections :
    {F : Type 0} → StorageSchema F → Option (List ℕ) → Option (List ℕ)
unfolding push_keys push_missing
fill_required_projections self none = none
fill_required_projections self (some proj) =
    some (push_missing self.seq_idx (push_keys self.num_primary_keys proj))

abbrev pub or_batch_failed : {B : Type 0} → Option B → Result B
or_batch_failed none = err store_failed
or_batch_failed (some b) = ok b

module _ ⦃arrow : Arrow⦄ where
  unfoldable pub is_builtin_field : arrow.Field → Bool
  is_builtin_field f = arrow.has_name seq_column_name f || arrow.has_name reserved_column_name f

  unfoldable pub schema_try_new :
      List arrow.Field → ℕ → UpdateMode → Result (StorageSchema arrow.Field)
  unfolding is_builtin_field range
  schema_try_new fields num_primary_keys update_mode = do
    ensure (ltb 0 num_primary_keys) no_primary_key
    ensure (not (any is_builtin_field fields)) builtin_column_used
    let value_idxes = range num_primary_keys (length fields - num_primary_keys)
    ensure (not (is_nil value_idxes)) no_value_column
    let new_fields =
        fields ++ arrow.u64_field seq_column_name ∷ arrow.u64_field reserved_column_name ∷ []
    ok (record {
      arrow_schema = new_fields;
      num_primary_keys = num_primary_keys;
      seq_idx = length new_fields - 2;
      reserved_idx = length new_fields - 1;
      value_idxes = value_idxes;
      update_mode = update_mode;
    })

  unfoldable pub fill_builtin_columns :
      StorageSchema arrow.Field → arrow.Batch → ℕ → Result arrow.Batch
  unfolding replicate
  fill_builtin_columns self record_batch sequence =
      let num_rows = arrow.num_rows record_batch in
      if num_rows == 0
      then ok record_batch
      else or_batch_failed (
          arrow.batch self.arrow_schema (
            arrow.columns record_batch
            ++ arrow.u64_array (replicate num_rows sequence) ∷ arrow.null_array num_rows ∷ []))
