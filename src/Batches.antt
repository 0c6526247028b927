-- ===== src/Batches.antt =====
-- What read.rs and operator.rs use of the crate `arrow`: record batches as sequences of rows.
use horaedb.Prelude.{ℕ, ◌+◌, ◌≤◌, ◌<◌, ◌≡◌, Option, some, List, ◌∷◌, map, length, take, drop}
use horaedb.Prelude.Int.{ℤ}
use horaedb.Prelude.Perms.{concat_map}

-- The types of `compare_primitive_columns!`.
pub data Primitive : Type 0 where
  uint8 int8 uint32 int32 uint64 int64 : Primitive

pub record Batches : Type 1 where
  pub Batch : Type 0
  pub Row : Type 0
  pub rows : Batch → List Row
  pub num_rows : Batch → ℕ
  pub num_rows-rows : (b : Batch) → num_rows b ≡ length (rows b)
  pub num_columns : Batch → ℕ
  -- `batch.slice(offset, len)` in range
  pub slice : Batch → ℕ → ℕ → Batch
  pub rows-slice :
      (b : Batch) (offset len : ℕ)
      → offset + len ≤ length (rows b)
      → rows (slice b offset len) ≡ take len (drop offset (rows b))
  pub num_columns-slice :
      (b : Batch) (offset len : ℕ) → num_columns (slice b offset len) ≡ num_columns b
  pub concat_batches : List Batch → Option Batch
  pub rows-concat_batches :
      (bs : List Batch) (b : Batch) → concat_batches bs ≡ some b → rows b ≡ concat_map rows bs
  pub num_columns-concat_batches :
      (first : Batch) (bs : List Batch) (b : Batch)
      → concat_batches (first ∷ bs) ≡ some b
      → num_columns b ≡ num_columns first
  -- `batch.remove_column(i)` in range, and what is left of a row
  pub remove_column : Batch → ℕ → Batch
  pub without : ℕ → Row → Row
  pub rows-remove_column :
      (b : Batch) (i : ℕ) → i < num_columns b → rows (remove_column b i) ≡ map (without i) (rows b)
  pub num_columns-remove_column :
      (b : Batch) (i : ℕ) → i < num_columns b → num_columns (remove_column b i) + 1 ≡ num_columns b
  -- `as_primitive_opt` and `as_bytes_opt` of a column: the value at a row if the column has the type
  pub primitive_value : Primitive → ℕ → Row → Option ℤ
  pub bytes_value : ℕ → Row → Option (List ℕ)
