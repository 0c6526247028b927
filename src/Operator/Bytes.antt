-- ===== src/Operator/Bytes.antt =====
-- src/storage/src/operator.rs: `BytesMergeOperator`, which appends the values of binary columns.
-- The columns of the crate `arrow` are an interface; the arrays of bytes are as `arrow` lays them out.
pub mod Joined
use horaedb.Prelude.{
  ℕ, ◌+◌, ◌≤◌, ◌-◌, ◌≡◌, ◌≢◌, Bool, true, false, Option, none, some, List, [], ◌∷◌, map, any,
  length, take, drop, All, ltb, ◌==◌, if◌then◌else◌,
}
use horaedb.Prelude.Result.{
  Result, ok, err, panic, ensure, assert, not_binary, store_failed, ◌>>=◌, ◌>>◌,
}
use horaedb.Read.{some_or_fail, row_at}

-- Element `i` of the array is the bytes from one offset to the next: the first offset, and the others.
pub record BinaryArray : Type 0 where
  pub first : ℕ
  pub rest : List ℕ
  pub values : List ℕ

abbrev pub last : ℕ → List ℕ → ℕ
last o [] = o
last o (p ∷ ps) = last p ps

pub record BinaryBatches : Type 1 where
  pub Batch : Type 0
  pub Column : Type 0
  pub columns : Batch → List Column
  pub num_rows : Batch → ℕ
  pub column_length : Column → ℕ
  -- the array of a column of the type `Binary`
  pub binary : Column → Option BinaryArray
  pub from_binary : BinaryArray → Column
  pub slice : Column → ℕ → ℕ → Column
  pub slice-length :
      (c : Column) (offset len : ℕ)
      → offset + len ≤ column_length c
      → column_length (slice c offset len) ≡ len
  pub columns-length : (b : Batch) → All (λ c. column_length c ≡ num_rows b) (columns b)
  -- `RecordBatch::try_new` with the schema of a batch: the columns must have one length
  pub try_new : Batch → List Column → Option Batch
  pub try_new-lengths :
      (b : Batch) (cs : List Column) (b' : Batch)
      → try_new b cs ≡ some b'
      → (n : ℕ) × All (λ c. column_length c ≡ n) cs

abbrev pub is_nil : List ℕ → Bool
is_nil [] = true
is_nil (x ∷ xs) = false

abbrev is_some : {A : Type 0} → Option A → Bool
is_some none = false
is_some (some a) = true

-- `unwrap`
abbrev some_or_panic : {A : Type 0} → Option A → Result A
some_or_panic none = panic
some_or_panic (some a) = ok a

-- The array of a value column after the merge.
unfoldable pub merge_binary : BinaryArray → BinaryArray
merge_binary array =
    let length = last array.first array.rest - array.first in
    let joined : BinaryArray = record {
      first = 0;
      rest = length ∷ [];
      values = take length (drop array.first array.values);
    } in
    if is_nil array.rest then array else if length == 0 then array else joined

module _ ⦃t : BinaryBatches⦄ where
  -- An array that does not change is the column itself.
  unfoldable pub merge_value : t.Column → BinaryArray → t.Column
  unfolding merge_binary
  merge_value column array =
      if is_nil array.rest
      then column
      else if last array.first array.rest - array.first == 0
      then column
      else t.from_binary (merge_binary array)

  -- The loop over the indices.
  unfoldable pub check_binary : List t.Column → List ℕ → Result (Unit {0})
  check_binary columns [] = ok tt
  check_binary columns (idx ∷ idxes) = do
    column ← row_at columns idx
    ensure (is_some (t.binary column)) not_binary
    check_binary columns idxes

  -- The columns from index `idx` on.
  unfoldable pub merge_columns : List ℕ → ℕ → List t.Column → Result (List t.Column)
  unfolding merge_value
  merge_columns value_idxes idx [] = ok []
  merge_columns value_idxes idx (column ∷ columns) = do
    let value = (do array ← some_or_panic (t.binary column); ok (merge_value column array))
    merged ← (if any (λ i. i == idx) value_idxes then value else ok (t.slice column 0 1))
    rest ← merge_columns value_idxes (idx + 1) columns
    ok (merged ∷ rest)

  unfoldable pub bytes_merge : List ℕ → t.Batch → Result t.Batch
  unfolding check_binary merge_columns
  bytes_merge value_idxes batch = do
    assert (ltb 0 (t.num_rows batch))
    check_binary (t.columns batch) value_idxes
    columns ← merge_columns value_idxes 0 (t.columns batch)
    some_or_fail (t.try_new batch columns)
