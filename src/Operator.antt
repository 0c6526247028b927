-- ===== src/Operator.antt =====
-- src/storage/src/operator.rs: how the rows of one primary key become one row.
pub mod Bytes
use horaedb.Prelude.{◌-◌, ◌==◌, if◌then◌else◌}
use horaedb.Prelude.Result.{Result, ok, panic}
use horaedb.Batches.{Batches}

-- The trait of the operators.
pub record MergeOperator (B : Type 0) : Type 0 where
  pub merge : B → Result B

module _ ⦃t : Batches⦄ where
  -- Without a row the start of the slice is out of range.
  unfoldable pub last_value_merge : t.Batch → Result t.Batch
  last_value_merge batch =
      if t.num_rows batch == 0 then panic else ok (t.slice batch (t.num_rows batch - 1) 1)

  abbrev pub last_value_operator : MergeOperator t.Batch
  last_value_operator = record { merge = last_value_merge }
