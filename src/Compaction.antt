-- ===== src/Compaction.antt =====
-- src/storage/src/compaction/mod.rs: a task of the compaction.
pub mod Picker
pub mod Executor
pub mod Scheduler
use horaedb.Prelude.{ℕ, ◌+◌, ◌%◌, ◌^◌, List, [], ◌∷◌}
use horaedb.Sst.{SstFile}

pub record Task : Type 0 where
  pub inputs : List SstFile
  pub expireds : List SstFile

-- The sum of the sizes, which does not wrap for fewer than 2 ^ 32 files.
unfoldable pub total_size : List SstFile → ℕ
total_size [] = 0
total_size (f ∷ fs) = f.meta.size + total_size fs

unfoldable pub input_size : Task → ℕ
unfolding total_size
input_size task = total_size task.inputs % 2 ^ 64
