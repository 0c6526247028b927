-- ===== src/Examples.antt =====
-- Concrete files, snapshots, stores and sorts, on which the theorems are applied.
pub mod Disks
pub mod Starts
pub mod Systems
pub mod Texts
pub mod Writers
pub mod Configs
pub mod Sorting
pub mod Times
pub mod Streams
pub mod Values
pub mod Grouped
pub mod Storages
pub mod Tasks
pub mod Schemas
pub mod Picks
pub mod Updates
pub mod Merges
pub mod Snapshots
use horaedb.Prelude.{ℕ, List, [], ◌∷◌}
use horaedb.Prelude.Int.{ℤ, pos}
use horaedb.Types.{Duration}
use horaedb.Sst.{SstFile}

-- A file of a given id and size over a range of timestamps.
abbrev pub file : ℕ → ℕ → ℤ → ℤ → SstFile
file id size start end = record {
  id = id;
  meta = record {
    max_sequence = id;
    num_rows = 10;
    size = size;
    time_range = record { start = start; end = end };
  };
}

abbrev pub files : List SstFile
files =
    file 1 100 (pos 5) (pos 20)
    ∷ file 2 30 (pos 1200) (pos 1300)
    ∷ file 3 20 (pos 1100) (pos 1400)
    ∷ []

abbrev pub second : Duration
second = record { secs = 1; nanos = 0 }
