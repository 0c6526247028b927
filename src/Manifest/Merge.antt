-- ===== src/Manifest/Merge.antt =====
-- src/storage/src/manifest/mod.rs: what updates and their merge do to the list of files, without the
-- store: the cached list of `update_inner`, the loop of `do_merge`, the filter of `find_ssts`.
pub mod Recovery
pub mod Replay
pub mod Resurrect
use horaedb.Prelude.{Bool, not, List, [], ◌∷◌, ◌++◌, retain}
use horaedb.Prelude.Result.{Result, ok, ◌>>=◌}
use horaedb.Types.{TimeRange, overlaps}
use horaedb.Sst.{FileId, SstFile}
use horaedb.Manifest.Encoding.{ManifestUpdate, Snapshot, add_records, delete_records, contains}

-- The cached list after an update.
unfoldable pub apply_update : List SstFile → ManifestUpdate → List SstFile
apply_update ssts update =
    retain (λ file. not (contains update.to_deletes file.id)) (ssts ++ update.to_adds)

-- The loop of `do_merge`: all files are added, and the deletions are collected.
unfoldable pub merge_deltas :
    Snapshot → List FileId → List (Result ManifestUpdate) → Result (Snapshot × List FileId)
merge_deltas snapshot to_deletes [] = ok (snapshot, to_deletes)
merge_deltas snapshot to_deletes (res ∷ results) = do
  manifest_update ← res
  merge_deltas (add_records snapshot manifest_update.to_adds)
      (to_deletes ++ manifest_update.to_deletes) results

-- The deletions come last: the deltas are not sorted.
unfoldable pub merge_snapshot : Bool → Snapshot → List (Result ManifestUpdate) → Result Snapshot
merge_snapshot debug_assertions snapshot results = do
  (added, to_deletes) ← merge_deltas snapshot [] results
  delete_records debug_assertions added to_deletes

unfoldable pub find_in : List SstFile → TimeRange → List SstFile
find_in ssts time_range = retain (λ f. overlaps f.meta.time_range time_range) ssts
