-- ===== src/Examples/Picks.antt =====
-- The theorems on the picker: of three files in two segments, two are picked.
use horaedb.Prelude.{
  ℕ, ◌≤◌, ◌≡◌, refl, false, none, some, List, [], ◌∷◌, ◌++◌, All, length-retain, arith,
}
use horaedb.Prelude.Int.{pos}
use horaedb.Prelude.Result.{ok}
use horaedb.Types.{truncate_by, as_i64, div_i64}
use horaedb.Sst.{SstFile, Marks, is_compaction, is_expired}
use horaedb.Compaction.{Task}
use horaedb.Compaction.Picker.{
  Strategy, SegmentMap, find_uncompacted_and_expired_files, entry_push, group_files,
  take_while_fits, mark_all, make_task, files_by_segment, choose, pick_from, pick_compaction_files,
  pick_candidate,
}
use horaedb.Compaction.Picker.Segments.{IsGrouped, files_by_segment-IsGrouped}
use horaedb.Compaction.Picker.Choice.{choose_smallest}
use horaedb.Compaction.Picker.Latest.{IsLatest, pick_compaction_files-IsLatest}
use horaedb.Compaction.Picker.Pick.{IsPick, uncompacted, pick_candidate-IsPick}
use horaedb.Compaction.Picker.Expiry.{expired_wait}
use horaedb.Examples.{file, files, second}
use horaedb.Examples.Sorting.{host, insert, insertion_sort}
use mathlib.Core.List.{Permᴰ}

abbrev pub strategy : ℕ → Strategy
strategy least = record {
  segment_duration = second;
  new_sst_max_size = 100;
  input_sst_max_num = 5;
  input_sst_min_num = least;
}

abbrev by_segment : SegmentMap
by_segment =
    (pos 0, file 1 100 (pos 5) (pos 20) ∷ [])
    ∷ (pos 1000, file 2 30 (pos 1200) (pos 1300) ∷ file 3 20 (pos 1100) (pos 1400) ∷ [])
    ∷ []

abbrev pub smaller_first : List SstFile
smaller_first = file 3 20 (pos 1100) (pos 1400) ∷ file 2 30 (pos 1200) (pos 1300) ∷ []

groups : files_by_segment host (strategy 2) files ≡ ok by_segment
unfolding files_by_segment group_files entry_push truncate_by as_i64 div_i64
groups = refl

files_by_segment-IsGrouped_example : IsGrouped second by_segment files
files_by_segment-IsGrouped_example = files_by_segment-IsGrouped host (strategy 2) files groups

choose_smallest_example :
    (rest : List SstFile) × Permᴰ (choose host (strategy 2) files ++ rest) files
    × All (λ f. All (λ g. f.meta.size ≤ g.meta.size) rest) (choose host (strategy 2) files)
choose_smallest_example = choose_smallest host (strategy 2) files

picks : pick_compaction_files host (strategy 2) by_segment ≡ some smaller_first
unfolding pick_compaction_files pick_from choose take_while_fits insertion_sort insert
picks = refl

pick_compaction_files-IsLatest_example : IsLatest host (strategy 2) by_segment smaller_first
pick_compaction_files-IsLatest_example =
    pick_compaction_files-IsLatest host (strategy 2) by_segment smaller_first
      ((omega arith, tt), (tt, tt)) picks

abbrev pub task : Task
task = record { inputs = smaller_first; expireds = [] }

abbrev pub unmarked : Marks
unmarked id = false

pub picks_task :
    pick_candidate host (strategy 2) unmarked files none
    ≡ ok (some task, mark_all [] (mark_all smaller_first unmarked))
unfolding pick_candidate files_by_segment group_files entry_push truncate_by as_i64 div_i64
    pick_compaction_files pick_from choose take_while_fits insertion_sort insert
    find_uncompacted_and_expired_files make_task is_compaction is_expired
picks_task = refl

pick_candidate-IsPick_example :
    IsPick host (strategy 2) unmarked none files task
    × (mark_all [] (mark_all smaller_first unmarked)
        ≡ mark_all task.expireds (mark_all task.inputs unmarked))
pick_candidate-IsPick_example =
    pick_candidate-IsPick host (strategy 2) unmarked (mark_all [] (mark_all smaller_first unmarked))
      files none task (omega arith, (omega arith, (omega arith, tt))) (omega arith) picks_task

-- At time 100 the first file has expired, and four files are wanted.
expired_wait_example :
    pick_candidate host (strategy 4) unmarked files (some (pos 100)) ≡ ok (none, unmarked)
expired_wait_example =
    expired_wait host (strategy 4) unmarked files (some (pos 100)) (omega arith, omega arith)
      (omega (arith, length-retain (uncompacted unmarked (some (pos 100))) files))
