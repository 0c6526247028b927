-- ===== src/Examples/Tasks.antt =====
-- The theorems on the scheduler, with a channel of two tasks.
use horaedb.Prelude.{ℕ, ◌+◌, ◌≡◌, refl, true, false, [], ◌==◌, if◌then◌else◌, arith}
use horaedb.Prelude.Result.{ok}
use horaedb.Config.{default_scheduler_config}
use horaedb.Compaction.Picker.{mark_all, expire_time}
use horaedb.Compaction.Executor.{all_marked}
use horaedb.Compaction.Scheduler.{Picker, picker_new, Channel, Wake, generate_task}
use horaedb.Compaction.Scheduler.Ready.{refused_task}
use horaedb.Examples.{files, second}
use horaedb.Examples.Sorting.{host}
use horaedb.Examples.Picks.{smaller_first, task, unmarked, picks_task}

-- The channel counts its tasks.
abbrev two_tasks : Channel ℕ
two_tasks = record { try_send = λ task n. if n == 2 then (false, n) else (true, n + 1) }

abbrev picker : Picker
picker =
    picker_new
      (record default_scheduler_config {
        new_sst_max_size = 100;
        input_sst_max_num = 5;
        input_sst_min_num = 2;
      })
      second

abbrev wake : Wake
wake = record { now = 5000; ssts = files }

refused_task_example :
    (generate_task ⦃channel = two_tasks⦄ host picker wake (unmarked, 2)
      ≡ ok (mark_all [] (mark_all smaller_first unmarked), 2))
    × (all_marked (mark_all [] (mark_all smaller_first unmarked)) task.inputs ≡ true)
    × (all_marked (mark_all [] (mark_all smaller_first unmarked)) task.expireds ≡ true)
refused_task_example =
    refused_task ⦃channel = two_tasks⦄ host picker wake unmarked
      (mark_all [] (mark_all smaller_first unmarked)) 2 2 task
      (omega arith, (omega arith, (omega arith, tt))) (omega arith) (omega arith)
      (unfold expire_time in picks_task) refl
