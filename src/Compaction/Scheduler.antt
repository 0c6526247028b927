-- ===== src/Compaction/Scheduler.antt =====
-- src/storage/src/compaction/scheduler.rs: the loop that makes tasks, and the `Picker` that it owns.
-- The channel of tasks and the clock are parameters. Files are picked between two steps of others.
pub mod Counts
pub mod Ready
pub mod System
use horaedb.Prelude.{ℕ, Bool, Option, none, some, List, [], ◌∷◌}
use horaedb.Prelude.Result.{Result, ok, ◌>>=◌}
use horaedb.Types.{Duration, Timestamp}
use horaedb.Config.{SchedulerConfig}
use horaedb.Sst.{SstFile, Marks}
use horaedb.Compaction.{Task}
use horaedb.Compaction.Picker.{Host, Strategy, pick_candidate, expire_time}

pub record Picker : Type 0 where
  pub ttl : Option Duration
  pub strategy : Strategy

-- `Picker::new` with what `Scheduler::new` hands on of its configuration.
abbrev pub picker_new : SchedulerConfig → Duration → Picker
picker_new config segment_duration = record {
  ttl = config.ttl;
  strategy = record {
    segment_duration = segment_duration;
    new_sst_max_size = config.new_sst_max_size;
    input_sst_max_num = config.input_sst_max_num;
    input_sst_min_num = config.input_sst_min_num;
  };
}

-- `try_send` of the channel of tasks: whether it took the task.
pub record Channel (Q : Type 0) : Type 0 where
  pub try_send : Task → Q → Bool × Q

-- What wakes the loop: its timer or a trigger, at a time, with the files that the manifest then has.
pub record Wake : Type 0 where
  pub now : ℕ
  pub ssts : List SstFile

module _ {Q : Type 0} ⦃channel : Channel Q⦄ where
  -- A task that the channel refuses is only logged.
  unfoldable pub send_task : Option Task → Q → Q
  send_task none tasks = tasks
  send_task (some task) tasks = (channel.try_send task tasks).1

  -- One turn of the loop: the marks and the channel after it.
  unfoldable pub generate_task : Host → Picker → Wake → Marks × Q → Result (Marks × Q)
  unfolding send_task
  generate_task host picker wake (marks, tasks) = do
    (candidate, marks') ←
        pick_candidate host picker.strategy marks wake.ssts (expire_time wake.now picker.ttl)
    ok (marks', send_task candidate tasks)

  unfoldable pub generate_task_loop : Host → Picker → List Wake → Marks × Q → Result (Marks × Q)
  unfolding generate_task
  generate_task_loop host picker [] state = ok state
  generate_task_loop host picker (wake ∷ wakes) state = do
    state' ← generate_task host picker wake state
    generate_task_loop host picker wakes state'
