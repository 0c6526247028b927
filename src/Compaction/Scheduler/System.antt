-- ===== src/Compaction/Scheduler/System.antt =====
-- src/storage/src/compaction/scheduler.rs and executor.rs: the two loops and the tasks that they start,
-- as steps on the marks, the channel and the tasks that run. Any step may come next.
pub mod Exclusive
use horaedb.Prelude.{◌≤◌, ◌≡◌, Bool, true, false, Option, none, some, List, [], ◌∷◌, ◌++◌}
use horaedb.Prelude.Result.{Result, ok}
use horaedb.Sst.{FileId, Marks}
use horaedb.Compaction.{Task}
use horaedb.Compaction.Picker.{Host}
use horaedb.Compaction.Executor.{Engine, Executor, settle}
use horaedb.Compaction.Scheduler.{Picker, Channel, Wake, generate_task}
use horaedb.Compaction.Scheduler.Counts.{count}
use horaedb.Manifest.Env.{Env}

-- The channel is a queue: what it takes comes out last, what it refuses leaves it as it is.
pub record Fifo {Q : Type 0} (channel : Channel Q) : Type 0 where
  pub contents : Q → List Task
  -- `recv`, which waits while there is no task
  pub recv : Q → Option (Task × Q)
  pub sent :
      (task : Task) (q : Q)
      → (channel.try_send task q).0 ≡ true
      → contents (channel.try_send task q).1 ≡ contents q ++ task ∷ []
  pub refused :
      (task : Task) (q : Q)
      → (channel.try_send task q).0 ≡ false
      → contents (channel.try_send task q).1 ≡ contents q
  pub received :
      (task : Task) (q q' : Q) → recv q ≡ some (task, q') → contents q ≡ task ∷ contents q'

-- `running` are the tasks that were spawned and whose handler has not run yet.
pub record System (Q : Type 0) : Type 0 where
  pub marks : Marks
  pub tasks : Q
  pub running : List Task

-- `Executor::submit` spawns the task.
unfoldable pub submit : {Q : Type 0} → Task → System Q → System Q
submit task s = record s { running = task ∷ s.running }

module _ {Q : Type 0} {channel : Channel Q} (fifo : Fifo channel) where
  -- One turn of `recv_task_loop`.
  unfoldable pub recv_task : System Q → Option (System Q)
  unfolding submit
  recv_task s = elim (fifo.recv s.tasks) [
    | none ↦ none
    | some (task, tasks) ↦ some (submit task (record s { tasks = tasks }))
  ]

module _ {Q S P T : Type 0} {channel : Channel Q} (fifo : Fifo channel) (env : Env S P)
    (engine : Engine S T) (host : Host) (picker : Picker) where
  -- A task ends with what it returned: from any state of the executor with these marks, which a running
  -- task does not touch before.
  pub data Step : System Q → System Q → Type 0 where
    generates :
        {s : System Q} (wake : Wake) {marks : Marks} {tasks : Q}
        → ((i : FileId) → count i wake.ssts ≤ 1)
        → generate_task ⦃channel = channel⦄ host picker wake (s.marks, s.tasks) ≡ ok (marks, tasks)
        → Step s (record s { marks = marks; tasks = tasks })
    receives : {s s' : System Q} → recv_task fifo s ≡ some s' → Step s s'
    ends :
        {s : System Q} (x : Executor S P T) (before after : List Task) (task : Task)
        (res : Result (Unit {0}))
        → x.marks ≡ s.marks
        → s.running ≡ before ++ task ∷ after
        → Step s (record s {
          marks = (settle ⦃env = env⦄ ⦃engine = engine⦄ task res x).1.marks;
          running = before ++ after;
        })

  -- From no marks, no task in the channel, and none that runs.
  pub data Reach : System Q → Type 0 where
    start :
        {tasks : Q}
        → fifo.contents tasks ≡ []
        → Reach (record { marks = λ i. false; tasks = tasks; running = [] })
    later : {s s' : System Q} → Reach s → Step s s' → Reach s'
