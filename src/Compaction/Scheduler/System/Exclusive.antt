-- ===== src/Compaction/Scheduler/System/Exclusive.antt =====
-- No file is in two tasks of the compaction.
use horaedb.Prelude.{
  ◌+◌, ◌≤◌, ◌≡◌, refl, sym, ap, subst, ◌∙◌, Bool, true, false, not, ◌&&◌, ◌||◌, Bool-cases, inl,
  inr, Option, Option-cases, none, some, List, [], ◌∷◌, ◌++◌, ltb, arith,
}
use horaedb.Prelude.Result.{Result, ok, err, panic, bind_then, ok-injective}
use horaedb.Sst.{FileId, SstFile, Marks, is_compaction}
use horaedb.Compaction.{Task}
use horaedb.Compaction.Picker.{Host, mark_all, pick_candidate, expire_time}
use horaedb.Compaction.Executor.{
  Engine, Executor, all_marked, unmark_all, release_memory, on_success, on_failure, settle,
}
use horaedb.Compaction.Scheduler.{Picker, Channel, Wake, send_task, generate_task}
use horaedb.Compaction.Scheduler.Counts.{
  count, flag, mark_all-count, unmark_all-count, count_task, count_tasks, count_tasks-append,
  IsHeld, PickCounts, pick_candidate-PickCounts, pick_candidate-none,
}
use horaedb.Compaction.Scheduler.System.{
  Fifo, System, submit, recv_task, Step, generates, receives, ends, Reach, start, later,
}
use horaedb.Manifest.Env.{Env}

-- Marking the files of a fresh task keeps its files apart from those of the others.
IsHeld-picked :
    (ssts : List SstFile) (marks marks' : Marks) (task : Task) (tasks tasks' : List Task)
    → ((i : FileId) → count i ssts ≤ 1)
    → PickCounts ssts marks marks' task
    → ((i : FileId) → count_tasks i tasks' ≤ count_tasks i tasks + count_task i task)
    → IsHeld marks tasks
    → IsHeld marks' tasks'
IsHeld-picked ssts marks marks' task tasks tasks' distinct pick more h = record {
  held = λ i.
      let e : marks' i
          ≡ ((marks i || ltb 0 (count i task.inputs)) || ltb 0 (count i task.expireds)) =
        ap (λ (m : Marks). m i) pick.marked
        ∙ mark_all-count i task.expireds (mark_all task.inputs marks)
        ∙ ap (λ b. b || ltb 0 (count i task.expireds)) (mark_all-count i task.inputs marks) in
      ground (arith, distinct i, pick.fresh i, more i, h.held i, e);
}

-- The files of a task that fails are unmarked; no other task has them.
IsHeld-failed :
    (marks : Marks) (task : Task) (tasks tasks' : List Task)
    → ((i : FileId) → count_tasks i tasks ≡ count_tasks i tasks' + count_task i task)
    → IsHeld marks tasks
    → IsHeld (unmark_all task.expireds (unmark_all task.inputs marks)) tasks'
IsHeld-failed marks task tasks tasks' fewer h = record {
  held = λ i.
      let e =
        unmark_all-count i task.expireds (unmark_all task.inputs marks)
        ∙ ap (λ b. b && not (ltb 0 (count i task.expireds)))
            (unmark_all-count i task.inputs marks) in
      ground (arith, fewer i, h.held i, e);
}

IsHeld-fewer :
    (marks : Marks) (tasks tasks' : List Task)
    → ((i : FileId) → count_tasks i tasks' ≤ count_tasks i tasks)
    → IsHeld marks tasks
    → IsHeld marks tasks'
IsHeld-fewer marks tasks tasks' fewer h = record { held = λ i. omega (arith, fewer i, h.held i) }

all_marked-count :
    (marks : Marks) (fs : List SstFile)
    → ((i : FileId) → 1 ≤ count i fs → marks i ≡ true)
    → all_marked marks fs ≡ true
unfolding all_marked is_compaction
all_marked-count marks [] h = refl
all_marked-count marks (f ∷ fs) h =
    let own : marks f.id ≡ true = h f.id (ground arith) in
    rw own (all_marked-count marks fs (λ i le. h i (ground arith)))

flag_at_least : (b : Bool) → 1 ≤ flag b → b ≡ true
flag_at_least true h = refl
flag_at_least false h = absurd (omega arith)

module _ {Q : Type 0} {channel : Channel Q} (fifo : Fifo channel) where
  generate_task-cases :
      (host : Host) (picker : Picker) (wake : Wake) (marks marks' : Marks) (q q' : Q)
      → generate_task ⦃channel = channel⦄ host picker wake (marks, q) ≡ ok (marks', q')
      → (candidate : Option Task) × (pick_candidate host picker.strategy marks wake.ssts
            (expire_time wake.now picker.ttl)
          ≡ ok (candidate, marks'))
        × (send_task ⦃channel = channel⦄ candidate q ≡ q')
  unfolding generate_task
  generate_task-cases host picker wake marks marks' q q' e =
      bind_then
        (pick_candidate host picker.strategy marks wake.ssts (expire_time wake.now picker.ttl)) _ e
        λ (candidate, m) picked k.
          let same = ok-injective k in
          (
            candidate,
            picked ∙ ap (λ (n : Marks). ok (candidate, n)) (ap (λ (p : Marks × Q). p.0) same),
            ap (λ (p : Marks × Q). p.1) same,
          )

  -- The tasks in the channel and those that run.
  abbrev pub tasks_of : System Q → List Task
  tasks_of s = fifo.contents s.tasks ++ s.running

  count-sent :
      (i : FileId) (task : Task) (q : Q) (running : List Task)
      → count_tasks i (fifo.contents (channel.try_send task q).1 ++ running)
        ≤ count_tasks i (fifo.contents q ++ running) + count_task i task
  count-sent i task q running =
      let before = count_tasks-append i (fifo.contents q) running in
      let after = count_tasks-append i (fifo.contents (channel.try_send task q).1) running in
      elim (Bool-cases (channel.try_send task q).0) [
        | inl e ↦ omega (
          arith,
          before,
          after,
          ap (count_tasks i) (fifo.sent task q e),
          count_tasks-append i (fifo.contents q) (task ∷ []),
        )
        | inr e ↦ omega (arith, before, after, ap (count_tasks i) (fifo.refused task q e))
      ]

  generates-IsHeld :
      (host : Host) (picker : Picker) (wake : Wake) (s : System Q) (marks : Marks) (tasks : Q)
      → ((i : FileId) → count i wake.ssts ≤ 1)
      → generate_task ⦃channel = channel⦄ host picker wake (s.marks, s.tasks) ≡ ok (marks, tasks)
      → IsHeld s.marks (tasks_of s)
      → IsHeld marks (fifo.contents tasks ++ s.running)
  unfolding send_task
  generates-IsHeld host picker wake s marks tasks distinct e h =
      let (candidate, picked, sent) =
        generate_task-cases host picker wake s.marks marks s.tasks tasks e in
      go candidate picked sent
    where
      go :
          (candidate : Option Task)
          → pick_candidate host picker.strategy s.marks wake.ssts (expire_time wake.now picker.ttl)
            ≡ ok (candidate, marks)
          → send_task ⦃channel = channel⦄ candidate s.tasks ≡ tasks
          → IsHeld marks (fifo.contents tasks ++ s.running)
      go none picked sent =
          subst (λ q. IsHeld marks (fifo.contents q ++ s.running)) sent
            (subst (λ (m : Marks). IsHeld m (tasks_of s))
              (sym (pick_candidate-none host picker.strategy s.marks marks wake.ssts _ picked)) h)
      go (some task) picked sent =
          subst (λ q. IsHeld marks (fifo.contents q ++ s.running)) sent
            (IsHeld-picked wake.ssts s.marks marks task (tasks_of s) _ distinct
              (pick_candidate-PickCounts host picker.strategy s.marks marks wake.ssts _ task picked)
              (λ i. count-sent i task s.tasks s.running) h)

  receives-IsHeld :
      (s s' : System Q)
      → recv_task fifo s ≡ some s'
      → IsHeld s.marks (tasks_of s)
      → IsHeld s'.marks (tasks_of s')
  unfolding recv_task submit
  receives-IsHeld s s' e h = elim (Option-cases (fifo.recv s.tasks)) [
    | inl nothing ↦ cc
    | inr ((task, q), received) ↦
        let same : record s { tasks = q; running = task ∷ s.running } ≡ s' =
          cc (rw (recv_task, received) at e) in
        subst (λ (t : System Q). IsHeld t.marks (tasks_of t)) same
          (IsHeld-fewer s.marks (tasks_of s) _
            (λ i. omega (
              arith,
              ap (count_tasks i) (fifo.received task s.tasks q received),
              count_tasks-append i (fifo.contents s.tasks) s.running,
              count_tasks-append i (fifo.contents q) (task ∷ s.running),
            ))
            h)
  ]

  module _ {S P T : Type 0} (env : Env S P) (engine : Engine S T) where
    settle-IsHeld :
        (x : Executor S P T) (task : Task) (res : Result (Unit {0})) (tasks tasks' : List Task)
        → ((i : FileId) → count_tasks i tasks ≡ count_tasks i tasks' + count_task i task)
        → IsHeld x.marks tasks
        → IsHeld (settle ⦃env = env⦄ ⦃engine = engine⦄ task res x).1.marks tasks'
    unfolding on_success on_failure release_memory
    settle-IsHeld x task (ok u) tasks tasks' fewer h =
        IsHeld-fewer x.marks tasks tasks' (λ i. omega (arith, fewer i)) h
    settle-IsHeld x task (err e) tasks tasks' fewer h =
        IsHeld-failed x.marks task tasks tasks' fewer h
    settle-IsHeld x task panic tasks tasks' fewer h =
        IsHeld-fewer x.marks tasks tasks' (λ i. omega (arith, fewer i)) h

    module _ (host : Host) (picker : Picker) where
      Step-IsHeld :
          {s s' : System Q}
          → Step fifo env engine host picker s s'
          → IsHeld s.marks (tasks_of s)
          → IsHeld s'.marks (tasks_of s')
      Step-IsHeld (generates {s = s} wake distinct e) h =
          generates-IsHeld host picker wake s _ _ distinct e h
      Step-IsHeld (receives {s = s} {s' = s'} e) h = receives-IsHeld s s' e h
      Step-IsHeld (ends {s = s} x before after task res same split) h =
          settle-IsHeld x task res (tasks_of s) _
            (λ i. omega (
              arith,
              ap (count_tasks i) split,
              count_tasks-append i (fifo.contents s.tasks) s.running,
              count_tasks-append i (fifo.contents s.tasks) (before ++ after),
              count_tasks-append i before after,
              count_tasks-append i before (task ∷ after),
            ))
            (subst (λ (m : Marks). IsHeld m (tasks_of s)) (sym same) h)

      Reach-IsHeld :
          {s : System Q} → Reach fifo env engine host picker s → IsHeld s.marks (tasks_of s)
      Reach-IsHeld (start {tasks = q} empty) = record {
        held =
            λ i. omega (arith, ap (count_tasks i) empty, count_tasks-append i (fifo.contents q) []);
      }
      Reach-IsHeld (later r step) = Step-IsHeld step (Reach-IsHeld r)

      -- Let the picker only see lists of files with distinct ids. Then, however its turns, those of the
      -- loop that receives tasks and the ends of tasks follow each other, no file is in two tasks that
      -- wait or run, or twice in one.
      pub Reach-exclusive :
          {s : System Q} (i : FileId)
          → Reach fifo env engine host picker s
          → count_tasks i (tasks_of s) ≤ 1
      Reach-exclusive {s} i r = let h = (Reach-IsHeld r).held i in ground arith

      -- Let the picker only see lists of files with distinct ids. Then, however the steps of the two
      -- loops and of the tasks follow each other, all files of a task that waits or runs are marked,
      -- so the assertions on the marks in the executor's check hold whenever the task starts.
      pub Reach-marked :
          {s : System Q} (before after : List Task) (task : Task)
          → Reach fifo env engine host picker s
          → tasks_of s ≡ before ++ task ∷ after
          → (all_marked s.marks task.inputs ≡ true) × (all_marked s.marks task.expireds ≡ true)
      Reach-marked {s} before after task r split =
          let present = λ (i : FileId) (le : 1 ≤ count_task i task). flag_at_least (s.marks i) (
            omega (
              arith,
              ap (count_tasks i) split,
              count_tasks-append i before (task ∷ after),
              (Reach-IsHeld r).held i,
              le,
            )) in
          (
            all_marked-count s.marks task.inputs (λ i le. present i (omega (arith, le))),
            all_marked-count s.marks task.expireds (λ i le. present i (omega (arith, le))),
          )
