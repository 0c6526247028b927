-- ===== src/Examples/Systems.antt =====
-- The theorems on the loops of the compaction: a task is picked from three files, received, and picked
-- again after it failed.
use horaedb.Prelude.{
  ◌≤◌, ◌≡◌, refl, Bool, true, false, Option, none, some, List, [], ◌∷◌, ◌++◌, arith,
}
use horaedb.Prelude.Result.{ok}
use horaedb.Sst.{FileId}
use horaedb.Compaction.{Task}
use horaedb.Compaction.Picker.{mark_all, expire_time}
use horaedb.Compaction.Executor.{all_marked}
use horaedb.Compaction.Scheduler.{Picker, Channel, Wake, generate_task, send_task}
use horaedb.Compaction.Scheduler.Counts.{count, count_tasks}
use horaedb.Compaction.Scheduler.System.{
  Fifo, System, recv_task, submit, generates, receives, Reach, start, later,
}
use horaedb.Compaction.Scheduler.System.Exclusive.{tasks_of, Reach-exclusive, Reach-marked}
use horaedb.Examples.{files}
use horaedb.Examples.Picks.{strategy, smaller_first, task, unmarked, picks_task}
use horaedb.Examples.Sorting.{host}
use horaedb.Examples.Updates.{memory, two_rows}

-- A queue that takes a task only while it is empty.
abbrev try_send : Task → List Task → Bool × List Task
try_send t [] = (true, t ∷ [])
try_send t (u ∷ us) = (false, u ∷ us)

abbrev single : Channel (List Task)
single = record { try_send = try_send }

abbrev recv_single : List Task → Option (Task × List Task)
recv_single [] = none
recv_single (t ∷ ts) = some (t, ts)

sent_single : (t : Task) (q : List Task) → (try_send t q).0 ≡ true → (try_send t q).1 ≡ q ++ t ∷ []
sent_single t [] e = refl
sent_single t (u ∷ us) e = cc

refused_single : (t : Task) (q : List Task) → (try_send t q).0 ≡ false → (try_send t q).1 ≡ q
refused_single t [] e = cc
refused_single t (u ∷ us) e = refl

received_single : (t : Task) (q q' : List Task) → recv_single q ≡ some (t, q') → q ≡ t ∷ q'
received_single t [] q' e = cc
received_single t (u ∷ us) q' e = cc

abbrev fifo : Fifo single
fifo = record {
  contents = λ q. q;
  recv = recv_single;
  sent = sent_single;
  refused = refused_single;
  received = received_single;
}

abbrev picker : Picker
picker = record { ttl = none; strategy = strategy 2 }

abbrev wake : Wake
wake = record { now = 0; ssts = files }

distinct : (i : FileId) → count i wake.ssts ≤ 1
distinct i = ground arith

picked :
    generate_task ⦃channel = single⦄ host picker wake (unmarked, [])
    ≡ ok (mark_all [] (mark_all smaller_first unmarked), task ∷ [])
unfolding generate_task expire_time send_task
picked = rw picks_task refl

abbrev received : System (List Task)
received = record {
  marks = mark_all [] (mark_all smaller_first unmarked);
  tasks = [];
  running = task ∷ [];
}

reached : Reach fifo memory two_rows host picker received
unfolding recv_task submit
reached = later (later (start {tasks = []} refl) (generates wake distinct picked)) (receives refl)

Reach-exclusive_example : count_tasks 2 (tasks_of fifo received) ≤ 1
Reach-exclusive_example = Reach-exclusive fifo memory two_rows host picker 2 reached

Reach-marked_example :
    (all_marked received.marks task.inputs ≡ true)
    × (all_marked received.marks task.expireds ≡ true)
Reach-marked_example = Reach-marked fifo memory two_rows host picker [] [] task reached refl
