-- ===== src/Compaction/Scheduler/Ready.antt =====
-- The tasks of the picker against the check of the executor.
use horaedb.Prelude.{
  ◌<◌, ◌^◌, ◌≡◌, refl, sym, ap, subst, true, false, Option, some, List, [], ◌∷◌, All, length, arith,
}
use horaedb.Prelude.Result.{ok}
use horaedb.Types.{Timestamp}
use horaedb.Sst.{SstFile, Marks, is_compaction, mark_compaction}
use horaedb.Compaction.{Task}
use horaedb.Compaction.Picker.{Host, Strategy, mark_all, pick_candidate, expire_time}
use horaedb.Compaction.Picker.Pick.{pick_candidate-IsPick}
use horaedb.Compaction.Executor.{all_marked, is_nonempty}
use horaedb.Compaction.Executor.Accounting.{IsReady}
use horaedb.Compaction.Scheduler.{Picker, Channel, Wake, generate_task, send_task}

mark_compaction-marked :
    (f g : SstFile) (marks : Marks)
    → is_compaction marks g ≡ true
    → is_compaction (mark_compaction f marks) g ≡ true
unfolding is_compaction mark_compaction
mark_compaction-marked f g marks h = ground arith

mark_all-marked :
    (fs : List SstFile) (g : SstFile) (marks : Marks)
    → is_compaction marks g ≡ true
    → is_compaction (mark_all fs marks) g ≡ true
unfolding mark_all
mark_all-marked [] g marks h = h
mark_all-marked (f ∷ fs) g marks h =
    mark_all-marked fs g (mark_compaction f marks) (mark_compaction-marked f g marks h)

mark_compaction-itself :
    (f : SstFile) (marks : Marks) → is_compaction (mark_compaction f marks) f ≡ true
unfolding is_compaction mark_compaction
mark_compaction-itself f marks = ground arith

all_marked-mark_all : (fs : List SstFile) (marks : Marks) → all_marked (mark_all fs marks) fs ≡ true
unfolding all_marked mark_all
all_marked-mark_all [] marks = refl
all_marked-mark_all (f ∷ fs) marks = rw (
  mark_all-marked fs f (mark_compaction f marks) (mark_compaction-itself f marks),
  all_marked-mark_all fs (mark_compaction f marks),
)

all_marked-kept :
    (gs fs : List SstFile) (marks : Marks)
    → all_marked marks fs ≡ true
    → all_marked (mark_all gs marks) fs ≡ true
unfolding all_marked
all_marked-kept gs [] marks h = refl
all_marked-kept gs (f ∷ fs) marks h =
    let marked : is_compaction marks f ≡ true = ground arith in
    let others : all_marked marks fs ≡ true = ground arith in
    rw (mark_all-marked gs f marks marked) (all_marked-kept gs fs marks others)

is_nonempty-length : (fs : List SstFile) → 0 < length fs → is_nonempty fs ≡ true
is_nonempty-length [] h = absurd (omega arith)
is_nonempty-length (f ∷ fs) h = refl

-- A task that the picker hands out passes the assertions of the executor's check, if a task has at least
-- one file.
pub pick_candidate-IsReady :
    (host : Host) (self : Strategy) (marks marks' : Marks) (ssts : List SstFile)
    (expire : Option Timestamp) (task : Task)
    → All (λ f. f.meta.size < 2 ^ 32) ssts
    → 0 < self.input_sst_min_num
    → self.input_sst_max_num < 2 ^ 31
    → pick_candidate host self marks ssts expire ≡ ok (some task, marks')
    → IsReady marks' task
pick_candidate-IsReady host self marks marks' ssts expire task sizes least most e =
    let (pick, marked) =
      pick_candidate-IsPick host self marks marks' ssts expire task sizes most e in
    let ready : IsReady (mark_all task.expireds (mark_all task.inputs marks)) task = record {
      nonempty = is_nonempty-length task.inputs (omega (arith, pick.at_least));
      inputs =
          all_marked-kept task.expireds task.inputs (mark_all task.inputs marks)
            (all_marked-mark_all task.inputs marks);
      expireds = all_marked-mark_all task.expireds (mark_all task.inputs marks);
    } in
    subst (λ (m : Marks). IsReady m task) (sym marked) ready

-- A task that the full channel refuses is lost, and all its files stay marked.
pub refused_task :
    {Q : Type 0} ⦃channel : Channel Q⦄ (host : Host) (picker : Picker) (wake : Wake)
    (marks marks' : Marks) (tasks tasks' : Q) (task : Task)
    → All (λ f. f.meta.size < 2 ^ 32) wake.ssts
    → 0 < picker.strategy.input_sst_min_num
    → picker.strategy.input_sst_max_num < 2 ^ 31
    → pick_candidate host picker.strategy marks wake.ssts (expire_time wake.now picker.ttl)
      ≡ ok (some task, marks')
    → channel.try_send task tasks ≡ (false, tasks')
    → (generate_task host picker wake (marks, tasks) ≡ ok (marks', tasks'))
      × (all_marked marks' task.inputs ≡ true)
      × (all_marked marks' task.expireds ≡ true)
unfolding generate_task send_task
refused_task host picker wake marks marks' tasks tasks' task sizes least most e refused =
    let ready =
      pick_candidate-IsReady host picker.strategy marks marks' wake.ssts
        (expire_time wake.now picker.ttl) task sizes least most e in
    (rw e (ap (λ p. ok (marks', p.1)) refused), ready.inputs, ready.expireds)
