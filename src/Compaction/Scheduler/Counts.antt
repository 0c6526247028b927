-- ===== src/Compaction/Scheduler/Counts.antt =====
-- How often an id stands among files, and what the picker and the marks do with it.
use horaedb.Prelude.{
  ℕ, zero, suc, ◌+◌, ◌%◌, ◌^◌, ◌≤◌, ◌≡◌, refl, sym, ap, ◌∙◌, Bool, true, false, not, ◌&&◌, ◌||◌,
  Bool-cases, inl, inr, Option-cases, Option, none, some, List, [], ◌∷◌, ◌++◌, take, retain, ltb,
  ◌==◌, if◌then◌else◌, arith,
}
use horaedb.Prelude.Result.{ok, bind_then, ok-injective}
use horaedb.Types.{Timestamp}
use horaedb.Sst.{FileId, SstFile, Marks, is_compaction, mark_compaction, unmark_compaction}
use horaedb.Compaction.{Task}
use horaedb.Compaction.Executor.{unmark_all}
use horaedb.Compaction.Picker.{
  Host, Strategy, SegmentMap, take_while_fits, mark_all, files_by_segment, choose, pick_from,
  pick_compaction_files, pick_candidate, make_task,
}
use horaedb.Compaction.Picker.Latest.{qualifies, pick_from-cases}
use horaedb.Compaction.Picker.Segments.{files_of, files_by_segment-IsGrouped}
use horaedb.Compaction.Picker.Pick.{
  uncompacted, expired, find_uncompacted_and_expired_files_lem, make_task-some,
}
use mathlib.Core.List.{reverse, reverse-cons, Permᴰ}

abbrev pub count : FileId → List SstFile → ℕ
count i [] = 0
count i (f ∷ fs) = let rest = count i fs in if f.id == i then suc rest else rest

-- One for `true`.
abbrev pub flag : Bool → ℕ
flag true = 1
flag false = 0

module _ (i : FileId) where
  pub count-append : (fs gs : List SstFile) → count i (fs ++ gs) ≡ count i fs + count i gs
  count-append [] gs = omega arith
  count-append (f ∷ fs) gs = ground (arith, count-append fs gs)

  count-Permᴰ : {fs gs : List SstFile} → Permᴰ fs gs → count i fs ≡ count i gs
  count-Permᴰ Permᴰ.nil = refl
  count-Permᴰ (Permᴰ.cons e d) = rw (e, count-Permᴰ d)
  count-Permᴰ (Permᴰ.swap {a = a} {b = b} e f) = rw (← e, ← f) (ground arith)
  count-Permᴰ (Permᴰ.trans d e) = count-Permᴰ d ∙ count-Permᴰ e

  count-take-le : (n : ℕ) (fs : List SstFile) → count i (take n fs) ≤ count i fs
  count-take-le zero fs = omega arith
  count-take-le (suc n) [] = omega arith
  count-take-le (suc n) (f ∷ fs) = ground (arith, count-take-le n fs)

  count-take_while_fits-le :
      (size limit : ℕ) (fs : List SstFile) → count i (take_while_fits size limit fs) ≤ count i fs
  unfolding take_while_fits
  count-take_while_fits-le size limit [] = omega arith
  count-take_while_fits-le size limit (f ∷ fs) =
      ground (arith, count-take_while_fits-le ((size + f.meta.size) % 2 ^ 64) limit fs)

  count-choose-le :
      (host : Host) (self : Strategy) (fs : List SstFile)
      → count i (choose host self fs) ≤ count i fs
  unfolding choose
  count-choose-le host self fs = omega (
    arith,
    count-take_while_fits-le 0 (host.plus_tenth self.new_sst_max_size)
        (take self.input_sst_max_num (host.sort fs)),
    count-take-le self.input_sst_max_num (host.sort fs),
    count-Permᴰ (host.sort-perm fs),
  )

  count-pick_from-le :
      (host : Host) (self : Strategy) (m : SegmentMap) (files : List SstFile)
      → pick_from host self m ≡ some files
      → count i files ≤ count i (files_of m)
  count-pick_from-le host self [] files e = unfold pick_from in cc
  count-pick_from-le host self ((k, fs) ∷ m) files e =
      let cases = sym (pick_from-cases host self k fs m) ∙ e in
      elim (Bool-cases (qualifies host self fs)) [
        | inl q ↦
            let chosen : choose host self fs ≡ files = cc (rw q at cases) in
            omega (
              arith,
              count-append fs (files_of m),
              count-choose-le host self fs,
              ap (count i) chosen,
            )
        | inr q ↦ omega (
          arith,
          count-append fs (files_of m),
          count-pick_from-le host self m files (rw q at cases),
        )
      ]

  count-reverse : (m : SegmentMap) → count i (files_of (reverse m)) ≡ count i (files_of m)
  count-reverse [] = refl
  count-reverse (e ∷ m) = rw (reverse-cons e m) (
      omega (
        arith,
        count-files_of (reverse m) (e ∷ []),
        count-reverse m,
        count-append e.1 (files_of m),
        count-append e.1 [],
      ))
    where
      count-files_of :
          (m n : SegmentMap)
          → count i (files_of (m ++ n)) ≡ count i (files_of m) + count i (files_of n)
      count-files_of [] n = omega arith
      count-files_of (e ∷ m) n = omega (
        arith,
        count-append e.1 (files_of (m ++ n)),
        count-append e.1 (files_of m),
        count-files_of m n,
      )

  -- The two vectors of the picker hold unmarked files only, each once.
  count-candidates :
      (marks : Marks) (expire_time : Option Timestamp) (ssts : List SstFile)
      → count i (retain (uncompacted marks expire_time) ssts)
          + count i (retain (expired marks expire_time) ssts)
        ≤ (if marks i then 0 else count i ssts)
  unfolding is_compaction
  count-candidates marks expire_time [] = ground arith
  count-candidates marks expire_time (f ∷ fs) =
      ground (arith, count-candidates marks expire_time fs)

  pub mark_all-count :
      (fs : List SstFile) (marks : Marks) → mark_all fs marks i ≡ (marks i || ltb 0 (count i fs))
  unfolding mark_all mark_compaction
  mark_all-count [] marks = ground arith
  mark_all-count (f ∷ fs) marks = mark_all-count fs (mark_compaction f marks) ∙ ground arith

  pub unmark_all-count :
      (fs : List SstFile) (marks : Marks)
      → unmark_all fs marks i ≡ (marks i && not (ltb 0 (count i fs)))
  unfolding unmark_all unmark_compaction
  unmark_all-count [] marks = ground arith
  unmark_all-count (f ∷ fs) marks = unmark_all-count fs (unmark_compaction f marks) ∙ ground arith

abbrev pub count_task : FileId → Task → ℕ
count_task i task = count i task.inputs + count i task.expireds

abbrev pub count_tasks : FileId → List Task → ℕ
count_tasks i [] = 0
count_tasks i (task ∷ tasks) = count_task i task + count_tasks i tasks

pub count_tasks-append :
    (i : FileId) (ts us : List Task)
    → count_tasks i (ts ++ us) ≡ count_tasks i ts + count_tasks i us
count_tasks-append i [] us = omega arith
count_tasks-append i (t ∷ ts) us = omega (arith, count_tasks-append i ts us)

-- Each id at most as often as it is marked, so at most once.
pub record IsHeld (marks : Marks) (tasks : List Task) : Type 0 where
  pub held : (i : FileId) → count_tasks i tasks ≤ flag (marks i)

-- What one turn of the picker does to the counts and the marks.
pub record PickCounts (ssts : List SstFile) (marks marks' : Marks) (task : Task) : Type 0 where
  pub fresh : (i : FileId) → count_task i task ≤ (if marks i then 0 else count i ssts)
  pub marked : marks' ≡ mark_all task.expireds (mark_all task.inputs marks)

pub pick_candidate-PickCounts :
    (host : Host) (self : Strategy) (marks marks' : Marks) (ssts : List SstFile)
    (expire_time : Option Timestamp) (task : Task)
    → pick_candidate host self marks ssts expire_time ≡ ok (some task, marks')
    → PickCounts ssts marks marks' task
unfolding pick_candidate
pick_candidate-PickCounts host self marks marks' ssts expire_time task e =
    bind_then (files_by_segment host self _) _ (rw find_uncompacted_and_expired_files_lem at e)
      λ m grouped k. elim (Option-cases (pick_compaction_files host self m)) [
        | inl nothing ↦ let k' = rw nothing at k in cc
        | inr (files, some_files) ↦
            let (inputs, expireds, marked) =
              make_task-some marks marks' files _ task
                (ok-injective (rw (some_files, find_uncompacted_and_expired_files_lem) at k)) in
            let g = files_by_segment-IsGrouped host self _ grouped in
            record {
              fresh = λ i. omega (
                arith,
                ap (count i) inputs,
                ap (count i) expireds,
                count-pick_from-le i host self (reverse m) files
                    (unfold pick_compaction_files in some_files),
                count-reverse i m,
                count-Permᴰ i g.complete,
                count-candidates i marks expire_time ssts,
              );
              marked = rw (inputs, expireds) marked;
            }
      ]

make_task-none :
    (marks marks' : Marks) (files expireds : List SstFile)
    → make_task marks files expireds ≡ (none, marks')
    → marks' ≡ marks
unfolding make_task
make_task-none marks marks' [] [] e = cc
make_task-none marks marks' [] (g ∷ expireds) e = cc
make_task-none marks marks' (f ∷ files) expireds e = cc

pub pick_candidate-none :
    (host : Host) (self : Strategy) (marks marks' : Marks) (ssts : List SstFile)
    (expire_time : Option Timestamp)
    → pick_candidate host self marks ssts expire_time ≡ ok (none, marks')
    → marks' ≡ marks
unfolding pick_candidate
pick_candidate-none host self marks marks' ssts expire_time e =
    bind_then (files_by_segment host self _) _ e λ m grouped k.
      elim (Option-cases (pick_compaction_files host self m)) [
        | inl nothing ↦ let k' = rw nothing at k in cc
        | inr (files, some_files) ↦
            make_task-none marks marks' files _ (ok-injective (rw some_files at k))
      ]
