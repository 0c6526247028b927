-- ===== src/Compaction/Picker/Pick.antt =====
-- The task that the picker hands out.
use mathlib.Core.List.{Mem}
use horaedb.Prelude.{
  ℕ, ◌^◌, ◌≤◌, ◌<◌, ◌≡◌, refl, sym, subst, ◌∙◌, Bool, true, false, not, ◌&&◌, inl, inr,
  Option-cases, Option, some, List, [], ◌∷◌, All, All-append_left, All-append_right, All-map,
  All-zip, All-retain, All-retain_test, length, retain, ltb, leb, arith,
}
use horaedb.Prelude.Result.{ok, bind_then, ok-injective}
use horaedb.Types.{Timestamp, Duration}
use horaedb.Sst.{SstFile, Marks, is_compaction, is_expired}
use horaedb.Compaction.{Task, total_size}
use horaedb.Compaction.Picker.{
  Host, Strategy, SegmentMap, find_uncompacted_and_expired_files, files_by_segment, choose,
  pick_compaction_files, make_task, mark_all, pick_candidate,
}
use horaedb.Compaction.Picker.Choice.{All-Permᴰ, All-choose, length-choose, total_size-choose}
use horaedb.Compaction.Picker.Latest.{IsLatest, entry_All, pick_compaction_files-IsLatest}
use horaedb.Compaction.Picker.Segments.{
  AllUnder, files_of, InSegment, IsGrouped, files_by_segment-IsGrouped,
}

abbrev pub uncompacted : Marks → Option Timestamp → SstFile → Bool
uncompacted marks expire_time f = not (is_compaction marks f) && not (is_expired f expire_time)

abbrev pub expired : Marks → Option Timestamp → SstFile → Bool
expired marks expire_time f = not (is_compaction marks f) && is_expired f expire_time

-- The two vectors are two filters, in the order of the files.
pub find_uncompacted_and_expired_files_lem :
    (marks : Marks) (files : List SstFile) (expire_time : Option Timestamp)
    → find_uncompacted_and_expired_files marks files expire_time
      ≡ (retain (uncompacted marks expire_time) files, retain (expired marks expire_time) files)
unfolding find_uncompacted_and_expired_files
find_uncompacted_and_expired_files_lem marks [] expire_time = refl
find_uncompacted_and_expired_files_lem marks (f ∷ files) expire_time =
    rw (find_uncompacted_and_expired_files_lem marks files expire_time) (ground arith)

-- The file is one of `ssts`, and it can be compacted with the others of its segment `k`.
pub record IsEligible (d : Duration) (marks : Marks) (expire_time : Option Timestamp)
    (ssts : List SstFile) (k : Timestamp) (f : SstFile) : Type 0 where
  pub listed : Mem f ssts
  pub unmarked : is_compaction marks f ≡ false
  pub unexpired : is_expired f expire_time ≡ false
  pub segment : InSegment d k f

-- What the picker promises of a task.
pub record IsPick (host : Host) (self : Strategy) (marks : Marks) (expire_time : Option Timestamp)
    (ssts : List SstFile) (task : Task) : Type 0 where
  pub segment : Timestamp
  pub eligible : All (IsEligible self.segment_duration marks expire_time ssts segment) task.inputs
  pub at_least : self.input_sst_min_num ≤ length task.inputs
  pub at_most : length task.inputs ≤ self.input_sst_max_num
  pub within_limit : total_size task.inputs ≤ host.plus_tenth self.new_sst_max_size
  pub expireds : task.expireds ≡ retain (expired marks expire_time) ssts

AllUnder-files_of :
    (P : SstFile → Type 0) (m : SegmentMap) → All P (files_of m) → AllUnder (λ k f. P f) m
AllUnder-files_of P [] h = tt
AllUnder-files_of P (e ∷ m) h = (
  All-append_left P e.1 (files_of m) h,
  AllUnder-files_of P m (All-append_right P e.1 (files_of m) h),
)

-- What `uncompacted` tests.
to_IsEligible :
    (d : Duration) (marks : Marks) (expire_time : Option Timestamp) (ssts : List SstFile)
    (k : Timestamp) (f : SstFile)
    → (Mem f ssts × (uncompacted marks expire_time f ≡ true)) × InSegment d k f
    → IsEligible d marks expire_time ssts k f
to_IsEligible d marks expire_time ssts k f ((listed, test), segment) = record {
  listed = listed;
  unmarked = ground arith;
  unexpired = ground arith;
  segment = segment;
}

pub make_task-some :
    (marks marks' : Marks) (files expireds : List SstFile) (task : Task)
    → make_task marks files expireds ≡ (some task, marks')
    → (task.inputs ≡ files)
      × (task.expireds ≡ expireds)
      × (marks' ≡ mark_all expireds (mark_all files marks))
unfolding make_task
make_task-some marks marks' [] [] task e = ground arith
make_task-some marks marks' [] (g ∷ expireds) task e = ground arith
make_task-some marks marks' (f ∷ files) expireds task e = ground arith

enough_files :
    (len chosen least : ℕ) → (not (ltb len least) && leb least chosen) ≡ true → least ≤ chosen
enough_files len chosen least e = ground arith

-- The choice from the grouped files, for any vectors of uncompacted and expired files.
picked :
    (host : Host) (self : Strategy) (marks : Marks) (ssts : List SstFile)
    (expire_time : Option Timestamp) (task : Task) (m : SegmentMap) (files : List SstFile)
    → All (λ f. f.meta.size < 2 ^ 32) ssts
    → self.input_sst_max_num < 2 ^ 31
    → IsGrouped self.segment_duration m (retain (uncompacted marks expire_time) ssts)
    → IsLatest host self m files
    → task.inputs ≡ files
    → task.expireds ≡ retain (expired marks expire_time) ssts
    → IsPick host self marks expire_time ssts task
picked host self marks ssts expire_time task m files small few grouped latest inputs expireds =
    let test = uncompacted marks expire_time in
    let Passes : SstFile → Type 0 = λ f. Mem f ssts × (test f ≡ true) in
    let Small : SstFile → Type 0 = λ f. f.meta.size < 2 ^ 32 in
    let spread = λ (P : SstFile → Type 0) (h : All P (retain test ssts)).
      entry_All latest (λ k f. P f) (AllUnder-files_of P m (All-Permᴰ P grouped.complete h)) in
    let passing = spread Passes (All-retain_test test ssts) in
    let small_members = spread Small (All-retain Small test ssts small) in
    let under = entry_All latest (InSegment self.segment_duration) grouped.under in
    let members =
      All-map _ _ (to_IsEligible self.segment_duration marks expire_time ssts latest.segment)
        latest.members
        (All-zip Passes (InSegment self.segment_duration latest.segment) latest.members passing
          under) in
    let choice : choose host self latest.members ≡ task.inputs = latest.chosen ∙ sym inputs in
    record {
      segment = latest.segment;
      eligible = subst (All _) choice (All-choose host self _ latest.members members);
      at_least =
          subst (λ l. self.input_sst_min_num ≤ length l) choice (enough_files _ _ _ latest.enough);
      at_most =
          subst (λ l. length l ≤ self.input_sst_max_num) choice
            (length-choose host self latest.members);
      within_limit =
          subst (λ l. total_size l ≤ host.plus_tenth self.new_sst_max_size) choice
            (total_size-choose host self latest.members small_members few);
      expireds = expireds;
    }

-- For files of less than 2^32 bytes and an `input_sst_max_num` below 2^31: the input of every task
-- that the picker hands out are listed files of one segment, neither marked nor expired, at least
-- `input_sst_min_num` and at most `input_sst_max_num`, and together at most a tenth above
-- `new_sst_max_size`; its expired files are all that have expired and are not marked. It marks
-- exactly the files of the task.
pub pick_candidate-IsPick :
    (host : Host) (self : Strategy) (marks marks' : Marks) (ssts : List SstFile)
    (expire_time : Option Timestamp) (task : Task)
    → All (λ f. f.meta.size < 2 ^ 32) ssts
    → self.input_sst_max_num < 2 ^ 31
    → pick_candidate host self marks ssts expire_time ≡ ok (some task, marks')
    → IsPick host self marks expire_time ssts task
      × (marks' ≡ mark_all task.expireds (mark_all task.inputs marks))
unfolding pick_candidate
pick_candidate-IsPick host self marks marks' ssts expire_time task small few e =
    bind_then (files_by_segment host self _) _ (rw find_uncompacted_and_expired_files_lem at e)
      λ m grouped k. elim (Option-cases (pick_compaction_files host self m)) [
        | inl nothing ↦ let k' = rw nothing at k in cc
        | inr (files, some_files) ↦
            let (inputs, expireds, marked) =
              make_task-some marks marks' files _ task
                (ok-injective (rw (some_files, find_uncompacted_and_expired_files_lem) at k)) in
            let g = files_by_segment-IsGrouped host self _ grouped in
            (
              picked host self marks ssts expire_time task m files small few g
                  (pick_compaction_files-IsLatest host self m files g.ascending some_files) inputs
                  expireds,
              rw (inputs, expireds) marked,
            )
      ]
