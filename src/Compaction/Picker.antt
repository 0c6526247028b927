-- ===== src/Compaction/Picker.antt =====
-- src/storage/src/compaction/picker.rs: which files the next compaction takes.
-- `BTreeMap` is a list in the order of its keys. `sort_unstable_by_key` leaves the order of files of
-- one size open, and a product of floats gives the memory limit: both are parameters.
pub mod Segments
pub mod Choice
pub mod Latest
pub mod Pick
pub mod Expiry
use horaedb.Prelude.{
  ℕ, ◌+◌, ◌-◌, ◌%◌, ◌^◌, ◌≤◌, Bool, true, false, not, Option, none, some, List, [], ◌∷◌, ◌++◌, All,
  length, take, retain, ltb, leb, ◌==◌, ◌&&◌, if◌then◌else◌,
}
use horaedb.Prelude.Int.{ltb_ℤ, eqb_ℤ, wrap_i64, ◌-ℤ◌}
use horaedb.Prelude.Result.{Result, ok, err, panic, ◌>>=◌}
use horaedb.Types.{Timestamp, Duration, TimeRange, truncate_by, as_micros, as_i64}
use horaedb.Sst.{SstFile, Marks, is_compaction, is_expired, mark_compaction}
use horaedb.Compaction.{Task}
use mathlib.Core.List.{reverse, foldr, Permᴰ}

-- Each file is at most as large as all that follow it.
abbrev pub IsSortedBySize : List SstFile → Type 0
IsSortedBySize [] = Unit
IsSortedBySize (f ∷ fs) = All (λ g. f.meta.size ≤ g.meta.size) fs × IsSortedBySize fs

pub record Host : Type 0 where
  -- `files.sort_unstable_by_key(SstFile::size)`
  pub sort : List SstFile → List SstFile
  pub sort-perm : (fs : List SstFile) → Permᴰ (sort fs) fs
  pub sort-IsSortedBySize : (fs : List SstFile) → IsSortedBySize (sort fs)
  -- `(size as f64 * 1.1) as u64`
  pub plus_tenth : ℕ → ℕ

pub record Strategy : Type 0 where
  pub segment_duration : Duration
  pub new_sst_max_size : ℕ
  pub input_sst_max_num : ℕ
  pub input_sst_min_num : ℕ

-- The loop over the files, which pushes each onto one of two vectors, or onto none.
unfoldable pub find_uncompacted_and_expired_files :
    Marks → List SstFile → Option Timestamp → List SstFile × List SstFile
find_uncompacted_and_expired_files marks [] expire_time = ([], [])
find_uncompacted_and_expired_files marks (f ∷ files) expire_time =
    let (uncompacted_files, expired_files) =
      find_uncompacted_and_expired_files marks files expire_time in
    if is_compaction marks f
    then (uncompacted_files, expired_files)
    else if is_expired f expire_time
    then (uncompacted_files, f ∷ expired_files)
    else (f ∷ uncompacted_files, expired_files)

abbrev pub SegmentMap : Type 0
SegmentMap = List (Timestamp × List SstFile)

-- `files_by_segment.entry(segment).or_insert_with(Vec::new).push(file)`
unfoldable pub entry_push : Timestamp → SstFile → SegmentMap → SegmentMap
entry_push segment file [] = (segment, file ∷ []) ∷ []
entry_push segment file ((key, files) ∷ entries) =
    let rest = entry_push segment file entries in
    if eqb_ℤ segment key
    then (key, files ++ file ∷ []) ∷ entries
    else if ltb_ℤ segment key
    then (segment, file ∷ []) ∷ (key, files) ∷ entries
    else (key, files) ∷ rest

unfoldable pub group_files : Duration → SegmentMap → List SstFile → Result SegmentMap
group_files segment_duration files_by_segment [] = ok files_by_segment
group_files segment_duration files_by_segment (file ∷ files) = do
  segment ← truncate_by file.meta.time_range.start segment_duration
  group_files segment_duration (entry_push segment file files_by_segment) files

-- `take_while`, with the running size; `input_size` is a `u64`.
unfoldable pub take_while_fits : ℕ → ℕ → List SstFile → List SstFile
take_while_fits input_size memory_limit [] = []
take_while_fits input_size memory_limit (f ∷ files) =
    let size = (input_size + f.meta.size) % 2 ^ 64 in
    let rest = take_while_fits size memory_limit files in
    if leb size memory_limit then f ∷ rest else []

-- `f.mark_compaction()` for each file.
unfoldable pub mark_all : List SstFile → Marks → Marks
unfolding mark_compaction
mark_all [] marks = marks
mark_all (f ∷ files) marks = mark_all files (mark_compaction f marks)

abbrev pub is_empty : List SstFile → Bool
is_empty [] = true
is_empty (f ∷ fs) = false

-- Neither vector of files: no task. Otherwise the files are marked.
unfoldable pub make_task : Marks → List SstFile → List SstFile → Option Task × Marks
make_task marks compaction_files expired_files =
    if is_empty compaction_files && is_empty expired_files then (none, marks) else (
      some (record { inputs = compaction_files; expireds = expired_files }),
      mark_all expired_files (mark_all compaction_files marks),
    )

module _ (host : Host) (self : Strategy) where
  unfoldable pub files_by_segment : List SstFile → Result SegmentMap
  files_by_segment files = group_files self.segment_duration [] files

  unfoldable pub choose : List SstFile → List SstFile
  choose files =
      take_while_fits 0 (host.plus_tenth self.new_sst_max_size)
        (take self.input_sst_max_num (host.sort files))

  -- The loop over the segments, the latest first.
  unfoldable pub pick_from : SegmentMap → Option (List SstFile)
  pick_from [] = none
  pick_from ((segment, files) ∷ segments) =
      let rest = pick_from segments in
      let compaction_files = choose files in
      if ltb (length files) self.input_sst_min_num
      then rest
      else if leb self.input_sst_min_num (length compaction_files)
      then some compaction_files
      else rest

  unfoldable pub pick_compaction_files : SegmentMap → Option (List SstFile)
  unfolding pick_from
  pick_compaction_files segments = pick_from (reverse segments)

  unfoldable pub pick_candidate :
      Marks → List SstFile → Option Timestamp → Result (Option Task × Marks)
  unfolding files_by_segment
  pick_candidate marks ssts expire_time = do
    let (uncompacted_files, expired_files) =
        find_uncompacted_and_expired_files marks ssts expire_time
    by_segment ← files_by_segment uncompacted_files
    -- `?` on an `Option`: no files to compact, no task
    ok (elim (pick_compaction_files by_segment) [
      | none ↦ (none, marks)
      | some compaction_files ↦ make_task marks compaction_files expired_files
    ])

-- `Picker::pick_candidate`: `now()` is in milliseconds, and the TTL is subtracted in microseconds.
unfoldable pub expire_time : ℕ → Option Duration → Option Timestamp
expire_time now none = none
expire_time now (some ttl) = some (wrap_i64 (as_i64 now -ℤ as_i64 (as_micros ttl)))
