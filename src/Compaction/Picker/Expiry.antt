-- ===== src/Compaction/Picker/Expiry.antt =====
-- When expired files are handed out, and which files count as expired.
use horaedb.Prelude.{
  ℕ, ◌*◌, ◌^◌, ◌<◌, ◌≡◌, ◌↔◌, refl, ◌∙◌, true, Option, none, some, List, [], ◌∷◌, All, length,
  length-append, retain, arith,
}
use horaedb.Prelude.Int.{pos, ◌-ℤ◌, ◌<ℤ◌}
use horaedb.Prelude.Result.{ok}
use horaedb.Types.{Timestamp, Duration, as_micros}
use horaedb.Types.Segment.{IsSegment, as_i64_lem}
use horaedb.Sst.{SstFile, Marks, is_expired}
use horaedb.Compaction.Picker.{
  Host, Strategy, SegmentMap, pick_from, pick_compaction_files, pick_candidate, expire_time,
}
use horaedb.Compaction.Picker.Segments.{
  files_of, files_by_segment-IsGrouped, files_by_segment_returns,
}
use horaedb.Compaction.Picker.Latest.{All-reverse}
use horaedb.Compaction.Picker.Pick.{uncompacted, find_uncompacted_and_expired_files_lem}
use mathlib.Core.List.{reverse, Permᴰ}

length-Permᴰ : {fs gs : List SstFile} → Permᴰ fs gs → length fs ≡ length gs
length-Permᴰ Permᴰ.nil = refl
length-Permᴰ (Permᴰ.cons e d) = omega (arith, length-Permᴰ d)
length-Permᴰ (Permᴰ.swap e g) = refl
length-Permᴰ (Permᴰ.trans d e) = length-Permᴰ d ∙ length-Permᴰ e

few_each : (n : ℕ) (m : SegmentMap) → length (files_of m) < n → All (λ entry. length entry.1 < n) m
few_each n [] h = tt
few_each n (entry ∷ m) h = (
  omega (arith, length-append entry.1 (files_of m)),
  few_each n m (omega (arith, length-append entry.1 (files_of m))),
)

pick_from-few :
    (host : Host) (self : Strategy) (ms : SegmentMap)
    → All (λ entry. length entry.1 < self.input_sst_min_num) ms
    → pick_from host self ms ≡ none
unfolding pick_from
pick_from-few host self [] h = refl
pick_from-few host self (entry ∷ ms) (h, hs) = ground (arith, pick_from-few host self ms hs)

-- For a segment of a positive number of milliseconds that an `i64` holds: while fewer files than
-- `input_sst_min_num` are neither marked nor expired, no task is handed out and no file is marked,
-- however many have expired.
pub expired_wait :
    (host : Host) (self : Strategy) (marks : Marks) (ssts : List SstFile)
    (expire : Option Timestamp)
    → IsSegment self.segment_duration
    → length (retain (uncompacted marks expire) ssts) < self.input_sst_min_num
    → pick_candidate host self marks ssts expire ≡ ok (none, marks)
unfolding pick_candidate
expired_wait host self marks ssts expire h few =
    let files = retain (uncompacted marks expire) ssts in
    let (m, grouped) = files_by_segment_returns host self files h in
    let g = files_by_segment-IsGrouped host self files grouped in
    let each = few_each self.input_sst_min_num m (omega (arith, length-Permᴰ g.complete)) in
    let nothing : pick_compaction_files host self m ≡ none =
      unfold pick_compaction_files in
      pick_from-few host self (reverse m)
        (All-reverse (λ entry. length entry.1 < self.input_sst_min_num) m each) in
    rw (find_uncompacted_and_expired_files_lem, grouped, nothing)

expire_time_lem :
    (now n : ℕ) (ttl : Duration)
    → as_micros ttl ≡ 1000 * n
    → now < 2 ^ 62
    → n < 2 ^ 50
    → expire_time now (some ttl) ≡ some (pos now -ℤ pos (1000 * n))
unfolding expire_time
expire_time_lem now n ttl micros small short =
    rw (micros, as_i64_lem now (omega arith), as_i64_lem (1000 * n) (omega arith)) (ground arith)

is_expired_iff :
    (f : SstFile) (time : Timestamp)
    → (is_expired f (some time) ≡ true) ↔ (f.meta.time_range.end <ℤ time)
unfolding is_expired
is_expired_iff f time = (λ e. ground arith, λ lt. ground arith)

-- The clock is in milliseconds and the TTL is subtracted in microseconds: for a clock below 2^62 and
-- a TTL of `n` milliseconds below 2^50, a file counts as expired exactly if its end is more than
-- `1000 * n` milliseconds back.
pub expire_time_millis :
    (f : SstFile) (now n : ℕ) (ttl : Duration)
    → as_micros ttl ≡ 1000 * n
    → now < 2 ^ 62
    → n < 2 ^ 50
    → (is_expired f (expire_time now (some ttl)) ≡ true)
      ↔ (f.meta.time_range.end <ℤ pos now -ℤ pos (1000 * n))
expire_time_millis f now n ttl micros small short =
    rw (expire_time_lem now n ttl micros small short) (is_expired_iff f (pos now -ℤ pos (1000 * n)))
