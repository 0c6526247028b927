-- ===== src/Examples/Times.antt =====
-- The theorems on timestamps, ranges and files, at concrete ones.
use horaedb.Prelude.{◌*◌, ◌≡◌, refl, true, ◌↔◌, some, arith}
use horaedb.Prelude.Int.{pos, negsuc, ◌-ℤ◌, ◌<ℤ◌, IsI64}
use horaedb.Prelude.Result.{ok}
use horaedb.Types.{Timestamp, TimeRange, as_millis, as_i64, div_i64, truncate_by, overlaps}
use horaedb.Types.Range.{Within, overlaps_iff}
use horaedb.Types.Segment.{IsTruncation, truncate_by-IsTruncation}
use horaedb.Sst.{is_expired, sst_try_from, pb_sst_from}
use horaedb.Sst.Convert.{sst_try_from_iff}
use horaedb.Compaction.Picker.{expire_time}
use horaedb.Compaction.Picker.Expiry.{expire_time_millis}
use horaedb.Examples.{file, second}

abbrev early : TimeRange
early = record { start = pos 0; end = pos 10 }

abbrev late : TimeRange
late = record { start = pos 5; end = pos 15 }

overlaps_iff_example :
    (overlaps early late ≡ true) ↔ ((t : Timestamp) × Within t early × Within t late)
overlaps_iff_example = overlaps_iff early late (omega arith) (omega arith)

truncate_by-IsTruncation_example :
    (r : Timestamp) × (truncate_by (negsuc 1500) second ≡ ok r)
    × IsTruncation (as_millis second) (negsuc 1500) r
    × IsI64 r
truncate_by-IsTruncation_example =
    truncate_by-IsTruncation (negsuc 1500) second (omega arith) (omega arith, omega arith)

truncates_early : truncate_by (negsuc 1500) second ≡ ok (negsuc 999)
unfolding truncate_by as_i64 div_i64
truncates_early = refl

truncates_late : truncate_by (pos 2100) second ≡ ok (pos 2000)
unfolding truncate_by as_i64 div_i64
truncates_late = refl

expire_time_millis_example :
    (is_expired (file 1 2 (pos 0) (pos 9)) (expire_time 1500000 (some second)) ≡ true)
    ↔ (pos 9 <ℤ pos 1500000 -ℤ pos (1000 * 1000))
expire_time_millis_example =
    expire_time_millis (file 1 2 (pos 0) (pos 9)) 1500000 1000 second refl (omega arith)
      (omega arith)

sst_try_from_iff_example :
    (sst_try_from (pb_sst_from (file 1 2 (pos 0) (pos 9))) ≡ ok (file 1 2 (pos 0) (pos 9)))
    ↔ (pb_sst_from (file 1 2 (pos 0) (pos 9)) ≡ pb_sst_from (file 1 2 (pos 0) (pos 9)))
sst_try_from_iff_example =
    sst_try_from_iff (pb_sst_from (file 1 2 (pos 0) (pos 9))) (file 1 2 (pos 0) (pos 9))
