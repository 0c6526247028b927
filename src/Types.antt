-- ===== src/Types.antt =====
-- src/storage/src/types.rs: timestamps and time ranges; `std::time::Duration` as the code uses it.
pub mod Range
pub mod Segment
use horaedb.Prelude.{ℕ, ◌+◌, ◌-◌, ◌*◌, ◌/◌, ◌%◌, ◌^◌, Bool, ◌&&◌, ◌||◌, if◌then◌else◌}
use horaedb.Prelude.Int.{ℤ, pos, negsuc, ◌*ℤ◌, ◌/ℤ◌, ltb_ℤ, eqb_ℤ, min_ℤ, max_ℤ, i64_of_bits}
use horaedb.Prelude.Result.{Result, ok, panic, ◌>>=◌}

-- `Timestamp(pub i64)`.
abbrev pub Timestamp : Type 0
Timestamp = ℤ

abbrev pub i64_min : ℤ
i64_min = negsuc (2 ^ 63 - 1)

-- A duration: whole seconds, and nanoseconds below one second.
pub record Duration : Type 0 where
  pub secs : ℕ
  pub nanos : ℕ

abbrev pub as_millis : Duration → ℕ
as_millis d = d.secs * 1000 + d.nanos / 1_000_000

abbrev pub as_micros : Duration → ℕ
as_micros d = d.secs * 1_000_000 + d.nanos / 1000

-- `as i64` of a number of milliseconds or microseconds.
unfoldable pub as_i64 : ℕ → ℤ
as_i64 n = i64_of_bits (n % 2 ^ 64)

-- Rust's `/` on `i64` panics at a zero divisor, and where the quotient leaves the range.
unfoldable pub div_i64 : ℤ → ℤ → Result ℤ
div_i64 a b =
    if eqb_ℤ b (pos 0) || (eqb_ℤ a i64_min && eqb_ℤ b (negsuc 0)) then panic else ok (a /ℤ b)

-- The product lies between 0 and `t`, so it does not wrap.
unfoldable pub truncate_by : Timestamp → Duration → Result Timestamp
truncate_by t duration = do
  let duration_millis = as_i64 (as_millis duration)
  q ← div_i64 t duration_millis
  ok (q *ℤ duration_millis)

-- `TimeRange(Range<Timestamp>)`: `start` belongs to the range, `end` does not.
pub record TimeRange : Type 0 where
  pub start : Timestamp
  pub end : Timestamp

unfoldable pub overlaps : TimeRange → TimeRange → Bool
overlaps self other = ltb_ℤ self.start other.end && ltb_ℤ other.start self.end

unfoldable pub merge : TimeRange → TimeRange → TimeRange
merge self other = record { start = min_ℤ self.start other.start; end = max_ℤ self.end other.end }
