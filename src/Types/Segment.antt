-- ===== src/Types/Segment.antt =====
-- `Timestamp::truncate_by`: the start of the segment of a timestamp.
use horaedb.Prelude.{ℕ, suc, ◌+◌, ◌*◌, ◌/◌, ◌^◌, ◌≤◌, ◌<◌, ◌≡◌, arith}
use horaedb.Prelude.Int.{ℤ, pos, negsuc, pos_part, neg_part, ◌≤ℤ◌, ◌*ℤ◌, ◌/ℤ◌, IsI64}
use horaedb.Prelude.Result.{ok, panic}
use horaedb.Types.{Timestamp, Duration, as_millis, as_i64, div_i64, truncate_by}

-- The duration is a whole, positive number of milliseconds that an `i64` holds.
abbrev pub IsSegment : Duration → Type 0
IsSegment d = (0 < as_millis d) × (as_millis d < 2 ^ 63)

pub as_i64_lem : (n : ℕ) → n < 2 ^ 63 → as_i64 n ≡ pos n
unfolding as_i64
as_i64_lem n h = ground arith

-- By a positive divisor the division does not panic.
pub div_i64-pos : (t : ℤ) (n : ℕ) → 0 < n → div_i64 t (pos n) ≡ ok (t /ℤ pos n)
unfolding div_i64
div_i64-pos (pos t) n h = ground arith
div_i64-pos (negsuc t) n h = ground arith

pub truncate_by_lem :
    (t : Timestamp) (d : Duration)
    → IsSegment d
    → truncate_by t d ≡ ok (t /ℤ pos (as_millis d) *ℤ pos (as_millis d))
unfolding truncate_by
truncate_by_lem t d (h, k) = rw (as_i64_lem (as_millis d) k, div_i64-pos t (as_millis d) h)

pub truncate_by_returns :
    (t : Timestamp) (d : Duration) → IsSegment d → (r : Timestamp) × (truncate_by t d ≡ ok r)
truncate_by_returns t d h = (t /ℤ pos (as_millis d) *ℤ pos (as_millis d), truncate_by_lem t d h)

-- The multiple of `n` nearest to `t` on the side of zero: `k` whole segments in each direction.
pub record IsTruncation (n : ℕ) (t r : ℤ) : Type 0 where
  pub multiple : (k : ℕ) × (pos_part r + neg_part r ≡ k * n)
  pub below : (pos_part r ≤ pos_part t) × (neg_part r ≤ neg_part t)
  pub near : (pos_part t < pos_part r + n) × (neg_part t < neg_part r + n)

div_mul-le : (a n : ℕ) → 0 < n → (a / n * n ≤ a) × (a < a / n * n + n)
div_mul-le a n h = grind arith

quot-IsTruncation : (t : ℤ) (n : ℕ) → 0 < n → IsTruncation n t (t /ℤ pos n *ℤ pos n)
quot-IsTruncation (pos t) n h = record {
  multiple = (t / n, omega arith);
  below = ground (arith, div_mul-le t n h);
  near = ground (arith, div_mul-le t n h);
}
quot-IsTruncation (negsuc t) n h = record {
  multiple = (suc t / n, ground arith);
  below = ground (arith, div_mul-le (suc t) n h);
  near = ground (arith, div_mul-le (suc t) n h);
}

-- For a segment of a positive number of milliseconds that an `i64` holds: on every `i64` `truncate_by`
-- returns the truncation, an `i64` again.
pub truncate_by-IsTruncation :
    (t : Timestamp) (d : Duration)
    → IsI64 t
    → IsSegment d
    → (r : Timestamp) × (truncate_by t d ≡ ok r) × IsTruncation (as_millis d) t r × IsI64 r
truncate_by-IsTruncation t d ht hd =
    let q = quot-IsTruncation t (as_millis d) hd.0 in
    (t /ℤ pos (as_millis d) *ℤ pos (as_millis d), truncate_by_lem t d hd, q, omega (arith, q.below))

div_mul_mono : (a b n : ℕ) → a ≤ b → a / n * n ≤ b / n * n
div_mul_mono a b n h = grind arith

quot_mono : (t u : ℤ) (n : ℕ) → 0 < n → t ≤ℤ u → (t /ℤ pos n *ℤ pos n) ≤ℤ (u /ℤ pos n *ℤ pos n)
quot_mono (pos t) (pos u) n hn h = ground (arith, div_mul_mono t u n)
quot_mono (pos t) (negsuc u) n hn h = absurd (omega arith)
quot_mono (negsuc t) (pos u) n hn h = ground arith
quot_mono (negsuc t) (negsuc u) n hn h = ground (arith, div_mul_mono (suc u) (suc t) n)

-- A later timestamp has no earlier segment.
pub truncate_by_mono :
    (t u : Timestamp) (d : Duration) {r s : Timestamp}
    → IsSegment d
    → t ≤ℤ u
    → truncate_by t d ≡ ok r
    → truncate_by u d ≡ ok s
    → r ≤ℤ s
truncate_by_mono t u d hd h er es =
    let m = quot_mono t u (as_millis d) hd.0 h in
    ground (arith, truncate_by_lem t d hd, truncate_by_lem u d hd, m)

-- A segment length of zero milliseconds is a division by zero.
pub truncate_by_zero : (t : Timestamp) (d : Duration) → as_millis d ≡ 0 → truncate_by t d ≡ panic
unfolding truncate_by div_i64 as_i64
truncate_by_zero t d h = rw h
