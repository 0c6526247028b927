-- ===== src/Storage/Segment.antt =====
-- The check of `write`: the rows of a write lie in one segment.
use horaedb.Prelude.{
  ℕ, suc, ◌/◌, ◌≤◌, ◌<◌, ◌≡◌, sym, ap, ◌∙◌, Bool, true, false, refl, inl, inr, Bool-cases, arith,
}
use horaedb.Prelude.Int.{ℤ, pos, negsuc, ◌≤ℤ◌, ◌<ℤ◌, ◌-ℤ◌, ◌*ℤ◌, ◌/ℤ◌, eqb_ℤ, eqb_ℤ_iff, IsI64}
use horaedb.Prelude.Result.{ok, ensure, cross_segment}
use horaedb.Types.{Timestamp, TimeRange, Duration, as_millis, i64_min, truncate_by}
use horaedb.Types.Segment.{IsSegment, as_i64_lem, div_i64-pos, truncate_by_lem}
use horaedb.Storage.{before, check_segment}

div_mono : (a b n : ℕ) → 0 < n → a ≤ b → a / n ≤ b / n
div_mono a b n hn h = grind arith

quot_le : (t u : ℤ) (n : ℕ) → 0 < n → t ≤ℤ u → (t /ℤ pos n) ≤ℤ (u /ℤ pos n)
quot_le (pos t) (pos u) n hn h = ground (arith, div_mono t u n)
quot_le (pos t) (negsuc u) n hn h = absurd (omega arith)
quot_le (negsuc t) (pos u) n hn h = ground arith
quot_le (negsuc t) (negsuc u) n hn h = ground (arith, div_mono (suc u) (suc t) n)

between : (a b c : ℤ) → a ≤ℤ b → b ≤ℤ c → a ≡ c → b ≡ a
between a b c h k e = ground arith

before_lem :
    (overflow_checks : Bool) (t end : Timestamp)
    → IsI64 t
    → t <ℤ end
    → (before overflow_checks end ≡ ok (end -ℤ pos 1)) × (t ≤ℤ (end -ℤ pos 1))
unfolding before
before_lem overflow_checks t end h lt = elim (Bool-cases (eqb_ℤ end i64_min)) [
  | inl e ↦ absurd (ground (arith, eqb_ℤ_iff end i64_min))
  | inr e ↦ (rw e refl, ground arith)
]

ensure-ok : (b : Bool) → ensure b cross_segment ≡ ok tt → b ≡ true
ensure-ok true e = refl
ensure-ok false e = cc

-- The check by a positive segment length.
check_segment_lem :
    (overflow_checks : Bool) (d : Duration) (r : TimeRange) (end : Timestamp)
    → IsSegment d
    → before overflow_checks r.end ≡ ok end
    → check_segment overflow_checks d r
      ≡ ensure (eqb_ℤ (r.start /ℤ pos (as_millis d)) (end /ℤ pos (as_millis d))) cross_segment
unfolding check_segment
check_segment_lem overflow_checks d r end (h, k) e =
    rw
      (
        as_i64_lem (as_millis d) k,
        div_i64-pos r.start (as_millis d) h,
        e,
        div_i64-pos end (as_millis d) h,
      )
      refl

-- For a segment of a positive number of milliseconds that an `i64` holds: a write that the check lets
-- pass has rows of one segment, since every `i64` in its range is truncated to the same segment start as
-- the range's start.
pub check_one_segment :
    (overflow_checks : Bool) (d : Duration) (r : TimeRange) (t : Timestamp)
    → IsSegment d
    → IsI64 t
    → r.start ≤ℤ t
    → t <ℤ r.end
    → check_segment overflow_checks d r ≡ ok tt
    → truncate_by t d ≡ truncate_by r.start d
check_one_segment overflow_checks d r t hd ht ge lt e =
    let n = as_millis d in
    let (last, le) = before_lem overflow_checks t r.end ht lt in
    let same =
      ensure-ok _ (sym (check_segment_lem overflow_checks d r (r.end -ℤ pos 1) hd last) ∙ e) in
    truncate_by_lem t d hd
    ∙ ap (λ q. ok (q *ℤ pos n))
        (between (r.start /ℤ pos n) (t /ℤ pos n) ((r.end -ℤ pos 1) /ℤ pos n)
          (quot_le r.start t n hd.0 ge) (quot_le t (r.end -ℤ pos 1) n hd.0 le)
          ((eqb_ℤ_iff _ _).0 same))
    ∙ sym (truncate_by_lem r.start d hd)
