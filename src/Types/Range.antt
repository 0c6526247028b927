-- ===== src/Types/Range.antt =====
-- `TimeRange::overlaps` and `TimeRange::merge` against membership of a timestamp.
use horaedb.Prelude.{◌≡◌, true, ◌↔◌, arith}
use horaedb.Prelude.Int.{◌≤ℤ◌, ◌<ℤ◌, max_ℤ}
use horaedb.Types.{Timestamp, TimeRange, overlaps, merge}

-- `t` belongs to the half-open range `r`.
abbrev pub Within : Timestamp → TimeRange → Type 0
Within t r = (r.start ≤ℤ t) × (t <ℤ r.end)

-- `outer` starts no later than `inner` and ends no earlier.
abbrev pub Covers : TimeRange → TimeRange → Type 0
Covers outer inner = (outer.start ≤ℤ inner.start) × (inner.end ≤ℤ outer.end)

-- The later of the two starts belongs to both ranges that overlap.
overlap_point :
    (a b : TimeRange)
    → a.start <ℤ a.end
    → b.start <ℤ b.end
    → overlaps a b ≡ true
    → Within (max_ℤ a.start b.start) a × Within (max_ℤ a.start b.start) b
unfolding overlaps
overlap_point a b ha hb e = ground arith

shared_point : (a b : TimeRange) (t : Timestamp) → Within t a → Within t b → overlaps a b ≡ true
unfolding overlaps
shared_point a b t ha hb = ground arith

-- Two ranges that are not empty overlap exactly when some timestamp belongs to both.
pub overlaps_iff :
    (a b : TimeRange)
    → a.start <ℤ a.end
    → b.start <ℤ b.end
    → (overlaps a b ≡ true) ↔ ((t : Timestamp) × Within t a × Within t b)
overlaps_iff a b ha hb = (
  λ e. let p = overlap_point a b ha hb e in (max_ℤ a.start b.start, p.0, p.1),
  λ s. shared_point a b s.0 s.1 s.2,
)

-- `merge` covers both ranges, and every range that covers both covers it.
pub merge_least :
    (a b : TimeRange)
    → Covers (merge a b) a
      × Covers (merge a b) b
      × ((c : TimeRange) → Covers c a → Covers c b → Covers c (merge a b))
unfolding merge
merge_least a b = (ground arith, ground arith, λ c p q. ground arith)
