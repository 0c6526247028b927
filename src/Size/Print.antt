-- ===== src/Size/Print.antt =====
-- What the printed text of a size means.
use horaedb.Prelude.{ℕ, ◌*◌, ◌/◌, ◌%◌, ◌^◌, ◌≤◌, ◌<◌, ◌≡◌, arith}
use horaedb.Prelude.Result.{ok}
use horaedb.Size.{
  kib, mib, gib, tib, pib, mb, as_mb, div, mul, SizeUnit, in_kib, in_mib, in_gib, in_tib, in_pib,
  Serialized, text, number, serialize,
}

abbrev pub factor : SizeUnit → ℕ
factor in_kib = kib
factor in_mib = mib
factor in_gib = gib
factor in_tib = tib
factor in_pib = pib

-- The number of bytes that a text means, and the length of its unit.
abbrev pub meaning : Serialized → ℕ
meaning (text n unit) = n * factor unit
meaning (number n) = n

abbrev pub unit_size : Serialized → ℕ
unit_size (text n unit) = factor unit
unit_size (number n) = 1

-- The printed size means the same number of bytes.
pub meaning-serialize : (size : ℕ) → meaning (serialize size) ≡ size
unfolding serialize
meaning-serialize size = ground arith

-- No larger unit divides a size that is not zero.
pub serialize_largest :
    (size : ℕ) (unit : SizeUnit)
    → 0 < size
    → size % factor unit ≡ 0
    → factor unit ≤ unit_size (serialize size)
unfolding serialize
serialize_largest size in_kib h e = ground arith
serialize_largest size in_mib h e = ground arith
serialize_largest size in_gib h e = ground arith
serialize_largest size in_tib h e = ground arith
serialize_largest size in_pib h e = ground arith

cancel : (size n : ℕ) → 0 < n → size * n / n ≡ size
cancel size n positive = grind arith

-- A number of megabytes that fits is read back.
pub as_mb-mb : (count : ℕ) → count * mib < 2 ^ 64 → as_mb (mb count) ≡ count
unfolding as_mb mb
as_mb-mb count fits = ground arith

-- Division takes back a product that fits.
pub div-mul : (size n : ℕ) → 0 < n → size * n < 2 ^ 64 → div (mul size n) n ≡ ok size
unfolding div mul
div-mul size n positive fits = ground (arith, cancel size n positive)
