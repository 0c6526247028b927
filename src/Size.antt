-- ===== src/Size.antt =====
-- src/common/src/size_ext.rs: `ReadableSize`, with its arithmetic and its printer; Size/Parse.antt
-- has its parser. A text of digits and a unit is the number with the unit. Products wrap around, as
-- in a release build.
pub mod Print
pub mod Parse
pub mod RoundTrip
use horaedb.Prelude.{ℕ, ◌*◌, ◌/◌, ◌%◌, ◌^◌, ◌==◌, if◌then◌else◌}
use horaedb.Prelude.Result.{Result, ok, panic}

abbrev pub kib : ℕ
kib = 1024

abbrev pub mib : ℕ
mib = kib * 1024

abbrev pub gib : ℕ
gib = mib * 1024

abbrev pub tib : ℕ
tib = gib * 1024

abbrev pub pib : ℕ
pib = tib * 1024

unfoldable pub kb : ℕ → ℕ
kb count = count * kib % 2 ^ 64

unfoldable pub mb : ℕ → ℕ
mb count = count * mib % 2 ^ 64

unfoldable pub gb : ℕ → ℕ
gb count = count * gib % 2 ^ 64

unfoldable pub as_mb : ℕ → ℕ
as_mb size = size / mib

-- `Div<u64>` and `Div<ReadableSize>`
unfoldable pub div : ℕ → ℕ → Result ℕ
div size rhs = if rhs == 0 then panic else ok (size / rhs)

unfoldable pub mul : ℕ → ℕ → ℕ
mul size rhs = size * rhs % 2 ^ 64

pub data SizeUnit : Type 0 where
  in_kib in_mib in_gib in_tib in_pib : SizeUnit

-- What `serialize` writes: a text, or a number of bytes.
pub data Serialized : Type 0 where
  text : ℕ → SizeUnit → Serialized
  number : ℕ → Serialized

unfoldable pub serialize : ℕ → Serialized
serialize size =
    if size == 0
    then text size in_kib
    else if size % pib == 0
    then text (size / pib) in_pib
    else if size % tib == 0
    then text (size / tib) in_tib
    else if size % gib == 0
    then text (size / gib) in_gib
    else if size % mib == 0
    then text (size / mib) in_mib
    else if size % kib == 0
    then text (size / kib) in_kib
    else number size
