-- ===== src/Time.antt =====
-- src/common/src/time_ext.rs: `ReadableDuration`, with its constructors and its printer;
-- Time/Parse.antt has its parser. A text of digits and a unit is the number with the unit. Products
-- wrap around, as in a release build.
pub mod Print
pub mod Parse
pub mod RoundTrip
use horaedb.Prelude.{
  ℕ, ◌+◌, Bool, ◌==◌, ◌*◌, ◌/◌, ◌%◌, ◌^◌, List, [], ◌∷◌, ◌++◌, leb, ltb, if◌then◌else◌,
}
use horaedb.Types.{Duration, as_millis}

pub data TimeUnit : Type 0 where
  in_days in_hours in_minutes in_seconds in_millis : TimeUnit

-- `MS`, `SECOND`, `MINUTE`, `HOUR`, `DAY`
abbrev pub millis_of : TimeUnit → ℕ
millis_of in_millis = 1
millis_of in_seconds = 1000
millis_of in_minutes = 1000 * 60
millis_of in_hours = 1000 * 60 * 60
millis_of in_days = 1000 * 60 * 60 * 24

unfoldable pub secs : ℕ → Duration
secs n = record { secs = n; nanos = 0 }

unfoldable pub millis : ℕ → Duration
millis n = record { secs = n / 1000; nanos = n % 1000 * 1_000_000 }

unfoldable pub minutes : ℕ → Duration
unfolding secs
minutes n = secs (n * 60 % 2 ^ 64)

unfoldable pub hours : ℕ → Duration
unfolding minutes
hours n = minutes (n * 60 % 2 ^ 64)

unfoldable pub days : ℕ → Duration
unfolding hours
days n = hours (n * 24 % 2 ^ 64)

-- The accessors of `ReadableDuration`.
unfoldable pub as_secs : Duration → ℕ
as_secs d = d.secs

unfoldable pub whole_millis : Duration → ℕ
whole_millis d = as_millis d % 2 ^ 64

unfoldable pub is_zero : Duration → Bool
is_zero d = d.secs * 1_000_000_000 + d.nanos == 0

abbrev pub Text : Type 0
Text = List (ℕ × TimeUnit)

-- One `if dur >= UNIT` of `fmt`: what it writes, and `dur` behind it.
unfoldable pub write_unit : TimeUnit → ℕ → Text × ℕ
write_unit unit dur =
    if leb (millis_of unit) dur
    then ((dur / millis_of unit, unit) ∷ [], dur % millis_of unit)
    else ([], dur)

abbrev pub or_zero : Text → Text
or_zero [] = (0, in_seconds) ∷ []
or_zero (part ∷ parts) = part ∷ parts

unfoldable pub display : Duration → Text
unfolding write_unit
display d =
    let dur = as_millis d % 2 ^ 64 in
    let (days, dur) = write_unit in_days dur in
    let (hours, dur) = write_unit in_hours dur in
    let (minutes, dur) = write_unit in_minutes dur in
    let (seconds, dur) = write_unit in_seconds dur in
    let millis = if ltb 0 dur then (dur, in_millis) ∷ [] else [] in
    or_zero (days ++ (hours ++ (minutes ++ (seconds ++ millis))))
