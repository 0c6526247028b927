-- ===== src/Time/Parse.antt =====
-- src/common/src/time_ext.rs: the parser of `ReadableDuration`, and the characters that are printed.
use horaedb.Prelude.{
  ℕ, ◌+◌, ◌*◌, ◌/◌, ◌%◌, ◌^◌, Option, none, some, [], ◌∷◌, ◌++◌, ◌&&◌, ltb, ◌==◌, if◌then◌else◌,
}
use horaedb.Prelude.Result.{
  Result, ok, err, not_ascii, invalid_duration, unordered_units, negative_duration, ◌>>=◌,
}
use horaedb.Prelude.Chars.{Chars, has_none, trim, is_ascii, decimal}
use horaedb.Floats.{Floats}
use horaedb.Types.{Duration}
use horaedb.Time.{
  TimeUnit, in_days, in_hours, in_minutes, in_seconds, in_millis, millis_of, Text, display,
}

abbrev pub unit_chars : TimeUnit → Chars
unit_chars in_days = b'd' ∷ []
unit_chars in_hours = b'h' ∷ []
unit_chars in_minutes = b'm' ∷ []
unit_chars in_seconds = b's' ∷ []
unit_chars in_millis = b'm' ∷ b's' ∷ []

abbrev pub written : Text → Chars
written [] = []
written ((n, unit) ∷ parts) = decimal n ++ (unit_chars unit ++ written parts)

-- The characters that `Display` writes.
unfoldable pub to_chars : Duration → Chars
to_chars d = written (display d)

-- `match second[0]`
unfoldable pub unit_at : ℕ → Option TimeUnit
unit_at c =
    if c == b'd'
    then some in_days
    else if c == b'h'
    then some in_hours
    else if c == b'm'
    then some in_minutes
    else if c == b's'
    then some in_seconds
    else none

module _ {F : Type 0} (floats : Floats F) where
  -- `dur`, after a number that stands before a unit.
  unfoldable pub add_part : TimeUnit → ℕ → F → Chars → Result F
  add_part unit last_unit dur first =
      if ltb (millis_of unit) last_unit
      then elim (floats.parse (trim first)) [
        | none ↦ err invalid_duration
        | some n ↦ ok (floats.add dur (floats.times n (millis_of unit)))
      ]
      else err unordered_units

  -- The loop: `first` are the characters since the last unit. What is left without a unit must be empty.
  unfoldable pub parse_parts : ℕ → F → Chars → Chars → Result F
  unfolding add_part unit_at
  parse_parts last_unit dur first [] = if has_none first then ok dur else err invalid_duration
  parse_parts last_unit dur first (c ∷ []) = elim (unit_at c) [
    | none ↦ parse_parts last_unit dur (first ++ c ∷ []) []
    | some unit ↦ do
      dur' ← add_part unit last_unit dur first
      parse_parts (millis_of unit) dur' [] []
  ]
  parse_parts last_unit dur first (c ∷ d ∷ left) =
      if c == b'm' && d == b's'
      then (do
        dur' ← add_part in_millis last_unit dur first
        parse_parts (millis_of in_millis) dur' [] left)
      else elim (unit_at c) [
        | none ↦ parse_parts last_unit dur (first ++ c ∷ []) (d ∷ left)
        | some unit ↦ do
          dur' ← add_part unit last_unit dur first
          parse_parts (millis_of unit) dur' [] (d ∷ left)
      ]

  abbrev pub to_duration : F → Result Duration
  to_duration dur =
      if floats.is_sign_negative dur
      then err negative_duration
      else (let millis = floats.as_u64 dur in
          ok (record { secs = millis / 1000; nanos = millis % 1000 % 2 ^ 32 * 1_000_000 }))

  unfoldable pub from_str : Chars → Result Duration
  unfolding trim is_ascii parse_parts
  from_str dur_str =
      let text = trim dur_str in
      if is_ascii text
      then (do dur ← parse_parts (millis_of in_days + 1) floats.zero [] text; to_duration dur)
      else err not_ascii
