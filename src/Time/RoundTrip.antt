-- ===== src/Time/RoundTrip.antt =====
-- The parser of durations reads what is printed.
use horaedb.Prelude.{
  ℕ, ◌+◌, ◌*◌, ◌/◌, ◌%◌, ◌^◌, ◌<◌, ◌≤◌, ◌≡◌, refl, sym, ap, ◌∙◌, true, false, [], ◌∷◌, ◌++◌,
  append_assoc, append-nil, All, All-append, All-map, ltb, arith,
}
use horaedb.Prelude.Result.{Result, ok, ◌>>=◌}
use horaedb.Prelude.Chars.{
  Chars, has_none, decimal, IsDigit, IsPlain, is_whitespace, decimal-IsDigit, decimal-nonempty,
  IsDigit-IsPlain, trim-IsPlain, is_ascii-IsPlain,
}
use horaedb.Floats.{Floats, IsExact}
use horaedb.Types.{Duration, as_millis}
use horaedb.Time.{
  TimeUnit, in_days, in_hours, in_minutes, in_seconds, in_millis, millis_of, Text, display,
}
use horaedb.Time.Parse.{
  unit_chars, written, to_chars, unit_at, add_part, parse_parts, to_duration, from_str,
}
use horaedb.Time.Print.{meaning, IsFalling, display-IsPrinted}

-- What may stand behind a part: the next number, or the end.
abbrev StartsPlain : Chars → Type 0
StartsPlain [] = Unit
StartsPlain (c ∷ cs) = IsDigit c

StartsPlain-append :
    (ds rest : Chars) → has_none ds ≡ false → All IsDigit ds → StartsPlain (ds ++ rest)
StartsPlain-append [] rest e h = cc
StartsPlain-append (d ∷ ds) rest e (h, hs) = h

StartsPlain-written : (t : Text) → StartsPlain (written t)
StartsPlain-written [] = tt
StartsPlain-written ((n, unit) ∷ parts) =
    StartsPlain-append (decimal n) (unit_chars unit ++ written parts) (decimal-nonempty n)
      (decimal-IsDigit n)

IsPlain-written : (t : Text) → All IsPlain (written t)
unfolding is_whitespace
IsPlain-written [] = tt
IsPlain-written ((n, unit) ∷ parts) =
    All-append IsPlain (decimal n) (unit_chars unit ++ written parts)
      (All-map IsDigit IsPlain IsDigit-IsPlain (decimal n) (decimal-IsDigit n))
      (All-append IsPlain (unit_chars unit) (written parts) (letters unit) (IsPlain-written parts))
  where
    plain : (c : ℕ) → is_whitespace c ≡ false → c < 128 → IsPlain c
    plain c v a = record { visible = v; ascii = a }

    letters : (u : TimeUnit) → All IsPlain (unit_chars u)
    letters in_days = (plain b'd' refl (omega arith), tt)
    letters in_hours = (plain b'h' refl (omega arith), tt)
    letters in_minutes = (plain b'm' refl (omega arith), tt)
    letters in_seconds = (plain b's' refl (omega arith), tt)
    letters in_millis = (plain b'm' refl (omega arith), (plain b's' refl (omega arith), tt))

le_product : (unit : TimeUnit) (n : ℕ) → n ≤ n * millis_of unit
le_product in_days n = omega arith
le_product in_hours n = omega arith
le_product in_minutes n = omega arith
le_product in_seconds n = omega arith
le_product in_millis n = omega arith

module _ {F : Type 0} (floats : Floats F) where
  parse_parts-digit :
      (last_unit : ℕ) (dur : F) (first : Chars) (c : ℕ) (left : Chars)
      → IsDigit c
      → parse_parts floats last_unit dur first (c ∷ left)
        ≡ parse_parts floats last_unit dur (first ++ c ∷ []) left
  unfolding parse_parts unit_at
  parse_parts-digit last_unit dur first c [] h = ground arith
  parse_parts-digit last_unit dur first c (d ∷ left) h = ground arith

  parse_parts-digits :
      (last_unit : ℕ) (dur : F) (first ds left : Chars)
      → All IsDigit ds
      → parse_parts floats last_unit dur first (ds ++ left)
        ≡ parse_parts floats last_unit dur (first ++ ds) left
  parse_parts-digits last_unit dur first [] left h =
      ap (λ l. parse_parts floats last_unit dur l left) (sym (append-nil first))
  parse_parts-digits last_unit dur first (d ∷ ds) left (h, hs) =
      parse_parts-digit last_unit dur first d (ds ++ left) h
      ∙ parse_parts-digits last_unit dur (first ++ d ∷ []) ds left hs
      ∙ ap (λ l. parse_parts floats last_unit dur l left) (append_assoc first (d ∷ []) ds)

  parse_parts-unit :
      (unit : TimeUnit) (last_unit : ℕ) (dur : F) (first left : Chars)
      → StartsPlain left
      → parse_parts floats last_unit dur first (unit_chars unit ++ left) ≡ (
          add_part floats unit last_unit dur first >>= λ dur'.
          parse_parts floats (millis_of unit) dur' [] left)
  unfolding parse_parts unit_at
  parse_parts-unit in_days last_unit dur first [] h = refl
  parse_parts-unit in_days last_unit dur first (c ∷ left) h = refl
  parse_parts-unit in_hours last_unit dur first [] h = refl
  parse_parts-unit in_hours last_unit dur first (c ∷ left) h = refl
  parse_parts-unit in_minutes last_unit dur first [] h = refl
  parse_parts-unit in_minutes last_unit dur first (c ∷ left) h = ground arith
  parse_parts-unit in_seconds last_unit dur first [] h = refl
  parse_parts-unit in_seconds last_unit dur first (c ∷ left) h = refl
  parse_parts-unit in_millis last_unit dur first left h = refl

  module _ (exact : IsExact floats) where
    to_duration-of_nat :
        (n : ℕ)
        → n < 2 ^ 53
        → to_duration floats (exact.of_nat n)
          ≡ ok (record { secs = n / 1000; nanos = n % 1000 * 1_000_000 })
    to_duration-of_nat n fits =
        rw (exact.is_sign_negative-of_nat n, exact.as_u64-of_nat n fits)
          (ap (λ k. ok (record { secs = n / 1000; nanos = k * 1_000_000 })) (omega arith))

    add_part-decimal :
        (unit : TimeUnit) (last_unit n a : ℕ)
        → millis_of unit < last_unit
        → a + n * millis_of unit < 2 ^ 53
        → add_part floats unit last_unit (exact.of_nat a) (decimal n)
          ≡ ok (exact.of_nat (a + n * millis_of unit))
    unfolding add_part
    add_part-decimal unit last_unit n a lt fits =
        let below : ltb (millis_of unit) last_unit ≡ true = ground arith in
        let trimmed =
          trim-IsPlain (decimal n)
            (All-map IsDigit IsPlain IsDigit-IsPlain (decimal n) (decimal-IsDigit n)) in
        rw (
          below,
          trimmed,
          exact.parse-decimal n (omega (arith, le_product unit n, fits)),
          exact.times-of_nat n (millis_of unit) (omega (arith, fits)),
          exact.add-of_nat a (n * millis_of unit) fits,
        )

    parse_parts-written :
        (t : Text) (last_unit a : ℕ)
        → IsFalling last_unit t
        → a + meaning t < 2 ^ 53
        → parse_parts floats last_unit (exact.of_nat a) [] (written t)
          ≡ ok (exact.of_nat (a + meaning t))
    parse_parts-written [] last_unit a h fits =
        unfold parse_parts in ap (λ n. ok (exact.of_nat n)) (omega arith)
    parse_parts-written ((n, unit) ∷ parts) last_unit a (lt, h) fits =
        let next = a + n * millis_of unit in
        parse_parts-digits last_unit (exact.of_nat a) [] (decimal n)
          (unit_chars unit ++ written parts) (decimal-IsDigit n)
        ∙ parse_parts-unit unit last_unit (exact.of_nat a) (decimal n) (written parts)
            (StartsPlain-written parts)
        ∙ ap
            (λ (r : Result F).
              r >>= λ dur. parse_parts floats (millis_of unit) dur [] (written parts))
            (add_part-decimal unit last_unit n a lt (omega (arith, fits)))
        ∙ parse_parts-written parts (millis_of unit) next h (omega (arith, fits))
        ∙ ap (λ k. ok (exact.of_nat k)) (omega arith)

    -- A printed duration is read back, without the part below one millisecond, if it has fewer than
    -- 2 ^ 53 milliseconds and the floats are exact there.
    pub from_str-to_chars :
        (d : Duration)
        → as_millis d < 2 ^ 53
        → from_str floats (to_chars d)
          ≡ ok (record { secs = as_millis d / 1000; nanos = as_millis d % 1000 * 1_000_000 })
    unfolding from_str to_chars
    from_str-to_chars d fits =
        let printed = display-IsPrinted d in
        let plain = IsPlain-written (display d) in
        let means : 0 + meaning (display d) ≡ as_millis d = omega (arith, printed.means, fits) in
        let parsed =
          parse_parts-written (display d) (millis_of in_days + 1) 0 printed.falling
            (omega (arith, means, fits)) in
        rw
          (
            trim-IsPlain (written (display d)) plain,
            is_ascii-IsPlain (written (display d)) plain,
            exact.of_nat-zero,
            parsed,
            means,
          )
          (to_duration-of_nat (as_millis d) fits)
