-- ===== src/Examples/Texts.antt =====
-- The theorems on the texts of sizes and durations, with whole numbers for the floats.
use horaedb.Prelude.{
  ℕ, ◌+◌, ◌*◌, ◌^◌, ◌<◌, ◌≡◌, refl, Bool, true, false, ◌&&◌, none, some, [], ◌∷◌, All, leb,
  if◌then◌else◌, arith,
}
use horaedb.Prelude.Result.{ok}
use horaedb.Prelude.Chars.{Chars, decimal, decimal-IsDigit, IsDigit, value_from, value_from-decimal}
use horaedb.Floats.{Floats, IsExact}
use horaedb.Size.{serialize}
use horaedb.Size.Parse.{to_value, deserialize}
use horaedb.Size.RoundTrip.{deserialize-serialize}
use horaedb.Time.Parse.{to_chars, from_str}
use horaedb.Time.RoundTrip.{from_str-to_chars}

abbrev are_digits : Chars → Bool
are_digits [] = true
are_digits (c ∷ cs) = let rest = are_digits cs in leb 48 c && leb c 57 && rest

are_digits-IsDigit : (cs : Chars) → All IsDigit cs → are_digits cs ≡ true
are_digits-IsDigit [] h = refl
are_digits-IsDigit (c ∷ cs) (h, hs) = ground (arith, are_digits-IsDigit cs hs, h.least, h.most)

abbrev whole : Floats ℕ
whole = record {
  zero = 0;
  add = λ a b. a + b;
  times = λ a b. a * b;
  parse = λ cs. if are_digits cs then some (value_from 0 cs) else none;
  is_sign_negative = λ n. false;
  as_u64 = λ n. n;
}

parses : (n : ℕ) → n < 2 ^ 53 → whole.parse (decimal n) ≡ some n
parses n lt =
    rw
      (are_digits-IsDigit (decimal n) (decimal-IsDigit n), value_from-decimal n (omega (arith, lt)))
      refl

abbrev exact : IsExact whole
exact = record {
  of_nat = λ n. n;
  parse-decimal = parses;
  of_nat-zero = refl;
  add-of_nat = λ a b lt. refl;
  times-of_nat = λ a b lt. refl;
  is_sign_negative-of_nat = λ n. refl;
  as_u64-of_nat = λ n lt. refl;
}

deserialize-serialize_example :
    deserialize whole (to_value (serialize 1_610_612_736)) ≡ ok 1_610_612_736
deserialize-serialize_example = deserialize-serialize whole exact 1_610_612_736 (omega arith)

from_str-to_chars_example :
    from_str whole (to_chars (record { secs = 93_660; nanos = 7_000_500 }))
    ≡ ok (record { secs = 93_660; nanos = 7_000_000 })
from_str-to_chars_example =
    from_str-to_chars whole exact (record { secs = 93_660; nanos = 7_000_500 }) (omega arith)
