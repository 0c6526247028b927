-- ===== src/Size/RoundTrip.antt =====
-- The parser of sizes reads what is printed.
use horaedb.Prelude.{
  ℕ, ◌*◌, ◌^◌, ◌<◌, ◌≤◌, ◌≡◌, refl, ap, ◌∙◌, false, some, [], ◌∷◌, ◌++◌, All, All-append, All-map,
  arith,
}
use horaedb.Prelude.Result.{ok}
use horaedb.Prelude.Chars.{
  Chars, has_none, is_whitespace, decimal, IsDigit, IsPlain, decimal-IsDigit, decimal-nonempty,
  IsDigit-IsPlain, trim-IsPlain, is_ascii-IsPlain,
}
use horaedb.Floats.{Floats, IsExact}
use horaedb.Size.{
  SizeUnit, in_kib, in_mib, in_gib, in_tib, in_pib, Serialized, text, number, serialize,
}
use horaedb.Size.Parse.{unit_chars, to_value, split_size, unit_of, from_str, deserialize}
use horaedb.Size.Print.{factor, meaning, meaning-serialize}

le_product : (unit : SizeUnit) (n : ℕ) → n ≤ n * factor unit
le_product in_kib n = omega arith
le_product in_mib n = omega arith
le_product in_gib n = omega arith
le_product in_tib n = omega arith
le_product in_pib n = omega arith

split_unit : (unit : SizeUnit) → split_size (unit_chars unit) ≡ ([], unit_chars unit)
unfolding split_size
split_unit in_kib = refl
split_unit in_mib = refl
split_unit in_gib = refl
split_unit in_tib = refl
split_unit in_pib = refl

split_digits :
    (ds : Chars) (unit : SizeUnit)
    → All IsDigit ds
    → split_size (ds ++ unit_chars unit) ≡ (ds, unit_chars unit)
unfolding split_size
split_digits [] unit h = split_unit unit
split_digits (d ∷ ds) unit (h, hs) = rw (split_digits ds unit hs) (ground arith)

unit_of-unit_chars : (unit : SizeUnit) → unit_of (unit_chars unit) ≡ some (factor unit)
unfolding unit_of
unit_of-unit_chars in_kib = refl
unit_of-unit_chars in_mib = refl
unit_of-unit_chars in_gib = refl
unit_of-unit_chars in_tib = refl
unit_of-unit_chars in_pib = refl

plain : (c : ℕ) → is_whitespace c ≡ false → c < 128 → IsPlain c
plain c visible ascii = record { visible = visible; ascii = ascii }

IsPlain-unit_chars : (unit : SizeUnit) → All IsPlain (unit_chars unit)
unfolding is_whitespace
IsPlain-unit_chars in_kib = (
  plain b'K' refl (omega arith),
  (plain b'i' refl (omega arith), (plain b'B' refl (omega arith), tt)),
)
IsPlain-unit_chars in_mib = (
  plain b'M' refl (omega arith),
  (plain b'i' refl (omega arith), (plain b'B' refl (omega arith), tt)),
)
IsPlain-unit_chars in_gib = (
  plain b'G' refl (omega arith),
  (plain b'i' refl (omega arith), (plain b'B' refl (omega arith), tt)),
)
IsPlain-unit_chars in_tib = (
  plain b'T' refl (omega arith),
  (plain b'i' refl (omega arith), (plain b'B' refl (omega arith), tt)),
)
IsPlain-unit_chars in_pib = (
  plain b'P' refl (omega arith),
  (plain b'i' refl (omega arith), (plain b'B' refl (omega arith), tt)),
)

has_none-append : (cs ds : Chars) → has_none cs ≡ false → has_none (cs ++ ds) ≡ false
has_none-append [] ds e = cc
has_none-append (c ∷ cs) ds e = refl

module _ {F : Type 0} (floats : Floats F) (exact : IsExact floats) where
  from_str-text :
      (n : ℕ) (unit : SizeUnit)
      → n * factor unit < 2 ^ 53
      → from_str floats (decimal n ++ unit_chars unit) ≡ ok (n * factor unit)
  unfolding from_str
  from_str-text n unit fits =
      let chars = decimal n ++ unit_chars unit in
      let all_plain =
        All-append IsPlain (decimal n) (unit_chars unit)
          (All-map IsDigit IsPlain IsDigit-IsPlain (decimal n) (decimal-IsDigit n))
          (IsPlain-unit_chars unit) in
      rw
        (
          trim-IsPlain chars all_plain,
          has_none-append (decimal n) (unit_chars unit) (decimal-nonempty n),
          is_ascii-IsPlain chars all_plain,
          split_digits (decimal n) unit (decimal-IsDigit n),
          trim-IsPlain (unit_chars unit) (IsPlain-unit_chars unit),
          unit_of-unit_chars unit,
          trim-IsPlain chars all_plain,
          split_digits (decimal n) unit (decimal-IsDigit n),
          exact.parse-decimal n (omega (arith, le_product unit n, fits)),
          exact.times-of_nat n (factor unit) fits,
          exact.as_u64-of_nat (n * factor unit) fits,
        )
        refl

  deserialize-to_value :
      (v : Serialized) → meaning v < 2 ^ 53 → deserialize floats (to_value v) ≡ ok (meaning v)
  unfolding deserialize
  deserialize-to_value (text n unit) fits = from_str-text n unit fits
  deserialize-to_value (number n) fits = refl

  -- A size below 2 ^ 53 that is written by serde is read back, if the floats are exact there.
  pub deserialize-serialize :
      (size : ℕ) → size < 2 ^ 53 → deserialize floats (to_value (serialize size)) ≡ ok size
  deserialize-serialize size fits =
      let means = meaning-serialize size in
      deserialize-to_value (serialize size) (omega (arith, means, fits)) ∙ ap ok means
