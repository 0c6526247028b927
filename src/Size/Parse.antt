-- ===== src/Size/Parse.antt =====
-- src/common/src/size_ext.rs: the parser of `ReadableSize`, and the values that serde reads and writes.
use horaedb.Prelude.{
  ℕ, Bool, Option, none, some, [], ◌∷◌, ◌++◌, ◌&&◌, ◌||◌, leb, ◌==◌, if◌then◌else◌,
}
use horaedb.Prelude.Int.{ℤ, pos, negsuc}
use horaedb.Prelude.Result.{Result, ok, err, not_ascii, invalid_size}
use horaedb.Prelude.Chars.{Chars, has_none, trim, is_ascii, chars_eq, decimal}
use horaedb.Floats.{Floats}
use horaedb.Size.{
  kib, mib, gib, tib, pib, SizeUnit, in_kib, in_mib, in_gib, in_tib, in_pib, Serialized, text,
  number,
}

abbrev pub unit_chars : SizeUnit → Chars
unit_chars in_kib = b'K' ∷ b'i' ∷ b'B' ∷ []
unit_chars in_mib = b'M' ∷ b'i' ∷ b'B' ∷ []
unit_chars in_gib = b'G' ∷ b'i' ∷ b'B' ∷ []
unit_chars in_tib = b'T' ∷ b'i' ∷ b'B' ∷ []
unit_chars in_pib = b'P' ∷ b'i' ∷ b'B' ∷ []

-- What serde passes on.
pub data Value : Type 0 where
  signed : ℤ → Value
  unsigned : ℕ → Value
  string : Chars → Value

abbrev pub to_value : Serialized → Value
to_value (text n unit) = string (decimal n ++ unit_chars unit)
to_value (number n) = unsigned n

-- The digits and the signs of a float.
unfoldable pub is_size_char : ℕ → Bool
is_size_char c =
    leb b'0' c && leb c b'9' || c == b'.' || c == b'e' || c == b'E' || c == b'-' || c == b'+'

-- `split_at` the length of the front of such characters.
unfoldable pub split_size : Chars → Chars × Chars
unfolding is_size_char
split_size [] = ([], [])
split_size (c ∷ cs) =
    let (size, unit) = split_size cs in if is_size_char c then (c ∷ size, unit) else ([], c ∷ cs)

-- The letter alone, or with `B` or `iB` behind it.
abbrev names_unit : ℕ → Chars → Bool
names_unit c unit =
    chars_eq unit (c ∷ []) || chars_eq unit (c ∷ b'B' ∷ []) || chars_eq unit (c ∷ b'i' ∷ b'B' ∷ [])

unfoldable pub unit_of : Chars → Option ℕ
unfolding chars_eq
unit_of unit =
    if names_unit b'K' unit
    then some kib
    else if names_unit b'M' unit
    then some mib
    else if names_unit b'G' unit
    then some gib
    else if names_unit b'T' unit
    then some tib
    else if names_unit b'P' unit
    then some pib
    else if chars_eq unit (b'B' ∷ []) || has_none unit
    then some 1
    else none

module _ {F : Type 0} (floats : Floats F) where
  -- `(n * unit as f64) as u64`
  abbrev pub to_size : ℕ → Option F → Result ℕ
  to_size unit none = err invalid_size
  to_size unit (some n) = ok (floats.as_u64 (floats.times n unit))

  unfoldable pub from_str : Chars → Result ℕ
  unfolding trim is_ascii split_size unit_of
  from_str s =
      let size_str = trim s in
      if has_none size_str
      then err invalid_size
      else if is_ascii size_str
      then (let (size, unit) = split_size size_str in
          elim (unit_of (trim unit)) [
            | none ↦ err invalid_size
            | some unit ↦ to_size unit (floats.parse size)
          ])
      else err not_ascii

  -- `SizeVisitor`
  unfoldable pub deserialize : Value → Result ℕ
  unfolding from_str
  deserialize (signed (pos size)) = ok size
  deserialize (signed (negsuc size)) = err invalid_size
  deserialize (unsigned size) = ok size
  deserialize (string size_str) = from_str size_str
