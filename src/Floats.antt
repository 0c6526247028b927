-- ===== src/Floats.antt =====
-- The 64-bit floats of Rust, as common/src/size_ext.rs and common/src/time_ext.rs use them.
use horaedb.Prelude.{ℕ, ◌+◌, ◌*◌, ◌^◌, ◌<◌, ◌≡◌, Bool, false, Option, some}
use horaedb.Prelude.Chars.{Chars, decimal}

pub record Floats (F : Type 0) : Type 0 where
  pub zero : F
  pub add : F → F → F
  -- `n * unit as f64`
  pub times : F → ℕ → F
  -- `str::parse::<f64>`
  pub parse : Chars → Option F
  pub is_sign_negative : F → Bool
  -- `as u64`
  pub as_u64 : F → ℕ

-- The whole numbers below 2 ^ 53 are floats, and sums and products that stay below are exact.
pub record IsExact {F : Type 0} (floats : Floats F) : Type 0 where
  pub of_nat : ℕ → F
  pub parse-decimal : (n : ℕ) → n < 2 ^ 53 → floats.parse (decimal n) ≡ some (of_nat n)
  pub of_nat-zero : floats.zero ≡ of_nat 0
  pub add-of_nat : (a b : ℕ) → a + b < 2 ^ 53 → floats.add (of_nat a) (of_nat b) ≡ of_nat (a + b)
  pub times-of_nat : (a b : ℕ) → a * b < 2 ^ 53 → floats.times (of_nat a) b ≡ of_nat (a * b)
  pub is_sign_negative-of_nat : (n : ℕ) → floats.is_sign_negative (of_nat n) ≡ false
  pub as_u64-of_nat : (n : ℕ) → n < 2 ^ 53 → floats.as_u64 (of_nat n) ≡ n
