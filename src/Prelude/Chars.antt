-- ===== src/Prelude/Chars.antt =====
-- Texts as lists of code points: what the parsers use of `str` and `char`, and decimal numbers.
use Prim.Native.Nat.{ℕ, zero, suc, ◌+◌, ◌-◌, ◌*◌, ◌/◌, ◌%◌, ◌≤◌, ◌<◌, ◌^◌}
use mathlib.Core.Path.{◌≡◌, refl, ap, ◌∙◌}
use mathlib.Core.Bool.{Bool, true, false, ◌&&◌, ◌||◌}
use mathlib.Core.Logic.{inl, inr}
use mathlib.Core.List.{List, [], ◌∷◌, ◌++◌}
use native.Mathlib.Omega.{arith}
use horaedb.Prelude.Tests.{Bool-cases, ltb, leb, ◌==◌, if◌then◌else◌}
use horaedb.Prelude.Lists.{All, All-append}

abbrev pub Chars : Type 0
Chars = List ℕ

-- `char::is_whitespace`
unfoldable pub is_whitespace : ℕ → Bool
is_whitespace c =
    leb 9 c && leb c 13
    || c == 32
    || c == 0x85
    || c == 0xa0
    || c == 0x1680
    || leb 0x2000 c && leb c 0x200a
    || c == 0x2028
    || c == 0x2029
    || c == 0x202f
    || c == 0x205f
    || c == 0x3000

abbrev pub has_none : Chars → Bool
has_none [] = true
has_none (c ∷ cs) = false

unfoldable pub trim_start : Chars → Chars
unfolding is_whitespace
trim_start [] = []
trim_start (c ∷ cs) = let rest = trim_start cs in if is_whitespace c then rest else c ∷ cs

unfoldable pub trim_end : Chars → Chars
unfolding is_whitespace
trim_end [] = []
trim_end (c ∷ cs) =
    let rest = trim_end cs in if is_whitespace c && has_none rest then [] else c ∷ rest

unfoldable pub trim : Chars → Chars
unfolding trim_start trim_end
trim s = trim_end (trim_start s)

unfoldable pub is_ascii : Chars → Bool
is_ascii [] = true
is_ascii (c ∷ cs) = let rest = is_ascii cs in ltb c 128 && rest

unfoldable pub chars_eq : Chars → Chars → Bool
chars_eq [] [] = true
chars_eq [] (d ∷ ds) = false
chars_eq (c ∷ cs) [] = false
chars_eq (c ∷ cs) (d ∷ ds) = c == d && chars_eq cs ds

decimal_from : ℕ → ℕ → Chars
decimal_from zero n = (48 + n % 10) ∷ []
decimal_from (suc k) n =
    let front = decimal_from k (n / 10) in
    if ltb n 10 then (48 + n) ∷ [] else front ++ (48 + n % 10) ∷ []

-- `{}` of a `u64`, which has at most twenty digits.
unfoldable pub decimal : ℕ → Chars
unfolding decimal_from
decimal n = decimal_from 19 n

pub record IsDigit (c : ℕ) : Type 0 where
  pub least : 48 ≤ c
  pub most : c < 58

decimal_from-IsDigit : (k n : ℕ) → All IsDigit (decimal_from k n)
unfolding decimal_from
decimal_from-IsDigit zero n = (record { least = omega arith; most = omega arith }, tt)
decimal_from-IsDigit (suc k) n = elim (Bool-cases (ltb n 10)) [
  | inl e ↦ rw e (record { least = omega arith; most = ground arith }, tt)
  | inr e ↦ rw e (
      All-append IsDigit (decimal_from k (n / 10)) ((48 + n % 10) ∷ [])
        (decimal_from-IsDigit k (n / 10)) (record { least = omega arith; most = omega arith }, tt))
]

pub decimal-IsDigit : (n : ℕ) → All IsDigit (decimal n)
unfolding decimal
decimal-IsDigit n = decimal_from-IsDigit 19 n

decimal_from-nonempty : (k n : ℕ) → has_none (decimal_from k n) ≡ false
unfolding decimal_from
decimal_from-nonempty zero n = refl
decimal_from-nonempty (suc k) n = elim (Bool-cases (ltb n 10)) [
  | inl e ↦ rw e refl
  | inr e ↦ rw e (grows (decimal_from k (n / 10)))
]
  where
    grows : (cs : Chars) → has_none (cs ++ (48 + n % 10) ∷ []) ≡ false
    grows [] = refl
    grows (c ∷ cs) = refl

pub decimal-nonempty : (n : ℕ) → has_none (decimal n) ≡ false
unfolding decimal
decimal-nonempty n = decimal_from-nonempty 19 n

-- Not whitespace, and ASCII.
pub record IsPlain (c : ℕ) : Type 0 where
  pub visible : is_whitespace c ≡ false
  pub ascii : c < 128

pub IsDigit-IsPlain : (c : ℕ) → IsDigit c → IsPlain c
unfolding is_whitespace
IsDigit-IsPlain c h = record { visible = ground arith; ascii = omega arith }

trim_start-IsPlain : (s : Chars) → All IsPlain s → trim_start s ≡ s
unfolding trim_start
trim_start-IsPlain [] h = refl
trim_start-IsPlain (c ∷ cs) (h, hs) = rw h.visible refl

trim_end-IsPlain : (s : Chars) → All IsPlain s → trim_end s ≡ s
unfolding trim_end
trim_end-IsPlain [] h = refl
trim_end-IsPlain (c ∷ cs) (h, hs) = rw h.visible (ap (λ l. c ∷ l) (trim_end-IsPlain cs hs))

pub trim-IsPlain : (s : Chars) → All IsPlain s → trim s ≡ s
unfolding trim
trim-IsPlain s h = ap trim_end (trim_start-IsPlain s h) ∙ trim_end-IsPlain s h

pub is_ascii-IsPlain : (s : Chars) → All IsPlain s → is_ascii s ≡ true
unfolding is_ascii
is_ascii-IsPlain [] h = refl
is_ascii-IsPlain (c ∷ cs) (h, hs) = ground (arith, is_ascii-IsPlain cs hs)

-- The number that decimal digits stand for, behind those of `n`.
abbrev pub value_from : ℕ → Chars → ℕ
value_from n [] = n
value_from n (c ∷ cs) = value_from (n * 10 + (c - 48)) cs

value_from-append :
    (n : ℕ) (cs : Chars) (c : ℕ) → value_from n (cs ++ c ∷ []) ≡ value_from n cs * 10 + (c - 48)
value_from-append n [] c = refl
value_from-append n (d ∷ cs) c = value_from-append (n * 10 + (d - 48)) cs c

power : ℕ → ℕ
power zero = 10
power (suc k) = 10 * power k

value_from-decimal_from : (k n : ℕ) → n < power k → value_from 0 (decimal_from k n) ≡ n
unfolding decimal_from power
value_from-decimal_from zero n lt = omega arith
value_from-decimal_from (suc k) n lt = elim (Bool-cases (ltb n 10)) [
  | inl e ↦ rw e (omega arith)
  | inr e ↦ rw e (
      value_from-append 0 (decimal_from k (n / 10)) (48 + n % 10)
      ∙ ap (λ m. m * 10 + (48 + n % 10 - 48))
          (value_from-decimal_from k (n / 10) (omega (arith, lt)))
      ∙ omega arith)
]

-- A `u64` is what its decimal digits stand for.
pub value_from-decimal : (n : ℕ) → n < 2 ^ 64 → value_from 0 (decimal n) ≡ n
unfolding decimal power
value_from-decimal n lt = value_from-decimal_from 19 n (omega arith)
