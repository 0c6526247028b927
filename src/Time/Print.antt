-- ===== src/Time/Print.antt =====
-- What the printed text of a duration means.
use horaedb.Prelude.{
  ℕ, ◌+◌, ◌*◌, ◌/◌, ◌%◌, ◌^◌, ◌≤◌, ◌<◌, ◌≡◌, ◌≢◌, refl, ap, ◌∙◌, Bool-cases, inl, inr, [], ◌∷◌,
  ◌++◌, leb, ltb, if◌then◌else◌, arith,
}
use horaedb.Types.{Duration, as_millis}
use horaedb.Time.{
  TimeUnit, in_days, in_hours, in_minutes, in_seconds, in_millis, millis_of, Text, write_unit,
  or_zero, display,
}

-- The milliseconds that a text means.
abbrev pub meaning : Text → ℕ
meaning [] = 0
meaning ((n, unit) ∷ parts) = n * millis_of unit + meaning parts

-- The units fall, as the parser wants them.
abbrev pub IsFalling : ℕ → Text → Type 0
IsFalling bound [] = Unit
IsFalling bound ((n, unit) ∷ parts) = (millis_of unit < bound) × IsFalling (millis_of unit) parts

pub record IsPrinted (millis : ℕ) (t : Text) : Type 0 where
  pub means : meaning t ≡ millis
  pub falling : IsFalling (millis_of in_days + 1) t
  pub nonempty : t ≢ []

positive : (unit : TimeUnit) → 0 < millis_of unit
positive in_days = omega arith
positive in_hours = omega arith
positive in_minutes = omega arith
positive in_seconds = omega arith
positive in_millis = omega arith

IsFalling-mono : (a b : ℕ) (t : Text) → a ≤ b → IsFalling a t → IsFalling b t
IsFalling-mono a b [] le h = tt
IsFalling-mono a b ((n, unit) ∷ parts) le (h, hs) = (omega arith, hs)

quotient : (a n : ℕ) → 0 < n → a / n * n + a % n ≡ a
quotient a n h = grind arith

-- One unit in front of a text of smaller units.
write_unit-front :
    (unit : TimeUnit) (dur bound : ℕ) (rest : Text)
    → millis_of unit < bound
    → meaning rest ≡ (write_unit unit dur).1
    → IsFalling (millis_of unit) rest
    → (meaning ((write_unit unit dur).0 ++ rest) ≡ dur)
      × IsFalling bound ((write_unit unit dur).0 ++ rest)
unfolding write_unit
write_unit-front unit dur bound rest lt e h = elim (Bool-cases (leb (millis_of unit) dur)) [
  | inl t ↦
      let left : (write_unit unit dur).1 ≡ dur % millis_of unit = rw t refl in
      rw t (
        ap (λ m. dur / millis_of unit * millis_of unit + m) (e ∙ left)
            ∙ quotient dur (millis_of unit) (positive unit),
        (lt, h),
      )
  | inr t ↦
      let left : (write_unit unit dur).1 ≡ dur = rw t refl in
      rw t (e ∙ left, IsFalling-mono (millis_of unit) bound rest (omega arith) h)
]

millis_text : ℕ → Text
millis_text dur = if ltb 0 dur then (dur, in_millis) ∷ [] else []

millis_lem :
    (dur : ℕ)
    → (meaning (millis_text dur) ≡ dur) × IsFalling (millis_of in_seconds) (millis_text dur)
unfolding millis_text
millis_lem dur = elim (Bool-cases (ltb 0 dur)) [
  | inl t ↦ rw t (omega arith, (omega arith, tt))
  | inr t ↦ rw t (ground arith, tt)
]

or_zero-IsPrinted :
    (millis : ℕ) (t : Text)
    → meaning t ≡ millis
    → IsFalling (millis_of in_days + 1) t
    → IsPrinted millis (or_zero t)
or_zero-IsPrinted millis [] e h = record {
  means = e;
  falling = (omega arith, tt);
  nonempty = λ q. cc;
}
or_zero-IsPrinted millis (part ∷ parts) e h = record { means = e; falling = h; nonempty = λ q. cc }

-- The printed text of a duration is not empty, means its whole milliseconds, as a `u64`, and has its
-- units in falling order, each at most once.
pub display-IsPrinted : (d : Duration) → IsPrinted (as_millis d % 2 ^ 64) (display d)
unfolding display millis_text
display-IsPrinted d =
    let dur = as_millis d % 2 ^ 64 in
    let below_days = (write_unit in_days dur).1 in
    let below_hours = (write_unit in_hours below_days).1 in
    let below_minutes = (write_unit in_minutes below_hours).1 in
    let below_seconds = (write_unit in_seconds below_minutes).1 in
    let (e, h) = millis_lem below_seconds in
    let (e', h') =
      write_unit-front in_seconds below_minutes (millis_of in_minutes) _ (omega arith) e h in
    let (f, k) =
      write_unit-front in_minutes below_hours (millis_of in_hours) _ (omega arith) e' h' in
    let (f', k') = write_unit-front in_hours below_days (millis_of in_days) _ (omega arith) f k in
    let (g, l) = write_unit-front in_days dur (millis_of in_days + 1) _ (omega arith) f' k' in
    or_zero-IsPrinted dur _ g l
