-- ===== src/Prelude/Result.antt =====
-- The outcome of fallible Rust code: a value, an error of the crate, or a panic.
use mathlib.Core.Bool.{Bool, true, false}
use mathlib.Core.Path.{◌≡◌, refl}

-- One constructor for each failure that the modelled code raises or passes on.
pub data Error : Type 0 where
  -- reads of manifest/encoding.rs that met the end of the input
  unexpected_eof : Error
  -- `ensure!` failures
  invalid_magic invalid_snapshot meta_missing time_range_missing : Error
  no_primary_key builtin_column_used no_value_column not_binary : Error
  cross_segment memory_too_high too_many_deltas : Error
  not_ascii invalid_size invalid_duration unordered_units negative_duration : Error
  -- errors of the object store and of the libraries, passed on
  store_failed decode_failed : Error

pub data Result {ℓ} (A : Type ℓ) : Type ℓ where
  ok : A → Result A
  err : Error → Result A
  panic : Result A

-- The macro `ensure!`.
abbrev pub ensure : Bool → Error → Result (Unit {0})
ensure false e = err e
ensure true e = ok tt

-- The macro `assert!`.
abbrev pub assert : Bool → Result (Unit {0})
assert false = panic
assert true = ok tt

module _ {ℓ κ} {A : Type ℓ} {B : Type κ} where
  infixl 5 ◌>>=◌
  -- `?` on a call: an error returns, a panic unwinds.
  abbrev pub ◌>>=◌ : Result A → (A → Result B) → Result B
  panic >>= rest = panic
  err e >>= rest = err e
  ok a >>= rest = rest a

  -- A call followed by more that returns has returned itself.
  pub >>=-eq-ok :
      (call : Result A) (rest : A → Result B) {b : B}
      → (call >>= rest) ≡ ok b
      → (a : A) × (call ≡ ok a) × (rest a ≡ ok b)
  >>=-eq-ok panic rest returns = cc
  >>=-eq-ok (err e) rest returns = cc
  >>=-eq-ok (ok a) rest returns = (a, refl, returns)

  -- The same for a proof that goes on from the parts, so that these are variables there.
  pub bind_then {μ} :
      {P : Type μ} (call : Result A) (rest : A → Result B) {b : B}
      → (call >>= rest) ≡ ok b
      → ((a : A) → call ≡ ok a → rest a ≡ ok b → P)
      → P
  bind_then call rest returns go = let (a, p, q) = >>=-eq-ok call rest returns in go a p q

module _ {κ} {B : Type κ} where
  infixl 5 ◌>>◌
  abbrev pub ◌>>◌ : Result (Unit {0}) → Result B → Result B
  check >> rest = check >>= λ u. rest

pub ensure_then {κ μ} :
    {B : Type κ} {C : Type μ} (t : Bool) (e : Error) (m : Result B) {b : B}
    → (ensure t e >> m) ≡ ok b
    → (t ≡ true → m ≡ ok b → C)
    → C
ensure_then true e m h go = go refl h
ensure_then false e m h go = cc

pub ok-injective {ℓ} : {A : Type ℓ} {a b : A} → ok a ≡ ok b → a ≡ b
ok-injective e = cc
