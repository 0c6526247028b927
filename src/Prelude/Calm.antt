-- ===== src/Prelude/Calm.antt =====
-- Methods that keep a property of the state on every outcome and do not panic.
use mathlib.Core.Path.{refl}
use mathlib.Core.Logic.{◌≢◌}
use mathlib.Core.Bool.{Bool, true, false}
use horaedb.Prelude.Result.{Error, Result, ok, err, panic, ensure}
use horaedb.Prelude.Exec.{Exec, continue, pure, lift, modify, ◌>>=◌}

pub record Calm {S A : Type 0} (P : S → Type 0) (m : Exec S A) : Type 0 where
  pub keeps : (s : S) → P s → P (m s).1
  pub returns : (s : S) → P s → (m s).0 ≢ panic

module _ {S A : Type 0} {P : S → Type 0} where
  pub Calm-lift : (r : Result A) → r ≢ panic → Calm P (lift r)
  Calm-lift r h = record { keeps = λ s p. p; returns = λ s p. h }

  pub Calm-pure : (a : A) → Calm P (pure a)
  Calm-pure a = record { keeps = λ s p. p; returns = λ s p e. cc }

module _ {S : Type 0} {P : S → Type 0} where
  pub Calm-modify : (f : S → S) → ((s : S) → P s → P (f s)) → Calm P (modify f)
  Calm-modify f h = record { keeps = h; returns = λ s p e. cc }

  pub Calm-ensure : (b : Bool) (e : Error) → Calm P (lift (ensure b e))
  Calm-ensure true e = record { keeps = λ s p. p; returns = λ s p q. cc }
  Calm-ensure false e = record { keeps = λ s p. p; returns = λ s p q. cc }

module _ {S A B : Type 0} {P : S → Type 0} where
  continue-keeps :
      (f : A → Exec S B) (r : Result A) (s : S)
      → ((a : A) → Calm P (f a))
      → P s
      → r ≢ panic
      → P (continue f r s).1 × ((continue f r s).0 ≢ panic)
  continue-keeps f (ok a) s h p n = ((h a).keeps s p, (h a).returns s p)
  continue-keeps f (err e) s h p n = (p, λ q. cc)
  continue-keeps f panic s h p n = (p, λ q. n refl)

  pub Calm-bind :
      (m : Exec S A) (f : A → Exec S B) → Calm P m → ((a : A) → Calm P (f a)) → Calm P (m >>= f)
  Calm-bind m f km kf = record {
    keeps = λ s p. (continue-keeps f (m s).0 (m s).1 kf (km.keeps s p) (km.returns s p)).0;
    returns = λ s p. (continue-keeps f (m s).0 (m s).1 kf (km.keeps s p) (km.returns s p)).1;
  }
