-- ===== src/Prelude/Gives.antt =====
-- Methods that keep a property of the state, with a property of the value if they return one.
use mathlib.Core.Path.{◌≡◌, refl, subst}
use horaedb.Prelude.Result.{Result, ok, err, panic, ok-injective}
use horaedb.Prelude.Exec.{Exec, continue, pure, lift, ◌>>=◌, ◌>>◌}

pub record Gives {S A : Type 0} (P : S → Type 0) (Q : A → Type 0) (m : Exec S A) : Type 0 where
  pub keeps : (s : S) → P s → P (m s).1
  pub gives : (s : S) → P s → (a : A) → (m s).0 ≡ ok a → Q a

-- A method that says nothing of its value.
abbrev pub Anything : {A : Type 0} → A → Type 0
Anything a = Unit

module _ {S A : Type 0} {P : S → Type 0} where
  pub Gives-pure : (Q : A → Type 0) (a : A) → Q a → Gives P Q (pure a)
  Gives-pure Q a q = record { keeps = λ s p. p; gives = λ s p b e. subst Q (ok-injective e) q }

  pub Gives-lift : (r : Result A) → Gives P Anything (lift r)
  Gives-lift r = record { keeps = λ s p. p; gives = λ s p a e. tt }

module _ {S A B : Type 0} {P : S → Type 0} (Q : A → Type 0) (R : B → Type 0) where
  continue-Gives :
      (f : A → Exec S B) (r : Result A) (s : S)
      → ((a : A) → Q a → Gives P R (f a))
      → P s
      → ((a : A) → r ≡ ok a → Q a)
      → P (continue f r s).1 × ((b : B) → (continue f r s).0 ≡ ok b → R b)
  continue-Gives f (ok a) s h p q = ((h a (q a refl)).keeps s p, (h a (q a refl)).gives s p)
  continue-Gives f (err e) s h p q = (p, λ b e. cc)
  continue-Gives f panic s h p q = (p, λ b e. cc)

  pub Gives-bind :
      (m : Exec S A) (f : A → Exec S B)
      → Gives P Q m
      → ((a : A) → Q a → Gives P R (f a))
      → Gives P R (m >>= f)
  Gives-bind m f km kf = record {
    keeps = λ s p. (continue-Gives f (m s).0 (m s).1 kf (km.keeps s p) (km.gives s p)).0;
    gives = λ s p. (continue-Gives f (m s).0 (m s).1 kf (km.keeps s p) (km.gives s p)).1;
  }

module _ {S B : Type 0} {P : S → Type 0} (R : B → Type 0) where
  pub Gives-then :
      (m : Exec S (Unit {0})) (k : Exec S B) → Gives P Anything m → Gives P R k → Gives P R (m >> k)
  Gives-then m k km kk = Gives-bind Anything R m (λ u. k) km (λ u h. kk)
