-- ===== src/Prelude/Triple.antt =====
-- Methods with a condition before them, one on what they return, and one on what a failure leaves.
use mathlib.Core.Path.{◌≡◌, refl, subst}
use horaedb.Prelude.Result.{Result, ok, err, panic}
use horaedb.Prelude.Exec.{Exec, continue, pure, lift, ◌>>=◌, ◌>>◌}

-- `Q` of a value and the state, or `R` of the state after a failure.
abbrev pub Post : {S A : Type 0} → (A → S → Type 0) → (S → Type 0) → Result A → S → Type 0
Post Q R (ok a) s = Q a s
Post Q R (err e) s = R s
Post Q R panic s = R s

pub record Triple {S A : Type 0} (P : S → Type 0) (Q : A → S → Type 0) (R : S → Type 0)
    (m : Exec S A) : Type 0 where
  pub run : (s : S) → P s → Post Q R (m s).0 (m s).1

module _ {S A : Type 0} where
  lift-Post :
      (Q : A → S → Type 0) (R : S → Type 0) (r : Result A) (s : S)
      → ((a : A) → r ≡ ok a → Q a s)
      → R s
      → Post Q R r s
  lift-Post Q R (ok a) s h k = h a refl
  lift-Post Q R (err e) s h k = k
  lift-Post Q R panic s h k = k

module _ {S A : Type 0} {P R : S → Type 0} where
  pub Triple-pure : (Q : A → S → Type 0) (a : A) → ((s : S) → P s → Q a s) → Triple P Q R (pure a)
  Triple-pure Q a h = record { run = h }

  -- A result that does not touch the state.
  pub Triple-lift :
      (Q : A → S → Type 0) (r : Result A)
      → ((s : S) → P s → (a : A) → r ≡ ok a → Q a s)
      → ((s : S) → P s → R s)
      → Triple P Q R (lift r)
  Triple-lift Q r h k = record { run = λ s p. lift-Post Q R r s (h s p) (k s p) }

module _ {S A B : Type 0} {R : S → Type 0} (Q : A → S → Type 0) (Q' : B → S → Type 0) where
  continue-Post :
      (f : A → Exec S B) (r : Result A) (s : S)
      → ((a : A) → Triple (Q a) Q' R (f a))
      → Post Q R r s
      → Post Q' R (continue f r s).0 (continue f r s).1
  continue-Post f (ok a) s h p = (h a).run s p
  continue-Post f (err e) s h p = p
  continue-Post f panic s h p = p

  pub Triple-bind :
      {P : S → Type 0} (m : Exec S A) (f : A → Exec S B)
      → Triple P Q R m
      → ((a : A) → Triple (Q a) Q' R (f a))
      → Triple P Q' R (m >>= f)
  Triple-bind m f km kf = record { run = λ s p. continue-Post f (m s).0 (m s).1 kf (km.run s p) }

module _ {S B : Type 0} {P R : S → Type 0} (P' : S → Type 0) (Q : B → S → Type 0) where
  pub Triple-then :
      (m : Exec S (Unit {0})) (k : Exec S B)
      → Triple P (λ _. P') R m
      → Triple P' Q R k
      → Triple P Q R (m >> k)
  Triple-then m k km kk = Triple-bind (λ _. P') Q m (λ u. k) km (λ u. kk)

module _ {S B : Type 0} {P R : S → Type 0} {X : Type 0} {Q : B → S → Type 0} where
  -- A part of the condition that is not about the state.
  pub Triple-given : (m : Exec S B) → (X → Triple P Q R m) → Triple (λ s. P s × X) Q R m
  Triple-given m h = record { run = λ s p. (h p.1).run s p.0 }

module _ {S A : Type 0} (Q Q' : A → S → Type 0) (R : S → Type 0)
    (h : (a : A) (s : S) → Q a s → Q' a s) where
  pub weaken-Post : (r : Result A) (s : S) → Post Q R r s → Post Q' R r s
  weaken-Post (ok a) s p = h a s p
  weaken-Post (err e) s p = p
  weaken-Post panic s p = p

  pub Triple-weaken : {P : S → Type 0} {m : Exec S A} → Triple P Q R m → Triple P Q' R m
  Triple-weaken {P} {m} t = record { run = λ s p. weaken-Post (m s).0 (m s).1 (t.run s p) }

-- With the same condition after a value and a failure, it holds whatever the outcome is.
pub Post-either : {S A : Type 0} (P : S → Type 0) (r : Result A) (s : S) → Post (λ _. P) P r s → P s
Post-either P (ok a) s h = h
Post-either P (err e) s h = h
Post-either P panic s h = h

pub Post-ok :
    {S A : Type 0} (Q : A → S → Type 0) (R : S → Type 0) (r : Result A) (s : S) (a : A)
    → Post Q R r s
    → r ≡ ok a
    → Q a s
Post-ok Q R r s a h e = subst (λ t. Post Q R t s) e h
