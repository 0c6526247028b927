-- ===== src/Prelude/Perms.antt =====
-- Permutations under the Boolean filters of these modules.
use mathlib.Core.Path.{◌≡◌, refl, sym, ◌∙◌, ap}
use mathlib.Core.Bool.{Bool}
use mathlib.Core.Logic.{inl, inr}
use mathlib.Core.List.{List, [], ◌∷◌, ◌++◌, append_assoc, Perm, Permᴰ, perm_append_comm}
use mathlib.Core.List.Perm
use native.Mathlib.Omega.{arith}
use horaedb.Prelude.Tests.{Bool-cases}
use horaedb.Prelude.Lists.{retain, any, All}

module _ {ℓ} {A : Type ℓ} where
  -- A function of lists that a permutation of its argument does not change.
  pub any-Permᴰ : (p : A → Bool) {xs ys : List A} → Permᴰ xs ys → any p xs ≡ any p ys
  any-Permᴰ p Permᴰ.nil = refl
  any-Permᴰ p (Permᴰ.cons e d) = rw (e, any-Permᴰ p d)
  any-Permᴰ p (Permᴰ.swap {a = a} {b = b} e f) = rw (← e, ← f) (ground arith)
  any-Permᴰ p (Permᴰ.trans d e) = any-Permᴰ p d ∙ any-Permᴰ p e

  retain-cons :
      (p : A → Bool) (x : A) (xs ys : List A)
      → Perm (retain p xs) (retain p ys)
      → Perm (retain p (x ∷ xs)) (retain p (x ∷ ys))
  retain-cons p x xs ys h = elim (Bool-cases (p x)) [
    | inl e ↦ rw e (Perm.cons x h)
    | inr e ↦ rw e h
  ]

  retain-swap :
      (p : A → Bool) (x y : A) (l : List A) → Perm (retain p (x ∷ y ∷ l)) (retain p (y ∷ x ∷ l))
  retain-swap p x y l = elim (Bool-cases (p x)) [
    | inl e ↦ elim (Bool-cases (p y)) [
      | inl f ↦ rw (e, f) (Perm.swap y x (retain p l))
      | inr f ↦ rw (e, f) (Perm.refl (x ∷ retain p l))
    ]
    | inr e ↦ elim (Bool-cases (p y)) [
      | inl f ↦ rw (e, f) (Perm.refl (y ∷ retain p l))
      | inr f ↦ rw (e, f) (Perm.refl (retain p l))
    ]
  ]

  pub retain-Permᴰ :
      (p : A → Bool) {xs ys : List A} → Permᴰ xs ys → Perm (retain p xs) (retain p ys)
  retain-Permᴰ p Permᴰ.nil = Perm.refl []
  retain-Permᴰ p (Permᴰ.cons {a = a} e d) = rw (← e) (retain-cons p a _ _ (retain-Permᴰ p d))
  retain-Permᴰ p (Permᴰ.swap {a = a} {b = b} {l = l} e f) = rw (← e, ← f) (retain-swap p a b l)
  retain-Permᴰ p (Permᴰ.trans d e) = Perm.trans (retain-Permᴰ p d) (retain-Permᴰ p e)

module _ {ℓ κ} {A : Type ℓ} (P : A → Type κ) where
  -- What holds of all elements holds in any order.
  pub All-Permᴰ : {xs ys : List A} → Permᴰ xs ys → All P ys → All P xs
  All-Permᴰ Permᴰ.nil h = tt
  All-Permᴰ (Permᴰ.cons e d) (h, hs) = (rw e h, All-Permᴰ d hs)
  All-Permᴰ (Permᴰ.swap e g) (h, (k, hs)) = (rw e k, (rw g h, hs))
  All-Permᴰ (Permᴰ.trans d e) h = All-Permᴰ d (All-Permᴰ e h)

module _ {ℓ κ} {A : Type ℓ} {B : Type κ} (f : A → List B) where
  -- The lists of all elements, one behind the other.
  abbrev pub concat_map : List A → List B
  concat_map [] = []
  concat_map (x ∷ xs) = f x ++ concat_map xs

  pub concat_map-append : (xs ys : List A) → concat_map (xs ++ ys) ≡ concat_map xs ++ concat_map ys
  concat_map-append [] ys = refl
  concat_map-append (x ∷ xs) ys =
      ap (λ l. f x ++ l) (concat_map-append xs ys)
      ∙ sym (append_assoc (f x) (concat_map xs) (concat_map ys))

  pub concat_map-Permᴰ : {xs ys : List A} → Permᴰ xs ys → Perm (concat_map xs) (concat_map ys)
  concat_map-Permᴰ Permᴰ.nil = Perm.refl []
  concat_map-Permᴰ (Permᴰ.cons {a = a} e d) = rw (← e) (Perm.append_left (f a) (concat_map-Permᴰ d))
  concat_map-Permᴰ (Permᴰ.swap {a = a} {b = b} {l = l} e g) =
      rw
        (
          ← e,
          ← g,
          ← append_assoc (f a) (f b) (concat_map l),
          ← append_assoc (f b) (f a) (concat_map l),
        )
        (Perm.append_right (concat_map l) (perm_append_comm (f a) (f b)))
  concat_map-Permᴰ (Permᴰ.trans d e) = Perm.trans (concat_map-Permᴰ d) (concat_map-Permᴰ e)
