-- ===== src/Read/Runs.antt =====
-- Lists cut into runs of neighbours that agree: what the merge of read.rs does to its rows.
use horaedb.Prelude.{
  ℕ, suc, ◌≤◌, ◌≡◌, ◌≢◌, refl, ap, ◌∙◌, Bool, true, false, Bool-cases, inl, inr, List, [], ◌∷◌,
  ◌++◌, All, length, take, drop, if◌then◌else◌, arith,
}
use horaedb.Prelude.Perms.{concat_map}

abbrev pub IsFilled : {A : Type 0} → List A → Type 0
IsFilled [] = ⊥
IsFilled (x ∷ xs) = Unit

module _ {A : Type 0} (same : A → A → Bool) where
  -- A run in front of others: it grows, or stands alone.
  abbrev pub cons_run : A → List (List A) → List (List A)
  cons_run x [] = (x ∷ []) ∷ []
  cons_run x ([] ∷ gs) = (x ∷ []) ∷ [] ∷ gs
  cons_run x ((y ∷ ys) ∷ gs) = if same x y then (x ∷ y ∷ ys) ∷ gs else (x ∷ []) ∷ (y ∷ ys) ∷ gs

  -- The longest pieces in which each element agrees with the next.
  unfoldable pub runs : List A → List (List A)
  runs [] = []
  runs (x ∷ xs) = cons_run x (runs xs)

  -- How many elements from the front agree with `r`.
  unfoldable pub lead : A → List A → ℕ
  lead r [] = 0
  lead r (x ∷ xs) = let rest = lead r xs in if same r x then suc rest else 0

  pub lead-le : (r : A) (xs : List A) → lead r xs ≤ length xs
  unfolding lead
  lead-le r [] = omega arith
  lead-le r (x ∷ xs) = ground (arith, lead-le r xs)

  -- Whether the last element of a run agrees with the first of another.
  abbrev pub touch : A → List A → List A → Bool
  touch x [] [] = false
  touch x [] (y ∷ ys) = same x y
  touch x (x' ∷ xs) ys = touch x' xs ys

  -- A run before others, which is joined to the first if they touch.
  abbrev pub glue : A → List A → List (List A) → List (List A)
  glue x xs [] = (x ∷ xs) ∷ []
  glue x xs (g ∷ gs) = if touch x xs g then (x ∷ (xs ++ g)) ∷ gs else (x ∷ xs) ∷ g ∷ gs

  cons_run-glue :
      (x y : A) (ys : List A) (gs : List (List A))
      → cons_run x (glue y ys gs)
        ≡ (if same x y then glue x (y ∷ ys) gs else (x ∷ []) ∷ glue y ys gs)
  cons_run-glue x y ys [] = refl
  cons_run-glue x y ys (g ∷ gs) = ground arith

  -- Runs behind others, the last of which may be joined to the first of these.
  abbrev pub join : List (List A) → List (List A) → List (List A)
  join [] hs = hs
  join ([] ∷ []) hs = hs
  join ((x ∷ xs) ∷ []) hs = glue x xs hs
  join (g ∷ h ∷ gs) hs = g ∷ join (h ∷ gs) hs

  cons_run-IsFilled : (x : A) (gs : List (List A)) → All IsFilled gs → All IsFilled (cons_run x gs)
  cons_run-IsFilled x [] h = (tt, tt)
  cons_run-IsFilled x ([] ∷ gs) h = (tt, h)
  cons_run-IsFilled x ((y ∷ ys) ∷ gs) (h, hs) = elim (Bool-cases (same x y)) [
    | inl e ↦ rw e (tt, hs)
    | inr e ↦ rw e (tt, (tt, hs))
  ]

  pub runs-IsFilled : (xs : List A) → All IsFilled (runs xs)
  unfolding runs
  runs-IsFilled [] = tt
  runs-IsFilled (x ∷ xs) = cons_run-IsFilled x (runs xs) (runs-IsFilled xs)

  cons_run-join :
      (x : A) (gs hs : List (List A))
      → All IsFilled gs
      → cons_run x (join gs hs) ≡ join (cons_run x gs) hs
  cons_run-join x [] [] f = refl
  cons_run-join x [] ([] ∷ hs) f = refl
  cons_run-join x [] ((y ∷ ys) ∷ hs) f = refl
  cons_run-join x ([] ∷ gs) hs f = absurd f.0
  cons_run-join x ((y ∷ ys) ∷ []) hs f = cons_run-glue x y ys hs ∙ ground arith
  cons_run-join x ((y ∷ ys) ∷ g ∷ gs) hs f = ground arith

  -- The runs of a list in two parts are those of the parts, joined where they meet.
  pub runs-append : (xs ys : List A) → runs (xs ++ ys) ≡ join (runs xs) (runs ys)
  unfolding runs
  runs-append [] ys = refl
  runs-append (x ∷ xs) ys =
      ap (cons_run x) (runs-append xs ys) ∙ cons_run-join x (runs xs) (runs ys) (runs-IsFilled xs)

  cons_run-ne-nil : (x : A) (gs : List (List A)) → cons_run x gs ≢ []
  cons_run-ne-nil x [] e = cc
  cons_run-ne-nil x ([] ∷ gs) e = cc
  cons_run-ne-nil x ((y ∷ ys) ∷ gs) e = ground arith

  pub runs-nil : (xs : List A) → runs xs ≡ [] → xs ≡ []
  unfolding runs
  runs-nil [] e = refl
  runs-nil (x ∷ xs) e = absurd (cons_run-ne-nil x (runs xs) e)

  cons_run-concat :
      (x : A) (gs : List (List A))
      → concat_map (λ g. g) (cons_run x gs) ≡ x ∷ concat_map (λ g. g) gs
  cons_run-concat x [] = refl
  cons_run-concat x ([] ∷ gs) = refl
  cons_run-concat x ((y ∷ ys) ∷ gs) = ground arith

  -- The runs are the list in pieces.
  pub runs-concat : (xs : List A) → concat_map (λ g. g) (runs xs) ≡ xs
  unfolding runs
  runs-concat [] = refl
  runs-concat (x ∷ xs) = cons_run-concat x (runs xs) ∙ ap (λ l. x ∷ l) (runs-concat xs)

  cons_run-All :
      (P : A → Type 0) (x : A) (gs : List (List A))
      → P x
      → All (All P) gs
      → All (All P) (cons_run x gs)
  cons_run-All P x [] h hs = ((h, tt), tt)
  cons_run-All P x ([] ∷ gs) h hs = ((h, tt), hs)
  cons_run-All P x ((y ∷ ys) ∷ gs) h (k, ks) = elim (Bool-cases (same x y)) [
    | inl e ↦ rw e ((h, k), ks)
    | inr e ↦ rw e ((h, tt), (k, ks))
  ]

  -- What holds of all elements holds of those of each run.
  pub runs-All : (P : A → Type 0) (xs : List A) → All P xs → All (All P) (runs xs)
  unfolding runs
  runs-All P [] h = tt
  runs-All P (x ∷ xs) (h, hs) = cons_run-All P x (runs xs) h (runs-All P xs hs)

  module _ (equivalent : (a b c : A) → same a b ≡ true → same a c ≡ same b c) where
    lead_same : (a b : A) (xs : List A) → same a b ≡ true → lead a xs ≡ lead b xs
    unfolding lead
    lead_same a b [] e = refl
    lead_same a b (x ∷ xs) e = rw (equivalent a b x e, lead_same a b xs e)

    -- The first run is the first element with those that agree with it.
    pub runs-lead :
        (r : A) (xs : List A)
        → runs (r ∷ xs) ≡ (r ∷ take (lead r xs) xs) ∷ runs (drop (lead r xs) xs)
    unfolding runs lead
    runs-lead r [] = refl
    runs-lead r (x ∷ xs) = elim (Bool-cases (same r x)) [
      | inl e ↦ rw (e, runs-lead x xs, e, lead_same r x xs e)
      | inr e ↦ rw (e, runs-lead x xs, e)
    ]

module _ {A : Type 0} (same same' : A → A → Bool) (P : A → Type 0)
    (agree : (a b : A) → P a → P b → same a b ≡ same' a b) where
  cons_run-cong :
      (x : A) (gs : List (List A)) → P x → All (All P) gs → cons_run same x gs ≡ cons_run same' x gs
  cons_run-cong x [] h hs = refl
  cons_run-cong x ([] ∷ gs) h hs = refl
  cons_run-cong x ((y ∷ ys) ∷ gs) h ((k, ks), hs) = rw (agree x y h k) refl

  -- Tests that agree on the elements of a list cut it into the same runs.
  pub runs-cong : (xs : List A) → All P xs → runs same xs ≡ runs same' xs
  unfolding runs
  runs-cong [] h = refl
  runs-cong (x ∷ xs) (h, hs) =
      ap (cons_run same x) (runs-cong xs hs)
      ∙ cons_run-cong x (runs same' xs) h (runs-All same' P xs hs)
