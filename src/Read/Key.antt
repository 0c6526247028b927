-- ===== src/Read/Key.antt =====
-- `primary_key_eq` of read.rs against equality of primary keys.
use horaedb.Prelude.{
  ℕ, zero, suc, ◌+◌, ◌≤◌, ◌<◌, ◌≡◌, ◌↔◌, refl, sym, ap, ◌∙◌, Bool, true, false, ◌&&◌, Option, none,
  some, List, [], ◌∷◌, map, if◌then◌else◌, arith,
}
use horaedb.Prelude.Int.{ℤ, eqb_ℤ, eqb_ℤ_iff}
use horaedb.Prelude.Result.{Result, ok, ◌>>=◌}
use horaedb.Batches.{Batches, Primitive}
use horaedb.Read.{all_primitives, bytes_eq, both, primitives_eq, column_eq, keys_eq}

-- A test that decides equality.
abbrev pub Decides : {A : Type 0} → (A → A → Bool) → Type 0
Decides {A} eq = (a b : A) → (eq a b ≡ true) ↔ (a ≡ b)

abbrev pub option_eq : {A : Type 0} → (A → A → Bool) → Option A → Option A → Bool
option_eq eq none none = true
option_eq eq none (some y) = false
option_eq eq (some x) none = false
option_eq eq (some x) (some y) = eq x y

abbrev pub list_eq : {A : Type 0} → (A → A → Bool) → List A → List A → Bool
list_eq eq [] [] = true
list_eq eq [] (y ∷ ys) = false
list_eq eq (x ∷ xs) [] = false
list_eq eq (x ∷ xs) (y ∷ ys) = eq x y && list_eq eq xs ys

pub option_eq-Decides : {A : Type 0} (eq : A → A → Bool) → Decides eq → Decides (option_eq eq)
option_eq-Decides eq d none none = (λ e. refl, λ e. refl)
option_eq-Decides eq d none (some y) = (λ e. cc, λ e. cc)
option_eq-Decides eq d (some x) none = (λ e. cc, λ e. cc)
option_eq-Decides eq d (some x) (some y) = (λ e. ap some ((d x y).0 e), λ e. (d x y).1 (cc))

list_eq-Decides : {A : Type 0} (eq : A → A → Bool) → Decides eq → Decides (list_eq eq)
list_eq-Decides eq d [] [] = (λ e. refl, λ e. refl)
list_eq-Decides eq d [] (y ∷ ys) = (λ e. cc, λ e. cc)
list_eq-Decides eq d (x ∷ xs) [] = (λ e. cc, λ e. cc)
list_eq-Decides eq d (x ∷ xs) (y ∷ ys) = (
  λ e. ground (arith, d x y, list_eq-Decides eq d xs ys),
  λ e. ground (arith, d x y, list_eq-Decides eq d xs ys),
)

pub bytes_eq-Decides : Decides bytes_eq
bytes_eq-Decides [] [] = (λ e. refl, λ e. refl)
bytes_eq-Decides [] (y ∷ ys) = (λ e. cc, λ e. cc)
bytes_eq-Decides (x ∷ xs) [] = (λ e. cc, λ e. cc)
bytes_eq-Decides (x ∷ xs) (y ∷ ys) =
    (λ e. ground (arith, bytes_eq-Decides xs ys), λ e. ground (arith, bytes_eq-Decides xs ys))

abbrev pub is_some : {A : Type 0} → Option A → Bool
is_some none = false
is_some (some a) = true

both-option_eq :
    {A : Type 0} (eq : A → A → Bool) (l r : Option A)
    → is_some l ≡ is_some r
    → both eq l r ≡ ok (option_eq eq l r)
both-option_eq eq none none e = refl
both-option_eq eq none (some y) e = cc
both-option_eq eq (some x) none e = cc
both-option_eq eq (some x) (some y) e = refl

-- One test after another.
then_test :
    (a b : Bool) (rest : Result Bool)
    → rest ≡ ok b
    → (ok a >>= λ e. if e then rest else ok false) ≡ ok (a && b)
then_test true b rest e = e
then_test false b rest e = refl

module _ ⦃t : Batches⦄ where
  -- The cells of a row that the tests look at, column by column: `count` columns from `k`.
  abbrev pub Cells : Type 0
  Cells = List (List (Option ℤ) × Option (List ℕ))

  unfoldable pub key : ℕ → ℕ → t.Row → Cells
  key k zero r = []
  key k (suc count) r =
      (map (λ p. t.primitive_value p k r) all_primitives, t.bytes_value k r) ∷ key (k + 1) count r

  abbrev pub cell_eq : List (Option ℤ) × Option (List ℕ) → List (Option ℤ) × Option (List ℕ) → Bool
  cell_eq (ns, bs) (ms, cs) = list_eq (option_eq eqb_ℤ) ns ms && option_eq bytes_eq bs cs

  cell_eq-Decides : Decides cell_eq
  cell_eq-Decides (ns, bs) (ms, cs) =
      let d = list_eq-Decides (option_eq eqb_ℤ) (option_eq-Decides eqb_ℤ eqb_ℤ_iff) ns ms in
      let c = option_eq-Decides bytes_eq bytes_eq-Decides bs cs in
      (λ e. ground arith, λ e. ground arith)

  -- Rows whose first `count` columns hold the same key.
  unfoldable pub same_key : ℕ → t.Row → t.Row → Bool
  unfolding key
  same_key count l r = list_eq cell_eq (key 0 count l) (key 0 count r)

  pub same_key_iff :
      (count : ℕ) (l r : t.Row) → (same_key count l r ≡ true) ↔ (key 0 count l ≡ key 0 count r)
  unfolding same_key
  same_key_iff count l r = list_eq-Decides cell_eq cell_eq-Decides (key 0 count l) (key 0 count r)

  pub same_key_equivalent :
      (count : ℕ) (a b c : t.Row)
      → same_key count a b ≡ true
      → same_key count a c ≡ same_key count b c
  unfolding same_key
  same_key_equivalent count a b c e =
      ap (λ (u : Cells). list_eq cell_eq u (key 0 count c))
        ((same_key_iff count a b).0 (unfold same_key in e))

  -- The types of the columns, which all rows of an input share.
  pub record ColumnTypes : Type 0 where
    pub primitive : Primitive → ℕ → Bool
    pub bytes : ℕ → Bool

  pub record IsTyped (types : ColumnTypes) (r : t.Row) : Type 0 where
    pub primitive :
        (p : Primitive) (k : ℕ) → is_some (t.primitive_value p k r) ≡ types.primitive p k
    pub bytes : (k : ℕ) → is_some (t.bytes_value k r) ≡ types.bytes k

  module _ (types : ColumnTypes) (l r : t.Row) (hl : IsTyped types l) (hr : IsTyped types r) where
    primitives_eq-list_eq :
        (ps : List Primitive) (k : ℕ)
        → primitives_eq ps k l r
          ≡ ok (
              list_eq
                (option_eq eqb_ℤ)
                (map (λ p. t.primitive_value p k l) ps)
                (map (λ p. t.primitive_value p k r) ps))
    unfolding primitives_eq
    primitives_eq-list_eq [] k = refl
    primitives_eq-list_eq (p ∷ ps) k =
        rw
          (both-option_eq eqb_ℤ (t.primitive_value p k l) (t.primitive_value p k r)
            (hl.primitive p k ∙ sym (hr.primitive p k)))
          (then_test _ _ _ (primitives_eq-list_eq ps k))

    column_eq-cell_eq :
        (k : ℕ)
        → column_eq k l r
          ≡ ok (
              cell_eq
                (map (λ p. t.primitive_value p k l) all_primitives, t.bytes_value k l)
                (map (λ p. t.primitive_value p k r) all_primitives, t.bytes_value k r))
    unfolding column_eq
    column_eq-cell_eq k = rw (primitives_eq-list_eq all_primitives k) (
        then_test _ _ _ (
          both-option_eq bytes_eq (t.bytes_value k l) (t.bytes_value k r)
            (hl.bytes k ∙ sym (hr.bytes k))))

    keys_eq-list_eq :
        (k count : ℕ) → keys_eq k count l r ≡ ok (list_eq cell_eq (key k count l) (key k count r))
    unfolding keys_eq key
    keys_eq-list_eq k zero = refl
    keys_eq-list_eq k (suc count) =
        rw (column_eq-cell_eq k) (then_test _ _ _ (keys_eq-list_eq (k + 1) count))

    pub keys_eq-same_key : (count : ℕ) → keys_eq 0 count l r ≡ ok (same_key count l r)
    unfolding same_key
    keys_eq-same_key count = keys_eq-list_eq 0 count

  -- The tests that a column of another type meets all pass.
  other_primitives :
      (ps : List Primitive) (k : ℕ) (l r : t.Row)
      → ((p : Primitive) → t.primitive_value p k l ≡ none)
      → primitives_eq ps k l r ≡ ok true
  unfolding primitives_eq
  other_primitives [] k l r h = refl
  other_primitives (p ∷ ps) k l r h = rw (h p) (other_primitives ps k l r h)

  other_columns :
      (k count : ℕ) (l r : t.Row)
      → ((p : Primitive) (j : ℕ) → k ≤ j → j < k + count → t.primitive_value p j l ≡ none)
      → ((j : ℕ) → k ≤ j → j < k + count → t.bytes_value j l ≡ none)
      → keys_eq k count l r ≡ ok true
  unfolding keys_eq column_eq
  other_columns k zero l r h hb = refl
  other_columns k (suc count) l r h hb =
      rw
        (
          other_primitives all_primitives k l r (λ p. h p k (omega arith) (omega arith)),
          hb k (omega arith) (omega arith),
        )
        (other_columns (k + 1) count l r (λ p j le lt. h p j (omega arith) (omega arith))
          (λ j le lt. hb j (omega arith) (omega arith)))

  -- If none of the first `count` columns of a row has one of the types that are compared, as with texts,
  -- its primary key counts as equal to that of every other row, whatever the two hold. The other columns
  -- may have any type.
  pub keys_eq_other_types :
      (count : ℕ) (l r : t.Row)
      → ((p : Primitive) (j : ℕ) → j < count → t.primitive_value p j l ≡ none)
      → ((j : ℕ) → j < count → t.bytes_value j l ≡ none)
      → keys_eq 0 count l r ≡ ok true
  keys_eq_other_types count l r h hb =
      other_columns 0 count l r (λ p j le lt. h p j (omega arith)) (λ j le lt. hb j (omega arith))
