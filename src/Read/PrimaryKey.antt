-- ===== src/Read/PrimaryKey.antt =====
-- Equality of the primary keys of two rows, read off the types of the key columns alone: what
-- `primary_key_eq` of read.rs is meant to compute.
use horaedb.Prelude.{
  ℕ, zero, suc, ◌+◌, ◌≡◌, ◌↔◌, refl, ap, ap₂, ◌∙◌, Bool, true, false, ◌&&◌, Option, none, some,
  List, [], ◌∷◌, map, All,
}
use horaedb.Prelude.Int.{eqb_ℤ, eqb_ℤ_iff}
use horaedb.Prelude.Result.{ok}
use horaedb.Batches.{Batches, Primitive, uint8, int8, uint32, int32, uint64, int64}
use horaedb.Read.{all_primitives, bytes_eq, row_at, primary_key_eq}
use horaedb.Read.Key.{
  ColumnTypes, IsTyped, option_eq, list_eq, is_some, cell_eq, key, same_key, option_eq-Decides,
  bytes_eq-Decides, keys_eq-same_key,
}
use horaedb.Read.Runs.{runs, runs-cong}

-- The type of a key column.
pub data KeyType : Type 0 where
  integer : Primitive → KeyType
  binary : KeyType

abbrev pub is_integer : Primitive → Primitive → Bool
is_integer uint8 uint8 = true
is_integer int8 int8 = true
is_integer uint32 uint32 = true
is_integer int32 int32 = true
is_integer uint64 uint64 = true
is_integer int64 int64 = true
is_integer p q = false

abbrev pub has_integer : KeyType → Primitive → Bool
has_integer (integer p) q = is_integer p q
has_integer binary q = false

abbrev pub has_bytes : KeyType → Bool
has_bytes (integer p) = false
has_bytes binary = true

absent : {A : Type 0} (x : Option A) → is_some x ≡ false → x ≡ none
absent none e = refl
absent (some a) e = cc

and_true : (b : Bool) → b && true ≡ b
and_true true = refl
and_true false = refl

-- Two tests in a row against two statements.
and_iff : {A B : Type 0} (a b : Bool) → (a ≡ true) ↔ A → (b ≡ true) ↔ B → (a && b ≡ true) ↔ (A × B)
and_iff true b (f, g) (h, k) = (λ e. (f refl, h e), λ u. k u.1)
and_iff false b (f, g) (h, k) = (λ e. cc, λ u. g u.0)

module _ ⦃t : Batches⦄ where
  -- Whether two rows hold the same value in the column `k`, read in the type of the column.
  abbrev pub same_cell : KeyType → ℕ → t.Row → t.Row → Bool
  same_cell (integer p) k l r = option_eq eqb_ℤ (t.primitive_value p k l) (t.primitive_value p k r)
  same_cell binary k l r = option_eq bytes_eq (t.bytes_value k l) (t.bytes_value k r)

  abbrev pub same_cells : ℕ → List KeyType → t.Row → t.Row → Bool
  same_cells k [] l r = true
  same_cells k (ty ∷ keys) l r = same_cell ty k l r && same_cells (k + 1) keys l r

  -- Whether two rows hold the same value in each key column; the key columns are the first ones.
  abbrev pub same_primary_key : List KeyType → t.Row → t.Row → Bool
  same_primary_key keys l r = same_cells 0 keys l r

  -- The columns of the schema from `k` on have the types of `keys`, and no others: each is of one of
  -- the six integer types or binary.
  abbrev pub HasKeys : ColumnTypes → ℕ → ℕ → List KeyType → Type 0
  HasKeys types k zero [] = Unit
  HasKeys types k zero (ty ∷ keys) = ⊥
  HasKeys types k (suc count) [] = ⊥
  HasKeys types k (suc count) (ty ∷ keys) =
      ((p : Primitive) → types.primitive p k ≡ has_integer ty p)
      × (types.bytes k ≡ has_bytes ty)
      × HasKeys types (k + 1) count keys

  module _ (types : ColumnTypes) (l r : t.Row) (hl : IsTyped types l) (hr : IsTyped types r) where
    no_integer :
        (p : Primitive) (k : ℕ)
        → types.primitive p k ≡ false
        → (t.primitive_value p k l ≡ none) × (t.primitive_value p k r ≡ none)
    no_integer p k e = (absent _ (hl.primitive p k ∙ e), absent _ (hr.primitive p k ∙ e))

    no_bytes :
        (k : ℕ) → types.bytes k ≡ false → (t.bytes_value k l ≡ none) × (t.bytes_value k r ≡ none)
    no_bytes k e = (absent _ (hl.bytes k ∙ e), absent _ (hr.bytes k ∙ e))

    -- The tests against all types are the one in the type of the column.
    cell_eq-same_cell :
        (ty : KeyType) (k : ℕ)
        → ((p : Primitive) → types.primitive p k ≡ has_integer ty p)
        → types.bytes k ≡ has_bytes ty
        → cell_eq
            (map (λ p. t.primitive_value p k l) all_primitives, t.bytes_value k l)
            (map (λ p. t.primitive_value p k r) all_primitives, t.bytes_value k r)
          ≡ same_cell ty k l r
    cell_eq-same_cell (integer uint8) k h hb =
        let (a, a') = no_integer int8 k (h int8) in
        let (b, b') = no_integer uint32 k (h uint32) in
        let (c, c') = no_integer int32 k (h int32) in
        let (d, d') = no_integer uint64 k (h uint64) in
        let (e, e') = no_integer int64 k (h int64) in
        let (f, f') = no_bytes k hb in
        rw (a, a', b, b', c, c', d, d', e, e', f, f') (and_true _ ∙ and_true _)
    cell_eq-same_cell (integer int8) k h hb =
        let (a, a') = no_integer uint8 k (h uint8) in
        let (b, b') = no_integer uint32 k (h uint32) in
        let (c, c') = no_integer int32 k (h int32) in
        let (d, d') = no_integer uint64 k (h uint64) in
        let (e, e') = no_integer int64 k (h int64) in
        let (f, f') = no_bytes k hb in
        rw (a, a', b, b', c, c', d, d', e, e', f, f') (and_true _ ∙ and_true _)
    cell_eq-same_cell (integer uint32) k h hb =
        let (a, a') = no_integer uint8 k (h uint8) in
        let (b, b') = no_integer int8 k (h int8) in
        let (c, c') = no_integer int32 k (h int32) in
        let (d, d') = no_integer uint64 k (h uint64) in
        let (e, e') = no_integer int64 k (h int64) in
        let (f, f') = no_bytes k hb in
        rw (a, a', b, b', c, c', d, d', e, e', f, f') (and_true _ ∙ and_true _)
    cell_eq-same_cell (integer int32) k h hb =
        let (a, a') = no_integer uint8 k (h uint8) in
        let (b, b') = no_integer int8 k (h int8) in
        let (c, c') = no_integer uint32 k (h uint32) in
        let (d, d') = no_integer uint64 k (h uint64) in
        let (e, e') = no_integer int64 k (h int64) in
        let (f, f') = no_bytes k hb in
        rw (a, a', b, b', c, c', d, d', e, e', f, f') (and_true _ ∙ and_true _)
    cell_eq-same_cell (integer uint64) k h hb =
        let (a, a') = no_integer uint8 k (h uint8) in
        let (b, b') = no_integer int8 k (h int8) in
        let (c, c') = no_integer uint32 k (h uint32) in
        let (d, d') = no_integer int32 k (h int32) in
        let (e, e') = no_integer int64 k (h int64) in
        let (f, f') = no_bytes k hb in
        rw (a, a', b, b', c, c', d, d', e, e', f, f') (and_true _ ∙ and_true _)
    cell_eq-same_cell (integer int64) k h hb =
        let (a, a') = no_integer uint8 k (h uint8) in
        let (b, b') = no_integer int8 k (h int8) in
        let (c, c') = no_integer uint32 k (h uint32) in
        let (d, d') = no_integer int32 k (h int32) in
        let (e, e') = no_integer uint64 k (h uint64) in
        let (f, f') = no_bytes k hb in
        rw (a, a', b, b', c, c', d, d', e, e', f, f') (and_true _ ∙ and_true _)
    cell_eq-same_cell binary k h hb =
        let (a, a') = no_integer uint8 k (h uint8) in
        let (b, b') = no_integer int8 k (h int8) in
        let (c, c') = no_integer uint32 k (h uint32) in
        let (d, d') = no_integer int32 k (h int32) in
        let (e, e') = no_integer uint64 k (h uint64) in
        let (f, f') = no_integer int64 k (h int64) in
        rw (a, a', b, b', c, c', d, d', e, e', f, f') refl

    key-same_cells :
        (k count : ℕ) (keys : List KeyType)
        → HasKeys types k count keys
        → list_eq cell_eq (key k count l) (key k count r) ≡ same_cells k keys l r
    unfolding key
    key-same_cells k zero [] h = refl
    key-same_cells k zero (ty ∷ keys) h = absurd h
    key-same_cells k (suc count) [] h = absurd h
    key-same_cells k (suc count) (ty ∷ keys) (h, hb, hs) =
        ap₂ (λ a b. a && b) (cell_eq-same_cell ty k h hb) (key-same_cells (k + 1) count keys hs)

    same_key-same_primary_key :
        (count : ℕ) (keys : List KeyType)
        → HasKeys types 0 count keys
        → same_key count l r ≡ same_primary_key keys l r
    unfolding same_key
    same_key-same_primary_key count keys h = key-same_cells 0 count keys h

  -- The two rows hold equal values in the key columns from `k` on.
  abbrev pub EqualKeys : ℕ → List KeyType → t.Row → t.Row → Type 0
  EqualKeys k [] l r = Unit
  EqualKeys k (integer p ∷ keys) l r =
      (t.primitive_value p k l ≡ t.primitive_value p k r) × EqualKeys (k + 1) keys l r
  EqualKeys k (binary ∷ keys) l r =
      (t.bytes_value k l ≡ t.bytes_value k r) × EqualKeys (k + 1) keys l r

  same_cells_iff :
      (k : ℕ) (keys : List KeyType) (l r : t.Row)
      → (same_cells k keys l r ≡ true) ↔ EqualKeys k keys l r
  same_cells_iff k [] l r = (λ e. tt, λ u. refl)
  same_cells_iff k (integer p ∷ keys) l r =
      and_iff _ _
        (option_eq-Decides eqb_ℤ eqb_ℤ_iff (t.primitive_value p k l) (t.primitive_value p k r))
        (same_cells_iff (k + 1) keys l r)
  same_cells_iff k (binary ∷ keys) l r =
      and_iff _ _
        (option_eq-Decides bytes_eq bytes_eq-Decides (t.bytes_value k l) (t.bytes_value k r))
        (same_cells_iff (k + 1) keys l r)

  -- Let the key columns each be of one of the six integer types or binary. On any two rows of two
  -- batches whose columns have these types, `primary_key_eq` returns, and with true exactly if the
  -- rows hold equal values in all key columns.
  pub primary_key_eq_iff :
      (types : ColumnTypes) (n : ℕ) (keys : List KeyType) (lhs rhs : t.Batch) (lhs_idx rhs_idx : ℕ)
      {l r : t.Row}
      → HasKeys types 0 n keys
      → row_at (t.rows lhs) lhs_idx ≡ ok l
      → row_at (t.rows rhs) rhs_idx ≡ ok r
      → IsTyped types l
      → IsTyped types r
      → (b : Bool) × (primary_key_eq n lhs lhs_idx rhs rhs_idx ≡ ok b)
        × ((b ≡ true) ↔ EqualKeys 0 keys l r)
  unfolding primary_key_eq
  primary_key_eq_iff types n keys lhs rhs lhs_idx rhs_idx {l} {r} h at_l at_r hl hr = (
    same_primary_key keys l r,
    rw (at_l, at_r)
        (keys_eq-same_key types l r hl hr n
          ∙ ap ok (same_key-same_primary_key types l r hl hr n keys h)),
    same_cells_iff 0 keys l r,
  )

  -- The runs that the code's tests make are those of one primary key.
  pub runs-same_primary_key :
      (types : ColumnTypes) (count : ℕ) (keys : List KeyType)
      → HasKeys types 0 count keys
      → (rs : List t.Row) → All (IsTyped types) rs
      → runs (same_key count) rs ≡ runs (same_primary_key keys) rs
  runs-same_primary_key types count keys h rs typed =
      runs-cong (same_key count) (same_primary_key keys) (IsTyped types)
        (λ a b ha hb. same_key-same_primary_key types a b ha hb count keys h) rs typed
