-- ===== src/Examples/Schemas.antt =====
-- The theorems on schemas: fields are their names' numbers, a column is its values.
use horaedb.Prelude.{ℕ, ◌≡◌, refl, ◌||◌, none, some, List, [], ◌∷◌, ◌++◌, length, ltb, ◌==◌, arith}
use horaedb.Prelude.Result.{ok}
use horaedb.Schema.{
  Arrow, StorageSchema, overwrite, range, replicate, is_builtin_field, schema_try_new,
  fill_required_projections, fill_builtin_columns,
}
use horaedb.Schema.Projection.{Extends, fill_required_projections-Extends}
use horaedb.Schema.Layout.{IsLaidOut, schema_try_new-IsLaidOut}

-- Number 0 is a builtin name.
abbrev pub numbers : Arrow
numbers = record {
  Field = ℕ;
  Column = List ℕ;
  Batch = List (List ℕ);
  has_name = λ name f. f == 0;
  u64_field = λ name. 0;
  num_rows = λ b. elim b [ [] ↦ 0 | c ∷ cs ↦ length c ];
  columns = λ b. b;
  u64_array = λ values. values;
  null_array = λ n. replicate n 0;
  batch = λ fields columns. some columns;
  columns-batch = λ fields columns b e. ground arith;
}

abbrev pub schema : StorageSchema ℕ
schema = record {
  arrow_schema = 5 ∷ 6 ∷ 7 ∷ 0 ∷ 0 ∷ [];
  num_primary_keys = 2;
  seq_idx = 3;
  reserved_idx = 4;
  value_idxes = 2 ∷ [];
  update_mode = overwrite;
}

builds : schema_try_new ⦃arrow = numbers⦄ (5 ∷ 6 ∷ 7 ∷ []) 2 overwrite ≡ ok schema
unfolding schema_try_new is_builtin_field range
builds = refl

schema_try_new-IsLaidOut_example : IsLaidOut ⦃arrow = numbers⦄ (5 ∷ 6 ∷ 7 ∷ []) 2 schema
schema_try_new-IsLaidOut_example =
    schema_try_new-IsLaidOut ⦃arrow = numbers⦄ (5 ∷ 6 ∷ 7 ∷ []) 2 overwrite builds

fill_required_projections-Extends_example :
    (fill_required_projections schema none ≡ none)
    × (l : List ℕ) × (fill_required_projections schema (some (2 ∷ 1 ∷ [])) ≡ some l)
    × Extends (2 ∷ 1 ∷ []) l (λ i. ltb i 2 || 3 == i)
fill_required_projections-Extends_example = fill_required_projections-Extends schema (2 ∷ 1 ∷ [])

abbrev pub rows : List (List ℕ)
rows = (1 ∷ 2 ∷ []) ∷ (1 ∷ 1 ∷ []) ∷ (8 ∷ 9 ∷ []) ∷ []

abbrev filled : List (List ℕ)
filled = rows ++ (42 ∷ 42 ∷ []) ∷ (0 ∷ 0 ∷ []) ∷ []

fills : fill_builtin_columns ⦃arrow = numbers⦄ schema rows 42 ≡ ok filled
unfolding fill_builtin_columns replicate
fills = refl
