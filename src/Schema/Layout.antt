-- ===== src/Schema/Layout.antt =====
-- Where `StorageSchema::try_new` puts the columns, and where `fill_builtin_columns` puts their data.
use horaedb.Prelude.{
  ℕ, zero, suc, ◌+◌, ◌-◌, ◌<◌, ◌≡◌, refl, sym, ap, ap₂, subst, ◌∙◌, Bool, true, false, not, ◌&&◌,
  Option, none, some, List, [], ◌∷◌, ◌++◌, any, length, length-append, ltb, leb, arith,
}
use horaedb.Prelude.Result.{
  Error, Result, ok, no_primary_key, builtin_column_used, no_value_column, ensure, ok-injective,
  ◌>>◌,
}
use horaedb.Schema.{
  Arrow, StorageSchema, UpdateMode, range, is_nil, replicate, projects, is_builtin_field,
  schema_try_new, fill_builtin_columns, seq_column_name, reserved_column_name, or_batch_failed,
}

-- The element at an index.
abbrev pub at {ℓ} : {A : Type ℓ} → List A → ℕ → Option A
at [] i = none
at (x ∷ xs) zero = some x
at (x ∷ xs) (suc i) = at xs i

at-append {ℓ} : {A : Type ℓ} (xs ys : List A) (i : ℕ) → at (xs ++ ys) (length xs + i) ≡ at ys i
at-append [] ys i = ap (at ys) (omega arith)
at-append (x ∷ xs) ys i =
    let next : suc (length xs) + i ≡ suc (length xs + i) = omega arith in
    ap (at (x ∷ (xs ++ ys))) next ∙ at-append xs ys i

projects-range :
    (from count i : ℕ) → projects (range from count) i ≡ (leb from i && ltb i (from + count))
unfolding range
projects-range from zero i = ground arith
projects-range from (suc count) i = ground (arith, projects-range (from + 1) count i)

range-is_nil : (from count : ℕ) → not (is_nil (range from count)) ≡ true → 0 < count
unfolding range
range-is_nil from zero e = cc
range-is_nil from (suc count) e = omega arith

three_checks :
    {A : Type 0} (t u v : Bool) (e f g : Error) (m : Result A) {a : A}
    → (ensure t e >> (ensure u f >> (ensure v g >> m))) ≡ ok a
    → (t ≡ true) × (u ≡ true) × (v ≡ true) × (m ≡ ok a)
three_checks false u v e f g m h = cc
three_checks true false v e f g m h = cc
three_checks true true false e f g m h = cc
three_checks true true true e f g m h = (refl, refl, refl, h)

or_batch_failed-ok : {B : Type 0} (o : Option B) {b : B} → or_batch_failed o ≡ ok b → o ≡ some b
or_batch_failed-ok none e = cc
or_batch_failed-ok (some a) e = ap some (ok-injective e)

module _ ⦃arrow : Arrow⦄ where
  -- The schema of `fields`, the first `n` of which are the primary keys.
  pub record IsLaidOut (fields : List arrow.Field) (n : ℕ) (s : StorageSchema arrow.Field)
      : Type 0 where
    pub some_key : 0 < n
    pub some_value : n < length fields
    pub keys : s.num_primary_keys ≡ n
    pub schema :
        s.arrow_schema
        ≡ fields ++ arrow.u64_field seq_column_name ∷ arrow.u64_field reserved_column_name ∷ []
    pub seq : s.seq_idx ≡ length fields
    pub reserved : s.reserved_idx ≡ length fields + 1
    pub values : (i : ℕ) → projects s.value_idxes i ≡ (leb n i && ltb i (length fields))
    pub user_names : any is_builtin_field fields ≡ false

  abbrev built : List arrow.Field → ℕ → UpdateMode → StorageSchema arrow.Field
  built fields n mode =
      let new_fields =
        fields ++ arrow.u64_field seq_column_name ∷ arrow.u64_field reserved_column_name ∷ [] in
      record {
        arrow_schema = new_fields;
        num_primary_keys = n;
        seq_idx = length new_fields - 2;
        reserved_idx = length new_fields - 1;
        value_idxes = range n (length fields - n);
        update_mode = mode;
      }

  length-builtin :
      (fields : List arrow.Field) (f g : arrow.Field)
      → length (fields ++ f ∷ g ∷ []) ≡ length fields + 2
  length-builtin fields f g = length-append fields (f ∷ g ∷ [])

  built-IsLaidOut :
      (fields : List arrow.Field) (n : ℕ) (mode : UpdateMode)
      → 0 < n
      → any is_builtin_field fields ≡ false
      → n < length fields
      → IsLaidOut fields n (built fields n mode)
  built-IsLaidOut fields n mode key names value = record {
    some_key = key;
    some_value = value;
    keys = refl;
    schema = refl;
    seq = omega (
      arith,
      length-builtin fields (arrow.u64_field seq_column_name)
          (arrow.u64_field reserved_column_name),
    );
    reserved = omega (
      arith,
      length-builtin fields (arrow.u64_field seq_column_name)
          (arrow.u64_field reserved_column_name),
    );
    values = λ i. ground (arith, projects-range n (length fields - n) i);
    user_names = names;
  }

  -- A schema that is built has keys and values, no builtin name among the user's columns, the builtin
  -- columns behind these, and as value indices all those between the keys and the builtin columns.
  pub schema_try_new-IsLaidOut :
      (fields : List arrow.Field) (n : ℕ) (mode : UpdateMode) {s : StorageSchema arrow.Field}
      → schema_try_new fields n mode ≡ ok s
      → IsLaidOut fields n s
  unfolding schema_try_new
  schema_try_new-IsLaidOut fields n mode e =
      let (keys, names, values, returns) =
        three_checks (ltb 0 n) (not (any is_builtin_field fields))
          (not (is_nil (range n (length fields - n)))) no_primary_key builtin_column_used
          no_value_column (ok (built fields n mode)) e in
      let enough = range-is_nil n (length fields - n) values in
      subst (IsLaidOut fields n) (ok-injective returns)
        (built-IsLaidOut fields n mode (ground arith) (ground arith) (omega arith))

  -- In a batch of the user's columns that has rows, the builtin columns are filled at their indices: each
  -- row has the sequence, and each reserved value is null. There is a column for each field.
  pub fill_builtin_columns-at :
      (fields : List arrow.Field) (n sequence : ℕ) (s : StorageSchema arrow.Field)
      (b b' : arrow.Batch)
      → IsLaidOut fields n s
      → length (arrow.columns b) ≡ length fields
      → 0 < arrow.num_rows b
      → fill_builtin_columns s b sequence ≡ ok b'
      → (at (arrow.columns b') s.seq_idx
          ≡ some (arrow.u64_array (replicate (arrow.num_rows b) sequence)))
        × (at (arrow.columns b') s.reserved_idx ≡ some (arrow.null_array (arrow.num_rows b)))
        × (length (arrow.columns b') ≡ length s.arrow_schema)
  unfolding fill_builtin_columns
  fill_builtin_columns-at fields n sequence s b b' h count rows e =
      let filled =
        arrow.columns b
        ++ arrow.u64_array (replicate (arrow.num_rows b) sequence)
          ∷ arrow.null_array (arrow.num_rows b)
          ∷ [] in
      let returned : or_batch_failed (arrow.batch s.arrow_schema filled) ≡ ok b' = ground arith in
      let same : arrow.columns b' ≡ filled =
        arrow.columns-batch s.arrow_schema filled b' (or_batch_failed-ok _ returned) in
      (
        ap₂ at same (omega (arith, h.seq, count)) ∙ at-append (arrow.columns b) _ 0,
        ap₂ at same (omega (arith, h.reserved, count)) ∙ at-append (arrow.columns b) _ 1,
        ap length same
            ∙ length-append (arrow.columns b) _
            ∙ ap (λ (k : ℕ). k + 2) count
            ∙ sym (ap length h.schema ∙ length-append fields _),
      )
