-- ===== src/Read/Projected.antt =====
-- What `maybe_remove_builtin_columns` of read.rs leaves of a projection that types.rs has filled.
use horaedb.Prelude.{
  ℕ, zero, suc, ◌+◌, ◌-◌, ◌≤◌, ◌<◌, ◌≡◌, refl, sym, ap, ap₂, ◌∙◌, true, false, some, List, [], ◌∷◌,
  ◌++◌, map, length, length-append, arith,
}
use horaedb.Prelude.Result.{ok}
use horaedb.Batches.{Batches}
use horaedb.Schema.{StorageSchema, projects, push_missing, push_keys, fill_required_projections}
use horaedb.Read.{maybe_remove_builtin_columns}
use horaedb.Read.Key.{ColumnTypes}
use horaedb.Read.Merge.{maybe_remove_lem}

some-injective : {A : Type 0} {a b : A} → some a ≡ some b → a ≡ b
some-injective e = cc

-- With all keys in a projection and the sequence not, the sequence is all that is added.
push_keys_none :
    (n : ℕ) (proj : List ℕ) → ((i : ℕ) → i < n → projects proj i ≡ true) → push_keys n proj ≡ proj
unfolding push_keys push_missing
push_keys_none zero proj h = refl
push_keys_none (suc n) proj h =
    rw (push_keys_none n proj (λ i lt. h i (omega arith)), h n (omega arith)) refl

filled_alone :
    {F : Type 0} (schema : StorageSchema F) (proj : List ℕ)
    → ((i : ℕ) → i < schema.num_primary_keys → projects proj i ≡ true)
    → projects proj schema.seq_idx ≡ false
    → fill_required_projections schema (some proj) ≡ some (proj ++ schema.seq_idx ∷ [])
unfolding fill_required_projections push_missing
filled_alone schema proj h e = rw (push_keys_none schema.num_primary_keys proj h, e) refl

module _ ⦃t : Batches⦄ where
  -- A projection with all keys gets one builtin column behind it, and two columns are removed from the
  -- batches: the second is the last column that the scan asked for.
  pub requested_column_removed :
      {F : Type 0} (schema : StorageSchema F) (proj projected : List ℕ) (b : t.Batch)
      → ((i : ℕ) → i < schema.num_primary_keys → projects proj i ≡ true)
      → projects proj schema.seq_idx ≡ false
      → 1 ≤ length proj
      → fill_required_projections schema (some proj) ≡ some projected
      → t.num_columns b ≡ length projected
      → (projected ≡ proj ++ schema.seq_idx ∷ [])
        × (b' : t.Batch) × (maybe_remove_builtin_columns false b ≡ ok b')
        × (t.rows b' ≡ map (t.without (length proj - 1)) (map (t.without (length proj)) (t.rows b)))
  requested_column_removed schema proj projected b keys no_seq le e wide =
      let same : projected ≡ proj ++ schema.seq_idx ∷ [] =
        some-injective (sym e ∙ filled_alone schema proj keys no_seq) in
      let count : t.num_columns b ≡ length proj + 1 =
        wide ∙ ap length same ∙ length-append proj (schema.seq_idx ∷ []) in
      let types : ColumnTypes = record { primitive = λ p k. false; bytes = λ k. false } in
      let (b', returns, rows) =
        maybe_remove_lem types (length proj + 1) false b (omega arith) count in
      let last : length proj + 1 - 2 ≡ length proj - 1 = omega arith in
      let seq : length proj + 1 - 1 ≡ length proj = omega arith in
      (
        same,
        b',
        returns,
        rows ∙ ap₂ (λ (i j : ℕ). map (t.without i) (map (t.without j) (t.rows b))) last seq,
      )
