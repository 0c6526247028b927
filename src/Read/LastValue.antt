-- ===== src/Read/LastValue.antt =====
-- A `MergeStream` with `LastValueOperator`, as tables in the mode `Overwrite` are read: of all rows
-- of one primary key the last one counts.
use horaedb.Prelude.{
  ℕ, ◌+◌, ◌-◌, ◌≤◌, ◌≡◌, refl, sym, ap, ap₂, ◌∙◌, Bool, none, List, [], ◌∷◌, map, All, length, take,
  drop, arith,
}
use horaedb.Prelude.Perms.{concat_map}
use horaedb.Prelude.Result.{ok}
use horaedb.Batches.{Batches}
use horaedb.Operator.{last_value_merge, last_value_operator}
use horaedb.Read.{Poll}
use horaedb.Read.Stream.{collect}
use horaedb.Read.Key.{ColumnTypes}
use horaedb.Read.PrimaryKey.{KeyType, HasKeys, same_primary_key}
use horaedb.Read.Runs.{runs, IsFilled}
use horaedb.Read.Merge.{IsMerging, Concatenates, visible}
use horaedb.Read.Output.{input_rows, IsFine, collect-merged_rows}

-- The last element alone.
abbrev pub last_of : {A : Type 0} → List A → List A
last_of [] = []
last_of (x ∷ []) = x ∷ []
last_of (x ∷ y ∷ ys) = last_of (y ∷ ys)

pub last_of-map : {A : Type 0} (f : A → A) (l : List A) → last_of (map f l) ≡ map f (last_of l)
last_of-map f [] = refl
last_of-map f (x ∷ []) = refl
last_of-map f (x ∷ y ∷ ys) = last_of-map f (y ∷ ys)

take-drop-last :
    {A : Type 0} (x : A) (l : List A) → take 1 (drop (length l) (x ∷ l)) ≡ last_of (x ∷ l)
take-drop-last x [] = refl
take-drop-last x (y ∷ ys) = take-drop-last y ys

module _ ⦃t : Batches⦄ where
  last_rows :
      (b : t.Batch) (x : t.Row) (xs : List t.Row)
      → t.rows b ≡ x ∷ xs
      → (last_value_merge b ≡ ok (t.slice b (t.num_rows b - 1) 1))
        × (t.rows (t.slice b (t.num_rows b - 1) 1) ≡ last_of (t.rows b))
  unfolding last_value_merge
  last_rows b x xs e =
      let index : t.num_rows b - 1 ≡ length xs = omega (arith, t.num_rows-rows b, ap length e) in
      (
        ground (arith, t.num_rows-rows b, ap length e),
        t.rows-slice b (t.num_rows b - 1) 1 (omega (arith, t.num_rows-rows b, ap length e))
            ∙ ap₂ (λ i (l : List t.Row). take 1 (drop i l)) index e
            ∙ take-drop-last x xs
            ∙ ap last_of (sym e),
      )

  pub merges_filled :
      (b : t.Batch) (l : List t.Row)
      → t.rows b ≡ l
      → IsFilled l
      → (b' : t.Batch) × (last_value_merge b ≡ ok b')
        × (t.rows b' ≡ last_of (t.rows b))
        × (t.num_columns b' ≡ t.num_columns b)
  merges_filled b [] e h = absurd h
  merges_filled b (x ∷ xs) e h =
      let (returns, rows) = last_rows b x xs e in
      (t.slice b (t.num_rows b - 1) 1, returns, rows, t.num_columns-slice b (t.num_rows b - 1) 1)

  abbrev pub last_value-IsMerging : IsMerging last_value_operator
  last_value-IsMerging = record {
    merge_rows = last_of;
    merges = λ b h. merges_filled b (t.rows b) refl h;
    merge_rows-map = λ i rs. last_of-map (t.without i) rs;
  }

  -- For batches of one schema, which can be put together, whose key columns are each of one of the six
  -- integer types or binary: with `LastValueOperator` a stream that is polled to its end gives the last
  -- row of each run of one primary key in the rows of all batches, in their order, less the builtin
  -- columns if these are not kept. Rows have one primary key if they hold the same value in each key
  -- column, read in the type of the column. Where the batches end does not matter, nor how often the
  -- input is not ready.
  pub collect-last_of :
      (types : ColumnTypes) (c n : ℕ) (keep : Bool)
      → Concatenates types c
      → 2 ≤ c
      → (keys : List KeyType) → HasKeys types 0 n keys
      → (polls : List (Poll t.Batch))
      → All (IsFine types c n last_value_operator keep last_value-IsMerging) polls
      → (outs : List t.Batch) × (collect n last_value_operator keep (length polls + 2) polls none
          ≡ ok outs)
        × (concat_map t.rows outs
            ≡ visible types c keep
                (concat_map last_of (runs (same_primary_key keys) (input_rows polls))))
  collect-last_of types c n keep concatenates le keys typed polls fine =
      collect-merged_rows types c n last_value_operator keep last_value-IsMerging concatenates le
        keys typed polls fine
