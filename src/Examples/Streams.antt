-- ===== src/Examples/Streams.antt =====
-- The theorems on the merge of a stream: rows are lists of `u64`, and a batch knows its number of
-- columns.
use horaedb.Prelude.{
  ℕ, zero, suc, ◌-◌, ◌<◌, ◌≡◌, ◌↔◌, refl, Bool, true, false, Option, none, some, List, [], ◌∷◌, map,
  All, length, take, drop, arith,
}
use horaedb.Prelude.Int.{ℤ, pos}
use horaedb.Prelude.Perms.{concat_map}
use horaedb.Prelude.Result.{ok}
use horaedb.Batches.{Batches, Primitive, uint8, int8, uint32, int32, uint64, int64}
use horaedb.Operator.{last_value_operator}
use horaedb.Read.{Poll, not_ready, arrived, keys_eq, primary_key_eq}
use horaedb.Read.Stream.{collect}
use horaedb.Read.Key.{ColumnTypes, IsTyped, is_some, keys_eq_other_types}
use horaedb.Read.PrimaryKey.{
  integer, HasKeys, same_primary_key, has_integer, EqualKeys, primary_key_eq_iff,
}
use horaedb.Read.Runs.{runs}
use horaedb.Read.Merge.{Concatenates, visible}
use horaedb.Read.Output.{input_rows, IsFine, collect-merged_rows}
use horaedb.Read.LastValue.{last_of, last_value-IsMerging, collect-last_of}

abbrev pub Table : Type 0
Table = ℕ × List (List ℕ)

abbrev pub value : ℕ → List ℕ → ℕ
value k [] = 0
value zero (x ∷ xs) = x
value (suc k) (x ∷ xs) = value k xs

abbrev pub u64_value : Primitive → ℕ → List ℕ → Option ℤ
u64_value uint64 k r = some (pos (value k r))
u64_value uint8 k r = none
u64_value int8 k r = none
u64_value uint32 k r = none
u64_value int32 k r = none
u64_value int64 k r = none

abbrev pub without : ℕ → List ℕ → List ℕ
without i [] = []
without zero (x ∷ xs) = xs
without (suc i) (x ∷ xs) = x ∷ without i xs

abbrev pub concat : List Table → Option Table
concat [] = none
concat (b ∷ bs) = some (b.0, concat_map (λ c. c.1) (b ∷ bs))

pub concat-rows :
    (bs : List Table) (b : Table) → concat bs ≡ some b → b.1 ≡ concat_map (λ c. c.1) bs
concat-rows [] b e = cc
concat-rows (c ∷ bs) b e = cc

pub concat-columns :
    (c : Table) (bs : List Table) (b : Table) → concat (c ∷ bs) ≡ some b → b.0 ≡ c.0
concat-columns c bs b e = cc

abbrev key_value : Bool → Primitive → ℕ → List ℕ → Option ℤ
key_value true p k r = u64_value p k r
key_value false p zero r = none
key_value false p (suc k) r = u64_value p (suc k) r

-- With `typed` false the first column has none of the types that are compared.
abbrev pub tables : Bool → Batches
tables typed = record {
  Batch = Table;
  Row = List ℕ;
  rows = λ b. b.1;
  num_rows = λ b. length b.1;
  num_rows-rows = λ b. refl;
  num_columns = λ b. b.0;
  slice = λ b offset len. (b.0, take len (drop offset b.1));
  rows-slice = λ b offset len h. refl;
  num_columns-slice = λ b offset len. refl;
  concat_batches = concat;
  rows-concat_batches = concat-rows;
  num_columns-concat_batches = concat-columns;
  remove_column = λ b i. (b.0 - 1, map (without i) b.1);
  without = without;
  rows-remove_column = λ b i h. refl;
  num_columns-remove_column = λ b i h. omega arith;
  primitive_value = key_value typed;
  bytes_value = λ k r. none;
}

abbrev is_u64 : Primitive → Bool
is_u64 uint64 = true
is_u64 uint8 = false
is_u64 int8 = false
is_u64 uint32 = false
is_u64 int32 = false
is_u64 int64 = false

abbrev u64_columns : ColumnTypes ⦃t = tables true⦄
u64_columns = record { primitive = λ p k. is_u64 p; bytes = λ k. false }

u64_columns-some : (r : List ℕ) (p : Primitive) (k : ℕ) → is_some (u64_value p k r) ≡ is_u64 p
u64_columns-some r uint64 k = refl
u64_columns-some r uint8 k = refl
u64_columns-some r int8 k = refl
u64_columns-some r uint32 k = refl
u64_columns-some r int32 k = refl
u64_columns-some r int64 k = refl

row-IsTyped : (r : List ℕ) → IsTyped ⦃t = tables true⦄ u64_columns r
row-IsTyped r = record { primitive = u64_columns-some r; bytes = λ k. refl }

u64_only : (p : Primitive) → is_u64 p ≡ has_integer (integer uint64) p
u64_only uint64 = refl
u64_only uint8 = refl
u64_only int8 = refl
u64_only uint32 = refl
u64_only int32 = refl
u64_only int64 = refl

key-HasKeys : HasKeys ⦃t = tables true⦄ u64_columns 0 1 (integer uint64 ∷ [])
key-HasKeys = (u64_only, refl, tt)

concatenates : Concatenates ⦃t = tables true⦄ u64_columns 4
concatenates first bs h = ((first.0, concat_map (λ c. c.1) (first ∷ bs)), refl)

-- Columns: a key, a value, the sequence, the reserved one. Key 2 is cut by the end of the first batch.
abbrev polls : List (Poll Table)
polls =
    arrived (4, (1 ∷ 10 ∷ 1 ∷ 0 ∷ []) ∷ (2 ∷ 20 ∷ 1 ∷ 0 ∷ []) ∷ [])
    ∷ not_ready
    ∷ arrived (4, (2 ∷ 21 ∷ 2 ∷ 0 ∷ []) ∷ (3 ∷ 30 ∷ 1 ∷ 0 ∷ []) ∷ [])
    ∷ []

fine :
    All
      (IsFine ⦃t = tables true⦄ u64_columns 4 1
        (last_value_operator ⦃t = tables true⦄)
        false
        (last_value-IsMerging ⦃t = tables true⦄))
      polls
fine = (
  record { typed = (row-IsTyped _, (row-IsTyped _, tt)); wide = refl },
  (tt, (record { typed = (row-IsTyped _, (row-IsTyped _, tt)); wide = refl }, tt)),
)

primary_key_eq_iff_example :
    (b : Bool) × (primary_key_eq ⦃t = tables true⦄ 1
        (4, (1 ∷ 10 ∷ 1 ∷ 0 ∷ []) ∷ (2 ∷ 20 ∷ 1 ∷ 0 ∷ []) ∷ [])
        1
        (4, (2 ∷ 21 ∷ 2 ∷ 0 ∷ []) ∷ [])
        0
      ≡ ok b)
    × ((b ≡ true)
        ↔ EqualKeys ⦃t = tables true⦄ 0
            (integer uint64 ∷ [])
            (2 ∷ 20 ∷ 1 ∷ 0 ∷ [])
            (2 ∷ 21 ∷ 2 ∷ 0 ∷ []))
primary_key_eq_iff_example =
    primary_key_eq_iff ⦃t = tables true⦄ u64_columns 1 (integer uint64 ∷ [])
      (4, (1 ∷ 10 ∷ 1 ∷ 0 ∷ []) ∷ (2 ∷ 20 ∷ 1 ∷ 0 ∷ []) ∷ []) (4, (2 ∷ 21 ∷ 2 ∷ 0 ∷ []) ∷ []) 1 0
      key-HasKeys refl refl (row-IsTyped _) (row-IsTyped _)

first_untyped : (p : Primitive) (j : ℕ) → j < 1 → key_value false p j (7 ∷ 70 ∷ 1 ∷ []) ≡ none
first_untyped p zero lt = refl
first_untyped p (suc j) lt = absurd (omega arith)

collect-merged_rows_example :
    (outs : List Table) × (collect ⦃t = tables true⦄ 1
        (last_value_operator ⦃t = tables true⦄)
        false
        5
        polls
        none
      ≡ ok outs)
    × (concat_map (λ b. b.1) outs
        ≡ visible ⦃t = tables true⦄ u64_columns 4 false (
            concat_map last_of (
              runs
                (same_primary_key ⦃t = tables true⦄ (integer uint64 ∷ []))
                (input_rows ⦃t = tables true⦄ polls))))
collect-merged_rows_example =
    collect-merged_rows ⦃t = tables true⦄ u64_columns 4 1 (last_value_operator ⦃t = tables true⦄)
      false (last_value-IsMerging ⦃t = tables true⦄) concatenates (omega arith)
      (integer uint64 ∷ []) key-HasKeys polls fine

collect-last_of_example :
    (outs : List Table) × (collect ⦃t = tables true⦄ 1
        (last_value_operator ⦃t = tables true⦄)
        false
        5
        polls
        none
      ≡ ok outs)
    × (concat_map (λ b. b.1) outs
        ≡ visible ⦃t = tables true⦄ u64_columns 4 false (
            concat_map last_of (
              runs
                (same_primary_key ⦃t = tables true⦄ (integer uint64 ∷ []))
                (input_rows ⦃t = tables true⦄ polls))))
collect-last_of_example =
    collect-last_of ⦃t = tables true⦄ u64_columns 4 1 false concatenates (omega arith)
      (integer uint64 ∷ []) key-HasKeys polls fine

keys_eq_other_types_example :
    keys_eq ⦃t = tables false⦄ 0 1 (7 ∷ 70 ∷ 1 ∷ []) (8 ∷ 80 ∷ 2 ∷ []) ≡ ok true
keys_eq_other_types_example =
    keys_eq_other_types ⦃t = tables false⦄ 1 (7 ∷ 70 ∷ 1 ∷ []) (8 ∷ 80 ∷ 2 ∷ []) first_untyped
      (λ j lt. refl)
