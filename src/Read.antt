-- ===== src/Read.antt =====
-- src/storage/src/read.rs: `MergeStream`, which merges the rows of one primary key over all batches of
-- its input. Its state and its polls are in Read/Stream.antt.
pub mod Runs
pub mod Key
pub mod PrimaryKey
pub mod Groups
pub mod Merge
pub mod Step
pub mod Output
pub mod LastValue
pub mod Plan
pub mod Projected
pub mod Stream
use horaedb.Prelude.{
  ℕ, zero, suc, ◌+◌, ◌-◌, Bool, true, false, not, ◌&&◌, Option, none, some, List, [], ◌∷◌, ◌++◌,
  length, ltb, ◌==◌, if◌then◌else◌,
}
use horaedb.Prelude.Int.{ℤ, eqb_ℤ}
use horaedb.Prelude.Result.{Error, Result, ok, err, panic, store_failed, ◌>>=◌}
use horaedb.Batches.{Batches, Primitive, uint8, int8, uint32, int32, uint64, int64}
use horaedb.Operator.{MergeOperator}

abbrev pub all_primitives : List Primitive
all_primitives = uint8 ∷ int8 ∷ uint32 ∷ int32 ∷ uint64 ∷ int64 ∷ []

abbrev pub bytes_eq : List ℕ → List ℕ → Bool
bytes_eq [] [] = true
bytes_eq [] (y ∷ ys) = false
bytes_eq (x ∷ xs) [] = false
bytes_eq (x ∷ xs) (y ∷ ys) = x == y && bytes_eq xs ys

abbrev pub some_or_fail : {A : Type 0} → Option A → Result A
some_or_fail none = err store_failed
some_or_fail (some a) = ok a

-- What the left column has decides the type; the right one panics if it has another.
abbrev pub both : {A : Type 0} → (A → A → Bool) → Option A → Option A → Result Bool
both eq none r = ok true
both eq (some x) none = panic
both eq (some x) (some y) = ok (eq x y)

-- The first element, the index and the slice in range.
abbrev pub first_of : {A : Type 0} → List A → Result (A × List A)
first_of [] = panic
first_of (x ∷ xs) = ok (x, xs)

abbrev pub row_at : {A : Type 0} → List A → ℕ → Result A
row_at [] i = panic
row_at (x ∷ xs) zero = ok x
row_at (x ∷ xs) (suc i) = row_at xs i

-- `pop` of a vector that is not empty: the others, and the last.
abbrev pub pop_last : {A : Type 0} → A → List A → List A × A
pop_last x [] = ([], x)
pop_last x (y ∷ ys) = let (others, last) = pop_last y ys in (x ∷ others, last)

-- What a poll of the input gives before its end: nothing yet, a batch, or an error.
pub data Poll (B : Type 0) : Type 0 where
  not_ready : Poll B
  arrived : B → Poll B
  failed : Poll B

-- What `poll_next` gives.
pub data Polled (B : Type 0) : Type 0 where
  wait : Polled B
  item : Result B → Polled B
  ended : Polled B

module _ ⦃t : Batches⦄ where
  unfoldable pub primitives_eq : List Primitive → ℕ → t.Row → t.Row → Result Bool
  primitives_eq [] k l r = ok true
  primitives_eq (p ∷ ps) k l r =
      let rest = primitives_eq ps k l r in
      do
        e ← both eqb_ℤ (t.primitive_value p k l) (t.primitive_value p k r)
        if e then rest else ok false

  unfoldable pub column_eq : ℕ → t.Row → t.Row → Result Bool
  unfolding primitives_eq
  column_eq k l r = do
    e ← primitives_eq all_primitives k l r
    if e then both bytes_eq (t.bytes_value k l) (t.bytes_value k r) else ok false

  -- The loop over `0..num_primary_keys`, from its end: `count` keys are left.
  unfoldable pub keys_eq : ℕ → ℕ → t.Row → t.Row → Result Bool
  unfolding column_eq
  keys_eq k zero l r = ok true
  keys_eq k (suc count) l r =
      let rest = keys_eq (k + 1) count l r in do e ← column_eq k l r; if e then rest else ok false

  module _ (num_primary_keys : ℕ) where
    unfoldable pub primary_key_eq : t.Batch → ℕ → t.Batch → ℕ → Result Bool
    unfolding keys_eq
    primary_key_eq lhs lhs_idx rhs rhs_idx = do
      l ← row_at (t.rows lhs) lhs_idx
      r ← row_at (t.rows rhs) rhs_idx
      keys_eq 0 num_primary_keys l r

    -- The inner loop. At `panic` the fuel is out.
    unfoldable pub end_of_group : ℕ → t.Batch → ℕ → ℕ → Result ℕ
    unfolding primary_key_eq
    end_of_group zero batch start_idx end_idx = panic
    end_of_group (suc fuel) batch start_idx end_idx =
        let next = end_of_group fuel batch start_idx (end_idx + 1) in
        let test = primary_key_eq batch start_idx batch end_idx in
        if ltb end_idx (t.num_rows batch)
        then (do e ← test; if e then next else ok end_idx)
        else ok end_idx

    unfoldable pub group_rows : ℕ → t.Batch → ℕ → Result (List t.Batch)
    unfolding end_of_group
    group_rows zero batch start_idx = panic
    group_rows (suc fuel) batch start_idx =
        let step = (do
          end_idx ← end_of_group (suc (t.num_rows batch)) batch start_idx (start_idx + 1)
          rest ← group_rows fuel batch end_idx
          ok (t.slice batch start_idx (end_idx - start_idx) ∷ rest)) in
        if ltb start_idx (t.num_rows batch) then step else ok []

  -- Two columns go, the last first.
  unfoldable pub remove_last : t.Batch → Result t.Batch
  remove_last batch =
      if t.num_columns batch == 0
      then panic
      else ok (t.remove_column batch (t.num_columns batch - 1))

  unfoldable pub maybe_remove_builtin_columns : Bool → t.Batch → Result t.Batch
  unfolding remove_last
  maybe_remove_builtin_columns true batch = ok batch
  maybe_remove_builtin_columns false batch = do b ← remove_last batch; remove_last b

  module _ (num_primary_keys : ℕ) (value_operator : MergeOperator t.Batch)
      (keep_builtin : Bool) where
    unfoldable pub merge_all : List t.Batch → Result (List t.Batch)
    merge_all [] = ok []
    merge_all (batch ∷ batches) = do
      b ← value_operator.merge batch
      bs ← merge_all batches
      ok (b ∷ bs)

    -- What becomes of the batch that waited: it joins the first group, or it is merged.
    unfoldable pub join_pending :
        Option t.Batch → t.Batch → List t.Batch → Result (List t.Batch × t.Batch × List t.Batch)
    unfolding primary_key_eq
    join_pending none first others = ok ([], first, others)
    join_pending (some pending) first others = do
      let joined = (do
        b ← some_or_fail (t.concat_batches (pending ∷ first ∷ []))
        ok ([], b, others))
      let merged = (do b ← value_operator.merge pending; ok (b ∷ [], first, others))
      same ← primary_key_eq num_primary_keys pending (t.num_rows pending - 1) first 0
      if same then joined else merged

    -- The output of one call, from the merged groups.
    unfoldable pub emit : List t.Batch → Result (Option t.Batch)
    unfolding maybe_remove_builtin_columns
    emit [] = ok none
    emit (b ∷ bs) = do
      joined ← some_or_fail (t.concat_batches (b ∷ bs))
      output ← maybe_remove_builtin_columns keep_builtin joined
      ok (some output)

    -- At the end of the input.
    unfoldable pub finish : t.Batch → Result t.Batch
    unfolding maybe_remove_builtin_columns
    finish pending = do
      batch ← maybe_remove_builtin_columns keep_builtin pending
      value_operator.merge batch

    abbrev pub finished : Option t.Batch → Polled t.Batch
    finished none = ended
    finished (some pending) = item (finish pending)

  -- What a consumer has after a poll, where `rest` is what it gets later.
  abbrev pub gathered : Polled t.Batch → Result (List t.Batch) → Result (List t.Batch)
  gathered ended rest = ok []
  gathered wait rest = rest
  gathered (item r) rest = do b ← r; bs ← rest; ok (b ∷ bs)
