-- ===== src/Read/Merge.antt =====
-- One call of `merge_batch`: which runs it puts out, and which one waits for the next batch.
use horaedb.Prelude.{
  ℕ, suc, ◌-◌, ◌≤◌, ◌<◌, ◌≡◌, refl, sym, ap, ap₂, subst, ◌∙◌, Bool, true, false, Bool-cases, inl,
  inr, Option, none, some, List, [], ◌∷◌, ◌++◌, append-nil, map, map-append, All, All-append,
  length, arith,
}
use horaedb.Prelude.Perms.{concat_map}
use horaedb.Prelude.Result.{Result, ok}
use horaedb.Batches.{Batches}
use horaedb.Operator.{MergeOperator}
use horaedb.Read.{
  row_at, pop_last, remove_last, maybe_remove_builtin_columns, merge_all, join_pending, emit,
  primary_key_eq,
}
use horaedb.Read.Key.{ColumnTypes, IsTyped, same_key}
use horaedb.Read.Runs.{join, touch, IsFilled}
use horaedb.Read.Groups.{primary_key_eq-same_key}

-- What an operator promises: `merge_rows` of the rows, for a batch that has some.
pub record IsMerging ⦃t : Batches⦄ (op : MergeOperator t.Batch) : Type 0 where
  pub merge_rows : List t.Row → List t.Row
  pub merges :
      (b : t.Batch)
      → IsFilled (t.rows b)
      → (b' : t.Batch) × (op.merge b ≡ ok b')
        × (t.rows b' ≡ merge_rows (t.rows b))
        × (t.num_columns b' ≡ t.num_columns b)
  -- It does not look at the column that goes.
  pub merge_rows-map :
      (i : ℕ) (rs : List t.Row)
      → merge_rows (map (t.without i) rs) ≡ map (t.without i) (merge_rows rs)

-- The last row of a run, with which the next run is compared.
row_at-last :
    {A : Type 0} (P : A → Type 0) (same : A → A → Bool) (x : A) (xs : List A)
    → All P (x ∷ xs)
    → (l : A) × (row_at (x ∷ xs) (length xs) ≡ ok l)
      × P l
      × ((y : A) (ys : List A) → touch same x xs (y ∷ ys) ≡ same l y)
row_at-last P same x [] (h, hs) = (x, refl, h, λ y ys. refl)
row_at-last P same x (x' ∷ xs) (h, hs) = row_at-last P same x' xs hs

pub pop_last_lem :
    {A : Type 0} (x : A) (ys : List A) → x ∷ ys ≡ (pop_last x ys).0 ++ (pop_last x ys).1 ∷ []
pop_last_lem x [] = refl
pop_last_lem x (y ∷ ys) = ap (λ l. x ∷ l) (pop_last_lem y ys)

module _ ⦃t : Batches⦄ (types : ColumnTypes) (c : ℕ) where
  -- A batch of the input's schema with rows of its types.
  pub record IsInput (b : t.Batch) : Type 0 where
    pub typed : All (IsTyped types) (t.rows b)
    pub wide : t.num_columns b ≡ c

  pub record IsGroup (b : t.Batch) : Type 0 where
    pub filled : IsFilled (t.rows b)
    pub input : IsInput b

  -- Batches of the schema can be put together.
  abbrev pub Concatenates : Type 0
  Concatenates =
      (first : t.Batch) (bs : List t.Batch)
      → All (λ b. t.num_columns b ≡ c) (first ∷ bs)
      → (b : t.Batch) × (t.concat_batches (first ∷ bs) ≡ some b)

  -- The rows as the consumer sees them.
  abbrev pub visible : Bool → List t.Row → List t.Row
  visible true rs = rs
  visible false rs = map (t.without (c - 2)) (map (t.without (c - 1)) rs)

  pub visible-append :
      (keep : Bool) (rs ss : List t.Row)
      → visible keep (rs ++ ss) ≡ visible keep rs ++ visible keep ss
  visible-append true rs ss = refl
  visible-append false rs ss = simp map-append

  pub visible-nil : (keep : Bool) → visible keep [] ≡ []
  visible-nil true = refl
  visible-nil false = refl

  remove_last_lem :
      (b : t.Batch) (k : ℕ)
      → t.num_columns b ≡ suc k
      → (b' : t.Batch) × (remove_last b ≡ ok b')
        × (t.rows b' ≡ map (t.without k) (t.rows b))
        × (t.num_columns b' ≡ k)
  unfolding remove_last
  remove_last_lem b k e =
      let last : t.num_columns b - 1 ≡ k = omega arith in
      let inside : t.num_columns b - 1 < t.num_columns b = omega arith in
      (
        t.remove_column b (t.num_columns b - 1),
        ground arith,
        t.rows-remove_column b (t.num_columns b - 1) inside
            ∙ ap (λ i. map (t.without i) (t.rows b)) last,
        omega (arith, t.num_columns-remove_column b (t.num_columns b - 1) inside),
      )

  pub maybe_remove_lem :
      (keep : Bool) (b : t.Batch)
      → 2 ≤ c
      → t.num_columns b ≡ c
      → (b' : t.Batch) × (maybe_remove_builtin_columns keep b ≡ ok b')
        × (t.rows b' ≡ visible keep (t.rows b))
  unfolding maybe_remove_builtin_columns
  maybe_remove_lem true b le e = (b, refl, refl)
  maybe_remove_lem false b le e =
      let (b', r', rows', cols') = remove_last_lem b (c - 1) (omega arith) in
      let (b'', r'', rows'', cols'') = remove_last_lem b' (c - 2) (omega arith) in
      (b'', rw (r', r''), rows'' ∙ ap (map (t.without (c - 2))) rows')

  module _ (n : ℕ) (op : MergeOperator t.Batch) (keep : Bool) (m : IsMerging op) where
    -- The rows that come of a list of runs.
    abbrev pub merged_rows : List (List t.Row) → List t.Row
    merged_rows = concat_map m.merge_rows

    pub merge_all_lem :
        (bs : List t.Batch)
        → All IsGroup bs
        → (outs : List t.Batch) × (merge_all n op keep bs ≡ ok outs)
          × (concat_map t.rows outs ≡ merged_rows (map t.rows bs))
          × All (λ b. t.num_columns b ≡ c) outs
    unfolding merge_all
    merge_all_lem [] h = ([], refl, refl, tt)
    merge_all_lem (b ∷ bs) (h, hs) =
        let (b', returns, rows, cols) = m.merges b h.filled in
        let (outs, returns', rows', cols') = merge_all_lem bs hs in
        (
          b' ∷ outs,
          rw (returns, returns'),
          ap₂ (λ (x y : List t.Row). x ++ y) rows rows',
          (cols ∙ h.input.wide, cols'),
        )

    abbrev pub rows_of : Option t.Batch → List t.Row
    rows_of none = []
    rows_of (some b) = t.rows b

    pub emit_lem :
        (bs : List t.Batch)
        → Concatenates
        → 2 ≤ c
        → All (λ b. t.num_columns b ≡ c) bs
        → (out : Option t.Batch) × (emit n op keep bs ≡ ok out)
          × (rows_of out ≡ visible keep (concat_map t.rows bs))
    unfolding emit
    emit_lem [] concatenates le h = (none, refl, sym (visible-nil keep))
    emit_lem (b ∷ bs) concatenates le h =
        let (joined, e) = concatenates b bs h in
        let (b', returns, rows) =
          maybe_remove_lem keep joined le (t.num_columns-concat_batches b bs joined e ∙ h.0) in
        (
          some b',
          rw (e, returns),
          rows ∙ ap (visible keep) (t.rows-concat_batches (b ∷ bs) joined e),
        )

    -- The pending run before the groups: the runs that come out, and the groups that are left.
    pub record IsJoined (p : List t.Row) (gs : List t.Batch)
        (r : Result (List t.Batch × t.Batch × List t.Batch)) : Type 0 where
      pub outs : List t.Batch
      pub first : t.Batch
      pub others : List t.Batch
      pub done : List (List t.Row)
      pub returns : r ≡ ok (outs, first, others)
      pub rows : concat_map t.rows outs ≡ merged_rows done
      pub columns : All (λ b. t.num_columns b ≡ c) outs
      pub groups : All IsGroup (first ∷ others)
      pub joined : join (same_key n) (p ∷ []) (map t.rows gs) ≡ done ++ map t.rows (first ∷ others)

    -- With the pending rows `x ∷ xs`, and `y` the first row of the first group.
    module _ (pending first : t.Batch) (others : List t.Batch) (x y : t.Row)
        (xs ys : List t.Row) where
      joined_rows :
          (b : t.Batch)
          → t.rows pending ≡ x ∷ xs
          → t.concat_batches (pending ∷ first ∷ []) ≡ some b
          → t.rows b ≡ x ∷ (xs ++ t.rows first)
      joined_rows b ep e =
          t.rows-concat_batches (pending ∷ first ∷ []) b e
          ∙ ap₂ (λ (u v : List t.Row). u ++ v) ep (append-nil (t.rows first))

      compared :
          t.rows pending ≡ x ∷ xs
          → t.rows first ≡ y ∷ ys
          → IsInput pending
          → IsInput first
          → primary_key_eq n pending (t.num_rows pending - 1) first 0
            ≡ ok (touch (same_key n) x xs (t.rows first))
      compared ep ef hp hf =
          let (l, at, typed, touches) =
            row_at-last (IsTyped types) (same_key n) x xs
              (subst (All (IsTyped types)) ep hp.typed) in
          let last : t.num_rows pending - 1 ≡ length xs =
            omega (arith, t.num_rows-rows pending, ap length ep) in
          primary_key_eq-same_key types n pending first (t.num_rows pending - 1) 0 l y
            (ap₂ row_at ep last ∙ at) (ap (λ (r : List t.Row). row_at r 0) ef) typed
            (subst (All (IsTyped types)) ef hf.typed).0
          ∙ ap ok (sym (touches y ys) ∙ sym (ap (touch (same_key n) x xs) ef))

      joins :
          (b : t.Batch)
          → t.rows pending ≡ x ∷ xs
          → t.concat_batches (pending ∷ first ∷ []) ≡ some b
          → IsInput pending
          → IsInput first
          → IsGroup b
      joins b ep e hp hf = record {
        filled = subst IsFilled (sym (joined_rows b ep e)) tt;
        input = record {
          typed = subst (All (IsTyped types)) (sym (joined_rows b ep e)) (
              All-append (IsTyped types) (x ∷ xs) (t.rows first)
                (subst (All (IsTyped types)) ep hp.typed) hf.typed);
          wide = t.num_columns-concat_batches pending (first ∷ []) b e ∙ hp.wide;
        };
      }

    pub join_pending_lem :
        (pending first : t.Batch) (others : List t.Batch) (x y : t.Row) (xs ys : List t.Row)
        → t.rows pending ≡ x ∷ xs
        → t.rows first ≡ y ∷ ys
        → Concatenates
        → IsGroup pending
        → All IsGroup (first ∷ others)
        → IsJoined (x ∷ xs) (first ∷ others) (join_pending n op keep (some pending) first others)
    unfolding join_pending
    join_pending_lem pending first others x y xs ys ep ef concatenates hp (hf, hs) =
        elim (Bool-cases (touch (same_key n) x xs (t.rows first))) [
          | inl e ↦
              let (b, concat) =
                concatenates pending (first ∷ []) (hp.input.wide, (hf.input.wide, tt)) in
              record {
                outs = [];
                first = b;
                others = others;
                done = [];
                returns =
                    rw (compared pending first others x y xs ys ep ef hp.input hf.input, e, concat);
                rows = refl;
                columns = tt;
                groups = (joins pending first others x y xs ys b ep concat hp.input hf.input, hs);
                joined = rw (e, joined_rows pending first others x y xs ys b ep concat);
              }
          | inr e ↦
              let (b, returns, rows, columns) = m.merges pending hp.filled in
              record {
                outs = b ∷ [];
                first = first;
                others = others;
                done = (x ∷ xs) ∷ [];
                returns =
                    rw
                      (compared pending first others x y xs ys ep ef hp.input hf.input, e, returns);
                rows = ap (λ (l : List t.Row). l ++ []) (rows ∙ ap m.merge_rows ep);
                columns = (columns ∙ hp.input.wide, tt);
                groups = (hf, hs);
                joined = rw e;
              }
        ]
