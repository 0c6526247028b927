-- ===== src/Read/Output.antt =====
-- The whole output of a `MergeStream`: every run of one primary key, merged once, wherever the batches
-- of the input end.
use horaedb.Prelude.{
  ℕ, zero, suc, ◌+◌, ◌-◌, ◌≤◌, ◌≡◌, refl, sym, ap, ap₂, subst, ◌∙◌, Bool, true, false, inl, inr,
  Option, Option-cases, none, some, List, [], ◌∷◌, ◌++◌, append_assoc, append-nil, map, All,
  All-append, length, arith,
}
use horaedb.Prelude.Perms.{concat_map, concat_map-append}
use horaedb.Prelude.Result.{Result, ok}
use horaedb.Batches.{Batches}
use horaedb.Operator.{MergeOperator}
use horaedb.Read.{Poll, not_ready, arrived, failed, item, finish, gathered}
use horaedb.Read.Stream.{merge_batch, poll_next, collect}
use horaedb.Read.Key.{ColumnTypes, IsTyped, same_key}
use horaedb.Read.PrimaryKey.{KeyType, HasKeys, same_primary_key, runs-same_primary_key}
use horaedb.Read.Runs.{runs, IsFilled}
use horaedb.Read.Merge.{
  IsMerging, IsInput, IsGroup, Concatenates, visible, visible-nil, visible-append, maybe_remove_lem,
  merged_rows, rows_of,
}
use horaedb.Read.Step.{Tracks, merge_batch-IsStep}

module _ ⦃t : Batches⦄ where
  -- The rows of all batches that arrive.
  abbrev pub input_rows : List (Poll t.Batch) → List t.Row
  input_rows [] = []
  input_rows (not_ready ∷ polls) = input_rows polls
  input_rows (arrived b ∷ polls) = t.rows b ++ input_rows polls
  input_rows (failed ∷ polls) = input_rows polls

  map-IsFilled : (f : t.Row → t.Row) (l : List t.Row) → IsFilled l → IsFilled (map f l)
  map-IsFilled f [] h = h
  map-IsFilled f (x ∷ xs) h = tt

  module _ (types : ColumnTypes) (c n : ℕ) (op : MergeOperator t.Batch) (keep : Bool)
      (m : IsMerging op) where
    -- Each poll of the input gives nothing yet or a batch of the schema.
    abbrev pub IsFine : Poll t.Batch → Type 0
    IsFine not_ready = Unit
    IsFine (arrived b) = IsInput types c b
    IsFine failed = ⊥

    input_rows-IsTyped :
        (polls : List (Poll t.Batch)) → All IsFine polls → All (IsTyped types) (input_rows polls)
    input_rows-IsTyped [] fine = tt
    input_rows-IsTyped (not_ready ∷ polls) (f, fine) = input_rows-IsTyped polls fine
    input_rows-IsTyped (arrived b ∷ polls) (f, fine) =
        All-append (IsTyped types) (t.rows b) (input_rows polls) f.typed
          (input_rows-IsTyped polls fine)
    input_rows-IsTyped (failed ∷ polls) (f, fine) = absurd f

    -- What comes out of a stream that has put out the runs `done` of the rows `seen`.
    record IsOutput (seen : List t.Row) (done : List (List t.Row)) (polls : List (Poll t.Batch))
        (r : Result (List t.Batch)) : Type 0 where
      outs : List t.Batch
      rest : List (List t.Row)
      returns : r ≡ ok outs
      cut : runs (same_key n) (seen ++ input_rows polls) ≡ done ++ rest
      rows : concat_map t.rows outs ≡ visible types c keep (merged_rows types c n op keep m rest)

    visible-IsFilled :
        (keep' : Bool) (l : List t.Row) → IsFilled l → IsFilled (visible types c keep' l)
    visible-IsFilled true l h = h
    visible-IsFilled false l h =
        map-IsFilled (t.without (c - 2)) (map (t.without (c - 1)) l)
          (map-IsFilled (t.without (c - 1)) l h)

    merge_rows-visible :
        (keep' : Bool) (l : List t.Row)
        → m.merge_rows (visible types c keep' l) ≡ visible types c keep' (m.merge_rows l)
    merge_rows-visible true l = refl
    merge_rows-visible false l =
        m.merge_rows-map (c - 2) (map (t.without (c - 1)) l)
        ∙ ap (map (t.without (c - 2))) (m.merge_rows-map (c - 1) l)

    finish_lem :
        (p : t.Batch)
        → 2 ≤ c
        → IsGroup types c p
        → (b : t.Batch) × (finish n op keep p ≡ ok b)
          × (t.rows b ≡ visible types c keep (m.merge_rows (t.rows p)))
    unfolding finish
    finish_lem p le h =
        let (b, removed, rows) = maybe_remove_lem types c keep p le h.input.wide in
        let (b', merged, rows', cols) =
          m.merges b (subst IsFilled (sym rows) (visible-IsFilled keep (t.rows p) h.filled)) in
        (
          b',
          rw (removed, merged),
          rows' ∙ ap m.merge_rows rows ∙ merge_rows-visible keep (t.rows p),
        )

    collect_waiting :
        (fuel : ℕ) (polls : List (Poll t.Batch)) (pending : Option t.Batch)
        → collect n op keep (suc fuel) (not_ready ∷ polls) pending
          ≡ collect n op keep fuel polls pending
    unfolding collect poll_next
    collect_waiting fuel polls pending = refl

    collect_silent :
        (fuel : ℕ) (b : t.Batch) (polls : List (Poll t.Batch)) (pending pending' : Option t.Batch)
        → merge_batch n op keep b pending ≡ (ok none, pending')
        → collect n op keep (suc fuel) (arrived b ∷ polls) pending
          ≡ collect n op keep (suc fuel) polls pending'
    unfolding collect poll_next
    collect_silent fuel b polls pending pending' e = rw e

    collect_output :
        (fuel : ℕ) (b v : t.Batch) (polls : List (Poll t.Batch)) (pending pending' : Option t.Batch)
        → merge_batch n op keep b pending ≡ (ok (some v), pending')
        → collect n op keep (suc fuel) (arrived b ∷ polls) pending
          ≡ gathered (item (ok v)) (collect n op keep fuel polls pending')
    unfolding collect poll_next
    collect_output fuel b v polls pending pending' e = rw e

    -- The output behind a step, by what the step puts out.
    behind :
        (seen : List t.Row) (done : List (List t.Row)) (b : t.Batch) (polls : List (Poll t.Batch))
        (outs : List t.Batch) (more rest : List (List t.Row)) (r : Result (List t.Batch))
        → r ≡ ok outs
        → runs (same_key n) ((seen ++ t.rows b) ++ input_rows polls) ≡ (done ++ more) ++ rest
        → concat_map t.rows outs
          ≡ visible types c keep (merged_rows types c n op keep m more)
            ++ visible types c keep (merged_rows types c n op keep m rest)
        → IsOutput seen done (arrived b ∷ polls) r
    behind seen done b polls outs more rest r returns cut rows = record {
      outs = outs;
      rest = more ++ rest;
      returns = returns;
      cut =
          ap (runs (same_key n)) (sym (append_assoc seen (t.rows b) (input_rows polls)))
          ∙ cut
          ∙ append_assoc done more rest;
      rows =
          rows
          ∙ sym (
              visible-append types c keep (merged_rows types c n op keep m more)
                (merged_rows types c n op keep m rest))
          ∙ ap (visible types c keep) (sym (concat_map-append m.merge_rows more rest));
    }

    module _ (concatenates : Concatenates types c) (le : 2 ≤ c) where
      collect-IsOutput :
          (polls : List (Poll t.Batch)) (fuel : ℕ) (seen : List t.Row) (done : List (List t.Row))
          (pending : Option t.Batch)
          → All IsFine polls
          → length polls + 2 ≤ fuel
          → Tracks types c n op keep m seen done pending
          → IsOutput seen done polls (collect n op keep fuel polls pending)
      collect-IsOutput polls zero seen done pending fine enough tracks = absurd (omega arith)
      collect-IsOutput polls (suc zero) seen done pending fine enough tracks = absurd (omega arith)
      collect-IsOutput [] (suc (suc fuel)) seen done none fine enough (s, d) = record {
        outs = [];
        rest = [];
        returns = unfold collect in unfold poll_next in refl;
        cut = rw (s, d) (unfold runs in refl);
        rows = sym (visible-nil types c keep);
      }
      collect-IsOutput [] (suc (suc fuel)) seen done (some p) fine enough (cut, h) =
          let (b, returns, rows) = finish_lem p le h in
          record {
            outs = b ∷ [];
            rest = t.rows p ∷ [];
            returns = unfold collect in unfold poll_next in rw returns;
            cut = ap (runs (same_key n)) (append-nil seen) ∙ cut;
            rows =
                ap (λ l. l ++ []) rows
                ∙ append-nil (visible types c keep (m.merge_rows (t.rows p)))
                ∙ ap (visible types c keep) (sym (append-nil (m.merge_rows (t.rows p))));
          }
      collect-IsOutput (not_ready ∷ polls) (suc (suc fuel)) seen done pending (f, fine) enough
            tracks =
          let o = collect-IsOutput polls (suc fuel) seen done pending fine (omega arith) tracks in
          record {
            outs = o.outs;
            rest = o.rest;
            returns = collect_waiting (suc fuel) polls pending ∙ o.returns;
            cut = o.cut;
            rows = o.rows;
          }
      collect-IsOutput (failed ∷ polls) (suc (suc fuel)) seen done pending (f, fine) enough tracks =
          absurd f
      collect-IsOutput (arrived b ∷ polls) (suc (suc fuel)) seen done pending (f, fine) enough
            tracks =
          let step =
            merge_batch-IsStep types c n op keep m seen done b pending concatenates le f tracks in
          elim (Option-cases step.out) [
            | inl e ↦
                let o =
                  collect-IsOutput polls (suc (suc fuel)) (seen ++ t.rows b) (done ++ step.more)
                    step.pending fine (omega arith) step.tracks in
                behind seen done b polls o.outs step.more o.rest _
                  (collect_silent (suc fuel) b polls pending step.pending
                      (step.returns ∙ ap (λ x. (ok x, step.pending)) e)
                    ∙ o.returns)
                  o.cut
                  (o.rows
                    ∙ ap (λ l. l ++ visible types c keep (merged_rows types c n op keep m o.rest))
                        (ap (rows_of types c n op keep m) (sym e) ∙ step.rows))
            | inr (v, e) ↦
                let o =
                  collect-IsOutput polls (suc fuel) (seen ++ t.rows b) (done ++ step.more)
                    step.pending fine (omega arith) step.tracks in
                behind seen done b polls (v ∷ o.outs) step.more o.rest _
                  (collect_output (suc fuel) b v polls pending step.pending
                      (step.returns ∙ ap (λ x. (ok x, step.pending)) e)
                    ∙ ap (gathered (item (ok v))) o.returns)
                  o.cut
                  (ap₂ (λ (x y : List t.Row). x ++ y)
                    (ap (rows_of types c n op keep m) (sym e) ∙ step.rows) o.rows)
          ]

      -- For batches of one schema, which can be put together, whose key columns are each of one of
      -- the six integer types or binary, and an operator that keeps its promise: a stream that is
      -- polled to its end gives the rows of the operator for each run of one primary key in the rows
      -- of all batches, in their order, less the builtin columns if these are not kept. Rows have one
      -- primary key if they hold the same value in each key column, read in the type of the column.
      -- Where the batches end does not matter, nor how often the input is not ready.
      pub collect-merged_rows :
          (keys : List KeyType)
          → HasKeys types 0 n keys
          → (polls : List (Poll t.Batch)) → All IsFine polls
          → (outs : List t.Batch) × (collect n op keep (length polls + 2) polls none ≡ ok outs)
            × (concat_map t.rows outs
                ≡ visible types c keep (
                    merged_rows types c n op keep m
                      (runs (same_primary_key keys) (input_rows polls))))
      collect-merged_rows keys typed polls fine =
          let o =
            collect-IsOutput polls (length polls + 2) [] [] none fine (omega arith) (refl, refl) in
          let cut =
            runs-same_primary_key types n keys typed (input_rows polls)
              (input_rows-IsTyped polls fine) in
          (
            o.outs,
            o.returns,
            o.rows
                ∙ ap (λ l. visible types c keep (merged_rows types c n op keep m l))
                    (sym o.cut ∙ cut),
          )
