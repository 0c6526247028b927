-- ===== src/Read/Stream.antt =====
-- src/storage/src/read.rs: the state of a `MergeStream`, and its polls.
-- The input is the list of what its polls give; polls after its end give the end again.
use horaedb.Prelude.{
  ℕ, zero, suc, Bool, Option, none, some, List, [], ◌∷◌, ◌++◌, ◌==◌, if◌then◌else◌,
}
use horaedb.Prelude.Result.{Result, ok, err, panic, store_failed}
use horaedb.Prelude.Exec.{Exec, pure, lift, modify, gets, ◌>>=◌, ◌>>◌}
use horaedb.Batches.{Batches}
use horaedb.Operator.{MergeOperator}
use horaedb.Read.{
  Poll, not_ready, arrived, failed, Polled, wait, item, first_of, pop_last, group_rows, merge_all,
  join_pending, emit, finish, finished, gathered,
}

module _ ⦃t : Batches⦄ where
  module _ (num_primary_keys : ℕ) (value_operator : MergeOperator t.Batch)
      (keep_builtin : Bool) where
    -- The state is `pending_batch`.
    unfoldable pub merge_groups : t.Batch → List t.Batch → Exec (Option t.Batch) (Option t.Batch)
    unfolding merge_all join_pending emit
    merge_groups first others = do
      pending ← gets (λ p. p)
      modify (λ p. none)
      (output_batches, first, others) ←
          lift (join_pending num_primary_keys value_operator keep_builtin pending first others)
      let (groups, last) = pop_last first others
      modify (λ p. some last)
      merged ← lift (merge_all num_primary_keys value_operator keep_builtin groups)
      lift (emit num_primary_keys value_operator keep_builtin (output_batches ++ merged))

    unfoldable pub merge_batch : t.Batch → Exec (Option t.Batch) (Option t.Batch)
    merge_batch batch =
        let step = (do
          groups ← lift (group_rows num_primary_keys (suc (t.num_rows batch)) batch 0)
          (first, others) ← lift (first_of groups)
          merge_groups first others) in
        if t.num_rows batch == 0 then pure none else step

    -- The input's polls that are left, and `pending_batch`.
    abbrev pub StreamState : Type 0
    StreamState = List (Poll t.Batch) × Option t.Batch

    abbrev pub after_merge :
        Result (Option t.Batch)
        → StreamState
        → Polled t.Batch × StreamState
        → Polled t.Batch × StreamState
    after_merge (ok none) state next = next
    after_merge (ok (some b)) state next = (item (ok b), state)
    after_merge (err e) state next = (item (err e), state)
    after_merge panic state next = (item panic, state)

    unfoldable pub poll_next : List (Poll t.Batch) → Option t.Batch → Polled t.Batch × StreamState
    unfolding merge_batch finish
    poll_next [] pending_batch =
        (finished num_primary_keys value_operator keep_builtin pending_batch, ([], none))
    poll_next (not_ready ∷ polls) pending_batch = (wait, (polls, pending_batch))
    poll_next (failed ∷ polls) pending_batch = (item (err store_failed), (polls, pending_batch))
    poll_next (arrived b ∷ polls) pending_batch =
        let (merged, pending) = merge_batch b pending_batch in
        after_merge merged (polls, pending) (poll_next polls pending)

    -- A consumer that polls until the end, or until an error. At `panic` the fuel may be out.
    unfoldable pub collect : ℕ → List (Poll t.Batch) → Option t.Batch → Result (List t.Batch)
    unfolding poll_next
    collect zero polls pending = panic
    collect (suc fuel) polls pending =
        let (polled, state) = poll_next polls pending in
        gathered polled (collect fuel state.0 state.1)
