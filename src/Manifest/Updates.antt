-- ===== src/Manifest/Updates.antt =====
-- `Manifest::update`: what each outcome leaves behind, and the limits on the number of delta files.
use horaedb.Prelude.{
  ℕ, ◌+◌, ◌%◌, ◌^◌, ◌≤◌, ◌<◌, ◌≡◌, ◌≢◌, Bool, true, false, Bool-cases, ap, ◌⊎◌, inl, inr, arith,
  ltb, if◌then◌else◌, refl, List,
}
use horaedb.Sst.{SstFile}
use horaedb.Prelude.Result.{Result, ok, err, panic, too_many_deltas, store_failed}
use horaedb.Manifest.{Manifest, commit, update, maybe_schedule_merge}
use horaedb.Manifest.Env.{Env, hard, soft, delta_path}
use horaedb.Manifest.Encoding.{ManifestUpdate, pb_update_from}
use horaedb.Manifest.Merge.{apply_update}

-- The cached list after an update: with it if it returns, as before if it fails.
abbrev pub HasApplied : ManifestUpdate → List SstFile → Result (Unit {0}) → List SstFile → Type 0
HasApplied u ssts (ok t) after = after ≡ apply_update ssts u
HasApplied u ssts (err e) after = after ≡ ssts
HasApplied u ssts panic after = ⊥

module _ {S Q : Type 0} ⦃env : Env S Q⦄ where
  -- The call that persists an update.
  abbrev pub put_delta : ManifestUpdate → Manifest S Q → Bool × S
  put_delta u m = env.put (delta_path m.next_id) (env.encode (pb_update_from u)) m.store

  -- What follows the check of the limits, by the outcome of the write.
  commit-put :
      (u : ManifestUpdate) (m : Manifest S Q) (written : Bool) (store : S)
      → m.deltas_num < 2 ^ 64
      → put_delta u m ≡ (written, store)
      → commit u m ≡ (
          if written
          then (
            ok tt,
            record m {
              store = store;
              deltas_num = (m.deltas_num + 1) % 2 ^ 64;
              ssts = apply_update m.ssts u;
              next_id = (m.next_id + 1) % 2 ^ 64;
            },
          )
          else (err store_failed, record m { store = store; next_id = (m.next_id + 1) % 2 ^ 64 }))
  unfolding commit
  commit-put u m true store bound e = rw e
  commit-put u m false store bound e = rw e (
      ap
        (λ (n : ℕ). (
          err store_failed,
          record m { store = store; deltas_num = n; next_id = (m.next_id + 1) % 2 ^ 64 },
        ))
        (omega arith))

  maybe_schedule_merge-cases :
      (m : Manifest S Q)
      → (q : Q) × ((m.merge_options.hard_merge_threshold < m.deltas_num)
            × (maybe_schedule_merge m ≡ (err too_many_deltas, record m { queue = q }))
          ⊎ (m.deltas_num ≤ m.merge_options.hard_merge_threshold)
            × (maybe_schedule_merge m ≡ (ok tt, record m { queue = q })))
  unfolding maybe_schedule_merge
  maybe_schedule_merge-cases m =
      elim (Bool-cases (ltb m.merge_options.hard_merge_threshold m.deltas_num)) [
        | inl e ↦ ((env.try_send hard m.queue).1, inl (ground arith, rw e))
        | inr e ↦ elim (Bool-cases (ltb m.merge_options.soft_merge_threshold m.deltas_num)) [
          | inl f ↦ ((env.try_send soft m.queue).1, inr (ground arith, rw (e, f)))
          | inr f ↦ (m.queue, inr (ground arith, rw (e, f)))
        ]
      ]

  -- With too many delta files an update is refused, and only the channel is written to.
  pub update_too_many :
      (u : ManifestUpdate) (m : Manifest S Q)
      → m.merge_options.hard_merge_threshold < m.deltas_num
      → (q : Q) × (update u m ≡ (err too_many_deltas, record m { queue = q }))
  unfolding update
  update_too_many u m h =
      let (q, cases) = maybe_schedule_merge-cases m in
      elim cases [ inl (lt, e) ↦ (q, rw e) | inr (le, e) ↦ absurd (omega arith) ]

  -- Below the limit an update succeeds exactly when its delta file is written. Then the cached list
  -- has it and the counter counts it; otherwise both are as before.
  pub update_admitted :
      (u : ManifestUpdate) (m : Manifest S Q) (written : Bool) (store : S)
      → m.deltas_num < 2 ^ 64
      → m.deltas_num ≤ m.merge_options.hard_merge_threshold
      → put_delta u m ≡ (written, store)
      → (q : Q) × (update u m ≡ (
          if written
          then (
            ok tt,
            record m {
              store = store;
              queue = q;
              deltas_num = (m.deltas_num + 1) % 2 ^ 64;
              ssts = apply_update m.ssts u;
              next_id = (m.next_id + 1) % 2 ^ 64;
            },
          )
          else (
            err store_failed,
            record m { store = store; queue = q; next_id = (m.next_id + 1) % 2 ^ 64 },
          )))
  unfolding update
  update_admitted u m written store bound le e =
      let (q, cases) = maybe_schedule_merge-cases m in
      elim cases [
        | inl (lt, e') ↦ absurd (omega arith)
        | inr (le', e') ↦ (q, rw e' (commit-put u (record m { queue = q }) written store bound e))
      ]

  commit-ne-panic : (u : ManifestUpdate) (m : Manifest S Q) → (commit u m).0 ≢ panic
  unfolding commit
  commit-ne-panic u m = elim (Bool-cases (put_delta u m).0) [
    | inl e ↦ rw e (λ q. cc)
    | inr e ↦ rw e (λ q. cc)
  ]

  pub update-ne-panic : (u : ManifestUpdate) (m : Manifest S Q) → (update u m).0 ≢ panic
  unfolding update
  update-ne-panic u m =
      let (q, cases) = maybe_schedule_merge-cases m in
      elim cases [
        | inl (lt, e) ↦ rw e (λ p. cc)
        | inr (le, e) ↦ rw e (commit-ne-panic u (record m { queue = q }))
      ]

  commit-HasApplied :
      (u : ManifestUpdate) (m : Manifest S Q)
      → HasApplied u m.ssts (commit u m).0 (commit u m).1.ssts
  unfolding commit
  commit-HasApplied u m = elim (Bool-cases (put_delta u m).0) [
    | inl e ↦ rw e refl
    | inr e ↦ rw e refl
  ]

  pub update-HasApplied :
      (u : ManifestUpdate) (m : Manifest S Q)
      → HasApplied u m.ssts (update u m).0 (update u m).1.ssts
  unfolding update
  update-HasApplied u m =
      let (q, cases) = maybe_schedule_merge-cases m in
      elim cases [
        | inl (lt, e) ↦ rw e refl
        | inr (le, e) ↦ rw e (commit-HasApplied u (record m { queue = q }))
      ]
