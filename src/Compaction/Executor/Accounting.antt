-- ===== src/Compaction/Executor/Accounting.antt =====
-- The memory that tasks hold, over whole runs of a task.
use horaedb.Prelude.{
  ℕ, ◌+◌, ◌-◌, ◌%◌, ◌^◌, ◌≤◌, ◌<◌, ◌≡◌, ◌≢◌, refl, true, false, Option, none, some, List, [], ◌∷◌,
  ◌++◌, leb, arith,
}
use horaedb.Prelude.Result.{Result, ok, err, panic, ensure, memory_too_high, store_failed}
use horaedb.Prelude.Exec.{lift}
use horaedb.Prelude.Calm.{Calm, Calm-lift, Calm-pure, Calm-modify, Calm-ensure, Calm-bind}
use horaedb.Sst.{FileId, SstFile, Marks}
use horaedb.Compaction.{Task, input_size}
use horaedb.Compaction.Executor.{
  Engine, Executor, all_marked, unmark_all, is_nonempty, covering_range, file_ids, some_or_fail,
  on_store, on_manifest, pre_check, release_memory, on_success, on_failure, trigger_more_task,
  new_file_id, delete_ssts, compact_checked, do_compaction, settle, run_task,
}
use horaedb.Manifest.{update}
use horaedb.Manifest.Updates.{update-ne-panic}
use horaedb.Manifest.Env.{Env, data_path}
use horaedb.Manifest.Encoding.{ManifestUpdate}

-- The task's files are as the picker leaves them.
pub record IsReady (marks : Marks) (task : Task) : Type 0 where
  pub nonempty : is_nonempty task.inputs ≡ true
  pub inputs : all_marked marks task.inputs ≡ true
  pub expireds : all_marked marks task.expireds ≡ true

covering_range-ne-panic :
    (files : List SstFile) → is_nonempty files ≡ true → covering_range files ≢ panic
unfolding covering_range
covering_range-ne-panic [] h e = cc
covering_range-ne-panic (f ∷ fs) h e = cc

module _ {S Q T : Type 0} ⦃env : Env S Q⦄ ⦃engine : Engine S T⦄ where
  pre_check-refused :
      (task : Task) (x : Executor S Q T)
      → IsReady x.marks task
      → leb ((x.inused_memory + input_size task) % 2 ^ 64) x.mem_limit ≡ false
      → pre_check task x ≡ (err memory_too_high, x)
  unfolding pre_check
  pre_check-refused task x h e = rw (h.nonempty, h.inputs, h.expireds, e)

  pre_check-accepted :
      (task : Task) (x : Executor S Q T)
      → IsReady x.marks task
      → leb ((x.inused_memory + input_size task) % 2 ^ 64) x.mem_limit ≡ true
      → pre_check task x
        ≡ (ok tt, record x { inused_memory = (x.inused_memory + input_size task) % 2 ^ 64 })
  unfolding pre_check
  pre_check-accepted task x h e = rw (h.nonempty, h.inputs, h.expireds, e)

  -- A task that the memory check refuses has reserved nothing, and yet its size is given back: the
  -- counter falls below what the running tasks hold, or wraps around.
  pub refused_releases :
      (task : Task) (x : Executor S Q T)
      → IsReady x.marks task
      → x.mem_limit < x.inused_memory + input_size task
      → x.inused_memory + input_size task < 2 ^ 64
      → run_task task x ≡ (
        ok tt,
        record x {
          inused_memory = (x.inused_memory + 2 ^ 64 - input_size task) % 2 ^ 64;
          marks = unmark_all task.expireds (unmark_all task.inputs x.marks);
        },
      )
  unfolding run_task do_compaction on_failure
  refused_releases task x h over fits = rw (pre_check-refused task x h (ground arith))

  -- The steps behind the check leave the memory and the marks alone.
  Kept : ℕ → Marks → Executor S Q T → Type 0
  Kept n marks x = (x.inused_memory ≡ n) × (x.marks ≡ marks)

  Calm-on_store :
      {A : Type 0} (n : ℕ) (marks : Marks) (call : S → A × S) → Calm (Kept n marks) (on_store call)
  unfolding Kept
  Calm-on_store n marks call = record { keeps = λ x h. h; returns = λ x h e. cc }

  Calm-some_or_fail :
      {A : Type 0} (n : ℕ) (marks : Marks) (o : Option A)
      → Calm (Kept n marks) (lift (some_or_fail o))
  Calm-some_or_fail n marks none = Calm-lift _ (λ e. cc)
  Calm-some_or_fail n marks (some a) = Calm-lift _ (λ e. cc)

  Calm-delete_ssts :
      (n : ℕ) (marks : Marks) (ids : List FileId) → Calm (Kept n marks) (delete_ssts ids)
  unfolding delete_ssts
  Calm-delete_ssts n marks [] = Calm-pure tt
  Calm-delete_ssts n marks (id ∷ ids) =
      Calm-bind (on_store (env.delete (data_path id))) (λ u. delete_ssts ids)
        (Calm-on_store n marks (env.delete (data_path id))) (λ u. Calm-delete_ssts n marks ids)

  Calm-on_manifest :
      (n : ℕ) (marks : Marks) (u : ManifestUpdate) → Calm (Kept n marks) (on_manifest (update u))
  unfolding Kept
  Calm-on_manifest n marks u = record {
    keeps = λ x h. h;
    returns = λ x h. update-ne-panic u x.manifest;
  }

  Calm-trigger : (n : ℕ) (marks : Marks) → Calm (Kept n marks) trigger_more_task
  unfolding trigger_more_task Kept
  Calm-trigger n marks = Calm-modify _ (λ x h. h)

  Calm-new_file_id : (n : ℕ) (marks : Marks) → Calm (Kept n marks) new_file_id
  unfolding new_file_id Kept
  Calm-new_file_id n marks = record { keeps = λ x h. h; returns = λ x h e. cc }

  Calm-compact_checked :
      (n : ℕ) (marks : Marks) (task : Task)
      → is_nonempty task.inputs ≡ true
      → Calm (Kept n marks) (compact_checked task)
  unfolding compact_checked
  Calm-compact_checked n marks task h = Calm-bind trigger_more_task _ (Calm-trigger n marks) λ u.
      Calm-bind (lift (covering_range task.inputs)) _ (Calm-lift _ (covering_range-ne-panic _ h))
        λ range.
          Calm-bind (on_store (engine.open_stream task.inputs)) _ (Calm-on_store n marks _)
            λ opened. Calm-bind (lift (ensure opened store_failed)) _ (Calm-ensure opened _) λ v.
              Calm-bind new_file_id _ (Calm-new_file_id n marks) λ id.
                Calm-bind (on_store (engine.write_rows id)) _ (Calm-on_store n marks _) λ rows.
                  Calm-bind (lift (some_or_fail rows)) _ (Calm-some_or_fail n marks rows)
                    λ num_rows.
                      Calm-bind (on_store (engine.head id)) _ (Calm-on_store n marks _) λ size.
                        Calm-bind (lift (some_or_fail size)) _ (Calm-some_or_fail n marks size)
                          λ object_size.
                            Calm-bind (on_manifest _) _
                              (Calm-on_manifest n marks (record {
                                to_adds =
                                    record {
                                      id = id;
                                      meta = record {
                                        max_sequence = id;
                                        num_rows = num_rows % 2 ^ 32;
                                        size = object_size % 2 ^ 32;
                                        time_range = range;
                                      };
                                    }
                                    ∷ [];
                                to_deletes = file_ids task.expireds ++ file_ids task.inputs;
                              }))
                              λ w.
                                Calm-delete_ssts n marks
                                  (file_ids task.expireds ++ file_ids task.inputs)

  settle-releases :
      (task : Task) (n : ℕ) (r : Result (Unit {0})) (y : Executor S Q T)
      → r ≢ panic
      → y.inused_memory ≡ (n + input_size task) % 2 ^ 64
      → n + input_size task < 2 ^ 64
      → ((settle task r y).0 ≡ ok tt) × ((settle task r y).1.inused_memory ≡ n)
  unfolding on_success on_failure release_memory
  settle-releases task n (ok u) y h e fits = (refl, rw e (omega arith))
  settle-releases task n (err z) y h e fits = (refl, rw e (omega arith))
  settle-releases task n panic y h e fits = absurd (h refl)

  -- A task that the memory check lets pass does not panic, and gives back at its end exactly what it
  -- reserved, whatever the store and the engine do.
  pub accepted_releases :
      (task : Task) (x : Executor S Q T)
      → IsReady x.marks task
      → x.inused_memory + input_size task ≤ x.mem_limit
      → x.inused_memory + input_size task < 2 ^ 64
      → ((run_task task x).0 ≡ ok tt) × ((run_task task x).1.inused_memory ≡ x.inused_memory)
  unfolding run_task do_compaction Kept
  accepted_releases task x h room fits =
      let calm =
        Calm-compact_checked ((x.inused_memory + input_size task) % 2 ^ 64) x.marks task
          h.nonempty in
      let start = record x { inused_memory = (x.inused_memory + input_size task) % 2 ^ 64 } in
      rw (pre_check-accepted task x h (ground arith)) (
        settle-releases task x.inused_memory _ _ (calm.returns start (refl, refl))
          (calm.keeps start (refl, refl)).0 fits)
