-- ===== src/Examples/Updates.antt =====
-- The theorems on updates, on a store in memory, and those on tasks that run on it.
use horaedb.Prelude.{
  ℕ, ◌+◌, ◌-◌, ◌%◌, ◌^◌, ◌≡◌, refl, true, false, none, some, List, [], ◌∷◌, length, ◌==◌,
  if◌then◌else◌, arith,
}
use horaedb.Prelude.Result.{ok, err, too_many_deltas}
use horaedb.Sst.{is_compaction}
use horaedb.Config.{default_manifest_config}
use horaedb.Manifest.{Manifest, update}
use horaedb.Manifest.Bytes.LittleEndian.{little_endian}
use horaedb.Manifest.Encoding.{ManifestUpdate}
use horaedb.Manifest.Env.{Env, StorePath, delta_path, get_failed}
use horaedb.Manifest.Merge.{apply_update}
use horaedb.Manifest.Updates.{update_too_many, update_admitted}
use horaedb.Compaction.{Task, input_size, total_size}
use horaedb.Compaction.Executor.{Engine, Executor, unmark_all, run_task, all_marked}
use horaedb.Compaction.Executor.Accounting.{IsReady, refused_releases, accepted_releases}
use horaedb.Examples.{files}

-- A store of the paths that were written, each write of which succeeds; a channel of three messages.
abbrev pub memory : Env (List StorePath) ℕ
memory = record {
  put = λ path bytes store. (true, path ∷ store);
  get = λ path store. (get_failed true, store);
  delete = λ path store. (false, store);
  list = λ store. (some store, store);
  encode = λ u. length u.to_adds ∷ [];
  decode = λ bytes. none;
  try_send = λ task n. if n == 3 then (false, n) else (true, n + 1);
  recv = λ n. n - 1;
  byte_order = little_endian;
  debug_assertions = true;
}

abbrev manifest : ℕ → Manifest (List StorePath) ℕ
manifest n = record {
  store = [];
  queue = 0;
  merge_options = default_manifest_config;
  deltas_num = n;
  ssts = [];
  next_id = 7;
}

abbrev adds : ManifestUpdate
adds = record { to_adds = files; to_deletes = [] }

update_too_many_example :
    (q : ℕ) × (update ⦃env = memory⦄ adds (manifest 91)
      ≡ (err too_many_deltas, record (manifest 91) { queue = q }))
update_too_many_example = update_too_many ⦃env = memory⦄ adds (manifest 91) (omega arith)

update_admitted_example :
    (q : ℕ) × (update ⦃env = memory⦄ adds (manifest 60) ≡ (
      ok tt,
      record {
        store = delta_path 7 ∷ [];
        queue = q;
        merge_options = default_manifest_config;
        deltas_num = 61;
        ssts = apply_update [] adds;
        next_id = 8;
      },
    ))
update_admitted_example =
    update_admitted ⦃env = memory⦄ adds (manifest 60) true (delta_path 7 ∷ []) (omega arith)
      (omega arith) refl

-- The reader of two files returns all rows; a trigger is counted.
abbrev pub two_rows : Engine (List StorePath) ℕ
two_rows = record {
  open_stream = λ inputs store. (true, store);
  write_rows = λ id store. (some 2, store);
  head = λ id store. (some 100, store);
  try_trigger = λ n. n + 1;
}

abbrev task : Task
task = record { inputs = files; expireds = [] }

abbrev executor : ℕ → Executor (List StorePath) ℕ ℕ
executor mem_limit = record {
  manifest = manifest 3;
  marks = λ id. true;
  next_file_id = 4;
  inused_memory = 500;
  mem_limit = mem_limit;
  trigger_tx = 0;
}

ready : (mem_limit : ℕ) → IsReady (executor mem_limit).marks task
unfolding all_marked is_compaction
ready mem_limit = record { nonempty = refl; inputs = refl; expireds = refl }

task_size : input_size task ≡ 150
unfolding input_size total_size
task_size = refl

accepted_releases_example :
    ((run_task ⦃env = memory⦄ ⦃engine = two_rows⦄ task (executor 1000)).0 ≡ ok tt)
    × ((run_task ⦃env = memory⦄ ⦃engine = two_rows⦄ task (executor 1000)).1.inused_memory ≡ 500)
accepted_releases_example =
    accepted_releases ⦃env = memory⦄ ⦃engine = two_rows⦄ task (executor 1000) (ready 1000)
      (omega (arith, task_size)) (omega (arith, task_size))

refused_releases_example : run_task ⦃env = memory⦄ ⦃engine = two_rows⦄ task (executor 600) ≡ (
  ok tt,
  record (executor 600) {
    inused_memory = (500 + 2 ^ 64 - input_size task) % 2 ^ 64;
    marks = unmark_all [] (unmark_all files (λ id. true));
  },
)
refused_releases_example =
    refused_releases ⦃env = memory⦄ ⦃engine = two_rows⦄ task (executor 600) (ready 600)
      (omega (arith, task_size)) (omega (arith, task_size))
