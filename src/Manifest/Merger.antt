-- ===== src/Manifest/Merger.antt =====
-- src/storage/src/manifest/mod.rs: `ManifestMerger`, which folds the delta files into the snapshot,
-- and the start of a `Manifest`.
pub mod Restart
pub mod Deletions
pub mod Reads
pub mod Returns
pub mod Durable
pub mod Opening
use horaedb.Prelude.{
  ℕ, Bool, true, false, Option, none, some, List, [], ◌∷◌, length, ltb, if◌then◌else◌,
}
use horaedb.Prelude.Result.{Result, ok, err, store_failed, decode_failed}
use horaedb.Prelude.Exec.{Exec, pure, lift, attempt, modify, ◌>>=◌, ◌>>◌}
use horaedb.Manifest.{Manifest, on_store, or_fail, dec_delta_num}
use horaedb.Manifest.Encoding.{
  ManifestUpdate, PbManifestUpdate, update_try_from, Snapshot, default_snapshot, snapshot_try_from,
  into_bytes, into_ssts,
}
use horaedb.Manifest.Merge.{merge_snapshot}
use horaedb.Manifest.Env.{
  Env, StorePath, snapshot_path, GetOutcome, found, get_failed, body_failed, Wake, timer, message,
}

abbrev pub update_of : (List ℕ → Option PbManifestUpdate) → GetOutcome → Result ManifestUpdate
update_of decode (found bytes) = elim (decode bytes) [
  | none ↦ err decode_failed
  | some pb_update ↦ update_try_from pb_update
]
update_of decode _ = err store_failed

module _ {S Q : Type 0} ⦃env : Env S Q⦄ where
  abbrev pub listed : Option (List StorePath) → Exec (Manifest S Q) (List StorePath)
  listed none = lift (err store_failed)
  listed (some paths) = pure paths

  unfoldable pub list_delta_paths : Exec (Manifest S Q) (List StorePath)
  list_delta_paths = do locations ← on_store env.list; listed locations

  unfoldable pub read_delta_file : StorePath → Exec (Manifest S Q) ManifestUpdate
  read_delta_file sst_path = do
    outcome ← on_store (env.get sst_path)
    lift (update_of env.decode outcome)

  -- The reads run side by side; their outcomes are collected.
  unfoldable pub read_delta_files :
      List StorePath → Exec (Manifest S Q) (List (Result ManifestUpdate))
  unfolding read_delta_file
  read_delta_files [] = pure []
  read_delta_files (path ∷ paths) = do
    res ← attempt (read_delta_file path)
    results ← read_delta_files paths
    pure (res ∷ results)

  -- An object that is missing, by the text of the error, is an empty snapshot.
  abbrev pub snapshot_of : GetOutcome → Exec (Manifest S Q) Snapshot
  snapshot_of (found bytes) = lift (snapshot_try_from ⦃o = env.byte_order⦄ bytes)
  snapshot_of (get_failed true) = pure default_snapshot
  snapshot_of (get_failed false) = lift (err store_failed)
  snapshot_of body_failed = lift (err store_failed)

  unfoldable pub read_snapshot : Exec (Manifest S Q) Snapshot
  read_snapshot = do outcome ← on_store (env.get snapshot_path); snapshot_of outcome

  unfoldable pub delete_delta_file : StorePath → Exec (Manifest S Q) (Unit {0})
  delete_delta_file path = do deleted ← on_store (env.delete path); or_fail deleted

  -- The counter goes down for each file that is deleted; a failure is only logged.
  abbrev pub count_deleted : Result (Unit {0}) → Exec (Manifest S Q) (Unit {0})
  count_deleted (ok u) = dec_delta_num
  count_deleted _ = pure tt

  unfoldable pub delete_delta_files : List StorePath → Exec (Manifest S Q) (Unit {0})
  unfolding delete_delta_file dec_delta_num
  delete_delta_files [] = pure tt
  delete_delta_files (path ∷ paths) = do
    v ← attempt (delete_delta_file path)
    count_deleted v
    delete_delta_files paths

  abbrev pub set_deltas_num : Bool → ℕ → Exec (Manifest S Q) (Unit {0})
  set_deltas_num true n = modify λ m. record m { deltas_num = n }
  set_deltas_num false n = pure tt

  unfoldable pub merge_paths : Bool → List StorePath → Exec (Manifest S Q) (Unit {0})
  unfolding read_delta_files read_snapshot delete_delta_files
  merge_paths first_run paths = do
    set_deltas_num first_run (length paths)
    results ← read_delta_files paths
    snapshot ← read_snapshot
    merged ← lift (merge_snapshot env.debug_assertions snapshot results)
    -- 1. Persist the snapshot
    written ← on_store (env.put snapshot_path (into_bytes ⦃o = env.byte_order⦄ merged))
    or_fail written
    -- 2. Delete the merged manifest files
    delete_delta_files paths

  abbrev pub unless_empty :
      (List StorePath → Exec (Manifest S Q) (Unit {0}))
      → List StorePath
      → Exec (Manifest S Q) (Unit {0})
  unless_empty merge [] = pure tt
  unless_empty merge (path ∷ paths) = merge (path ∷ paths)

  unfoldable pub do_merge : Bool → Exec (Manifest S Q) (Unit {0})
  unfolding list_delta_paths merge_paths
  do_merge first_run = do paths ← list_delta_paths; unless_empty (merge_paths first_run) paths

  abbrev pub woken : Wake → Manifest S Q → Manifest S Q
  woken timer m = m
  woken message m = record m { queue = env.recv m.queue }

  unfoldable pub on_wake : Wake → Manifest S Q → Manifest S Q
  unfolding do_merge
  on_wake wake m =
      let m' = woken wake m in
      if ltb m'.merge_options.min_merge_threshold m'.deltas_num then (do_merge false m').1 else m'

  -- `run` over the events that wake it.
  unfoldable pub run : List Wake → Manifest S Q → Manifest S Q
  unfolding on_wake
  run [] m = m
  run (wake ∷ wakes) m = run wakes (on_wake wake m)

  -- `ManifestMerger::try_new` merges all delta files; `Manifest::try_new` then loads the snapshot.
  unfoldable pub try_new : Exec (Manifest S Q) (Unit {0})
  unfolding do_merge read_snapshot
  try_new = do
    modify λ m. record m { deltas_num = 0 }
    do_merge true
    snapshot ← read_snapshot
    modify λ m. record m { ssts = into_ssts snapshot }
