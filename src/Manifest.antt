-- ===== src/Manifest.antt =====
-- src/storage/src/manifest/mod.rs: the list of SST files, and how it is kept in the object store.
-- The state of `Manifest` and `ManifestMerger` is one record, with the store and the channel in it.
-- A method runs without interleaving; `inc_delta_num` and the like are single steps of it.
pub mod Bytes
pub mod Encoding
pub mod Disk
pub mod Env
pub mod Merge
pub mod Merger
pub mod Updates
use horaedb.Prelude.{
  ℕ, ◌+◌, ◌-◌, ◌%◌, ◌^◌, Bool, true, false, not, Option, none, some, List, [], ◌∷◌, ◌++◌, length,
  retain, ltb, ◌==◌, if◌then◌else◌,
}
use horaedb.Prelude.Result.{
  Error, Result, ok, err, panic, too_many_deltas, store_failed, decode_failed,
}
use horaedb.Prelude.Exec.{Exec, pure, lift, gets, attempt, modify, ◌>>=◌, ◌>>◌}
use horaedb.Config.{ManifestConfig}
use horaedb.Types.{TimeRange, overlaps}
use horaedb.Sst.{FileId, FileMeta, SstFile}
use Encoding.{ManifestUpdate, pb_update_from}
use Merge.{apply_update, find_in}
use Env.{
  StorePath, snapshot_path, delta_path, GetOutcome, found, get_failed, body_failed, MergeType, hard,
  soft,
}

pub record Manifest (S Q : Type 0) : Type 0 where
  pub store : S
  pub queue : Q
  pub merge_options : ManifestConfig
  pub deltas_num : ℕ
  pub ssts : List SstFile
  pub next_id : ℕ

module _ {S Q : Type 0} ⦃env : Env.Env S Q⦄ where
  -- A call of the store.
  abbrev pub on_store : {A : Type 0} → (S → A × S) → Exec (Manifest S Q) A
  on_store call m = let (a, store) = call m.store in (ok a, record m { store = store })

  abbrev pub or_fail : Bool → Exec (Manifest S Q) (Unit {0})
  or_fail true = pure tt
  or_fail false = lift (err store_failed)

  unfoldable pub inc_delta_num : Exec (Manifest S Q) (Unit {0})
  inc_delta_num = modify λ m. record m { deltas_num = (m.deltas_num + 1) % 2 ^ 64 }

  unfoldable pub dec_delta_num : Exec (Manifest S Q) (Unit {0})
  dec_delta_num = modify λ m. record m { deltas_num = (m.deltas_num + 2 ^ 64 - 1) % 2 ^ 64 }

  -- A full channel is no error.
  unfoldable pub schedule_merge : MergeType → Exec (Manifest S Q) (Unit {0})
  schedule_merge task = modify λ m. record m { queue = (env.try_send task m.queue).1 }

  unfoldable pub maybe_schedule_merge : Exec (Manifest S Q) (Unit {0})
  unfolding schedule_merge
  maybe_schedule_merge m =
      let current_num = m.deltas_num in
      if ltb m.merge_options.hard_merge_threshold current_num
      then (do schedule_merge hard; lift (err too_many_deltas)) m
      else if ltb m.merge_options.soft_merge_threshold current_num
      then schedule_merge soft m
      else pure tt m

  unfoldable pub allocate_id : Exec (Manifest S Q) ℕ
  allocate_id m = (ok m.next_id, record m { next_id = (m.next_id + 1) % 2 ^ 64 })

  unfoldable pub update_inner : ManifestUpdate → Exec (Manifest S Q) (Unit {0})
  unfolding allocate_id apply_update
  update_inner update = do
    id ← allocate_id
    let buf = env.encode (pb_update_from update)
    -- 1. Persist the delta manifest
    written ← on_store (env.put (delta_path id) buf)
    or_fail written
    -- 2. Update cached payload
    modify λ m. record m { ssts = apply_update m.ssts update }

  abbrev pub on_error :
      Exec (Manifest S Q) (Unit {0}) → Result (Unit {0}) → Exec (Manifest S Q) (Unit {0})
  on_error handler (ok u) = pure tt
  on_error handler (err e) = handler
  on_error handler panic = lift panic

  -- `update` behind the check of the limits.
  unfoldable pub commit : ManifestUpdate → Exec (Manifest S Q) (Unit {0})
  unfolding inc_delta_num dec_delta_num update_inner
  commit u = do inc_delta_num; res ← attempt (update_inner u); on_error dec_delta_num res; lift res

  unfoldable pub update : ManifestUpdate → Exec (Manifest S Q) (Unit {0})
  update u = do maybe_schedule_merge; commit u

  unfoldable pub add_file : FileId → FileMeta → Exec (Manifest S Q) (Unit {0})
  add_file id meta =
      update (record { to_adds = record { id = id; meta = meta } ∷ []; to_deletes = [] })

  unfoldable pub all_ssts : Exec (Manifest S Q) (List SstFile)
  all_ssts = gets λ m. m.ssts

  unfoldable pub find_ssts : TimeRange → Exec (Manifest S Q) (List SstFile)
  unfolding find_in
  find_ssts time_range = gets λ m. find_in m.ssts time_range
