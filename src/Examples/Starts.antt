-- ===== src/Examples/Starts.antt =====
-- The theorem on the start of a manifest, on a store in memory whose calls succeed.
use horaedb.Prelude.{
  ℕ, ◌+◌, ◌-◌, ◌≡◌, refl, ap, Bool, true, false, not, Option, none, some, List, [], ◌∷◌, map,
  retain, length, ◌==◌, if◌then◌else◌, arith,
}
use horaedb.Prelude.Result.{ok}
use horaedb.Config.{default_manifest_config}
use horaedb.Manifest.{Manifest}
use horaedb.Manifest.Bytes.LittleEndian.{little_endian}
use horaedb.Manifest.Encoding.{
  default_snapshot, pb_update_from, update_try_from, collect_ssts, into_ssts, contains,
}
use horaedb.Manifest.Env.{Env, StorePath, snapshot_path, delta_path, data_path}
use horaedb.Manifest.Disk.{Disk, snapshot_at, update_at}
use horaedb.Manifest.Merge.Resurrect.{lists}
use horaedb.Manifest.Merger.{try_new}
use horaedb.Manifest.Merger.Restart.{Restores, Fits}
use horaedb.Manifest.Merger.Returns.{IsHealthy}
use horaedb.Manifest.Merger.Opening.{lists-try_new}
use horaedb.Sst.{sst_try_from, pb_sst_from}
use horaedb.Examples.Snapshots.{empty-IsValid, two-InRange}
use horaedb.Examples.Disks.{adds, held, outcome, holds-retain, outcome_found, outcome_missing}

-- The same objects in a store whose calls all succeed: the snapshot's bytes, and the ids.
abbrev Sound : Type 0
Sound = Option (List ℕ) × List ℕ

abbrev put_sound : StorePath → List ℕ → Sound → Bool × Sound
put_sound snapshot_path bytes s = (true, (some bytes, s.1))
put_sound (delta_path n) bytes s = (true, (s.0, n ∷ s.1))
put_sound (data_path n) bytes s = (true, s)

abbrev delete_sound : StorePath → Sound → Bool × Sound
delete_sound snapshot_path s = (true, (none, s.1))
delete_sound (delta_path n) s = (true, (s.0, retain (λ k. not (n == k)) s.1))
delete_sound (data_path n) s = (true, s)

abbrev sound : Env Sound ℕ
sound = record {
  encode = λ u. length u.to_adds ∷ [];
  decode = λ bytes. some (pb_update_from adds);
  try_send = λ task n. (true, n + 1);
  recv = λ n. n - 1;
  byte_order = little_endian;
  debug_assertions = false;
  put = put_sound;
  get = λ path s. (outcome (held path s.0 s.1), s);
  delete = delete_sound;
  list = λ s. (some (map delta_path s.1), s);
}

abbrev sound_disk : Disk sound
sound_disk = record {
  read = λ path s. held path s.0 s.1;
  delta_ids = λ s. s.1;
  list-read = λ p s. refl;
  list-ids = λ s. refl;
  list-paths = λ s ps e. cc;
  get-read = λ p q s. refl;
  get-ids = λ q s. refl;
  get-found = λ q s bytes e. outcome_found (held q s.0 s.1) bytes e;
  get-missing = λ q s e. outcome_missing (held q s.0 s.1) e;
  put-self = λ bytes s e. refl;
  put-failed = λ p bytes s e. cc;
  put-others = λ n bytes s. refl;
  put-ids = λ bytes s. refl;
  delete-snapshot = λ n s. refl;
  delete-others = λ n k s e. ap (λ b. if b then some (k ∷ []) else none) (holds-retain n k s.1 e);
  delete-ids = λ n s e. refl;
  delete-failed = λ n s e. cc;
}

sound_disk-IsHealthy : IsHealthy sound_disk
sound_disk-IsHealthy = record {
  lists = λ s. refl;
  gets = λ p s bytes e. ap outcome e;
  misses = λ p s e. ap outcome e;
  puts = λ bytes s. refl;
}

abbrev sound_manifest : Manifest Sound ℕ
sound_manifest = record {
  store = (none, 4 ∷ []);
  queue = 0;
  merge_options = default_manifest_config;
  deltas_num = 0;
  ssts = [];
  next_id = 7;
}

sound_before : Restores sound_disk 1 sound_manifest.store
unfolding snapshot_at update_at update_try_from pb_update_from collect_ssts sst_try_from pb_sst_from
    contains into_ssts
sound_before = record {
  snapshot = default_snapshot;
  updates = adds ∷ [];
  readable = record { snapshot_read = refl; updates_read = refl };
  listed = refl;
}

sound_fits : Fits sound_before.snapshot sound_before.updates
unfolding sound_before
sound_fits = record { valid = empty-IsValid; in_range = two-InRange; room = omega arith }

lists-try_new_example :
    ((try_new ⦃env = sound⦄ sound_manifest).0 ≡ ok tt)
    × (lists (try_new ⦃env = sound⦄ sound_manifest).1.ssts 1 ≡ true)
lists-try_new_example =
    lists-try_new ⦃env = sound⦄ sound_disk sound_disk-IsHealthy refl sound_manifest 1 sound_before
      sound_fits
