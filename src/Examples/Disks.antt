-- ===== src/Examples/Disks.antt =====
-- The theorems on restarts, on a store in memory whose calls succeed or fail by a list of fates, and
-- all fail once the list has ended.
use horaedb.Prelude.{
  ℕ, ◌+◌, ◌-◌, ◌≡◌, refl, ap, Bool, true, false, not, Option, none, some, List, [], ◌∷◌, map,
  retain, length, ◌==◌, if◌then◌else◌, arith,
}
use horaedb.Config.{default_manifest_config}
use horaedb.Manifest.{Manifest}
use horaedb.Manifest.Bytes.LittleEndian.{little_endian}
use horaedb.Manifest.Encoding.{
  ManifestUpdate, default_snapshot, pb_update_from, update_try_from, collect_ssts, into_ssts,
  contains,
}
use horaedb.Manifest.Env.{
  Env, StorePath, snapshot_path, delta_path, data_path, GetOutcome, found, get_failed,
}
use horaedb.Manifest.Disk.{Disk, snapshot_at, update_at}
use horaedb.Manifest.Merger.{do_merge}
use horaedb.Manifest.Merger.Restart.{Restores, Fits}
use horaedb.Manifest.Merger.Durable.{do_merge-Restores}
use horaedb.Sst.{sst_try_from, pb_sst_from}
use horaedb.Examples.Snapshots.{two, empty-IsValid, two-InRange}

-- The fates of the calls to come, the snapshot's bytes, and the ids of the delta files, each of which
-- adds the same two files.
data Objects : Type 0 where
  objects : List Bool → Option (List ℕ) → List ℕ → Objects

abbrev pub adds : ManifestUpdate
adds = record { to_adds = two; to_deletes = [] }

abbrev holds : List ℕ → ℕ → Bool
holds [] n = false
holds (k ∷ ks) n = let rest = holds ks n in if k == n then true else rest

abbrev pub held : StorePath → Option (List ℕ) → List ℕ → Option (List ℕ)
held snapshot_path snapshot deltas = snapshot
held (delta_path n) snapshot deltas = if holds deltas n then some (n ∷ []) else none
held (data_path n) snapshot deltas = none

abbrev content : StorePath → Objects → Option (List ℕ)
content path (objects fates snapshot deltas) = held path snapshot deltas

abbrev ids : Objects → List ℕ
ids (objects fates snapshot deltas) = deltas

abbrev pub outcome : Option (List ℕ) → GetOutcome
outcome none = get_failed true
outcome (some bytes) = found bytes

abbrev put_in : StorePath → List ℕ → Objects → Bool × Objects
put_in snapshot_path bytes (objects (true ∷ fates) snapshot deltas) =
    (true, objects fates (some bytes) deltas)
put_in path bytes (objects [] snapshot deltas) = (false, objects [] snapshot deltas)
put_in path bytes (objects (fate ∷ fates) snapshot deltas) = (false, objects fates snapshot deltas)

abbrev get_from : StorePath → Objects → GetOutcome × Objects
get_from path (objects [] snapshot deltas) = (get_failed false, objects [] snapshot deltas)
get_from path (objects (false ∷ fates) snapshot deltas) =
    (get_failed false, objects fates snapshot deltas)
get_from path (objects (true ∷ fates) snapshot deltas) =
    (outcome (held path snapshot deltas), objects fates snapshot deltas)

abbrev delete_in : StorePath → Objects → Bool × Objects
delete_in (delta_path n) (objects (true ∷ fates) snapshot deltas) =
    (true, objects fates snapshot (retain (λ k. not (n == k)) deltas))
delete_in path (objects [] snapshot deltas) = (false, objects [] snapshot deltas)
delete_in path (objects (fate ∷ fates) snapshot deltas) = (false, objects fates snapshot deltas)

abbrev list_in : Objects → Option (List StorePath) × Objects
list_in (objects [] snapshot deltas) = (none, objects [] snapshot deltas)
list_in (objects (false ∷ fates) snapshot deltas) = (none, objects fates snapshot deltas)
list_in (objects (true ∷ fates) snapshot deltas) =
    (some (map delta_path deltas), objects fates snapshot deltas)

abbrev fated : Env Objects ℕ
fated = record {
  put = put_in;
  get = get_from;
  delete = delete_in;
  list = list_in;
  encode = λ u. length u.to_adds ∷ [];
  decode = λ bytes. some (pb_update_from adds);
  try_send = λ task n. (true, n + 1);
  recv = λ n. n - 1;
  byte_order = little_endian;
  debug_assertions = false;
}

pub holds-retain :
    (n k : ℕ) (ds : List ℕ)
    → (n == k) ≡ false
    → holds (retain (λ j. not (n == j)) ds) k ≡ holds ds k
holds-retain n k [] e = refl
holds-retain n k (d ∷ ds) e = ground (arith, holds-retain n k ds e)

list_read : (p : StorePath) (s : Objects) → content p (list_in s).1 ≡ content p s
list_read p (objects [] snapshot deltas) = refl
list_read p (objects (false ∷ fates) snapshot deltas) = refl
list_read p (objects (true ∷ fates) snapshot deltas) = refl

list_ids : (s : Objects) → ids (list_in s).1 ≡ ids s
list_ids (objects [] snapshot deltas) = refl
list_ids (objects (false ∷ fates) snapshot deltas) = refl
list_ids (objects (true ∷ fates) snapshot deltas) = refl

list_paths :
    (s : Objects) (ps : List StorePath) → (list_in s).0 ≡ some ps → ps ≡ map delta_path (ids s)
list_paths (objects [] snapshot deltas) ps e = cc
list_paths (objects (false ∷ fates) snapshot deltas) ps e = cc
list_paths (objects (true ∷ fates) snapshot deltas) ps e = cc

get_read : (p q : StorePath) (s : Objects) → content p (get_from q s).1 ≡ content p s
get_read p q (objects [] snapshot deltas) = refl
get_read p q (objects (false ∷ fates) snapshot deltas) = refl
get_read p q (objects (true ∷ fates) snapshot deltas) = refl

get_ids : (q : StorePath) (s : Objects) → ids (get_from q s).1 ≡ ids s
get_ids q (objects [] snapshot deltas) = refl
get_ids q (objects (false ∷ fates) snapshot deltas) = refl
get_ids q (objects (true ∷ fates) snapshot deltas) = refl

pub outcome_found :
    (o : Option (List ℕ)) (bytes : List ℕ) → outcome o ≡ found bytes → o ≡ some bytes
outcome_found none bytes e = cc
outcome_found (some b) bytes e = cc

pub outcome_missing : (o : Option (List ℕ)) → outcome o ≡ get_failed true → o ≡ none
outcome_missing none e = refl
outcome_missing (some b) e = cc

get_found :
    (q : StorePath) (s : Objects) (bytes : List ℕ)
    → (get_from q s).0 ≡ found bytes
    → content q s ≡ some bytes
get_found q (objects [] snapshot deltas) bytes e = cc
get_found q (objects (false ∷ fates) snapshot deltas) bytes e = cc
get_found q (objects (true ∷ fates) snapshot deltas) bytes e =
    outcome_found (held q snapshot deltas) bytes e

get_missing :
    (q : StorePath) (s : Objects) → (get_from q s).0 ≡ get_failed true → content q s ≡ none
get_missing q (objects [] snapshot deltas) e = cc
get_missing q (objects (false ∷ fates) snapshot deltas) e = cc
get_missing q (objects (true ∷ fates) snapshot deltas) e =
    outcome_missing (held q snapshot deltas) e

put_self :
    (bytes : List ℕ) (s : Objects)
    → (put_in snapshot_path bytes s).0 ≡ true
    → content snapshot_path (put_in snapshot_path bytes s).1 ≡ some bytes
put_self bytes (objects [] snapshot deltas) e = cc
put_self bytes (objects (false ∷ fates) snapshot deltas) e = cc
put_self bytes (objects (true ∷ fates) snapshot deltas) e = refl

put_failed :
    (p : StorePath) (bytes : List ℕ) (s : Objects)
    → (put_in snapshot_path bytes s).0 ≡ false
    → content p (put_in snapshot_path bytes s).1 ≡ content p s
put_failed p bytes (objects [] snapshot deltas) e = refl
put_failed p bytes (objects (false ∷ fates) snapshot deltas) e = refl
put_failed p bytes (objects (true ∷ fates) snapshot deltas) e = cc

put_others :
    (n : ℕ) (bytes : List ℕ) (s : Objects)
    → content (delta_path n) (put_in snapshot_path bytes s).1 ≡ content (delta_path n) s
put_others n bytes (objects [] snapshot deltas) = refl
put_others n bytes (objects (false ∷ fates) snapshot deltas) = refl
put_others n bytes (objects (true ∷ fates) snapshot deltas) = refl

put_ids : (bytes : List ℕ) (s : Objects) → ids (put_in snapshot_path bytes s).1 ≡ ids s
put_ids bytes (objects [] snapshot deltas) = refl
put_ids bytes (objects (false ∷ fates) snapshot deltas) = refl
put_ids bytes (objects (true ∷ fates) snapshot deltas) = refl

delete_snapshot :
    (n : ℕ) (s : Objects)
    → content snapshot_path (delete_in (delta_path n) s).1 ≡ content snapshot_path s
delete_snapshot n (objects [] snapshot deltas) = refl
delete_snapshot n (objects (false ∷ fates) snapshot deltas) = refl
delete_snapshot n (objects (true ∷ fates) snapshot deltas) = refl

delete_others :
    (n k : ℕ) (s : Objects)
    → (n == k) ≡ false
    → content (delta_path k) (delete_in (delta_path n) s).1 ≡ content (delta_path k) s
delete_others n k (objects [] snapshot deltas) e = refl
delete_others n k (objects (false ∷ fates) snapshot deltas) e = refl
delete_others n k (objects (true ∷ fates) snapshot deltas) e =
    ap (λ b. if b then some (k ∷ []) else none) (holds-retain n k deltas e)

delete_ids :
    (n : ℕ) (s : Objects)
    → (delete_in (delta_path n) s).0 ≡ true
    → ids (delete_in (delta_path n) s).1 ≡ retain (λ k. not (n == k)) (ids s)
delete_ids n (objects [] snapshot deltas) e = cc
delete_ids n (objects (false ∷ fates) snapshot deltas) e = cc
delete_ids n (objects (true ∷ fates) snapshot deltas) e = refl

delete_failed :
    (n : ℕ) (s : Objects)
    → (delete_in (delta_path n) s).0 ≡ false
    → (content (delta_path n) (delete_in (delta_path n) s).1 ≡ content (delta_path n) s)
      × (ids (delete_in (delta_path n) s).1 ≡ ids s)
delete_failed n (objects [] snapshot deltas) e = (refl, refl)
delete_failed n (objects (false ∷ fates) snapshot deltas) e = (refl, refl)
delete_failed n (objects (true ∷ fates) snapshot deltas) e = cc

abbrev disk : Disk fated
disk = record {
  read = content;
  delta_ids = ids;
  list-read = list_read;
  list-ids = list_ids;
  list-paths = list_paths;
  get-read = get_read;
  get-ids = get_ids;
  get-found = get_found;
  get-missing = get_missing;
  put-self = put_self;
  put-failed = put_failed;
  put-others = put_others;
  put-ids = put_ids;
  delete-snapshot = delete_snapshot;
  delete-others = delete_others;
  delete-ids = delete_ids;
  delete-failed = delete_failed;
}

-- The merge lists and reads the one delta file, puts the snapshot, and then all calls fail.
abbrev manifest : List Bool → Manifest Objects ℕ
manifest fates = record {
  store = objects fates none (4 ∷ []);
  queue = 0;
  merge_options = default_manifest_config;
  deltas_num = 1;
  ssts = [];
  next_id = 7;
}

before : (fates : List Bool) → Restores disk 1 (manifest fates).store
unfolding snapshot_at update_at update_try_from pb_update_from collect_ssts sst_try_from pb_sst_from
    contains into_ssts
before fates = record {
  snapshot = default_snapshot;
  updates = adds ∷ [];
  readable = record { snapshot_read = refl; updates_read = refl };
  listed = refl;
}

fits : (fates : List Bool) → Fits (before fates).snapshot (before fates).updates
unfolding before
fits fates = record { valid = empty-IsValid; in_range = two-InRange; room = omega arith }

do_merge-Restores_example :
    Restores disk 1
      (do_merge ⦃env = fated⦄ false (manifest (true ∷ true ∷ true ∷ true ∷ []))).1.store
do_merge-Restores_example =
    do_merge-Restores ⦃env = fated⦄ disk false (manifest (true ∷ true ∷ true ∷ true ∷ [])) 1
      (before (true ∷ true ∷ true ∷ true ∷ [])) (fits (true ∷ true ∷ true ∷ true ∷ []))
