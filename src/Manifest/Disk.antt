-- ===== src/Manifest/Disk.antt =====
-- What the calls of the object store mean for its objects: a call that fails has no effect. A crash is
-- a store all of whose later calls fail.
use horaedb.Prelude.{ℕ, ◌≡◌, true, false, not, Option, none, some, List, map, retain, ◌==◌}
use horaedb.Prelude.Result.{Result, ok, err, store_failed}
use horaedb.Manifest.Bytes.{ByteOrder}
use horaedb.Manifest.Encoding.{
  ManifestUpdate, PbManifestUpdate, Snapshot, default_snapshot, snapshot_try_from,
}
use horaedb.Manifest.Env.{Env, StorePath, snapshot_path, delta_path, found, get_failed}
use horaedb.Manifest.Merger.{update_of}

pub record Disk {S Q : Type 0} (env : Env S Q) : Type 0 where
  pub read : StorePath → S → Option (List ℕ)
  -- the ids of the delta files, in the order in which the store lists them
  pub delta_ids : S → List ℕ
  pub list-read : (p : StorePath) (s : S) → read p (env.list s).1 ≡ read p s
  pub list-ids : (s : S) → delta_ids (env.list s).1 ≡ delta_ids s
  pub list-paths :
      (s : S) (ps : List StorePath) → (env.list s).0 ≡ some ps → ps ≡ map delta_path (delta_ids s)
  pub get-read : (p q : StorePath) (s : S) → read p (env.get q s).1 ≡ read p s
  pub get-ids : (q : StorePath) (s : S) → delta_ids (env.get q s).1 ≡ delta_ids s
  pub get-found :
      (q : StorePath) (s : S) (bytes : List ℕ)
      → (env.get q s).0 ≡ found bytes
      → read q s ≡ some bytes
  pub get-missing : (q : StorePath) (s : S) → (env.get q s).0 ≡ get_failed true → read q s ≡ none
  -- a write of the snapshot
  pub put-self :
      (bytes : List ℕ) (s : S)
      → (env.put snapshot_path bytes s).0 ≡ true
      → read snapshot_path (env.put snapshot_path bytes s).1 ≡ some bytes
  pub put-failed :
      (p : StorePath) (bytes : List ℕ) (s : S)
      → (env.put snapshot_path bytes s).0 ≡ false
      → read p (env.put snapshot_path bytes s).1 ≡ read p s
  pub put-others :
      (n : ℕ) (bytes : List ℕ) (s : S)
      → read (delta_path n) (env.put snapshot_path bytes s).1 ≡ read (delta_path n) s
  pub put-ids : (bytes : List ℕ) (s : S) → delta_ids (env.put snapshot_path bytes s).1 ≡ delta_ids s
  -- a deletion of a delta file
  pub delete-snapshot :
      (n : ℕ) (s : S) → read snapshot_path (env.delete (delta_path n) s).1 ≡ read snapshot_path s
  pub delete-others :
      (n k : ℕ) (s : S)
      → (n == k) ≡ false
      → read (delta_path k) (env.delete (delta_path n) s).1 ≡ read (delta_path k) s
  pub delete-ids :
      (n : ℕ) (s : S)
      → (env.delete (delta_path n) s).0 ≡ true
      → delta_ids (env.delete (delta_path n) s).1 ≡ retain (λ k. not (n == k)) (delta_ids s)
  pub delete-failed :
      (n : ℕ) (s : S)
      → (env.delete (delta_path n) s).0 ≡ false
      → (read (delta_path n) (env.delete (delta_path n) s).1 ≡ read (delta_path n) s)
        × (delta_ids (env.delete (delta_path n) s).1 ≡ delta_ids s)

abbrev pub snapshot_in : ByteOrder → Option (List ℕ) → Result Snapshot
snapshot_in byte_order none = ok default_snapshot
snapshot_in byte_order (some bytes) = snapshot_try_from ⦃o = byte_order⦄ bytes

abbrev pub update_in : (List ℕ → Option PbManifestUpdate) → Option (List ℕ) → Result ManifestUpdate
update_in decode none = err store_failed
update_in decode (some bytes) = update_of decode (found bytes)

module _ {S Q : Type 0} {env : Env S Q} (disk : Disk env) where
  -- What a restart reads as the snapshot, and as a delta file.
  unfoldable pub snapshot_at : S → Result Snapshot
  snapshot_at s = snapshot_in env.byte_order (disk.read snapshot_path s)

  unfoldable pub update_at : S → ℕ → Result ManifestUpdate
  update_at s n = update_in env.decode (disk.read (delta_path n) s)
