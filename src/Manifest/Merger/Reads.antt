-- ===== src/Manifest/Merger/Reads.antt =====
-- What a merge reads is what a restart reads.
use horaedb.Prelude.{
  ℕ, ◌≡◌, refl, sym, ap, ap₂, ◌∙◌, true, false, Option, none, some, List, [], ◌∷◌, map,
}
use horaedb.Prelude.Result.{Result, ok}
use horaedb.Prelude.Exec.{attempt}
use horaedb.Prelude.Triple.{Triple, Triple-pure, Triple-lift, Triple-bind, Triple-given}
use horaedb.Sst.{FileId}
use horaedb.Manifest.{Manifest, on_store}
use horaedb.Manifest.Encoding.{ManifestUpdate, PbManifestUpdate, Snapshot}
use horaedb.Manifest.Env.{
  Env, StorePath, snapshot_path, delta_path, GetOutcome, found, get_failed, body_failed,
}
use horaedb.Manifest.Disk.{Disk, snapshot_in, snapshot_at, update_in, update_at}
use horaedb.Manifest.Merger.{
  update_of, listed, list_delta_paths, read_delta_file, read_delta_files, snapshot_of,
  read_snapshot,
}
use horaedb.Manifest.Merger.Restart.{IsReadable, Restores}
use mathlib.Core.Path.{fun_ext}

-- A delta file that is fetched and decoded is what a restart reads.
update_of-update_in :
    (decode : List ℕ → Option PbManifestUpdate) (o : GetOutcome) (content : Option (List ℕ))
    (u : ManifestUpdate)
    → ((bytes : List ℕ) → o ≡ found bytes → content ≡ some bytes)
    → update_of decode o ≡ ok u
    → update_in decode content ≡ ok u
update_of-update_in decode (found bytes) content u h e = ap (update_in decode) (h bytes refl) ∙ e
update_of-update_in decode (get_failed b) content u h e = cc
update_of-update_in decode body_failed content u h e = cc

module _ {S Q : Type 0} ⦃env : Env S Q⦄ (disk : Disk env) where
  -- The objects are those of `s`.
  pub record Same (s : S) (m : Manifest S Q) : Type 0 where
    pub reads : (p : StorePath) → disk.read p m.store ≡ disk.read p s
    pub ids : disk.delta_ids m.store ≡ disk.delta_ids s

  -- Outcomes of reading the delta files, those that are decoded as a restart reads them.
  unfoldable pub Reads : S → List ℕ → List (Result ManifestUpdate) → Type 0
  Reads s [] [] = Unit
  Reads s [] (r ∷ rs) = ⊥
  Reads s (n ∷ ns) [] = ⊥
  Reads s (n ∷ ns) (r ∷ rs) =
      ((u : ManifestUpdate) → r ≡ ok u → update_at disk s n ≡ ok u) × Reads s ns rs

  pub Reads-decoded :
      (s : S) (ns : List ℕ) (us : List ManifestUpdate)
      → Reads s ns (map ok us)
      → map (update_at disk s) ns ≡ map ok us
  unfolding Reads
  Reads-decoded s [] [] h = refl
  Reads-decoded s [] (u ∷ us) h = absurd h
  Reads-decoded s (n ∷ ns) [] h = absurd h
  Reads-decoded s (n ∷ ns) (u ∷ us) (h, hs) =
      ap₂ (λ (r : Result ManifestUpdate) l. r ∷ l) (h u refl) (Reads-decoded s ns us hs)

  pub Same-get :
      (s : S) (m : Manifest S Q) (q : StorePath)
      → Same s m
      → Same s (record m { store = (env.get q m.store).1 })
  Same-get s m q h = record {
    reads = λ p. disk.get-read p q m.store ∙ h.reads p;
    ids = disk.get-ids q m.store ∙ h.ids;
  }

  -- A restart from the same objects reads the same.
  pub Same-IsReadable :
      (s : S) (m : Manifest S Q) {snapshot : Snapshot} {updates : List ManifestUpdate}
      → IsReadable disk s snapshot updates
      → Same s m
      → IsReadable disk m.store snapshot updates
  unfolding snapshot_at update_at
  Same-IsReadable s m h same = record {
    snapshot_read = ap (snapshot_in env.byte_order) (same.reads snapshot_path) ∙ h.snapshot_read;
    updates_read =
        ap₂ (λ (f : ℕ → Result ManifestUpdate) ns. map f ns)
          (fun_ext (λ n. ap (update_in env.decode) (same.reads (delta_path n)))) same.ids
        ∙ h.updates_read;
  }

  Same-Restores :
      (s : S) (i : FileId) (m : Manifest S Q)
      → Restores disk i s
      → Same s m
      → Restores disk i m.store
  Same-Restores s i m h same = record {
    snapshot = h.snapshot;
    updates = h.updates;
    readable = Same-IsReadable s m h.readable same;
    listed = h.listed;
  }

  -- What holds after a failure: a restart still lists the file.
  abbrev pub Kept : FileId → Manifest S Q → Type 0
  Kept i m = Restores disk i m.store

  abbrev pub ReadAll : S → List ℕ → List (Result ManifestUpdate) → Manifest S Q → Type 0
  ReadAll s ns rs m = Same s m × Reads s ns rs

  abbrev pub SnapshotRead : S → Snapshot → Manifest S Q → Type 0
  SnapshotRead s snapshot m = Same s m × (snapshot_at disk s ≡ ok snapshot)

  abbrev pub PathsListed : S → List StorePath → Manifest S Q → Type 0
  PathsListed s ps m = Same s m × (ps ≡ map delta_path (disk.delta_ids s))

  -- From a store from which a restart lists the file.
  module _ (s : S) (i : FileId) (before : Restores disk i s) where
    pub Same-Kept : (m : Manifest S Q) → Same s m → (Kept i) m
    Same-Kept m h = Same-Restores s i m before h

    reads_one :
        (n : ℕ)
        → Triple
            (Same s)
            (λ r m. Same s m × ((u : ManifestUpdate) → r ≡ ok u → update_at disk s n ≡ ok u))
            (Kept i)
            (attempt (read_delta_file (delta_path n)))
    unfolding read_delta_file update_at
    reads_one n = record {
      run = λ m h. (
        Same-get s m (delta_path n) h,
        λ u e.
            update_of-update_in env.decode (env.get (delta_path n) m.store).0
              (disk.read (delta_path n) s) u
              (λ bytes f.
                sym (h.reads (delta_path n)) ∙ disk.get-found (delta_path n) m.store bytes f)
              e,
      );
    }

    pub reads_all :
        (ns : List ℕ)
        → Triple (Same s) ((ReadAll s) ns) (Kept i) (read_delta_files (map delta_path ns))
    unfolding read_delta_files Reads
    reads_all [] = Triple-pure _ [] (λ m h. (h, tt))
    reads_all (n ∷ ns) = Triple-bind _ ((ReadAll s) (n ∷ ns)) _ _ (reads_one n) λ r.
        Triple-given _ λ one.
          Triple-bind ((ReadAll s) ns) ((ReadAll s) (n ∷ ns)) _ _ (reads_all ns) λ rs.
            Triple-given _
              λ more. Triple-pure ((ReadAll s) (n ∷ ns)) (r ∷ rs) (λ m h. (h, (one, more)))

    Fetched : StorePath → GetOutcome → Manifest S Q → Type 0
    Fetched p o m =
        Same s m
        × (((bytes : List ℕ) → o ≡ found bytes → disk.read p s ≡ some bytes)
            × (o ≡ get_failed true → disk.read p s ≡ none))

    fetches : (p : StorePath) → Triple (Same s) (Fetched p) (Kept i) (on_store (env.get p))
    unfolding Fetched
    fetches p = record {
      run = λ m h. (
        Same-get s m p h,
        (
          λ bytes e. sym (h.reads p) ∙ disk.get-found p m.store bytes e,
          λ e. sym (h.reads p) ∙ disk.get-missing p m.store e,
        ),
      );
    }

    reads_outcome :
        (o : GetOutcome)
        → Triple (Fetched snapshot_path o) (SnapshotRead s) (Kept i) (snapshot_of o)
    unfolding Fetched snapshot_at
    reads_outcome (found bytes) = Triple-given _ λ h.
        Triple-lift (SnapshotRead s) _
          (λ m same a e. (same, ap (snapshot_in env.byte_order) (h.0 bytes refl) ∙ e)) Same-Kept
    reads_outcome (get_failed true) = Triple-given _ λ h.
        Triple-pure (SnapshotRead s) _
          (λ m same. (same, ap (snapshot_in env.byte_order) (h.1 refl)))
    reads_outcome (get_failed false) =
        Triple-given _ λ h. Triple-lift (SnapshotRead s) _ (λ m same a e. cc) Same-Kept
    reads_outcome body_failed =
        Triple-given _ λ h. Triple-lift (SnapshotRead s) _ (λ m same a e. cc) Same-Kept

    pub reads_snapshot : Triple (Same s) (SnapshotRead s) (Kept i) read_snapshot
    unfolding read_snapshot
    reads_snapshot =
        Triple-bind (Fetched snapshot_path) (SnapshotRead s) _ _ (fetches snapshot_path)
          reads_outcome

    Listed : Option (List StorePath) → Manifest S Q → Type 0
    Listed o m =
        Same s m × ((ps : List StorePath) → o ≡ some ps → ps ≡ map delta_path (disk.delta_ids s))

    lists_store : Triple (Same s) Listed (Kept i) (on_store env.list)
    unfolding Listed
    lists_store = record {
      run = λ m h. (
        record {
          reads = λ p. disk.list-read p m.store ∙ h.reads p;
          ids = disk.list-ids m.store ∙ h.ids;
        },
        λ ps e. disk.list-paths m.store ps e ∙ ap (map delta_path) h.ids,
      );
    }

    lists_outcome :
        (o : Option (List StorePath)) → Triple (Listed o) (PathsListed s) (Kept i) (listed o)
    unfolding Listed
    lists_outcome none =
        Triple-given _ λ h. Triple-lift (PathsListed s) _ (λ m same a e. cc) Same-Kept
    lists_outcome (some ps) =
        Triple-given _ λ h. Triple-pure (PathsListed s) ps (λ m same. (same, h ps refl))

    pub lists_paths : Triple (Same s) (PathsListed s) (Kept i) list_delta_paths
    unfolding list_delta_paths
    lists_paths = Triple-bind Listed (PathsListed s) _ _ lists_store lists_outcome
