-- ===== src/Manifest/Merger/Returns.antt =====
-- On a store whose calls succeed, a merge and a start return.
use horaedb.Prelude.{
  ℕ, ◌≡◌, refl, sym, ap, ap₂, subst, ◌∙◌, Bool, true, false, Option-cases, inl, inr, none, some,
  List, [], ◌∷◌, map, length,
}
use horaedb.Prelude.Result.{Result, ok, err, panic}
use horaedb.Prelude.Exec.{lift, attempt}
use horaedb.Prelude.Triple.{Post, Triple, Triple-pure, Triple-bind, Triple-then, Triple-given}
use horaedb.Manifest.{Manifest, on_store, or_fail, dec_delta_num}
use horaedb.Manifest.Encoding.{ManifestUpdate, Snapshot, into_bytes}
use horaedb.Manifest.Encoding.Edit.{HasRoom}
use horaedb.Manifest.Env.{Env, StorePath, snapshot_path, delta_path, found, get_failed}
use horaedb.Manifest.Disk.{Disk, snapshot_in, snapshot_at, update_in, update_at}
use horaedb.Manifest.Merge.{merge_snapshot}
use horaedb.Manifest.Merge.Recovery.{all_adds, merge_snapshot_returns}
use horaedb.Manifest.Merger.{
  update_of, list_delta_paths, read_delta_file, read_delta_files, read_snapshot, delete_delta_file,
  count_deleted, delete_delta_files, set_deltas_num, merge_paths, unless_empty, do_merge,
}
use horaedb.Manifest.Merger.Restart.{IsReadable}
use horaedb.Manifest.Merger.Reads.{Same, Same-get}

-- The calls that a start needs succeed, in every state; a deletion may fail.
pub record IsHealthy {S Q : Type 0} {env : Env S Q} (disk : Disk env) : Type 0 where
  pub lists : (s : S) → (env.list s).0 ≡ some (map delta_path (disk.delta_ids s))
  pub gets :
      (p : StorePath) (s : S) (bytes : List ℕ)
      → disk.read p s ≡ some bytes
      → (env.get p s).0 ≡ found bytes
  pub misses : (p : StorePath) (s : S) → disk.read p s ≡ none → (env.get p s).0 ≡ get_failed true
  pub puts : (bytes : List ℕ) (s : S) → (env.put snapshot_path bytes s).0 ≡ true

Never : {A : Type 0} → A → Type 0
Never a = ⊥

module _ {S Q : Type 0} ⦃env : Env S Q⦄ (disk : Disk env) (healthy : IsHealthy disk) (s : S) where
  -- A delta file that can be decoded is fetched.
  fetched_update :
      (n : ℕ) (u : ManifestUpdate) (t : S)
      → disk.read (delta_path n) t ≡ disk.read (delta_path n) s
      → update_at disk s n ≡ ok u
      → update_of env.decode (env.get (delta_path n) t).0 ≡ ok u
  unfolding update_at
  fetched_update n u t same e = elim (Option-cases (disk.read (delta_path n) s)) [
    | inl nothing ↦
        let refused : update_in env.decode none ≡ ok u =
          ap (update_in env.decode) (sym nothing) ∙ e in
        cc
    | inr (bytes, holds) ↦
        ap (update_of env.decode) (healthy.gets (delta_path n) t bytes (same ∙ holds))
        ∙ ap (update_in env.decode) (sym holds)
        ∙ e
  ]

  AllRead : List ManifestUpdate → List (Result ManifestUpdate) → Manifest S Q → Type 0
  AllRead us rs m = Same disk s m × (rs ≡ map ok us)

  reads_one :
      (n : ℕ) (u : ManifestUpdate)
      → update_at disk s n ≡ ok u
      → Triple
          (Same disk s)
          (λ r m. Same disk s m × (r ≡ ok u))
          Never
          (attempt (read_delta_file (delta_path n)))
  unfolding read_delta_file
  reads_one n u e = record {
    run = λ m h.
        (Same-get disk s m (delta_path n) h, fetched_update n u m.store (h.reads (delta_path n)) e);
  }

  reads_all :
      (ns : List ℕ) (us : List ManifestUpdate)
      → map (update_at disk s) ns ≡ map ok us
      → Triple (Same disk s) (AllRead us) Never (read_delta_files (map delta_path ns))
  unfolding read_delta_files AllRead
  reads_all [] [] e = Triple-pure (AllRead []) [] (λ m h. (h, refl))
  reads_all [] (u ∷ us) e = cc
  reads_all (n ∷ ns) [] e = cc
  reads_all (n ∷ ns) (u ∷ us) e =
      let first : update_at disk s n ≡ ok u = cc in
      let others : map (update_at disk s) ns ≡ map ok us = cc in
      Triple-bind _ (AllRead (u ∷ us)) _ _ (reads_one n u first) λ r. Triple-given _ λ one.
        Triple-bind (AllRead us) (AllRead (u ∷ us)) _ _ (reads_all ns us others) λ rs.
          Triple-given _ λ more.
            Triple-pure (AllRead (u ∷ us)) (r ∷ rs)
              (λ m h. (h, ap₂ (λ (a : Result ManifestUpdate) l. a ∷ l) one more))

  pub reads_content :
      (snapshot : Snapshot)
      → snapshot_at disk s ≡ ok snapshot
      → (m : Manifest S Q) → disk.read snapshot_path m.store ≡ disk.read snapshot_path s
      → (read_snapshot m).0 ≡ ok snapshot
  unfolding read_snapshot snapshot_at
  reads_content snapshot e m same = elim (Option-cases (disk.read snapshot_path s)) [
    | inl nothing ↦
        rw (healthy.misses snapshot_path m.store (same ∙ nothing))
          (ap (snapshot_in env.byte_order) (sym nothing) ∙ e)
    | inr (bytes, holds) ↦
        rw (healthy.gets snapshot_path m.store bytes (same ∙ holds))
          (ap (snapshot_in env.byte_order) (sym holds) ∙ e)
  ]

  Given : Snapshot → Snapshot → Manifest S Q → Type 0
  Given snapshot got m = Unit × (got ≡ snapshot)

  reads_snapshot :
      (snapshot : Snapshot)
      → snapshot_at disk s ≡ ok snapshot
      → Triple (Same disk s) (Given snapshot) Never read_snapshot
  unfolding Given
  reads_snapshot snapshot e = record {
    run = λ m h.
        subst (λ (r : Result Snapshot). Post (Given snapshot) Never r (read_snapshot m).1)
          (sym (reads_content snapshot e m (h.reads snapshot_path))) (tt, refl);
  }

  Any : Manifest S Q → Type 0
  Any m = Unit

  counts : (v : Result (Unit {0})) → Triple Any (λ _. Any) Never (count_deleted v)
  unfolding Any dec_delta_num
  counts (ok u) = record { run = λ m h. tt }
  counts (err e) = record { run = λ m h. tt }
  counts panic = record { run = λ m h. tt }

  deletes_all : (paths : List StorePath) → Triple Any (λ _. Any) Never (delete_delta_files paths)
  unfolding delete_delta_files Any
  deletes_all [] = Triple-pure (λ _. Any) tt (λ m h. tt)
  deletes_all (p ∷ paths) =
      Triple-bind (λ _. Any) (λ _. Any) (attempt (delete_delta_file p)) _
        (record { run = λ m h. tt })
        λ v. Triple-then Any (λ _. Any) _ _ (counts v) (deletes_all paths)

  sets_num :
      (first_run : Bool) (n : ℕ)
      → Triple (Same disk s) (λ _. Same disk s) Never (set_deltas_num first_run n)
  sets_num true n = record { run = λ m h. record { reads = h.reads; ids = h.ids } }
  sets_num false n = record { run = λ m h. h }

  puts :
      (bytes : List ℕ)
      → Triple Any (λ b m. Any m × (b ≡ true)) Never (on_store (env.put snapshot_path bytes))
  unfolding Any
  puts bytes = record { run = λ m h. (tt, healthy.puts bytes m.store) }

  or_fails : (b : Bool) → b ≡ true → Triple Any (λ _. Any) Never (or_fail b)
  unfolding Any
  or_fails true e = record { run = λ m h. tt }
  or_fails false e = cc

  module _ (snapshot : Snapshot) (updates : List ManifestUpdate)
      (readable : IsReadable disk s snapshot updates)
      (room : HasRoom snapshot (length (all_adds updates)))
      (release : env.debug_assertions ≡ false) where
    merges :
        (rs : List (Result ManifestUpdate))
        → rs ≡ map ok updates
        → Triple Any (λ _. Any) Never (lift (merge_snapshot env.debug_assertions snapshot rs))
    unfolding Any
    merges rs e =
        let (merged, returns) = merge_snapshot_returns snapshot updates room in
        record {
          run = λ m h.
              subst (λ (r : Result Snapshot). Post (λ _. Any) Never r m)
                (sym (ap₂ (λ d l. merge_snapshot d snapshot l) release e ∙ returns)) tt;
        }

    merge_paths_returns :
        (first_run : Bool)
        → Triple
            (Same disk s)
            (λ _. Any)
            Never
            (merge_paths first_run (map delta_path (disk.delta_ids s)))
    unfolding merge_paths AllRead Given Any
    merge_paths_returns first_run =
        let ids = disk.delta_ids s in
        Triple-then (Same disk s) (λ _. Any) _ _ (sets_num first_run _)
          (Triple-bind (AllRead updates) (λ _. Any) _ _
            (reads_all ids updates readable.updates_read)
            λ rs. Triple-given _ λ all.
              Triple-bind (Given snapshot) (λ _. Any) _ _
                (reads_snapshot snapshot readable.snapshot_read)
                λ got. Triple-given _ λ same.
                  Triple-bind (λ _. Any) (λ _. Any) _ _
                    (subst
                      (λ t.
                        Triple Any (λ _. Any) Never
                          (lift (merge_snapshot env.debug_assertions t rs)))
                      (sym same) (merges rs all))
                    λ merged.
                      Triple-bind _ (λ _. Any) _ _ (puts (into_bytes ⦃o = env.byte_order⦄ merged))
                        λ written. Triple-given _ λ yes.
                          Triple-then Any (λ _. Any) _ _ (or_fails written yes)
                            (deletes_all (map delta_path ids)))

    PathsListed : List StorePath → Manifest S Q → Type 0
    PathsListed ps m = Same disk s m × (ps ≡ map delta_path (disk.delta_ids s))

    lists_paths : Triple (Same disk s) PathsListed Never list_delta_paths
    unfolding list_delta_paths PathsListed
    lists_paths = record {
      run = λ m h. rw (healthy.lists m.store) (
        record {
          reads = λ p. disk.list-read p m.store ∙ h.reads p;
          ids = disk.list-ids m.store ∙ h.ids;
        },
        ap (map delta_path) h.ids,
      );
    }

    merge_listed :
        (first_run : Bool) (paths : List StorePath)
        → paths ≡ map delta_path (disk.delta_ids s)
        → Triple (Same disk s) (λ _. Any) Never (unless_empty (merge_paths first_run) paths)
    unfolding Any
    merge_listed first_run [] e = Triple-pure (λ _. Any) tt (λ m h. tt)
    merge_listed first_run (p ∷ ps) e =
        subst (λ l. Triple (Same disk s) (λ _. Any) Never (merge_paths first_run l)) (sym e)
          (merge_paths_returns first_run)

    do_merge-Triple :
        (first_run : Bool) → Triple (Same disk s) (λ _. Any) Never (do_merge first_run)
    unfolding do_merge PathsListed
    do_merge-Triple first_run =
        Triple-bind PathsListed (λ _. Any) _ _ lists_paths
          λ paths. Triple-given _ λ e. merge_listed first_run paths e

    Post-Never : (r : Result (Unit {0})) (m : Manifest S Q) → Post (λ _. Any) Never r m → r ≡ ok tt
    unfolding Never
    Post-Never (ok u) m h = refl
    Post-Never (err e) m h = absurd h
    Post-Never panic m h = absurd h

    pub do_merge_returns :
        (first_run : Bool) (m : Manifest S Q) → Same disk s m → (do_merge first_run m).0 ≡ ok tt
    do_merge_returns first_run m h =
        Post-Never (do_merge first_run m).0 (do_merge first_run m).1
          ((do_merge-Triple first_run).run m h)
