-- ===== src/Manifest/Merger/Durable.antt =====
-- No file is lost by `do_merge`, whichever of its calls of the store fail.
use horaedb.Prelude.{
  ℕ, ◌≡◌, refl, sym, ap, ap₂, subst, ◌∙◌, Bool, true, false, Bool-cases, inl, inr, List, [], ◌∷◌,
  map, if◌then◌else◌, arith,
}
use horaedb.Prelude.Result.{Result, ok, ok-injective, >>=-eq-ok}
use horaedb.Prelude.Exec.{lift}
use horaedb.Prelude.Triple.{
  Triple, Triple-pure, Triple-lift, Triple-bind, Triple-then, Triple-given, Triple-weaken,
  Post-either,
}
use horaedb.Sst.{FileId}
use horaedb.Manifest.{Manifest, on_store, or_fail}
use horaedb.Manifest.Encoding.{
  ManifestUpdate, Snapshot, into_ssts, into_bytes, snapshot_try_from, contains,
}
use horaedb.Manifest.Env.{Env, StorePath, snapshot_path, delta_path}
use horaedb.Manifest.Disk.{Disk, snapshot_in, snapshot_at, update_in, update_at}
use horaedb.Manifest.Merge.{merge_deltas, merge_snapshot}
use horaedb.Manifest.Merge.Resurrect.{lists}
use horaedb.Manifest.Merger.{set_deltas_num, merge_paths, unless_empty, do_merge}
use horaedb.Manifest.Merger.Restart.{
  restored, Restores, Fits, map-ok-injective, merge_deltas-decoded, merge_snapshot-read,
}
use horaedb.Manifest.Merger.Reads.{
  Same, Same-IsReadable, Reads, Reads-decoded, Kept, Same-Kept, ReadAll, reads_all, SnapshotRead,
  reads_snapshot, PathsListed, lists_paths,
}
use horaedb.Manifest.Merger.Deletions.{Merged, Merged-Restores, MergedIn, deletes_all}
use mathlib.Core.Path.{fun_ext}

map-[] : {A B : Type 0} (f : A → B) (l : List A) → map f l ≡ [] → l ≡ []
map-[] f [] e = refl
map-[] f (x ∷ l) e = cc

module _ {S Q : Type 0} ⦃env : Env S Q⦄ (disk : Disk env) (s : S) (i : FileId)
    (before : Restores disk i s) (fits : Fits before.snapshot before.updates) where
  -- The new snapshot, as a restart will read it.
  IsGood : Snapshot → Type 0
  IsGood snapshot =
      (snapshot_try_from ⦃o = env.byte_order⦄ (into_bytes ⦃o = env.byte_order⦄ snapshot)
        ≡ ok snapshot)
      × (lists (into_ssts snapshot) i ≡ true)

  -- What the merge reads is what a restart reads.
  merge_snapshot-IsGood :
      (snapshot merged : Snapshot) (rs : List (Result ManifestUpdate))
      → snapshot_at disk s ≡ ok snapshot
      → Reads disk s (disk.delta_ids s) rs
      → merge_snapshot env.debug_assertions snapshot rs ≡ ok merged
      → IsGood merged
  unfolding merge_snapshot IsGood
  merge_snapshot-IsGood snapshot merged rs e h m =
      let (p, deltas, deleted) = >>=-eq-ok (merge_deltas snapshot [] rs) _ m in
      let (us, decoded) = merge_deltas-decoded snapshot [] rs deltas in
      let reads =
        Reads-decoded disk s (disk.delta_ids s) us
          (subst (Reads disk s (disk.delta_ids s)) decoded h) in
      let same_updates =
        map-ok-injective us before.updates (sym reads ∙ before.readable.updates_read) in
      let same_snapshot = ok-injective (sym e ∙ before.readable.snapshot_read) in
      let m' : merge_snapshot env.debug_assertions before.snapshot (map ok before.updates)
          ≡ ok merged =
        sym (
          ap₂ (merge_snapshot env.debug_assertions) same_snapshot
            (decoded ∙ ap (map ok) same_updates))
        ∙ m in
      merge_snapshot-read ⦃o = env.byte_order⦄ env.debug_assertions before.snapshot before.updates i
        fits before.listed m'

  put_done :
      (merged : Snapshot)
      → IsGood merged
      → (m : Manifest S Q) → Same disk s m
      → (env.put snapshot_path (into_bytes ⦃o = env.byte_order⦄ merged) m.store).0 ≡ true
      → Merged disk i (env.put snapshot_path (into_bytes ⦃o = env.byte_order⦄ merged) m.store).1
  unfolding IsGood snapshot_at update_at
  put_done merged good m same e =
      let bytes = into_bytes ⦃o = env.byte_order⦄ merged in
      record {
        snapshot = merged;
        updates = before.updates;
        readable = record {
          snapshot_read = ap (snapshot_in env.byte_order) (disk.put-self bytes m.store e) ∙ good.0;
          updates_read =
              ap₂ (λ (f : ℕ → Result ManifestUpdate) ns. map f ns)
                (fun_ext (λ n.
                  ap (update_in env.decode)
                    (disk.put-others n bytes m.store ∙ same.reads (delta_path n))))
                (disk.put-ids bytes m.store ∙ same.ids)
              ∙ before.readable.updates_read;
        };
        listed = good.1;
        undeleted = ground (arith, before.listed);
      }

  put_snapshot :
      (merged : Snapshot)
      → IsGood merged
      → Triple
          (Same disk s)
          (λ b m. if b then MergedIn disk i m else Same disk s m)
          (Kept disk i)
          (on_store (env.put snapshot_path (into_bytes ⦃o = env.byte_order⦄ merged)))
  unfolding IsGood
  put_snapshot merged good = record {
    run = λ m same.
        let bytes = into_bytes ⦃o = env.byte_order⦄ merged in
        elim (Bool-cases (env.put snapshot_path bytes m.store).0) [
          | inl e ↦ rw e (put_done merged good m same e)
          | inr e ↦ rw e (record {
            reads = λ p. disk.put-failed p bytes m.store e ∙ same.reads p;
            ids = disk.put-ids bytes m.store ∙ same.ids;
          })
        ];
  }

  or_fails :
      (b : Bool)
      → Triple
          (λ m. if b then MergedIn disk i m else Same disk s m)
          (λ _. MergedIn disk i)
          (Kept disk i)
          (or_fail b)
  or_fails true = record { run = λ m h. h }
  or_fails false = record { run = λ m h. Same-Kept disk s i before m h }

  sets_num :
      (first_run : Bool) (n : ℕ)
      → Triple (Same disk s) (λ _. Same disk s) (Kept disk i) (set_deltas_num first_run n)
  sets_num true n = record { run = λ m h. record { reads = h.reads; ids = h.ids } }
  sets_num false n = record { run = λ m h. h }

  merges :
      (snapshot : Snapshot) (rs : List (Result ManifestUpdate))
      → snapshot_at disk s ≡ ok snapshot
      → Reads disk s (disk.delta_ids s) rs
      → Triple
          (Same disk s)
          (λ merged m. Same disk s m × IsGood merged)
          (Kept disk i)
          (lift (merge_snapshot env.debug_assertions snapshot rs))
  merges snapshot rs e h =
      Triple-lift _ _
        (λ m same merged returns. (same, merge_snapshot-IsGood snapshot merged rs e h returns))
        (Same-Kept disk s i before)

  merge_paths_lem :
      (first_run : Bool)
      → Triple
          (Same disk s)
          (λ _. MergedIn disk i)
          (Kept disk i)
          (merge_paths first_run (map delta_path (disk.delta_ids s)))
  unfolding merge_paths
  merge_paths_lem first_run =
      let ids = disk.delta_ids s in
      Triple-then (Same disk s) (λ _. MergedIn disk i) _ _ (sets_num first_run _)
        (Triple-bind (ReadAll disk s ids) (λ _. MergedIn disk i) _ _ (reads_all disk s i before ids)
          λ rs. Triple-given _ λ h.
            Triple-bind (SnapshotRead disk s) (λ _. MergedIn disk i) _ _
              (reads_snapshot disk s i before)
              λ snapshot. Triple-given _ λ e.
                Triple-bind _ (λ _. MergedIn disk i) _ _ (merges snapshot rs e h)
                  λ merged. Triple-given _ λ good.
                    Triple-bind _ (λ _. MergedIn disk i) _ _ (put_snapshot merged good)
                      λ written.
                        Triple-then (MergedIn disk i) (λ _. MergedIn disk i) _ _ (or_fails written)
                          (deletes_all disk i (Kept disk i) ids))

  -- With no delta file the snapshot alone is what a restart reads.
  none_left : disk.delta_ids s ≡ [] → Merged disk i s
  unfolding contains
  none_left e =
      let none : before.updates ≡ [] =
        map-ok-injective before.updates []
          (sym before.readable.updates_read ∙ ap (map (update_at disk s)) e) in
      record {
        snapshot = before.snapshot;
        updates = [];
        readable = record {
          snapshot_read = before.readable.snapshot_read;
          updates_read = ap (map (update_at disk s)) e;
        };
        listed =
            ground (arith, subst (λ us. restored before.snapshot us i ≡ true) none before.listed);
        undeleted = refl;
      }

  Same-MergedIn : Merged disk i s → (m : Manifest S Q) → Same disk s m → MergedIn disk i m
  Same-MergedIn h m same = record {
    snapshot = h.snapshot;
    updates = h.updates;
    readable = Same-IsReadable disk s m h.readable same;
    listed = h.listed;
    undeleted = h.undeleted;
  }

  merge_listed :
      (first_run : Bool) (paths : List StorePath)
      → paths ≡ map delta_path (disk.delta_ids s)
      → Triple
          (Same disk s)
          (λ _. MergedIn disk i)
          (Kept disk i)
          (unless_empty (merge_paths first_run) paths)
  merge_listed first_run [] e =
      Triple-pure (λ _. MergedIn disk i) tt
        (Same-MergedIn (none_left (map-[] delta_path _ (sym e))))
  merge_listed first_run (p ∷ ps) e =
      subst
        (λ l. Triple (Same disk s) (λ _. MergedIn disk i) (Kept disk i) (merge_paths first_run l))
        (sym e) (merge_paths_lem first_run)

  pub do_merge_lem :
      (first_run : Bool)
      → Triple (Same disk s) (λ _. MergedIn disk i) (Kept disk i) (do_merge first_run)
  unfolding do_merge
  do_merge_lem first_run =
      Triple-bind (PathsListed disk s) (λ _. MergedIn disk i) _ _ (lists_paths disk s i before)
        λ paths. Triple-given _ λ e. merge_listed first_run paths e

module _ {S Q : Type 0} ⦃env : Env S Q⦄ (disk : Disk env) where
  pub unchanged : (m : Manifest S Q) → Same disk m.store m
  unchanged m = record { reads = λ p. refl; ids = refl }

  -- Let the calls of the store that fail have no effect, and let the one merge run on it. Let the
  -- snapshot and the deltas that are stored be readable, fit the byte format, and give a list with a
  -- file in it. Then those that are stored when `do_merge` ends, at whatever call it failed, are readable
  -- too and give a list with that file.
  pub do_merge-Restores :
      (first_run : Bool) (m : Manifest S Q) (i : FileId) (before : Restores disk i m.store)
      → Fits before.snapshot before.updates
      → Restores disk i (do_merge first_run m).1.store
  do_merge-Restores first_run m i before fits =
      Post-either (Kept disk i) (do_merge first_run m).0 (do_merge first_run m).1 (
        (Triple-weaken (λ _. MergedIn disk i) (λ _. Kept disk i) (Kept disk i)
            (λ _ n h. Merged-Restores disk i n.store h)
            (do_merge_lem disk m.store i before fits first_run)).run
          m (unchanged m))
