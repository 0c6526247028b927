-- ===== src/Manifest/Merger/Opening.antt =====
-- The start of a manifest on a store that holds its files.
use horaedb.Prelude.{◌≡◌, refl, sym, ap, ◌∙◌, true, false, length, arith}
use horaedb.Prelude.Result.{ok, ok-injective}
use horaedb.Prelude.Exec.{modify, ◌>>=◌}
use horaedb.Prelude.Triple.{Post, Triple, Triple-bind, Triple-then, Triple-given, Post-ok}
use horaedb.Sst.{FileId}
use horaedb.Manifest.{Manifest}
use horaedb.Manifest.Encoding.{into_ssts}
use horaedb.Manifest.Env.{Env}
use horaedb.Manifest.Disk.{Disk}
use horaedb.Manifest.Encoding.Edit.{HasRoom}
use horaedb.Manifest.Merge.Recovery.{all_adds}
use horaedb.Manifest.Merge.Resurrect.{lists}
use horaedb.Manifest.Merger.{read_snapshot, do_merge, try_new}
use horaedb.Manifest.Merger.Restart.{Restores, Fits}
use horaedb.Manifest.Merger.Reads.{Same, Kept, SnapshotRead, reads_snapshot}
use horaedb.Manifest.Merger.Returns.{IsHealthy, do_merge_returns, reads_content}
use horaedb.Manifest.Merger.Deletions.{Merged-Restores, MergedIn}
use horaedb.Manifest.Merger.Durable.{do_merge_lem, unchanged}

module _ {S Q : Type 0} ⦃env : Env S Q⦄ (disk : Disk env) where
  Loaded : FileId → Manifest S Q → Type 0
  Loaded i m = lists m.ssts i ≡ true

  loads :
      (i : FileId)
      → Triple
          (MergedIn disk i)
          (λ _. Loaded i)
          (Kept disk i)
          (do snapshot ← read_snapshot; modify λ m. record m { ssts = into_ssts snapshot })
  unfolding Loaded
  loads i = record {
    run = λ m h.
        let before = Merged-Restores disk i m.store h in
        (Triple-bind (SnapshotRead disk m.store) (λ _. Loaded i) _ _
            (reads_snapshot disk m.store i before)
            λ snapshot. Triple-given _ λ e. record {
              run = λ n same.
                  ap (λ t. lists (into_ssts t) i) (ok-injective (sym e ∙ h.readable.snapshot_read))
                  ∙ h.listed;
            }).run
          m (unchanged disk m);
  }

  try_new_lem :
      (m : Manifest S Q) (i : FileId) (before : Restores disk i m.store)
      (fits : Fits before.snapshot before.updates)
      → Post (λ _. Loaded i) (Kept disk i) (try_new m).0 (try_new m).1
  unfolding try_new
  try_new_lem m i before fits =
      let m' : Manifest S Q = record m { deltas_num = 0 } in
      (Triple-then (MergedIn disk i) (λ _. Loaded i) (do_merge true) _
          (do_merge_lem disk m.store i before fits true) (loads i)).run
        m' (record { reads = λ p. refl; ids = refl })

  -- Let the snapshot and the deltas that are stored be readable, fit the byte format, and give a list
  -- with a file in it. In a release build, on a store whose calls succeed, deletions aside, a manifest
  -- opens, and its list has the file.
  pub lists-try_new :
      IsHealthy disk
      → env.debug_assertions ≡ false
      → (m : Manifest S Q) (i : FileId) (before : Restores disk i m.store)
      → Fits before.snapshot before.updates
      → ((try_new m).0 ≡ ok tt) × (lists (try_new m).1.ssts i ≡ true)
  unfolding try_new Loaded
  lists-try_new healthy release m i before fits =
      let m0 : Manifest S Q = record m { deltas_num = 0 } in
      let same : Same disk m.store m0 = record { reads = λ p. refl; ids = refl } in
      let room : HasRoom before.snapshot (length (all_adds before.updates)) = record {
        counted = fits.valid.counted;
        room = omega (arith, fits.room);
      } in
      let merges =
        do_merge_returns disk healthy m.store before.snapshot before.updates before.readable room
          release true m0 same in
      let merged =
        Post-ok (λ _. MergedIn disk i) (Kept disk i) (do_merge true m0).0 (do_merge true m0).1 tt
          ((do_merge_lem disk m.store i before fits true).run m0 same) merges in
      let m1 = (do_merge true m0).1 in
      let reads =
        reads_content disk healthy m1.store merged.snapshot merged.readable.snapshot_read m1 refl in
      let returns : (try_new m).0 ≡ ok tt = rw (try_new, merges, reads) refl in
      (
        returns,
        Post-ok (λ _. Loaded i) (Kept disk i) (try_new m).0 (try_new m).1 tt
            (try_new_lem m i before fits) returns,
      )
