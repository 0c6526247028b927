-- ===== src/Manifest/Merger/Deletions.antt =====
-- The deletions at the end of a merge, after which the snapshot lists what it listed.
use horaedb.Prelude.{
  ℕ, ◌≡◌, refl, ap, ap₂, subst, ◌∙◌, Bool, true, false, not, Bool-cases, inl, inr, List, [], ◌∷◌,
  map, retain, ◌==◌, ==_iff, arith,
}
use horaedb.Prelude.Result.{Result, ok, err, panic}
use horaedb.Prelude.Exec.{attempt}
use horaedb.Prelude.Triple.{Triple, Triple-pure, Triple-bind, Triple-then}
use horaedb.Sst.{FileId}
use horaedb.Manifest.{Manifest, or_fail, dec_delta_num}
use horaedb.Manifest.Encoding.{ManifestUpdate, Snapshot, into_ssts, contains}
use horaedb.Manifest.Env.{Env, delta_path}
use horaedb.Manifest.Disk.{Disk, snapshot_in, snapshot_at, update_in, update_at}
use horaedb.Manifest.Merge.Recovery.{all_deletes, contains-append}
use horaedb.Manifest.Merge.Resurrect.{lists}
use horaedb.Manifest.Merger.{delete_delta_file, count_deleted, delete_delta_files}
use horaedb.Manifest.Merger.Restart.{IsReadable, Restores}
use mathlib.Core.Path.{fun_ext}

-- The delta files that are left when one goes decode as before, and delete no more.
remaining_decoded :
    (i : FileId) (n : ℕ) (f f' : ℕ → Result ManifestUpdate) (ns : List ℕ) (us : List ManifestUpdate)
    → ((k : ℕ) → (n == k) ≡ false → f' k ≡ f k)
    → map f ns ≡ map ok us
    → contains (all_deletes us) i ≡ false
    → (us' : List ManifestUpdate) × (map f' (retain (λ k. not (n == k)) ns) ≡ map ok us')
      × (contains (all_deletes us') i ≡ false)
remaining_decoded i n f f' [] us same e undeleted = ([], refl, unfold contains in refl)
remaining_decoded i n f f' (k ∷ ns) [] same e undeleted = cc
remaining_decoded i n f f' (k ∷ ns) (u ∷ us) same e undeleted =
    let first : f k ≡ ok u = cc in
    let others : map f ns ≡ map ok us = cc in
    let both = contains-append u.to_deletes (all_deletes us) i in
    let (us', reads, rest) = remaining_decoded i n f f' ns us same others (ground (arith, both)) in
    elim (Bool-cases (n == k)) [
      | inl eq ↦ (us', rw eq reads, rest)
      | inr ne ↦ (
        u ∷ us',
        rw ne (ap₂ (λ (r : Result ManifestUpdate) l. r ∷ l) (same k ne ∙ first) reads),
        ground (arith, both, contains-append u.to_deletes (all_deletes us') i),
      )
    ]

module _ {S Q : Type 0} ⦃env : Env S Q⦄ (disk : Disk env) where
  -- The snapshot lists the file, and no delta file that is left deletes it.
  pub record Merged (i : FileId) (s : S) : Type 0 where
    pub snapshot : Snapshot
    pub updates : List ManifestUpdate
    pub readable : IsReadable disk s snapshot updates
    pub listed : lists (into_ssts snapshot) i ≡ true
    pub undeleted : contains (all_deletes updates) i ≡ false

  pub Merged-Restores : (i : FileId) (s : S) → Merged i s → Restores disk i s
  Merged-Restores i s h = record {
    snapshot = h.snapshot;
    updates = h.updates;
    readable = h.readable;
    listed = rw (h.listed, h.undeleted) refl;
  }

  same_update :
      (n : ℕ) (t : S)
      → disk.read (delta_path n) (env.delete (delta_path n) t).1 ≡ disk.read (delta_path n) t
      → (k : ℕ) → update_at disk (env.delete (delta_path n) t).1 k ≡ update_at disk t k
  unfolding update_at
  same_update n t e k = elim (Bool-cases (n == k)) [
    | inl eq ↦
        let same : n ≡ k = (==_iff n k).0 eq in
        ap (update_in env.decode) (
          subst
            (λ j.
              disk.read (delta_path j) (env.delete (delta_path n) t).1 ≡ disk.read (delta_path j) t)
            same e)
    | inr ne ↦ ap (update_in env.decode) (disk.delete-others n k t ne)
  ]

  -- A deletion of one delta file leaves the others, and the snapshot, as they are.
  deletes_one : (i : FileId) (n : ℕ) (t : S) → Merged i t → Merged i (env.delete (delta_path n) t).1
  unfolding snapshot_at update_at
  deletes_one i n t h = elim (Bool-cases (env.delete (delta_path n) t).0) [
    | inl e ↦
        let (us, reads, undeleted) =
          remaining_decoded i n (update_at disk t) (update_at disk (env.delete (delta_path n) t).1)
            (disk.delta_ids t) h.updates
            (λ k ne. ap (update_in env.decode) (disk.delete-others n k t ne))
            h.readable.updates_read h.undeleted in
        record {
          snapshot = h.snapshot;
          updates = us;
          readable = record {
            snapshot_read =
                ap (snapshot_in env.byte_order) (disk.delete-snapshot n t)
                ∙ h.readable.snapshot_read;
            updates_read =
                ap (map (update_at disk (env.delete (delta_path n) t).1)) (disk.delete-ids n t e)
                ∙ reads;
          };
          listed = h.listed;
          undeleted = undeleted;
        }
    | inr e ↦
        let (read, ids) = disk.delete-failed n t e in
        record {
          snapshot = h.snapshot;
          updates = h.updates;
          readable = record {
            snapshot_read =
                ap (snapshot_in env.byte_order) (disk.delete-snapshot n t)
                ∙ h.readable.snapshot_read;
            updates_read =
                ap₂ (λ (f : ℕ → Result ManifestUpdate) ns. map f ns)
                  (fun_ext (same_update n t read)) ids
                ∙ h.readable.updates_read;
          };
          listed = h.listed;
          undeleted = h.undeleted;
        }
  ]

  abbrev pub MergedIn : FileId → Manifest S Q → Type 0
  MergedIn i m = Merged i m.store

  or_fail-MergedIn :
      (i : FileId) (b : Bool) (m : Manifest S Q) → MergedIn i m → MergedIn i (or_fail b m).1
  or_fail-MergedIn i true m h = h
  or_fail-MergedIn i false m h = h

  deletes_attempt :
      (i : FileId) (R : Manifest S Q → Type 0) (n : ℕ)
      → Triple (MergedIn i) (λ _. MergedIn i) R (attempt (delete_delta_file (delta_path n)))
  unfolding delete_delta_file
  deletes_attempt i R n = record {
    run = λ m h.
        or_fail-MergedIn i (env.delete (delta_path n) m.store).0
          (record m { store = (env.delete (delta_path n) m.store).1 }) (deletes_one i n m.store h);
  }

  counts :
      (i : FileId) (R : Manifest S Q → Type 0) (v : Result (Unit {0}))
      → Triple (MergedIn i) (λ _. MergedIn i) R (count_deleted v)
  unfolding dec_delta_num
  counts i R (ok u) = record { run = λ m h. h }
  counts i R (err e) = record { run = λ m h. h }
  counts i R panic = record { run = λ m h. h }

  pub deletes_all :
      (i : FileId) (R : Manifest S Q → Type 0) (ns : List ℕ)
      → Triple (MergedIn i) (λ _. MergedIn i) R (delete_delta_files (map delta_path ns))
  unfolding delete_delta_files
  deletes_all i R [] = Triple-pure _ tt (λ m h. h)
  deletes_all i R (n ∷ ns) =
      Triple-bind (λ _. MergedIn i) (λ _. MergedIn i) _ _ (deletes_attempt i R n)
        λ v. Triple-then (MergedIn i) (λ _. MergedIn i) _ _ (counts i R v) (deletes_all i R ns)
