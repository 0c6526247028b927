-- ===== src/Manifest/Merger/Restart.antt =====
-- What a restart reads from a store, and the merge of `do_merge` on it.
use horaedb.Prelude.{
  ◌+◌, ◌*◌, ◌^◌, ◌<◌, ◌≡◌, ◌≢◌, refl, sym, ap, ap₂, subst, ◌∙◌, Bool, true, false, not, ◌&&◌, ◌||◌,
  Bool-cases, inl, inr, List, [], ◌∷◌, ◌++◌, map, All, All-append_left, All-append_right, length,
  length-append, length-map, ◌==◌, arith,
}
use horaedb.Prelude.Result.{Result, ok, err, panic, ok-injective, >>=-eq-ok}
use horaedb.Sst.{FileId, SstFile}
use horaedb.Manifest.Bytes.{ByteOrder}
use horaedb.Manifest.Encoding.{
  ManifestUpdate, Snapshot, add_records, into_ssts, sst_from, into_bytes, snapshot_try_from,
  contains, record_length, header_length,
}
use horaedb.Manifest.Encoding.Valid.{SnapshotIsValid}
use horaedb.Manifest.Encoding.Edit.{
  HasRoom, FileInRange, add_records-IsValid, delete_records-IsValid,
}
use horaedb.Manifest.Encoding.RoundTrip.{snapshot_try_from-into_bytes}
use horaedb.Manifest.Env.{Env}
use horaedb.Manifest.Disk.{Disk, snapshot_at, update_at}
use horaedb.Manifest.Merge.{merge_deltas, merge_snapshot}
use horaedb.Manifest.Merge.Recovery.{all_adds, all_deletes}
use horaedb.Manifest.Merge.Resurrect.{lists, lists-merge_snapshot}

-- Whether a merge of these deltas into this snapshot lists the file.
abbrev pub restored : Snapshot → List ManifestUpdate → FileId → Bool
restored snapshot updates i =
    (lists (into_ssts snapshot) i || lists (all_adds updates) i)
    && not (contains (all_deletes updates) i)

-- The snapshot and all delta files can be read.
pub record IsReadable {S Q : Type 0} {env : Env S Q} (disk : Disk env) (s : S) (snapshot : Snapshot)
    (updates : List ManifestUpdate) : Type 0 where
  pub snapshot_read : snapshot_at disk s ≡ ok snapshot
  pub updates_read : map (update_at disk s) (disk.delta_ids s) ≡ map ok updates

-- A restart from the store lists the file.
pub record Restores {S Q : Type 0} {env : Env S Q} (disk : Disk env) (i : FileId) (s : S)
    : Type 0 where
  pub snapshot : Snapshot
  pub updates : List ManifestUpdate
  pub readable : IsReadable disk s snapshot updates
  pub listed : restored snapshot updates i ≡ true

-- What is read fits the byte format.
pub record Fits (snapshot : Snapshot) (updates : List ManifestUpdate) : Type 0 where
  pub valid : SnapshotIsValid snapshot
  pub in_range : All FileInRange (all_adds updates)
  pub room :
      (length snapshot.records + length (all_adds updates)) * record_length + header_length < 2 ^ 64

pub map-ok-injective : (us vs : List ManifestUpdate) → map ok us ≡ map ok vs → us ≡ vs
map-ok-injective [] [] e = refl
map-ok-injective [] (v ∷ vs) e = cc
map-ok-injective (u ∷ us) [] e = cc
map-ok-injective (u ∷ us) (v ∷ vs) e =
    let first : u ≡ v = cc in
    let others : map ok us ≡ map ok vs = cc in
    ap₂ (λ (w : ManifestUpdate) l. w ∷ l) first (map-ok-injective us vs others)

-- A merge that returns had decoded deltas only.
pub merge_deltas-decoded :
    (s : Snapshot) (ds : List FileId) (results : List (Result ManifestUpdate))
    {p : Snapshot × List FileId}
    → merge_deltas s ds results ≡ ok p
    → (us : List ManifestUpdate) × (results ≡ map ok us)
unfolding merge_deltas
merge_deltas-decoded s ds [] e = ([], refl)
merge_deltas-decoded s ds (ok u ∷ results) e =
    let (us, same) =
      merge_deltas-decoded (add_records s u.to_adds) (ds ++ u.to_deletes) results e in
    (u ∷ us, ap (λ l. ok u ∷ l) same)
merge_deltas-decoded s ds (err z ∷ results) e = cc
merge_deltas-decoded s ds (panic ∷ results) e = cc

length-add_records :
    (s : Snapshot) (fs : List SstFile)
    → length (add_records s fs).records ≡ length s.records + length fs
unfolding add_records
length-add_records s fs = rw (length-append, length-map) refl

merge_deltas-IsValid :
    (s : Snapshot) (ds : List FileId) (us : List ManifestUpdate) {p : Snapshot × List FileId}
    → Fits s us
    → merge_deltas s ds (map ok us) ≡ ok p
    → SnapshotIsValid p.0
unfolding merge_deltas
merge_deltas-IsValid s ds [] h e =
    subst (λ (q : Snapshot × List FileId). SnapshotIsValid q.0) (ok-injective e) h.valid
merge_deltas-IsValid s ds (u ∷ us) h e =
    let total = length-append u.to_adds (all_adds us) in
    let grown = length-add_records s u.to_adds in
    let next : Fits (add_records s u.to_adds) us = record {
      valid =
          add_records-IsValid s u.to_adds h.valid
            (All-append_left FileInRange u.to_adds (all_adds us) h.in_range)
            (omega (arith, total, h.room));
      in_range = All-append_right FileInRange u.to_adds (all_adds us) h.in_range;
      room = omega (arith, total, grown, h.room);
    } in
    merge_deltas-IsValid (add_records s u.to_adds) (ds ++ u.to_deletes) us next e

into_ssts-nonempty : (s : Snapshot) (i : FileId) → lists (into_ssts s) i ≡ true → s.records ≢ []
unfolding into_ssts
into_ssts-nonempty s i e n =
    let nothing : into_ssts s ≡ [] = elim (Bool-cases (s.header.length == 0)) [
      | inl t ↦ rw t refl
      | inr t ↦ rw t (ap (map sst_from) n)
    ] in
    let none : false ≡ true = sym (ap (λ l. lists l i) nothing) ∙ e in cc

-- A merge that returns gives a snapshot that lists the file and that can be read again.
pub merge_snapshot-read :
    ⦃o : ByteOrder⦄ (debug : Bool) (s : Snapshot) (us : List ManifestUpdate) {s' : Snapshot}
    (i : FileId)
    → Fits s us
    → restored s us i ≡ true
    → merge_snapshot debug s (map ok us) ≡ ok s'
    → (snapshot_try_from (into_bytes s') ≡ ok s') × (lists (into_ssts s') i ≡ true)
unfolding merge_snapshot
merge_snapshot-read debug s us {s'} i h r e =
    let room : HasRoom s (length (all_adds us) + 0) = record {
      counted = h.valid.counted;
      room = omega (arith, h.room);
    } in
    let (room', same) = lists-merge_snapshot debug s us 0 i room e in
    let (p, merged, deleted) = >>=-eq-ok (merge_deltas s [] (map ok us)) _ e in
    let valid =
      delete_records-IsValid debug p.0 p.1 (merge_deltas-IsValid s [] us h merged) deleted in
    let listed = same ∙ r in
    (snapshot_try_from-into_bytes s' valid (into_ssts-nonempty s' i listed), listed)
