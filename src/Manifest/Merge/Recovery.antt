-- ===== src/Manifest/Merge/Recovery.antt =====
-- What a restart reads back from the snapshot and the delta files, against the cached list of files.
use horaedb.Prelude.{
  ℕ, ◌+◌, ◌≡◌, refl, sym, ap, subst, ◌∙◌, Bool, true, false, not, ◌&&◌, ◌||◌, List, [], ◌∷◌, ◌++◌,
  map, map-append, append_assoc, append-nil, All, length, length-append, retain, retain-append,
  retain-retain, ◌==◌, arith,
}
use horaedb.Prelude.Perms.{any-Permᴰ, retain-Permᴰ, concat_map, concat_map-Permᴰ}
use horaedb.Prelude.Result.{ok}
use horaedb.Sst.{FileId, SstFile}
use horaedb.Manifest.Encoding.{ManifestUpdate, Snapshot, into_ssts, add_records, contains}
use horaedb.Manifest.Encoding.Edit.{
  HasRoom, HasRoom-mono, stored, stored_iff, kept, add_records-HasRoom, into_ssts-add_records,
  into_ssts-delete_records, delete_records_release,
}
use horaedb.Manifest.Merge.{apply_update, merge_deltas, merge_snapshot}
use mathlib.Core.Path.{fun_ext}
use mathlib.Core.Logic.{∥∥₁_elim}
use mathlib.Core.List.{Perm, Permᴰ, Perm-prop}
use mathlib.Core.List.Perm

abbrev pub all_adds : List ManifestUpdate → List SstFile
all_adds = concat_map (λ u. u.to_adds)

abbrev pub all_deletes : List ManifestUpdate → List FileId
all_deletes = concat_map (λ u. u.to_deletes)

-- The cached list after a sequence of updates.
unfoldable pub apply_updates : List SstFile → List ManifestUpdate → List SstFile
unfolding apply_update
apply_updates ssts [] = ssts
apply_updates ssts (u ∷ us) = apply_updates (apply_update ssts u) us

-- No update adds a file whose id an earlier update deleted: ids are not used again.
abbrev pub AddsAreFresh : List ManifestUpdate → Type 0
AddsAreFresh [] = Unit
AddsAreFresh (u ∷ us) = All (λ f. kept u.to_deletes f ≡ true) (all_adds us) × AddsAreFresh us

pub contains-append :
    (is js : List FileId) (i : FileId) → contains (is ++ js) i ≡ (contains is i || contains js i)
unfolding contains
contains-append [] js i = refl
contains-append (j ∷ is) js i = ground (arith, contains-append is js i)

kept-append : (is js : List FileId) (f : SstFile) → kept (is ++ js) f ≡ (kept is f && kept js f)
kept-append is js f = ground (arith, contains-append is js f.id)

retain-kept-append :
    (is js : List FileId) (l : List SstFile)
    → retain (kept (is ++ js)) l ≡ retain (kept js) (retain (kept is) l)
retain-kept-append is js l =
    ap (λ (p : SstFile → Bool). retain p l) (fun_ext (kept-append is js))
    ∙ sym (retain-retain (kept js) (kept is) l)

retain-All : (p : SstFile → Bool) (l : List SstFile) → All (λ f. p f ≡ true) l → retain p l ≡ l
retain-All p [] h = refl
retain-All p (f ∷ fs) (h, hs) = rw (h, retain-All p fs hs)

retain_true : (l : List SstFile) → retain (kept []) l ≡ l
unfolding contains
retain_true [] = refl
retain_true (f ∷ fs) = ap (λ l. f ∷ l) (retain_true fs)

-- The cached list is what adding all files and then deleting all ids gives.
apply_updates-retain :
    (ssts : List SstFile) (us : List ManifestUpdate)
    → AddsAreFresh us
    → apply_updates ssts us ≡ retain (kept (all_deletes us)) (ssts ++ all_adds us)
unfolding apply_updates
apply_updates-retain ssts [] h = rw append-nil (sym (retain_true ssts))
apply_updates-retain ssts (u ∷ us) (fresh, h) =
    apply_updates-retain (retain (kept u.to_deletes) (ssts ++ u.to_adds)) us h
    ∙ rw (
      retain-kept-append u.to_deletes (all_deletes us),
      ← append_assoc ssts u.to_adds (all_adds us),
      retain-append (kept u.to_deletes) (ssts ++ u.to_adds) (all_adds us),
      retain-All (kept u.to_deletes) (all_adds us) fresh,
    )

-- The loop returns on decoded deltas; all files are added and all deletions collected.
merge_deltas-ok :
    (s : Snapshot) (ds : List FileId) (us : List ManifestUpdate) (n : ℕ)
    → HasRoom s (length (all_adds us) + n)
    → (s' : Snapshot) × (merge_deltas s ds (map ok us) ≡ ok (s', ds ++ all_deletes us))
      × HasRoom s' n
      × (into_ssts s' ≡ into_ssts s ++ map stored (all_adds us))
unfolding merge_deltas
merge_deltas-ok s ds [] n h =
    (s, rw append-nil, subst (HasRoom s) (omega arith) h, sym (append-nil (into_ssts s)))
merge_deltas-ok s ds (u ∷ us) n h =
    let total = length-append u.to_adds (all_adds us) in
    let room =
      HasRoom-mono s {m = length u.to_adds + (length (all_adds us) + n)} h (omega (arith, total)) in
    let (s', returns, room', files) =
      merge_deltas-ok (add_records s u.to_adds) (ds ++ u.to_deletes) us n
        (add_records-HasRoom s u.to_adds (length (all_adds us) + n) room) in
    (
      s',
      returns ∙ rw append_assoc,
      room',
      files
          ∙ rw (
            into_ssts-add_records s u.to_adds (HasRoom-mono s h (omega (arith, total))),
            map-append,
            append_assoc,
          ),
    )

-- Let the snapshot's header count its records, and these fit 2^64 bytes with those to be added. A
-- merge that returns gives the files of the snapshot and behind them those of all deltas, less all
-- deleted ids. The files of the deltas are as a record of the snapshot stores them: their maximal
-- sequence becomes their id.
pub into_ssts-merge_snapshot :
    (debug : Bool) (s : Snapshot) (us : List ManifestUpdate) (n : ℕ) {s' : Snapshot}
    → HasRoom s (length (all_adds us) + n)
    → merge_snapshot debug s (map ok us) ≡ ok s'
    → HasRoom s' n
      × (into_ssts s' ≡ retain (kept (all_deletes us)) (into_ssts s ++ map stored (all_adds us)))
unfolding merge_snapshot
into_ssts-merge_snapshot debug s us n h e =
    let (added, returns, room, files) = merge_deltas-ok s [] us n h in
    let (room', kept_files) =
      into_ssts-delete_records debug added (all_deletes us) n room (rw returns at e) in
    (room', kept_files ∙ ap (retain (kept (all_deletes us))) files)

-- Files whose maximal sequence is their id, as both writers of SST files set it.
abbrev pub SequenceIsId : SstFile → Type 0
SequenceIsId f = f.meta.max_sequence ≡ f.id

map-stored_id : (fs : List SstFile) → All SequenceIsId fs → map stored fs ≡ fs
map-stored_id [] h = refl
map-stored_id (f ∷ fs) (h, hs) = rw ((stored_iff f).1 h, map-stored_id fs hs)

kept-Permᴰ : {is js : List FileId} → Permᴰ is js → (f : SstFile) → kept is f ≡ kept js f
unfolding contains
kept-Permᴰ d f = ap not (any-Permᴰ (λ j. j == f.id) d)

all_deletes-kept :
    {us vs : List ManifestUpdate} → Permᴰ us vs → kept (all_deletes us) ≡ kept (all_deletes vs)
all_deletes-kept d =
    ∥∥₁_elim (concat_map-Permᴰ (λ (u : ManifestUpdate). u.to_deletes) d) (keep_set _ _)
      λ e. fun_ext (kept-Permᴰ e)
  where
    keep_set : IsSet (SstFile → Bool)
    keep_set = hlevel

retain-Perm :
    (p : SstFile → Bool) {fs gs : List SstFile} → Perm fs gs → Perm (retain p fs) (retain p gs)
retain-Perm p h = ∥∥₁_elim h Perm-prop (retain-Permᴰ p)

merged-Permᴰ :
    (debug : Bool) (s : Snapshot) (us vs : List ManifestUpdate) {s' : Snapshot}
    → HasRoom s (length (all_adds vs))
    → Permᴰ vs us
    → AddsAreFresh us
    → All SequenceIsId (all_adds vs)
    → merge_snapshot debug s (map ok vs) ≡ ok s'
    → Perm (into_ssts s') (apply_updates (into_ssts s) us)
merged-Permᴰ debug s us vs h d fresh ids e =
    rw
      (
        (into_ssts-merge_snapshot debug s vs 0 (HasRoom-mono s h (omega arith)) e).1,
        map-stored_id (all_adds vs) ids,
        all_deletes-kept d,
        apply_updates-retain (into_ssts s) us fresh,
      )
      (retain-Perm (kept (all_deletes us))
        (Perm.append_left (into_ssts s) (concat_map-Permᴰ (λ (u : ManifestUpdate). u.to_adds) d)))

-- A restart reads back the cached list, up to order: whatever order `vs` the delta files of the
-- updates `us` are listed in, a merge that returns has the files that `us` leave of the old ones.
-- Ids are not used again after their deletion, and each file's maximal sequence is its id.
pub recovery :
    (debug : Bool) (s : Snapshot) (us vs : List ManifestUpdate) {s' : Snapshot}
    → HasRoom s (length (all_adds vs))
    → Perm vs us
    → AddsAreFresh us
    → All SequenceIsId (all_adds vs)
    → merge_snapshot debug s (map ok vs) ≡ ok s'
    → Perm (into_ssts s') (apply_updates (into_ssts s) us)
recovery debug s us vs h p fresh ids e =
    ∥∥₁_elim p Perm-prop λ d. merged-Permᴰ debug s us vs h d fresh ids e

-- In a release build the merge of deltas that decode returns, if the snapshot has room for their files.
pub merge_snapshot_returns :
    (s : Snapshot) (us : List ManifestUpdate)
    → HasRoom s (length (all_adds us))
    → (s' : Snapshot) × (merge_snapshot false s (map ok us) ≡ ok s')
unfolding merge_snapshot
merge_snapshot_returns s us h =
    let (added, returns, room, files) =
      merge_deltas-ok s [] us 0 (HasRoom-mono s h (omega arith)) in
    let (s', deletes) = delete_records_release added (all_deletes us) in (s', rw returns deletes)
